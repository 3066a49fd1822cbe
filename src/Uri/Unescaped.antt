-- ===== src/Uri/Unescaped.antt =====
-- What `uriaa_unescape` leaves.
use httpaa.Base.{
  ℕ, zero, suc, ◌-◌, ◌≤◌, ◌<◌, ◌≡◌, ◌≢◌, ap, ◌∙◌, Bool, true, false, List, [], ◌∷◌, ◌++◌, Option,
  some, arith, length, take, length-take,
}
use Prim.Native.Nat.{◌/◌, ◌%◌}
use mathlib.Core.List.{append_assoc}
use httpaa.Stringaa.Defs.{Stringaa, bytes, next_read_pos, begin_read_pos, begin_write_pos, get_char}
use httpaa.Stringaa.Rests.{
  Rests, next_read_pos-Rests, get_char-Rests, next_read_pos-more_iff, begin_read_pos-Rests,
}
use httpaa.Stringaa.Store.{malloc_buf}
use httpaa.Uri.Escape.{
  hex_digit, escape_char, digit_value, unescape_char, put_chars, unescape_round, unescape_loop,
  unescape,
}
use httpaa.Uri.Written.{Holds, put_chars-Holds}
use httpaa.Uri.Escaped.{empty-Holds}

digit_value-hex_digit : (n : ℕ) → n < 16 → digit_value (hex_digit n) ≡ some n
digit_value-hex_digit n h = ground arith

-- The digits that are written for a byte are read as that byte.
pub unescape_char-escape_char :
    (c : ℕ) → c < 256 → unescape_char (escape_char c).0 (escape_char c).1 ≡ some c
unfolding escape_char unescape_char
unescape_char-escape_char c h =
    rw (digit_value-hex_digit (c / 16) (omega arith), digit_value-hex_digit (c % 16) (omega arith))
      (ap some (omega arith))

-- Without a `%` among the bytes that are left, every byte is written as it is.
abbrev pub NoPercent : List ℕ → Type 0
NoPercent [] = Unit {0}
NoPercent (c ∷ l) = (c ≢ b'%') × NoPercent l

module _ (fuel : ℕ) (unreserved flag : Bool) (out out1 s : Stringaa) (c : ℕ) (plain : c ≢ b'%')
    (here : get_char s ≡ c) (put : put_chars (c ∷ []) out ≡ some out1) where
  plain_round : unescape_round unreserved flag s ≡ (some (c ∷ []), flag, s)
  unfolding unescape_round
  plain_round = ground (arith, here, plain)

  plain_last :
      (next_read_pos s).0 ≡ false
      → unescape_loop (suc fuel) unreserved flag out s ≡ some (true, out1, (next_read_pos s).1)
  unfolding unescape_loop
  plain_last more = ground (arith, plain_round, put, more)

  plain_on :
      (next_read_pos s).0 ≡ true
      → unescape_loop (suc fuel) unreserved flag out s
        ≡ unescape_loop fuel unreserved flag out1 (next_read_pos s).1
  unfolding unescape_loop
  plain_on more = ground (arith, plain_round, put, more)

unescape_loop_plain :
    (size : ℕ) (unreserved flag : Bool)
    → 0 < size
    → (fuel c : ℕ) (l m : List ℕ) (out s : Stringaa) → Rests s (c ∷ l)
    → NoPercent (c ∷ l)
    → Holds size m out
    → length (c ∷ l) ≤ fuel
    → (out' s' : Stringaa) × (unescape_loop fuel unreserved flag out s ≡ some (true, out', s'))
      × Holds size (m ++ c ∷ l) out'
unescape_loop_plain size unreserved flag pos zero c l m out s hu np h le = absurd (omega arith)
unescape_loop_plain size unreserved flag pos (suc fuel) c [] m out s hu np h le =
    let (out1, eq, h1) = put_chars-Holds size m (c ∷ []) out pos h in
    (
      out1,
      (next_read_pos s).1,
      plain_last fuel unreserved flag out out1 s c np.0 (get_char-Rests s (c ∷ []) hu) eq
          (next_read_pos-more_iff s (c ∷ []) hu),
      h1,
    )
unescape_loop_plain size unreserved flag pos (suc fuel) c (d ∷ l) m out s hu np h le =
    let (out1, eq, h1) = put_chars-Holds size m (c ∷ []) out pos h in
    let (out', s', eq', h') =
      unescape_loop_plain size unreserved flag pos fuel d l (m ++ c ∷ []) out1 (next_read_pos s).1
        (next_read_pos-Rests s (c ∷ (d ∷ l)) hu) np.1 h1 (omega arith) in
    (
      out',
      s',
      plain_on fuel unreserved flag out out1 s c np.0 (get_char-Rests s (c ∷ (d ∷ l)) hu) eq
            (next_read_pos-more_iff s (c ∷ (d ∷ l)) hu)
          ∙ eq',
      rw (append_assoc m (c ∷ []) (d ∷ l)) at h',
    )

-- On a readable string that is not empty and holds no `%`, with a target that has no memory of its
-- own and where memory is there, `uriaa_unescape` returns 1, and leaves all bytes of the string but
-- the last one in the target.
pub unescape_lem :
    (malloc : ℕ → Option (List ℕ)) (out s : Stringaa) (unreserved : Bool) (block : List ℕ)
    → out.is_alloc ≡ false
    → 0 < s.write_pos
    → s.write_pos ≤ length (bytes s)
    → NoPercent (take s.write_pos (bytes s))
    → malloc s.write_pos ≡ some block
    → (out' s' : Stringaa) × (unescape malloc out s unreserved ≡ some (true, out', s'))
      × (take out'.write_pos (bytes out') ≡ take (s.write_pos - 1) (take s.write_pos (bytes s)))
unfolding unescape
unescape_lem malloc out s unreserved block e pos v np given =
    on (take s.write_pos (bytes s)) (begin_read_pos-Rests s v)
      (omega (arith, length-take s.write_pos (bytes s))) np
      (empty-Holds malloc out s.write_pos block e pos given)
  where
    on :
        (k : List ℕ)
        → Rests (begin_read_pos s).1 k
        → length k ≡ s.write_pos
        → NoPercent k
        → Holds s.write_pos []
            (record ((begin_write_pos (malloc_buf malloc out s.write_pos).1).1) { is_init = true })
        → (out' s' : Stringaa) × (unescape malloc out s unreserved ≡ some (true, out', s'))
          × (take out'.write_pos (bytes out') ≡ take (s.write_pos - 1) k)
    on [] h len np start = absurd (omega arith)
    on (c ∷ l) h len np start =
        let (out', s', eq, h') =
          unescape_loop_plain s.write_pos unreserved false pos (suc s.write_pos) c l []
            (record ((begin_write_pos (malloc_buf malloc out s.write_pos).1).1) { is_init = true })
            (begin_read_pos s).1 h np start (omega arith) in
        (out', s', eq, h'.content)
