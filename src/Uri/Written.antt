-- ===== src/Uri/Written.antt =====
-- What is in a string that characters are put into one after another.
use httpaa.Base.{
  ℕ, zero, suc, ◌+◌, ◌-◌, ◌≤◌, ◌<◌, ◌≡◌, refl, sym, ap, ◌∙◌, true, List, [], ◌∷◌, ◌++◌, some, arith,
  length, take, set, length-set, length-append, length-take, take_all,
}
use native.Mathlib.Numerals.{add-one}
use native.Mathlib.Decide.{dec_lt}
use mathlib.Core.List.{append_assoc, append-nil}
use httpaa.Stringaa.Defs.{Stringaa, bytes, next_write_pos}
use httpaa.Stringaa.Store.{set_char}
use httpaa.Uri.Escape.{put_char, put_chars}

-- A null-terminated string of this size, into which the bytes have been put from its start: what
-- does not fit in front of the terminating zero is lost.
pub record Holds (size : ℕ) (l : List ℕ) (s : Stringaa) : Type 0 where
  pub sized : s.buf_size ≡ size
  pub block : size ≤ length (bytes s)
  pub terminated : s.is_null_terminated ≡ true
  pub has_buf : s.buf ≡ some (bytes s)
  pub content : take s.write_pos (bytes s) ≡ take (size - 1) l
  pub written_to : s.write_pos ≡ length (take (size - 1) l)

take-set_next :
    (l : List ℕ) (n c : ℕ) → n < length l → take (suc n) (set l n c) ≡ take n l ++ c ∷ []
take-set_next [] n c h = absurd (omega arith)
take-set_next (x ∷ l) zero c h = refl
take-set_next (x ∷ l) (suc n) c h = ap (λ k. x ∷ k) (take-set_next l n c (omega arith))

take-append_over : (n : ℕ) (l m : List ℕ) → n ≤ length l → take n (l ++ m) ≡ take n l
take-append_over zero l m h = refl
take-append_over (suc n) [] m h = absurd (omega arith)
take-append_over (suc n) (x ∷ l) m h = ap (λ k. x ∷ k) (take-append_over n l m (omega arith))

module _ (size : ℕ) (l : List ℕ) (s : Stringaa) (h : Holds size l s) (c : ℕ) where
  -- There is room for one more.
  put_char_fits :
      length l + 1 < size → (s' : Stringaa) × (put_char c s ≡ some s') × Holds size (l ++ c ∷ []) s'
  unfolding put_char set_char next_write_pos
  put_char_fits lt =
      let all : take (size - 1) l ≡ l = take_all l (size - 1) (omega arith) in
      let here : s.write_pos ≡ length l = h.written_to ∙ ap length all in
      let more : take (size - 1) (l ++ c ∷ []) ≡ l ++ c ∷ [] =
        take_all (l ++ c ∷ []) (size - 1) (omega (arith, length-append l (c ∷ []))) in
      let buf = set (bytes s) s.write_pos c in
      (
        record s { buf = some buf; write_pos = s.write_pos + 1 },
        ground (arith, h, here),
        record {
          sized = h.sized;
          block = omega (arith, h.block, length-set (bytes s) s.write_pos c);
          terminated = h.terminated;
          has_buf = refl;
          content =
              ap (λ n. take n buf) (add-one s.write_pos)
              ∙ take-set_next (bytes s) s.write_pos c (omega (arith, h.block, here))
              ∙ ap (λ k. k ++ c ∷ []) (h.content ∙ all)
              ∙ sym more;
          written_to = omega (arith, here, length-append l (c ∷ []), ap length more);
        },
      )

  -- There is none, and nothing changes.
  put_char_full :
      0 < size
      → size ≤ length l + 1
      → (s' : Stringaa) × (put_char c s ≡ some s') × Holds size (l ++ c ∷ []) s'
  unfolding put_char set_char next_write_pos
  put_char_full pos le =
      let same = take-append_over (size - 1) l (c ∷ []) (omega arith) in
      let here : s.write_pos + 1 ≡ size =
        omega (arith, h.written_to, length-take (size - 1) l, pos, le) in
      let kept : s.buf_size - 1 ≡ s.write_pos = omega (arith, here, h.sized) in
      let put : put_char c s ≡ some (record s { write_pos = s.buf_size - 1 }) =
        ground (arith, h, here) in
      (
        s,
        put ∙ ap (λ n. some (record s { write_pos = n })) kept,
        record {
          sized = h.sized;
          block = h.block;
          terminated = h.terminated;
          has_buf = h.has_buf;
          content = h.content ∙ sym same;
          written_to = h.written_to ∙ ap length (sym same);
        },
      )

  put_char-Holds :
      0 < size → (s' : Stringaa) × (put_char c s ≡ some s') × Holds size (l ++ c ∷ []) s'
  put_char-Holds pos = elim (dec_lt (length l + 1) size) [
    | yes p ↦ put_char_fits p
    | no p ↦ put_char_full pos (omega arith)
  ]

-- Putting characters into a string of a positive size never leaves its block.
pub put_chars-Holds :
    (size : ℕ) (l m : List ℕ) (s : Stringaa)
    → 0 < size
    → Holds size l s
    → (s' : Stringaa) × (put_chars m s ≡ some s') × Holds size (l ++ m) s'
put_chars-Holds size l [] s pos h = (s, refl, rw append-nil h)
put_chars-Holds size l (c ∷ m) s pos h =
    let (s1, eq1, h1) = put_char-Holds size l s h c pos in
    let (s2, eq2, h2) = put_chars-Holds size (l ++ c ∷ []) m s1 pos h1 in
    (s2, rw eq1 eq2, rw (append_assoc l (c ∷ []) m) at h2)
