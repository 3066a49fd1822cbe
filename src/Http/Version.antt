-- ===== src/Http/Version.antt =====
-- `http11_http_version` on a version that is written out.
use httpaa.Base.{
  ℕ, zero, suc, ◌+◌, ◌-◌, ◌*◌, ◌≤◌, ◌<◌, ◌≡◌, refl, sym, ap, ◌∙◌, true, false, List, [], ◌∷◌, ◌++◌,
  some, arith, leb, length, take, drop, head_or, map, codes, take-take, take-drop,
  take-append_length, length-append, length-drop, length-take,
}
use native.Mathlib.Nat.{add-zero}
use httpaa.Stringaa.Defs.{Stringaa, bytes, bytes_of, rest, Readable, next_read_pos, to_upper}
use httpaa.Http.Chars.{digit}
use httpaa.Stringaa.Rests.{Rests, next_read_pos-Rests, get_char-Rests}
use httpaa.Http.Words.{match_word-found}
use httpaa.Http.Defs.{Httpaa}
use httpaa.Http.RequestLine.{
  digits_loop, to_int, atoi_from, number_at, version_number, http_version, major_number,
}

abbrev pub AllDigits : List ℕ → Type 0
AllDigits [] = Unit {0}
AllDigits (c ∷ cs) = (digit c ≡ true) × AllDigits cs

-- The number that decimal digits stand for, behind the number `n`.
abbrev pub decimal : ℕ → List ℕ → ℕ
decimal n [] = n
decimal n (c ∷ cs) = decimal (n * 10 + (c - b'0')) cs

atoi_from-decimal : (n : ℕ) (ds : List ℕ) → AllDigits ds → atoi_from n ds ≡ decimal n ds
unfolding atoi_from
atoi_from-decimal n [] a = refl
atoi_from-decimal n (c ∷ cs) a = ground (arith, a.0, atoi_from-decimal (n * 10 + (c - b'0')) cs a.1)

next_read_pos-buf : (s : Stringaa) → (next_read_pos s).1.buf ≡ s.buf
unfolding next_read_pos
next_read_pos-buf s = ground arith

digits_loop_lem :
    (fuel n : ℕ) (s : Stringaa) (ds r : List ℕ)
    → Rests s (ds ++ r)
    → AllDigits ds
    → digit (head_or r 0) ≡ false
    → length ds < fuel
    → (s' : Stringaa) × (digits_loop fuel n s ≡ (n + length ds, s')) × Rests s' r × (s'.buf ≡ s.buf)
unfolding digits_loop
digits_loop_lem zero n s ds r h a e lt = absurd (omega arith)
digits_loop_lem (suc fuel) n s [] r h a e lt =
    (s, ground (arith, get_char-Rests s r h, add-zero n), h, refl)
digits_loop_lem (suc fuel) n s (d ∷ ds) r h a e lt =
    let s1 = (next_read_pos s).1 in
    let (s', eq, h', b) =
      digits_loop_lem fuel (n + 1) s1 ds r (next_read_pos-Rests s (d ∷ (ds ++ r)) h) a.1 e
        (omega arith) in
    (s', ground (arith, get_char-Rests s (d ∷ (ds ++ r)) h, a.0, eq), h', b ∙ next_read_pos-buf s)

-- The bytes at the read position are the front of what is left.
slice-Rests :
    (s : Stringaa) (ds r : List ℕ)
    → Rests s (ds ++ r)
    → take (length ds) (drop s.read_pos (bytes s)) ≡ ds
slice-Rests s ds r h =
    let n = length ds in
    let fits : s.read_pos + n ≤ s.write_pos = omega (
      arith,
      ap length h.left,
      length-append ds r,
      length-drop s.read_pos (take s.write_pos (bytes s)),
      length-take s.write_pos (bytes s),
      h.readable,
    ) in
    take-drop (bytes s) s.read_pos n
    ∙ ap (drop s.read_pos) (sym (take-take (bytes s) (s.read_pos + n) s.write_pos fits))
    ∙ sym (take-drop (take s.write_pos (bytes s)) s.read_pos n)
    ∙ ap (take n) h.left
    ∙ take-append_length ds r

to_int-id : (n : ℕ) → n < 2147483648 → to_int n ≡ n
to_int-id n h = ground arith

-- A number of fewer than 50 digits that is there and fits into an `int`.
number_at_lem :
    (s s' : Stringaa) (ds r : List ℕ)
    → Rests s (ds ++ r)
    → s'.buf ≡ s.buf
    → AllDigits ds
    → length ds < 50
    → decimal 0 ds < 2147483648
    → number_at s' s.read_pos (length ds) ≡ decimal 0 ds
unfolding number_at
number_at_lem s s' ds r h b a lt small =
    let short : leb 50 (length ds) ≡ false = ground arith in
    let same : bytes s' ≡ bytes s = ap bytes_of b in
    rw (short, same, slice-Rests s ds r h, atoi_from-decimal 0 ds a)
      (to_int-id (decimal 0 ds) small)

fits_in : (s : Stringaa) (l : List ℕ) → Rests s l → length l ≤ s.write_pos
fits_in s l h = omega (
  arith,
  ap length h.left,
  length-drop s.read_pos (take s.write_pos (bytes s)),
  length-take s.write_pos (bytes s),
)

-- Where one number begins and ends.
version_number_lem :
    (s : Stringaa) (d : ℕ) (ds r : List ℕ)
    → Rests s (d ∷ (ds ++ r))
    → AllDigits (d ∷ ds)
    → digit (head_or r 0) ≡ false
    → (s' : Stringaa) × (version_number s ≡ some (s.read_pos, length (d ∷ ds), s'))
      × Rests s' r
      × (s'.buf ≡ s.buf)
unfolding version_number
version_number_lem s d ds r h a e =
    let s1 = (next_read_pos s).1 in
    let fit = fits_in s (d ∷ (ds ++ r)) h in
    let (s', eq, h', b) =
      digits_loop_lem (suc s.write_pos) 1 s1 ds r (next_read_pos-Rests s (d ∷ (ds ++ r)) h) a.1 e
        (omega (arith, length-append ds r)) in
    (s', ground (arith, get_char-Rests s (d ∷ (ds ++ r)) h, a.0, eq), h', b ∙ next_read_pos-buf s)

abbrev pub IsNumber : List ℕ → Type 0
IsNumber ds = (0 < length ds) × (length ds < 50) × AllDigits ds × (decimal 0 ds < 2147483648)

numbers_lem :
    (http : Httpaa) (pos : ℕ) (s : Stringaa) (d1 d2 r : List ℕ)
    → Rests s (d1 ++ (b'.' ∷ (d2 ++ r)))
    → IsNumber d1
    → IsNumber d2
    → digit (head_or r 0) ≡ false
    → (s' : Stringaa) × (major_number http pos s (version_number s)
        ≡ (true, record http { major_version = decimal 0 d1; minor_version = decimal 0 d2 }, s'))
      × Rests s' r
numbers_lem http pos s [] d2 r h a1 a2 e = absurd (omega (arith, a1.0))
numbers_lem http pos s (d ∷ ds) [] r h a1 a2 e = absurd (omega (arith, a2.0))
numbers_lem http pos s (d ∷ ds) (d' ∷ ds') r h a1 a2 e =
    let (s1, eq1, h1, b1) = version_number_lem s d ds (b'.' ∷ (d' ∷ (ds' ++ r))) h a1.2 refl in
    let t = (next_read_pos s1).1 in
    let ht = next_read_pos-Rests s1 (b'.' ∷ (d' ∷ (ds' ++ r))) h1 in
    let (s2, eq2, h2, b2) = version_number_lem t d' ds' r ht a2.2 e in
    let n1 =
      number_at_lem s s2 (d ∷ ds) (b'.' ∷ (d' ∷ (ds' ++ r))) h (b2 ∙ next_read_pos-buf s1 ∙ b1) a1.2
        a1.1 a1.3 in
    let n2 = number_at_lem t s2 (d' ∷ ds') r ht b2 a2.2 a2.1 a2.3 in
    (s2, rw (eq1, get_char-Rests s1 (b'.' ∷ (d' ∷ (ds' ++ r))) h1, eq2, n1, n2) refl, h2)

-- On a readable string, the text `HTTP/` in any case of letters, a number of fewer than 50 digits and
-- below 2 ^ 31, a point and another such number, with no digit behind it, are read as the version with these two numbers, and what
-- stands behind them is left to read.
pub http_version_lem :
    (http : Httpaa) (s : Stringaa) (w d1 d2 r : List ℕ)
    → Readable s
    → rest s ≡ w ++ (d1 ++ (b'.' ∷ (d2 ++ r)))
    → map to_upper w ≡ codes "HTTP/"
    → IsNumber d1
    → IsNumber d2
    → digit (head_or r 0) ≡ false
    → (s' : Stringaa) × (http_version http s
        ≡ (true, record http { major_version = decimal 0 d1; minor_version = decimal 0 d2 }, s'))
      × (rest s' ≡ r)
unfolding http_version
http_version_lem http s w d1 d2 r v h m a1 a2 e =
    let (s1, eq1, h1) =
      match_word-found (codes "HTTP/") w (d1 ++ (b'.' ∷ (d2 ++ r))) s m
        (record { left = h; readable = v }) in
    let (s2, eq2, h2) = numbers_lem http s.read_pos s1 d1 d2 r h1 a1 a2 e in
    (s2, rw eq1 eq2, h2.left)
