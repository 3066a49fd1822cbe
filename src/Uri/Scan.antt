-- ===== src/Uri/Scan.antt =====
-- The loops of url/uriaa_rfc2396.h over a class of characters, against the list of the bytes that
-- are left to read.
pub mod Escaped
pub mod Spans
use httpaa.Base.{
  ℕ, zero, suc, ◌+◌, ◌≤◌, ◌<◌, ◌≡◌, refl, sym, ap, ◌∙◌, Bool, true, false, not, ◌&&◌, ◌||◌, List,
  [], ◌∷◌, arith, ◌==◌, if◌then◌else◌, length, head_or, tail, take, drop, length-drop, length-take,
  Bool-cases, inl, inr,
}
use httpaa.Stringaa.Defs.{Stringaa, bytes, rest, Readable, next_read_pos, get_char}
use httpaa.Stringaa.Cursor.{is_nil}
use httpaa.Stringaa.Rests.{
  Rests, next_read_pos-Rests, get_char-Rests, next_read_pos-more_iff, next_read_pos-back,
}
use httpaa.Uri.Chars.{hex_chars}
use httpaa.Uri.Defs.{escaped, CharClass, plain, with_escaped, scan, scan_all}

abbrev pub drop_while : (ℕ → Bool) → List ℕ → List ℕ
drop_while a [] = []
drop_while a (c ∷ l) = elim (a c) [ true ↦ drop_while a l | false ↦ c ∷ l ]

pub scan-plain :
    (a : ℕ → Bool) (fuel : ℕ) (s : Stringaa) (l : List ℕ)
    → a 0 ≡ false
    → Rests s l
    → length l < fuel
    → Rests (scan fuel (plain a) s (head_or l 0)) (drop_while a l)
unfolding scan
scan-plain a zero s l z h lt = absurd (omega arith)
scan-plain a (suc fuel) s [] z h lt = ground (arith, z)
scan-plain a (suc fuel) s (c ∷ []) z h lt =
    ground (arith, next_read_pos-more_iff s (c ∷ []) h, next_read_pos-Rests s (c ∷ []) h)
scan-plain a (suc fuel) s (c ∷ (d ∷ l)) z h lt =
    let s1 = (next_read_pos s).1 in
    let h1 = next_read_pos-Rests s (c ∷ (d ∷ l)) h in
    ground (
      arith,
      next_read_pos-more_iff s (c ∷ (d ∷ l)) h,
      get_char-Rests s1 (d ∷ l) h1,
      scan-plain a fuel s1 (d ∷ l) z h1,
    )

scan_last :
    (fuel : ℕ) (class : CharClass) (s s' : Stringaa) (c : ℕ)
    → class s c ≡ (true, s')
    → (next_read_pos s').0 ≡ false
    → scan (suc fuel) class s c ≡ (next_read_pos s').1
unfolding scan
scan_last fuel class s s' c e more = ground (arith, e, more)

scan_on :
    (fuel : ℕ) (class : CharClass) (s s' : Stringaa) (c : ℕ)
    → class s c ≡ (true, s')
    → (next_read_pos s').0 ≡ true
    → scan (suc fuel) class s c
      ≡ scan fuel class (next_read_pos s').1 (get_char (next_read_pos s').1)
unfolding scan
scan_on fuel class s s' c e more = ground (arith, e, more)

-- A round that goes on: what is left is what the later rounds leave.
pub scan_round :
    (fuel : ℕ) (class : CharClass) (s s' : Stringaa) (c : ℕ) (l m : List ℕ)
    → class s c ≡ (true, s')
    → Rests s' l
    → (tail l ≡ [] → m ≡ [])
    → ((t : Stringaa) → Rests t (tail l) → Rests (scan fuel class t (head_or (tail l) 0)) m)
    → Rests (scan (suc fuel) class s c) m
scan_round fuel class s s' c l m e h last later =
    let s1 = (next_read_pos s').1 in
    let h1 = next_read_pos-Rests s' l h in
    elim (Bool-cases (is_nil (tail l))) [
      | inl n ↦
          let nil : tail l ≡ [] = is_nil-eq (tail l) n in
          rw (scan_last fuel class s s' c e (next_read_pos-more_iff s' l h ∙ ap not n), last nil)
            (rw nil at h1)
      | inr n ↦
          rw
            (
              scan_on fuel class s s' c e (next_read_pos-more_iff s' l h ∙ ap not n),
              get_char-Rests s1 (tail l) h1,
            )
            (later s1 h1)
    ]
  where
    is_nil-eq : (k : List ℕ) → is_nil k ≡ true → k ≡ []
    is_nil-eq [] n = refl
    is_nil-eq (x ∷ k) n = absurd cc

pub scan_stop :
    (fuel : ℕ) (class : CharClass) (s s' : Stringaa) (c : ℕ)
    → class s c ≡ (false, s')
    → scan (suc fuel) class s c ≡ s'
unfolding scan
scan_stop fuel class s s' c e = ground (arith, e)

-- What is left of a readable string is no longer than its write position.
pub rest-short : (s : Stringaa) → length (rest s) < suc s.write_pos
rest-short s =
    omega (
      arith,
      length-drop s.read_pos (take s.write_pos (bytes s)),
      length-take s.write_pos (bytes s),
    )

-- On a readable string, the loop over a class of characters without escaped ones, which does not
-- take 0, drops the bytes of the class from the front of what is left to read, and no more.
pub scan_all-plain :
    (a : ℕ → Bool) (s : Stringaa)
    → a 0 ≡ false
    → Readable s
    → (rest (scan_all (plain a) s) ≡ drop_while a (rest s)) × Readable (scan_all (plain a) s)
unfolding scan_all
scan_all-plain a s z v =
    let h : Rests s (rest s) = record { left = refl; readable = v } in
    let r = scan-plain a (suc s.write_pos) s (rest s) z h (rest-short s) in
    rw (get_char-Rests s (rest s) h) (r.left, r.readable)
