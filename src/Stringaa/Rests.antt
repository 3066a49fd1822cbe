-- ===== src/Stringaa/Rests.antt =====
-- What is left to read, as one list.
use httpaa.Base.{
  refl, length, take, ◌≤◌, ℕ, ◌<◌, ◌≡◌, sym, ap, ◌∙◌, true, false, not, List, [], ◌∷◌, arith, ltb,
  head_or, tail,
}
use native.Mathlib.Decide.{dec_lt}
use httpaa.Stringaa.Defs.{bytes, begin_read_pos, Stringaa, rest, Readable, next_read_pos, get_char}
use httpaa.Stringaa.Cursor.{is_nil, cursor_refines, rest-nil, rest-cons}

-- The string has come to `s'`, where these bytes are left.
pub record Rests (s' : Stringaa) (l : List ℕ) : Type 0 where
  pub left : rest s' ≡ l
  pub readable : Readable s'

pub next_read_pos-Rests :
    (s : Stringaa) (l : List ℕ) → Rests s l → Rests (next_read_pos s).1 (tail l)
next_read_pos-Rests s l h =
    let (c, t, m, v) = cursor_refines s h.readable in
    record { left = t ∙ ap tail h.left; readable = v }

pub get_char-Rests : (s : Stringaa) (l : List ℕ) → Rests s l → get_char s ≡ head_or l 0
get_char-Rests s l h =
    let (c, t, m, v) = cursor_refines s h.readable in c ∙ ap (λ k. head_or k 0) h.left

-- A byte is left, so the read position is inside the string.
pub Rests-inside : (s : Stringaa) (x : ℕ) (l : List ℕ) → Rests s (x ∷ l) → s.read_pos < s.write_pos
Rests-inside s x l h = elim (dec_lt s.read_pos s.write_pos) [
  | yes p ↦ p
  | no p ↦ let e : [] ≡ x ∷ l = sym (rest-nil s (omega arith)) ∙ h.left in cc
]

pub next_read_pos-more_iff :
    (s : Stringaa) (l : List ℕ) → Rests s l → (next_read_pos s).0 ≡ not (is_nil (tail l))
next_read_pos-more_iff s l h =
    let (c, t, m, v) = cursor_refines s h.readable in m ∙ ap (λ k. not (is_nil (tail k))) h.left

pub Rests-end : (s : Stringaa) → Rests s [] → ltb s.read_pos s.write_pos ≡ false
Rests-end s h = elim (dec_lt s.read_pos s.write_pos) [
  | yes p ↦ let e = rest-cons s h.readable p in let n = h.left in cc
  | no p ↦ ground arith
]

pub Rests-more :
    (s : Stringaa) (x : ℕ) (l : List ℕ) → Rests s (x ∷ l) → ltb s.read_pos s.write_pos ≡ true
Rests-more s x l h = let p = Rests-inside s x l h in ground arith

pub next_read_pos-back :
    (s : Stringaa) (pos : ℕ)
    → record ((next_read_pos s).1) { read_pos = pos } ≡ record s { read_pos = pos }
unfolding next_read_pos
next_read_pos-back s pos = ground arith

-- From the start of a string.
pub begin_read_pos-Rests :
    (s : Stringaa)
    → s.write_pos ≤ length (bytes s)
    → Rests (begin_read_pos s).1 (take s.write_pos (bytes s))
unfolding begin_read_pos
begin_read_pos-Rests s v = record {
  left = refl;
  readable = record { read_in = omega arith; write_in = v };
}
