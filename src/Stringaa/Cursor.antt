-- ===== src/Stringaa/Cursor.antt =====
-- The read position of string/stringaa.h as a list of bytes that is used up from the front.
use httpaa.Base.{
  ℕ, zero, suc, ◌+◌, ◌≤◌, ◌<◌, ◌≡◌, refl, Bool, true, false, List, [], ◌∷◌, arith, length, get_or,
  take, drop, head_or, tail, length-take, not,
}
use native.Mathlib.Numerals.{add-one}
use native.Mathlib.Decide.{dec_lt}
use httpaa.Stringaa.Defs.{
  Stringaa, next_read_pos, prev_read_pos, get_char, bytes, Readable, Writable, rest, next_write_pos,
  prev_write_pos, end_write_pos, begin_write_pos,
}

-- No byte is left.
abbrev pub is_nil : List ℕ → Bool
is_nil [] = true
is_nil (x ∷ xs) = false

drop-take-cons :
    (l : List ℕ) (r w : ℕ)
    → r < w
    → w ≤ length l
    → drop r (take w l) ≡ get_or l r 0 ∷ drop (suc r) (take w l)
drop-take-cons l r zero h k = absurd (omega arith)
drop-take-cons [] r (suc w) h k = absurd (omega arith)
drop-take-cons (x ∷ l) zero (suc w) h k = refl
drop-take-cons (x ∷ l) (suc r) (suc w) h k = drop-take-cons l r w (omega arith) (omega arith)

drop-past : (l : List ℕ) (r : ℕ) → length l ≤ r → drop r l ≡ []
drop-past [] zero h = refl
drop-past [] (suc r) h = refl
drop-past (x ∷ l) zero h = elim h [ ]
drop-past (x ∷ l) (suc r) h = drop-past l r (omega arith)

drop-take-nil : (l : List ℕ) (r w : ℕ) → w ≤ r → drop r (take w l) ≡ []
drop-take-nil l r w h = drop-past (take w l) r (omega (arith, length-take w l))

-- The rest of a readable string at its two ends.
pub rest-cons :
    (s : Stringaa)
    → Readable s
    → s.read_pos < s.write_pos
    → rest s ≡ get_or (bytes s) s.read_pos 0 ∷ drop (suc s.read_pos) (take s.write_pos (bytes s))
rest-cons s v h = drop-take-cons (bytes s) s.read_pos s.write_pos h v.write_in

pub rest-nil : (s : Stringaa) → s.write_pos ≤ s.read_pos → rest s ≡ []
rest-nil s h = drop-take-nil (bytes s) s.read_pos s.write_pos h

-- On a readable string, `stringaa_get_char` is the first byte of what is left to read, or 0 if
-- nothing is left, and `stringaa_next_read_pos` drops that byte, returns 1 exactly when another
-- byte is left behind it, and keeps the string readable.
pub cursor_refines :
    (s : Stringaa)
    → Readable s
    → let (more, s') = next_read_pos s in
      (get_char s ≡ head_or (rest s) 0)
      × (rest s' ≡ tail (rest s))
      × (more ≡ not (is_nil (tail (rest s))))
      × Readable s'
unfolding get_char next_read_pos
cursor_refines s v = elim (dec_lt s.read_pos s.write_pos) [
  | no p ↦ ground (
    arith,
    rest-nil s (omega arith),
    rest-nil (record s { read_pos = s.write_pos }) (omega arith),
  )
  | yes p ↦ elim (dec_lt (s.read_pos + 1) s.write_pos) [
    | no q ↦ ground (
      arith,
      rest-cons s v p,
      drop-take-nil (bytes s) (suc s.read_pos) s.write_pos (omega arith),
      rest-nil (record s { read_pos = s.write_pos }) (omega arith),
    )
    | yes q ↦ ground (
      arith,
      rest-cons s v p,
      add-one s.read_pos,
      drop-take-cons (bytes s) (suc s.read_pos) s.write_pos (omega arith) v.write_in,
    )
  ]
]

-- Where a byte is left, `stringaa_prev_read_pos` undoes `stringaa_next_read_pos`, at the last byte
-- too.
pub prev_read_pos-next_read_pos :
    (s : Stringaa) → s.read_pos < s.write_pos → prev_read_pos (next_read_pos s).1 ≡ (true, s)
unfolding next_read_pos prev_read_pos
prev_read_pos-next_read_pos s h = ground arith

-- The four functions that move the write position keep it, and the terminating zero behind it,
-- inside the buffer, if they were.
pub write_pos-Writable :
    (s : Stringaa)
    → Writable s
    → Writable (next_write_pos s).1
      × Writable (prev_write_pos s).1
      × Writable (begin_write_pos s).1
      × Writable (end_write_pos s).1
unfolding next_write_pos prev_write_pos begin_write_pos end_write_pos
write_pos-Writable s v = ground arith
