-- ===== src/Http/Lines.antt =====
-- `http11_crlf` and `http11_find_crlf` against the list of the bytes that are left to read.
use httpaa.Base.{
  ℕ, zero, suc, ◌<◌, ◌≡◌, refl, ap, ◌∙◌, Bool, true, false, ◌&&◌, List, [], ◌∷◌, Option, none, some,
  arith, ◌==◌, if◌then◌else◌, length, take, head_or, inl, inr, Bool-cases, length-drop, length-take,
}
use httpaa.Stringaa.Defs.{Stringaa, bytes, rest, Readable, next_read_pos, get_char}
use httpaa.Stringaa.Cursor.{prev_read_pos-next_read_pos}
use httpaa.Stringaa.Rests.{
  Rests, next_read_pos-Rests, get_char-Rests, Rests-inside, Rests-end, Rests-more,
  next_read_pos-back,
}
use httpaa.Http.Lexer.{crlf, find_crlf_loop, find_crlf}

-- What stands behind a line end at the front.
abbrev pub after_crlf : List ℕ → Option (List ℕ)
after_crlf [] = none
after_crlf (x ∷ []) = none
after_crlf (x ∷ (y ∷ r)) = if x == 13 && y == 10 then some r else none

abbrev pub CrlfResult : Stringaa → Option (List ℕ) → Bool × Stringaa → Type 0
CrlfResult s none result = result ≡ (false, s)
CrlfResult s (some r) result = (result.0 ≡ true) × Rests result.1 r

crlf_on : (s : Stringaa) (l : List ℕ) → Rests s l → CrlfResult s (after_crlf l) (crlf s)
unfolding crlf
crlf_on s [] h = ground (arith, get_char-Rests s [] h)
crlf_on s (x ∷ []) h =
    let s1 = (next_read_pos s).1 in
    let h1 = next_read_pos-Rests s (x ∷ []) h in
    ground (
      arith,
      get_char-Rests s (x ∷ []) h,
      get_char-Rests s1 [] h1,
      prev_read_pos-next_read_pos s (Rests-inside s x [] h),
    )
crlf_on s (x ∷ (y ∷ r)) h =
    let s1 = (next_read_pos s).1 in
    let h1 = next_read_pos-Rests s (x ∷ (y ∷ r)) h in
    ground (
      arith,
      get_char-Rests s (x ∷ (y ∷ r)) h,
      get_char-Rests s1 (y ∷ r) h1,
      next_read_pos-Rests s1 (y ∷ r) h1,
      prev_read_pos-next_read_pos s (Rests-inside s x (y ∷ r) h),
    )

-- On a readable string, `http11_crlf` reads a carriage return and a line feed if they come next,
-- and otherwise gives the string back unchanged.
pub crlf_lem : (s : Stringaa) → Readable s → CrlfResult s (after_crlf (rest s)) (crlf s)
crlf_lem s v = crlf_on s (rest s) (record { left = refl; readable = v })

-- The bytes from the first line end on.
abbrev pub seek_crlf : List ℕ → Option (List ℕ)
seek_crlf [] = none
seek_crlf (x ∷ []) = none
seek_crlf (x ∷ (y ∷ r)) = if x == 13 && y == 10 then some (x ∷ y ∷ r) else seek_crlf (y ∷ r)

abbrev pub FindResult : ℕ → Stringaa → Option (List ℕ) → Bool × Stringaa → Type 0
FindResult pos s none result = result ≡ (false, record s { read_pos = pos })
FindResult pos s (some r) result = (result.0 ≡ true) × Rests result.1 r

-- What is found from the next character on is found from this one.
FindResult-next :
    (pos : ℕ) (s : Stringaa) (o : Option (List ℕ)) (result : Bool × Stringaa)
    → FindResult pos (next_read_pos s).1 o result
    → FindResult pos s o result
FindResult-next pos s none result h =
    h ∙ ap (λ (t : Stringaa). (false, t)) (next_read_pos-back s pos)
FindResult-next pos s (some r) result h = h

-- A round that finds nothing here.
find_round :
    (fuel pos : ℕ) (s : Stringaa) (x : ℕ) (l : List ℕ)
    → Rests s (x ∷ l)
    → (x == 13 && head_or l 0 == 10) ≡ false
    → find_crlf_loop (suc fuel) pos s x
      ≡ find_crlf_loop fuel pos (next_read_pos s).1 (get_char (next_read_pos s).1)
unfolding find_crlf_loop
find_round fuel pos s x l h e = ground (
  arith,
  Rests-more s x l h,
  get_char-Rests (next_read_pos s).1 l (next_read_pos-Rests s (x ∷ l) h),
)

find_here :
    (fuel pos : ℕ) (s : Stringaa) (x : ℕ) (l : List ℕ)
    → Rests s (x ∷ l)
    → (x == 13 && head_or l 0 == 10) ≡ true
    → find_crlf_loop (suc fuel) pos s x ≡ (true, s)
unfolding find_crlf_loop
find_here fuel pos s x l h e = ground (
  arith,
  Rests-more s x l h,
  get_char-Rests (next_read_pos s).1 l (next_read_pos-Rests s (x ∷ l) h),
  prev_read_pos-next_read_pos s (Rests-inside s x l h),
)

find_on :
    (fuel pos : ℕ) (s : Stringaa) (l : List ℕ)
    → Rests s l
    → length l < fuel
    → FindResult pos s (seek_crlf l) (find_crlf_loop fuel pos s (head_or l 0))
find_on zero pos s l h lt = absurd (omega arith)
find_on (suc fuel) pos s [] h lt = unfold find_crlf_loop in ground (arith, Rests-end s h)
find_on (suc fuel) pos s (x ∷ []) h lt =
    let s1 = (next_read_pos s).1 in
    let h1 = next_read_pos-Rests s (x ∷ []) h in
    let later =
      FindResult-next pos s none (find_crlf_loop fuel pos s1 0)
        (find_on fuel pos s1 [] h1 (omega arith)) in
    rw (find_round fuel pos s x [] h (ground arith), get_char-Rests s1 [] h1) later
find_on (suc fuel) pos s (x ∷ (y ∷ r)) h lt =
    let s1 = (next_read_pos s).1 in
    let h1 = next_read_pos-Rests s (x ∷ (y ∷ r)) h in
    elim (Bool-cases (x == 13 && y == 10)) [
      | inl e ↦ rw (e, find_here fuel pos s x (y ∷ r) h e) (refl, h)
      | inr e ↦
          rw (e, find_round fuel pos s x (y ∷ r) h e, get_char-Rests s1 (y ∷ r) h1)
            (FindResult-next pos s (seek_crlf (y ∷ r)) (find_crlf_loop fuel pos s1 y)
              (find_on fuel pos s1 (y ∷ r) h1 (omega arith)))
    ]

-- On a readable string, `http11_find_crlf` moves the read position to the first line end that is
-- left to read, and if there is none it gives the string back unchanged. Its loop ends by itself.
pub find_crlf_lem :
    (s : Stringaa) → Readable s → FindResult s.read_pos s (seek_crlf (rest s)) (find_crlf s)
unfolding find_crlf
find_crlf_lem s v =
    let h : Rests s (rest s) = record { left = refl; readable = v } in
    rw (get_char-Rests s (rest s) h) (
      find_on (suc s.write_pos) s.read_pos s (rest s) h (
        omega (
          arith,
          length-drop s.read_pos (take s.write_pos (bytes s)),
          length-take s.write_pos (bytes s),
        )))
