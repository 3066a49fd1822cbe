-- ===== src/Stringaa/Search.antt =====
-- The first place of a list at which another list begins.
pub mod Rounds
pub mod Found
use httpaa.Base.{
  ℕ, zero, suc, ◌+◌, ◌*◌, ◌-◌, ◌≤◌, ◌<◌, ◌≡◌, ◌≢◌, refl, sym, ap, subst, ◌∙◌, Bool, true, false,
  not, ◌&&◌, List, [], ◌∷◌, Option, none, some, arith, ◌==◌, if◌then◌else◌, length, head_or, tail,
  take, drop, Bool-cases, inl, inr, length-take, length-drop,
}
use native.Mathlib.Nat.{suc-mul}
use native.Mathlib.Numerals.{add-one}
use httpaa.Stringaa.Defs.{Stringaa, bytes, rest, Readable, next_read_pos, begin_read_pos, get_char}
use httpaa.Stringaa.Cursor.{is_nil}
use httpaa.Stringaa.Rests.{
  Rests, next_read_pos-Rests, get_char-Rests, next_read_pos-more_iff, next_read_pos-back,
}
use httpaa.Stringaa.Moved.{next_read_pos-more}
use httpaa.Stringaa.Find.{has_buf, find_loop, find}

-- The first list stands at the front of the second one.
abbrev pub begins : List ℕ → List ℕ → Bool
begins [] l = true
begins (y ∷ k) [] = false
begins (y ∷ k) (x ∷ l) = x == y && begins k l

-- The first place of the list from `i` on at which `k` begins, if it is not empty.
abbrev pub search : List ℕ → ℕ → List ℕ → Option ℕ
search k i [] = none
search k i (x ∷ l) = if begins k (x ∷ l) then some i else search k (i + 1) l

-- No byte of the list is 0.
abbrev pub NoZero : List ℕ → Type 0
NoZero [] = Unit {0}
NoZero (y ∷ k) = (y ≢ 0) × NoZero k

begins-short : (k l : List ℕ) → length l < length k → begins k l ≡ false
begins-short [] l lt = absurd (omega arith)
begins-short (y ∷ k) [] lt = refl
begins-short (y ∷ k) (x ∷ l) lt = ground (arith, begins-short k l)

pub search-short : (k : List ℕ) (i : ℕ) (l : List ℕ) → length l < length k → search k i l ≡ none
search-short k i [] lt = refl
search-short k i (x ∷ l) lt =
    rw (begins-short k (x ∷ l) lt) (search-short k (i + 1) l (omega arith))
