-- ===== src/Http/Keyword.antt =====
-- http/httpaa.h: the search for a word of an array at the read position.
use httpaa.Base.{ℕ, ◌+◌, Bool, true, false, List, [], ◌∷◌, Option, none, some, ◌==◌, if◌then◌else◌}
use httpaa.Stringaa.Defs.{Stringaa, next_read_pos, get_char, to_upper, to_lower}

-- How a character `p` of the array is compared with a character `c` of the request.
abbrev pub Compare : Type 0
Compare = ℕ → ℕ → Bool

-- `*pc == _toupper(c)`, and `*pc == _tolower(c)`
unfoldable pub upper : Compare
upper p c = p == to_upper c

unfoldable pub lower : Compare
lower p c = p == to_lower c

-- The inner loop: read the word as far as it is there. The flag is `*pc == 0` behind the loop.
unfoldable pub match_word : Compare → List ℕ → Stringaa → Bool × Stringaa
match_word same [] s = (true, s)
match_word same (p ∷ ps) s =
    if same p (get_char s) then match_word same ps (next_read_pos s).1 else (false, s)

-- The outer loop: the next word is tried from where the one before it has stopped.
unfoldable pub match_words : Compare → List (List ℕ) → ℕ → Stringaa → Option ℕ × Stringaa
match_words same [] i s = (none, s)
match_words same (word ∷ words) i s =
    let (found, s1) = match_word same word s in
    elim found [ true ↦ (some i, s1) | false ↦ match_words same words (i + 1) s1 ]
