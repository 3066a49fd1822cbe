-- ===== src/Http/Moves.antt =====
-- How the rules of http/httpaa.h move the read position of the request.
use httpaa.Base.{ℕ, zero, suc, ◌+◌, ◌≤◌, ◌<◌, ◌≡◌, true, List, [], ◌∷◌, arith}
use httpaa.Stringaa.Defs.{Stringaa, next_read_pos, get_char}
use httpaa.Stringaa.Cursor.{prev_read_pos-next_read_pos}
use httpaa.Stringaa.Moved.{
  Moves, Moves-refl, Moves-trans, next_read_pos-Moves, next_read_pos-forward, get_char-inside,
}
use httpaa.Http.Lexer.{crlf, find_crlf_loop, find_crlf}
use httpaa.Http.Keyword.{Compare, match_word, match_words}
use httpaa.Http.Header.{match_name, match_names}

-- The string `s'` is `s` at another read position, inside the bounds and not in front of `pos`.
pub record From (pos : ℕ) (s s' : Stringaa) : Type 0 where
  pub same_buf : s'.buf ≡ s.buf
  pub same_write : s'.write_pos ≡ s.write_pos
  pub forward : pos ≤ s'.read_pos
  pub within : s'.read_pos ≤ s'.write_pos

pub crlf-Moves : (s : Stringaa) → Moves s (crlf s).1
unfolding crlf
crlf-Moves s h = ground (
  arith,
  next_read_pos-Moves s h,
  next_read_pos-Moves (next_read_pos s).1,
  prev_read_pos-next_read_pos s,
  get_char-inside s,
  Moves-refl s h,
)

-- A line end that is found has been read.
pub crlf-forward :
    (s : Stringaa) → s.read_pos ≤ s.write_pos → (crlf s).0 ≡ true → s.read_pos < (crlf s).1.read_pos
unfolding crlf
crlf-forward s h e = ground (
  arith,
  next_read_pos-Moves s h,
  next_read_pos-Moves (next_read_pos s).1,
  next_read_pos-forward s,
  get_char-inside s,
)

find_crlf_loop-From :
    (fuel pos : ℕ) (s : Stringaa) (c : ℕ)
    → pos ≤ s.read_pos
    → s.read_pos ≤ s.write_pos
    → From pos s (find_crlf_loop fuel pos s c).1
unfolding find_crlf_loop
find_crlf_loop-From zero pos s c le h = ground arith
find_crlf_loop-From (suc fuel) pos s c le h =
    let s1 = (next_read_pos s).1 in
    let m = next_read_pos-Moves s h in
    let later = find_crlf_loop-From fuel pos s1 (get_char s1) (omega (arith, m.forward)) m.within in
    ground (arith, m, later, prev_read_pos-next_read_pos s)

pub find_crlf-Moves : (s : Stringaa) → Moves s (find_crlf s).1
unfolding find_crlf
find_crlf-Moves s h =
    ground (arith, find_crlf_loop-From (suc s.write_pos) s.read_pos s (get_char s))

pub match_word-Moves :
    (same : Compare) (word : List ℕ) (s : Stringaa) → Moves s (match_word same word s).1
unfolding match_word
match_word-Moves same [] s h = Moves-refl s h
match_word-Moves same (p ∷ ps) s h =
    let s1 = (next_read_pos s).1 in
    let all =
      Moves-trans s s1 (match_word same ps s1).1 (next_read_pos-Moves s)
        (match_word-Moves same ps s1) in
    ground (arith, Moves-refl s h, all h)

pub match_words-Moves :
    (same : Compare) (words : List (List ℕ)) (i : ℕ) (s : Stringaa)
    → Moves s (match_words same words i s).1
unfolding match_words
match_words-Moves same [] i s h = Moves-refl s h
match_words-Moves same (word ∷ words) i s h =
    let s1 = (match_word same word s).1 in
    let one = match_word-Moves same word s in
    let all =
      Moves-trans s s1 (match_words same words (i + 1) s1).1 one
        (match_words-Moves same words (i + 1) s1) in
    ground (arith, one h, all h)

match_name-Moves : (name : List ℕ) (s : Stringaa) → Moves s (match_name name s).1
unfolding match_name
match_name-Moves [] s h = Moves-refl s h
match_name-Moves (p ∷ ps) s h =
    let s1 = (next_read_pos s).1 in
    let all =
      Moves-trans s s1 (match_name ps s1).1 (next_read_pos-Moves s) (match_name-Moves ps s1) in
    ground (arith, Moves-refl s h, next_read_pos-Moves s h, all h)

match_names-From :
    (names : List (List ℕ)) (i pos : ℕ) (s : Stringaa)
    → pos ≤ s.read_pos
    → s.read_pos ≤ s.write_pos
    → From pos s (match_names names i pos s).1
unfolding match_names
match_names-From [] i pos s le h = ground arith
match_names-From (name ∷ names) i pos s le h =
    let s1 = (match_name name s).1 in
    let m = match_name-Moves name s h in
    let later =
      match_names-From names (i + 1) pos (record s1 { read_pos = pos }) (omega arith)
        (omega (arith, m)) in
    ground (arith, m, later)

pub match_names-Moves :
    (names : List (List ℕ)) (i : ℕ) (s : Stringaa) → Moves s (match_names names i s.read_pos s).1
match_names-Moves names i s h = ground (arith, match_names-From names i s.read_pos s)
