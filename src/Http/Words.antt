-- ===== src/Http/Words.antt =====
-- Which methods `http11_method` recognises.
use httpaa.Base.{
  ℕ, zero, suc, ◌+◌, ◌≡◌, ◌≢◌, refl, ap, ◌∙◌, Bool, true, false, not, ◌&&◌, List, [], ◌∷◌, ◌++◌,
  none, some, arith, ◌==◌, get_elem?, head_or, tail, map, drop, codes,
}
use native.Mathlib.Nat.{add-zero, zero-add}
use httpaa.Stringaa.Defs.{Stringaa, rest, Readable, next_read_pos, to_upper}
use httpaa.Stringaa.Rests.{Rests, next_read_pos-Rests, get_char-Rests, next_read_pos-back}
use httpaa.Http.Keyword.{upper, match_word, match_words}
use httpaa.Http.Arrays.{method_array}
use httpaa.Http.Defs.{Httpaa}
use httpaa.Http.RequestLine.{method}

-- A word that is there, in any case of letters, is read.
pub match_word-found :
    (word w r : List ℕ) (s : Stringaa)
    → map to_upper w ≡ word
    → Rests s (w ++ r)
    → (s' : Stringaa) × (match_word upper word s ≡ (true, s')) × Rests s' r
unfolding match_word upper
match_word-found [] [] r s e h = (s, refl, h)
match_word-found [] (c ∷ w) r s e h = absurd cc
match_word-found (p ∷ ps) [] r s e h = absurd cc
match_word-found (p ∷ ps) (c ∷ w) r s e h =
    let s1 = (next_read_pos s).1 in
    let (s', eq, h') =
      match_word-found ps w r s1 (ap tail e) (next_read_pos-Rests s (c ∷ (w ++ r)) h) in
    (s', ground (arith, get_char-Rests s (c ∷ (w ++ r)) h, ap (λ l. head_or l 0) e, eq), h')

-- The first `k` words begin with other characters than `p`.
abbrev pub heads_differ : List (List ℕ) → ℕ → ℕ → Bool
heads_differ words zero p = true
heads_differ [] (suc k) p = true
heads_differ ([] ∷ words) (suc k) p = false
heads_differ ((q ∷ qs) ∷ words) (suc k) p = not (q == p) && heads_differ words k p

match_word-other :
    (q : ℕ) (qs : List ℕ) (c : ℕ) (l : List ℕ) (s : Stringaa)
    → Rests s (c ∷ l)
    → (q == to_upper c) ≡ false
    → match_word upper (q ∷ qs) s ≡ (false, s)
unfolding match_word upper
match_word-other q qs c l s h e = ground (arith, get_char-Rests s (c ∷ l) h)

-- The word at index `k` is found where no word in front of it takes a character.
match_words-found :
    (words : List (List ℕ)) (k i p : ℕ) (ps w r : List ℕ) (s : Stringaa)
    → get_elem? words k ≡ some (p ∷ ps)
    → heads_differ words k p ≡ true
    → map to_upper w ≡ p ∷ ps
    → Rests s (w ++ r)
    → (s' : Stringaa) × (match_words upper words i s ≡ (some (i + k), s')) × Rests s' r
unfolding match_words
match_words-found [] k i p ps w r s at d e h = absurd cc
match_words-found (word ∷ words) zero i p ps w r s at d e h =
    let (s', eq, h') = match_word-found (p ∷ ps) w r s e h in
    let same : word ≡ p ∷ ps = cc in (s', ground (arith, eq, same, add-zero i), h')
match_words-found ([] ∷ words) (suc k) i p ps w r s at d e h = absurd cc
match_words-found ((q ∷ qs) ∷ words) (suc k) i p ps [] r s at d e h = absurd cc
match_words-found ((q ∷ qs) ∷ words) (suc k) i p ps (c ∷ w) r s at d e h =
    let first : to_upper c ≡ p = ap (λ l. head_or l 0) e in
    let other : (q == to_upper c) ≡ false = ground arith in
    let (s', eq, h') = match_words-found words k (i + 1) p ps (c ∷ w) r s at (ground arith) e h in
    (s', ground (arith, match_word-other q qs c (w ++ r) s h other, eq), h')

-- A word of the array of the methods, and its first character.
abbrev pub IsMethod : ℕ → ℕ → List ℕ → Type 0
IsMethod i p ps =
    (get_elem? method_array i ≡ some (p ∷ ps)) × (heads_differ method_array i p ≡ true)

method_at :
    (http : Httpaa) (i p : ℕ) (ps w r : List ℕ) (s : Stringaa)
    → IsMethod i p ps
    → map to_upper w ≡ p ∷ ps
    → Rests s (w ++ r)
    → (s' : Stringaa) × (method http s ≡ (true, record http { method = i }, s')) × Rests s' r
unfolding method
method_at http i p ps w r s (at, d) e h =
    let (s', eq, h') = match_words-found method_array i 0 p ps w r s at d e h in
    (s', rw (eq, zero-add) refl, h')

-- No method but PUT has a method in front of it that begins with the same letter.
first_letter :
    (i : ℕ) (word : List ℕ)
    → get_elem? method_array i ≡ some word
    → i ≢ 4
    → (p : ℕ) × (ps : List ℕ) × (word ≡ p ∷ ps) × (heads_differ method_array i p ≡ true)
first_letter zero word at ne = (b'O', codes "PTIONS", cc, refl)
first_letter (suc zero) word at ne = (b'G', codes "ET", cc, refl)
first_letter (suc (suc zero)) word at ne = (b'H', codes "EAD", cc, refl)
first_letter (suc (suc (suc zero))) word at ne = (b'P', codes "OST", cc, refl)
first_letter (suc (suc (suc (suc zero)))) word at ne = absurd (ne refl)
first_letter (suc (suc (suc (suc (suc zero))))) word at ne = (b'D', codes "ELETE", cc, refl)
first_letter (suc (suc (suc (suc (suc (suc zero)))))) word at ne = (b'T', codes "RACE", cc, refl)
first_letter (suc (suc (suc (suc (suc (suc (suc zero))))))) word at ne =
    (b'C', codes "ONNECT", cc, refl)
first_letter (suc (suc (suc (suc (suc (suc (suc (suc i)))))))) word at ne = absurd cc

-- On a readable string, the word of the method `i` at the read position, in any case of letters and with anything behind
-- it, is read as the method `i`, for all methods but PUT.
pub method_found :
    (http : Httpaa) (i : ℕ) (word w r : List ℕ) (s : Stringaa)
    → get_elem? method_array i ≡ some word
    → i ≢ 4
    → map to_upper w ≡ word
    → Readable s
    → rest s ≡ w ++ r
    → (s' : Stringaa) × (method http s ≡ (true, record http { method = i }, s'))
      × (rest s' ≡ r)
      × Readable s'
method_found http i word w r s at ne e v h =
    let (p, ps, eq, d) = first_letter i word at ne in
    let (s', found, h') =
      method_at http i p ps w r s (at ∙ ap some eq, d) (e ∙ eq)
        (record { left = h; readable = v }) in
    (s', found, h'.left, h'.readable)

-- A word of which only the first character is there takes that character.
match_word-first :
    (p q : ℕ) (qs : List ℕ) (c d : ℕ) (l : List ℕ) (s : Stringaa)
    → Rests s (c ∷ (d ∷ l))
    → (p == to_upper c) ≡ true
    → (q == to_upper d) ≡ false
    → match_word upper (p ∷ (q ∷ qs)) s ≡ (false, (next_read_pos s).1)
unfolding match_word upper
match_word-first p q qs c d l s h e n = ground (
  arith,
  get_char-Rests s (c ∷ (d ∷ l)) h,
  get_char-Rests (next_read_pos s).1 (d ∷ l) (next_read_pos-Rests s (c ∷ (d ∷ l)) h),
)

match_words-step :
    (word : List ℕ) (words : List (List ℕ)) (i : ℕ) (s s' : Stringaa)
    → match_word upper word s ≡ (false, s')
    → match_words upper (word ∷ words) i s ≡ match_words upper words (i + 1) s'
unfolding match_words
match_words-step word words i s s' e = ground (arith, e)

-- Words that begin with other characters are passed over.
match_words-skip :
    (words : List (List ℕ)) (k i c : ℕ) (l : List ℕ) (s : Stringaa)
    → Rests s (c ∷ l)
    → heads_differ words k (to_upper c) ≡ true
    → match_words upper words i s ≡ match_words upper (drop k words) (i + k) s
match_words-skip words zero i c l s h d = rw add-zero
match_words-skip [] (suc k) i c l s h d = unfold match_words in refl
match_words-skip ([] ∷ words) (suc k) i c l s h d = absurd cc
match_words-skip ((q ∷ qs) ∷ words) (suc k) i c l s h d =
    let other : (q == to_upper c) ≡ false = ground arith in
    match_words-step (q ∷ qs) words i s s (match_word-other q qs c l s h other)
    ∙ match_words-skip words k (i + 1) c l s h (ground arith)
    ∙ ap (λ n. match_words upper (drop k words) n s) (omega arith)

put_words :
    (c d : ℕ) (l : List ℕ) (s : Stringaa)
    → Rests s (c ∷ (d ∷ l))
    → to_upper c ≡ b'P'
    → to_upper d ≡ b'U'
    → match_words upper method_array 0 s ≡ (none, (next_read_pos s).1)
put_words c d l s h e f =
    let s1 = (next_read_pos s).1 in
    let h1 = next_read_pos-Rests s (c ∷ (d ∷ l)) h in
    match_words-skip method_array 3 0 c (d ∷ l) s h (rw e)
    ∙ match_words-step (codes "POST") (drop 4 method_array) 3 s s1
        (match_word-first b'P' b'O' (codes "ST") c d l s h (rw e) (rw f))
    ∙ match_words-skip (drop 4 method_array) 4 4 d l s1 h1 (rw f)
    ∙ unfold match_words in refl

-- On a readable string, PUT is never recognised, in any case of letters: POST, which stands in front
-- of it, takes its `P`. The request is given back unchanged.
pub method_put :
    (http : Httpaa) (w r : List ℕ) (s : Stringaa)
    → map to_upper w ≡ codes "PUT"
    → Readable s
    → rest s ≡ w ++ r
    → method http s ≡ (false, http, s)
unfolding method
method_put http [] r s e v h = absurd cc
method_put http (c ∷ []) r s e v h = absurd cc
method_put http (c ∷ (d ∷ w)) r s e v h =
    rw
      (put_words c d (w ++ r) s (record { left = h; readable = v }) (ap (λ l. head_or l 0) e)
        (ap (λ l. head_or (tail l) 0) e))
      (ap (λ (t : Stringaa). (false, http, t)) (next_read_pos-back s s.read_pos))
