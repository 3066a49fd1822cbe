-- ===== src/Http/Dates/Lowered.antt =====
-- http/httpaa.h: the search for a day of the week or a month, by the text in lower case.
-- Characters that a word has taken stay taken for the next word.
use native.Mathlib.Nat.{add-zero, zero-add, suc-add}
use httpaa.Base.{
  ℕ, zero, suc, ◌+◌, ◌≡◌, refl, ap, subst, ◌∙◌, Bool, true, false, List, [], ◌∷◌, Option, none,
  some, ◌==◌, if◌then◌else◌, drop, tail, head_or, map, Bool-cases, inl, inr,
}
use httpaa.Stringaa.Defs.{Stringaa, next_read_pos, get_char, to_lower}
use httpaa.Stringaa.Rests.{Rests, next_read_pos-Rests, get_char-Rests}
use httpaa.Http.Keyword.{match_word, match_words}
use httpaa.Http.Rule.{one_of}
use httpaa.Http.Dates.{any_case}

-- How many bytes of the lower case text `l` the word takes, and whether it is there.
abbrev pub word_at : List ℕ → List ℕ → Bool × ℕ
word_at [] l = (true, 0)
word_at (p ∷ ps) l =
    if to_lower p == head_or l 0
    then (let (found, n) = word_at ps (tail l) in (found, suc n))
    else (false, 0)

-- The same for the words of an array, each from where the one before it has stopped.
abbrev pub words_at : List (List ℕ) → List ℕ → Bool × ℕ
words_at [] l = (false, 0)
words_at (w ∷ ws) l =
    let (found, n) = word_at w l in
    if found then (true, n) else (let (later, m) = words_at ws (drop n l) in (later, n + m))

head-lower : (l : List ℕ) → to_lower (head_or l 0) ≡ head_or (map to_lower l) 0
unfolding to_lower
head-lower [] = refl
head-lower (c ∷ l) = refl

tail-lower : (l : List ℕ) → map to_lower (tail l) ≡ tail (map to_lower l)
tail-lower [] = refl
tail-lower (c ∷ l) = refl

drop-tail : (n : ℕ) (l : List ℕ) → drop n (tail l) ≡ drop (suc n) l
drop-tail zero [] = refl
drop-tail (suc n) [] = refl
drop-tail n (c ∷ l) = refl

-- The word is matched in `s` as in the lower case text.
abbrev Matched : List ℕ → List ℕ → Stringaa → Bool → ℕ → Type 0
Matched w l s found n =
    (s' : Stringaa) × (match_word any_case w s ≡ (found, s')) × Rests s' (drop n l)

module _ (p : ℕ) (ps l : List ℕ) (s : Stringaa) (h : Rests s l) where
  same_char :
      (b : Bool) → (to_lower p == head_or (map to_lower l) 0) ≡ b → any_case p (get_char s) ≡ b
  unfolding any_case
  same_char b e = rw (get_char-Rests s l h) (rw (head-lower l) e)

  Matched-on :
      any_case p (get_char s) ≡ true
      → (found : Bool) (n : ℕ) → Matched ps (tail l) (next_read_pos s).1 found n
      → Matched (p ∷ ps) l s found (suc n)
  unfolding match_word
  Matched-on e found n (s', f, h') = (s', rw e f, subst (Rests s') (drop-tail n l) h')

  Matched-off : any_case p (get_char s) ≡ false → Matched (p ∷ ps) l s false 0
  unfolding match_word
  Matched-off e = (s, rw e refl, h)

match_word-word_at :
    (w l : List ℕ) (s : Stringaa)
    → Rests s l
    → Matched w l s (word_at w (map to_lower l)).0 (word_at w (map to_lower l)).1
unfolding match_word
match_word-word_at [] l s h = (s, refl, h)
match_word-word_at (p ∷ ps) l s h = elim (Bool-cases (to_lower p == head_or (map to_lower l) 0)) [
  | inl e ↦
      (let k = word_at ps (tail (map to_lower l)) in
        rw e (
          Matched-on p ps l s h (same_char p ps l s h true e) k.0 k.1 (
            subst (λ t. Matched ps (tail l) (next_read_pos s).1 (word_at ps t).0 (word_at ps t).1)
              (tail-lower l)
              (match_word-word_at ps (tail l) (next_read_pos s).1 (next_read_pos-Rests s l h)))))
  | inr e ↦ rw e (Matched-off p ps l s h (same_char p ps l s h false e))
]

drop-map : (n : ℕ) (l : List ℕ) → map to_lower (drop n l) ≡ drop n (map to_lower l)
drop-map zero l = refl
drop-map (suc n) [] = refl
drop-map (suc n) (c ∷ l) = drop-map n l

drop-drop : (n m : ℕ) (l : List ℕ) → drop m (drop n l) ≡ drop (n + m) l
drop-drop zero m l = rw (zero-add m) refl
drop-drop (suc n) zero [] = rw (add-zero (suc n)) refl
drop-drop (suc n) (suc m) [] = rw (suc-add n (suc m)) refl
drop-drop (suc n) m (c ∷ l) = rw (suc-add n m) (drop-drop n m l)

-- The array is searched in `s` as in the lower case text.
abbrev Searched : List (List ℕ) → ℕ → List ℕ → Stringaa → Bool → ℕ → Type 0
Searched ws i l s found n =
    (s' : Stringaa) × (k : Option ℕ) × (match_words any_case ws i s ≡ (k, s'))
    × ((elim k [ none ↦ false | some i ↦ true ]) ≡ found)
    × Rests s' (drop n l)

module _ (w : List ℕ) (ws : List (List ℕ)) (i : ℕ) (l : List ℕ) (s : Stringaa) (n : ℕ) where
  abbrev next_word : Bool × Stringaa → Option ℕ × Stringaa
  next_word x = elim x.0 [ true ↦ (some i, x.1) | false ↦ match_words any_case ws (i + 1) x.1 ]

  Searched-here : Matched w l s true n → Searched (w ∷ ws) i l s true n
  unfolding match_words
  Searched-here (s', e, h) = (s', some i, ap next_word e, refl, h)

  Searched-later :
      (found : Bool) (m : ℕ)
      → Matched w l s false n
      → ((s' : Stringaa) → Rests s' (drop n l) → Searched ws (i + 1) (drop n l) s' found m)
      → Searched (w ∷ ws) i l s found (n + m)
  unfolding match_words
  Searched-later found m (s', e, h) f =
      let (s2, k, e2, b, h2) = f s' h in
      (s2, k, ap next_word e ∙ e2, b, subst (Rests s2) (drop-drop n m l) h2)

match_words-words_at :
    (ws : List (List ℕ)) (i : ℕ) (l : List ℕ) (s : Stringaa)
    → Rests s l
    → Searched ws i l s (words_at ws (map to_lower l)).0 (words_at ws (map to_lower l)).1
unfolding match_words
match_words-words_at [] i l s h = (s, none, refl, refl, h)
match_words-words_at (w ∷ ws) i l s h =
    let k = word_at w (map to_lower l) in
    let m = match_word-word_at w l s h in
    elim (Bool-cases k.0) [
      | inl e ↦ rw e (Searched-here w ws i l s k.1 (subst (λ b. Matched w l s b k.1) e m))
      | inr e ↦ rw e (
          let j = words_at ws (drop k.1 (map to_lower l)) in
          Searched-later w ws i l s k.1 j.0 j.1 (subst (λ b. Matched w l s b k.1) e m) (λ s' h'.
            subst (λ t. Searched ws (i + 1) (drop k.1 l) s' (words_at ws t).0 (words_at ws t).1)
              (drop-map k.1 l) (match_words-words_at ws (i + 1) (drop k.1 l) s' h')))
    ]

-- A search of the array, by the lower case text.
pub one_of-words_at :
    (ws : List (List ℕ)) (l : List ℕ) (s : Stringaa) (found : Bool) (n : ℕ)
    → Rests s l
    → words_at ws (map to_lower l) ≡ (found, n)
    → (s' : Stringaa) × (one_of any_case ws s ≡ (found, s')) × Rests s' (drop n l)
unfolding one_of
one_of-words_at ws l s found n h e =
    let (s', k, f, b, h') = match_words-words_at ws 0 l s h in
    (
      s',
      rw f (λ i. ((b ∙ ap (λ x. x.0) e) i, s')),
      subst (λ m. Rests s' (drop m l)) (ap (λ x. x.1) e) h',
    )
