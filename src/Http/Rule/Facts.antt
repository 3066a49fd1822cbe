-- ===== src/Http/Rule/Facts.antt =====
-- http/httpaa.h: what the forms of the rules keep, and what they read.
use mathlib.Core.Bool.{false≢true}
use mathlib.Core.List.{append_assoc}
use httpaa.Base.{
  ℕ, zero, suc, ◌≡◌, refl, sym, subst, ◌∙◌, Bool, true, false, List, [], ◌∷◌, ◌++◌, if◌then◌else◌,
  length, arith,
}
use httpaa.Stringaa.Defs.{Stringaa, next_read_pos, get_char}
use httpaa.Stringaa.Rests.{Rests, next_read_pos-Rests, get_char-Rests}
use httpaa.Stringaa.Moved.{Moves, Moves-refl, Moves-trans, Moves-back, next_read_pos-Moves}
use httpaa.Http.Keyword.{Compare}
use httpaa.Http.Moves.{match_word-Moves, match_words-Moves}
use httpaa.Http.Rule.{Rule, read, times_from, times, ◌&◌, either, back, one_of, word}

-- The rule keeps the string, and moves the read position on inside the bounds.
abbrev pub RuleMoves : Rule → Type 0
RuleMoves p = (s : Stringaa) → Moves s (p s).1

pub read-RuleMoves : (class : ℕ → Bool) → RuleMoves (read class)
unfolding read
read-RuleMoves class s h = ground (arith, next_read_pos-Moves s h, Moves-refl s h)

times_from-RuleMoves : (n : ℕ) (class : ℕ → Bool) (c : ℕ) → RuleMoves (times_from n class c)
unfolding times_from
times_from-RuleMoves zero class c s h = Moves-refl s h
times_from-RuleMoves (suc n) class c s h =
    let s1 = (next_read_pos s).1 in
    let all =
      Moves-trans s s1 (times_from n class (get_char s1) s1).1 (next_read_pos-Moves s)
        (times_from-RuleMoves n class (get_char s1) s1) in
    ground (arith, Moves-refl s h, all h)

pub times-RuleMoves : (n : ℕ) (class : ℕ → Bool) → RuleMoves (times n class)
unfolding times
times-RuleMoves n class s = times_from-RuleMoves n class (get_char s) s

pub and-RuleMoves : (p q : Rule) → RuleMoves p → RuleMoves q → RuleMoves (p & q)
unfolding ◌&◌
and-RuleMoves p q f g s h =
    ground (arith, f s h, Moves-trans s (p s).1 (q (p s).1).1 (f s) (g (p s).1) h)

pub either-RuleMoves : (p q : Rule) → RuleMoves p → RuleMoves q → RuleMoves (either p q)
unfolding either
either-RuleMoves p q f g s h =
    ground (arith, f s h, Moves-trans s (p s).1 (q (p s).1).1 (f s) (g (p s).1) h)

pub back-RuleMoves : (p : Rule) → RuleMoves p → RuleMoves (back p)
unfolding back
back-RuleMoves p f s h = ground (arith, f s h, Moves-back s (p s).1 (f s) h)

pub one_of-RuleMoves : (same : Compare) (words : List (List ℕ)) → RuleMoves (one_of same words)
unfolding one_of
one_of-RuleMoves same words s = match_words-Moves same words 0 s

pub word-RuleMoves : (same : Compare) (w : List ℕ) → RuleMoves (word same w)
unfolding word
word-RuleMoves same w s = match_word-Moves same w s

-- A rule that is taken back leaves the read position where it was.
abbrev pub Returns : Rule → Type 0
Returns p = (s : Stringaa) → (p s).0 ≡ false → (p s).1.read_pos ≡ s.read_pos

returned :
    (b : Bool) (s1 : Stringaa) (pos : ℕ)
    → (let x : Bool × Stringaa = if b then (true, s1) else (false, record s1 { read_pos = pos }) in
        x.0 ≡ false → x.1.read_pos ≡ pos)
returned true s1 pos h = absurd (false≢true (sym h))
returned false s1 pos h = refl

returned_later :
    (b : Bool) (s1 : Stringaa) (y : Bool × Stringaa) (pos : ℕ)
    → (b ≡ false → s1.read_pos ≡ pos)
    → (y.0 ≡ false → y.1.read_pos ≡ s1.read_pos)
    → (let x : Bool × Stringaa = if b then (true, s1) else y in x.0 ≡ false → x.1.read_pos ≡ pos)
returned_later true s1 y pos f g h = absurd (false≢true (sym h))
returned_later false s1 y pos f g h = g h ∙ f refl

pub back-Returns : (p : Rule) → Returns (back p)
unfolding back
back-Returns p s h = returned (p s).0 (p s).1 s.read_pos h

pub either-Returns : (p q : Rule) → Returns p → Returns q → Returns (either p q)
unfolding either
either-Returns p q f g s h =
    returned_later (p s).0 (p s).1 (q (p s).1) s.read_pos (f s) (g (p s).1) h

-- The rule reads the bytes `w`, whatever is behind them.
abbrev pub Reads : Rule → List ℕ → Type 0
Reads p w =
    (r : List ℕ) (s : Stringaa)
    → Rests s (w ++ r)
    → (s' : Stringaa) × (p s ≡ (true, s')) × Rests s' r

pub read-Reads : (class : ℕ → Bool) (c : ℕ) → class c ≡ true → Reads (read class) (c ∷ [])
unfolding read
read-Reads class c e r s h = (
  (next_read_pos s).1,
  ground (arith, get_char-Rests s (c ∷ r) h, e),
  next_read_pos-Rests s (c ∷ r) h,
)

pub and-Reads : (p q : Rule) (w v : List ℕ) → Reads p w → Reads q v → Reads (p & q) (w ++ v)
unfolding ◌&◌
and-Reads p q w v f g r s h =
    let (s1, e1, h1) = f (v ++ r) s (subst (Rests s) (append_assoc w v r) h) in
    let (s2, e2, h2) = g r s1 h1 in (s2, rw e1 e2, h2)

pub back-Reads : (p : Rule) (w : List ℕ) → Reads p w → Reads (back p) w
unfolding back
back-Reads p w f r s h = let (s1, e1, h1) = f r s h in (s1, rw e1 refl, h1)

pub either-Reads : (p q : Rule) (w : List ℕ) → Reads p w → Reads (either p q) w
unfolding either
either-Reads p q w f r s h = let (s1, e1, h1) = f r s h in (s1, rw e1 refl, h1)

-- `n` digits, or other bytes of a class.
abbrev pub AreAll : (ℕ → Bool) → List ℕ → Type 0
AreAll class [] = Unit {0}
AreAll class (c ∷ w) = (class c ≡ true) × AreAll class w

times_from-Reads :
    (class : ℕ → Bool) (w r : List ℕ) (s : Stringaa)
    → AreAll class w
    → Rests s (w ++ r)
    → (s' : Stringaa) × (times_from (length w) class (get_char s) s ≡ (true, s')) × Rests s' r
unfolding times_from
times_from-Reads class [] r s a h = (s, refl, h)
times_from-Reads class (c ∷ w) r s (a, b) h =
    let s1 = (next_read_pos s).1 in
    let (s', e, h') = times_from-Reads class w r s1 b (next_read_pos-Rests s (c ∷ (w ++ r)) h) in
    (s', rw (get_char-Rests s (c ∷ (w ++ r)) h) (rw a e), h')

pub times-Reads :
    (class : ℕ → Bool) (n : ℕ) (w : List ℕ)
    → length w ≡ n
    → AreAll class w
    → Reads (times n class) w
unfolding times
times-Reads class n w e a r s h =
    subst (λ k. (s' : Stringaa) × (times_from k class (get_char s) s ≡ (true, s')) × Rests s' r) e
      (times_from-Reads class w r s a h)
