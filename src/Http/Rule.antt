-- ===== src/Http/Rule.antt =====
-- http/httpaa.h: the forms in which the rules of the header values are put together. A rule takes the
-- request and returns whether it is there, with the request behind it.
pub mod Facts
use httpaa.Base.{ℕ, zero, suc, Bool, true, false, List, [], ◌∷◌, Option, none, some, if◌then◌else◌}
use httpaa.Stringaa.Defs.{Stringaa, next_read_pos, get_char}
use httpaa.Http.Keyword.{Compare, match_word, match_words}

abbrev pub Rule : Type 0
Rule = Stringaa → Bool × Stringaa

-- A rule that may not end within a fuel, as `quoted_string`, or that may not end at all.
abbrev pub Partial : Type 0
Partial = Stringaa → Option (Bool × Stringaa)

-- `c = stringaa_get_char(request); if (CLASS) { stringaa_next_read_pos(request); … }`
unfoldable pub read : (ℕ → Bool) → Rule
read class s = if class (get_char s) then (true, (next_read_pos s).1) else (false, s)

-- `for (i = 0; i < n; i++) if (CLASS) { next; c = get } else break;` from a character that was read
-- before, and whether `i == n` behind it.
unfoldable pub times_from : ℕ → (ℕ → Bool) → ℕ → Rule
times_from zero class c s = (true, s)
times_from (suc n) class c s =
    if class c
    then (let s1 = (next_read_pos s).1 in times_from n class (get_char s1) s1)
    else (false, s)

unfoldable pub times : ℕ → (ℕ → Bool) → Rule
unfolding times_from
times n class s = times_from n class (get_char s) s

-- `if (p) if (q) …`
infixl 20 ◌&◌
unfoldable pub ◌&◌ : Rule → Rule → Rule
(p & q) s = let (found, s1) = p s in if found then q s1 else (false, s1)

-- `if (p) … else if (q) …`
unfoldable pub either : Rule → Rule → Rule
either p q s = let (found, s1) = p s in if found then (true, s1) else q s1

-- `request->read_pos = pos`, where the rule is not there.
unfoldable pub back : Rule → Rule
back p s =
    let (found, s1) = p s in
    if found then (true, s1) else (false, record s1 { read_pos = s.read_pos })

-- A rule whose flag is never set.
unfoldable pub refuse : Rule → Rule
refuse p s = (false, (p s).1)

-- `if (p) { }`, whose flag is not looked at.
unfoldable pub accept : Rule → Rule
accept p s = (true, (p s).1)

-- The search for a word of an array, and the comparison with one word.
unfoldable pub one_of : Compare → List (List ℕ) → Rule
one_of same words s =
    let (found, s1) = match_words same words 0 s in
    (elim found [ none ↦ false | some i ↦ true ], s1)

unfoldable pub word : Compare → List ℕ → Rule
word same w s = match_word same w s

-- The same forms for rules that may not end.
unfoldable pub ends : Rule → Partial
ends p s = some (p s)

infixl 20 ◌&?◌
unfoldable pub ◌&?◌ : Partial → Partial → Partial
(p &? q) s = elim (p s) [
  | none ↦ none
  | some (true, s1) ↦ q s1
  | some (false, s1) ↦ some (false, s1)
]

unfoldable pub either? : Partial → Partial → Partial
either? p q s = elim (p s) [
  | none ↦ none
  | some (true, s1) ↦ some (true, s1)
  | some (false, s1) ↦ q s1
]

unfoldable pub back? : Partial → Partial
back? p s = elim (p s) [
  | none ↦ none
  | some (true, s1) ↦ some (true, s1)
  | some (false, s1) ↦ some (false, record s1 { read_pos = s.read_pos })
]

unfoldable pub flag? : Bool → Partial → Partial
flag? b p s = elim (p s) [ none ↦ none | some (found, s1) ↦ some (b, s1) ]

abbrev pub refuse? : Partial → Partial
refuse? = flag? false

abbrev pub accept? : Partial → Partial
accept? = flag? true

-- How a round of a `while (1)` ends: at its last line, or with a `break` behind which the rule
-- returns the flag.
pub data Turn : Type 0 where
  goes : Stringaa → Turn
  breaks : Bool → Stringaa → Turn

-- `while (1)` on fuel.
unfoldable pub loop : ℕ → (Stringaa → Option Turn) → Partial
loop zero round s = none
loop (suc fuel) round s = elim (round s) [
  | none ↦ none
  | some (Turn.goes s1) ↦ loop fuel round s1
  | some (Turn.breaks found s1) ↦ some (found, s1)
]

-- A round with no `break` in it, whatever the rule `p` finds.
abbrev pub no_break : Partial → Stringaa → Option Turn
no_break p s = elim (p s) [ none ↦ none | some (found, s1) ↦ some (Turn.goes s1) ]

-- `if (p) { } else break;`, behind which the flag is not set.
abbrev pub or_break : Partial → Stringaa → Option Turn
or_break p s = elim (p s) [
  | none ↦ none
  | some (true, s1) ↦ some (Turn.goes s1)
  | some (false, s1) ↦ some (Turn.breaks false s1)
]

-- `while (1) { p }`: the source has no `break` in these loops.
unfoldable pub forever : ℕ → Partial → Partial
unfolding loop
forever fuel p = loop fuel (no_break p)

-- `while (1) { if (p) { } else break; }`
unfoldable pub while_there : ℕ → Partial → Partial
unfolding loop
while_there fuel p = loop fuel (or_break p)
