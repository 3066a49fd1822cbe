-- ===== src/Http/Fields/Refused.antt =====
-- http/httpaa.h: the rules that accept no value.
use mathlib.Core.Bool.{false≢true}
use httpaa.Base.{
  ℕ, zero, suc, ◌+◌, ◌≡◌, refl, ap, sym, ◌∙◌, Bool, true, false, ◌&&◌, List, [], ◌∷◌, Option, none,
  some, leb, if◌then◌else◌, Bool-cases, inl, inr, arith,
}
use httpaa.Stringaa.Defs.{Stringaa, get_char, is_char, to_lower}
use httpaa.Http.Lexer.{lws}
use httpaa.Http.Chars.{sp}
use httpaa.Http.Keyword.{lower, match_word, match_words}
use httpaa.Http.Arrays.{method_array}
use httpaa.Http.Rule.{Rule, back, one_of}
use httpaa.Http.Fields.Request.{bytes_unit}
use httpaa.Http.Fields.{delta_seconds}
use httpaa.Http.Fields.Response.{header_age}
use httpaa.Http.Fields.Entity.{allow_loop, header_allow, content_range_from, header_content_range}

-- An upper case letter is equal to no character in lower case.
lower-upper : (p : ℕ) (c : ℕ) → (leb b'A' p && leb p b'Z') ≡ true → lower p c ≡ false
unfolding lower to_lower
lower-upper p c h = ground arith

match_word-upper :
    (p : ℕ) (ps : List ℕ) (s : Stringaa)
    → (leb b'A' p && leb p b'Z') ≡ true
    → match_word lower (p ∷ ps) s ≡ (false, s)
unfolding match_word
match_word-upper p ps s h = rw (lower-upper p (get_char s) h) refl

and_first : (a b : Bool) → (a && b) ≡ true → a ≡ true
and_first true b h = refl
and_first false b h = h

and_second : (a b : Bool) → (a && b) ≡ true → b ≡ true
and_second true b h = h
and_second false b h = absurd (false≢true h)

-- Every word begins with an upper case letter.
abbrev all_upper : List (List ℕ) → Bool
all_upper [] = true
all_upper ([] ∷ ws) = false
all_upper ((p ∷ ps) ∷ ws) = (leb b'A' p && leb p b'Z') && all_upper ws

match_words-upper :
    (ws : List (List ℕ)) (i : ℕ) (s : Stringaa)
    → all_upper ws ≡ true
    → match_words lower ws i s ≡ (none, s)
unfolding match_words
match_words-upper [] i s h = refl
match_words-upper ([] ∷ ws) i s h = absurd (false≢true h)
match_words-upper ((p ∷ ps) ∷ ws) i s h =
    ap
      (λ (x : Bool × Stringaa). elim x.0 as (λ x. Option ℕ × Stringaa) [
        | true ↦ (some i, x.1)
        | false ↦ match_words lower ws (i + 1) x.1
      ])
      (match_word-upper p ps s (and_first (leb b'A' p && leb p b'Z') (all_upper ws) h))
    ∙ match_words-upper ws (i + 1) s (and_second (leb b'A' p && leb p b'Z') (all_upper ws) h)

one_of-upper : (s : Stringaa) → one_of lower method_array s ≡ (false, s)
unfolding one_of
one_of-upper s =
    ap
      (λ (x : Option ℕ × Stringaa).
        ((elim x.0 as (λ x. Bool) [ none ↦ false | some i ↦ true ]), x.1))
      (match_words-upper method_array 0 s refl)

allow_loop_lem : (fuel : ℕ) (s : Stringaa) → allow_loop fuel false s ≡ (false, s)
unfolding allow_loop
allow_loop_lem zero s = refl
allow_loop_lem (suc fuel) s =
    ap
      (λ (x : Bool × Stringaa). elim x.0 as (λ x. Bool × Stringaa) [
        | true ↦ allow_loop fuel true (lws (is_char (lws x.1).1 b',').1).1
        | false ↦ (false, x.1)
      ])
      (one_of-upper s)

header_allow_lem : (s : Stringaa) → header_allow s ≡ (false, s)
unfolding header_allow back
header_allow_lem s =
    ap
      (λ (x : Bool × Stringaa).
        if x.0 then (true, x.1) else (false, record (x.1) { read_pos = s.read_pos }))
      (allow_loop_lem (s.write_pos + 1) s)

not_blank : (c : ℕ) → lower b'b' c ≡ true → sp c ≡ false
unfolding lower to_lower
not_blank c h = ground arith

bytes_unit-space : (s : Stringaa) → sp (get_char s) ≡ true → bytes_unit s ≡ (false, s)
unfolding bytes_unit match_word
bytes_unit-space s h = elim (Bool-cases (lower b'b' (get_char s))) [
  | inl e ↦ absurd (false≢true (sym (not_blank (get_char s) e) ∙ h))
  | inr e ↦ rw e refl
]

content_range_from_lem : (s : Stringaa) → (content_range_from (get_char s) s).0 ≡ false
unfolding content_range_from
content_range_from_lem s = elim (Bool-cases (sp (get_char s))) [
  | inl h ↦ rw (content_range_from, bytes_unit-space s h) refl
  | inr h ↦
      rw (content_range_from, h)
        (elim (Bool-cases (bytes_unit s).0) [ inl e ↦ rw e refl | inr e ↦ rw e refl ])
]

back-refuses : (p : Rule) (s : Stringaa) → (p s).0 ≡ false → (back p s).0 ≡ false
unfolding back
back-refuses p s h = rw (back, h) refl

header_content_range_lem : (s : Stringaa) → (header_content_range s).0 ≡ false
unfolding header_content_range
header_content_range_lem s =
    back-refuses (content_range_from (get_char s)) s (content_range_from_lem s)

-- On every string: the rule for Allow finds no method and leaves the string as it is, since it compares the upper case
-- letters of the methods with characters in lower case; the rule for Content-Range fails, since it looks for the space behind
-- the unit at the first character of the unit; and the rules for Age and for a number of seconds fail.
pub refused_lem :
    (s : Stringaa)
    → (header_allow s ≡ (false, s))
      × ((header_content_range s).0 ≡ false)
      × ((delta_seconds s).0 ≡ false)
      × ((header_age s).0 ≡ false)
unfolding delta_seconds header_age
refused_lem s = (header_allow_lem s, header_content_range_lem s, refl, refl)
