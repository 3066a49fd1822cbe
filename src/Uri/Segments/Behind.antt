-- ===== src/Uri/Segments/Behind.antt =====
-- url/uriaa_rfc2396_resolve.h: what stands behind a slash, for the loop over the segments `..`.
use mathlib.Core.Bool.{false≢true}
use httpaa.Base.{
  ℕ, ◌≡◌, ◌⊎◌, refl, ap, true, false, ◌&&◌, ◌∙◌, sym, List, [], ◌∷◌, ◌==◌, arith, ==_iff,
  Bool-cases, inl, inr,
}
use httpaa.Uri.Segments.Points.{third_slash, is_two}
use httpaa.Uri.Segments.Spec.{is_dot_dot, starts_up, segments}

first-slash : (c : ℕ) (l : List ℕ) → (c == b'/') ≡ true → (segments (c ∷ l)).0 ≡ []
first-slash c l h = rw h refl

first-byte : (c : ℕ) (l : List ℕ) → (c == b'/') ≡ false → (segments (c ∷ l)).0 ≡ c ∷ (segments l).0
first-byte c l h = rw h refl

two_dots : (c d : ℕ) → is_dot_dot (c ∷ d ∷ []) ≡ true → (c ≡ b'.') × (d ≡ b'.')
two_dots c d h = ground arith

pub not_dot_dot :
    {A : Type 0} (l m : List ℕ) → l ≡ m → is_dot_dot m ≡ false → is_dot_dot l ≡ true → A
not_dot_dot l m e f h = absurd (false≢true (sym f ∙ (ap is_dot_dot (sym e) ∙ h)))

-- A first segment `..` is followed by a slash or by nothing.
abbrev IsUp : List ℕ → Type 0
IsUp r = (r ≡ b'.' ∷ b'.' ∷ []) ⊎ ((r' : List ℕ) × (r ≡ b'.' ∷ b'.' ∷ b'/' ∷ r'))

IsUp-third : (c d : ℕ) (r : List ℕ) → is_dot_dot (c ∷ d ∷ (segments r).0) ≡ true → IsUp (c ∷ d ∷ r)
IsUp-third c d [] h = let (e, f) = two_dots c d h in inl (rw e (rw f refl))
IsUp-third c d (x ∷ r) h = elim (Bool-cases (x == b'/')) [
  | inl s ↦
      (let (e, f) = two_dots c d (ap (λ l. is_dot_dot (c ∷ d ∷ l)) (sym (first-slash x r s)) ∙ h) in
        inr (r, rw e (rw f (rw ((==_iff x b'/').0 s) refl))))
  | inr s ↦
      not_dot_dot (c ∷ d ∷ (segments (x ∷ r)).0) (c ∷ d ∷ x ∷ (segments r).0)
        (ap (λ l. c ∷ d ∷ l) (first-byte x r s)) refl h
]

IsUp-second : (c : ℕ) (r : List ℕ) → is_dot_dot (c ∷ (segments r).0) ≡ true → IsUp (c ∷ r)
IsUp-second c [] h = absurd (false≢true h)
IsUp-second c (x ∷ r) h = elim (Bool-cases (x == b'/')) [
  | inl s ↦
      not_dot_dot (c ∷ (segments (x ∷ r)).0) (c ∷ []) (ap (λ l. c ∷ l) (first-slash x r s)) refl h
  | inr s ↦ IsUp-third c x r (ap (λ l. is_dot_dot (c ∷ l)) (sym (first-byte x r s)) ∙ h)
]

is_dot_dot-segments : (r : List ℕ) → is_dot_dot (segments r).0 ≡ true → IsUp r
is_dot_dot-segments [] h = absurd (false≢true h)
is_dot_dot-segments (x ∷ r) h = elim (Bool-cases (x == b'/')) [
  | inl s ↦ not_dot_dot (segments (x ∷ r)).0 [] (first-slash x r s) refl h
  | inr s ↦ IsUp-second x r (ap is_dot_dot (sym (first-byte x r s)) ∙ h)
]

-- What stands behind the slash, where the segment of the loop is not `..`.
pub data Behind : List ℕ → Type 0 where
  up_inner : (r : List ℕ) → Behind (b'.' ∷ b'.' ∷ b'/' ∷ r)
  up_final : Behind (b'.' ∷ b'.' ∷ [])
  longer :
      (r : List ℕ)
      → starts_up r ≡ true
      → third_slash r ≡ false
      → is_two r ≡ false
      → is_dot_dot (segments r).0 ≡ false
      → Behind r
  other : (r : List ℕ) → starts_up r ≡ false → is_dot_dot (segments r).0 ≡ false → Behind r

both_dots : (d e : ℕ) → ((d == b'.') && (e == b'.')) ≡ true → (d ≡ b'.') × (e ≡ b'.')
both_dots d e h = ground arith

Behind-inner : (r : List ℕ) → starts_up r ≡ true → third_slash r ≡ true → Behind r
Behind-inner [] h k = absurd (false≢true h)
Behind-inner (d ∷ []) h k = absurd (false≢true h)
Behind-inner (d ∷ e ∷ []) h k = absurd (false≢true k)
Behind-inner (d ∷ e ∷ f ∷ r) h k =
    let (x, y) = both_dots d e h in rw x (rw y (rw ((==_iff f b'/').0 k) (Behind.up_inner r)))

Behind-final : (r : List ℕ) → starts_up r ≡ true → is_two r ≡ true → Behind r
Behind-final [] h k = absurd (false≢true h)
Behind-final (d ∷ []) h k = absurd (false≢true h)
Behind-final (d ∷ e ∷ []) h k = let (x, y) = both_dots d e h in rw x (rw y Behind.up_final)
Behind-final (d ∷ e ∷ f ∷ r) h k = absurd (false≢true k)

Behind-up : (r : List ℕ) → IsUp r → Behind r
Behind-up r (inl e) = rw e Behind.up_final
Behind-up r (inr (r', e)) = rw e (Behind.up_inner r')

Behind-starts : (r : List ℕ) → starts_up r ≡ true → is_dot_dot (segments r).0 ≡ false → Behind r
Behind-starts r h k = elim (Bool-cases (third_slash r)) [
  | inl t ↦ Behind-inner r h t
  | inr t ↦ elim (Bool-cases (is_two r)) [
    | inl u ↦ Behind-final r h u
    | inr u ↦ Behind.longer r h t u k
  ]
]

pub behind : (r : List ℕ) → Behind r
behind r = elim (Bool-cases (is_dot_dot (segments r).0)) [
  | inl h ↦ Behind-up r (is_dot_dot-segments r h)
  | inr h ↦ elim (Bool-cases (starts_up r)) [
    | inl k ↦ Behind-starts r k h
    | inr k ↦ Behind.other r k h
  ]
]
