-- ===== src/Uri/Segments/Pass.antt =====
-- url/uriaa_rfc2396_resolve.h: one pass of uriaa_remove_segment_points over the path, and all of them.
use mathlib.Core.List.{append_assoc, append-nil}
use mathlib.Core.Bool.{false≢true}
use httpaa.Base.{
  ℕ, zero, suc, ◌+◌, ◌<◌, ◌≡◌, ◌⊎◌, refl, ap, true, false, not, ◌&&◌, ◌||◌, ◌∙◌, sym, List, [], ◌∷◌,
  ◌++◌, Option, some, Bool, ltb, ◌==◌, length, length-append, arith, ==_iff, subst, Bool-cases, inl,
  inr,
}
use httpaa.Uri.Segments.{Removal, points_round, points_pass}
use httpaa.Uri.Segments.State.{removal, removal_eq, state}
use httpaa.Uri.Segments.Undotted.{append3, inside, outside, segments-byte}
use httpaa.Uri.Segments.Points.{third_slash, is_two, and_last}
use httpaa.Uri.Segments.Rounds.{
  points_round_byte, points_round_next, points_round_segment, points_round_inner,
  points_round_final,
}
use httpaa.Uri.Segments.Behind.{Behind, behind, not_dot_dot}
use httpaa.Uri.Segments.Spec.{is_dot_dot, starts_up, joined, segments, settled, IsFront, Up}

points_pass_step :
    (fuel : ℕ) (r r1 : Removal)
    → ltb r.i_s r.buf_size ≡ true
    → points_round r ≡ some (false, r1)
    → points_pass (suc fuel) r ≡ points_pass fuel r1
unfolding points_pass
points_pass_step fuel r r1 h k = rw (points_pass, h) (rw k refl)

points_pass_broken :
    (fuel : ℕ) (r r1 : Removal)
    → ltb r.i_s r.buf_size ≡ true
    → points_round r ≡ some (true, r1)
    → points_pass (suc fuel) r ≡ some r1
unfolding points_pass
points_pass_broken fuel r r1 h k = rw (points_pass, h) (rw k refl)

points_pass_end :
    (fuel : ℕ) (r : Removal) → ltb r.i_s r.buf_size ≡ false → points_pass (suc fuel) r ≡ some r
unfolding points_pass
points_pass_end fuel r h = rw (points_pass, h) refl

-- The segment of the loop is the open segment `s`, or has more segments in front of that.
abbrev Tracks : List ℕ → List ℕ → Type 0
Tracks seg s = (seg ≡ s) ⊎ ((y : List ℕ) × (seg ≡ y ++ b'/' ∷ s))

-- The pass came to the end of the path `l`.
abbrev pub Settles : List ℕ → List ℕ → List ℕ → ℕ → Option Removal → Type 0
Settles l s r z found =
    (q : List ℕ) × (t : List ℕ) × (junk : List ℕ) × (found ≡ some (state q t [] (z ∷ junk)))
    × (q ++ t ≡ l)
    × (settled (s ++ (segments r).0) (segments r).1 ≡ true)

-- The pass has made one step up from `l`.
abbrev pub Broke : List ℕ → ℕ → Option Removal → Type 0
Broke l z found =
    (w : List ℕ) × (junk : List ℕ) × (n : ℕ) × (found
      ≡ some (removal (w ++ z ∷ junk) 0 n (length w)))
    × Up l w

abbrev pub Passed : ℕ → List ℕ → List ℕ → List ℕ → List ℕ → ℕ → List ℕ → Type 0
Passed fuel p seg s r z junk =
    let found = points_pass fuel (state p seg r (z ∷ junk)) in
    Settles (p ++ (seg ++ r)) s r z found ⊎ Broke (p ++ (seg ++ r)) z found

-- Nothing but a step of the variables, which keeps the path.
Passed-step :
    (fuel : ℕ) (p seg s r p' seg' s' r' : List ℕ) (z : ℕ) (junk : List ℕ)
    → points_pass (suc fuel) (state p seg r (z ∷ junk))
      ≡ points_pass fuel (state p' seg' r' (z ∷ junk))
    → p' ++ (seg' ++ r') ≡ p ++ (seg ++ r)
    → (settled (s' ++ (segments r').0) (segments r').1 ≡ true
        → settled (s ++ (segments r).0) (segments r).1 ≡ true)
    → Passed fuel p' seg' s' r' z junk
    → Passed (suc fuel) p seg s r z junk
Passed-step fuel p seg s r p' seg' s' r' z junk e t f k = elim k [
  | inl (q, u, junk', e', t', f') ↦ inl (q, u, junk', e ∙ e', t' ∙ t, f f')
  | inr (w, junk', n, e', u) ↦ inr (w, junk', n, e ∙ e', subst (λ l. Up l w) t u)
]

or_true : (b : Bool) → ((b || true) && true) ≡ true
or_true true = refl
or_true false = refl

settled-slash :
    (s r : List ℕ)
    → (is_dot_dot (segments r).0 ≡ false) ⊎ (is_dot_dot s ≡ true)
    → settled (segments r).0 (segments r).1 ≡ true
    → settled (s ++ (segments (b'/' ∷ r)).0) (segments (b'/' ∷ r)).1 ≡ true
settled-slash s r (inl h) k = rw h k
settled-slash s r (inr h) k =
    rw (append-nil s) (rw h (rw k (or_true (not (is_dot_dot (segments r).0)))))

Tracks-byte : (seg s : List ℕ) (c : ℕ) → Tracks seg s → Tracks (seg ++ c ∷ []) (s ++ c ∷ [])
Tracks-byte seg s c (inl e) = inl (ap (λ l. l ++ c ∷ []) e)
Tracks-byte seg s c (inr (y, e)) =
    inr (y, ap (λ l. l ++ c ∷ []) e ∙ append_assoc y (b'/' ∷ s) (c ∷ []))

and_false : (b : Bool) → (b && false) ≡ false
and_false true = refl
and_false false = refl

-- More segments than one are not `..`.
is_dot_dot-more : (y s : List ℕ) → is_dot_dot (y ++ b'/' ∷ s) ≡ false
is_dot_dot-more [] [] = refl
is_dot_dot-more [] (c ∷ []) = and_false (c == b'.')
is_dot_dot-more [] (c ∷ d ∷ s) = refl
is_dot_dot-more (c ∷ []) [] = refl
is_dot_dot-more (c ∷ []) (d ∷ s) = refl
is_dot_dot-more (c ∷ d ∷ []) s = refl
is_dot_dot-more (c ∷ d ∷ e ∷ y) s = refl

Tracks-up : (seg s : List ℕ) → Tracks seg s → is_dot_dot seg ≡ true → is_dot_dot s ≡ true
Tracks-up seg s (inl e) h = ap is_dot_dot (sym e) ∙ h
Tracks-up seg s (inr (y, e)) h = not_dot_dot seg (y ++ b'/' ∷ s) e (is_dot_dot-more y s) h

IsFront-more : (p seg : List ℕ) → IsFront (p ++ (seg ++ b'/' ∷ []))
IsFront-more p seg = inr (p ++ seg, sym (append_assoc p seg (b'/' ∷ [])))

and_both : (a b : Bool) → (a && b) ≡ true → (a ≡ true) × (b ≡ true)
and_both true b h = (refl, h)
and_both false b h = absurd (false≢true h)

-- The segment goes on with a byte that is no slash, or with a slash behind which two dots stand.
joined-more :
    (seg : List ℕ) (c : ℕ) (r : List ℕ)
    → ((c == b'/') ≡ false) ⊎ (starts_up r ≡ true)
    → joined seg (c ∷ r) ≡ true
    → joined (seg ++ c ∷ []) r ≡ true
joined-more [] c r (inl h) j = rw h refl
joined-more [] c r (inr h) j = ground (arith, h)
joined-more (x ∷ seg) c r h j =
    let (now, rest) =
      and_both (not (x == b'/') || starts_up (seg ++ c ∷ r)) (joined seg (c ∷ r)) j in
    rw (append_assoc seg (c ∷ []) r) (rw now (joined-more seg c r h rest))

module _ (fuel : ℕ) (p seg s : List ℕ) (z : ℕ) (junk : List ℕ) (f : IsFront p) where
  abbrev Rest : List ℕ → Type 0
  Rest r =
      (p' seg' s' : List ℕ)
      → IsFront p'
      → Tracks seg' s'
      → joined seg' r ≡ true
      → Passed fuel p' seg' s' r z junk

  Passed-byte :
      (c : ℕ) (r : List ℕ)
      → (c == b'/') ≡ false
      → Tracks seg s
      → joined seg (c ∷ r) ≡ true
      → Rest r
      → Passed (suc fuel) p seg s (c ∷ r) z junk
  Passed-byte c r h t j k =
      Passed-step fuel p seg s (c ∷ r) p (seg ++ c ∷ []) (s ++ c ∷ []) r z junk
        (points_pass_step fuel (state p seg (c ∷ r) (z ∷ junk))
          (state p (seg ++ c ∷ []) r (z ∷ junk)) (inside (length p) (length seg) (length r))
          (points_round_byte p seg c r (z ∷ junk) h))
        (ap (λ l. p ++ l) (append_assoc seg (c ∷ []) r))
        (λ e.
          rw (segments-byte c r h)
            (ap (λ l. settled l (segments r).1) (sym (append_assoc s (c ∷ []) (segments r).0)) ∙ e))
        (k p (seg ++ c ∷ []) (s ++ c ∷ []) f (Tracks-byte seg s c t)
          (joined-more seg c r (inl h) j))

  -- The loop goes on with a new segment.
  Passed-segment :
      (r : List ℕ)
      → (not (is_dot_dot seg) && starts_up r) ≡ false
      → (is_dot_dot (segments r).0 ≡ false) ⊎ (is_dot_dot s ≡ true)
      → Rest r
      → Passed (suc fuel) p seg s (b'/' ∷ r) z junk
  Passed-segment r h g k =
      Passed-step fuel p seg s (b'/' ∷ r) (p ++ (seg ++ b'/' ∷ [])) [] [] r z junk
        (points_pass_step fuel (state p seg (b'/' ∷ r) (z ∷ junk))
          (state (p ++ (seg ++ b'/' ∷ [])) [] r (z ∷ junk))
          (inside (length p) (length seg) (length r)) (points_round_segment p seg r (z ∷ junk) h))
        (append3 p seg r) (settled-slash s r g)
        (k (p ++ (seg ++ b'/' ∷ [])) [] [] (IsFront-more p seg) (inl refl) refl)

  -- The loop goes on in the same segment.
  Passed-next :
      (r : List ℕ)
      → (not (is_dot_dot seg) && starts_up r) ≡ true
      → third_slash r ≡ false
      → is_two r ≡ false
      → is_dot_dot (segments r).0 ≡ false
      → joined seg (b'/' ∷ r) ≡ true
      → Rest r
      → Passed (suc fuel) p seg s (b'/' ∷ r) z junk
  Passed-next r h g i n j k =
      Passed-step fuel p seg s (b'/' ∷ r) p (seg ++ b'/' ∷ []) [] r z junk
        (points_pass_step fuel (state p seg (b'/' ∷ r) (z ∷ junk))
          (state p (seg ++ b'/' ∷ []) r (z ∷ junk)) (inside (length p) (length seg) (length r))
          (points_round_next p seg r (z ∷ junk) h g i))
        (ap (λ l. p ++ l) (append_assoc seg (b'/' ∷ []) r)) (settled-slash s r (inl n))
        (k p (seg ++ b'/' ∷ []) [] f (inr (seg, refl))
          (joined-more seg b'/' r (inr (and_last (not (is_dot_dot seg)) (starts_up r) h)) j))

  Passed-inner :
      (r : List ℕ)
      → is_dot_dot seg ≡ false
      → joined seg (b'/' ∷ b'.' ∷ b'.' ∷ b'/' ∷ r) ≡ true
      → Passed (suc fuel) p seg s (b'/' ∷ b'.' ∷ b'.' ∷ b'/' ∷ r) z junk
  Passed-inner r h j =
      let (junk', e) = points_round_inner p seg r z junk h in
      inr (
        p ++ r,
        junk',
        length p,
        points_pass_broken fuel (state p seg (b'/' ∷ b'.' ∷ b'.' ∷ b'/' ∷ r) (z ∷ junk))
              (removal (p ++ (r ++ z ∷ junk')) 0 (length p) (length p + length r))
              (inside (length p) (length seg) (suc (suc (suc (length r))))) e
            ∙ ap some (
                removal_eq (sym (append_assoc p r (z ∷ junk'))) refl refl
                  (sym (length-append p r))),
        Up.inner p seg r f h j,
      )

  Passed-final :
      is_dot_dot seg ≡ false
      → joined seg (b'/' ∷ b'.' ∷ b'.' ∷ []) ≡ true
      → Passed (suc fuel) p seg s (b'/' ∷ b'.' ∷ b'.' ∷ []) z junk
  Passed-final h j =
      let (junk', e) = points_round_final p seg z junk h in
      inr (
        p,
        junk',
        length p,
        points_pass_broken fuel (state p seg (b'/' ∷ b'.' ∷ b'.' ∷ []) (z ∷ junk))
              (removal (p ++ z ∷ junk') 0 (length p) (length p + 0))
              (inside (length p) (length seg) 2) e
            ∙ ap some (removal_eq refl refl refl (omega arith)),
        Up.final p seg f h j,
      )

  -- Behind a segment that is not `..`.
  Passed-Behind :
      (r : List ℕ)
      → is_dot_dot seg ≡ false
      → joined seg (b'/' ∷ r) ≡ true
      → Behind r
      → Rest r
      → Passed (suc fuel) p seg s (b'/' ∷ r) z junk
  Passed-Behind _ h j (Behind.up_inner r) k = Passed-inner r h j
  Passed-Behind _ h j Behind.up_final k = Passed-final h j
  Passed-Behind _ h j (Behind.longer r a b c d) k = Passed-next r (rw h a) b c d j k
  Passed-Behind _ h j (Behind.other r a b) k = Passed-segment r (rw h a) (inl b) k

  Passed-slash :
      (r : List ℕ)
      → Tracks seg s
      → joined seg (b'/' ∷ r) ≡ true
      → Rest r
      → Passed (suc fuel) p seg s (b'/' ∷ r) z junk
  Passed-slash r t j k = elim (Bool-cases (is_dot_dot seg)) [
    | inl h ↦ Passed-segment r (rw h refl) (inr (Tracks-up seg s t h)) k
    | inr h ↦ Passed-Behind r h j (behind r) k
  ]

pub passed_lem :
    (fuel : ℕ) (p seg s r : List ℕ) (z : ℕ) (junk : List ℕ)
    → length r < fuel
    → IsFront p
    → Tracks seg s
    → joined seg r ≡ true
    → Passed fuel p seg s r z junk
passed_lem zero p seg s r z junk h f t j = absurd (omega arith)
passed_lem (suc fuel) p seg s [] z junk h f t j = inl (
  p,
  seg,
  junk,
  points_pass_end fuel (state p seg [] (z ∷ junk)) (outside (length p) (length seg)),
  ap (λ l. p ++ l) (sym (append-nil seg)),
  refl,
)
passed_lem (suc fuel) p seg s (c ∷ r) z junk h f t j = elim (Bool-cases (c == b'/')) [
  | inl e ↦
      subst (λ x. Passed (suc fuel) p seg s (x ∷ r) z junk) (sym ((==_iff c b'/').0 e))
        (Passed-slash fuel p seg s z junk f r t
          (subst (λ x. joined seg (x ∷ r) ≡ true) ((==_iff c b'/').0 e) j)
          (λ p' seg' s' f' t' j'. passed_lem fuel p' seg' s' r z junk (omega arith) f' t' j'))
  | inr e ↦
      Passed-byte fuel p seg s z junk f c r e t j
        (λ p' seg' s' f' t' j'. passed_lem fuel p' seg' s' r z junk (omega arith) f' t' j')
]
