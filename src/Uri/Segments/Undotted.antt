-- ===== src/Uri/Segments/Undotted.antt =====
-- url/uriaa_rfc2396_resolve.h: what the loop over the segments `.` leaves of a path.
use mathlib.Core.List.{append_assoc, append-nil}
use httpaa.Base.{
  ℕ, zero, suc, ◌+◌, ◌<◌, ◌≡◌, refl, ap, true, false, ◌∙◌, sym, List, [], ◌∷◌, ◌++◌, Option, some,
  ltb, ◌==◌, length, arith, ==_iff, subst, Bool-cases, inl, inr,
}
use httpaa.Uri.Segments.{Removal, point_round, point_loop}
use httpaa.Uri.Segments.State.{state}
use httpaa.Uri.Segments.Point.{
  point_round_byte, point_round_segment, point_round_remove, moved_junk,
}
use httpaa.Uri.Segments.Spec.{is_dot, segments, undotted, last_of}

pub point_loop_step :
    (fuel : ℕ) (r r1 : Removal)
    → ltb r.i_s r.buf_size ≡ true
    → point_round r ≡ some r1
    → point_loop (suc fuel) r ≡ point_loop fuel r1
unfolding point_loop
point_loop_step fuel r r1 h k = rw (point_loop, h) (rw k refl)

pub point_loop_end :
    (fuel : ℕ) (r : Removal) → ltb r.i_s r.buf_size ≡ false → point_loop (suc fuel) r ≡ some r
unfolding point_loop
point_loop_end fuel r h = rw (point_loop, h) refl

pub inside : (p s r : ℕ) → ltb (p + s) (p + (s + suc r)) ≡ true
inside p s r = ground arith

pub outside : (p s : ℕ) → ltb (p + s) (p + (s + 0)) ≡ false
outside p s = ground arith

-- The loop has ended with the path `text`, whose last segment is `last`.
abbrev pub Ends : List ℕ → List ℕ → ℕ → Option Removal → Type 0
Ends text last z found =
    (q : List ℕ) × (junk : List ℕ) × (found ≡ some (state q last [] (z ∷ junk)))
    × (q ++ last ≡ text)

abbrev Left : ℕ → List ℕ → List ℕ → List ℕ → ℕ → List ℕ → Type 0
Left fuel p seg r z junk =
    let (s, ss) = segments r in
    Ends (p ++ undotted (seg ++ s) ss) (last_of (seg ++ s) ss) z
      (point_loop fuel (state p seg r (z ∷ junk)))

pub segments-byte :
    (c : ℕ) (l : List ℕ)
    → (c == b'/') ≡ false
    → segments (c ∷ l) ≡ (c ∷ (segments l).0, (segments l).1)
segments-byte c l h = rw h refl

pub append3 : (p seg u : List ℕ) → (p ++ (seg ++ b'/' ∷ [])) ++ u ≡ p ++ (seg ++ b'/' ∷ u)
append3 p seg u =
    append_assoc p (seg ++ b'/' ∷ []) u ∙ ap (λ l. p ++ l) (append_assoc seg (b'/' ∷ []) u)

module _ (fuel : ℕ) (p seg r : List ℕ) (z : ℕ) (junk : List ℕ) where
  Left-byte :
      (c : ℕ)
      → (c == b'/') ≡ false
      → Left fuel p (seg ++ c ∷ []) r z junk
      → Left (suc fuel) p seg (c ∷ r) z junk
  Left-byte c h k = rw (segments-byte c r h) (
      rw
        (point_loop_step fuel (state p seg (c ∷ r) (z ∷ junk))
          (state p (seg ++ c ∷ []) r (z ∷ junk)) (inside (length p) (length seg) (length r))
          (point_round_byte p seg c r (z ∷ junk) h))
        (subst
          (λ l.
            Ends (p ++ undotted l (segments r).1) (last_of l (segments r).1) z
              (point_loop fuel (state p (seg ++ c ∷ []) r (z ∷ junk))))
          (append_assoc seg (c ∷ []) (segments r).0) k))

  Left-segment :
      is_dot seg ≡ false
      → Left fuel (p ++ (seg ++ b'/' ∷ [])) [] r z junk
      → Left (suc fuel) p seg (b'/' ∷ r) z junk
  Left-segment h k =
      rw
        (point_loop_step fuel (state p seg (b'/' ∷ r) (z ∷ junk))
          (state (p ++ (seg ++ b'/' ∷ [])) [] r (z ∷ junk))
          (inside (length p) (length seg) (length r)) (point_round_segment p seg r (z ∷ junk) h))
        (rw (append-nil seg) (
          rw h (
            let (q, junk', e, t) = k in
            (q, junk', e, t ∙ append3 p seg (undotted (segments r).0 (segments r).1)))))

  Left-remove :
      is_dot seg ≡ true
      → Left fuel p [] r z (moved_junk r z junk)
      → Left (suc fuel) p seg (b'/' ∷ r) z junk
  Left-remove h k =
      rw
        (point_loop_step fuel (state p seg (b'/' ∷ r) (z ∷ junk))
          (state p [] r (z ∷ moved_junk r z junk)) (inside (length p) (length seg) (length r))
          (point_round_remove p seg r z junk h))
        (rw (append-nil seg) (rw h k))

pub left_lem :
    (fuel : ℕ) (p seg r : List ℕ) (z : ℕ) (junk : List ℕ)
    → length r < fuel
    → Left fuel p seg r z junk
left_lem zero p seg r z junk h = absurd (omega arith)
left_lem (suc fuel) p seg [] z junk h = rw (append-nil seg) (
  p,
  junk,
  point_loop_end fuel (state p seg [] (z ∷ junk)) (outside (length p) (length seg)),
  refl,
)
left_lem (suc fuel) p seg (c ∷ r) z junk h = elim (Bool-cases (c == b'/')) [
  | inl e ↦
      subst (λ x. Left (suc fuel) p seg (x ∷ r) z junk) (sym ((==_iff c b'/').0 e))
        (elim (Bool-cases (is_dot seg)) [
          | inl d ↦
              Left-remove fuel p seg r z junk d
                (left_lem fuel p [] r z (moved_junk r z junk) (omega arith))
          | inr d ↦
              Left-segment fuel p seg r z junk d
                (left_lem fuel (p ++ (seg ++ b'/' ∷ [])) [] r z junk (omega arith))
        ])
  | inr e ↦
      Left-byte fuel p seg r z junk c e (left_lem fuel p (seg ++ c ∷ []) r z junk (omega arith))
]
