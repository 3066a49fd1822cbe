-- ===== src/Uri/Segments/Rounds.antt =====
-- url/uriaa_rfc2396_resolve.h: what a round of the loop over the segments `..` does, by what stands
-- at the read position.
use mathlib.Core.List.{append_assoc}
use httpaa.Base.{
  ℕ, suc, ◌+◌, ◌-◌, ◌≡◌, refl, ap, true, false, not, ◌&&◌, ◌∙◌, sym, List, [], ◌∷◌, ◌++◌, some,
  ◌==◌, length, drop, length-append, arith, subst,
}
use httpaa.Uri.Segments.{remove, broken, points_round}
use httpaa.Uri.Segments.State.{removal, removal_eq, state, remove_lem, length-append3}
use httpaa.Uri.Segments.Undotted.{append3}
use httpaa.Uri.Segments.Points.{third_slash, is_two, points_round_lem}
use httpaa.Uri.Segments.Spec.{is_dot_dot, starts_up}

-- The bytes of `seg` and of `mid` are taken out.
remove_segment :
    (p seg mid r : List ℕ) (z : ℕ) (junk : List ℕ) (i size src n : ℕ)
    → src ≡ length p + (length seg + length mid)
    → n ≡ length r + 1
    → size ≡ length p + (length seg + (length mid + length r))
    → (junk' : List ℕ) × (broken
          (remove (removal (p ++ (seg ++ (mid ++ (r ++ z ∷ junk)))) i (length p) size) src n 0)
        ≡ some (true, removal (p ++ (r ++ z ∷ junk')) 0 (length p) (length p + length r)))
remove_segment p seg mid r z junk i size src n e f g = (
  drop (length r + 1) ((seg ++ mid) ++ (r ++ z ∷ junk)),
  subst
      (λ l.
        broken (remove (removal (p ++ l) i (length p) size) src n 0)
        ≡ some (
          true,
          removal (p ++ (r ++ z ∷ drop (length r + 1) ((seg ++ mid) ++ (r ++ z ∷ junk)))) 0
              (length p) (length p + length r),
        ))
      (append_assoc seg mid (r ++ z ∷ junk))
      (ap broken
          (remove_lem p (seg ++ mid) r z junk i size src n 0 (rw (length-append seg mid) e) f)
        ∙ ap (λ x. some (true, x))
            (removal_eq refl refl refl (rw (length-append seg mid) (omega arith)))),
)

module _ (p seg : List ℕ) where
  pub points_round_byte :
      (c : ℕ) (r junk : List ℕ)
      → (c == b'/') ≡ false
      → points_round (state p seg (c ∷ r) junk) ≡ some (false, state p (seg ++ c ∷ []) r junk)
  points_round_byte c r junk h =
      points_round_lem p seg c r junk false false h refl
      ∙ ap (λ x. some (false, x))
          (removal_eq (ap (λ l. p ++ l) (sym (append_assoc seg (c ∷ []) (r ++ junk))))
            (rw (length-append seg (c ∷ [])) (omega arith)) refl
            (rw (length-append seg (c ∷ [])) (omega arith)))

  pub points_round_next :
      (r junk : List ℕ)
      → (not (is_dot_dot seg) && starts_up r) ≡ true
      → third_slash r ≡ false
      → is_two r ≡ false
      → points_round (state p seg (b'/' ∷ r) junk) ≡ some (false, state p (seg ++ b'/' ∷ []) r junk)
  points_round_next r junk h k m =
      points_round_lem p seg b'/' r junk true true refl h
      ∙ rw k (
          rw m (
            ap (λ x. some (false, x))
              (removal_eq (ap (λ l. p ++ l) (sym (append_assoc seg (b'/' ∷ []) (r ++ junk))))
                (rw (length-append seg (b'/' ∷ [])) (omega arith)) refl
                (rw (length-append seg (b'/' ∷ [])) (omega arith)))))

  pub points_round_segment :
      (r junk : List ℕ)
      → (not (is_dot_dot seg) && starts_up r) ≡ false
      → points_round (state p seg (b'/' ∷ r) junk)
        ≡ some (false, state (p ++ (seg ++ b'/' ∷ [])) [] r junk)
  points_round_segment r junk h =
      points_round_lem p seg b'/' r junk true false refl h
      ∙ ap (λ x. some (false, x))
          (removal_eq (sym (append3 p seg (r ++ junk)))
            (rw (length-append3 p seg (b'/' ∷ [])) (omega arith))
            (rw (length-append3 p seg (b'/' ∷ [])) (omega arith))
            (rw (length-append3 p seg (b'/' ∷ [])) (omega arith)))

  pub points_round_inner :
      (r : List ℕ) (z : ℕ) (junk : List ℕ)
      → is_dot_dot seg ≡ false
      → (junk' : List ℕ) × (points_round (state p seg (b'/' ∷ b'.' ∷ b'.' ∷ b'/' ∷ r) (z ∷ junk))
          ≡ some (true, removal (p ++ (r ++ z ∷ junk')) 0 (length p) (length p + length r)))
  points_round_inner r z junk h =
      let (junk', e) =
        remove_segment p seg (b'/' ∷ b'.' ∷ b'.' ∷ b'/' ∷ []) r z junk (length p + length seg)
          (length p + (length seg + suc (suc (suc (suc (length r)))))) (length p + length seg + 4)
          (length p
            + (length seg + suc (suc (suc (suc (length r)))))
            - (length p + length seg)
            - 4
            + 1)
          (omega arith) (omega arith) (omega arith) in
      (
        junk',
        points_round_lem p seg b'/' (b'.' ∷ b'.' ∷ b'/' ∷ r) (z ∷ junk) true true refl (rw h refl)
            ∙ e,
      )

  pub points_round_final :
      (z : ℕ) (junk : List ℕ)
      → is_dot_dot seg ≡ false
      → (junk' : List ℕ) × (points_round (state p seg (b'/' ∷ b'.' ∷ b'.' ∷ []) (z ∷ junk))
          ≡ some (true, removal (p ++ z ∷ junk') 0 (length p) (length p + 0)))
  points_round_final z junk h =
      let (junk', e) =
        remove_segment p seg (b'/' ∷ b'.' ∷ b'.' ∷ []) [] z junk (length p + length seg)
          (length p + (length seg + 3)) (length p + length seg + 3)
          (length p + (length seg + 3) - (length p + length seg) - 3 + 1) (omega arith)
          (omega arith) (omega arith) in
      (
        junk',
        points_round_lem p seg b'/' (b'.' ∷ b'.' ∷ []) (z ∷ junk) true true refl (rw h refl) ∙ e,
      )
