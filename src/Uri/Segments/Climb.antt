-- ===== src/Uri/Segments/Climb.antt =====
-- url/uriaa_rfc2396_resolve.h: all passes of uriaa_remove_segment_points.
use mathlib.Core.List.{append_assoc}
use httpaa.Base.{
  ℕ, zero, suc, ◌+◌, ◌<◌, ◌≡◌, ◌⊎◌, refl, ap, true, false, ◌∙◌, sym, List, [], ◌∷◌, ◌++◌, Option,
  some, ltb, length, take, get_elem?, length-append, arith, subst, inl, inr,
}
use httpaa.Uri.Segments.{Removal, points_pass, points_loop, remove_points}
use httpaa.Uri.Segments.State.{removal, state, length-append3}
use httpaa.Uri.Segments.Undotted.{outside}
use httpaa.Uri.Segments.Pass.{Settles, Broke, passed_lem}
use httpaa.Uri.Segments.Result.{at_end, started}
use httpaa.Uri.Segments.Spec.{segments, settled, Up, Ups}

Up-length : (l w : List ℕ) → Up l w → length w < length l
Up-length _ _ (Up.inner p seg r f h j) =
    rw (length-append3 p seg (b'/' ∷ b'.' ∷ b'.' ∷ b'/' ∷ r)) (rw (length-append p r) (omega arith))
Up-length _ _ (Up.final p seg f h j) =
    rw (length-append3 p seg (b'/' ∷ b'.' ∷ b'.' ∷ [])) (omega arith)

points_loop_end :
    (fuel : ℕ) (r r1 : Removal)
    → points_pass (r.buf_size + 1) (record r { segment_s = 0 }) ≡ some r1
    → ltb r1.i_s r1.buf_size ≡ false
    → points_loop (suc fuel) r ≡ some r1
unfolding points_loop
points_loop_end fuel r r1 h k = rw (points_loop, h) (rw k refl)

points_loop_step :
    (fuel : ℕ) (r r1 : Removal)
    → points_pass (r.buf_size + 1) (record r { segment_s = 0 }) ≡ some r1
    → ltb r1.i_s r1.buf_size ≡ true
    → points_loop (suc fuel) r ≡ points_loop fuel r1
unfolding points_loop
points_loop_step fuel r r1 h k = rw (points_loop, h) (rw k refl)

-- The loop leaves a path that steps up from `l` lead to, and that has no more to go up from.
abbrev pub Climbs : List ℕ → ℕ → Option Removal → Type 0
Climbs l z found =
    (r : Removal) × (w : List ℕ) × (found ≡ some r)
    × Ups l w
    × (r.buf_size ≡ length w)
    × (take r.buf_size r.buf ≡ w)
    × (get_elem? r.buf r.buf_size ≡ some z)
    × (settled (segments w).0 (segments w).1 ≡ true)

Climbs-found :
    (l w : List ℕ) (z : ℕ) (found : Option Removal) (junk buf : List ℕ) (i s n : ℕ)
    → found ≡ some (removal buf i s n)
    → n ≡ length w
    → buf ≡ w ++ z ∷ junk
    → Ups l w
    → settled (segments w).0 (segments w).1 ≡ true
    → Climbs l z found
Climbs-found l w z found junk buf i s n e h k u t =
    let (a, b) = at_end w junk buf z n h k in (removal buf i s n, w, e, u, h, a, b, t)

Climbs-more :
    (l w : List ℕ) (z : ℕ) (found : Option Removal) → Up l w → Climbs w z found → Climbs l z found
Climbs-more l w z found u (r, v, e, us, h, a, b, t) = (r, v, e, Ups.step l w v u us, h, a, b, t)

zero_lt : (n : ℕ) → ltb 0 (suc n) ≡ true
zero_lt n = ground arith

Settles-Climbs :
    (fuel : ℕ) (l : List ℕ) (z : ℕ) (junk : List ℕ) (s : ℕ)
    → Settles l [] l z (points_pass (length l + 1) (removal (l ++ z ∷ junk) 0 0 (length l)))
    → Climbs l z (points_loop (suc fuel) (removal (l ++ z ∷ junk) 0 s (length l)))
Settles-Climbs fuel l z junk s (q, t, junk', e, k, f) =
    Climbs-found l l z (points_loop (suc fuel) (removal (l ++ z ∷ junk) 0 s (length l))) junk'
      (q ++ (t ++ z ∷ junk')) (length q + length t) (length q) (length q + (length t + 0))
      (points_loop_end fuel (removal (l ++ z ∷ junk) 0 s (length l)) (state q t [] (z ∷ junk')) e
        (outside (length q) (length t)))
      (sym (ap length (sym k) ∙ (length-append q t ∙ omega arith)))
      (sym (append_assoc q t (z ∷ junk')) ∙ ap (λ m. m ++ z ∷ junk') k) (Ups.done l) f

-- The rest of the loop behind a step up to `w`.
broke-Climbs :
    (fuel : ℕ) (l : List ℕ) (z : ℕ) (junk : List ℕ) (s : ℕ) (w junk' : List ℕ) (n : ℕ)
    → points_pass (length l + 1) (removal (l ++ z ∷ junk) 0 0 (length l))
      ≡ some (removal (w ++ z ∷ junk') 0 n (length w))
    → Up l w
    → Climbs w z (points_loop fuel (removal (w ++ z ∷ junk') 0 n (length w)))
    → Climbs l z (points_loop (suc fuel) (removal (l ++ z ∷ junk) 0 s (length l)))
broke-Climbs fuel l z junk s [] junk' n e u k =
    Climbs-found l [] z (points_loop (suc fuel) (removal (l ++ z ∷ junk) 0 s (length l))) junk'
      (z ∷ junk') 0 n 0
      (points_loop_end fuel (removal (l ++ z ∷ junk) 0 s (length l)) (removal (z ∷ junk') 0 n 0) e
        refl)
      refl refl (Ups.step l [] [] u (Ups.done [])) refl
broke-Climbs fuel l z junk s (c ∷ w) junk' n e u k =
    Climbs-more l (c ∷ w) z (points_loop (suc fuel) (removal (l ++ z ∷ junk) 0 s (length l))) u (
      subst (Climbs (c ∷ w) z)
        (sym (
          points_loop_step fuel (removal (l ++ z ∷ junk) 0 s (length l))
            (removal (c ∷ w ++ z ∷ junk') 0 n (suc (length w))) e (zero_lt (length w))))
        k)

points_loop_lem :
    (fuel : ℕ) (l : List ℕ) (z : ℕ) (junk : List ℕ) (s : ℕ)
    → length l < fuel
    → Climbs l z (points_loop fuel (removal (l ++ z ∷ junk) 0 s (length l)))
points_loop_lem zero l z junk s h = absurd (omega arith)
points_loop_lem (suc fuel) l z junk s h =
    elim (subst
      (λ r.
        Settles l [] l z (points_pass (length l + 1) r) ⊎ Broke l z (points_pass (length l + 1) r))
      (started l (z ∷ junk))
      (passed_lem (length l + 1) [] [] [] l z junk (omega arith) (inl refl) (inl refl) refl)) [
        | inl k ↦ Settles-Climbs fuel l z junk s k
        | inr (w, junk', n, e, u) ↦
            broke-Climbs fuel l z junk s w junk' n e u
              (points_loop_lem fuel w z junk' n (omega (arith, Up-length l w u)))
      ]

pub remove_points_lem :
    (l : List ℕ) (z : ℕ) (junk : List ℕ)
    → (r : Removal) × (w : List ℕ) × (remove_points (l ++ z ∷ junk) (length l) ≡ some r)
      × Ups l w
      × (r.buf_size ≡ length w)
      × (take r.buf_size r.buf ≡ w)
      × (get_elem? r.buf r.buf_size ≡ some z)
      × (settled (segments w).0 (segments w).1 ≡ true)
unfolding remove_points
remove_points_lem l z junk = points_loop_lem (length l + 1) l z junk 0 (omega arith)
