-- ===== src/Uri/Segments/Point.antt =====
-- url/uriaa_rfc2396_resolve.h: uriaa_remove_segment_point takes out the segments `.`.
use mathlib.Core.Bool.{false≢true}
use mathlib.Core.List.{append_assoc}
use httpaa.Base.{
  ℕ, suc, ◌+◌, ◌-◌, ◌≡◌, refl, ap, true, false, ◌&&◌, ◌∙◌, sym, List, [], ◌∷◌, ◌++◌, some, Bool,
  ◌==◌, if◌then◌else◌, length, size_sub, drop, length-append, arith, ==_iff, subst,
}
use httpaa.Uri.Segments.{Removal, is_at, and_then, remove, point_round}
use httpaa.Uri.Segments.State.{
  removal_eq, state, is_at-state, is_at-past, size_sub_more, remove_lem, length-append3,
}
use httpaa.Uri.Segments.Spec.{is_dot}

-- A round by the results of its tests.
pub point_round_tests :
    (r : Removal) (b d : Bool)
    → is_at r.buf r.i_s b'/' ≡ some b
    → and_then (some (b && size_sub r.i_s r.segment_s == 1)) (is_at r.buf (r.i_s - 1) b'.') ≡ some d
    → point_round r ≡ (
        if d
        then remove r (r.i_s + 1) (r.buf_size - r.i_s) r.segment_s
        else if b
        then some (record r { i_s = r.i_s + 1; segment_s = r.i_s + 1 })
        else some (record r { i_s = r.i_s + 1 }))
unfolding point_round
point_round_tests r b d h k = rw h (rw k refl)

one_back : (n : ℕ) → n + 1 - 1 ≡ n + 0
one_back n = omega arith

longer : (n : ℕ) → (suc (suc n) == 1) ≡ false
longer n = ground arith

pub is_point_lem :
    (b : Bool) (p seg q : List ℕ)
    → and_then
        (some (b && size_sub (length p + length seg) (length p) == 1))
        (is_at (p ++ (seg ++ q)) (length p + length seg - 1) b'.')
      ≡ some (b && is_dot seg)
is_point_lem false p seg q = refl
is_point_lem true p [] q = rw (size_sub_more (length p) 0) refl
is_point_lem true p (c ∷ []) q =
    rw (size_sub_more (length p) 1) (rw (one_back (length p)) (is_at-past p (c ∷ q) 0 b'.'))
is_point_lem true p (c ∷ d ∷ l) q =
    rw (size_sub_more (length p) (suc (suc (length l)))) (rw (longer (length l)) refl)

-- One byte further in the segment.
pub point_round_byte :
    (p seg : List ℕ) (c : ℕ) (r junk : List ℕ)
    → (c == b'/') ≡ false
    → point_round (state p seg (c ∷ r) junk) ≡ some (state p (seg ++ c ∷ []) r junk)
point_round_byte p seg c r junk h =
    point_round_tests (state p seg (c ∷ r) junk) false false
      (is_at-state p seg c (r ++ junk) b'/' ∙ ap some h) refl
    ∙ ap some (
        removal_eq (ap (λ l. p ++ l) (sym (append_assoc seg (c ∷ []) (r ++ junk))))
          (rw (length-append seg (c ∷ [])) (omega arith)) refl
          (rw (length-append seg (c ∷ [])) (omega arith)))

-- The segment is kept.
pub point_round_segment :
    (p seg r junk : List ℕ)
    → is_dot seg ≡ false
    → point_round (state p seg (b'/' ∷ r) junk) ≡ some (state (p ++ (seg ++ b'/' ∷ [])) [] r junk)
point_round_segment p seg r junk h =
    point_round_tests (state p seg (b'/' ∷ r) junk) true false
      (is_at-state p seg b'/' (r ++ junk) b'/')
      (is_point_lem true p seg (b'/' ∷ r ++ junk) ∙ ap some h)
    ∙ ap some (
        removal_eq
          (rw (append_assoc p (seg ++ b'/' ∷ []) (r ++ junk))
            (rw (append_assoc seg (b'/' ∷ []) (r ++ junk)) refl))
          (rw (length-append3 p seg (b'/' ∷ [])) (omega arith))
          (rw (length-append3 p seg (b'/' ∷ [])) (omega arith))
          (rw (length-append3 p seg (b'/' ∷ [])) (omega arith)))

pub is_dot→eq : (seg : List ℕ) → is_dot seg ≡ true → seg ≡ b'.' ∷ []
is_dot→eq [] h = absurd (false≢true h)
is_dot→eq (c ∷ []) h = ap (λ x. x ∷ []) ((==_iff c b'.').0 h)
is_dot→eq (c ∷ d ∷ l) h = absurd (false≢true h)

-- What is behind the path once a segment `.` is taken out.
abbrev pub moved_junk : List ℕ → ℕ → List ℕ → List ℕ
moved_junk r z junk = drop (length r + 1) (b'.' ∷ b'/' ∷ (r ++ z ∷ junk))

point_moved :
    (p r : List ℕ) (z : ℕ) (junk : List ℕ)
    → (let s = state p (b'.' ∷ []) (b'/' ∷ r) (z ∷ junk) in
        remove s (s.i_s + 1) (s.buf_size - s.i_s) s.segment_s
        ≡ some (state p [] r (z ∷ moved_junk r z junk)))
point_moved p r z junk =
    remove_lem p (b'.' ∷ b'/' ∷ []) r z junk (length p + 1) (length p + (1 + suc (length r)))
      (length p + 1 + 1) (length p + (1 + suc (length r)) - (length p + 1)) (length p) (omega arith)
      (omega arith)
    ∙ ap some (removal_eq refl (omega arith) refl (omega arith))

-- The segment is taken out.
pub point_round_remove :
    (p seg r : List ℕ) (z : ℕ) (junk : List ℕ)
    → is_dot seg ≡ true
    → point_round (state p seg (b'/' ∷ r) (z ∷ junk))
      ≡ some (state p [] r (z ∷ moved_junk r z junk))
point_round_remove p seg r z junk h =
    subst
      (λ l.
        point_round (state p l (b'/' ∷ r) (z ∷ junk))
        ≡ some (state p [] r (z ∷ moved_junk r z junk)))
      (sym (is_dot→eq seg h))
      (point_round_tests (state p (b'.' ∷ []) (b'/' ∷ r) (z ∷ junk)) true true
          (is_at-state p (b'.' ∷ []) b'/' (r ++ z ∷ junk) b'/')
          (is_point_lem true p (b'.' ∷ []) (b'/' ∷ r ++ z ∷ junk))
        ∙ point_moved p r z junk)
