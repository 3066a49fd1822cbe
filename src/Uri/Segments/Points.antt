-- ===== src/Uri/Segments/Points.antt =====
-- url/uriaa_rfc2396_resolve.h: one round of the loop of uriaa_remove_segment_points.
use mathlib.Core.Bool.{false≢true}
use httpaa.Base.{
  ℕ, suc, ◌+◌, ◌-◌, ◌<◌, ◌≤◌, ◌≡◌, refl, ap, true, false, not, ◌&&◌, ◌∙◌, List, [], ◌∷◌, ◌++◌,
  Option, some, Bool, ltb, ◌==◌, if◌then◌else◌, length, size_sub, arith, Bool-cases, inl, inr,
}
use httpaa.Uri.Segments.{Removal, is_at, and_then, remove, broken, points_round}
use httpaa.Uri.Segments.State.{state, is_at-state, is_at-past, size_sub_more}
use httpaa.Uri.Segments.Spec.{is_dot_dot, starts_up}

-- The tests on what follows the slash, behind the one in `starts_up`.
abbrev pub third_slash : List ℕ → Bool
third_slash (d ∷ e ∷ f ∷ r) = f == b'/'
third_slash l = false

abbrev pub is_two : List ℕ → Bool
is_two (d ∷ e ∷ []) = true
is_two l = false

points_round_tests :
    (r : Removal) (b u d i e : Bool)
    → is_at r.buf r.i_s b'/' ≡ some b
    → and_then
        (some (b && size_sub r.i_s r.segment_s == 2))
        (and_then (is_at r.buf (r.i_s - 1) b'.') (is_at r.buf (r.i_s - 2) b'.'))
      ≡ some u
    → and_then
        (some (b && not u && ltb (r.i_s + 2) r.buf_size))
        (and_then (is_at r.buf (r.i_s + 1) b'.') (is_at r.buf (r.i_s + 2) b'.'))
      ≡ some d
    → and_then (some (d && ltb (r.i_s + 3) r.buf_size)) (is_at r.buf (r.i_s + 3) b'/') ≡ some i
    → (d && (r.i_s + 3 == r.buf_size)) ≡ e
    → points_round r ≡ (
        if i
        then broken (remove r (r.i_s + 4) (r.buf_size - r.i_s - 4 + 1) 0)
        else if e
        then broken (remove r (r.i_s + 3) (r.buf_size - r.i_s - 3 + 1) 0)
        else if b && not d
        then some (false, record r { i_s = r.i_s + 1; segment_s = r.i_s + 1 })
        else some (false, record r { i_s = r.i_s + 1 }))
unfolding points_round
points_round_tests r b u d i e h1 h2 h3 h4 h5 = rw h1 (rw h2 (rw h3 (rw h4 (rw h5 refl))))

three : (p s k : ℕ) → p + s + k ≡ p + (s + k)
three p s k = omega arith

back_one : (n : ℕ) → n + 2 - 1 ≡ n + 1
back_one n = omega arith

back_two : (n : ℕ) → n + 2 - 2 ≡ n + 0
back_two n = omega arith

longer : (n : ℕ) → (suc (suc (suc n)) == 2) ≡ false
longer n = ground arith

pub and_then_lem : (a b : Bool) → and_then (some a) (some b) ≡ some (a && b)
and_then_lem true b = refl
and_then_lem false b = refl

same : (p s : ℕ) → (p + s + 3 == p + (s + 3)) ≡ true
same p s = ground arith

other : (p s r : ℕ) → (p + s + 3 == p + (s + suc (suc (suc (suc r))))) ≡ false
other p s r = ground arith

is_at-ahead :
    (p seg q : List ℕ) (k d : ℕ)
    → is_at (p ++ (seg ++ q)) (length p + length seg + k) d ≡ is_at q k d
is_at-ahead p seg q k d =
    rw (three (length p) (length seg) k)
      (is_at-past p (seg ++ q) (length seg + k) d ∙ is_at-past seg q k d)

pub is_up_lem :
    (b : Bool) (p seg q : List ℕ)
    → and_then (some (b && size_sub (length p + length seg) (length p) == 2)) (
        and_then
          (is_at (p ++ (seg ++ q)) (length p + length seg - 1) b'.')
          (is_at (p ++ (seg ++ q)) (length p + length seg - 2) b'.'))
      ≡ some (b && is_dot_dot seg)
is_up_lem false p seg q = refl
is_up_lem true p [] q = rw (size_sub_more (length p) 0) refl
is_up_lem true p (c ∷ []) q = rw (size_sub_more (length p) 1) refl
is_up_lem true p (c ∷ d ∷ []) q = rw (size_sub_more (length p) 2) (
    rw (back_one (length p)) (
      rw (back_two (length p)) (
        rw (is_at-past p (c ∷ d ∷ q) 1 b'.')
          (rw (is_at-past p (c ∷ d ∷ q) 0 b'.') (and_then_lem (d == b'.') (c == b'.'))))))
is_up_lem true p (c ∷ d ∷ e ∷ l) q =
    rw (size_sub_more (length p) (suc (suc (suc (length l))))) (rw (longer (length l)) refl)

-- Where the first test fails, the second is not made.
guarded :
    (a b : Bool) (y : Option Bool) → b ≡ false → and_then (some (a && b)) y ≡ some (a && false)
guarded true b y h = rw h refl
guarded false b y h = refl

lt_short : (p s k n : ℕ) → n ≤ k → ltb (p + s + k) (p + (s + n)) ≡ false
lt_short p s k n h = ground arith

lt_long : (p s k n : ℕ) → k < n → ltb (p + s + k) (p + (s + n)) ≡ true
lt_long p s k n h = ground arith

is_dots_lem :
    (a : Bool) (p seg : List ℕ) (c : ℕ) (r junk : List ℕ)
    → (let i = length p + length seg in
        let buf = p ++ (seg ++ (c ∷ r ++ junk)) in
        and_then
          (some (a && ltb (i + 2) (length p + (length seg + suc (length r)))))
          (and_then (is_at buf (i + 1) b'.') (is_at buf (i + 2) b'.'))
        ≡ some (a && starts_up r))
is_dots_lem a p seg c [] junk =
    guarded a (ltb (length p + length seg + 2) (length p + (length seg + 1)))
      (and_then (is_at (p ++ (seg ++ c ∷ junk)) (length p + length seg + 1) b'.')
        (is_at (p ++ (seg ++ c ∷ junk)) (length p + length seg + 2) b'.'))
      (lt_short (length p) (length seg) 2 1 (omega arith))
is_dots_lem a p seg c (d ∷ []) junk =
    guarded a (ltb (length p + length seg + 2) (length p + (length seg + 2)))
      (and_then (is_at (p ++ (seg ++ c ∷ d ∷ junk)) (length p + length seg + 1) b'.')
        (is_at (p ++ (seg ++ c ∷ d ∷ junk)) (length p + length seg + 2) b'.'))
      (lt_short (length p) (length seg) 2 2 (omega arith))
is_dots_lem false p seg c (d ∷ e ∷ r) junk = refl
is_dots_lem true p seg c (d ∷ e ∷ r) junk =
    rw (lt_long (length p) (length seg) 2 (suc (suc (suc (length r)))) (omega arith)) (
      rw (is_at-ahead p seg (c ∷ d ∷ e ∷ (r ++ junk)) 1 b'.') (
        rw (is_at-ahead p seg (c ∷ d ∷ e ∷ (r ++ junk)) 2 b'.')
          (and_then_lem (d == b'.') (e == b'.'))))

is_inner_lem :
    (a : Bool) (p seg : List ℕ) (c : ℕ) (r junk : List ℕ)
    → (let i = length p + length seg in
        and_then
          (some (a && ltb (i + 3) (length p + (length seg + suc (length r)))))
          (is_at (p ++ (seg ++ (c ∷ r ++ junk))) (i + 3) b'/')
        ≡ some (a && third_slash r))
is_inner_lem a p seg c [] junk =
    guarded a (ltb (length p + length seg + 3) (length p + (length seg + 1)))
      (is_at (p ++ (seg ++ c ∷ junk)) (length p + length seg + 3) b'/')
      (lt_short (length p) (length seg) 3 1 (omega arith))
is_inner_lem a p seg c (d ∷ []) junk =
    guarded a (ltb (length p + length seg + 3) (length p + (length seg + 2)))
      (is_at (p ++ (seg ++ c ∷ d ∷ junk)) (length p + length seg + 3) b'/')
      (lt_short (length p) (length seg) 3 2 (omega arith))
is_inner_lem a p seg c (d ∷ e ∷ []) junk =
    guarded a (ltb (length p + length seg + 3) (length p + (length seg + 3)))
      (is_at (p ++ (seg ++ c ∷ d ∷ e ∷ junk)) (length p + length seg + 3) b'/')
      (lt_short (length p) (length seg) 3 3 (omega arith))
is_inner_lem false p seg c (d ∷ e ∷ f ∷ r) junk = refl
is_inner_lem true p seg c (d ∷ e ∷ f ∷ r) junk =
    rw (lt_long (length p) (length seg) 3 (suc (suc (suc (suc (length r))))) (omega arith))
      (is_at-ahead p seg (c ∷ d ∷ e ∷ f ∷ (r ++ junk)) 3 b'/')

is_end_lem :
    (p seg r : List ℕ)
    → starts_up r ≡ true
    → (length p + length seg + 3 == length p + (length seg + suc (length r))) ≡ is_two r
is_end_lem p seg [] h = absurd (false≢true h)
is_end_lem p seg (d ∷ []) h = absurd (false≢true h)
is_end_lem p seg (d ∷ e ∷ []) h = same (length p) (length seg)
is_end_lem p seg (d ∷ e ∷ f ∷ r) h = other (length p) (length seg) (length r)

pub and_last : (a b : Bool) → (a && b) ≡ true → b ≡ true
and_last true b h = h
and_last false b h = absurd (false≢true h)

-- The round by the parts of the buffer.
pub points_round_lem :
    (p seg : List ℕ) (c : ℕ) (r junk : List ℕ) (b d : Bool)
    → (c == b'/') ≡ b
    → (b && not (b && is_dot_dot seg) && starts_up r) ≡ d
    → (let x = state p seg (c ∷ r) junk in
        points_round x ≡ (
          if d && third_slash r
          then broken (remove x (x.i_s + 4) (x.buf_size - x.i_s - 4 + 1) 0)
          else if d && is_two r
          then broken (remove x (x.i_s + 3) (x.buf_size - x.i_s - 3 + 1) 0)
          else if b && not d
          then some (false, record x { i_s = x.i_s + 1; segment_s = x.i_s + 1 })
          else some (false, record x { i_s = x.i_s + 1 })))
points_round_lem p seg c r junk b d h k =
    points_round_tests (state p seg (c ∷ r) junk) b (b && is_dot_dot seg) d (d && third_slash r)
      (d && is_two r) (is_at-state p seg c (r ++ junk) b'/' ∙ ap some h)
      (is_up_lem b p seg (c ∷ r ++ junk))
      (is_dots_lem (b && not (b && is_dot_dot seg)) p seg c r junk ∙ ap some k)
      (is_inner_lem d p seg c r junk)
      (elim (Bool-cases d) [
        | inl e ↦
            rw e
              (is_end_lem p seg r (and_last (b && not (b && is_dot_dot seg)) (starts_up r) (k ∙ e)))
        | inr e ↦ rw e refl
      ])
