-- ===== src/Uri/Segments/Result.antt =====
-- url/uriaa_rfc2396_resolve.h: uriaa_remove_segment_point on a block with a byte behind the path,
-- and on a block without one.
use mathlib.Core.List.{append_assoc, append-nil}
use httpaa.Base.{
  ℕ, zero, suc, ◌+◌, ◌-◌, ◌<◌, ◌≡◌, ◌≢◌, ◌⊎◌, refl, ap, true, false, ◌∙◌, sym, List, [], ◌∷◌, ◌++◌,
  Option, none, some, Bool, ltb, ◌==◌, if◌then◌else◌, length, take, set, get_elem?, length-append,
  arith, ==_iff, subst, Bool-cases, inl, inr, take-append_length,
}
use httpaa.Stringaa.Defs.{Stringaa, bytes}
use httpaa.Stringaa.Store.{store, ◌>>=◌}
use httpaa.Uri.Segments.{
  and_then, is_at, Removal, point_round, point_loop, point_end, remove_point, remove_segment_point,
}
use httpaa.Uri.Segments.State.{
  removal, removal_eq, state, is_at-state, get_elem?-middle, remove_fault, length-append3,
}
use httpaa.Uri.Segments.Point.{
  point_round_byte, point_round_segment, point_round_tests, is_point_lem, is_dot→eq,
}
use httpaa.Uri.Segments.Undotted.{left_lem, segments-byte, inside, point_loop_step, Ends}
use httpaa.Uri.Segments.Spec.{is_dot, segments, undotted, without_dots, last_segment}

-- A last segment `.` becomes a zero byte.
abbrev pub ended : List ℕ → List ℕ
ended l =
    if is_dot (last_segment l)
    then set (without_dots l) (length (without_dots l) - 1) 0
    else without_dots l

-- The last segment, as `point_end` leaves it.
abbrev last_byte : List ℕ → List ℕ
last_byte last = if is_dot last then 0 ∷ [] else last

point_end_tests :
    (r : Removal) (b : Bool) (buf : List ℕ)
    → and_then (some (r.segment_s + 1 == r.buf_size)) (is_at r.buf r.segment_s b'.') ≡ some b
    → (if b then store r.buf r.segment_s 0 else some r.buf) ≡ some buf
    → point_end r ≡ some (record r { buf = buf })
unfolding point_end
point_end_tests r b buf h k = rw h (rw k refl)

set_middle : (q : List ℕ) (c v : ℕ) (l : List ℕ) → set (q ++ c ∷ l) (length q) v ≡ q ++ v ∷ l
set_middle [] c v l = refl
set_middle (x ∷ q) c v l = ap (λ m. x ∷ m) (set_middle q c v l)

ltb_in : (q l n : ℕ) → n ≡ q + suc l → ltb q n ≡ true
ltb_in q l n h = ground arith

same_size : (q : ℕ) → (q + 1 == q + (1 + 0)) ≡ true
same_size q = ground arith

other_size : (q l : ℕ) → l ≢ 1 → (q + 1 == q + (l + 0)) ≡ false
other_size q l h = ground arith

back_one : (n : ℕ) → n + 1 - 1 ≡ n
back_one n = omega arith

pub store_middle :
    (q : List ℕ) (c v : ℕ) (l : List ℕ) → store (q ++ c ∷ l) (length q) v ≡ some (q ++ v ∷ l)
store_middle q c v l =
    rw (ltb_in (length q) (length l) (length (q ++ c ∷ l)) (length-append q (c ∷ l)))
      (ap some (set_middle q c v l))

last_test :
    (q last junk : List ℕ)
    → and_then
        (some (length q + 1 == length q + (length last + 0)))
        (is_at (q ++ (last ++ junk)) (length q) b'.')
      ≡ some (is_dot last)
last_test q [] junk = rw (other_size (length q) 0 (omega arith)) refl
last_test q (c ∷ []) junk = rw (same_size (length q)) (rw (get_elem?-middle q c junk) refl)
last_test q (c ∷ d ∷ l) junk = rw (other_size (length q) (suc (suc (length l))) (omega arith)) refl

point_end_lem :
    (q last junk : List ℕ)
    → point_end (state q last [] junk)
      ≡ some (
          removal
            (q ++ (last_byte last ++ junk))
            (length q + length last)
            (length q)
            (length q + (length last + 0)))
point_end_lem q last junk = elim (Bool-cases (is_dot last)) [
  | inr h ↦
      point_end_tests (state q last [] junk) false (q ++ (last ++ junk))
        (last_test q last junk ∙ ap some h) refl
      ∙ rw h refl
  | inl h ↦
      subst
        (λ l.
          point_end (state q l [] junk)
          ≡ some (
              removal (q ++ (last_byte l ++ junk)) (length q + length l) (length q)
                (length q + (length l + 0))))
        (sym (is_dot→eq last h))
        (point_end_tests (state q (b'.' ∷ []) [] junk) true (q ++ (0 ∷ junk))
          (last_test q (b'.' ∷ []) junk) (store_middle q b'.' 0 junk))
]

set_last : (q : List ℕ) (v : ℕ) → set (q ++ b'.' ∷ []) (length (q ++ b'.' ∷ []) - 1) v ≡ q ++ v ∷ []
set_last q v = rw (length-append q (b'.' ∷ [])) (rw (back_one (length q)) (set_middle q b'.' v []))

ended_parts :
    (l q : List ℕ)
    → q ++ last_segment l ≡ without_dots l
    → q ++ last_byte (last_segment l) ≡ ended l
ended_parts l q h = elim (Bool-cases (is_dot (last_segment l))) [
  | inr e ↦ rw e h
  | inl e ↦ rw e (
      subst (λ w. q ++ 0 ∷ [] ≡ set w (length w - 1) 0) h
        (rw (is_dot→eq (last_segment l) e) (sym (set_last q 0))))
]

length-last_byte : (l : List ℕ) → length (last_byte l) ≡ length l
length-last_byte [] = refl
length-last_byte (c ∷ []) = elim (Bool-cases (c == b'.')) [ inl h ↦ rw h refl | inr h ↦ rw h refl ]
length-last_byte (c ∷ d ∷ l) = refl

pub at_end :
    (w junk buf : List ℕ) (z n : ℕ)
    → n ≡ length w
    → buf ≡ w ++ z ∷ junk
    → (take n buf ≡ w) × (get_elem? buf n ≡ some z)
at_end w junk buf z n h k = rw h (rw k (take-append_length w (z ∷ junk), get_elem?-middle w z junk))

remove_point-Ends :
    (l junk : List ℕ) (z : ℕ) (found : Option Removal)
    → Ends (without_dots l) (last_segment l) z found
    → (r : Removal) × ((do r1 ← found; point_end r1) ≡ some r)
      × (r.buf_size ≡ length (without_dots l))
      × (take r.buf_size r.buf ≡ ended l)
      × (get_elem? r.buf r.buf_size ≡ some z)
remove_point-Ends l junk z found (q, junk', e, t) =
    let last = last_segment l in
    let w = q ++ last_byte last in
    let size = length q + (length last + 0) in
    let buf = q ++ (last_byte last ++ z ∷ junk') in
    let (text, end) =
      at_end w junk' buf z size
        (sym (length-append q (last_byte last) ∙ (rw (length-last_byte last) (omega arith))))
        (sym (append_assoc q (last_byte last) (z ∷ junk'))) in
    (
      removal buf (length q + length last) (length q) size,
      rw e (point_end_lem q last (z ∷ junk')),
      sym (ap length (sym t) ∙ (length-append q last ∙ omega arith)),
      text ∙ ended_parts l q t,
      end,
    )

pub started : (l junk : List ℕ) → state [] [] l junk ≡ removal (l ++ junk) 0 0 (length l)
started l junk = removal_eq refl refl refl (omega arith)

pub remove_point_lem :
    (l : List ℕ) (z : ℕ) (junk : List ℕ)
    → (r : Removal) × (remove_point (l ++ z ∷ junk) (length l) ≡ some r)
      × (r.buf_size ≡ length (without_dots l))
      × (take r.buf_size r.buf ≡ ended l)
      × (get_elem? r.buf r.buf_size ≡ some z)
unfolding remove_point
remove_point_lem l z junk =
    remove_point-Ends l junk z (point_loop (length l + 1) (removal (l ++ z ∷ junk) 0 0 (length l)))
      (subst (λ r. Ends (without_dots l) (last_segment l) z (point_loop (length l + 1) r))
        (started l (z ∷ junk)) (left_lem (length l + 1) [] [] l z junk (omega arith)))

point_round_fault :
    (p seg r : List ℕ) → is_dot seg ≡ true → point_round (state p seg (b'/' ∷ r) []) ≡ none
point_round_fault p seg r h =
    point_round_tests (state p seg (b'/' ∷ r) []) true true (is_at-state p seg b'/' (r ++ []) b'/')
      (is_point_lem true p seg (b'/' ∷ r ++ []) ∙ ap some h)
    ∙ remove_fault (state p seg (b'/' ∷ r) []) (length p + length seg + 1)
        (length p + (length seg + suc (length r)) - (length p + length seg)) (length p)
        (rw (length-append3 p seg (b'/' ∷ r ++ [])) (rw (append-nil r) (omega arith)))

-- Without a byte behind the path.
abbrev Stops : ℕ → List ℕ → List ℕ → List ℕ → Type 0
Stops fuel p seg r =
    let (s, ss) = segments r in
    (point_loop fuel (state p seg r []) ≡ none) ⊎ (undotted (seg ++ s) ss ≡ seg ++ r)

module _ (fuel : ℕ) (p seg r : List ℕ) where
  Stops-byte :
      (c : ℕ)
      → (c == b'/') ≡ false
      → Stops fuel p (seg ++ c ∷ []) r
      → Stops (suc fuel) p seg (c ∷ r)
  Stops-byte c h k = rw (segments-byte c r h) (
      rw
        (point_loop_step fuel (state p seg (c ∷ r) []) (state p (seg ++ c ∷ []) r [])
          (inside (length p) (length seg) (length r)) (point_round_byte p seg c r [] h))
        (elim k [
          | inl e ↦ inl e
          | inr e ↦ inr (
              ap (λ l. undotted l (segments r).1) (sym (append_assoc seg (c ∷ []) (segments r).0))
              ∙ (e ∙ append_assoc seg (c ∷ []) r))
        ]))

  Stops-segment :
      is_dot seg ≡ false
      → Stops fuel (p ++ (seg ++ b'/' ∷ [])) [] r
      → Stops (suc fuel) p seg (b'/' ∷ r)
  Stops-segment h k =
      rw
        (point_loop_step fuel (state p seg (b'/' ∷ r) []) (state (p ++ (seg ++ b'/' ∷ [])) [] r [])
          (inside (length p) (length seg) (length r)) (point_round_segment p seg r [] h))
        (rw (append-nil seg)
          (rw h (elim k [ inl e ↦ inl e | inr e ↦ inr (ap (λ u. seg ++ b'/' ∷ u) e) ])))

  stops_remove : is_dot seg ≡ true → point_loop (suc fuel) (state p seg (b'/' ∷ r) []) ≡ none
  unfolding point_loop
  stops_remove h =
      rw (point_loop, inside (length p) (length seg) (length r))
        (rw (point_round_fault p seg r h) refl)

stops_lem : (fuel : ℕ) (p seg r : List ℕ) → length r < fuel → Stops fuel p seg r
stops_lem zero p seg r h = absurd (omega arith)
stops_lem (suc fuel) p seg [] h = inr refl
stops_lem (suc fuel) p seg (c ∷ r) h = elim (Bool-cases (c == b'/')) [
  | inl e ↦
      subst (λ x. Stops (suc fuel) p seg (x ∷ r)) (sym ((==_iff c b'/').0 e))
        (elim (Bool-cases (is_dot seg)) [
          | inl d ↦ inl (stops_remove fuel p seg r d)
          | inr d ↦
              Stops-segment fuel p seg r d
                (stops_lem fuel (p ++ (seg ++ b'/' ∷ [])) [] r (omega arith))
        ])
  | inr e ↦ Stops-byte fuel p seg r c e (stops_lem fuel p (seg ++ c ∷ []) r (omega arith))
]

started_alone : (l : List ℕ) → state [] [] l [] ≡ removal l 0 0 (length l)
started_alone l = removal_eq (append-nil l) refl refl (omega arith)

stopped :
    (l : List ℕ) → without_dots l ≢ l → point_loop (length l + 1) (removal l 0 0 (length l)) ≡ none
stopped l k = elim (stops_lem (length l + 1) [] [] l (omega arith)) [
  | inl e ↦ ap (point_loop (length l + 1)) (sym (started_alone l)) ∙ e
  | inr e ↦ absurd (k e)
]

-- A string whose block is no larger than its `buf_size` and that has a segment `.` with a slash behind
-- it: uriaa_remove_segment_point reads the byte behind the block.
pub remove_segment_point_fault :
    (s : Stringaa)
    → s.buf_size ≡ length (bytes s)
    → without_dots (bytes s) ≢ bytes s
    → remove_segment_point s ≡ none
unfolding remove_segment_point remove_point
remove_segment_point_fault s h k = rw h (rw (stopped (bytes s) k) refl)
