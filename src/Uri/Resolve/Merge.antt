-- ===== src/Uri/Resolve/Merge.antt =====
-- url/uriaa_rfc2396_resolve.h: the merged path of uriaa_resolve_uri.
use mathlib.Core.List.{append_assoc}
use mathlib.Core.Option.{some-injective}
use httpaa.Base.{
  ℕ, zero, suc, ◌+◌, ◌-◌, ◌<◌, ◌≤◌, ◌≡◌, refl, ap, true, false, not, ◌∙◌, sym, List, [], ◌∷◌, ◌++◌,
  Option, none, some, Bool, ltb, length, take, drop, get_elem?, length-append, length-set,
  length-take, length-drop, take-append_length, arith, subst, Bool-cases, inl, inr,
}
use httpaa.Stringaa.Defs.{Stringaa, bytes, bytes_of}
use httpaa.Stringaa.Store.{◌>>=◌, memcpy, store}
use httpaa.Uri.Defs.{Uriaa, Part}
use httpaa.Uri.Segments.{Removal, remove_points}
use httpaa.Uri.Segments.State.{drop-append_right}
use httpaa.Uri.Segments.Result.{remove_point_lem, ended, store_middle}
use httpaa.Uri.Segments.Climb.{remove_points_lem}
use httpaa.Uri.Segments.Spec.{segments, leading, settled, Ups, without_dots, last_segment, is_dot}
use httpaa.Uri.Resolve.{
  copy_if, has_buf, rel_copy_size, join_paths, reduce, leads_up, merge_path, set_path,
}
use httpaa.Uri.Resolve.Leads.{leads_up_lem}

pub memcpy_in :
    (dst src : List ℕ) (i n : ℕ)
    → n ≤ length src
    → i + n ≤ length dst
    → memcpy dst i src n ≡ some (take i dst ++ (take n src ++ drop (i + n) dst))
memcpy_in dst src i n h k = ground arith

pub memcpy-append :
    (p q src : List ℕ) (n : ℕ)
    → n ≤ length src
    → n ≤ length q
    → memcpy (p ++ q) (length p) src n ≡ some (p ++ (take n src ++ drop n q))
memcpy-append p q src n h k =
    memcpy_in (p ++ q) src (length p) n h (rw (length-append p q) (omega arith))
    ∙ rw (take-append_length p q) (rw (drop-append_right p q n) refl)

has_buf_lem : (s : Stringaa) → 0 < length (bytes s) → has_buf s ≡ true
has_buf_lem s h =
    elim s.buf
        as (λ b. 0 < length (bytes_of b) → (elim b [ none ↦ false | some l ↦ true ]) ≡ true) [
          | none ↦ (λ h. absurd (omega arith))
          | some l ↦ (λ h. refl)
        ]
      h

zero_lt : (n : ℕ) → ltb 0 (suc n) ≡ true
zero_lt n = ground arith

copy_none : (b : Bool) (dst : List ℕ) (i : ℕ) (src : List ℕ) → copy_if b dst i src 0 ≡ some dst
copy_none true dst i src = refl
copy_none false dst i src = refl

copy_if_lem :
    (s : Stringaa) (p q : List ℕ) (n : ℕ)
    → n ≤ length (bytes s)
    → n ≤ length q
    → copy_if (has_buf s) (p ++ q) (length p) (bytes s) n
      ≡ some (p ++ (take n (bytes s) ++ drop n q))
copy_if_lem s p q zero h k = copy_none (has_buf s) (p ++ q) (length p) (bytes s)
copy_if_lem s p q (suc n) h k =
    rw (has_buf_lem s (omega arith)) (rw (zero_lt n) (memcpy-append p q (bytes s) (suc n) h k))

one_left : (l : List ℕ) → length l ≡ 1 → (x : ℕ) × (l ≡ x ∷ [])
one_left [] h = absurd (omega arith)
one_left (x ∷ []) h = (x, refl)
one_left (x ∷ y ∷ l) h = absurd (omega arith)

pub length-take_in : (n : ℕ) (l : List ℕ) → n ≤ length l → length (take n l) ≡ n
length-take_in n l h = omega (arith, length-take n l)

joined :
    (s : Stringaa) (a q : List ℕ) (n m : ℕ)
    → m ≤ length (bytes s)
    → m ≤ length q
    → length a ≡ n
    → copy_if (has_buf s) (a ++ q) n (bytes s) m ≡ some (a ++ (take m (bytes s) ++ drop m q))
joined s a q n m h k e =
    subst
      (λ i. copy_if (has_buf s) (a ++ q) i (bytes s) m ≡ some (a ++ (take m (bytes s) ++ drop m q)))
      e (copy_if_lem s a q m h k)

stored :
    (a b : List ℕ) (x n m : ℕ)
    → length a ≡ n
    → length b ≡ m
    → store (a ++ (b ++ x ∷ [])) (n + m) 0 ≡ some ((a ++ b) ++ 0 ∷ [])
stored a b x n m h k =
    subst (λ i. store (a ++ (b ++ x ∷ [])) i 0 ≡ some ((a ++ b) ++ 0 ∷ []))
      (length-append a b ∙ (λ j. h j + k j))
      (subst (λ l. store l (length (a ++ b)) 0 ≡ some ((a ++ b) ++ 0 ∷ []))
        (append_assoc a b (x ∷ [])) (store_middle (a ++ b) x 0 []))

take-get_elem?-drop :
    (l : List ℕ) (n z : ℕ) → get_elem? l n ≡ some z → take n l ++ z ∷ drop (suc n) l ≡ l
take-get_elem?-drop [] n z h = cc
take-get_elem?-drop (x ∷ l) zero z h = ap (λ y. y ∷ l) (sym (some-injective x z h))
take-get_elem?-drop (x ∷ l) (suc n) z h = ap (λ m. x ∷ m) (take-get_elem?-drop l n z h)

-- The two paths, one behind the other, and a zero.
join_paths_lem :
    (block : List ℕ) (base rel : Stringaa) (n m : ℕ)
    → n ≤ length (bytes base)
    → m ≤ length (bytes rel)
    → length block ≡ n + m + 1
    → join_paths block base n rel m ≡ some ((take n (bytes base) ++ take m (bytes rel)) ++ 0 ∷ [])
unfolding join_paths
join_paths_lem block base rel n m h k e =
    let a = take n (bytes base) in
    let b = take m (bytes rel) in
    let (x, f) =
      one_left (drop m (drop n block))
        (omega (arith, length-drop m (drop n block), length-drop n block)) in
    rw (copy_if_lem base [] block n h (omega arith)) (
      rw
        (joined rel a (drop n block) n m k (omega (arith, length-drop n block))
          (length-take_in n (bytes base) h))
        (rw f
          (stored a b x n m (length-take_in n (bytes base) h) (length-take_in m (bytes rel) k))))

at_split :
    (buf w : List ℕ) (n z : ℕ)
    → n ≡ length w
    → take n buf ≡ w
    → get_elem? buf n ≡ some z
    → (junk : List ℕ) × (buf ≡ w ++ z ∷ junk)
at_split buf w n z h e k = (drop (suc n) buf, sym (rw (sym e) (take-get_elem?-drop buf n z k)))

length-ended : (l : List ℕ) → length (ended l) ≡ length (without_dots l)
length-ended l = elim (Bool-cases (is_dot (last_segment l))) [
  | inl h ↦ rw h (length-set (without_dots l) (length (without_dots l) - 1) 0)
  | inr h ↦ rw h refl
]

-- The removals on a path with a zero behind it.
abbrev pub Reduced : List ℕ → Option Removal → Type 0
Reduced l found =
    (r : Removal) × (w : List ℕ) × (found ≡ some r)
    × Ups (ended l) w
    × (r.buf_size ≡ length w)
    × (take r.buf_size r.buf ≡ w)
    × (get_elem? r.buf r.buf_size ≡ some 0)
    × (settled (segments w).0 (segments w).1 ≡ true)

reduce_lem : (l : List ℕ) → Reduced l (reduce (l ++ 0 ∷ []) (length l))
unfolding reduce
reduce_lem l =
    let (r, e, n, t, g) = remove_point_lem l 0 [] in
    let (junk, b) = at_split r.buf (ended l) r.buf_size 0 (n ∙ sym (length-ended l)) t g in
    rw e (
      subst (λ m. Reduced l (remove_points r.buf m)) (sym (n ∙ sym (length-ended l)))
        (subst (λ buf. Reduced l (remove_points buf (length (ended l)))) (sym b)
          (remove_points_lem (ended l) 0 junk)))

-- The path that the merge leaves in `v`.
abbrev pub Merges : Uriaa → List ℕ → Option (Bool × Uriaa) → Type 0
Merges u l found =
    (buf : List ℕ) × (w : List ℕ) × (found
      ≡ some (not (leading (segments w).0 (segments w).1), set_path u buf (length w)))
    × (take (length w) buf ≡ w)
    × (get_elem? buf (length w) ≡ some 0)
    × Ups (ended l) w
    × (settled (segments w).0 (segments w).1 ≡ true)

merge-Reduced :
    (u : Uriaa) (l : List ℕ) (found : Option Removal)
    → Reduced l found
    → Merges u l
        (do r ← found; up ← leads_up r.buf r.buf_size; some (not up, set_path u r.buf r.buf_size))
merge-Reduced u l found (r, w, e, us, n, t, g, k) =
    let (junk, b) = at_split r.buf w r.buf_size 0 n t g in
    (
      r.buf,
      w,
      rw e (
          rw n (
            rw
              (subst (λ buf. leads_up buf (length w) ≡ some (leading (segments w).0 (segments w).1))
                (sym b) (leads_up_lem w (0 ∷ junk)))
              refl)),
      ap (λ i. take i r.buf) (sym n) ∙ t,
      ap (get_elem? r.buf) (sym n) ∙ g,
      us,
      k,
    )

-- With a block of the size that is asked for, and strings that reach as far as they are copied, the merge
-- never leaves a block. The path is the two paths joined, without the segments `.` (a last one overwritten),
-- from which steps up lead to it, in which no segment `..` is left but behind another one or first; it is
-- accepted exactly if its first segment that is not empty is not `..`.
pub merge_path_lem :
    (block : List ℕ) (u : Uriaa) (base : Stringaa) (n : ℕ)
    → (let rel = u.parts Part.rel_path in
        n ≤ length (bytes base)
        → rel_copy_size rel ≤ length (bytes rel)
        → length block ≡ n + rel_copy_size rel + 1
        → Merges u
            (take n (bytes base) ++ take (rel_copy_size rel) (bytes rel))
            (merge_path (some block) u base n))
unfolding merge_path
merge_path_lem block u base n h k e =
    let rel = u.parts Part.rel_path in
    let m = rel_copy_size rel in
    let l = take n (bytes base) ++ take m (bytes rel) in
    rw (join_paths_lem block base rel n m h k e) (
      subst
        (λ i. Merges u l (do
          r ← reduce (l ++ 0 ∷ []) i
          up ← leads_up r.buf r.buf_size
          some (not up, set_path u r.buf r.buf_size)))
        (length-append (take n (bytes base)) (take m (bytes rel))
          ∙ (λ j. length-take_in n (bytes base) h j + length-take_in m (bytes rel) k j))
        (merge-Reduced u l (reduce (l ++ 0 ∷ []) (length l)) (reduce_lem l)))
