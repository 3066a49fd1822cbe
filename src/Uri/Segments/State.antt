-- ===== src/Uri/Segments/State.antt =====
-- url/uriaa_rfc2396_resolve.h: the variables of the loops by the parts of the buffer.
use mathlib.Core.List.{append_assoc}
use native.Mathlib.Nat.{zero-add, suc-add}
use httpaa.Base.{
  ℕ, ◌+◌, ◌-◌, ◌<◌, ◌≤◌, ◌≡◌, subst, refl, ap, ◌∙◌, List, [], ◌∷◌, ◌++◌, none, some, ◌==◌, length,
  size_sub, take, drop, get_elem?, take-append_length, length-append, arith,
}
use httpaa.Uri.Segments.{Removal, memmove, is_at, remove}

abbrev pub removal : List ℕ → ℕ → ℕ → ℕ → Removal
removal buf i_s segment_s buf_size = record {
  buf = buf;
  i_s = i_s;
  segment_s = segment_s;
  buf_size = buf_size;
}

pub removal_eq :
    {b b' : List ℕ} {i i' s s' n n' : ℕ}
    → b ≡ b'
    → i ≡ i'
    → s ≡ s'
    → n ≡ n'
    → removal b i s n ≡ removal b' i' s' n'
removal_eq e f g h = λ k. removal (e k) (f k) (g k) (h k)

-- The path is read up to the end of `seg`, which is what is read of the segment; `rest` is left.
abbrev pub state : List ℕ → List ℕ → List ℕ → List ℕ → Removal
state p seg rest junk =
    removal (p ++ (seg ++ (rest ++ junk))) (length p + length seg) (length p)
      (length p + (length seg + length rest))

pub get_elem?-append_right :
    (p q : List ℕ) (i : ℕ) → get_elem? (p ++ q) (length p + i) ≡ get_elem? q i
get_elem?-append_right [] q i = rw zero-add
get_elem?-append_right (x ∷ p) q i = rw suc-add (get_elem?-append_right p q i)

pub drop-append_right : (p q : List ℕ) (i : ℕ) → drop (length p + i) (p ++ q) ≡ drop i q
drop-append_right [] q i = rw zero-add
drop-append_right (x ∷ p) q i = rw suc-add (drop-append_right p q i)

pub size_sub_le : (a b : ℕ) → b ≤ a → size_sub a b ≡ a - b
size_sub_le a b h = ground arith

pub size_sub_more : (a b : ℕ) → size_sub (a + b) a ≡ b
size_sub_more a b = size_sub_le (a + b) a (omega arith) ∙ omega arith

pub get_elem?-middle :
    (p : List ℕ) (c : ℕ) (r : List ℕ) → get_elem? (p ++ c ∷ r) (length p) ≡ some c
get_elem?-middle [] c r = refl
get_elem?-middle (x ∷ p) c r = get_elem?-middle p c r

-- The byte at which the loop stands.
pub is_at-state :
    (p seg : List ℕ) (c : ℕ) (r : List ℕ) (d : ℕ)
    → is_at (p ++ (seg ++ c ∷ r)) (length p + length seg) d ≡ some (c == d)
is_at-state p seg c r d =
    rw (get_elem?-append_right p (seg ++ c ∷ r) (length seg)) (rw (get_elem?-middle seg c r) refl)

pub is_at-past : (p q : List ℕ) (i d : ℕ) → is_at (p ++ q) (length p + i) d ≡ is_at q i d
is_at-past p q i d = rw (get_elem?-append_right p q i) refl

pub memmove_in :
    (buf : List ℕ) (dst src n : ℕ)
    → src + n ≤ length buf
    → dst + n ≤ length buf
    → memmove buf dst src n ≡ some (take dst buf ++ (take n (drop src buf) ++ drop (dst + n) buf))
memmove_in buf dst src n h k = ground arith

pub memmove_fault :
    (buf : List ℕ) (dst src n : ℕ) → length buf < src + n → memmove buf dst src n ≡ none
memmove_fault buf dst src n h = ground arith

pub drop-append : (p q : List ℕ) → drop (length p) (p ++ q) ≡ q
drop-append [] q = refl
drop-append (x ∷ p) q = drop-append p q

pub length-append3 : (p q r : List ℕ) → length (p ++ (q ++ r)) ≡ length p + (length q + length r)
length-append3 p q r = rw (length-append p (q ++ r)) (rw (length-append q r) refl)

-- What the move takes `buf` apart into.
moved_parts :
    (p mid r junk : List ℕ)
    → (let buf = p ++ (mid ++ (r ++ junk)) in
        take (length p) buf
        ++ (take (length r) (drop (length p + length mid) buf) ++ drop (length p + length r) buf))
      ≡ p ++ (r ++ drop (length r) (mid ++ (r ++ junk)))
moved_parts p mid r junk =
    let buf = mid ++ (r ++ junk) in
    rw (take-append_length p buf) (
      rw (drop-append_right p buf (length mid)) (
        rw (drop-append_right p buf (length r))
          (rw (drop-append mid (r ++ junk)) (rw (take-append_length r junk) refl))))

-- The bytes between two places are taken out.
pub memmove_lem :
    (p mid r junk : List ℕ)
    → memmove (p ++ (mid ++ (r ++ junk))) (length p) (length p + length mid) (length r)
      ≡ some (p ++ (r ++ drop (length r) (mid ++ (r ++ junk))))
memmove_lem p mid r junk =
    memmove_in (p ++ (mid ++ (r ++ junk))) (length p) (length p + length mid) (length r)
      (rw (length-append p (mid ++ (r ++ junk)))
        (rw (length-append mid (r ++ junk)) (rw (length-append r junk) (omega arith))))
      (rw (length-append p (mid ++ (r ++ junk)))
        (rw (length-append mid (r ++ junk)) (rw (length-append r junk) (omega arith))))
    ∙ ap some (moved_parts p mid r junk)

-- The same where the last byte that is moved is the one behind the path.
pub memmove_end :
    (p mid r : List ℕ) (z : ℕ) (junk : List ℕ)
    → memmove (p ++ (mid ++ (r ++ z ∷ junk))) (length p) (length p + length mid) (length r + 1)
      ≡ some (p ++ (r ++ z ∷ drop (length r + 1) (mid ++ (r ++ z ∷ junk))))
memmove_end p mid r z junk =
    let e = append_assoc r (z ∷ []) junk in
    let l = length-append r (z ∷ []) in
    subst
      (λ q.
        memmove (p ++ (mid ++ q)) (length p) (length p + length mid) (length r + 1)
        ≡ some (p ++ (r ++ z ∷ drop (length r + 1) (mid ++ q))))
      e
      (subst
        (λ n.
          memmove (p ++ (mid ++ ((r ++ z ∷ []) ++ junk))) (length p) (length p + length mid) n
          ≡ some (p ++ (r ++ z ∷ drop n (mid ++ ((r ++ z ∷ []) ++ junk)))))
        l
        (memmove_lem p mid (r ++ z ∷ []) junk
          ∙ ap (λ q. some (p ++ q))
              (append_assoc r (z ∷ [])
                (drop (length (r ++ z ∷ [])) (mid ++ ((r ++ z ∷ []) ++ junk))))))

pub remove_lem :
    (p mid r : List ℕ) (z : ℕ) (junk : List ℕ) (i size src n j : ℕ)
    → src ≡ length p + length mid
    → n ≡ length r + 1
    → remove (removal (p ++ (mid ++ (r ++ z ∷ junk))) i (length p) size) src n j
      ≡ some (
          removal
            (p ++ (r ++ z ∷ drop (length r + 1) (mid ++ (r ++ z ∷ junk))))
            j
            (length p)
            (size - length mid))
remove_lem p mid r z junk i size src n j e f =
    rw e
      (rw f (rw (memmove_end p mid r z junk) (ap some (removal_eq refl refl refl (omega arith)))))

pub remove_fault : (r : Removal) (src n j : ℕ) → length r.buf < src + n → remove r src n j ≡ none
remove_fault r src n j h = rw (memmove_fault r.buf r.segment_s src n h) refl
