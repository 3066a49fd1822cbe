-- ===== src/Uri/Resolve/Leads.antt =====
-- url/uriaa_rfc2396_resolve.h: the loop of uriaa_resolve_uri that looks for a path that leads up.
use mathlib.Core.Bool.{false≢true}
use mathlib.Core.List.{append_assoc, append-nil}
use native.Mathlib.Nat.{add-zero}
use httpaa.Base.{
  ℕ, zero, suc, ◌+◌, ◌-◌, ◌≡◌, ◌≢◌, refl, ap, true, false, ◌&&◌, ◌∙◌, sym, List, [], ◌∷◌, ◌++◌,
  Option, some, Bool, ltb, ◌==◌, length, size_sub, length-append, arith, ==_iff, subst, Bool-cases,
  inl, inr,
}
use httpaa.Stringaa.Store.{◌>>=◌}
use httpaa.Uri.Segments.{is_at, and_then}
use httpaa.Uri.Segments.State.{is_at-state, is_at-past, size_sub_more}
use httpaa.Uri.Segments.Undotted.{segments-byte}
use httpaa.Uri.Segments.Points.{is_up_lem, and_then_lem}
use httpaa.Uri.Segments.Spec.{is_dot_dot, segments, leading}
use httpaa.Uri.Resolve.{leads_up_loop, leads_up_end, leads_up}

module _ (fuel : ℕ) (buf : List ℕ) (i s : ℕ) where
  loop_byte :
      is_at buf i b'/' ≡ some false
      → leads_up_loop (suc fuel) buf i s ≡ leads_up_loop fuel buf (i + 1) s
  unfolding leads_up_loop
  loop_byte h = rw (leads_up_loop, h) refl

  abbrev UpTest : Bool → Type 0
  UpTest b =
      and_then (some (size_sub i s == 2))
        (and_then (is_at buf (i - 1) b'.') (is_at buf (i - 2) b'.'))
      ≡ some b

  loop_up :
      is_at buf i b'/' ≡ some true → UpTest true → leads_up_loop (suc fuel) buf i s ≡ some (true, s)
  unfolding leads_up_loop
  loop_up h k = rw (leads_up_loop, h) (rw k refl)

  loop_break :
      is_at buf i b'/' ≡ some true
      → UpTest false
      → ltb 0 (size_sub i s) ≡ true
      → leads_up_loop (suc fuel) buf i s ≡ some (false, s)
  unfolding leads_up_loop
  loop_break h k m = rw (leads_up_loop, h) (rw k (rw m refl))

  loop_slash :
      is_at buf i b'/' ≡ some true
      → UpTest false
      → ltb 0 (size_sub i s) ≡ false
      → leads_up_loop (suc fuel) buf i s ≡ leads_up_loop fuel buf (i + 1) (i + 1)
  unfolding leads_up_loop
  loop_slash h k m = rw (leads_up_loop, h) (rw k (rw m refl))

zero_lt : (n : ℕ) → ltb 0 (suc n) ≡ true
zero_lt n = ground arith

apart : (s n : ℕ) → n ≢ 2 → (s + 2 == s + n) ≡ false
apart s n h = ground arith

same : (s : ℕ) → (s + 2 == s + 2) ≡ true
same s = ground arith

and_comm : (a b : Bool) → (a && b) ≡ (b && a)
and_comm true true = refl
and_comm true false = refl
and_comm false true = refl
and_comm false false = refl

is_at-zero : (p q : List ℕ) (d : ℕ) → is_at (p ++ q) (length p) d ≡ is_at q 0 d
is_at-zero p q d =
    subst (λ i. is_at (p ++ q) i d ≡ is_at q 0 d) (add-zero (length p)) (is_at-past p q 0 d)

started_size : (n : ℕ) → 0 + (0 + n) ≡ n
started_size n = omega arith

loop_zero : (buf : List ℕ) (i s : ℕ) → leads_up_loop zero buf i s ≡ some (false, s)
unfolding leads_up_loop
loop_zero buf i s = refl

end_up : (buf : List ℕ) (n s : ℕ) → leads_up_end buf n (true, s) ≡ some true
unfolding leads_up_end
end_up buf n s = refl

end_lem :
    (buf : List ℕ) (n s : ℕ) (b : Bool)
    → and_then (some (s + 2 == n)) (and_then (is_at buf s b'.') (is_at buf (s + 1) b'.')) ≡ some b
    → leads_up_end buf n (false, s) ≡ some b
unfolding leads_up_end
end_lem buf n s b h = rw h refl

abbrev two_dots_test : List ℕ → ℕ → ℕ → Option Bool
two_dots_test buf s n =
    and_then (some (s + 2 == n)) (and_then (is_at buf s b'.') (is_at buf (s + 1) b'.'))

two_dots_other :
    (buf : List ℕ) (s n : ℕ) → (s + 2 == n) ≡ false → two_dots_test buf s n ≡ some false
two_dots_other buf s n h = rw h refl

two_dots_same :
    (p : List ℕ) (c d : ℕ) (q : List ℕ) (n : ℕ)
    → (length p + 2 == n) ≡ true
    → two_dots_test (p ++ c ∷ d ∷ q) (length p) n ≡ some ((d == b'.') && (c == b'.'))
two_dots_same p c d q n h = rw h (
    rw (is_at-zero p (c ∷ d ∷ q) b'.') (
      rw (is_at-past p (c ∷ d ∷ q) 1 b'.')
        (and_then_lem (c == b'.') (d == b'.') ∙ ap some (and_comm (c == b'.') (d == b'.')))))

-- The last segment, tested behind the loop.
last_two :
    (p seg q : List ℕ)
    → two_dots_test (p ++ (seg ++ q)) (length p) (length p + length seg) ≡ some (is_dot_dot seg)
last_two p [] q =
    two_dots_other (p ++ q) (length p) (length p + 0) (apart (length p) 0 (omega arith))
last_two p (c ∷ []) q =
    two_dots_other (p ++ c ∷ q) (length p) (length p + 1) (apart (length p) 1 (omega arith))
last_two p (c ∷ d ∷ []) q = two_dots_same p c d q (length p + 2) (same (length p))
last_two p (c ∷ d ∷ e ∷ l) q =
    two_dots_other (p ++ c ∷ d ∷ e ∷ (l ++ q)) (length p) (length p + suc (suc (suc (length l))))
      (apart (length p) (suc (suc (suc (length l)))) (omega arith))

-- A segment with a slash behind it is not found again.
break_two :
    (p : List ℕ) (c : ℕ) (seg r q : List ℕ)
    → two_dots_test
        (p ++ (c ∷ seg ++ (b'/' ∷ q)))
        (length p)
        (length p + (suc (length seg) + suc (length r)))
      ≡ some false
break_two p c [] [] q = two_dots_same p c b'/' q (length p + 2) (same (length p))
break_two p c [] (d ∷ r) q =
    two_dots_other (p ++ c ∷ b'/' ∷ q) (length p) (length p + (1 + suc (suc (length r))))
      (apart (length p) (1 + suc (suc (length r))) (omega arith))
break_two p c (d ∷ seg) r q =
    two_dots_other (p ++ c ∷ d ∷ (seg ++ b'/' ∷ q)) (length p)
      (length p + (suc (suc (length seg)) + suc (length r)))
      (apart (length p) (suc (suc (length seg)) + suc (length r)) (omega arith))

-- The loop from a place on, and the test behind it.
abbrev finish : List ℕ → ℕ → Option (Bool × ℕ) → Option Bool
finish buf n found = do left ← found; leads_up_end buf n left

abbrev result : List ℕ → List ℕ → List ℕ → List ℕ → Option Bool
result p seg r junk =
    finish (p ++ (seg ++ (r ++ junk))) (length p + (length seg + length r))
      (leads_up_loop (length r) (p ++ (seg ++ (r ++ junk))) (length p + length seg) (length p))

leading-alone : (s : List ℕ) → leading s [] ≡ is_dot_dot s
leading-alone [] = refl
leading-alone (c ∷ s) = refl

leading-up : (s : List ℕ) (ss : List (List ℕ)) → is_dot_dot s ≡ true → leading s ss ≡ true
leading-up [] ss h = absurd (false≢true h)
leading-up (c ∷ s) ss h = h

module _ (p seg r junk : List ℕ) where
  result_byte :
      (c : ℕ) → (c == b'/') ≡ false → result p seg (c ∷ r) junk ≡ result p (seg ++ c ∷ []) r junk
  result_byte c h =
      let buf = p ++ (seg ++ (c ∷ r ++ junk)) in
      let e : buf ≡ p ++ ((seg ++ c ∷ []) ++ (r ++ junk)) =
        ap (λ l. p ++ l) (sym (append_assoc seg (c ∷ []) (r ++ junk))) in
      let n : length p + (length seg + suc (length r))
          ≡ length p + (length (seg ++ c ∷ []) + length r) =
        rw (length-append seg (c ∷ [])) (omega arith) in
      let m : length p + length seg + 1 ≡ length p + length (seg ++ c ∷ []) =
        rw (length-append seg (c ∷ [])) (omega arith) in
      ap (finish buf (length p + (length seg + suc (length r)))) (
        loop_byte (length r) buf (length p + length seg) (length p)
          (is_at-state p seg c (r ++ junk) b'/' ∙ ap some h))
      ∙ (λ k. finish (e k) (n k) (leads_up_loop (length r) (e k) (m k) (length p)))

  result_up : is_dot_dot seg ≡ true → result p seg (b'/' ∷ r) junk ≡ some true
  result_up h =
      let buf = p ++ (seg ++ (b'/' ∷ r ++ junk)) in
      ap (finish buf (length p + (length seg + suc (length r)))) (
        loop_up (length r) buf (length p + length seg) (length p)
          (is_at-state p seg b'/' (r ++ junk) b'/')
          (is_up_lem true p seg (b'/' ∷ r ++ junk) ∙ ap some h))
      ∙ end_up buf (length p + (length seg + suc (length r))) (length p)

result_slash : (p r junk : List ℕ) → result p [] (b'/' ∷ r) junk ≡ result (p ++ b'/' ∷ []) [] r junk
result_slash p r junk =
    let buf = p ++ (b'/' ∷ r ++ junk) in
    let e : buf ≡ (p ++ b'/' ∷ []) ++ (r ++ junk) = sym (append_assoc p (b'/' ∷ []) (r ++ junk)) in
    let n : length p + (0 + suc (length r)) ≡ length (p ++ b'/' ∷ []) + (0 + length r) =
      rw (length-append p (b'/' ∷ [])) (omega arith) in
    let m : length p + 0 + 1 ≡ length (p ++ b'/' ∷ []) + 0 =
      rw (length-append p (b'/' ∷ [])) (omega arith) in
    let m' : length p + 0 + 1 ≡ length (p ++ b'/' ∷ []) =
      rw (length-append p (b'/' ∷ [])) (omega arith) in
    ap (finish buf (length p + (0 + suc (length r)))) (
      loop_slash (length r) buf (length p + 0) (length p) (is_at-state p [] b'/' (r ++ junk) b'/')
        (is_up_lem true p [] (b'/' ∷ r ++ junk)) (rw (size_sub_more (length p) 0) refl))
    ∙ (λ k. finish (e k) (n k) (leads_up_loop (length r) (e k) (m k) (m' k)))

result_break :
    (p : List ℕ) (c : ℕ) (seg r junk : List ℕ)
    → is_dot_dot (c ∷ seg) ≡ false
    → result p (c ∷ seg) (b'/' ∷ r) junk ≡ some false
result_break p c seg r junk h =
    let buf = p ++ (c ∷ seg ++ (b'/' ∷ r ++ junk)) in
    ap (finish buf (length p + (suc (length seg) + suc (length r)))) (
      loop_break (length r) buf (length p + suc (length seg)) (length p)
        (is_at-state p (c ∷ seg) b'/' (r ++ junk) b'/')
        (is_up_lem true p (c ∷ seg) (b'/' ∷ r ++ junk) ∙ ap some h)
        (rw (size_sub_more (length p) (suc (length seg))) (zero_lt (length seg))))
    ∙ end_lem buf (length p + (suc (length seg) + suc (length r))) (length p) false
        (break_two p c seg r (r ++ junk))

result_slash_lem :
    (p seg r junk : List ℕ)
    → result (p ++ b'/' ∷ []) [] r junk ≡ some (leading (segments r).0 (segments r).1)
    → result p seg (b'/' ∷ r) junk ≡ some (leading (seg ++ []) ((segments r).0 ∷ (segments r).1))
result_slash_lem p [] r junk k = result_slash p r junk ∙ k
result_slash_lem p (c ∷ seg) r junk k = elim (Bool-cases (is_dot_dot (c ∷ seg))) [
  | inl h ↦ result_up p (c ∷ seg) r junk h ∙ ap some (sym (rw (append-nil seg) h))
  | inr h ↦ result_break p c seg r junk h ∙ ap some (sym (rw (append-nil seg) h))
]

result_lem :
    (p seg r junk : List ℕ)
    → result p seg r junk ≡ some (leading (seg ++ (segments r).0) (segments r).1)
result_lem p seg [] junk = rw (append-nil seg) (
    rw (leading-alone seg) (
      rw (add-zero (length seg)) (
        ap (finish (p ++ (seg ++ junk)) (length p + length seg))
          (loop_zero (p ++ (seg ++ junk)) (length p + length seg) (length p))
        ∙ end_lem (p ++ (seg ++ junk)) (length p + length seg) (length p) (is_dot_dot seg)
            (last_two p seg junk))))
result_lem p seg (c ∷ r) junk = elim (Bool-cases (c == b'/')) [
  | inl e ↦
      subst
        (λ x.
          result p seg (x ∷ r) junk
          ≡ some (leading (seg ++ (segments (x ∷ r)).0) (segments (x ∷ r)).1))
        (sym ((==_iff c b'/').0 e))
        (result_slash_lem p seg r junk (result_lem (p ++ b'/' ∷ []) [] r junk))
  | inr h ↦ rw (segments-byte c r h) (
      result_byte p seg r junk c h
      ∙ (result_lem p (seg ++ c ∷ []) r junk
          ∙ ap (λ l. some (leading l (segments r).1)) (append_assoc seg (c ∷ []) (segments r).0)))
]

-- On a block that holds the path `l`, the loop reads only bytes of it, and says whether its first segment that is not
-- empty is `..`.
pub leads_up_lem :
    (l junk : List ℕ)
    → leads_up (l ++ junk) (length l) ≡ some (leading (segments l).0 (segments l).1)
unfolding leads_up
leads_up_lem l junk =
    subst
      (λ n.
        finish (l ++ junk) n (leads_up_loop (length l) (l ++ junk) 0 0)
        ≡ some (leading (segments l).0 (segments l).1))
      (started_size (length l)) (result_lem [] [] l junk)
