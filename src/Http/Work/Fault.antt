-- ===== src/Http/Work/Fault.antt =====
-- http/httpaa_work.h: the method GET on a path with a segment `.`.
use native.Mathlib.Nat.{zero-add, suc-add}
use httpaa.Base.{
  ℕ, zero, suc, ◌+◌, ◌≤◌, ◌≡◌, ◌≢◌, refl, sym, ap, ◌∙◌, true, false, List, [], ◌∷◌, ◌++◌, Option,
  if◌then◌else◌, leb, not, ◌||◌, none, some, arith, length, take, set, replicate, drop, subst,
  length-append, length-replicate, length-take,
}
use httpaa.Stringaa.Defs.{Stringaa, bytes}
use httpaa.Stringaa.Store.{malloc_buf, copy_chars_size, copy, copy_into}
use httpaa.Stringaa.Copy.{copy_into-some, copied}
use httpaa.Uri.Segments.{remove_segment_point}
use httpaa.Uri.Segments.Spec.{without_dots}
use httpaa.Uri.Segments.Result.{remove_segment_point_fault}
use httpaa.Http.Work.{Files, get_request_file_name, work_method_get}

drop-replicate : (n : ℕ) → drop n (replicate (n + 1) zero) ≡ zero ∷ []
drop-replicate zero = refl
drop-replicate (suc n) = rw suc-add (drop-replicate n)

set-end : (q : List ℕ) → set (q ++ 0 ∷ []) (length q) 0 ≡ q ++ 0 ∷ []
set-end [] = refl
set-end (c ∷ q) = ap (λ l. c ∷ l) (set-end q)

-- The buffer that `stringaa_malloc_buf` leaves.
abbrev new : ℕ → Stringaa
new n = record {
  buf = some (replicate n 0);
  buf_size = n;
  read_pos = 0;
  write_pos = 0;
  is_init = false;
  is_alloc = true;
  is_null_terminated = true;
  is_link = false;
  is_binary = false;
}

module _ (l : List ℕ) (n : ℕ) (has : n ≤ length l) where
  copied-bytes : bytes (copied (new (n + 1)) l n) ≡ take n l ++ 0 ∷ []
  copied-bytes =
      let size : length (take n l) ≡ n = omega (arith, length-take n l) in
      rw (zero-add n) (
        rw (drop-replicate n) (
          subst (λ k. set (take n l ++ 0 ∷ []) k 0 ≡ take n l ++ 0 ∷ []) size (set-end (take n l))))

  module _ (malloc : ℕ → Option (List ℕ)) (s : Stringaa) (block : List ℕ)
      (fresh : s.is_alloc ≡ false) (given : malloc (n + 1) ≡ some block) where
    malloc_buf-new : malloc_buf malloc s (n + 1) ≡ (true, new (n + 1))
    unfolding malloc_buf
    malloc_buf-new = ground arith

    target-new :
        (if not s.is_alloc || leb s.buf_size (n + 1) then (malloc_buf malloc s (n + 1)).1 else s)
        ≡ new (n + 1)
    target-new = rw malloc_buf-new (ground arith)

    copy_chars_size-new :
        copy_chars_size malloc s (some l) n ≡ some (true, copied (new (n + 1)) l n)
    unfolding copy_chars_size
    copy_chars_size-new =
        ap (λ t. copy_into t l n) target-new
        ∙ copy_into-some (new (n + 1)) l n has (omega arith)
            (omega (arith, length-replicate {0} (n + 1) zero))

-- What a new buffer holds behind the copy.
copy_new :
    (malloc : ℕ → Option (List ℕ)) (s1 s2 : Stringaa) (block l : List ℕ)
    → s1.is_alloc ≡ false
    → s2.buf ≡ some l
    → s2.is_init ≡ true
    → s2.is_null_terminated ≡ false
    → s2.buf_size ≤ length l
    → malloc (s2.buf_size + 1) ≡ some block
    → (s : Stringaa) × (copy malloc s1 s2 ≡ some (true, s))
      × (s.buf_size ≡ length (bytes s))
      × (bytes s ≡ take s2.buf_size l ++ 0 ∷ [])
unfolding copy
copy_new malloc s1 s2 block l fresh e ready open_ has given = (
  record (copied (new (s2.buf_size + 1)) l s2.buf_size) { write_pos = s2.write_pos },
  ground (arith, copy_chars_size-new l s2.buf_size has malloc s1 block fresh given),
  omega (
    arith,
    ap length (copied-bytes l s2.buf_size has),
    length-append (take s2.buf_size l) (0 ∷ []),
    length-take s2.buf_size l,
  ),
  copied-bytes l s2.buf_size has,
)

-- Where the path of a request is set, as a part of a string inside its block and without a zero of
-- its own, and has, with a zero put behind it, a segment `.` that is not the last one, no buffer is
-- allocated for the file name yet, and `malloc` gives one: http11_work_method_get reads behind the
-- block of the file name.
pub work_method_get_fault :
    (malloc : ℕ → Option (List ℕ)) (http : Files) (path : Stringaa) (block l : List ℕ)
    → http.request_file_name.is_alloc ≡ false
    → http.abs_path.buf ≡ some l
    → http.abs_path.is_init ≡ true
    → http.abs_path.is_null_terminated ≡ false
    → http.abs_path.buf_size ≤ length l
    → malloc (http.abs_path.buf_size + 1) ≡ some block
    → without_dots (take http.abs_path.buf_size l ++ 0 ∷ [])
      ≢ take http.abs_path.buf_size l ++ 0 ∷ []
    → work_method_get malloc http path ≡ none
unfolding work_method_get get_request_file_name
work_method_get_fault malloc http path block l fresh e ready open_ has given dots =
    let (s, eq, size, held) =
      copy_new malloc http.request_file_name http.abs_path block l fresh e ready open_ has given in
    let fault : remove_segment_point s ≡ none =
      remove_segment_point_fault s size (subst (λ q. without_dots q ≢ q) (sym held) dots) in
    rw eq (rw fault refl)
