-- ===== src/Uri/Segments.antt =====
-- url/uriaa_rfc2396_resolve.h: uriaa_remove_segment_point and uriaa_remove_segment_points, which
-- take the segments `.` and `<segment>/..` out of a path, with the loops that uriaa_resolve_uri
-- repeats. `i_s`, an `int`, is compared as a `size_t`: the model has no negative index. Buffers are
-- shorter than 2 ^ 31 bytes.
pub mod State
pub mod Spec
pub mod Point
pub mod Undotted
pub mod Result
pub mod Points
pub mod Rounds
pub mod Behind
pub mod Pass
pub mod Climb
use httpaa.Base.{
  ℕ, zero, suc, ◌+◌, ◌-◌, Bool, true, false, not, ◌&&◌, List, ◌++◌, Option, none, some, ltb, leb,
  ◌==◌, if◌then◌else◌, length, size_sub, take, drop, get_elem?,
}
use httpaa.Stringaa.Defs.{Stringaa, bytes}
use httpaa.Stringaa.Store.{store, ◌>>=◌}

-- `memmove(buf + dst, buf + src, n)`
abbrev pub memmove : List ℕ → ℕ → ℕ → ℕ → Option (List ℕ)
memmove buf dst src n =
    if leb (src + n) (length buf) && leb (dst + n) (length buf)
    then some (take dst buf ++ (take n (drop src buf) ++ drop (dst + n) buf))
    else none

-- `buf[i] == c`, with `none` for a read outside the block.
abbrev pub is_at : List ℕ → ℕ → ℕ → Option Bool
is_at buf i c = do x ← get_elem? buf i; some (x == c)

-- C's `&&` of two tests that read memory.
abbrev pub and_then : Option Bool → Option Bool → Option Bool
and_then none b = none
and_then (some false) b = some false
and_then (some true) b = b

-- The variables of the loops.
pub record Removal : Type 0 where
  pub buf : List ℕ
  pub i_s : ℕ
  pub segment_s : ℕ
  pub buf_size : ℕ

-- The removal of the bytes from `segment_s` on that end in front of `src`: `n` bytes are moved.
abbrev pub remove : Removal → ℕ → ℕ → ℕ → Option Removal
remove r src n i_s = do
  buf ← memmove r.buf r.segment_s src n
  some (record {
    buf = buf;
    i_s = i_s;
    segment_s = r.segment_s;
    buf_size = r.buf_size - (src - r.segment_s);
  })

-- One pass of the inner loop of uriaa_remove_segment_point.
unfoldable pub point_round : Removal → Option Removal
point_round r = do
  is_slash ← is_at r.buf r.i_s b'/'
  is_point ←
      and_then (some (is_slash && size_sub r.i_s r.segment_s == 1)) (is_at r.buf (r.i_s - 1) b'.')
  (if is_point
      then remove r (r.i_s + 1) (r.buf_size - r.i_s) r.segment_s
      else if is_slash
      then some (record r { i_s = r.i_s + 1; segment_s = r.i_s + 1 })
      else some (record r { i_s = r.i_s + 1 }))

-- Both loops: behind a removal the inner one is left, and the outer one goes on at `i_s`.
unfoldable pub point_loop : ℕ → Removal → Option Removal
unfolding point_round
point_loop zero r = none
point_loop (suc fuel) r = elim (ltb r.i_s r.buf_size) [
  | false ↦ some r
  | true ↦ elim (point_round r) [ none ↦ none | some r1 ↦ point_loop fuel r1 ]
]

-- A last segment `.` is overwritten with the terminating zero.
unfoldable pub point_end : Removal → Option Removal
point_end r = do
  is_point ← and_then (some (r.segment_s + 1 == r.buf_size)) (is_at r.buf r.segment_s b'.')
  buf ← if is_point then store r.buf r.segment_s 0 else some r.buf
  some (record r { buf = buf })

-- The loops and the last segment, on the first `n` bytes of a block.
unfoldable pub remove_point : List ℕ → ℕ → Option Removal
unfolding point_loop point_end
remove_point buf n = do
  r ← point_loop (n + 1) (record { buf = buf; i_s = 0; segment_s = 0; buf_size = n })
  point_end r

-- The size and the positions of the string stay as they are.
unfoldable pub remove_segment_point : Stringaa → Option (Bool × Stringaa)
unfolding remove_point
remove_segment_point s = do
  r ← remove_point (bytes s) s.buf_size
  some (true, record s { buf = elim s.buf [ none ↦ none | some l ↦ some r.buf ] })

-- A round that leaves the inner loop.
abbrev pub broken : Option Removal → Option (Bool × Removal)
broken none = none
broken (some r) = some (true, r)

-- One pass of the inner loop of uriaa_remove_segment_points, and whether it has left the loop.
unfoldable pub points_round : Removal → Option (Bool × Removal)
points_round r = do
  is_slash ← is_at r.buf r.i_s b'/'
  is_up ←
      and_then (some (is_slash && size_sub r.i_s r.segment_s == 2))
        (and_then (is_at r.buf (r.i_s - 1) b'.') (is_at r.buf (r.i_s - 2) b'.'))
  is_dots ←
      and_then (some (is_slash && not is_up && ltb (r.i_s + 2) r.buf_size))
        (and_then (is_at r.buf (r.i_s + 1) b'.') (is_at r.buf (r.i_s + 2) b'.'))
  is_inner ← and_then (some (is_dots && ltb (r.i_s + 3) r.buf_size)) (is_at r.buf (r.i_s + 3) b'/')
  (if is_inner
      then broken (remove r (r.i_s + 4) (r.buf_size - r.i_s - 4 + 1) 0)
      else if is_dots && (r.i_s + 3 == r.buf_size)
      then broken (remove r (r.i_s + 3) (r.buf_size - r.i_s - 3 + 1) 0)
      else if is_slash && not is_dots
      then some (false, record r { i_s = r.i_s + 1; segment_s = r.i_s + 1 })
      else some (false, record r { i_s = r.i_s + 1 }))

-- The inner loop.
unfoldable pub points_pass : ℕ → Removal → Option Removal
unfolding points_round
points_pass zero r = none
points_pass (suc fuel) r = elim (ltb r.i_s r.buf_size) [
  | false ↦ some r
  | true ↦ elim (points_round r) [
    | none ↦ none
    | some (true, r1) ↦ some r1
    | some (false, r1) ↦ points_pass fuel r1
  ]
]

-- The outer loop.
unfoldable pub points_loop : ℕ → Removal → Option Removal
unfolding points_pass
points_loop zero r = none
points_loop (suc fuel) r = elim (points_pass (r.buf_size + 1) (record r { segment_s = 0 })) [
  | none ↦ none
  | some r1 ↦ elim (ltb r1.i_s r1.buf_size) [ false ↦ some r1 | true ↦ points_loop fuel r1 ]
]

unfoldable pub remove_points : List ℕ → ℕ → Option Removal
unfolding points_loop
remove_points buf n =
    points_loop (n + 1) (record { buf = buf; i_s = 0; segment_s = 0; buf_size = n })

-- The loops behind the removal only return, and return 1: uriaa_remove_segment_points does not
-- tell a path that leads up.
unfoldable pub remove_segment_points : Stringaa → Option (Bool × Stringaa)
unfolding remove_points
remove_segment_points s = do
  r ← remove_points (bytes s) s.buf_size
  some (
    true,
    record s { buf = elim s.buf [ none ↦ none | some l ↦ some r.buf ]; buf_size = r.buf_size + 1 },
  )
