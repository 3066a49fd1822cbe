-- ===== src/Uri/Resolve.antt =====
-- url/uriaa_rfc2396_resolve.h: uriaa_resolve_uri. `none` is a read or a write outside a block; the
-- result is the code that is returned (2 for the current document, 3 for an absolute URI) with the
-- relative URI as it is left. Nothing is freed: no block that is reached later was given back.
pub mod Slash
pub mod Leads
pub mod Merge
pub mod Text
pub mod Compose
pub mod Relative
mod Tests
use httpaa.Base.{
  ℕ, zero, suc, ◌+◌, ◌-◌, Bool, true, false, not, ◌&&◌, ◌||◌, List, Option, none, some, ltb, leb,
  ◌==◌, if◌then◌else◌, codes, length, size_sub, get_elem?,
}
use httpaa.Stringaa.Defs.{Stringaa, bytes}
use httpaa.Stringaa.Store.{memcpy, store, ◌>>=◌}
use httpaa.Uri.Defs.{Uriaa, Part, update}
use httpaa.Uri.Segments.{Removal, is_at, and_then, remove_point, remove_points}

-- `s->buf`, as a test.
abbrev pub has_buf : Stringaa → Bool
has_buf s = elim s.buf [ none ↦ false | some l ↦ true ]

-- A field of the base URI that the relative one takes over without its block.
abbrev pub link : Stringaa → Stringaa
link s = record s { is_alloc = false; is_link = true }

-- `write_pos` without the terminating zero, if the string is said to have one.
abbrev pub copy_size : Stringaa → ℕ
copy_size s = if ltb 0 s.write_pos && s.is_null_terminated then s.write_pos - 1 else s.write_pos

abbrev pub is_empty : Uriaa → Bool
is_empty u =
    not (u.parts Part.net_path).is_init
    && not (u.parts Part.abs_path).is_init
    && not (u.parts Part.rel_path).is_init
    && not (u.parts Part.opaque_part).is_init
    && not (u.parts Part.scheme).is_init
    && not (u.parts Part.authority).is_init
    && not (u.parts Part.query).is_init

-- The scheme and the authority of the base URI, where the relative one has none.
abbrev pub inherit : Uriaa → Uriaa → Uriaa
inherit u base =
    let parts = update u.parts Part.scheme (link (base.parts Part.scheme)) in
    record u {
      parts =
          if (u.parts Part.authority).is_init
          then parts
          else update parts Part.authority (link (base.parts Part.authority));
    }

-- `is_absolute_path`, where there is no authority.
abbrev pub is_absolute_path : Uriaa → Option Bool
is_absolute_path u =
    if (u.parts Part.abs_path).is_init && not (u.parts Part.rel_path).is_init
    then some true
    else and_then (some ((u.parts Part.opaque_part).is_init && has_buf (u.parts Part.opaque_part)))
        (is_at (bytes (u.parts Part.opaque_part)) 0 b'/')

-- The loop that looks for the last slash at `i_s` or in front of it, and its copy size. Without a slash
-- `i_s` wraps around at 0, and the byte that is read then is outside.
unfoldable pub last_slash : List ℕ → ℕ → Option ℕ
last_slash l zero = do found ← is_at l 0 b'/'; (if found then some 1 else none)
last_slash l (suc i) = elim (is_at l (suc i) b'/') [
  | none ↦ none
  | some true ↦ some (suc i + 1)
  | some false ↦ last_slash l i
]

-- `base_uri_path_copy_size`
unfoldable pub base_copy_size : Stringaa → Option ℕ
unfolding last_slash
base_copy_size s =
    if s.is_init && has_buf s && ltb 0 s.write_pos
    then (do
      size ← last_slash (bytes s) (
          if ltb 0 (s.write_pos - 1) && s.is_null_terminated
          then s.write_pos - 1 - 1
          else s.write_pos - 1)
      some (if size == 0 then s.write_pos else size))
    else some 0

-- `relative_uri_path_copy_size`
abbrev pub rel_copy_size : Stringaa → ℕ
rel_copy_size s = if s.is_init && has_buf s then copy_size s else 0

-- A copy that is made only where there is something to copy.
abbrev pub copy_if : Bool → List ℕ → ℕ → List ℕ → ℕ → Option (List ℕ)
copy_if b dst i src n = if b && ltb 0 n then memcpy dst i src n else some dst

-- The loop behind the removals: whether the path leads up.
unfoldable pub leads_up_loop : ℕ → List ℕ → ℕ → ℕ → Option (Bool × ℕ)
leads_up_loop zero buf i_s segment_s = some (false, segment_s)
leads_up_loop (suc fuel) buf i_s segment_s = elim (is_at buf i_s b'/') [
  | none ↦ none
  | some false ↦ leads_up_loop fuel buf (i_s + 1) segment_s
  | some true ↦
      elim (and_then (some (size_sub i_s segment_s == 2))
        (and_then (is_at buf (i_s - 1) b'.') (is_at buf (i_s - 2) b'.'))) [
          | none ↦ none
          | some true ↦ some (true, segment_s)
          | some false ↦ elim (ltb 0 (size_sub i_s segment_s)) [
            | true ↦ some (false, segment_s)
            | false ↦ leads_up_loop fuel buf (i_s + 1) (i_s + 1)
          ]
        ]
]

-- The test of the last segment behind the loop.
unfoldable pub leads_up_end : List ℕ → ℕ → Bool × ℕ → Option Bool
leads_up_end buf n (up, segment_s) = do
  last ←
      and_then (some (not up && segment_s + 2 == n))
        (and_then (is_at buf segment_s b'.') (is_at buf (segment_s + 1) b'.'))
  some (up || last)

-- The loop runs over the `n` bytes of the path, so its fuel is what is left of them.
unfoldable pub leads_up : List ℕ → ℕ → Option Bool
unfolding leads_up_loop leads_up_end
leads_up buf n = do left ← leads_up_loop n buf 0 0; leads_up_end buf n left

-- The path, as the removals leave it, with a terminating zero.
abbrev pub path_of : List ℕ → ℕ → Stringaa
path_of buf size = record {
  buf = some buf;
  buf_size = size + 1;
  read_pos = 0;
  write_pos = size + 1 - 1;
  is_init = true;
  is_alloc = true;
  is_null_terminated = true;
  is_link = false;
  is_binary = false;
}

abbrev pub set_path : Uriaa → List ℕ → ℕ → Uriaa
set_path u buf size = record u { parts = update u.parts Part.path (path_of buf size) }

-- The path of the base URI up to its last slash, and the relative path behind it.
unfoldable pub join_paths : List ℕ → Stringaa → ℕ → Stringaa → ℕ → Option (List ℕ)
join_paths block base n rel m = do
  copied ← copy_if (has_buf base) block 0 (bytes base) n
  joined ← copy_if (has_buf rel) copied n (bytes rel) m
  store joined (n + m) 0

-- The removals, on the path and its size without the zero.
unfoldable pub reduce : List ℕ → ℕ → Option Removal
unfolding remove_point remove_points
reduce buf n = do r ← remove_point buf n; remove_points r.buf r.buf_size

-- The merged path, and whether it does not lead up.
unfoldable pub merge_path : Option (List ℕ) → Uriaa → Stringaa → ℕ → Option (Bool × Uriaa)
unfolding join_paths reduce leads_up
merge_path none u base n = some (false, u)
merge_path (some block) u base n = do
  let rel = u.parts Part.rel_path
  buf ← join_paths block base n rel (rel_copy_size rel)
  r ← reduce buf (n + rel_copy_size rel)
  up ← leads_up r.buf r.buf_size
  some (not up, set_path u r.buf r.buf_size)

-- The bytes written, and how many.
abbrev pub put : List ℕ × ℕ → List ℕ → ℕ → Option (List ℕ × ℕ)
put (buf, pos) src n = do copied ← memcpy buf pos src n; some (copied, pos + n)

-- A part, if it is there, with the mark in front of it or, for the scheme, behind it.
unfoldable pub put_before : List ℕ → Stringaa → List ℕ × ℕ → Option (List ℕ × ℕ)
put_before mark s to =
    if s.is_init
    then (do marked ← put to mark (length mark); put marked (bytes s) (copy_size s))
    else some to

unfoldable pub put_scheme : Stringaa → List ℕ × ℕ → Option (List ℕ × ℕ)
put_scheme s to =
    if s.is_init
    then (do named ← put to (bytes s) (copy_size s); put named (codes ":") 1)
    else some to

-- The path that is used: the absolute one with an authority or for an absolute path, which is
-- not looked at, and the merged one otherwise.
abbrev pub target_path : Bool → Uriaa → Option Stringaa
target_path whole u =
    if whole
    then some (u.parts Part.abs_path)
    else if (u.parts Part.path).is_init
    then some (u.parts Part.path)
    else none

abbrev pub path_size : Option Stringaa → ℕ
path_size none = 0
path_size (some s) = s.write_pos

unfoldable pub put_path : Option Stringaa → List ℕ × ℕ → Option (List ℕ × ℕ)
put_path none to = some to
put_path (some s) to = put to (bytes s) (copy_size s)

abbrev pub part_size : Stringaa → ℕ → ℕ
part_size s n = if s.is_init then s.write_pos + n else 0

unfoldable pub uri_size : Bool → Uriaa → ℕ
uri_size whole u =
    part_size (u.parts Part.scheme) 1
    + part_size (u.parts Part.authority) 2
    + path_size (target_path whole u)
    + part_size (u.parts Part.query) 1
    + part_size (u.parts Part.fragment) 1
    + 1

-- `buf[read_pos] = 0`
abbrev pub put_zero : List ℕ × ℕ → Option (List ℕ × ℕ)
put_zero (buf, read_pos) = do ended ← store buf read_pos 0; some (ended, read_pos)

unfoldable pub put_uri : Bool → Uriaa → List ℕ → Option (List ℕ × ℕ)
unfolding put_before put_scheme put_path
put_uri whole u block = do
  named ← put_scheme (u.parts Part.scheme) (block, 0)
  hosted ← put_before (codes "//") (u.parts Part.authority) named
  led ← put_path (target_path whole u) hosted
  asked ← put_before (codes "?") (u.parts Part.query) led
  cut ← put_before (codes "#") (u.parts Part.fragment) asked
  put_zero cut

abbrev pub uri_of : List ℕ → ℕ → ℕ → Stringaa
uri_of buf size read_pos = record {
  buf = some buf;
  buf_size = size;
  read_pos = read_pos;
  write_pos = if size == 0 then 0 else size - 1;
  is_init = true;
  is_alloc = true;
  is_null_terminated = true;
  is_link = false;
  is_binary = false;
}

-- The URI that is put together, in a new block.
unfoldable pub compose : Option (List ℕ) → Bool → Uriaa → Option (ℕ × Uriaa)
unfolding put_uri uri_size
compose none whole u = some (0, u)
compose (some block) whole u = do
  (buf, read_pos) ← put_uri whole u block
  some (1, record u { uri = uri_of buf (uri_size whole u) read_pos })

module _ (malloc : ℕ → Option (List ℕ)) where
  unfoldable pub merge_paths : Uriaa → Uriaa → Option (Bool × Uriaa)
  unfolding base_copy_size merge_path
  merge_paths u base = do
    n ← base_copy_size (base.parts Part.abs_path)
    merge_path (malloc (n + rel_copy_size (u.parts Part.rel_path) + 1)) u (base.parts Part.abs_path)
        n

  -- The lines behind the tests for an empty and for an absolute reference.
  unfoldable pub resolve_path : Bool → Uriaa → Uriaa → Option (ℕ × Uriaa)
  unfolding merge_paths compose uri_size
  resolve_path is_network u base = do
    is_absolute ← if is_network then some false else is_absolute_path u
    (is_merged, merged) ← if is_network || is_absolute then some (true, u) else merge_paths u base
    let whole = is_network || is_absolute
    (if is_merged then compose (malloc (uri_size whole merged)) whole merged else some (0, merged))

  unfoldable pub resolve_uri : Uriaa → Uriaa → Option (ℕ × Uriaa)
  unfolding resolve_path
  resolve_uri u base =
      if is_empty u
      then some (2, u)
      else if (u.parts Part.scheme).is_init
      then some (3, u)
      else resolve_path (u.parts Part.authority).is_init (inherit u base) base
