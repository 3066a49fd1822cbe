-- ===== src/Uri/Frame/Reference.antt =====
-- The rules from a URI reference down keep the frame.
use httpaa.Base.{◌≡◌, true, false, not, ◌||◌, arith}
use httpaa.Uri.Chars.{alpha_chars, scheme_chars, reserved_chars, unreserved_chars}
use httpaa.Uri.Defs.{
  Uriaa, Part, set_part, unset_part, rewind, uri_is_char, when, plain, uric_chars,
  uric_no_slash_chars, uri_scan_all, uri_scan_from,
}
use httpaa.Uri.Chars.{uric_no_slash_extra}
use httpaa.Uri.Path.{abs_path, rel_path}
use httpaa.Uri.Host.{authority}
use httpaa.Uri.Reference.{
  scheme, query, fragment, opaque_part, net_path, hier_part, path, relative_uri, after_scheme,
  absolute_uri, uri_reference, check_url,
}
use httpaa.Uri.Frame.{
  ClassMoves, plain-Moves, with_escaped-Moves, Within, Kept, Keeps, Keeps-refl, Keeps-trans,
  Keeps-end, Keeps-when, uri_is_char-Keeps, set_part-Keeps, unset_part-Keeps, uri_scan_all-Keeps,
  uri_scan_from-Keeps,
}
use httpaa.Uri.Frame.Paths.{Keeps-set_or_rewind, Keeps-or_rewind, abs_path-Keeps, rel_path-Keeps}
use httpaa.Uri.Frame.Authority.{authority-Keeps}

uric_chars-Moves : ClassMoves uric_chars
unfolding uric_chars
uric_chars-Moves = with_escaped-Moves (λ c. reserved_chars c || unreserved_chars c) (λ c. false)

uric_no_slash_chars-Moves : ClassMoves uric_no_slash_chars
unfolding uric_no_slash_chars
uric_no_slash_chars-Moves = with_escaped-Moves unreserved_chars uric_no_slash_extra

scheme-Keeps : (u : Uriaa) → Keeps u (scheme u).1
unfolding scheme
scheme-Keeps u =
    let (is_scheme, u1) = uri_scan_from (plain alpha_chars) (plain scheme_chars) u in
    let one =
      uri_scan_from-Keeps (plain scheme_chars) (plain-Moves scheme_chars) (plain alpha_chars)
        (plain-Moves alpha_chars) u in
    Keeps-end u (set_part Part.scheme u.uri.read_pos u1) u1 is_scheme true false
      (set_part-Keeps Part.scheme u u1 one) one

query-Keeps : (u : Uriaa) → Keeps u (query u).1
unfolding query
query-Keeps u =
    set_part-Keeps Part.query u (uri_scan_all uric_chars u)
      (uri_scan_all-Keeps uric_chars uric_chars-Moves u)

fragment-Keeps : (u : Uriaa) → Keeps u (fragment u).1
unfolding fragment
fragment-Keeps u =
    set_part-Keeps Part.fragment u (uri_scan_all uric_chars u)
      (uri_scan_all-Keeps uric_chars uric_chars-Moves u)

opaque_part-Keeps : (u : Uriaa) → Keeps u (opaque_part u).1
unfolding opaque_part
opaque_part-Keeps u =
    let (is_opaque_part, u1) = uri_scan_from uric_no_slash_chars uric_chars u in
    let one =
      uri_scan_from-Keeps uric_chars uric_chars-Moves uric_no_slash_chars uric_no_slash_chars-Moves
        u in
    Keeps-end u (set_part Part.opaque_part u.uri.read_pos u1) u1 is_opaque_part true false
      (set_part-Keeps Part.opaque_part u u1 one) one

net_path-Keeps : (u : Uriaa) → Keeps u (net_path u).1
unfolding net_path
net_path-Keeps u =
    let (slash, u1) = uri_is_char b'/' u in
    let (slashes, u2) = when slash (uri_is_char b'/') u1 in
    let (is_authority, u3) = when slashes authority u2 in
    let u4 = (when is_authority abs_path u3).1 in
    Keeps-set_or_rewind Part.net_path u u4 is_authority (
      Keeps-when u u3 is_authority abs_path
        (Keeps-when u u2 slashes authority
          (Keeps-when u u1 slash (uri_is_char b'/') (uri_is_char-Keeps b'/' u)
            (uri_is_char-Keeps b'/' u1))
          (authority-Keeps u2))
        (abs_path-Keeps u3))

-- The lines that read a query behind a path.
query_behind-Keeps :
    (u v : Uriaa)
    → Keeps u v
    → let (question, v1) = uri_is_char b'?' v in Keeps u (when question query v1).1
query_behind-Keeps u v f =
    let (question, v1) = uri_is_char b'?' v in
    Keeps-when u v1 question query (Keeps-trans u v v1 f (uri_is_char-Keeps b'?' v))
      (query-Keeps v1)

hier_part-Keeps : (u : Uriaa) → Keeps u (hier_part u).1
unfolding hier_part
hier_part-Keeps u =
    let (is_net_path, u1) = net_path u in
    let (is_abs_path, u2) = when (not is_net_path) abs_path u1 in
    let (question, u3) = uri_is_char b'?' u2 in
    let u4 = (when question query u3).1 in
    Keeps-or_rewind u u4 (is_net_path || is_abs_path) (
      query_behind-Keeps u u2
        (Keeps-when u u1 (not is_net_path) abs_path (net_path-Keeps u) (abs_path-Keeps u1)))

-- The rule `path`, on a URI whose read position is inside the string and whose fields are parts of
-- it where they are set, only moves the read position on, never past the write position, and leaves
-- every field that is set a part of the string.
pub path-Keeps : (u : Uriaa) → Keeps u (path u).1
unfolding path
path-Keeps u =
    let (is_abs_path, u1) = abs_path u in
    let (is_opaque_path, u2) = when (not is_abs_path) opaque_part u1 in
    Keeps-set_or_rewind Part.path u u2 (is_abs_path || is_opaque_path)
      (Keeps-when u u1 (not is_abs_path) opaque_part (abs_path-Keeps u) (opaque_part-Keeps u1))

relative_uri-Keeps : (u : Uriaa) → Keeps u (relative_uri u).1
unfolding relative_uri
relative_uri-Keeps u =
    let (is_net_path, u1) = net_path u in
    let (is_abs_path, u2) = when (not is_net_path) abs_path u1 in
    let (is_rel_path, u3) = when (not (is_net_path || is_abs_path)) rel_path u2 in
    let (question, u4) = uri_is_char b'?' u3 in
    let u5 = (when question query u4).1 in
    Keeps-or_rewind u u5 (is_net_path || is_abs_path || is_rel_path) (
      query_behind-Keeps u u3 (
        Keeps-when u u2 (not (is_net_path || is_abs_path)) rel_path
          (Keeps-when u u1 (not is_net_path) abs_path (net_path-Keeps u) (abs_path-Keeps u1))
          (rel_path-Keeps u2)))

after_scheme-Keeps : (u : Uriaa) → Keeps u (after_scheme u).1
unfolding after_scheme
after_scheme-Keeps u =
    let (colon, u1) = uri_is_char b':' u in
    let (is_hier_part, u2) = hier_part u1 in
    let (is_opaque_part, u3) = when (not is_hier_part) opaque_part u2 in
    let one = uri_is_char-Keeps b':' u in
    Keeps-end u u3 (unset_part Part.scheme u1) colon (is_hier_part || is_opaque_part) false
      (Keeps-trans u u1 u3 one (
        Keeps-when u1 u2 (not is_hier_part) opaque_part (hier_part-Keeps u1)
          (opaque_part-Keeps u2)))
      (unset_part-Keeps Part.scheme u u1 one)

absolute_uri-Keeps : (u : Uriaa) → Keeps u (absolute_uri u).1
unfolding absolute_uri
absolute_uri-Keeps u =
    let (has_scheme, u1) = scheme u in
    let (is_absolute_uri, u2) = when has_scheme after_scheme u1 in
    Keeps-or_rewind u u2 is_absolute_uri
      (Keeps-when u u1 has_scheme after_scheme (scheme-Keeps u) (after_scheme-Keeps u1))

uri_reference-Keeps : (u : Uriaa) → Keeps u (uri_reference u).1
unfolding uri_reference
uri_reference-Keeps u =
    let (is_absolute_uri, u1) = absolute_uri u in
    let (is_relative_uri, u2) = when (not is_absolute_uri) relative_uri u1 in
    let (hash, u3) = uri_is_char b'#' u2 in
    let (is_fragment, u4) = when hash fragment u3 in
    Keeps-or_rewind u u4 (is_absolute_uri || is_relative_uri || is_fragment) (
      Keeps-when u u3 hash fragment
        (Keeps-trans u u2 u3
          (Keeps-when u u1 (not is_absolute_uri) relative_uri (absolute_uri-Keeps u)
            (relative_uri-Keeps u1))
          (uri_is_char-Keeps b'#' u2))
        (fragment-Keeps u3))

-- Parsing a URI whose read position is inside the string, and whose fields are parts of it where
-- they are set, only moves the read position on, never past the write position, and leaves every
-- field that is set a part of the string: the bytes from some position on, whose end is not past
-- the write position.
pub check_url-Keeps : (u : Uriaa) → Within u → Kept u (check_url u).1
unfolding check_url
check_url-Keeps u w = ground (arith, uri_reference-Keeps u w, Keeps-refl u w)

-- A URI that is refused is given back with its read position where it was.
pub check_url-read_pos :
    (u : Uriaa) → (check_url u).0 ≡ false → (check_url u).1.uri.read_pos ≡ u.uri.read_pos
unfolding check_url uri_reference rewind
check_url-read_pos u e = ground arith
