-- ===== src/Uri/Reference.antt =====
-- url/uriaa_rfc2396.h and url/uriaa_utils.h: the rules from a URI reference down to the schemes,
-- and the check that the HTTP library calls.
use httpaa.Base.{Bool, true, false, not, ◌&&◌, ◌||◌, ltb, if◌then◌else◌, none, some}
use httpaa.Uri.Chars.{alpha_chars, scheme_chars}
use httpaa.Uri.Defs.{
  Uriaa, Part, set_part, unset_part, rewind, uri_is_char, when, plain, uric_chars,
  uric_no_slash_chars, uri_scan_all, uri_scan_from,
}
use httpaa.Uri.Path.{abs_path, rel_path}
use httpaa.Uri.Host.{authority}

unfoldable pub scheme : Uriaa → Bool × Uriaa
scheme u =
    let (is_scheme, u1) = uri_scan_from (plain alpha_chars) (plain scheme_chars) u in
    if is_scheme then (true, set_part Part.scheme u.uri.read_pos u1) else (false, u1)

unfoldable pub query : Uriaa → Bool × Uriaa
query u = (true, set_part Part.query u.uri.read_pos (uri_scan_all uric_chars u))

unfoldable pub fragment : Uriaa → Bool × Uriaa
fragment u = (true, set_part Part.fragment u.uri.read_pos (uri_scan_all uric_chars u))

unfoldable pub opaque_part : Uriaa → Bool × Uriaa
opaque_part u =
    let (is_opaque_part, u1) = uri_scan_from uric_no_slash_chars uric_chars u in
    if is_opaque_part then (true, set_part Part.opaque_part u.uri.read_pos u1) else (false, u1)

unfoldable pub net_path : Uriaa → Bool × Uriaa
net_path u =
    let (slash, u1) = uri_is_char b'/' u in
    let (slashes, u2) = when slash (uri_is_char b'/') u1 in
    let (is_authority, u3) = when slashes authority u2 in
    let (_, u4) = when is_authority abs_path u3 in
    if is_authority
    then (true, set_part Part.net_path u.uri.read_pos u4)
    else (false, rewind u.uri.read_pos u4)

unfoldable pub hier_part : Uriaa → Bool × Uriaa
hier_part u =
    let (is_net_path, u1) = net_path u in
    let (is_abs_path, u2) = when (not is_net_path) abs_path u1 in
    let (question, u3) = uri_is_char b'?' u2 in
    let (_, u4) = when question query u3 in
    if is_net_path || is_abs_path then (true, u4) else (false, rewind u.uri.read_pos u4)

-- `path`, which no other rule calls.
unfoldable pub path : Uriaa → Bool × Uriaa
path u =
    let (is_abs_path, u1) = abs_path u in
    let (is_opaque_path, u2) = when (not is_abs_path) opaque_part u1 in
    if is_abs_path || is_opaque_path
    then (true, set_part Part.path u.uri.read_pos u2)
    else (false, rewind u.uri.read_pos u2)

unfoldable pub relative_uri : Uriaa → Bool × Uriaa
relative_uri u =
    let (is_net_path, u1) = net_path u in
    let (is_abs_path, u2) = when (not is_net_path) abs_path u1 in
    let (is_rel_path, u3) = when (not (is_net_path || is_abs_path)) rel_path u2 in
    let (question, u4) = uri_is_char b'?' u3 in
    let (_, u5) = when question query u4 in
    if is_net_path || is_abs_path || is_rel_path
    then (true, u5)
    else (false, rewind u.uri.read_pos u5)

-- The branch of `absoluteURI` behind a scheme: `:` and the rest, or the scheme is taken back.
unfoldable pub after_scheme : Uriaa → Bool × Uriaa
after_scheme u =
    let (colon, u1) = uri_is_char b':' u in
    if colon
    then (let (is_hier_part, u2) = hier_part u1 in
        let (is_opaque_part, u3) = when (not is_hier_part) opaque_part u2 in
        (is_hier_part || is_opaque_part, u3))
    else (false, unset_part Part.scheme u1)

unfoldable pub absolute_uri : Uriaa → Bool × Uriaa
absolute_uri u =
    let (has_scheme, u1) = scheme u in
    let (is_absolute_uri, u2) = when has_scheme after_scheme u1 in
    if is_absolute_uri then (true, u2) else (false, rewind u.uri.read_pos u2)

unfoldable pub uri_reference : Uriaa → Bool × Uriaa
uri_reference u =
    let (is_absolute_uri, u1) = absolute_uri u in
    let (is_relative_uri, u2) = when (not is_absolute_uri) relative_uri u1 in
    let (hash, u3) = uri_is_char b'#' u2 in
    let (is_fragment, u4) = when hash fragment u3 in
    if is_absolute_uri || is_relative_uri || is_fragment
    then (true, u4)
    else (false, rewind u.uri.read_pos u4)

unfoldable pub check_url : Uriaa → Bool × Uriaa
check_url u =
    if (elim u.uri.buf [ none ↦ false | some l ↦ true ]) && ltb 0 u.uri.write_pos && u.uri.is_init
    then uri_reference u
    else (false, u)
