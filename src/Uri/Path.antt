-- ===== src/Uri/Path.antt =====
-- url/uriaa_rfc2396.h: the rules for paths.
use httpaa.Base.{ℕ, zero, suc, Bool, true, false, if◌then◌else◌}
use httpaa.Uri.Defs.{
  Uriaa, Part, set_part, rewind, uri_is_char, when, pchar_chars, rel_segment_chars, uri_scan_all,
  uri_scan_from,
}

unfoldable pub param : Uriaa → Bool × Uriaa
param u = (true, uri_scan_all pchar_chars u)

-- The second loop of `segment`, on fuel: a round reads a `;`.
unfoldable pub params_loop : ℕ → Uriaa → Uriaa
params_loop zero u = u
params_loop (suc fuel) u =
    let (semicolon, u1) = uri_is_char b';' u in
    elim semicolon [
      | true ↦
          let (is_param, u2) = param u1 in elim is_param [ true ↦ params_loop fuel u2 | false ↦ u2 ]
      | false ↦ u1
    ]

unfoldable pub segment : Uriaa → Bool × Uriaa
segment u = let u1 = uri_scan_all pchar_chars u in (true, params_loop (suc u1.uri.write_pos) u1)

-- The loop of `path_segments`, on fuel: a round reads a `/`.
unfoldable pub segments_loop : ℕ → Uriaa → Uriaa
segments_loop zero u = u
segments_loop (suc fuel) u =
    let (slash, u1) = uri_is_char b'/' u in
    elim slash [
      | true ↦
          let (is_segment, u2) = segment u1 in
          elim is_segment [ true ↦ segments_loop fuel u2 | false ↦ u2 ]
      | false ↦ u1
    ]

unfoldable pub path_segments : Uriaa → Bool × Uriaa
path_segments u =
    let (is_segment, u1) = segment u in
    if is_segment
    then (true, segments_loop (suc u1.uri.write_pos) u1)
    else (false, rewind u.uri.read_pos u1)

unfoldable pub abs_path : Uriaa → Bool × Uriaa
abs_path u =
    let (slash, u1) = uri_is_char b'/' u in
    let (is_path_segments, u2) = when slash path_segments u1 in
    if is_path_segments
    then (true, set_part Part.abs_path u.uri.read_pos u2)
    else (false, rewind u.uri.read_pos u2)

unfoldable pub rel_segment : Uriaa → Bool × Uriaa
rel_segment = uri_scan_from rel_segment_chars rel_segment_chars

unfoldable pub rel_path : Uriaa → Bool × Uriaa
rel_path u =
    let (is_rel_segment, u1) = rel_segment u in
    let (_, u2) = when is_rel_segment abs_path u1 in
    if is_rel_segment
    then (true, set_part Part.rel_path u.uri.read_pos u2)
    else (false, rewind u.uri.read_pos u2)
