-- ===== src/Uri/Frame/Paths.antt =====
-- url/uriaa_rfc2396.h: the rules for paths keep the frame.
use httpaa.Base.{ℕ, zero, suc, Bool, true, false, arith, if◌then◌else◌}
use httpaa.Uri.Chars.{unreserved_chars, pchar_extra, rel_segment_extra}
use httpaa.Uri.Defs.{
  Uriaa, Part, set_part, rewind, uri_is_char, when, pchar_chars, rel_segment_chars, uri_scan_all,
}
use httpaa.Uri.Path.{
  param, params_loop, segment, segments_loop, path_segments, abs_path, rel_segment, rel_path,
}
use httpaa.Uri.Frame.{
  ClassMoves, with_escaped-Moves, Keeps, Keeps-refl, Keeps-trans, Keeps-end, Keeps-when,
  Keeps-rewind, uri_is_char-Keeps, set_part-Keeps, uri_scan_all-Keeps, uri_scan_from-Keeps,
}

pchar_chars-Moves : ClassMoves pchar_chars
unfolding pchar_chars
pchar_chars-Moves = with_escaped-Moves unreserved_chars pchar_extra

rel_segment_chars-Moves : ClassMoves rel_segment_chars
unfolding rel_segment_chars
rel_segment_chars-Moves = with_escaped-Moves unreserved_chars rel_segment_extra

pub param-Keeps : (u : Uriaa) → Keeps u (param u).1
unfolding param
param-Keeps u = uri_scan_all-Keeps pchar_chars pchar_chars-Moves u

params_loop-Keeps : (fuel : ℕ) (u : Uriaa) → Keeps u (params_loop fuel u)
unfolding params_loop
params_loop-Keeps zero u = Keeps-refl u
params_loop-Keeps (suc fuel) u =
    let u1 = (uri_is_char b';' u).1 in
    let u2 = (param u1).1 in
    let one = uri_is_char-Keeps b';' u in
    let two = Keeps-trans u u1 u2 one (param-Keeps u1) in
    let all = Keeps-trans u u2 (params_loop fuel u2) two (params_loop-Keeps fuel u2) in
    λ w. ground (arith, one w, two w, all w)

pub segment-Keeps : (u : Uriaa) → Keeps u (segment u).1
unfolding segment
segment-Keeps u =
    let u1 = uri_scan_all pchar_chars u in
    Keeps-trans u u1 (params_loop (suc u1.uri.write_pos) u1)
      (uri_scan_all-Keeps pchar_chars pchar_chars-Moves u)
      (params_loop-Keeps (suc u1.uri.write_pos) u1)

segments_loop-Keeps : (fuel : ℕ) (u : Uriaa) → Keeps u (segments_loop fuel u)
unfolding segments_loop
segments_loop-Keeps zero u = Keeps-refl u
segments_loop-Keeps (suc fuel) u =
    let u1 = (uri_is_char b'/' u).1 in
    let u2 = (segment u1).1 in
    let one = uri_is_char-Keeps b'/' u in
    let two = Keeps-trans u u1 u2 one (segment-Keeps u1) in
    let all = Keeps-trans u u2 (segments_loop fuel u2) two (segments_loop-Keeps fuel u2) in
    λ w. ground (arith, one w, two w, all w)

pub path_segments-Keeps : (u : Uriaa) → Keeps u (path_segments u).1
unfolding path_segments
path_segments-Keeps u =
    let u1 = (segment u).1 in
    let u2 = segments_loop (suc u1.uri.write_pos) u1 in
    Keeps-end u u2 (rewind u.uri.read_pos u1) (segment u).0 true false
      (Keeps-trans u u1 u2 (segment-Keeps u) (segments_loop-Keeps (suc u1.uri.write_pos) u1))
      (Keeps-rewind u u1 (segment-Keeps u))

-- A rule that has read up to `v` and then sets a field, or goes back to where it began.
pub Keeps-set_or_rewind :
    (k : Part) (u v : Uriaa) (b : Bool)
    → Keeps u v
    → Keeps u
        (if◌then◌else◌ {A = Bool × Uriaa} b
          (true, set_part k u.uri.read_pos v)
          (false, rewind u.uri.read_pos v)).1
Keeps-set_or_rewind k u v b f =
    Keeps-end u (set_part k u.uri.read_pos v) (rewind u.uri.read_pos v) b true false
      (set_part-Keeps k u v f) (Keeps-rewind u v f)

pub Keeps-or_rewind :
    (u v : Uriaa) (b : Bool)
    → Keeps u v
    → Keeps u (if◌then◌else◌ {A = Bool × Uriaa} b (true, v) (false, rewind u.uri.read_pos v)).1
Keeps-or_rewind u v b f =
    Keeps-end u v (rewind u.uri.read_pos v) b true false f (Keeps-rewind u v f)

pub abs_path-Keeps : (u : Uriaa) → Keeps u (abs_path u).1
unfolding abs_path
abs_path-Keeps u =
    let (slash, u1) = uri_is_char b'/' u in
    let (is_path_segments, u2) = when slash path_segments u1 in
    Keeps-set_or_rewind Part.abs_path u u2 is_path_segments
      (Keeps-when u u1 slash path_segments (uri_is_char-Keeps b'/' u) (path_segments-Keeps u1))

pub rel_path-Keeps : (u : Uriaa) → Keeps u (rel_path u).1
unfolding rel_path rel_segment
rel_path-Keeps u =
    let (is_rel_segment, u1) = rel_segment u in
    let u2 = (when is_rel_segment abs_path u1).1 in
    Keeps-set_or_rewind Part.rel_path u u2 is_rel_segment (
      Keeps-when u u1 is_rel_segment abs_path
        (uri_scan_from-Keeps rel_segment_chars rel_segment_chars-Moves rel_segment_chars
          rel_segment_chars-Moves u)
        (abs_path-Keeps u1))
