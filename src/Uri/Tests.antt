-- ===== src/Uri/Tests.antt =====
-- The URI rules at concrete inputs.
use httpaa.Base.{
  false, ℕ, true, List, [], ◌∷◌, ◌++◌, some, ◌≡◌, refl, length, take, arith, codes, zero, replicate,
  Option, none,
}
use mathlib.Core.Bool.{false≢true}
use httpaa.Stringaa.Defs.{
  Stringaa, zeroed, bytes, rest, Readable, next_read_pos, get_char, is_char, next_write_pos,
  begin_read_pos, begin_write_pos,
}
use httpaa.Stringaa.Store.{malloc_buf, set_char}
use httpaa.Uri.Escape.{
  escape, unescape, escape_char, unescape_char, Unescaped, unescape_loop, unescape_round, put_char,
}
use httpaa.Uri.Escaped.{escape_lem, escape_fault}
use httpaa.Uri.Unescaped.{unescape_lem, unescape_char-escape_char}
use httpaa.Uri.Chars.{unreserved_chars, pchar_extra}
use httpaa.Uri.Defs.{
  Uriaa, Part, with_escaped, set_part, unset_part, rewind, uri_is_char, escaped, pchar_chars,
  userinfo_chars, reg_name_chars, rel_segment_chars, uric_no_slash_chars, uric_chars, scan,
  scan_all, scan_more, uri_scan_all, uri_scan_from,
}
use httpaa.Uri.Path.{
  param, params_loop, segment, segments_loop, path_segments, abs_path, rel_segment, rel_path,
}
use httpaa.Uri.Host.{
  port, label_loop, domainlabel, toplabel, labels_loop, hostname, octets_loop, ipv4_address, host,
  hostport, userinfo, set_userinfo, server, reg_name, authority,
}
use httpaa.Uri.Reference.{
  scheme, query, fragment, opaque_part, net_path, hier_part, path, relative_uri, after_scheme,
  absolute_uri, uri_reference, check_url,
}
use httpaa.Uri.Scan.Spans.{scan_all-spans}
use httpaa.Uri.Frame.{Within, Kept}
use httpaa.Uri.Frame.Reference.{check_url-Keeps}

-- A string that is linked to these bytes.
abbrev linked : List ℕ → Stringaa
linked l = record zeroed { buf = some l; buf_size = length l; write_pos = length l; is_init = true }

abbrev of_bytes : List ℕ → Uriaa
of_bytes l = record { uri = linked l; parts = λ k. zeroed }

abbrev value : Uriaa → Part → List ℕ
value u k = let s = u.parts k in take s.write_pos (bytes s)

-- The parts of a URI.
abbrev example : List ℕ
example = codes "http://me@ab.cd:80/a/b?q#f"

abbrev parsed : Uriaa
parsed = (check_url (of_bytes example)).1

parsed-parts :
    (value parsed Part.scheme ≡ codes "http")
    × (value parsed Part.userinfo ≡ codes "me")
    × (value parsed Part.host ≡ codes "ab.cd")
    × (value parsed Part.port ≡ codes "80")
    × (value parsed Part.abs_path ≡ codes "/a/b")
    × (value parsed Part.query ≡ codes "q")
    × (value parsed Part.fragment ≡ codes "f")
unfolding set_part unset_part rewind uri_is_char escaped pchar_chars userinfo_chars reg_name_chars
    rel_segment_chars uric_no_slash_chars uric_chars scan scan_all scan_more uri_scan_all
    uri_scan_from param params_loop segment segments_loop path_segments abs_path rel_segment
    rel_path port label_loop domainlabel toplabel labels_loop hostname octets_loop ipv4_address host
    hostport userinfo set_userinfo server reg_name authority scheme query fragment opaque_part
    net_path hier_part path relative_uri after_scheme absolute_uri uri_reference check_url
    next_read_pos get_char is_char
parsed-parts = (refl, refl, refl, refl, refl, refl, refl)

linked-Readable : (l : List ℕ) → Readable (linked l)
linked-Readable l = record { read_in = omega arith; write_in = omega arith }

of_bytes-Within : (l : List ℕ) → Within (of_bytes l)
of_bytes-Within l = record { cursor = omega arith; slices = λ k e. absurd (false≢true e) }

check_url-Keeps_example : Kept (of_bytes example) (check_url (of_bytes example)).1
check_url-Keeps_example = check_url-Keeps (of_bytes example) (of_bytes-Within example)

scan_all-spans_example :
    (rest (scan_all (with_escaped unreserved_chars pchar_extra) (linked (codes "a%20 b/c")))
      ≡ codes "/c")
    × Readable (scan_all (with_escaped unreserved_chars pchar_extra) (linked (codes "a%20 b/c")))
scan_all-spans_example =
    scan_all-spans unreserved_chars pchar_extra (linked (codes "a%20 b/c")) refl refl
      (linked-Readable (codes "a%20 b/c"))

-- The slash is read as a part of the segment.
-- Memory without bounds, filled with zeros.
abbrev memory : ℕ → Option (List ℕ)
memory n = some (replicate n zero)

-- A string with a zero behind it.
abbrev ended : List ℕ → Stringaa
ended l = record (linked l) { buf = some (l ++ 0 ∷ []) }

-- The last digit of a string that is escaped as a whole is lost.
escape_lem_example :
    (out uri : Stringaa) × (escape memory zeroed (ended (codes " <")) false ≡ some (out, uri))
    × (take out.write_pos (bytes out) ≡ codes "%20%3")
unfolding escape_char
escape_lem_example =
    escape_lem memory zeroed (ended (codes " <")) false (replicate 6 zero) refl (omega arith)
      (omega arith) refl

escape_fault_example : escape memory zeroed (linked (codes " <")) false ≡ none
escape_fault_example =
    escape_fault memory zeroed (linked (codes " <")) false (replicate 6 zero) refl (omega arith)
      refl refl

-- The last byte of a string without escaped characters is lost.
unescape_lem_example :
    (out s : Stringaa) × (unescape memory zeroed (linked (codes "abc")) false ≡ some (true, out, s))
    × (take out.write_pos (bytes out) ≡ codes "ab")
unescape_lem_example =
    unescape_lem memory zeroed (linked (codes "abc")) false (replicate 3 zero) refl (omega arith)
      (omega arith) (omega arith, (omega arith, (omega arith, tt))) refl

unescape_char-escape_char_example : unescape_char (escape_char 200).0 (escape_char 200).1 ≡ some 200
unescape_char-escape_char_example = unescape_char-escape_char 200 (omega arith)

-- Of `%41`, the second digit is written, and not the `A` that it stands for.
abbrev unescaped : Unescaped → List ℕ
unescaped none = []
unescaped (some (flag, out, s)) = take out.write_pos (bytes out)

unescape-digit : unescaped (unescape memory zeroed (linked (codes "%41b")) false) ≡ codes "1b"
unfolding unescape unescape_loop unescape_round unescape_char put_char set_char next_write_pos
    next_read_pos begin_read_pos begin_write_pos malloc_buf get_char
unescape-digit = refl
