-- ===== src/Http/Tests.antt =====
-- The HTTP rules at concrete inputs.
use httpaa.Base.{
  ℕ, ◌≡◌, refl, Bool, true, false, List, [], ◌∷◌, ◌++◌, Option, some, none, arith, length, take,
  codes,
}
use httpaa.Stringaa.Defs.{
  Stringaa, zeroed, bytes, rest, Readable, next_read_pos, prev_read_pos, begin_read_pos, get_char,
  is_char, to_upper, to_lower,
}
use httpaa.Stringaa.Store.{set_chars_size, set_substring}
use httpaa.Uri.Defs.{
  set_part, unset_part, rewind, uri_is_char, escaped, pchar_chars, userinfo_chars, reg_name_chars,
  rel_segment_chars, uric_no_slash_chars, uric_chars, scan, scan_all, scan_more, uri_scan_all,
  uri_scan_from,
}
use httpaa.Uri.Path.{
  param, params_loop, segment, segments_loop, path_segments, abs_path, rel_segment, rel_path,
}
use httpaa.Uri.Host.{
  port, label_loop, domainlabel, toplabel, labels_loop, hostname, octets_loop, ipv4_address, host,
  hostport, userinfo, set_userinfo, server, reg_name, authority,
}
use httpaa.Uri.Reference.{
  scheme, query, fragment, opaque_part, net_path, hier_part, path, relative_uri, after_scheme,
  absolute_uri, uri_reference, check_url,
}
use httpaa.Http.Defs.{zeroed_httpaa}
use httpaa.Http.Lexer.{crlf, find_crlf_loop, find_crlf, quoted_string}
use httpaa.Http.Keyword.{upper, match_word, match_words}
use httpaa.Http.Header.{
  match_name, match_names, message_header, general_header, request_header, entity_header,
}
use httpaa.Http.RequestLine.{
  Parsed, method, request_uri, digits_loop, atoi_from, number_at, version_number, http_version,
  request_line,
}
use httpaa.Http.Request.{any_header, headers_loop, request, parse_request_headers}
use httpaa.Http.Lines.{FindResult, find_crlf_lem}
use httpaa.Http.Words.{method_found, method_put}
use httpaa.Http.Quoted.{quoted_string_hangs}
use httpaa.Http.Version.{http_version_lem}
use httpaa.Http.LineMoves.{IsUnset}
use httpaa.Http.Total.{ParsedFrom, parse_request_headers_lem}

abbrev received : List ℕ → Stringaa
received l = record zeroed {
  buf = some l;
  buf_size = length l;
  write_pos = length l;
  is_init = true;
}

received-Readable : (l : List ℕ) → Readable (received l)
received-Readable l = record { read_in = omega arith; write_in = omega arith }

abbrev value : Stringaa → List ℕ
value s = take s.write_pos (bytes s)

abbrev line_end : List ℕ
line_end = 13 ∷ 10 ∷ []

abbrev example : List ℕ
example =
    codes "GET /a?b HTTP/1.1"
    ++ (line_end ++ (codes "Host: x" ++ (line_end ++ (codes "Foo: y" ++ (line_end ++ line_end)))))

-- The method, the two numbers of the version, the URI, and the value of the header `Host`.
abbrev summary : Option Parsed → Option (Bool × ℕ × ℕ × ℕ × List ℕ × List ℕ)
summary none = none
summary (some (flag, http, s)) = some (
  flag,
  http.method,
  http.major_version,
  http.minor_version,
  value http.request_uri.uri,
  value (http.header 26),
)

parse_request_headers-example :
    summary (parse_request_headers 60 zeroed_httpaa (received example))
    ≡ some (true, 1, 1, 1, codes "/a?b", codes ": x")
unfolding next_read_pos prev_read_pos begin_read_pos get_char is_char to_upper to_lower
    set_chars_size set_substring crlf find_crlf_loop find_crlf upper match_word match_words
    match_name match_names message_header general_header request_header entity_header method
    request_uri digits_loop atoi_from number_at version_number http_version request_line any_header
    headers_loop request parse_request_headers set_part unset_part rewind uri_is_char escaped
    pchar_chars userinfo_chars reg_name_chars rel_segment_chars uric_no_slash_chars uric_chars scan
    scan_all scan_more uri_scan_all uri_scan_from param params_loop segment segments_loop
    path_segments abs_path rel_segment rel_path port label_loop domainlabel toplabel labels_loop
    hostname octets_loop ipv4_address host hostport userinfo set_userinfo server reg_name authority
    scheme query fragment opaque_part net_path hier_part path relative_uri after_scheme absolute_uri
    uri_reference check_url
parse_request_headers-example = refl

find_crlf_lem_example :
    FindResult 0
      (received (codes "ab" ++ line_end))
      (some line_end)
      (find_crlf (received (codes "ab" ++ line_end)))
find_crlf_lem_example =
    find_crlf_lem (received (codes "ab" ++ line_end)) (received-Readable (codes "ab" ++ line_end))

method_found_example :
    (s : Stringaa) × (method zeroed_httpaa (received (codes "head /"))
      ≡ (true, record zeroed_httpaa { method = 2 }, s))
    × (rest s ≡ codes " /")
    × Readable s
unfolding to_upper
method_found_example =
    method_found zeroed_httpaa 2 (codes "HEAD") (codes "head") (codes " /")
      (received (codes "head /")) refl (omega arith) refl (received-Readable (codes "head /")) refl

method_put_example :
    method zeroed_httpaa (received (codes "PUT /"))
    ≡ (false, zeroed_httpaa, received (codes "PUT /"))
unfolding to_upper
method_put_example =
    method_put zeroed_httpaa (codes "PUT") (codes " /") (received (codes "PUT /")) refl
      (received-Readable (codes "PUT /")) refl

http_version_lem_example :
    (s : Stringaa) × (http_version zeroed_httpaa (received (codes "http/12.34 "))
      ≡ (true, record zeroed_httpaa { major_version = 12; minor_version = 34 }, s))
    × (rest s ≡ codes " ")
unfolding to_upper
http_version_lem_example =
    http_version_lem zeroed_httpaa (received (codes "http/12.34 ")) (codes "http/") (codes "12")
      (codes "34") (codes " ") (received-Readable (codes "http/12.34 ")) refl refl
      (omega arith, omega arith, (refl, (refl, tt)), omega arith)
      (omega arith, omega arith, (refl, (refl, tt)), omega arith) refl

quoted_string_hangs_example : quoted_string 100 (received (codes "\"a\"")) ≡ none
quoted_string_hangs_example =
    quoted_string_hangs 100 (received (codes "\"a\"")) b'a' (codes "\"")
      (received-Readable (codes "\"a\"")) refl (omega arith) (omega arith) (omega arith)

zeroed_httpaa-IsUnset : IsUnset zeroed_httpaa.request_uri
zeroed_httpaa-IsUnset = record { read_pos = refl; write_pos = refl; parts = λ k. refl }

parse_request_headers_lem_example :
    (r : Parsed) × (parse_request_headers 60 zeroed_httpaa (received example) ≡ some r)
    × ParsedFrom (received example) r
parse_request_headers_lem_example =
    parse_request_headers_lem 60 zeroed_httpaa (received example) (received-Readable example)
      zeroed_httpaa-IsUnset (λ i. refl) (omega arith)
