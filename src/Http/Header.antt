-- ===== src/Http/Header.antt =====
-- http/httpaa.h: the four functions that look up a header's name in an array, and store its value.
use httpaa.Base.{
  ℕ, ◌+◌, Bool, true, false, ◌&&◌, List, [], ◌∷◌, Option, none, some, ◌==◌, if◌then◌else◌, size_sub,
}
use httpaa.Stringaa.Defs.{Stringaa, next_read_pos, get_char, to_lower}
use httpaa.Stringaa.Store.{set_chars_size}
use httpaa.Uri.Defs.{pointer}
use httpaa.Http.Lexer.{find_crlf}
use httpaa.Http.Arrays.{
  general_header_array, request_header_array, entity_header_array, response_header_array,
  general_header_start, request_header_start, entity_header_start, response_header_start,
}
use httpaa.Http.Defs.{Httpaa, set_header}
use httpaa.Http.RequestLine.{Parsed}

-- The inner loop: a name that ends with the string is not found.
unfoldable pub match_name : List ℕ → Stringaa → Bool × Stringaa
match_name [] s = (true, s)
match_name (p ∷ ps) s =
    if p == to_lower (get_char s)
    then (let (more, s1) = next_read_pos s in if more then match_name ps s1 else (false, s1))
    else (false, s)

-- The outer loop: each name is tried from the position `pos`, and wants a `:` behind it.
unfoldable pub match_names : List (List ℕ) → ℕ → ℕ → Stringaa → Option ℕ × Stringaa
match_names [] i pos s = (none, s)
match_names (name ∷ names) i pos s =
    let (found, s1) = match_name name s in
    elim (found && to_lower (get_char s1) == b':') [
      | true ↦ (some i, s1)
      | false ↦ match_names names (i + 1) pos (record s1 { read_pos = pos })
    ]

-- The value goes from the `:` to the next line end, or to the end of the string.
abbrev pub header_end : Httpaa → ℕ → ℕ → Option ℕ × Stringaa → Parsed
header_end http start pos (none, s) = (false, http, record s { read_pos = pos })
header_end http start pos (some i, s) =
    let (is_crlf, s1) = find_crlf s in
    let size = size_sub (if is_crlf then s1.read_pos else s1.write_pos) s.read_pos in
    let (_, value) = set_chars_size (http.header (start + i)) (pointer s1.buf s.read_pos) size in
    (true, record http { header = set_header http.header (start + i) value }, s1)

unfoldable pub message_header : List (List ℕ) → ℕ → Httpaa → Stringaa → Parsed
message_header names start http request =
    header_end http start request.read_pos (match_names names 0 request.read_pos request)

unfoldable pub general_header : Httpaa → Stringaa → Parsed
general_header = message_header general_header_array general_header_start

unfoldable pub request_header : Httpaa → Stringaa → Parsed
request_header = message_header request_header_array request_header_start

unfoldable pub entity_header : Httpaa → Stringaa → Parsed
entity_header = message_header entity_header_array entity_header_start

unfoldable pub response_header : Httpaa → Stringaa → Parsed
response_header = message_header response_header_array response_header_start
