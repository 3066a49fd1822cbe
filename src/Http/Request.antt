-- ===== src/Http/Request.antt =====
-- http/httpaa.h and http/httpaa_utils.h: a request, and the test that its header is complete.
use httpaa.Base.{ℕ, zero, suc, true, false, Option, none, some, if◌then◌else◌}
use httpaa.Stringaa.Defs.{Stringaa, begin_read_pos}
use httpaa.Http.Lexer.{crlf, find_crlf}
use httpaa.Http.Defs.{Httpaa}
use httpaa.Http.RequestLine.{Parsed, request_line}
use httpaa.Http.Header.{general_header, request_header, entity_header}

-- `A || B || C` on the three kinds of headers of a request.
abbrev pub or_parse : Parsed → (Httpaa → Stringaa → Parsed) → Parsed
or_parse (true, http, s) rule = (true, http, s)
or_parse (false, http, s) rule = rule http s

unfoldable pub any_header : Httpaa → Stringaa → Parsed
any_header http s = or_parse (or_parse (general_header http s) request_header) entity_header

-- The loop of `http11_request` on fuel: a round reads a header line, or ends. `none` says that it
-- has not ended within the fuel. `http11_message_body` reads nothing.
unfoldable pub headers_loop : ℕ → Httpaa → Stringaa → Option Parsed
headers_loop zero http s = none
headers_loop (suc fuel) http s =
    let (is_header, http1, s1) = any_header http s in
    elim is_header [
      | true ↦
          let (is_crlf, s2) = crlf s1 in
          elim is_crlf [ true ↦ headers_loop fuel http1 s2 | false ↦ some (false, http1, s2) ]
      | false ↦
          let (is_crlf, s2) = crlf s1 in
          elim is_crlf [
            | true ↦ some (true, http1, s2)
            | false ↦
                let (is_find, s3) = find_crlf s2 in
                elim is_find [
                  | true ↦ headers_loop fuel http1 (crlf s3).1
                  | false ↦ some (false, http1, s3)
                ]
          ]
    ]

abbrev pub request_headers : ℕ → Parsed → Option Parsed
request_headers fuel (true, http, s) = headers_loop fuel http s
request_headers fuel (false, http, s) = some (false, http, s)

unfoldable pub request : ℕ → Httpaa → Stringaa → Option Parsed
request fuel http s = request_headers fuel (request_line http s)

abbrev pub parsed_end : ℕ → Option Parsed → Option Parsed
parsed_end pos none = none
parsed_end pos (some (true, http, s)) = some (true, http, s)
parsed_end pos (some (false, http, s)) = some (false, http, record s { read_pos = pos })

-- `httpaa_parse_request_headers`: it looks for two line ends first.
unfoldable pub parse_request_headers : ℕ → Httpaa → Stringaa → Option Parsed
parse_request_headers fuel http s =
    let (first, s1) = find_crlf s in
    if first
    then (let s2 = (crlf s1).1 in
        let (second, s3) = find_crlf s2 in
        if second
        then parsed_end s.read_pos (request fuel http (begin_read_pos s3).1)
        else some (false, http, record s3 { read_pos = s.read_pos }))
    else some (false, http, record s1 { read_pos = s.read_pos })
