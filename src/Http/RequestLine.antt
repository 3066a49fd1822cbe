-- ===== src/Http/RequestLine.antt =====
-- http/httpaa.h: the request line: the method, the URI and the version.
use httpaa.Base.{
  ℕ, zero, suc, ◌+◌, ◌-◌, ◌*◌, Bool, true, false, List, [], ◌∷◌, Option, none, some, leb, ltb, ◌==◌,
  if◌then◌else◌, take, drop, codes,
}
use Prim.Native.Nat.{◌%◌}
use httpaa.Stringaa.Defs.{Stringaa, bytes, next_read_pos, get_char}
use httpaa.Stringaa.Store.{Position, set_substring}
use httpaa.Uri.Reference.{check_url}
use httpaa.Http.Chars.{digit, sp}
use httpaa.Http.Lexer.{crlf}
use httpaa.Http.Keyword.{upper, match_word, match_words}
use httpaa.Http.Arrays.{method_array}
use httpaa.Http.Defs.{Httpaa}

-- What a rule returns: its flag, the structure and the request.
abbrev pub Parsed : Type 0
Parsed = Bool × Httpaa × Stringaa

abbrev method_end : Httpaa → ℕ → Option ℕ × Stringaa → Parsed
method_end http pos (none, s) = (false, http, record s { read_pos = pos })
method_end http pos (some i, s) = (true, record http { method = i }, s)

unfoldable pub method : Httpaa → Stringaa → Parsed
method http request = method_end http request.read_pos (match_words upper method_array 0 request)

unfoldable pub request_uri : Httpaa → Stringaa → Parsed
request_uri http request =
    let u = http.request_uri in
    let (_, linked) = set_substring u.uri request Position.read_flag Position.write_flag in
    let (is_url, u1) = check_url (record u { uri = linked }) in
    if is_url
    then (
      true,
      record http {
        request_uri = record u1 { uri = record (u1.uri) { write_pos = u1.uri.read_pos } };
      },
      record request { read_pos = request.read_pos + u1.uri.read_pos },
    )
    else (false, record http { request_uri = u1 }, request)

-- The loop over the digits of a number, on fuel; the number is how many there are.
unfoldable pub digits_loop : ℕ → ℕ → Stringaa → ℕ × Stringaa
digits_loop zero size s = (size, s)
digits_loop (suc fuel) size s = elim (digit (get_char s)) [
  | true ↦ digits_loop fuel (size + 1) (next_read_pos s).1
  | false ↦ (size, s)
]

-- `atoi` on the digits in front of the first other character; a number that is no `int` is not
-- cut to one here.
unfoldable pub atoi_from : ℕ → List ℕ → ℕ
atoi_from n [] = n
atoi_from n (c ∷ cs) = elim (digit c) [ true ↦ atoi_from (n * 10 + (c - b'0')) cs | false ↦ n ]

-- The bits of the `int` that `atoi` makes of a number: `strtol` stops at the largest `long`, of which
-- the low 32 bits are kept. ISO C leaves this undefined where the number is no `int`.
abbrev pub to_int : ℕ → ℕ
to_int n = (if ltb n 9223372036854775807 then n else 9223372036854775807) % 4294967296

-- The number of `size` digits from `pos` on, of which at most 49 are read.
unfoldable pub number_at : Stringaa → ℕ → ℕ → ℕ
number_at s pos size =
    to_int (atoi_from 0 (take (if leb 50 size then 49 else size) (drop pos (bytes s))))

-- One number of the version: where it begins, its size, and the request behind it; `none` if there
-- is no digit.
unfoldable pub version_number : Stringaa → Option (ℕ × ℕ × Stringaa)
version_number s =
    if digit (get_char s)
    then (let (size, s1) = digits_loop (suc s.write_pos) 1 (next_read_pos s).1 in
        some (s.read_pos, size, s1))
    else none

abbrev pub minor_number : Httpaa → ℕ → ℕ → ℕ → Stringaa → Option (ℕ × ℕ × Stringaa) → Parsed
minor_number http pos pos1 size1 s none = (false, http, record s { read_pos = pos })
minor_number http pos pos1 size1 s (some (pos2, size2, s2)) = (
  true,
  record http { major_version = number_at s2 pos1 size1; minor_version = number_at s2 pos2 size2 },
  s2,
)

abbrev pub major_number : Httpaa → ℕ → Stringaa → Option (ℕ × ℕ × Stringaa) → Parsed
major_number http pos s none = (false, http, record s { read_pos = pos })
major_number http pos s (some (pos1, size1, s1)) =
    if get_char s1 == b'.'
    then minor_number http pos pos1 size1 (next_read_pos s1).1 (version_number (next_read_pos s1).1)
    else (false, http, record s1 { read_pos = pos })

unfoldable pub http_version : Httpaa → Stringaa → Parsed
http_version http request =
    let (is_http, s) = match_word upper (codes "HTTP/") request in
    if is_http
    then major_number http request.read_pos s (version_number s)
    else (false, http, record s { read_pos = request.read_pos })

-- A rule behind another one, which has returned its flag.
abbrev pub then_parse : Parsed → (Httpaa → Stringaa → Parsed) → Parsed
then_parse (true, http, s) rule = rule http s
then_parse (false, http, s) rule = (false, http, s)

-- A space.
abbrev pub space_rule : Httpaa → Stringaa → Parsed
space_rule http s = if sp (get_char s) then (true, http, (next_read_pos s).1) else (false, http, s)

abbrev pub crlf_rule : Httpaa → Stringaa → Parsed
crlf_rule http s = let (is_crlf, s1) = crlf s in (is_crlf, http, s1)

abbrev pub or_rewind : ℕ → Parsed → Parsed
or_rewind pos (true, http, s) = (true, http, s)
or_rewind pos (false, http, s) = (false, http, record s { read_pos = pos })

unfoldable pub request_line : Httpaa → Stringaa → Parsed
request_line http request = or_rewind request.read_pos (
    then_parse
      (then_parse
        (then_parse (then_parse (then_parse (method http request) space_rule) request_uri)
          space_rule)
        http_version)
      crlf_rule)
