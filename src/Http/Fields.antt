-- ===== src/Http/Fields.antt =====
-- http/httpaa.h: the rules of the values of the general headers. `fuel` bounds the loop of a quoted
-- string and the loops that no `break` leaves; `none` says that it is used up.
pub mod Request
pub mod Response
pub mod Entity
pub mod Refused
mod Tests
use httpaa.Base.{
  ℕ, zero, suc, Bool, true, false, List, [], ◌∷◌, Option, none, some, if◌then◌else◌, ◌==◌, ◌||◌,
  codes, get_or,
}
use httpaa.Stringaa.Defs.{Stringaa, get_char, next_read_pos, is_char, bytes}
use httpaa.Http.Chars.{digit, sp}
use httpaa.Http.Keyword.{lower, match_words}
use httpaa.Http.Lexer.{token, lws, ctext, quoted_pair, quoted_string, text, skip_all}
use httpaa.Http.Arrays.{
  cache_request_directive_array, cache_response_directive_array, pragma_directive_array,
  transfer_coding_array,
}
use httpaa.Http.Rule.{
  Rule, Partial, read, times, ◌&◌, either, back, refuse, accept, one_of, word, ends, ◌&?◌, either?,
  back?, refuse?, accept?, forever,
}
use httpaa.Http.Dates.{is, date}

-- A token, for the name of a header. It moves nothing where it fails.
unfoldable pub field_name : Rule
unfolding back
field_name = back token

-- The round of the loop in `http11_field_content`.
unfoldable pub content_round : ℕ → Partial
unfolding either? ends
content_round fuel = either? (ends text) (either? (ends token) (quoted_string fuel))

unfoldable pub field_content : ℕ → Partial
unfolding forever content_round
field_content fuel = forever fuel (content_round fuel)

-- The loop of `http11_field_value` ends only where `field_content` does.
unfoldable pub field_value_loop : ℕ → Bool → Partial
unfolding field_content
field_value_loop zero found s = none
field_value_loop (suc fuel) found s =
    let (is_lws, s1) = lws s in
    elim is_lws [
      | true ↦ field_value_loop fuel true s1
      | false ↦ elim (field_content fuel s1) [
        | none ↦ none
        | some (true, s2) ↦ field_value_loop fuel true s2
        | some (false, s2) ↦ some (found, s2)
      ]
    ]

unfoldable pub field_value : ℕ → Partial
unfolding field_value_loop back?
field_value fuel = back? (field_value_loop fuel false)

-- `pos` is the byte at the read position (below 128, since a `char` has a sign), and not the position;
-- the flag is never set.
unfoldable pub message_field : ℕ → Partial
unfolding field_name field_value ends ◌&?◌
message_field fuel s =
    let pos = get_or (bytes s) s.read_pos 0 in
    elim ((ends field_name &? ends (is b':') &? field_value fuel) s) [
      | none ↦ none
      | some (found, s1) ↦ some (false, record s1 { read_pos = pos })
    ]

-- The digits are read, and the flag is not set.
unfoldable pub delta_seconds : Rule
delta_seconds s = (false, skip_all digit s)

-- `=` and a number of seconds, neither of which has to be there.
abbrev pub seconds_value : Stringaa → Stringaa
seconds_value s = ((is b'=' & delta_seconds) s).1

-- An element of a list, with blanks and a comma, all of them optional.
unfoldable pub element : Partial → Partial
unfolding accept ends ◌&?◌
element p = accept? p &? ends (accept lws) &? ends (accept (is b',')) &? ends (accept lws)

-- Behind a directive with a number of seconds: max-age, max-stale, min-fresh.
abbrev pub request_directive_value : Option ℕ → Stringaa → Stringaa → Bool × Stringaa
request_directive_value none s s1 = (false, record s1 { read_pos = s.read_pos })
request_directive_value (some i) s s1 =
    (true, if (i == 2) || (i == 3) || (i == 4) then seconds_value s1 else s1)

unfoldable pub cache_request_directive : Rule
unfolding delta_seconds
cache_request_directive s =
    let (found, s1) = match_words lower cache_request_directive_array 0 s in
    request_directive_value found s s1

-- The names in quotes behind `private` and `no-cache`, a loop that no `break` leaves.
unfoldable pub quoted_names : ℕ → Partial
unfolding forever element field_name ends ◌&?◌
quoted_names fuel = ends (is b'=') &? ends (is b'"') &? forever fuel (element (ends field_name))

abbrev pub response_directive_value : ℕ → Option ℕ → Stringaa → Stringaa → Option (Bool × Stringaa)
response_directive_value fuel none s s1 = some (false, record s1 { read_pos = s.read_pos })
response_directive_value fuel (some i) s s1 =
    if (i == 1) || (i == 2)
    then accept? (quoted_names fuel) s1
    else some (true, if (i == 7) || (i == 8) then seconds_value s1 else s1)

unfoldable pub cache_response_directive : ℕ → Partial
unfolding quoted_names delta_seconds
cache_response_directive fuel s =
    let (found, s1) = match_words lower cache_response_directive_array 0 s in
    response_directive_value fuel found s s1

unfoldable pub cache_directive : ℕ → Partial
unfolding either? ends cache_request_directive cache_response_directive
cache_directive fuel = either? (ends cache_request_directive) (cache_response_directive fuel)

unfoldable pub header_cache_control : ℕ → Partial
unfolding forever element cache_directive
header_cache_control fuel = forever fuel (element (cache_directive fuel))

unfoldable pub header_connection : ℕ → Partial
unfolding forever element ends
header_connection fuel = forever fuel (element (ends token))

unfoldable pub header_date : Rule
unfolding date
header_date = date

unfoldable pub extension_pragma : ℕ → Partial
unfolding ends ◌&?◌ accept
extension_pragma fuel =
    refuse? (ends token &? ends (is b'=') &? ends (accept token) &? accept? (quoted_string fuel))

unfoldable pub pragma_directive : ℕ → Partial
unfolding either? ends back? one_of extension_pragma
pragma_directive fuel =
    back? (either? (ends (one_of lower pragma_directive_array)) (extension_pragma fuel))

unfoldable pub header_pragma : ℕ → Partial
unfolding forever element pragma_directive
header_pragma fuel = forever fuel (element (pragma_directive fuel))

unfoldable pub header_trailer : ℕ → Partial
unfolding forever element ends field_name
header_trailer fuel = forever fuel (element (ends field_name))

unfoldable pub parameter : ℕ → Partial
unfolding ends ◌&?◌ either?
parameter fuel = refuse? (ends token &? ends (is b'=') &? either? (ends token) (quoted_string fuel))

unfoldable pub transfer_extension : ℕ → Partial
unfolding ends ◌&?◌ parameter
transfer_extension fuel = refuse? (ends token &? ends (is b';') &? parameter fuel)

unfoldable pub transfer_coding : ℕ → Partial
unfolding either? ends back? one_of transfer_extension
transfer_coding fuel =
    back? (either? (ends (one_of lower transfer_coding_array)) (transfer_extension fuel))

unfoldable pub header_transfer_encoding : ℕ → Partial
unfolding forever element transfer_coding
header_transfer_encoding fuel = forever fuel (element (transfer_coding fuel))

unfoldable pub product : Rule
unfolding back ◌&◌ accept
product = back (token & accept (is b'/' & token))

unfoldable pub header_upgrade : ℕ → Partial
unfolding forever element ends product
header_upgrade fuel = forever fuel (element (ends product))

-- A comment, which may hold comments: every loop and every call takes from the fuel.
unfoldable mutual
  pub comment_loop : ℕ → Stringaa → Option Stringaa
  comment_loop zero s = none
  comment_loop (suc fuel) s =
      let (is_ctext, s1) = ctext s in
      elim is_ctext [
        | true ↦ comment_loop fuel s1
        | false ↦
            let (is_quoted_pair, s2) = quoted_pair s1 in
            elim is_quoted_pair [
              | true ↦ comment_loop fuel s2
              | false ↦ elim (comment fuel s2) [
                | none ↦ none
                | some (true, s3) ↦ comment_loop fuel s3
                | some (false, s3) ↦ some s3
              ]
            ]
      ]

  pub comment : ℕ → Partial
  comment zero s = none
  comment (suc fuel) s =
      if get_char s == b'('
      then (elim (comment_loop fuel (next_read_pos s).1) [
        | none ↦ none
        | some s1 ↦ some (
            if get_char s1 == b')'
            then (true, (next_read_pos s1).1)
            else (false, record s1 { read_pos = s.read_pos }))
      ])
      else some (false, record s { read_pos = s.read_pos })

unfoldable pub received_protocol : Rule
unfolding refuse accept ◌&◌
received_protocol = refuse (accept (token & is b'/') & token)

-- `http11_host` and `http11_port` read an empty structure and not the request; neither sets its flag.
unfoldable pub http_host : Rule
http_host s = (false, s)

unfoldable pub http_port : Rule
http_port s = (false, s)

unfoldable pub received_by : Rule
unfolding refuse either ◌&◌ accept http_host http_port
received_by = refuse (either (http_host & accept (is b':' & http_port)) token)

unfoldable pub header_via : ℕ → Partial
unfolding forever ◌&?◌ ends accept received_protocol received_by comment
header_via fuel =
    forever fuel (ends (accept received_protocol) &? ends (accept received_by) &? comment fuel)

unfoldable pub warning_code : Rule
unfolding back ◌&◌ read
warning_code = back (read digit & read digit & read digit)

unfoldable pub warning_agent : Rule
unfolding received_by
warning_agent = received_by

unfoldable pub warning_value : ℕ → Partial
unfolding ends ◌&?◌ ◌&◌ read warning_code warning_agent date
warning_value fuel = refuse? (
    ends (warning_code & read sp & warning_agent & read sp)
    &? quoted_string fuel
    &? ends (read sp & is b'"' & date & is b'"'))

unfoldable pub header_warning : ℕ → Partial
unfolding forever element warning_value
header_warning fuel = forever fuel (element (warning_value fuel))
