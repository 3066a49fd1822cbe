-- ===== src/Http/Fields/Request.antt =====
-- http/httpaa.h: the rules of the values of the request headers.
use httpaa.Base.{ℕ, ◌+◌, true, false, if◌then◌else◌, ◌==◌, codes}
use httpaa.Stringaa.Defs.{get_char, is_char, is_chari}
use httpaa.Http.Chars.{digit}
use httpaa.Http.Keyword.{lower}
use httpaa.Http.Lexer.{token, quoted_string}
use httpaa.Http.Rule.{
  Rule, Partial, read, times_from, times, ◌&◌, either, back, refuse, accept, word, ends, ◌&?◌,
  either?, back?, refuse?, accept?, forever, while_there,
}
use httpaa.Http.Dates.{is, date}
use httpaa.Http.Fields.{
  element, parameter, transfer_extension, product, comment, http_host, http_port,
}

unfoldable pub qvalue : Rule
unfolding back either ◌&◌ accept times
qvalue = back (
    either (is b'0' & accept (is b'.' & times 3 digit))
      (is b'1' & accept (is b'.' & times 3 (◌==◌ b'0'))))

abbrev pub is_q : Rule
is_q s = is_chari s b'q'

-- `;q=` and a quality.
unfoldable pub quality : Rule
unfolding ◌&◌ qvalue
quality = is b';' & is_q & is b'=' & qvalue

-- Where `*/*` fails, what it has read stays read for the next form.
unfoldable pub range_of_media : Rule
unfolding either ◌&◌
range_of_media =
    either (is b'*' & is b'/' & is b'*')
      (either (token & is b'/' & is b'*') (token & is b'/' & token))

unfoldable pub media_range : ℕ → Partial
unfolding back? ◌&?◌ ends range_of_media forever parameter
media_range fuel = back? (ends range_of_media &? forever fuel (ends (is b';') &? parameter fuel))

unfoldable pub accept_extension : ℕ → Partial
unfolding ◌&?◌ ends either?
accept_extension fuel =
    refuse? (ends (is b';' & token & is b'=') &? either? (ends token) (quoted_string fuel))

unfoldable pub accept_params : ℕ → Partial
unfolding ◌&?◌ ends quality forever accept_extension
accept_params fuel = refuse? (ends quality &? forever fuel (accept_extension fuel))

unfoldable pub header_accept : ℕ → Partial
unfolding forever ◌&?◌ media_range accept_params
header_accept fuel = forever fuel (media_range fuel &? accept_params fuel)

-- A rule without a body, as `http11_charset`: it returns 0.
unfoldable pub charset : Rule
charset s = (false, s)

unfoldable pub header_accept_charset : ℕ → Partial
unfolding forever ◌&◌ ends accept either charset quality
header_accept_charset fuel = forever fuel (ends (accept (either charset (is b'*')) & quality))

unfoldable pub content_coding : Rule
content_coding s = (false, s)

unfoldable pub codings : Rule
unfolding refuse either content_coding
codings = refuse (either content_coding (is b'*'))

unfoldable pub header_accept_encoding : ℕ → Partial
unfolding forever ◌&◌ ends codings quality
header_accept_encoding fuel = forever fuel (ends (codings & quality))

-- Both loops look for digits; the second one looks at the character that the first one has stopped at.
unfoldable pub language_digits : Rule
unfolding times times_from
language_digits s =
    let s1 = (times 8 digit s).1 in
    let (dash, s2) = is_char s1 b'-' in
    if dash then (true, (times_from 8 digit (get_char s1) s2).1) else (false, s2)

-- The flag is not set, so the position is always taken back.
unfoldable pub language_range : Rule
unfolding back refuse either language_digits
language_range = back (refuse (either (is b'*') language_digits))

unfoldable pub header_accept_language : ℕ → Partial
unfolding forever ◌&◌ ends language_range quality
header_accept_language fuel = forever fuel (ends (language_range & quality))

unfoldable pub credentials : Rule
credentials s = (false, s)

unfoldable pub header_authorization : Rule
unfolding refuse credentials
header_authorization = refuse credentials

unfoldable pub expect_params : ℕ → Partial
unfolding ◌&?◌ ends either?
expect_params fuel =
    refuse? (ends (is b';' & token & is b'=') &? either? (ends token) (quoted_string fuel))

unfoldable pub expectation_extension : ℕ → Partial
unfolding ◌&?◌ ends either? while_there expect_params
expectation_extension fuel = refuse? (
    ends (token & is b'=')
    &? accept? (either? (ends token) (quoted_string fuel))
    &? while_there fuel (expect_params fuel))

unfoldable pub expectation : ℕ → Partial
unfolding back? either? ends word expectation_extension
expectation fuel =
    back? (either? (ends (word lower (codes "100-continue"))) (expectation_extension fuel))

unfoldable pub header_expect : ℕ → Partial
unfolding forever element expectation
header_expect fuel = forever fuel (element (expectation fuel))

unfoldable pub mailbox : Rule
mailbox s = (false, s)

unfoldable pub header_from : Rule
unfolding refuse mailbox
header_from = refuse mailbox

unfoldable pub header_host : Rule
unfolding ◌&◌ accept http_host http_port
header_host = http_host & accept (is b':' & http_port)

abbrev pub is_weak : Rule
is_weak s = is_chari s b'w'

unfoldable pub entity_tag : ℕ → Partial
unfolding ◌&?◌ ends accept ◌&◌
entity_tag fuel = refuse? (ends (accept (is_weak & is b'/')) &? quoted_string fuel)

unfoldable pub header_if_match : ℕ → Partial
unfolding either? ends forever entity_tag
header_if_match fuel = refuse? (either? (ends (is b'*')) (forever fuel (entity_tag fuel)))

unfoldable pub header_if_modified_since : Rule
unfolding date
header_if_modified_since = date

unfoldable pub header_if_none_match : ℕ → Partial
unfolding either? ends forever entity_tag
header_if_none_match fuel = refuse? (either? (ends (is b'*')) (forever fuel (entity_tag fuel)))

unfoldable pub header_if_range : ℕ → Partial
unfolding either? ends entity_tag date
header_if_range fuel = refuse? (either? (entity_tag fuel) (ends date))

unfoldable pub header_if_unmodified_since : Rule
unfolding refuse date
header_if_unmodified_since = refuse date

unfoldable pub header_max_forwards : Rule
unfolding refuse read
header_max_forwards = refuse (read digit)

unfoldable pub header_proxy_authorization : Rule
unfolding refuse credentials
header_proxy_authorization = refuse credentials

unfoldable pub bytes_unit : Rule
unfolding word
bytes_unit = word lower (codes "bytes")

unfoldable pub byte_range_spec : Rule
unfolding ◌&◌ read
byte_range_spec = read digit & is b'-' & read digit

unfoldable pub suffix_byte_range_spec : Rule
unfolding ◌&◌ read
suffix_byte_range_spec = is b'-' & read digit

-- A round of the loop reads a byte, so there are at most as many as bytes.
unfoldable pub byte_range_set : Partial
unfolding while_there ends either byte_range_spec suffix_byte_range_spec
byte_range_set s =
    refuse? (while_there (s.write_pos + 1) (ends (either byte_range_spec suffix_byte_range_spec))) s

unfoldable pub header_range : Partial
unfolding ◌&?◌ ends ◌&◌ bytes_unit byte_range_set
header_range = ends (bytes_unit & is b'=') &? byte_range_set

unfoldable pub t_codings : ℕ → Partial
unfolding back? either? ends word ◌&?◌ transfer_extension accept_params
t_codings fuel = back? (
    either? (ends (word lower (codes "trailers")))
      (transfer_extension fuel &? accept? (accept_params fuel)))

unfoldable pub header_te : ℕ → Partial
unfolding while_there t_codings
header_te fuel = refuse? (while_there fuel (t_codings fuel))

unfoldable pub header_user_agent : ℕ → Partial
unfolding forever either? ends product comment
header_user_agent fuel = forever fuel (either? (ends product) (comment fuel))
