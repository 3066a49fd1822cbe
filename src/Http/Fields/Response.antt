-- ===== src/Http/Fields/Response.antt =====
-- http/httpaa.h: the rules of the values of the response headers.
use httpaa.Base.{ℕ, ◌+◌, false, codes}
use httpaa.Stringaa.Defs.{zeroed}
use httpaa.Http.Keyword.{lower}
use httpaa.Http.Lexer.{token}
use httpaa.Http.Rule.{
  Rule, Partial, either, back, refuse, word, ends, ◌&?◌, either?, refuse?, accept?, forever,
  while_there,
}
use httpaa.Http.Dates.{is, date}
use httpaa.Http.Fields.{delta_seconds, field_name, product, comment}
use httpaa.Http.Fields.Request.{bytes_unit, entity_tag}
use httpaa.Uri.Defs.{Uriaa}
use httpaa.Uri.Reference.{absolute_uri}

unfoldable pub range_unit : Rule
unfolding back either bytes_unit
range_unit = back (either bytes_unit token)

-- A round of the loop reads a byte, so there are at most as many as bytes.
unfoldable pub header_accept_ranges : Partial
unfolding while_there ends range_unit ◌&?◌ word
header_accept_ranges s =
    (accept? (while_there (s.write_pos + 1) (ends range_unit)) &? ends (word lower (codes "none")))
      s

unfoldable pub header_age : Rule
unfolding delta_seconds
header_age = delta_seconds

unfoldable pub header_etag : ℕ → Partial
unfolding entity_tag
header_etag fuel = refuse? (entity_tag fuel)

-- `struct uri_struct uri = {{0}};`
abbrev pub empty_uri : Uriaa
empty_uri = record { uri = zeroed; parts = λ k. zeroed }

-- The rule is tried on an empty structure, and not on the request.
unfoldable pub header_location : Rule
unfolding absolute_uri
header_location s = ((absolute_uri empty_uri).0, s)

unfoldable pub header_referer : Rule
header_referer s = (false, s)

unfoldable pub challenge : Rule
challenge s = (false, s)

unfoldable pub header_proxy_authenticate : ℕ → Partial
unfolding forever ends challenge
header_proxy_authenticate fuel = forever fuel (ends challenge)

unfoldable pub header_retry_after : Rule
unfolding refuse either date delta_seconds
header_retry_after = refuse (either date delta_seconds)

unfoldable pub header_server : ℕ → Partial
unfolding forever either? ends product comment
header_server fuel = forever fuel (either? (ends product) (comment fuel))

unfoldable pub header_vary : ℕ → Partial
unfolding either? ends while_there field_name
header_vary fuel = refuse? (either? (ends (is b'*')) (while_there fuel (ends field_name)))

unfoldable pub header_www_authenticate : Rule
unfolding refuse challenge
header_www_authenticate = refuse challenge
