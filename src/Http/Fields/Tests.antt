-- ===== src/Http/Fields/Tests.antt =====
-- http/httpaa.h: the rules of the header values at concrete strings.
use httpaa.Base.{
  ℕ, ◌≡◌, ◌⊎◌, refl, true, false, Bool, List, [], some, length, take, map, codes, arith,
}
use httpaa.Stringaa.Defs.{
  Stringaa, zeroed, rest, get_char, next_read_pos, is_char, to_lower, to_upper,
}
use httpaa.Http.Keyword.{match_words, match_word, upper, lower}
use httpaa.Http.Lexer.{token, skip_all, skip_while}
use httpaa.Stringaa.Rests.{Rests}
use httpaa.Stringaa.Moved.{Moved}
use httpaa.Http.Rule.{flag?}
use httpaa.Http.Dates.{any_case, wkday, date}
use httpaa.Http.Dates.Known.{Known, Missed, Missed_lem}
use httpaa.Http.Dates.Written.{date-Reads}
use httpaa.Http.Dates.Kept.{date_lem}
use httpaa.Http.Fields.{message_field, delta_seconds}
use httpaa.Http.Fields.Response.{header_age}
use httpaa.Http.Fields.Request.{qvalue, header_range}
use httpaa.Http.Fields.Entity.{
  header_allow, header_content_range, header_content_length, language_tag,
}
use httpaa.Http.Fields.Refused.{refused_lem}

abbrev value : List ℕ → Stringaa
value l = record zeroed { buf = some l; buf_size = length l; write_pos = length l; is_init = true }

abbrev left : Bool × Stringaa → Bool × List ℕ
left (found, s) = (found, rest s)

value-Rests : (l : List ℕ) → take (length l) l ≡ l → Rests (value l) l
value-Rests l e = record {
  left = e;
  readable = record { read_in = omega arith; write_in = omega arith };
}

date_read : left (date (value (codes "Fri, 31 Dec 1999 23:59:59 GMT,"))) ≡ (true, codes ",")
unfolding date match_words match_word any_case to_lower to_upper upper get_char next_read_pos
    is_char
date_read = refl

rfc850_read : left (date (value (codes "Monday, 06-Nov-94 08:49:37 GMT"))) ≡ (true, [])
unfolding date match_words match_word any_case to_lower to_upper upper get_char next_read_pos
    is_char
rfc850_read = refl

-- RFC 2616 has this date as an example.
rfc850_sunday : (date (value (codes "Sunday, 06-Nov-94 08:49:37 GMT"))).0 ≡ false
unfolding date match_words match_word any_case to_lower to_upper upper get_char next_read_pos
    is_char
rfc850_sunday = refl

asctime_read : left (date (value (codes "Mon Nov  6 08:49:37 1994"))) ≡ (true, [])
unfolding date match_words match_word any_case to_lower to_upper upper get_char next_read_pos
    is_char
asctime_read = refl

-- A day with two digits is refused.
asctime_two_digits : (date (value (codes "Mon Nov 16 08:49:37 1994"))).0 ≡ false
unfolding date match_words match_word any_case to_lower to_upper upper get_char next_read_pos
    is_char
asctime_two_digits = refl

qvalue_read : left (qvalue (value (codes "0.875;"))) ≡ (true, codes ";")
unfolding qvalue get_char next_read_pos is_char
qvalue_read = refl

content_length_read : left (header_content_length (value (codes "1024 "))) ≡ (true, codes " ")
unfolding header_content_length skip_all skip_while get_char next_read_pos
content_length_read = refl

-- The position becomes the value of the byte.
field_lost :
    message_field 9 (value (codes " a"))
    ≡ some (false, record (value (codes " a")) { read_pos = 32 })
unfolding message_field token get_char next_read_pos
field_lost = refl

-- Letters are not looked for.
language_refused : (language_tag (value (codes "en"))).0 ≡ false
unfolding language_tag get_char
language_refused = refl

range_refused :
    header_range (value (codes "bytes=0-9"))
    ≡ some (false, record (value (codes "bytes=0-9")) { read_pos = 9 })
unfolding header_range flag? match_word lower to_lower get_char next_read_pos is_char
range_refused = refl

fri_lower : map to_lower (codes "Fri") ≡ codes "fri"
unfolding to_lower
fri_lower = refl

dec_lower : map to_lower (codes "Dec") ≡ codes "dec"
unfolding to_lower
dec_lower = refl

thu_lower : map to_lower (codes "Thu") ≡ codes "thu"
unfolding to_lower
thu_lower = refl

date-Reads_example :
    (s' : Stringaa) × (date (value (codes "Fri, 31 Dec 1999 23:59:59 GMT,")) ≡ (true, s'))
    × Rests s' (codes ",")
date-Reads_example =
    date-Reads (codes "Fri") (codes "fri") (codes "31") (codes "Dec") (codes "dec") (codes "1999")
      (codes "23") (codes "59") (codes "59") Known.fri fri_lower (refl, (refl, (refl, tt)))
      Known.dec dec_lower (refl, (refl, (refl, (refl, (refl, tt))))) (refl, (refl, (refl, tt)))
      (refl, (refl, (refl, tt))) (refl, (refl, (refl, tt))) (codes ",")
      (value (codes "Fri, 31 Dec 1999 23:59:59 GMT,"))
      (value-Rests (codes "Fri, 31 Dec 1999 23:59:59 GMT,") refl)

Missed_lem_example : (wkday (value (codes "Thu, 01 Jan"))).0 ≡ false
Missed_lem_example =
    Missed_lem wkday (codes "thu") (codes "Thu") (codes ", 01 Jan") (value (codes "Thu, 01 Jan"))
      Missed.thu thu_lower (value-Rests (codes "Thu, 01 Jan") refl)

abbrev no_date : Stringaa
no_date = value (codes "Fri, 31 Dec 1999")

date_lem_example :
    Moved no_date (date no_date).1 × (((date no_date).0 ≡ true) ⊎ ((date no_date).1.read_pos ≡ 0))
date_lem_example = date_lem no_date (omega arith)

abbrev methods : Stringaa
methods = value (codes "GET, HEAD")

refused_lem_example :
    (header_allow methods ≡ (false, methods))
    × ((header_content_range methods).0 ≡ false)
    × ((delta_seconds methods).0 ≡ false)
    × ((header_age methods).0 ≡ false)
refused_lem_example = refused_lem methods
