-- ===== src/Http/Fields/Entity.antt =====
-- http/httpaa.h: the rules of the values of the entity headers.
use httpaa.Base.{ℕ, zero, suc, ◌+◌, Bool, true, false, not, if◌then◌else◌, ◌==◌}
use httpaa.Stringaa.Defs.{get_char, is_char}
use httpaa.Http.Chars.{digit, sp}
use httpaa.Http.Keyword.{lower}
use httpaa.Http.Lexer.{token, lws, skip_all}
use httpaa.Http.Arrays.{method_array}
use httpaa.Http.Rule.{
  Rule, Partial, times, ◌&◌, either, back, accept, one_of, ends, ◌&?◌, refuse?, forever, read,
}
use httpaa.Http.Dates.{is, date}
use httpaa.Http.Fields.{parameter}
use httpaa.Http.Fields.Request.{bytes_unit, content_coding, language_digits}

-- The loop, with the flag that a method has been read; every round reads one.
unfoldable pub allow_loop : ℕ → Bool → Rule
unfolding one_of
allow_loop zero found s = (found, s)
allow_loop (suc fuel) found s =
    let (is_method, s1) = one_of lower method_array s in
    elim is_method [
      | true ↦
          let s2 = (lws s1).1 in let s3 = (is_char s2 b',').1 in allow_loop fuel true (lws s3).1
      | false ↦ (found, s1)
    ]

unfoldable pub header_allow : Rule
unfolding back allow_loop
header_allow s = back (allow_loop (s.write_pos + 1) false) s

unfoldable pub header_content_encoding : ℕ → Partial
unfolding forever ends content_coding
header_content_encoding fuel = forever fuel (ends content_coding)

unfoldable pub language_tag : Rule
unfolding times language_digits
language_tag s =
    if (times 8 digit s).1.read_pos == s.read_pos
    then (false, record ((times 8 digit s).1) { read_pos = s.read_pos })
    else (true, (language_digits s).1)

unfoldable pub header_content_language : ℕ → Partial
unfolding forever ends language_tag
header_content_language fuel = forever fuel (ends language_tag)

-- Digits, and whether there was one.
unfoldable pub digits : Rule
digits s = let s1 = skip_all digit s in (not (s1.read_pos == s.read_pos), s1)

unfoldable pub header_content_length : Rule
unfolding digits
header_content_length = digits

-- The rules are tried on an empty structure, and not on the request.
unfoldable pub header_content_location : Rule
header_content_location s = (false, s)

unfoldable pub header_content_md5 : Rule
header_content_md5 s = (false, s)

-- The length behind the slash does not decide.
unfoldable pub content_range_length : Rule
unfolding accept ◌&◌ either digits
content_range_length = accept (is b'/' & either (is b'*') digits)

-- The character that has to be a space is the one that the value begins with.
unfoldable pub content_range_from : ℕ → Rule
unfolding ◌&◌ either digits content_range_length bytes_unit
content_range_from c s =
    let (is_bytes, s1) = bytes_unit s in
    if is_bytes
    then (if sp c
        then (read (λ x. true)
              & either (is b'*') (digits & is b'-' & digits)
              & content_range_length)
            s1
        else (false, s1))
    else (false, s1)

unfoldable pub header_content_range : Rule
unfolding back content_range_from
header_content_range s = back (content_range_from (get_char s)) s

unfoldable pub media_type : ℕ → Partial
unfolding ◌&?◌ ends ◌&◌ forever parameter
media_type fuel =
    refuse? (ends (token & is b'/' & token) &? forever fuel (ends (is b';') &? parameter fuel))

unfoldable pub header_content_type : ℕ → Partial
unfolding media_type
header_content_type fuel = refuse? (media_type fuel)

unfoldable pub header_expires : Rule
unfolding date
header_expires = date

unfoldable pub header_last_modified : Rule
unfolding date
header_last_modified = date
