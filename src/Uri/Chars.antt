-- ===== src/Uri/Chars.antt =====
-- url/uriaa_rfc2396.h: the classes of characters that are macros there. A byte is a number below
-- 256; one from 128 on, which is negative as a `char`, is in no class.
use httpaa.Base.{ℕ, Bool, ◌&&◌, ◌||◌, leb, ◌==◌}

abbrev pub digit_chars : ℕ → Bool
digit_chars c = leb b'0' c && leb c b'9'

abbrev pub lowalpha_chars : ℕ → Bool
lowalpha_chars c = leb b'a' c && leb c b'z'

abbrev pub upalpha_chars : ℕ → Bool
upalpha_chars c = leb b'A' c && leb c b'Z'

abbrev pub alpha_chars : ℕ → Bool
alpha_chars c = lowalpha_chars c || upalpha_chars c

abbrev pub alphanum_chars : ℕ → Bool
alphanum_chars c = alpha_chars c || digit_chars c

abbrev pub hex_chars : ℕ → Bool
hex_chars c = digit_chars c || ((leb b'A' c && leb c b'F') || (leb b'a' c && leb c b'f'))

abbrev pub mark_chars : ℕ → Bool
mark_chars c =
    c == b'-'
    || c == b'_'
    || c == b'.'
    || c == b'!'
    || c == b'~'
    || c == b'*'
    || c == b'\''
    || c == b'('
    || c == b')'

abbrev pub unreserved_chars : ℕ → Bool
unreserved_chars c = alphanum_chars c || mark_chars c

abbrev pub reserved_chars : ℕ → Bool
reserved_chars c =
    c == b';'
    || c == b'/'
    || c == b'?'
    || c == b':'
    || c == b'@'
    || c == b'&'
    || c == b'='
    || c == b'+'
    || c == b'$'
    || c == b','

-- What PCHAR_CHARS, USERINFO_CHARS, REG_NAME_CHARS, REL_SEGMENT_CHARS and URIC_NO_SLASH_CHARS add
-- to the unreserved and the escaped characters.
abbrev pub pchar_extra : ℕ → Bool
pchar_extra c =
    c == b':' || c == b'@' || c == b'&' || c == b'=' || c == b'+' || c == b'$' || c == b','

abbrev pub userinfo_extra : ℕ → Bool
userinfo_extra c =
    c == b';' || c == b':' || c == b'&' || c == b'=' || c == b'+' || c == b'$' || c == b','

abbrev pub reg_name_extra : ℕ → Bool
reg_name_extra c =
    c == b'$'
    || c == b','
    || c == b';'
    || c == b':'
    || c == b'@'
    || c == b'&'
    || c == b'='
    || c == b'+'

abbrev pub rel_segment_extra : ℕ → Bool
rel_segment_extra c =
    c == b';' || c == b'@' || c == b'&' || c == b'=' || c == b'+' || c == b'$' || c == b','

abbrev pub uric_no_slash_extra : ℕ → Bool
uric_no_slash_extra c =
    c == b';'
    || c == b'?'
    || c == b':'
    || c == b'@'
    || c == b'&'
    || c == b'='
    || c == b'+'
    || c == b'$'
    || c == b','

abbrev pub scheme_chars : ℕ → Bool
scheme_chars c = alpha_chars c || digit_chars c || c == b'+' || c == b'-' || c == b'.'

-- The characters that are escaped.
abbrev pub control_chars : ℕ → Bool
control_chars c = leb c 0x1f || c == 0x7f

abbrev pub space_chars : ℕ → Bool
space_chars c = c == 0x20

abbrev pub delims_chars : ℕ → Bool
delims_chars c = c == b'<' || c == b'>' || c == b'#' || c == b'%' || c == b'"'

abbrev pub unwise_chars : ℕ → Bool
unwise_chars c =
    c == b'{'
    || c == b'}'
    || c == b'|'
    || c == b'\\'
    || c == b'^'
    || c == b'['
    || c == b']'
    || c == b'`'
