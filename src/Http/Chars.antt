-- ===== src/Http/Chars.antt =====
-- http/httpaa_definitions.h: the classes of characters. A byte is a number below 256; one from 128
-- on, which is negative as a `char`, is in none of them.
use httpaa.Base.{ℕ, Bool, ◌||◌, ◌&&◌, leb, ◌==◌}

abbrev pub char : ℕ → Bool
char c = leb c 127

abbrev pub digit : ℕ → Bool
digit c = leb b'0' c && leb c b'9'

abbrev pub ctl : ℕ → Bool
ctl c = leb c 31 || c == 127

abbrev pub cr : ℕ → Bool
cr c = c == 13

abbrev pub lf : ℕ → Bool
lf c = c == 10

abbrev pub sp : ℕ → Bool
sp c = c == 32

abbrev pub ht : ℕ → Bool
ht c = c == 9

abbrev pub separators : ℕ → Bool
separators c =
    c == b'('
    || c == b')'
    || c == b'<'
    || c == b'>'
    || c == b'@'
    || c == b','
    || c == b';'
    || c == b':'
    || c == b'\\'
    || c == b'"'
    || c == b'/'
    || c == b'['
    || c == b']'
    || c == b'?'
    || c == b'='
    || c == b'{'
    || c == b'}'
    || sp c
    || ht c
