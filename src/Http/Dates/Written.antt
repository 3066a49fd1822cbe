-- ===== src/Http/Dates/Written.antt =====
-- http/httpaa.h: the dates that are read, and what every rule of a date keeps.
use httpaa.Base.{ℕ, ◌≡◌, refl, List, [], ◌∷◌, ◌++◌, length, map, arith, codes, ◌==◌}
use httpaa.Stringaa.Defs.{next_read_pos, is_char, to_lower, to_upper}
use httpaa.Stringaa.Rests.{next_read_pos-Rests, get_char-Rests}
use httpaa.Http.Chars.{digit, sp}
use httpaa.Http.Keyword.{upper}
use httpaa.Http.Words.{match_word-found}
use httpaa.Http.Rule.{Rule, read, times, ◌&◌, either, word}
use httpaa.Http.Rule.Facts.{
  Reads, read-Reads, and-Reads, back-Reads, either-Reads, times-Reads, AreAll,
}
use httpaa.Http.Dates.{is, wkday, month, time, date1, rfc1123_date, rfc850_date, asctime_date, date}
use httpaa.Http.Dates.Known.{Known, Known-Reads}

-- `n` digits.
abbrev pub Digits : ℕ → List ℕ → Type 0
Digits n w = (length w ≡ n) × AreAll digit w

is-Reads : (c : ℕ) → Reads (is c) (c ∷ [])
unfolding is_char
is-Reads c r s h = (
  (next_read_pos s).1,
  ground (arith, get_char-Rests s (c ∷ r) h),
  next_read_pos-Rests s (c ∷ r) h,
)

gmt-Reads : Reads (word upper (codes "GMT")) (codes "GMT")
unfolding word to_upper
gmt-Reads r s h = match_word-found (codes "GMT") (codes "GMT") r s refl h

-- `HH:MM:SS`
abbrev pub time_text : List ℕ → List ℕ → List ℕ → List ℕ
time_text h m s = (((h ++ codes ":") ++ m) ++ codes ":") ++ s

-- `DD Mon YYYY`
abbrev pub date1_text : List ℕ → List ℕ → List ℕ → List ℕ
date1_text d m y = (((d ++ codes " ") ++ m) ++ codes " ") ++ y

-- `Wkd, DD Mon YYYY HH:MM:SS GMT`
abbrev pub rfc1123_text : List ℕ → List ℕ → List ℕ → List ℕ
rfc1123_text w d t =
    ((((((w ++ codes ",") ++ codes " ") ++ d) ++ codes " ") ++ t) ++ codes " ") ++ codes "GMT"

time-Reads : (h m s : List ℕ) → Digits 2 h → Digits 2 m → Digits 2 s → Reads time (time_text h m s)
unfolding time
time-Reads h m s (a, a') (b, b') (c, c') =
    let two = times 2 digit in
    let colon = read (◌==◌ b':') in
    back-Reads (two & colon & two & colon & two) (time_text h m s) (
      and-Reads (two & colon & two & colon) two (((h ++ codes ":") ++ m) ++ codes ":") s
        (and-Reads (two & colon & two) colon ((h ++ codes ":") ++ m) (codes ":")
          (and-Reads (two & colon) two (h ++ codes ":") m
            (and-Reads two colon h (codes ":") (times-Reads digit 2 h a a')
              (read-Reads (◌==◌ b':') b':' refl))
            (times-Reads digit 2 m b b'))
          (read-Reads (◌==◌ b':') b':' refl))
        (times-Reads digit 2 s c c'))

space : Rule
unfolding read
space = read sp

space-Reads : Reads space (codes " ")
unfolding space
space-Reads = read-Reads sp b' ' refl

date1-Reads :
    (d v tm y : List ℕ)
    → Digits 2 d
    → Known month tm
    → map to_lower v ≡ tm
    → Digits 4 y
    → Reads date1 (date1_text d v y)
unfolding date1 space
date1-Reads d v tm y (a, a') k e (b, b') =
    back-Reads (times 2 digit & space & month & space & times 4 digit) (date1_text d v y) (
      and-Reads (times 2 digit & space & month & space) (times 4 digit)
        (((d ++ codes " ") ++ v) ++ codes " ") y
        (and-Reads (times 2 digit & space & month) space ((d ++ codes " ") ++ v) (codes " ")
          (and-Reads (times 2 digit & space) month (d ++ codes " ") v
            (and-Reads (times 2 digit) space d (codes " ") (times-Reads digit 2 d a a') space-Reads)
            (Known-Reads month tm v k e))
          space-Reads)
        (times-Reads digit 4 y b b'))

rfc1123-Reads :
    (w tw d t : List ℕ)
    → Known wkday tw
    → map to_lower w ≡ tw
    → Reads date1 d
    → Reads time t
    → Reads rfc1123_date (rfc1123_text w d t)
unfolding rfc1123_date space
rfc1123-Reads w tw d t k e f g =
    let gmt = word upper (codes "GMT") in
    back-Reads (wkday & is b',' & space & date1 & space & time & space & gmt) (rfc1123_text w d t) (
      and-Reads (wkday & is b',' & space & date1 & space & time & space) gmt
        ((((((w ++ codes ",") ++ codes " ") ++ d) ++ codes " ") ++ t) ++ codes " ") (codes "GMT")
        (and-Reads (wkday & is b',' & space & date1 & space & time) space
          (((((w ++ codes ",") ++ codes " ") ++ d) ++ codes " ") ++ t) (codes " ")
          (and-Reads (wkday & is b',' & space & date1 & space) time
            ((((w ++ codes ",") ++ codes " ") ++ d) ++ codes " ") t
            (and-Reads (wkday & is b',' & space & date1) space
              (((w ++ codes ",") ++ codes " ") ++ d) (codes " ")
              (and-Reads (wkday & is b',' & space) date1 ((w ++ codes ",") ++ codes " ") d
                (and-Reads (wkday & is b',') space (w ++ codes ",") (codes " ")
                  (and-Reads wkday (is b',') w (codes ",") (Known-Reads wkday tw w k e)
                    (is-Reads b','))
                  space-Reads)
                f)
              space-Reads)
            g)
          space-Reads)
        gmt-Reads)

-- A date of RFC 1123, `Wkd, DD Mon YYYY HH:MM:SS GMT`, is read to its end and no further, whatever stands behind it, where
-- its day of the week and its month are among those that are found, in any case of letters; the numbers may be any digits.
pub date-Reads :
    (w tw d v tm y h m s : List ℕ)
    → Known wkday tw
    → map to_lower w ≡ tw
    → Digits 2 d
    → Known month tm
    → map to_lower v ≡ tm
    → Digits 4 y
    → Digits 2 h
    → Digits 2 m
    → Digits 2 s
    → Reads date (rfc1123_text w (date1_text d v y) (time_text h m s))
unfolding date
date-Reads w tw d v tm y h m s kw ew dd km em dy dh dm ds =
    either-Reads rfc1123_date (either rfc850_date asctime_date)
      (rfc1123_text w (date1_text d v y) (time_text h m s))
      (rfc1123-Reads w tw (date1_text d v y) (time_text h m s) kw ew
        (date1-Reads d v tm y dd km em dy) (time-Reads h m s dh dm ds))
