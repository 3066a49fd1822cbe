-- ===== src/Http/Dates.antt =====
-- http/httpaa.h: the rules of a date, `http11_date` and those that it calls.
pub mod Lowered
pub mod Known
pub mod Written
pub mod Kept
use httpaa.Base.{ℕ, Bool, true, false, ◌==◌, if◌then◌else◌, codes}
use httpaa.Stringaa.Defs.{Stringaa, is_char, to_lower}
use httpaa.Http.Chars.{digit, sp}
use httpaa.Http.Keyword.{Compare, upper}
use httpaa.Http.Arrays.{date_wkday_array, date_weekday_array, date_month_array}
use httpaa.Http.Rule.{Rule, read, times, ◌&◌, either, back, one_of, word}

-- `_tolower(*pc) == _tolower(c)`
unfoldable pub any_case : Compare
any_case p c = to_lower p == to_lower c

abbrev pub is : ℕ → Rule
is c s = is_char s c

unfoldable pub wkday : Rule
unfolding one_of
wkday = one_of any_case date_wkday_array

unfoldable pub weekday : Rule
unfolding one_of
weekday = one_of any_case date_weekday_array

unfoldable pub month : Rule
unfolding one_of
month = one_of any_case date_month_array

unfoldable pub time : Rule
unfolding back ◌&◌ times read
time = back (times 2 digit & read (◌==◌ b':') & times 2 digit & read (◌==◌ b':') & times 2 digit)

unfoldable pub date1 : Rule
unfolding back ◌&◌ times read month
date1 = back (times 2 digit & read sp & month & read sp & times 4 digit)

unfoldable pub date2 : Rule
unfolding back ◌&◌ times read month
date2 = back (times 2 digit & read (◌==◌ b'-') & month & read (◌==◌ b'-') & times 2 digit)

-- The day in asctime's form: two digits are read, but the flag is set for one digit behind a space only.
unfoldable pub date3_day : Rule
unfolding ◌&◌ times read
date3_day s =
    let (two, s1) = times 2 digit s in
    if two then (false, s1) else (read sp & read digit) (record s1 { read_pos = s.read_pos })

unfoldable pub date3 : Rule
unfolding back ◌&◌ read month date3_day
date3 = back (month & read sp & date3_day)

unfoldable pub rfc1123_date : Rule
unfolding back ◌&◌ read wkday date1 time word
rfc1123_date =
    back (wkday & is b',' & read sp & date1 & read sp & time & read sp & word upper (codes "GMT"))

unfoldable pub rfc850_date : Rule
unfolding back ◌&◌ read weekday date2 time word
rfc850_date =
    back (weekday & is b',' & read sp & date2 & read sp & time & read sp & word upper (codes "GMT"))

unfoldable pub asctime_date : Rule
unfolding back ◌&◌ read wkday date3 time times
asctime_date = back (wkday & read sp & date3 & read sp & time & read sp & times 4 digit)

unfoldable pub date : Rule
unfolding either rfc1123_date rfc850_date asctime_date
date = either rfc1123_date (either rfc850_date asctime_date)
