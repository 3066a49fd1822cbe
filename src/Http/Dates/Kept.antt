-- ===== src/Http/Dates/Kept.antt =====
-- http/httpaa.h: what every rule of a date keeps.
use httpaa.Base.{ℕ, ◌≡◌, true, codes, ◌==◌}
use httpaa.Stringaa.Defs.{Stringaa}
use httpaa.Stringaa.Moved.{Moved, Moves-back, Moves-trans, is_char-Moves}
use httpaa.Http.Arrays.{date_wkday_array, date_weekday_array, date_month_array}
use httpaa.Http.Chars.{digit, sp}
use httpaa.Http.Keyword.{upper}
use httpaa.Http.Rule.{Rule, read, times, ◌&◌, either, word}
use httpaa.Http.Rule.Facts.{
  RuleMoves, Returns, read-RuleMoves, times-RuleMoves, and-RuleMoves, either-RuleMoves,
  back-RuleMoves, one_of-RuleMoves, word-RuleMoves, back-Returns, either-Returns,
}
use httpaa.Http.Dates.{
  any_case, is, wkday, weekday, month, time, date1, date2, date3, date3_day, rfc1123_date,
  rfc850_date, asctime_date, date,
}
use httpaa.Base.{◌≤◌, ◌⊎◌, inl, inr, Bool-cases, arith}

is-RuleMoves : (c : ℕ) → RuleMoves (is c)
is-RuleMoves c s = is_char-Moves s c

wkday-RuleMoves : RuleMoves wkday
unfolding wkday
wkday-RuleMoves = one_of-RuleMoves any_case date_wkday_array

weekday-RuleMoves : RuleMoves weekday
unfolding weekday
weekday-RuleMoves = one_of-RuleMoves any_case date_weekday_array

month-RuleMoves : RuleMoves month
unfolding month
month-RuleMoves = one_of-RuleMoves any_case date_month_array

-- A rule, a separator, a rule, and so on.
joined-RuleMoves : (p q r : Rule) → RuleMoves p → RuleMoves q → RuleMoves r → RuleMoves (p & q & r)
joined-RuleMoves p q r f g h = and-RuleMoves (p & q) r (and-RuleMoves p q f g) h

time-RuleMoves : RuleMoves time
unfolding time
time-RuleMoves =
    let two = times 2 digit in
    let colon = read (◌==◌ b':') in
    let f = times-RuleMoves 2 digit in
    let g = read-RuleMoves (◌==◌ b':') in
    back-RuleMoves (two & colon & two & colon & two)
      (joined-RuleMoves (two & colon & two) colon two (joined-RuleMoves two colon two f g f) g f)

date1-RuleMoves : RuleMoves date1
unfolding date1
date1-RuleMoves =
    let s = read-RuleMoves sp in
    back-RuleMoves (times 2 digit & read sp & month & read sp & times 4 digit) (
      joined-RuleMoves (times 2 digit & read sp & month) (read sp) (times 4 digit)
        (joined-RuleMoves (times 2 digit) (read sp) month (times-RuleMoves 2 digit) s
          month-RuleMoves)
        s (times-RuleMoves 4 digit))

date2-RuleMoves : RuleMoves date2
unfolding date2
date2-RuleMoves =
    let dash = read (◌==◌ b'-') in
    let s = read-RuleMoves (◌==◌ b'-') in
    back-RuleMoves (times 2 digit & dash & month & dash & times 2 digit) (
      joined-RuleMoves (times 2 digit & dash & month) dash (times 2 digit)
        (joined-RuleMoves (times 2 digit) dash month (times-RuleMoves 2 digit) s month-RuleMoves) s
        (times-RuleMoves 2 digit))

date3_day-RuleMoves : RuleMoves date3_day
unfolding date3_day
date3_day-RuleMoves s h =
    let s1 = (times 2 digit s).1 in
    let b = record s1 { read_pos = s.read_pos } in
    ground (
      arith,
      times-RuleMoves 2 digit s h,
      Moves-trans s b ((read sp & read digit) b).1 (Moves-back s s1 (times-RuleMoves 2 digit s))
          (and-RuleMoves (read sp) (read digit) (read-RuleMoves sp) (read-RuleMoves digit) b) h,
    )

date3-RuleMoves : RuleMoves date3
unfolding date3
date3-RuleMoves = back-RuleMoves (month & read sp & date3_day) (
    joined-RuleMoves month (read sp) date3_day month-RuleMoves (read-RuleMoves sp)
      date3_day-RuleMoves)

-- The body of the two dates that end with GMT.
gmt-RuleMoves :
    (p d : Rule)
    → RuleMoves p
    → RuleMoves d
    → RuleMoves (p & is b',' & read sp & d & read sp & time & read sp & word upper (codes "GMT"))
gmt-RuleMoves p d f g =
    let s = read-RuleMoves sp in
    let gmt = word upper (codes "GMT") in
    let a = p & is b',' & read sp in
    joined-RuleMoves (a & d & read sp & time) (read sp) gmt
      (joined-RuleMoves (a & d) (read sp) time
        (and-RuleMoves a d (joined-RuleMoves p (is b',') (read sp) f (is-RuleMoves b',') s) g) s
        time-RuleMoves)
      s (word-RuleMoves upper (codes "GMT"))

rfc1123_date-RuleMoves : RuleMoves rfc1123_date
unfolding rfc1123_date
rfc1123_date-RuleMoves =
    back-RuleMoves
      (wkday & is b',' & read sp & date1 & read sp & time & read sp & word upper (codes "GMT"))
      (gmt-RuleMoves wkday date1 wkday-RuleMoves date1-RuleMoves)

rfc850_date-RuleMoves : RuleMoves rfc850_date
unfolding rfc850_date
rfc850_date-RuleMoves =
    back-RuleMoves
      (weekday & is b',' & read sp & date2 & read sp & time & read sp & word upper (codes "GMT"))
      (gmt-RuleMoves weekday date2 weekday-RuleMoves date2-RuleMoves)

asctime_date-RuleMoves : RuleMoves asctime_date
unfolding asctime_date
asctime_date-RuleMoves =
    let s = read-RuleMoves sp in
    back-RuleMoves (wkday & read sp & date3 & read sp & time & read sp & times 4 digit) (
      joined-RuleMoves (wkday & read sp & date3 & read sp & time) (read sp) (times 4 digit)
        (joined-RuleMoves (wkday & read sp & date3) (read sp) time
          (joined-RuleMoves wkday (read sp) date3 wkday-RuleMoves s date3-RuleMoves) s
          time-RuleMoves)
        s (times-RuleMoves 4 digit))

date-RuleMoves : RuleMoves date
unfolding date
date-RuleMoves =
    either-RuleMoves rfc1123_date (either rfc850_date asctime_date) rfc1123_date-RuleMoves
      (either-RuleMoves rfc850_date asctime_date rfc850_date-RuleMoves asctime_date-RuleMoves)

rfc1123_date-Returns : Returns rfc1123_date
unfolding rfc1123_date
rfc1123_date-Returns =
    back-Returns
      (wkday & is b',' & read sp & date1 & read sp & time & read sp & word upper (codes "GMT"))

rfc850_date-Returns : Returns rfc850_date
unfolding rfc850_date
rfc850_date-Returns =
    back-Returns
      (weekday & is b',' & read sp & date2 & read sp & time & read sp & word upper (codes "GMT"))

asctime_date-Returns : Returns asctime_date
unfolding asctime_date
asctime_date-Returns =
    back-Returns (wkday & read sp & date3 & read sp & time & read sp & times 4 digit)

date-Returns : Returns date
unfolding date
date-Returns =
    either-Returns rfc1123_date (either rfc850_date asctime_date) rfc1123_date-Returns
      (either-Returns rfc850_date asctime_date rfc850_date-Returns asctime_date-Returns)

-- http11_date keeps the string and its read position inside the bounds, on every string. Where there is no date, the read position
-- is where it was.
pub date_lem :
    (s : Stringaa)
    → s.read_pos ≤ s.write_pos
    → Moved s (date s).1 × (((date s).0 ≡ true) ⊎ ((date s).1.read_pos ≡ s.read_pos))
date_lem s h = (
  date-RuleMoves s h,
  elim (Bool-cases (date s).0) [ inl e ↦ inl e | inr e ↦ inr (date-Returns s e) ],
)
