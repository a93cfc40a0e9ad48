-- ===== src/Datetime.antt =====
-- Python's `datetime` as the scripts use it: `strftime` and `strptime` of the two formats with a `T`,
-- and differences of times. A time is the number of microseconds since year 1 begins. The blank that
-- `strptime` also allows before a day of one digit is left out.
use yyou.Common.Maybe.{◌>>=◌}
use yyou.Common.{
  ℕ, zero, suc, ◌+◌, ◌-◌, ◌*◌, ◌/◌, ◌%◌, Bool, ◌&&◌, ◌||◌, not, [], ◌∷◌, ◌++◌, Option, none, some,
  leb, ltb, ◌==◌, if◌then◌else◌, length, drop, take,
}
use yyou.Text.{Text}
use yyou.Text.Regex.{is_digit, run}

pub record Datetime : Type 0 where
  pub year : ℕ
  pub month : ℕ
  pub day : ℕ
  pub hour : ℕ
  pub minute : ℕ
  pub second : ℕ
  pub microsecond : ℕ

unfoldable pub is_leap : ℕ → Bool
is_leap y = y % 4 == 0 && (not (y % 100 == 0) || y % 400 == 0)

unfoldable pub days_in_month : ℕ → ℕ → ℕ
unfolding is_leap
days_in_month y m =
    if m == 2
    then (if is_leap y then 29 else 28)
    else (if m == 4 || m == 6 || m == 9 || m == 11 then 30 else 31)

-- Days in the months before this one.
unfoldable pub days_before_month : ℕ → ℕ → ℕ
unfolding days_in_month
days_before_month y zero = 0
days_before_month y (suc m) = if m == 0 then 0 else days_before_month y m + days_in_month y m

unfoldable pub days_before_year : ℕ → ℕ
days_before_year y = let p = y - 1 in p * 365 + p / 4 - p / 100 + p / 400

unfoldable pub micros : Datetime → ℕ
unfolding days_before_year days_before_month
micros t =
    let days = days_before_year t.year + days_before_month t.year t.month + (t.day - 1) in
    (((days * 24 + t.hour) * 60 + t.minute) * 60 + t.second) * 1_000_000 + t.microsecond

-- The number that digits spell.
unfoldable pub number : ℕ → Text → ℕ
number acc [] = acc
number acc (c ∷ s) = number (acc * 10 + (c - b'0')) s

-- A number of `low` to `high` digits that are followed by no further digit, and what stands behind it.
unfoldable pub field : ℕ → ℕ → Text → Option (ℕ × Text)
unfolding is_digit run number
field low high s =
    let n = run is_digit s in
    if leb low n && leb n high then some (number 0 (take n s), drop n s) else none

unfoldable pub literal : ℕ → Text → Option Text
literal c [] = none
literal c (d ∷ s) = if c == d then some s else none

unfoldable pub is_valid : Datetime → Bool
unfolding days_in_month
is_valid t =
    leb 1 t.year
    && (leb 1 t.month && leb t.month 12)
    && (leb 1 t.day && leb t.day (days_in_month t.year t.month))
    && (leb t.hour 23 && leb t.minute 59 && leb t.second 59)

-- `%Y-%m-%dT%H:%M:%S`, and what stands behind it.
unfoldable pub parse_seconds : Text → Option (Datetime × Text)
unfolding field literal
parse_seconds s = do
  (year, s1) ← field 4 4 s
  s2 ← literal b'-' s1
  (month, s3) ← field 1 2 s2
  s4 ← literal b'-' s3
  (day, s5) ← field 1 2 s4
  s6 ← literal b'T' s5
  (hour, s7) ← field 1 2 s6
  s8 ← literal b':' s7
  (minute, s9) ← field 1 2 s8
  s10 ← literal b':' s9
  (second, s11) ← field 1 2 s10
  some (
    record {
      year = year;
      month = month;
      day = day;
      hour = hour;
      minute = minute;
      second = second;
      microsecond = 0;
    },
    s11,
  )

-- `%f` of fewer than six digits counts from the left.
unfoldable pub scale : ℕ → ℕ → ℕ
scale zero n = n
scale (suc k) n = scale k (n * 10)

-- `datetime.strptime(s, "%Y-%m-%dT%H:%M:%S.%f")`; `none` is a `ValueError`.
unfoldable pub strptime_micro : Text → Option ℕ
unfolding parse_seconds field literal scale is_valid micros run is_digit
strptime_micro s = do
  (t, s1) ← parse_seconds s
  s2 ← literal b'.' s1
  (fraction, s3) ← field 1 6 s2
  let u = record t { microsecond = scale (6 - run is_digit s2) fraction }
  if is_valid u && length s3 == 0 then some (micros u) else none

-- `datetime.strptime(s, "%Y-%m-%dT%H:%M:%SZ")`
unfoldable pub strptime_z : Text → Option ℕ
unfolding parse_seconds literal is_valid micros
strptime_z s = do
  (t, s1) ← parse_seconds s
  s2 ← literal b'Z' s1
  if is_valid t && length s2 == 0 then some (micros t) else none

-- A number below 10 ^ width in decimal, with zeros in front.
unfoldable pub pad : ℕ → ℕ → Text
pad zero n = []
pad (suc w) n = pad w (n / 10) ++ ((b'0' + n % 10) ∷ [])

-- `t.strftime('%Y-%m-%dT%H:%M:%S.%f')`
unfoldable pub strftime : Datetime → Text
unfolding pad
strftime t =
    pad 4 t.year
    ++ (b'-' ∷ pad 2 t.month
        ++ (b'-' ∷ pad 2 t.day
            ++ (b'T' ∷ pad 2 t.hour
                ++ (b':' ∷ pad 2 t.minute
                    ++ (b':' ∷ pad 2 t.second ++ (b'.' ∷ pad 6 t.microsecond))))))

unfoldable pub year_length : ℕ → ℕ
unfolding is_leap
year_length y = if is_leap y then 366 else 365

-- The year that holds a day, counted from the first day of a year, and the day within it.
unfoldable pub year_at : ℕ → ℕ → ℕ → ℕ × ℕ
unfolding year_length
year_at zero y days = (y, days)
year_at (suc f) y days =
    let later = year_at f (y + 1) (days - year_length y) in
    if ltb days (year_length y) then (y, days) else later

-- The month of a year that holds a day, and the day within it, both counted from 1.
unfoldable pub month_at : ℕ → ℕ → ℕ → ℕ → ℕ × ℕ
unfolding days_in_month
month_at zero y m days = (m, days + 1)
month_at (suc f) y m days =
    let later = month_at f y (m + 1) (days - days_in_month y m) in
    if ltb days (days_in_month y m) then (m, days + 1) else later

-- `datetime.utcfromtimestamp` of milliseconds since 1970. No year has more than 366 days, so there are
-- more days than years to pass.
unfoldable pub from_ms : ℕ → Datetime
unfolding year_at month_at
from_ms ms =
    let days = ms / 86_400_000 in
    let (y, day_of_year) = year_at (suc days) 1970 days in
    let (m, d) = month_at 12 y 1 day_of_year in
    record {
      year = y;
      month = m;
      day = d;
      hour = ms / 3_600_000 % 24;
      minute = ms / 60_000 % 60;
      second = ms / 1000 % 60;
      microsecond = ms % 1000 * 1000;
    }
