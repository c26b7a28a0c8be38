-- ===== src/Clock.antt =====
-- Time in cli.py: `utc_now`, `utc_after`, `parse_time` and `parse_duration`, with what they use of
-- Python's datetime. A reading of the clock is a number of seconds since 0001-01-01T00:00:00Z.
use laneq.Common.{
  ℕ, zero, suc, ◌+◌, ◌-◌, ◌*◌, ◌/◌, ◌%◌, List, [], ◌∷◌, ◌++◌, Bool, true, ◌&&◌, ◌||◌, Option, none,
  some, leb, ltb, ◌==◌, if◌then◌else◌, Result, ok, err, argument_type, value_error, overflow_error,
  map, reverse,
}
use laneq.Text.{Text, codes, strip}

-- What a call reads of its surroundings: `clock i` is its (i+1)-th reading of the clock, `uuid` the
-- value of `uuid.uuid4().hex`, `float_mul text m` is `int(float(text) * m)`, with 0 for a negative
-- result; it raises ValueError, or OverflowError for an infinity; `sha256` the digest in hexadecimal, and `default_lease` is
-- DEFAULT_LEASE_SECONDS.
pub record Env : Type 0 where
  pub clock : ℕ → ℕ
  pub uuid : Text
  pub float_mul : Text → ℕ → Result ℕ
  pub sha256 : Text → Text
  pub default_lease : ℕ

unfoldable pub is_leap : ℕ → Bool
is_leap y = y % 4 == 0 && (if y % 100 == 0 then y % 400 == 0 else true)

unfoldable pub days_in_year : ℕ → ℕ
unfolding is_leap
days_in_year y = if is_leap y then 366 else 365

unfoldable pub month_lengths : ℕ → List ℕ
unfolding is_leap
month_lengths y =
    31 ∷ (if is_leap y then 29 else 28) ∷ 31 ∷ 30 ∷ 31 ∷ 30 ∷ 31 ∷ 31 ∷ 30 ∷ 31 ∷ 30 ∷ 31 ∷ []

-- The year that holds day `d`, counted from the first of January of year `y`, and the day in it.
unfoldable pub year_from : ℕ → ℕ → ℕ → ℕ × ℕ
unfolding days_in_year
year_from zero y d = (y, d)
year_from (suc fuel) y d =
    let later = year_from fuel (suc y) (d - days_in_year y) in
    if ltb d (days_in_year y) then (y, d) else later

-- The month, from `m` on, that holds day `d` of the year, and the day of the month.
unfoldable pub month_from : List ℕ → ℕ → ℕ → ℕ × ℕ
month_from [] m d = (m, d + 1)
month_from (n ∷ ns) m d =
    let later = month_from ns (suc m) (d - n) in if ltb d n then (m, d + 1) else later

unfoldable pub pad2 : ℕ → Text
pad2 n = (48 + n / 10 % 10) ∷ (48 + n % 10) ∷ []

unfoldable pub pad4 : ℕ → Text
unfolding pad2
pad4 n = pad2 (n / 100) ++ pad2 (n % 100)

-- `strftime("%Y-%m-%dT%H:%M:%SZ")`. The Gregorian calendar repeats after 146097 days, 400 years.
unfoldable pub strftime : ℕ → Text
unfolding year_from month_from month_lengths pad2 pad4
strftime t =
    let days = t / 86400 in
    let (y, d) = year_from 400 (400 * (days / 146097) + 1) (days % 146097) in
    let (m, day) = month_from (month_lengths y) 1 d in
    pad4 y
    ++ codes "-"
    ++ pad2 m
    ++ codes "-"
    ++ pad2 day
    ++ codes "T"
    ++ pad2 (t % 86400 / 3600)
    ++ codes ":"
    ++ pad2 (t % 3600 / 60)
    ++ codes ":"
    ++ pad2 (t % 60)
    ++ codes "Z"

-- `utc_now`, and SQLite's `strftime('%Y-%m-%dT%H:%M:%SZ','now')`.
unfoldable pub utc_now : Env → ℕ → Text
utc_now env i = strftime (env.clock i)

-- The seconds up to the end of the year 9999, the last that a datetime can hold.
abbrev pub datetime_end : ℕ
datetime_end = 315537897600

-- The sum of a datetime and a timedelta raises OverflowError behind the year 9999; so does a
-- timedelta that is too long, which is longer still.
unfoldable pub utc_after : Env → ℕ → ℕ → Result Text
unfolding strftime
utc_after env i seconds =
    if ltb (env.clock i + seconds) datetime_end
    then ok (strftime (env.clock i + seconds))
    else err overflow_error

is_digit : ℕ → Bool
is_digit c = leb 48 c && leb c 57

-- One or two digits, as `%m`, `%d`, `%H`, `%M` and `%S` of `strptime` take them, up to the
-- separator, which a letter may be in either case; the rest of the text is returned.
number_to : ℕ → ℕ → Text → Option (ℕ × Text)
unfolding is_digit
number_to sep alt (a ∷ b ∷ c ∷ rest) =
    if is_digit a && (b == sep || b == alt)
    then some (a - 48, c ∷ rest)
    else if is_digit a && is_digit b && (c == sep || c == alt)
    then some ((a - 48) * 10 + (b - 48), rest)
    else none
number_to sep alt (a ∷ b ∷ []) =
    if is_digit a && (b == sep || b == alt) then some (a - 48, []) else none
number_to sep alt _ = none

-- `%Y` takes four digits.
year_to : Text → Option (ℕ × Text)
unfolding is_digit
year_to (a ∷ b ∷ c ∷ d ∷ e ∷ rest) =
    if is_digit a && is_digit b && is_digit c && is_digit d && e == 45
    then some ((a - 48) * 1000 + (b - 48) * 100 + (c - 48) * 10 + (d - 48), rest)
    else none
year_to _ = none

-- `%d` takes a day of one digit behind a blank too.
day_to : Text → Option (ℕ × Text)
unfolding number_to
day_to (b ∷ rest) = if b == 32 then number_to 84 116 (48 ∷ rest) else number_to 84 116 (b ∷ rest)
day_to [] = none

infixl 5 ◌>>=◌
abbrev ◌>>=◌ {ℓ κ} : {A : Type ℓ} {B : Type κ} → Option A → (A → Option B) → Option B
none >>= f = none
some a >>= f = f a

sum : List ℕ → ℕ
sum [] = 0
sum (n ∷ ns) = n + sum ns

take_sum : ℕ → List ℕ → ℕ
take_sum zero ns = 0
take_sum (suc k) [] = 0
take_sum (suc k) (n ∷ ns) = n + take_sum k ns

nth : ℕ → List ℕ → ℕ
nth k [] = 0
nth zero (n ∷ ns) = n
nth (suc k) (n ∷ ns) = nth k ns

-- The seconds at a date and time, or `none` where `datetime` raises a ValueError.
seconds_at : ℕ → ℕ → ℕ → ℕ → ℕ → ℕ → Option ℕ
unfolding month_lengths take_sum nth
seconds_at y m d hour minute second =
    if leb 1 y
      && leb 1 m
      && leb m 12
      && leb 1 d
      && leb d (nth (m - 1) (month_lengths y))
      && ltb hour 24
      && ltb minute 60
      && ltb second 60
    then (let years = y - 1 in
        let days = years * 365 + years / 4 - years / 100 + years / 400 in
        some (
          (days + take_sum (m - 1) (month_lengths y) + (d - 1)) * 86400
          + hour * 3600
          + minute * 60
          + second))
    else none

all_read : ℕ × Text → Option ℕ
all_read (n, []) = some n
all_read (n, _) = none

-- `strptime(value, "%Y-%m-%dT%H:%M:%SZ")`
unfoldable pub strptime : Text → Option ℕ
unfolding year_to number_to day_to seconds_at all_read
strptime value = do
  (y, s) ← year_to value
  (m, s) ← number_to 45 45 s
  (d, s) ← day_to s
  (hour, s) ← number_to 58 58 s
  (minute, s) ← number_to 58 58 s
  second ← number_to 90 122 s >>= all_read
  seconds_at y m d hour minute second

unfoldable pub parse_time : Option Text → Option ℕ
unfolding strptime
parse_time none = none
parse_time (some []) = none
parse_time (some (c ∷ cs)) = strptime (c ∷ cs)

-- A duration as the callers give it: absent, an `int`, or a text.
pub data Duration : Type 0 where
  absent : Duration
  seconds : ℕ → Duration
  text : Text → Duration

lower : ℕ → ℕ
lower c = if leb 65 c && leb c 90 then c + 32 else c

-- `multipliers`, by suffix
multiplier : ℕ → Option ℕ
multiplier c =
    if c == 115
    then some 1
    else if c == 109
    then some 60
    else if c == 104
    then some 3600
    else if c == 100
    then some 86400
    else none

-- Only the ValueError is caught.
at_least_1 : Result ℕ → Result ℕ
at_least_1 (err value_error) = err argument_type
at_least_1 (err e) = err e
at_least_1 (ok n) = if n == 0 then ok 1 else ok n

-- By the text reversed, so that the suffix stands first.
duration_of : Env → Text → Result ℕ
unfolding multiplier at_least_1
duration_of env [] = ok env.default_lease
duration_of env (suffix ∷ rest) = elim (multiplier suffix) [
  | some m ↦ at_least_1 (env.float_mul (reverse rest) m)
  | none ↦ at_least_1 (env.float_mul (reverse (suffix ∷ rest)) 1)
]

-- An `int` goes through its decimal text and `float`, which is exact below 2 ^ 53; behind the year
-- 9999, which is less, `utc_after` raises the OverflowError that an infinite float raises here.
unfoldable pub parse_duration : Env → Duration → Result ℕ
unfolding duration_of lower
parse_duration env absent = ok env.default_lease
parse_duration env (seconds n) = at_least_1 (ok n)
parse_duration env (text value) = duration_of env (reverse (map lower (strip value)))

-- `utc_after(parse_duration(value))`, with the reading `i` of the clock.
unfoldable pub end_after : Env → ℕ → Duration → Result Text
unfolding parse_duration utc_after
end_after env i value = elim (parse_duration env value) [ err e ↦ err e | ok n ↦ utc_after env i n ]
