-- ===== src/Holidays.antt =====
-- backend/app/v2/domain/us_federal_calendar.py: the US federal holidays and their horizon. A day
-- is its ordinal (`date.toordinal()`: 1 January of year 1 is 1, a Monday); the bounds of a horizon
-- keep year, month and day. The year of the team's first start is given, since the time zones are
-- another library's.
pub mod Days
pub mod Extension
pub mod Between
mod Tests
use jira_simulator.Base.{
  ℕ, zero, suc, ◌+◌, ◌*◌, ◌-◌, ◌/◌, ◌%◌, String, str_eq, Bool, true, false, not, ◌&&◌, ◌||◌, List,
  [], ◌∷◌, ◌++◌, keep_if, contains, sort_by, ltb, leb, ◌==◌, if◌then◌else◌,
}
use jira_simulator.Base.Result.{Result, ok, raised, ◌>>=◌}

pub data Fault : Type 0 where
  value_error : String → Fault
  out_of_fuel : Fault

pub record Date : Type 0 where
  pub year : ℕ
  pub month : ℕ
  pub day : ℕ

abbrev max_year : ℕ
max_year = 9999

abbrev extension_years : ℕ
extension_years = 10

abbrev pub saturday : ℕ
saturday = 5

abbrev pub sunday : ℕ
sunday = 6

abbrev pub is_leap : ℕ → Bool
is_leap year = year % 4 == 0 && (not (year % 100 == 0) || year % 400 == 0)

abbrev pub days_before_year : ℕ → ℕ
days_before_year year = let y = year - 1 in y * 365 + y / 4 - y / 100 + y / 400

-- `monthrange(year, month)[1]`
abbrev pub days_in_month : ℕ → ℕ → ℕ
days_in_month year month =
    if month == 2
    then (if is_leap year then 29 else 28)
    else if month == 4 || (month == 6 || (month == 9 || month == 11))
    then 30
    else 31

pub days_before_month : ℕ → ℕ → ℕ
days_before_month year zero = 0
days_before_month year (suc zero) = 0
days_before_month year (suc (suc m)) = days_before_month year (suc m) + days_in_month year (suc m)

-- `date(year, month, day)`, as its ordinal
pub ordinal : ℕ → ℕ → ℕ → ℕ
unfolding days_before_month
ordinal year month day = days_before_year year + days_before_month year month + day

abbrev pub of_date : Date → ℕ
unfolding ordinal
of_date d = ordinal d.year d.month d.day

-- `weekday()`, 0 on a Monday
abbrev pub weekday : ℕ → ℕ
weekday d = (d + 6) % 7

pub observed : ℕ → ℕ
observed d = if weekday d == saturday then d - 1 else if weekday d == sunday then d + 1 else d

-- (weekday - first.weekday()) % 7 of Python, which is not negative
abbrev forward_to : ℕ → ℕ → ℕ
forward_to first target = (target + 7 - weekday first) % 7

abbrev pub back_to : ℕ → ℕ → ℕ
back_to last target = (weekday last + 7 - target) % 7

pub nth_weekday : ℕ → ℕ → ℕ → ℕ → ℕ
unfolding ordinal
nth_weekday year month target nth =
    let first = ordinal year month 1 in first + (forward_to first target + (nth - 1) * 7)

pub last_weekday : ℕ → ℕ → ℕ → ℕ
unfolding ordinal
last_weekday year month target =
    let last = ordinal year month (days_in_month year month) in last - back_to last target

pub fixed_holidays : ℕ → List ℕ
unfolding observed
fixed_holidays year =
    observed (ordinal year 1 1)
    ∷ observed (ordinal year 6 19)
    ∷ observed (ordinal year 7 4)
    ∷ observed (ordinal year 11 11)
    ∷ observed (ordinal year 12 25)
    ∷ []

pub holidays_for_year : ℕ → List ℕ
unfolding fixed_holidays nth_weekday last_weekday
holidays_for_year year =
    fixed_holidays year
    ++ nth_weekday year 1 0 3
      ∷ nth_weekday year 2 0 3
      ∷ last_weekday year 5 0
      ∷ nth_weekday year 9 0 1
      ∷ nth_weekday year 10 0 2
      ∷ nth_weekday year 11 3 4
      ∷ []

-- The holidays of so many years from the first.
pub holidays_of_years : ℕ → ℕ → List ℕ
unfolding holidays_for_year
holidays_of_years first zero = []
holidays_of_years first (suc n) = holidays_for_year first ++ holidays_of_years (suc first) n

-- A set keeps one of each.
pub distinct : List ℕ → List ℕ
distinct [] = []
distinct (x ∷ xs) = let rest = distinct xs in if contains rest x then rest else x ∷ rest

abbrev pub within : ℕ → ℕ → ℕ → Bool
within low high d = leb low d && leb d high

-- The candidates of `_holidays_between`, of the years before the first to after the last.
pub candidate_holidays : Date → Date → List ℕ
unfolding holidays_of_years
candidate_holidays starts_on ends_on =
    keep_if (within (of_date starts_on) (of_date ends_on))
      (holidays_of_years (starts_on.year - 1) (ends_on.year + 3 - starts_on.year))

-- `date` refuses a year outside 1..9999: those of the range are starts_on.year - 1 and up to
-- ends_on.year + 1.
pub holidays_between : Date → Date → Result Fault (List ℕ)
unfolding candidate_holidays distinct
holidays_between starts_on ends_on =
    let found = ok (sort_by leb (distinct (candidate_holidays starts_on ends_on))) in
    if ltb (ends_on.year + 1) (starts_on.year - 1)
    then ok []
    else if ltb starts_on.year 2 || leb max_year ends_on.year
    then raised (value_error "year is out of range")
    else found

pub record HolidayHorizon : Type 0 where
  pub profile : String
  pub version : String
  pub starts_on : Date
  pub ends_on : Date
  pub holidays : List ℕ

-- `holidays == other`
abbrev pub same_days : List ℕ → List ℕ → Bool
same_days [] [] = true
same_days (x ∷ xs) (y ∷ ys) = x == y && same_days xs ys
same_days _ _ = false

abbrev same_date : Date → Date → Bool
same_date a b = a.year == b.year && (a.month == b.month && a.day == b.day)

abbrev pub first_of : ℕ → Date
first_of year = record { year = year; month = 1; day = 1 }

abbrev pub last_of : ℕ → Date
last_of year = record { year = year; month = 12; day = 31 }

abbrev us_federal_profile : String
us_federal_profile = "US_FEDERAL_V1"

abbrev us_federal_version : String
us_federal_version = "1"

-- `materialize_us_federal_horizon`, from the local year of the first start
unfoldable pub materialize_us_federal_horizon : ℕ → Result Fault HolidayHorizon
unfolding holidays_between
materialize_us_federal_horizon first_year = do
  holidays ← holidays_between (first_of (first_year - 1)) (last_of (first_year + 10))
  ok (record {
    profile = us_federal_profile;
    version = us_federal_version;
    starts_on = first_of (first_year - 1);
    ends_on = last_of (first_year + 10);
    holidays = holidays;
  })

pub authenticate : HolidayHorizon → Result Fault (Unit {0})
unfolding holidays_between
authenticate h =
    let expected = holidays_between h.starts_on h.ends_on in
    if str_eq h.profile us_federal_profile && str_eq h.version us_federal_version
    then (expected >>= λ days.
        if same_date h.starts_on (first_of h.starts_on.year)
          && (same_date h.ends_on (last_of h.ends_on.year) && same_days h.holidays days)
        then ok tt
        else raised (value_error "horizon must be a canonical US_FEDERAL_V1 horizon"))
    else raised (value_error "horizon must use US_FEDERAL_V1 version 1")

pub requires_extension : ℕ → ℕ → Bool
unfolding ordinal
requires_extension end_year as_of =
    if end_year == 1 then true else ltb (ordinal (end_year - 1) 1 1) as_of

-- The loop of `_catch_up_end`. After its first round the end is the last day of a year, so its
-- year is what the loop reads and changes.
pub catch_up : ℕ → ℕ → ℕ → Result Fault ℕ
unfolding requires_extension
catch_up zero end_year as_of = raised out_of_fuel
catch_up (suc fuel) end_year as_of =
    let later = catch_up fuel (end_year + extension_years) as_of in
    if requires_extension end_year as_of
    then (if ltb (max_year - extension_years) end_year
        then raised (value_error "holiday horizon cannot extend beyond the supported date range")
        else later)
    else ok end_year

-- 1000 rounds of ten years go beyond the last year.
pub catch_up_end : ℕ → ℕ → Result Fault ℕ
unfolding catch_up
catch_up_end end_year as_of = catch_up 1000 end_year as_of

pub extend_to : HolidayHorizon → ℕ → Result Fault HolidayHorizon
unfolding holidays_between
extend_to h end_year =
    let extended = holidays_between h.starts_on (last_of end_year) >>= λ days.
    ok (record h { ends_on = last_of end_year; holidays = days }) in
    if end_year == h.ends_on.year then ok h else extended

unfoldable pub extend_us_federal_horizon : HolidayHorizon → ℕ → Result Fault HolidayHorizon
unfolding authenticate catch_up_end extend_to
extend_us_federal_horizon h as_of = do
  _ ← authenticate h
  end_year ← catch_up_end h.ends_on.year as_of
  extend_to h end_year
