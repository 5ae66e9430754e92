-- ===== src/Calendar.antt =====
-- backend/app/engine/calendar.py: the working time of a team of the first version. A date is its
-- ordinal, an instant the microseconds since a fixed origin; the time zone is another library's. The
-- hours that the source returns as floats are given here in seconds or microseconds.
pub mod Moments
mod Tests
use jira_simulator.Base.{
  ℕ, zero, suc, ◌+◌, ◌-◌, ◌*◌, ◌/◌, Bool, true, false, not, ◌&&◌, List, contains, ltb, leb,
  if◌then◌else◌,
}
use jira_simulator.Holidays.{weekday}

-- `dt.astimezone(tz)` as the date and the microseconds since its midnight, and the instant of a
-- full hour of a local date.
pub record Zone : Type 0 where
  pub to_local : ℕ → ℕ × ℕ
  pub from_local : ℕ → ℕ → ℕ

-- The configuration that each function is given.
pub record Settings : Type 0 where
  pub start_hour : ℕ
  pub end_hour : ℕ
  pub holidays : List ℕ
  pub working_days : List ℕ

abbrev pub max_lookahead_days : ℕ
max_lookahead_days = 30

abbrev pub hour_of : ℕ → ℕ
hour_of time = time / 3600000000

-- `weekday() in working_days and date not in holidays`
abbrev pub is_working_day : Settings → ℕ → Bool
is_working_day s day = contains s.working_days (weekday day) && not (contains s.holidays day)

-- `_is_working_local`
abbrev pub is_working_local : Settings → ℕ × ℕ → Bool
is_working_local s local =
    is_working_day s local.0
    && (leb s.start_hour (hour_of local.1) && ltb (hour_of local.1) s.end_hour)

pub is_working_time : Zone → Settings → ℕ → Bool
is_working_time zone s at = is_working_local s (zone.to_local at)

-- The scan of `next_working_moment` over `n` days; `after` where none of them is a working day.
abbrev pub scan : Zone → Settings → ℕ → ℕ → ℕ → ℕ
scan zone s after day zero = after
scan zone s after day (suc n) =
    let later = scan zone s after (day + 1) n in
    if is_working_day s day then zone.from_local day s.start_hour else later

-- `next_working_moment`, once the local time is known
abbrev pub moment_from : Zone → Settings → ℕ → ℕ × ℕ → ℕ
moment_from zone s after local =
    if is_working_local s local
    then after
    else if is_working_day s local.0 && ltb (hour_of local.1) s.start_hour
    then zone.from_local local.0 s.start_hour
    else scan zone s after (local.0 + 1) max_lookahead_days

pub next_working_moment : Zone → Settings → ℕ → ℕ
next_working_moment zone s after = moment_from zone s after (zone.to_local after)

-- In seconds.
pub working_hours_remaining_today : Zone → Settings → ℕ → ℕ
working_hours_remaining_today zone s at =
    let time = (zone.to_local at).1 in
    if leb s.end_hour (hour_of time)
    then 0
    else if ltb (hour_of time) s.start_hour
    then (s.end_hour - s.start_hour) * 3600
    else s.end_hour * 3600 - time / 1000000

-- The loop of `working_days_in_range` over `n` days
abbrev pub count_days : Settings → ℕ → ℕ → ℕ
count_days s current zero = 0
count_days s current (suc n) =
    let later = count_days s (current + 1) n in
    if is_working_day s current then 1 + later else later

pub working_days_in_range : Settings → ℕ → ℕ → ℕ
working_days_in_range s start end_ = count_days s start (end_ + 1 - start)

-- In microseconds; the receiver works eight hours.
pub handoff_lag_hours : Zone → Settings → ℕ → ℕ
unfolding next_working_moment
handoff_lag_hours zone receiver at =
    let hours : Settings = record {
      start_hour = receiver.start_hour;
      end_hour = receiver.start_hour + 8;
      holidays = receiver.holidays;
      working_days = receiver.working_days;
    } in
    next_working_moment zone hours at - at
