-- ===== src/Calendar/Tests.antt =====
-- Runs of the calendar, and an instance of the theorem of Calendar/Moments.antt.
use jira_simulator.Base.{ℕ, ◌+◌, ◌*◌, ◌/◌, ◌%◌, ◌<◌, ◌≡◌, refl, ◌∷◌, [], arith}
use jira_simulator.Calendar.{
  Zone, Settings, next_working_moment, working_hours_remaining_today, working_days_in_range,
  handoff_lag_hours,
}
use jira_simulator.Calendar.Moments.{next_working_moment-IsNext, IsNext, PassesOnce, IsFaithful}

-- A zone without an offset.
abbrev utc : Zone
utc = record {
  to_local = λ at. (at / 86400000000, at % 86400000000);
  from_local = λ day hour. day * 86400000000 + hour * 3600000000;
}

-- From Monday to Friday, from nine to five; the day 3 is a holiday.
abbrev office : Settings
office = record {
  start_hour = 9;
  end_hour = 17;
  holidays = 3 ∷ [];
  working_days = 0 ∷ 1 ∷ 2 ∷ 3 ∷ 4 ∷ [];
}

-- The day 5 at six in the evening.
abbrev friday : ℕ
friday = 496800000000

office-IsFaithful : IsFaithful utc 9
office-IsFaithful day =
    let date : (day * 86400000000 + 9 * 3600000000) / 86400000000 ≡ day = omega arith in
    let time : (day * 86400000000 + 9 * 3600000000) % 86400000000 ≡ 9 * 3600000000 = omega arith in
    λ i. (date i, time i)

monday_next : next_working_moment utc office friday ≡ 723600000000
unfolding next_working_moment
monday_next = refl

none_left : working_hours_remaining_today utc office friday ≡ 0
unfolding working_hours_remaining_today
none_left = refl

week_days : working_days_in_range office 1 7 ≡ 4
unfolding working_days_in_range
week_days = refl

until_monday : handoff_lag_hours utc office friday ≡ 226800000000
unfolding handoff_lag_hours next_working_moment
until_monday = refl

utc-PassesOnce : (hour : ℕ) → hour < 24 → PassesOnce utc hour
utc-PassesOnce hour h t day = ground (arith, h)

next_working_moment-IsNext_example :
    IsNext utc office friday (next_working_moment utc office friday)
next_working_moment-IsNext_example =
    next_working_moment-IsNext utc office (omega arith) office-IsFaithful
      (utc-PassesOnce 0 (omega arith)) (utc-PassesOnce 9 (omega arith))
      (utc-PassesOnce 17 (omega arith)) friday (2, omega arith, refl)
