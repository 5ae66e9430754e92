-- ===== src/Holidays/Tests.antt =====
-- The holidays of some years, and the theorems at such inputs.
use jira_simulator.Base.{
  Strict, contains, true, ℕ, ◌+◌, ◌≤◌, ◌<◌, ◌≡◌, ◌↔◌, refl, List, [], ◌∷◌, All, arith,
}
use jira_simulator.Base.Result.{ok, raised}
use jira_simulator.Holidays.{
  value_error, first_of, last_of, weekday, observed, ordinal, nth_weekday, last_weekday,
  holidays_for_year, holidays_between, materialize_us_federal_horizon, extend_us_federal_horizon,
  catch_up_end,
}
use jira_simulator.Holidays.Days.{observed-weekday, holidays_for_year-weekday}
use jira_simulator.Holidays.Between.{IsHolidayOf, holidays_between_iff}
use jira_simulator.Holidays.Extension.{IsCaughtUp, catch_up_end_iff}

-- 1 January 2024 is a Monday.
new_year_2024 : ordinal 2024 1 1 ≡ 738886
unfolding ordinal
new_year_2024 = refl

-- Labor Day of 2024 is 2 September, Thanksgiving 28 November, Memorial Day 27 May.
labor_day_2024 : nth_weekday 2024 9 0 1 ≡ ordinal 2024 9 2
unfolding nth_weekday ordinal
labor_day_2024 = refl

thanksgiving_2024 : nth_weekday 2024 11 3 4 ≡ ordinal 2024 11 28
unfolding nth_weekday ordinal
thanksgiving_2024 = refl

memorial_day_2024 : last_weekday 2024 5 0 ≡ ordinal 2024 5 27
unfolding last_weekday ordinal
memorial_day_2024 = refl

caught_up_2030 : catch_up_end 2020 (ordinal 2030 1 1) ≡ ok 2040
unfolding catch_up_end ordinal
caught_up_2030 = refl

late_refused : materialize_us_federal_horizon 9995 ≡ raised (value_error "year is out of range")
unfolding materialize_us_federal_horizon
late_refused = refl

old_refused :
    extend_us_federal_horizon
      (record {
        profile = "US_FEDERAL_V1";
        version = "0";
        starts_on = first_of 2024;
        ends_on = last_of 2034;
        holidays = [];
      })
      738886
    ≡ raised (value_error "horizon must use US_FEDERAL_V1 version 1")
unfolding extend_us_federal_horizon
old_refused = refl

abbrev days_2024 : List ℕ
days_2024 =
    738886 ∷ 738900 ∷ 738935 ∷ 739033 ∷ 739056 ∷ 739071 ∷ 739131 ∷ 739173 ∷ 739201 ∷ 739218 ∷ 739245
    ∷ []

listed_2024 : holidays_between (first_of 2024) (last_of 2024) ≡ ok days_2024
unfolding holidays_between
listed_2024 = refl

observed-weekday_example :
    (weekday (observed 738886) < 5) × (observed 738886 ≤ 738887) × (738886 ≤ observed 738886 + 1)
observed-weekday_example = observed-weekday 738886

holidays_for_year-weekday_example : All (λ d. weekday d < 5) (holidays_for_year 2024)
holidays_for_year-weekday_example = holidays_for_year-weekday 2024

holidays_between_iff_example :
    Strict days_2024
    × ((d : ℕ) → (contains days_2024 d ≡ true) ↔ IsHolidayOf (first_of 2024) (last_of 2024) d)
holidays_between_iff_example =
    holidays_between_iff (first_of 2024) (last_of 2024) days_2024 listed_2024

catch_up_end_iff_example :
    (catch_up_end 2020 (ordinal 2030 1 1) ≡ ok 2040) ↔ IsCaughtUp 2020 (ordinal 2030 1 1) 2040
catch_up_end_iff_example = catch_up_end_iff 2020 (ordinal 2030 1 1) 2040 (omega arith)
