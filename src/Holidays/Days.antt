-- ===== src/Holidays/Days.antt =====
-- The days of the holiday rules.
use jira_simulator.Base.{ℕ, ◌+◌, ◌*◌, ◌-◌, ◌≤◌, ◌<◌, ◌≡◌, [], ◌∷◌, All, All-append, arith}
use jira_simulator.Holidays.{
  ordinal, weekday, observed, nth_weekday, last_weekday, fixed_holidays, holidays_for_year,
  days_in_month, back_to,
}

-- A holiday is observed on a working day of the week, at most a day from the day itself.
pub observed-weekday :
    (d : ℕ) → (weekday (observed d) < 5) × (observed d ≤ d + 1) × (d ≤ observed d + 1)
unfolding observed
observed-weekday d = ground arith

-- The nth day of a kind in a month is of that kind, and in the nth week counted from the first
-- of the month.
pub nth_weekday-weekday :
    (year month target nth : ℕ)
    → target < 7
    → 0 < nth
    → (weekday (nth_weekday year month target nth) ≡ target)
      × (ordinal year month 1 + (nth - 1) * 7 ≤ nth_weekday year month target nth)
      × (nth_weekday year month target nth < ordinal year month 1 + nth * 7)
unfolding nth_weekday
nth_weekday-weekday year month target nth h h' = (omega arith, omega arith, omega arith)

stepped_back :
    (last target : ℕ)
    → target < 7
    → 7 ≤ last
    → (weekday (last - back_to last target) ≡ target)
      × (last - back_to last target ≤ last)
      × (last < last - back_to last target + 7)
stepped_back last target h h' = (omega arith, omega arith, omega arith)

week-le-month : (year month : ℕ) → 7 ≤ days_in_month year month
week-le-month year month = ground arith

day-le-ordinal : (year month day : ℕ) → day ≤ ordinal year month day
unfolding ordinal
day-le-ordinal year month day = omega arith

-- The last day of a kind in a month is of that kind, and one of the last seven days of the month.
pub last_weekday-weekday :
    (year month target : ℕ)
    → target < 7
    → (weekday (last_weekday year month target) ≡ target)
      × (last_weekday year month target ≤ ordinal year month (days_in_month year month))
      × (ordinal year month (days_in_month year month) < last_weekday year month target + 7)
unfolding last_weekday
last_weekday-weekday year month target h =
    let days = week-le-month year month in
    let last = day-le-ordinal year month (days_in_month year month) in
    stepped_back (ordinal year month (days_in_month year month)) target h
      (omega (arith, days, last))

of_weekday : (d target : ℕ) → weekday d ≡ target → target < 5 → weekday d < 5
of_weekday d target e h = rw e h

fixed_holidays-weekday : (year : ℕ) → All (λ d. weekday d < 5) (fixed_holidays year)
unfolding fixed_holidays
fixed_holidays-weekday year = (
  (observed-weekday (ordinal year 1 1)).0,
  (
    (observed-weekday (ordinal year 6 19)).0,
    (
      (observed-weekday (ordinal year 7 4)).0,
      ((observed-weekday (ordinal year 11 11)).0, ((observed-weekday (ordinal year 12 25)).0, tt)),
    ),
  ),
)

-- Every holiday of a year, as it is observed, falls on one of Monday to Friday.
pub holidays_for_year-weekday : (year : ℕ) → All (λ d. weekday d < 5) (holidays_for_year year)
unfolding holidays_for_year
holidays_for_year-weekday year =
    All-append (λ d. weekday d < 5) (fixed_holidays year)
      (nth_weekday year 1 0 3
        ∷ nth_weekday year 2 0 3
        ∷ last_weekday year 5 0
        ∷ nth_weekday year 9 0 1
        ∷ nth_weekday year 10 0 2
        ∷ nth_weekday year 11 3 4
        ∷ [])
      (fixed_holidays-weekday year)
      (
        of_weekday _ 0 (nth_weekday-weekday year 1 0 3 (omega arith) (omega arith)).0 (omega arith),
        (
          of_weekday _ 0 (nth_weekday-weekday year 2 0 3 (omega arith) (omega arith)).0
              (omega arith),
          (
            of_weekday _ 0 (last_weekday-weekday year 5 0 (omega arith)).0 (omega arith),
            (
              of_weekday _ 0 (nth_weekday-weekday year 9 0 1 (omega arith) (omega arith)).0
                  (omega arith),
              (
                of_weekday _ 0 (nth_weekday-weekday year 10 0 2 (omega arith) (omega arith)).0
                    (omega arith),
                (
                  of_weekday _ 3 (nth_weekday-weekday year 11 3 4 (omega arith) (omega arith)).0
                      (omega arith),
                  tt,
                ),
              ),
            ),
          ),
        ),
      )
