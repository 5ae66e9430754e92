-- ===== src/Tick/Segments.antt =====
-- The split of a tick into segments of business time: `_business_segments` and
-- `_availability_boundaries`. The business calendar gives the date of an instant and the working
-- interval of a date.
pub mod Partition
mod Tests
use jira_simulator.Base.{
  ℕ, zero, suc, ◌+◌, ◌-◌, Bool, true, false, ◌&&◌, Option, none, some, List, [], ◌∷◌, ◌++◌,
  flat_map, keep_if, sort_by, set_of, max, min, ltb, leb, ◌==◌, if◌then◌else◌,
}
use jira_simulator.Tick.{Segment}

-- An interval of availability, of the blueprint or of an overlay: where it starts and ends.
abbrev pub Span : Type 0
Span = ℕ × ℕ

pub record BusinessCalendar : Type 0 where
  pub business_date : ℕ → ℕ
  pub working_interval : ℕ → Option Span

-- The ends of the intervals that lie inside.
abbrev pub inner_ends : List Span → ℕ → ℕ → List ℕ
inner_ends spans starts_at ends_at =
    keep_if (λ t. ltb starts_at t && ltb t ends_at) (flat_map (λ s. s.0 ∷ s.1 ∷ []) spans)

-- `_availability_boundaries`
unfoldable pub availability_boundaries : List Span → ℕ → ℕ → List ℕ
availability_boundaries spans starts_at ends_at =
    sort_by leb (set_of ◌==◌ (starts_at ∷ ends_at ∷ inner_ends spans starts_at ends_at))

-- `zip(boundaries, boundaries[1:])`, each pair as a segment of the day; `left` stands before.
abbrev pub cut : ℕ → ℕ → List ℕ → List Segment
cut day left [] = []
cut day left (right ∷ rest) =
    record { business_date = day; start = left; end_ = right } ∷ cut day right rest

abbrev pub segments_between : ℕ → List ℕ → List Segment
segments_between day [] = []
segments_between day (first ∷ rest) = cut day first rest

-- The segments of one day: of its working interval, clipped to the tick.
abbrev pub clipped : List Span → ℕ → ℕ → ℕ → List Segment
clipped spans day start end_ =
    if ltb start end_ then segments_between day (availability_boundaries spans start end_) else []

abbrev pub day_segments : List Span → ℕ → ℕ → ℕ → Option Span → List Segment
day_segments spans starts_at ends_at day none = []
day_segments spans starts_at ends_at day (some working) =
    clipped spans day (max starts_at working.0) (min ends_at working.1)

-- The loop over `n` days from a day on
abbrev pub segments_from : BusinessCalendar → List Span → ℕ → ℕ → ℕ → ℕ → List Segment
segments_from calendar spans starts_at ends_at day zero = []
segments_from calendar spans starts_at ends_at day (suc n) =
    day_segments spans starts_at ends_at day (calendar.working_interval day)
    ++ segments_from calendar spans starts_at ends_at (day + 1) n

-- `_business_segments`
unfoldable pub business_segments : BusinessCalendar → List Span → ℕ → ℕ → List Segment
business_segments calendar spans starts_at ends_at =
    let first_day = calendar.business_date starts_at in
    let final_day = calendar.business_date (ends_at - 1) in
    if starts_at == ends_at
    then []
    else segments_from calendar spans starts_at ends_at first_day (final_day + 1 - first_day)
