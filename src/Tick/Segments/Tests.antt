-- ===== src/Tick/Segments/Tests.antt =====
-- A tick over two working days and its queue time, with the theorems at them.
use jira_simulator.Base.{
  ℕ, ◌+◌, ◌*◌, ◌/◌, ◌≡◌, refl, none, some, List, [], ◌∷◌, All, Pairwise, String, ◌==◌,
  if◌then◌else◌,
}
use jira_simulator.Tick.{Segment}
use jira_simulator.Tick.Capacity.{Constraint, wip_limit, unavailable}
use jira_simulator.Tick.Advance.{QueueCause}
use jira_simulator.Tick.Causes.{aggregate_queue_causes, time_for}
use jira_simulator.Tick.Causes.Sums.{aggregate_queue_causes-time, IsApart}
use jira_simulator.Tick.Segments.{
  Span, BusinessCalendar, business_segments, availability_boundaries,
}
use jira_simulator.Tick.Segments.Partition.{IsPiece, total, working_time, business_segments-IsSplit}

-- Days of 24 units with work from the ninth to the seventeenth, and none on day 1.
abbrev days : BusinessCalendar
days = record {
  business_date = λ t. t / 24;
  working_interval = λ d. if d == 1 then none else some (d * 24 + 9, d * 24 + 17);
}

abbrev away : List Span
away = (12, 60) ∷ []

abbrev piece : ℕ → ℕ → ℕ → Segment
piece day start end_ = record { business_date = day; start = start; end_ = end_ }

three_pieces :
    business_segments days away 10 62
    ≡ piece 0 10 12 ∷ piece 0 12 17 ∷ piece 2 57 60 ∷ piece 2 60 62 ∷ []
unfolding business_segments availability_boundaries
three_pieces = refl

business_segments-IsSplit_example :
    All (IsPiece days away 10 62) (business_segments days away 10 62)
    × (total (business_segments days away 10 62) ≡ working_time days 10 62 0 3)
business_segments-IsSplit_example = business_segments-IsSplit days away 10 62

abbrev cause : ℕ → Constraint → ℕ → QueueCause
cause visit reason delta = record { visit_id = visit; reason = reason; delta_microseconds = delta }

abbrev causes : List QueueCause
causes = cause 2 wip_limit 5 ∷ cause 1 unavailable 3 ∷ cause 2 wip_limit 4 ∷ []

summed : aggregate_queue_causes causes ≡ cause 1 unavailable 3 ∷ cause 2 wip_limit 9 ∷ []
unfolding aggregate_queue_causes
summed = refl

aggregate_queue_causes-time_example :
    ((visit_id : ℕ) (reason : String)
      → time_for visit_id reason (aggregate_queue_causes causes) ≡ time_for visit_id reason causes)
    × Pairwise IsApart (aggregate_queue_causes causes)
aggregate_queue_causes-time_example = aggregate_queue_causes-time causes
