-- ===== src/Tick/Causes.antt =====
-- `_aggregate_queue_causes`: the queue time of a tick, summed by visit and reason.
pub mod Sums
use Prim.Native.Nat.{Ordering}
use Prim.Native.String.{compare}
use jira_simulator.Base.{
  ℕ, ◌+◌, String, str_eq, Bool, true, false, ◌&&◌, ◌||◌, List, [], ◌∷◌, arith, ltb, ◌==◌, sort_by,
  if◌then◌else◌,
}
use jira_simulator.Tick.Capacity.{
  Constraint, no_capable_member, unavailable, daily_capacity, wip_limit, contention,
}
use jira_simulator.Tick.Advance.{QueueCause}

-- The texts of the reasons.
abbrev pub reason_text : Constraint → String
reason_text no_capable_member = "NO_CAPABLE_MEMBER"
reason_text unavailable = "UNAVAILABLE"
reason_text daily_capacity = "DAILY_CAPACITY"
reason_text wip_limit = "WIP_LIMIT"
reason_text contention = "CONTENTION"

abbrev text_le : String → String → Bool
text_le a b = elim (compare a b) [ Ordering.gt ↦ false | _ ↦ true ]

-- `(visit_id, reason)` of the two
abbrev pub same_key : QueueCause → QueueCause → Bool
same_key a b = a.visit_id == b.visit_id && str_eq (reason_text a.reason) (reason_text b.reason)

-- `totals[key] = totals.get(key, 0) + cause.delta_microseconds`
abbrev pub add_cause : QueueCause → List QueueCause → List QueueCause
add_cause c [] = c ∷ []
add_cause c (t ∷ rest) =
    let later = add_cause c rest in
    if same_key t c
    then record {
      visit_id = t.visit_id;
      reason = t.reason;
      delta_microseconds = t.delta_microseconds + c.delta_microseconds;
    }
      ∷ rest
    else t ∷ later

-- The loop over the causes
abbrev pub totals_of : List QueueCause → List QueueCause → List QueueCause
totals_of [] totals = totals
totals_of (c ∷ rest) totals = totals_of rest (add_cause c totals)

-- The order of `(str(visit_id), reason)`
abbrev pub key_le : QueueCause → QueueCause → Bool
key_le a b =
    ltb a.visit_id b.visit_id
    || (a.visit_id == b.visit_id && text_le (reason_text a.reason) (reason_text b.reason))

unfoldable pub aggregate_queue_causes : List QueueCause → List QueueCause
aggregate_queue_causes causes = sort_by key_le (totals_of causes [])

abbrev pub is_for : ℕ → String → QueueCause → Bool
is_for visit_id reason c = c.visit_id == visit_id && str_eq (reason_text c.reason) reason

-- What a cause adds to the queue time of a visit for a reason.
abbrev pub share : ℕ → String → QueueCause → ℕ
share visit_id reason c = if is_for visit_id reason c then c.delta_microseconds else 0

-- The queue time of one visit for one reason.
abbrev pub time_for : ℕ → String → List QueueCause → ℕ
time_for visit_id reason [] = 0
time_for visit_id reason (c ∷ rest) = share visit_id reason c + time_for visit_id reason rest
