-- ===== src/Health.antt =====
-- backend/app/integrations/jira_health.py: whether Jira can be reached. The monitor is pinged by a
-- job of backend/app/integrations/scheduler.py every minute; the write queue reads its status.
pub mod Outages
mod Tests
use jira_simulator.Base.{
  ℕ, ◌+◌, Bool, true, false, Option, none, some, List, [], ◌∷◌, leb, if◌then◌else◌,
}

pub data Status : Type 0 where
  online offline recovering : Status

pub record JiraHealthMonitor : Type 0 where
  pub status : Status
  pub last_checked : Option ℕ
  pub last_online : Option ℕ
  pub consecutive_failures : ℕ
  pub outage_start : Option ℕ

abbrev pub failures_threshold : ℕ
failures_threshold = 2

-- The monitor as `__init__` leaves it.
abbrev pub new_monitor : JiraHealthMonitor
new_monitor = record {
  status = online;
  last_checked = none;
  last_online = none;
  consecutive_failures = 0;
  outage_start = none;
}

-- The calls of `on_status_change`, the old status and the new one.
abbrev pub Changes : Type 0
Changes = List (Status × Status)

-- `_transition_to`
abbrev pub transition_to : JiraHealthMonitor → Status → JiraHealthMonitor × Changes
transition_to m new_status = (record m { status = new_status }, (m.status, new_status) ∷ [])

abbrev recover : Status → JiraHealthMonitor → JiraHealthMonitor × Changes
recover offline m = transition_to m recovering
recover online m = (m, [])
recover recovering m = (m, [])

-- `_handle_success` at an instant
pub handle_success : ℕ → JiraHealthMonitor → JiraHealthMonitor × Changes
handle_success now m =
    recover m.status (record m { consecutive_failures = 0; last_online = some now })

abbrev give_up : Status → ℕ → JiraHealthMonitor → JiraHealthMonitor × Changes
give_up online now m =
    if leb failures_threshold m.consecutive_failures
    then transition_to (record m { outage_start = some now }) offline
    else (m, [])
give_up offline now m = (m, [])
give_up recovering now m = (m, [])

-- `_handle_failure` at an instant
pub handle_failure : ℕ → JiraHealthMonitor → JiraHealthMonitor × Changes
handle_failure now m =
    give_up m.status now (record m { consecutive_failures = m.consecutive_failures + 1 })

-- `check`, with the answer of the ping
pub check : ℕ → Bool → JiraHealthMonitor → JiraHealthMonitor × Changes
unfolding handle_success handle_failure
check now is_reachable m =
    let checked = record m { last_checked = some now } in
    if is_reachable then handle_success now checked else handle_failure now checked

abbrev completed : Status → JiraHealthMonitor → JiraHealthMonitor
completed recovering m = record m { status = online; outage_start = none }
completed online m = m
completed offline m = m

-- `mark_recovery_complete`
pub mark_recovery_complete : JiraHealthMonitor → JiraHealthMonitor
mark_recovery_complete m = completed m.status m

-- The checks of the job, one after the other: the instant and the answer of each.
pub run_checks : List (ℕ × Bool) → JiraHealthMonitor → JiraHealthMonitor
unfolding check
run_checks [] m = m
run_checks ((now, is_reachable) ∷ rest) m = run_checks rest (check now is_reachable m).0
