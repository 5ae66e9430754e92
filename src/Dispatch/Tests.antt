-- ===== src/Dispatch/Tests.antt =====
-- A run of the dispatcher, and the theorems at such an input.
use jira_simulator.Base.{ℕ, ◌≤◌, ◌≡◌, refl, true, false, none, some, [], ◌∷◌, All, length, map}
use jira_simulator.Delivery.{Fields}
use jira_simulator.Queue.{Db, enqueue}
use jira_simulator.Dispatch.{
  EventStatus, ScheduledEvent, State, is_due, due_events, dispatch_due_events,
}
use jira_simulator.Dispatch.Once.{is_in, IsDispatched, dispatch_due_events_lem, dispatched-not_due}

abbrev event : ℕ → ℕ → EventStatus → ScheduledEvent
event id scheduled_at status = record {
  id = id;
  team_id = 1;
  issue_id = some 5;
  event_type = "TRANSITION_ISSUE";
  scheduled_at = scheduled_at;
  payload = Fields.close;
  status = status;
  dispatched_at = none;
  sequence_order = id;
}

abbrev planned : State
planned = record {
  events =
      event 1 30 EventStatus.pending
      ∷ event 2 10 EventStatus.modified
      ∷ event 3 10 EventStatus.cancelled
      ∷ event 4 90 EventStatus.pending
      ∷ [];
  audits = [];
  queue = record { entries = []; issues = [] };
}

abbrev next_id : Db → ℕ
next_id queue = length queue.entries

two_dispatched :
    map (λ a. a.scheduled_event_id) (dispatch_due_events next_id 50 planned).0.audits ≡ 2 ∷ 1 ∷ []
unfolding dispatch_due_events enqueue
two_dispatched = refl

dispatch_due_events_lem_example :
    ((dispatch_due_events next_id 50 planned).1 ≤ 50)
    × All (λ e. is_due 50 e ≡ true) (due_events 50 planned.events)
    × (length (due_events 50 planned.events) ≡ (dispatch_due_events next_id 50 planned).1)
    × IsDispatched next_id 50
        (due_events 50 planned.events)
        planned
        (dispatch_due_events next_id 50 planned).0
dispatch_due_events_lem_example = dispatch_due_events_lem next_id 50 planned

dispatched-not_due_example :
    All
      (λ r. is_in (due_events 50 planned.events) r.id ≡ true → is_due 80 r ≡ false)
      (dispatch_due_events next_id 50 planned).0.events
dispatched-not_due_example = dispatched-not_due next_id 50 planned 80
