-- ===== src/Dispatch.antt =====
-- backend/app/engine/event_dispatcher.py over the rows of backend/app/models/scheduled_event.py and
-- event_audit_log.py. The rows that it adds to the write queue are those of Queue. One instant
-- stands for the clock during a run, and new ids of the queue come from a given source.
pub mod Once
mod Tests
use jira_simulator.Base.{
  ℕ, ◌+◌, String, Bool, true, false, ◌&&◌, ◌||◌, Option, none, some, List, [], ◌∷◌, ◌++◌, map,
  keep_if, take, length, sort_by, ltb, leb, ◌==◌, opt_eq, if◌then◌else◌,
}
use jira_simulator.Delivery.{Fields}
use jira_simulator.Queue.{Db, JiraWriteQueueEntry, enqueue}

pub data EventStatus : Type 0 where
  pending modified dispatched cancelled : EventStatus

pub record ScheduledEvent : Type 0 where
  pub id : ℕ
  pub team_id : ℕ
  pub issue_id : Option ℕ
  pub event_type : String
  pub scheduled_at : ℕ
  pub payload : Fields
  pub status : EventStatus
  pub dispatched_at : Option ℕ
  pub sequence_order : ℕ

-- The audit row of a dispatch; its verification is pending.
pub record EventAuditLog : Type 0 where
  pub scheduled_event_id : ℕ
  pub jira_queue_entry_id : Option ℕ
  pub expected_at : ℕ
  pub dispatched_at : ℕ

pub record State : Type 0 where
  pub events : List ScheduledEvent
  pub audits : List EventAuditLog
  pub queue : Db

abbrev pub dispatch_batch_size : ℕ
dispatch_batch_size = 50

-- status in ("PENDING", "MODIFIED")
abbrev pub is_open : EventStatus → Bool
is_open EventStatus.pending = true
is_open EventStatus.modified = true
is_open _ = false

abbrev pub is_due : ℕ → ScheduledEvent → Bool
is_due now e = is_open e.status && leb e.scheduled_at now

abbrev pub by_time : ScheduledEvent → ScheduledEvent → Bool
by_time a b =
    ltb a.scheduled_at b.scheduled_at
    || (a.scheduled_at == b.scheduled_at && leb a.sequence_order b.sequence_order)

-- The query of `dispatch_due_events`
pub due_events : ℕ → List ScheduledEvent → List ScheduledEvent
due_events now events = take dispatch_batch_size (sort_by by_time (keep_if (is_due now) events))

abbrev pub stamp : ℕ → ScheduledEvent → ScheduledEvent
stamp now e = record e { status = EventStatus.dispatched; dispatched_at = some now }

abbrev pub first_id : List JiraWriteQueueEntry → Option ℕ
first_id [] = none
first_id (e ∷ _) = some e.id

-- The newest row of the queue for the event.
abbrev pub newest_entry : ℕ → Db → Option ℕ
newest_entry event_id queue = first_id (
    sort_by (λ a b. leb b.created_at a.created_at)
      (keep_if (λ e. opt_eq e.scheduled_event_id (some event_id)) queue.entries))

module _ (fresh : Db → ℕ) (now : ℕ) where
  pub enqueue_event : ScheduledEvent → Db → Db × Option ℕ
  unfolding enqueue
  enqueue_event e queue =
      let queue' =
        enqueue (fresh queue) now e.team_id e.event_type e.payload e.issue_id (some e.id) queue in
      (queue', newest_entry e.id queue')

  -- The body of the loop.
  pub dispatch_one : ScheduledEvent → State → State
  unfolding enqueue_event
  dispatch_one e s =
      let (queue, entry_id) = enqueue_event e s.queue in
      record {
        events = map (λ r. if r.id == e.id then stamp now r else r) s.events;
        audits =
            s.audits
            ++ record {
              scheduled_event_id = e.id;
              jira_queue_entry_id = entry_id;
              expected_at = e.scheduled_at;
              dispatched_at = now;
            }
              ∷ [];
        queue = queue;
      }

  pub dispatch_all : List ScheduledEvent → State → State
  unfolding dispatch_one
  dispatch_all [] s = s
  dispatch_all (e ∷ es) s = dispatch_all es (dispatch_one e s)

  unfoldable pub dispatch_due_events : State → State × ℕ
  unfolding dispatch_all due_events
  dispatch_due_events s =
      (dispatch_all (due_events now s.events) s, length (due_events now s.events))
