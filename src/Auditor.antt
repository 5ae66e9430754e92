-- ===== src/Auditor.antt =====
-- backend/app/engine/event_auditor.py over the rows of backend/app/models/event_audit_log.py: whether
-- the events that Dispatch has put into the write queue have reached Jira. Instants are
-- microseconds; one instant stands for the clock during a run.
pub mod Verdicts
mod Tests
use jira_simulator.Base.{
  ℕ, ◌+◌, ◌*◌, String, Bool, true, false, ◌&&◌, Option, none, some, List, [], ◌∷◌, keep_if, find,
  take, leb, ◌==◌, if◌then◌else◌,
}
use jira_simulator.Queue.{JiraWriteQueueEntry}
use jira_simulator.Queue as Queue

pub data Verification : Type 0 where
  pending verified failed timeout : Verification

pub record EventAuditLog : Type 0 where
  pub id : ℕ
  pub scheduled_event_id : ℕ
  pub jira_queue_entry_id : Option ℕ
  pub dispatched_at : Option ℕ
  pub verification_status : Verification
  pub verified_at : Option ℕ
  pub failure_reason : Option String
  pub alert_sent : Bool

abbrev minute : ℕ
minute = 60000000

abbrev pub verification_delay_minutes : ℕ
verification_delay_minutes = 15

abbrev pub timeout_minutes : ℕ
timeout_minutes = 60

abbrev pub audit_batch_size : ℕ
audit_batch_size = 100

-- `dispatched_at is not None and dispatched_at <= now - timedelta(minutes=minutes)`
abbrev pub is_older : ℕ → ℕ → Option ℕ → Bool
is_older minutes now none = false
is_older minutes now (some t) = leb (t + minutes * minute) now

abbrev pub is_pending : Verification → Bool
is_pending Verification.pending = true
is_pending Verification.verified = false
is_pending Verification.failed = false
is_pending Verification.timeout = false

-- `session.get(JiraWriteQueueEntry, audit.jira_queue_entry_id)`, where the audit has an entry
abbrev pub queue_entry : List JiraWriteQueueEntry → Option ℕ → Option JiraWriteQueueEntry
queue_entry entries none = none
queue_entry entries (some entry_id) =
    if entry_id == 0 then none else find (λ e. e.id == entry_id) entries

-- `queue_entry.last_error or "Jira write failed"`
abbrev or_default : Option String → String
or_default none = "Jira write failed"
or_default (some String.[]) = "Jira write failed"
or_default (some (String.◌∷◌ c text)) = String.◌∷◌ c text

-- What `_verify_one` returns, and whether it warns of the audit.
pub data Verdict : Type 0 where
  counts_verified counts_failed counts_timeout : Verdict

abbrev pub Verified : Type 0
Verified = EventAuditLog × Verdict

-- The row with the verdict; a failure marks the alert as sent.
abbrev pub settled : ℕ → EventAuditLog → Verification → Option String → Bool → EventAuditLog
settled now a status reason alerts = record {
  id = a.id;
  scheduled_event_id = a.scheduled_event_id;
  jira_queue_entry_id = a.jira_queue_entry_id;
  dispatched_at = a.dispatched_at;
  verification_status = status;
  verified_at = some now;
  failure_reason = reason;
  alert_sent = if alerts then true else a.alert_sent;
}

-- The end of `_verify_one`, for an entry that has not ended.
abbrev pub check_timeout : ℕ → EventAuditLog → Verified
check_timeout now a =
    if is_older timeout_minutes now a.dispatched_at
    then (
      settled now a Verification.timeout (some "Event was not processed within timeout") true,
      counts_timeout,
    )
    else (a, counts_verified)

abbrev pub judge : ℕ → EventAuditLog → String → Queue.Status → Verified
judge now a error Queue.Status.done =
    (settled now a Verification.verified a.failure_reason false, counts_verified)
judge now a error Queue.Status.failed =
    (settled now a Verification.failed (some error) true, counts_failed)
judge now a error Queue.Status.pending = check_timeout now a
judge now a error Queue.Status.in_flight = check_timeout now a
judge now a error Queue.Status.skipped = check_timeout now a

abbrev pub verify_with : ℕ → EventAuditLog → Option JiraWriteQueueEntry → Verified
verify_with now a none = check_timeout now a
verify_with now a (some e) = judge now a (or_default e.last_error) e.status

-- `_verify_one`
unfoldable pub verify_one : ℕ → List JiraWriteQueueEntry → EventAuditLog → Verified
verify_one now entries a = verify_with now a (queue_entry entries a.jira_queue_entry_id)

pub record Counts : Type 0 where
  pub verified : ℕ
  pub failed : ℕ
  pub timeout : ℕ

-- `counts[result] += 1`
abbrev pub count : Verdict → Counts → Counts
count counts_verified c = record {
  verified = c.verified + 1;
  failed = c.failed;
  timeout = c.timeout;
}
count counts_failed c = record { verified = c.verified; failed = c.failed + 1; timeout = c.timeout }
count counts_timeout c = record {
  verified = c.verified;
  failed = c.failed;
  timeout = c.timeout + 1;
}

-- The query of `run_audit`
abbrev pub pending_audits : ℕ → List EventAuditLog → List EventAuditLog
pending_audits now audits = take audit_batch_size (
    keep_if
      (λ a.
        is_pending a.verification_status && is_older verification_delay_minutes now a.dispatched_at)
      audits)

-- The loop of `run_audit`: each row as it is left, and the counts.
abbrev pub audit_each :
    ℕ → List JiraWriteQueueEntry → List EventAuditLog → List EventAuditLog × Counts
audit_each now entries [] = ([], record { verified = 0; failed = 0; timeout = 0 })
audit_each now entries (a ∷ rest) =
    let later = audit_each now entries rest in
    let done = verify_one now entries a in (done.0 ∷ later.0, count done.1 later.1)

-- `run_audit`: the rows of the batch after it, and the counts that it returns
unfoldable pub run_audit :
    ℕ → List JiraWriteQueueEntry → List EventAuditLog → List EventAuditLog × Counts
run_audit now entries audits = audit_each now entries (pending_audits now audits)
