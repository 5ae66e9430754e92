-- ===== src/Auditor/Verdicts.antt =====
-- What an audit run makes of its batch.
use jira_simulator.Base.{Bool, keep_if, ℕ, ◌+◌, ◌≡◌, ◌≢◌, true, false, some, List, [], ◌∷◌, length}
use jira_simulator.Queue.{JiraWriteQueueEntry}
use jira_simulator.Queue as Queue
use jira_simulator.Auditor.{
  EventAuditLog, Verification, Verdict, Counts, is_older, is_pending, queue_entry, timeout_minutes,
}

-- The audit's entry is in the queue with this status.
abbrev pub HasEnded : List JiraWriteQueueEntry → EventAuditLog → Queue.Status → Type 0
HasEnded entries a status =
    (e : JiraWriteQueueEntry) × (queue_entry entries a.jira_queue_entry_id ≡ some e)
    × (e.status ≡ status)

-- What stands behind the status of a row after the audit.
pub record IsAudited (now : ℕ) (entries : List JiraWriteQueueEntry) (a after : EventAuditLog)
    : Type 0 where
  pub same_event : after.scheduled_event_id ≡ a.scheduled_event_id
  pub verified :
      after.verification_status ≡ Verification.verified → HasEnded entries a Queue.Status.done
  pub failed :
      after.verification_status ≡ Verification.failed → HasEnded entries a Queue.Status.failed
  pub alerted :
      after.verification_status ≢ Verification.pending
      → after.verification_status ≢ Verification.verified
      → after.alert_sent ≡ true
  pub waiting :
      after.verification_status ≡ Verification.pending
      → (after ≡ a) × (is_older timeout_minutes now a.dispatched_at ≡ false)

-- Each row of the batch with the row after the run.
abbrev pub EachAudited :
    ℕ → List JiraWriteQueueEntry → List EventAuditLog → List EventAuditLog → Type 0
EachAudited now entries [] [] = Unit
EachAudited now entries [] (b ∷ bs) = true ≡ false
EachAudited now entries (a ∷ as_) [] = true ≡ false
EachAudited now entries (a ∷ as_) (b ∷ bs) =
    IsAudited now entries a b × EachAudited now entries as_ bs

abbrev pub is_verified : Verification → Bool
is_verified Verification.pending = false
is_verified Verification.verified = true
is_verified Verification.failed = false
is_verified Verification.timeout = false

abbrev pub is_failed : Verification → Bool
is_failed Verification.pending = false
is_failed Verification.verified = false
is_failed Verification.failed = true
is_failed Verification.timeout = false

abbrev pub is_timeout : Verification → Bool
is_timeout Verification.pending = false
is_timeout Verification.verified = false
is_timeout Verification.failed = false
is_timeout Verification.timeout = true

-- How many of the rows have a status.
abbrev pub rows_with : (Verification → Bool) → List EventAuditLog → ℕ
rows_with p rows = length (keep_if (λ a. p a.verification_status) rows)

-- What the counts are of the rows after the audit.
pub record IsCounted (c : Counts) (rows : List EventAuditLog) : Type 0 where
  pub verified : c.verified ≡ rows_with is_verified rows + rows_with is_pending rows
  pub failed : c.failed ≡ rows_with is_failed rows
  pub timeout : c.timeout ≡ rows_with is_timeout rows

-- What a row is counted as.
abbrev verdict_of : Verification → Verdict
verdict_of Verification.pending = Verdict.counts_verified
verdict_of Verification.verified = Verdict.counts_verified
verdict_of Verification.failed = Verdict.counts_failed
verdict_of Verification.timeout = Verdict.counts_timeout
