-- ===== src/Auditor/Tests.antt =====
-- An audit of three rows, and the theorem at these rows.
use jira_simulator.Base.{ℕ, ◌≡◌, refl, false, none, some, List, [], ◌∷◌, map}
use jira_simulator.Delivery.{Fields}
use jira_simulator.Queue.{JiraWriteQueueEntry}
use jira_simulator.Queue as Queue
use jira_simulator.Auditor.{EventAuditLog, Verification, verify_one, run_audit}

abbrev audit : ℕ → ℕ → ℕ → EventAuditLog
audit id entry_id dispatched = record {
  id = id;
  scheduled_event_id = id;
  jira_queue_entry_id = some entry_id;
  dispatched_at = some dispatched;
  verification_status = Verification.pending;
  verified_at = none;
  failure_reason = none;
  alert_sent = false;
}

abbrev entry : ℕ → Queue.Status → JiraWriteQueueEntry
entry id status = record {
  id = id;
  team_id = 1;
  issue_id = some 5;
  operation_type = "ADD_COMMENT";
  payload = Fields.close;
  status = status;
  priority = 3;
  created_at = 0;
  processed_at = none;
  attempts = 0;
  last_error = none;
  scheduled_event_id = some id;
}

abbrev rows : List EventAuditLog
rows = audit 1 11 0 ∷ audit 2 12 0 ∷ audit 3 12 3000000000 ∷ []

abbrev queue : List JiraWriteQueueEntry
queue = entry 11 Queue.Status.done ∷ entry 12 Queue.Status.pending ∷ []

-- Row 3 waits still, and is counted as verified.
one_waits_and_counts :
    (map (λ a. a.verification_status) (run_audit 4000000000 queue rows).0
      ≡ Verification.verified ∷ Verification.timeout ∷ Verification.pending ∷ [])
    × ((run_audit 4000000000 queue rows).1 ≡ record { verified = 2; failed = 0; timeout = 1 })
unfolding run_audit verify_one
one_waits_and_counts = (refl, refl)
