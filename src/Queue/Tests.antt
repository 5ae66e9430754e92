-- ===== src/Queue/Tests.antt =====
-- Runs of the write queue, and the theorems at such inputs.
use jira_simulator.Base.{ℕ, ◌≡◌, refl, String, false, none, some, [], ◌∷◌, map, All}
use jira_simulator.Delivery.{Json, Fields}
use jira_simulator.Queue.{
  Status, JiraWriteQueueEntry, Db, Answer, rate_limited, enqueue, get_pending_batch, process_one,
  process_batch, start, retry_failed,
}
use jira_simulator.Queue.Process.{
  Rests, pause_of, replaced, settled, process_one_lem, process_batch-Rests,
}
use jira_simulator.Queue.Recovery.{Sessions, collapse, run_recovery}

abbrev empty : Db
empty = record { entries = []; issues = [] }

abbrev payload : Fields
payload = Fields.field "issue_key" (Json.text "AB-1") Fields.close

abbrev two_writes : Db
two_writes =
    enqueue 2 20 1 "CREATE_ISSUE" payload (some 5) none
      (enqueue 1 10 1 "TRANSITION_ISSUE" payload (some 5) none empty)

abbrev row : ℕ → ℕ → String → ℕ → Status → JiraWriteQueueEntry
row id created_at operation_type priority status = record {
  id = id;
  team_id = 1;
  issue_id = some 5;
  operation_type = operation_type;
  payload = payload;
  status = status;
  priority = priority;
  created_at = created_at;
  processed_at = none;
  attempts = 0;
  last_error = none;
  scheduled_event_id = none;
}

abbrev transition : JiraWriteQueueEntry
transition = row 1 10 "TRANSITION_ISSUE" 3 Status.pending

abbrev creation : JiraWriteQueueEntry
creation = row 2 20 "CREATE_ISSUE" 1 Status.pending

abbrev queued : Db
queued = record { entries = transition ∷ creation ∷ []; issues = [] }

abbrev busy : JiraWriteQueueEntry → Answer
busy e = rate_limited 60

two_queued : two_writes ≡ queued
unfolding enqueue
two_queued = refl

creation_first : get_pending_batch queued ≡ creation ∷ transition ∷ []
creation_first = refl

limited_batch : process_batch busy 30 false queued ≡ queued
unfolding process_batch
limited_batch = refl

failed_again :
    (retry_failed (record { entries = row 1 10 "ADD_COMMENT" 4 Status.failed ∷ []; issues = [] })).1
    ≡ 1
unfolding retry_failed
failed_again = refl

recovered :
    map
      (λ e. e.status)
      (run_recovery Sessions.one_session (λ first last n. "resumed") 40 (λ db. 3) queued).entries
    ≡ Status.skipped ∷ Status.pending ∷ Status.pending ∷ []
unfolding run_recovery enqueue collapse
recovered = refl

process_one_lem_example :
    ((process_one busy 30 creation queued).0.entries
      ≡ replaced 2 (settled 30 (busy (start creation))) queued.entries)
    × ((process_one busy 30 creation queued).1 ≡ pause_of (busy (start creation)))
process_one_lem_example = process_one_lem busy 30 creation queued

process_batch-Rests_example : All Rests (process_batch busy 30 false queued).entries
process_batch-Rests_example =
    process_batch-Rests busy 30 false queued ((λ e. cc (e)), ((λ e. cc (e)), tt))

-- With new sessions both entries wait still, behind the comment that the recovery adds.
not_collapsed :
    map
      (λ e. e.status)
      (run_recovery Sessions.new_sessions (λ first last n. "resumed") 40 (λ db. 3) queued).entries
    ≡ Status.pending ∷ Status.pending ∷ Status.pending ∷ []
unfolding run_recovery enqueue collapse
not_collapsed = refl
