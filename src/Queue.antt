-- ===== src/Queue.antt =====
-- backend/app/integrations/jira_write_queue.py over the rows of
-- backend/app/models/jira_write_queue_entry.py. An instant is the microseconds since a fixed
-- origin, an id the number that it stands for. `_dispatch`, which picks the client's HTTP calls
-- and collects their answers, is a parameter: what it returns or raises for an entry.
pub mod Process
pub mod Recovery
mod Tests
use jira_simulator.Base.{
  ℕ, zero, suc, ◌+◌, String, str_eq, Bool, true, false, not, ◌&&◌, ◌||◌, Option, none, some, List,
  [], ◌∷◌, ◌++◌, map, keep_if, length, sort_by, ltb, leb, ◌==◌, if◌then◌else◌,
}
use jira_simulator.Delivery.{Fields}

pub data Status : Type 0 where
  pending in_flight done failed skipped : Status

abbrev pub is_pending : Status → Bool
is_pending Status.pending = true
is_pending _ = false

abbrev pub is_failed : Status → Bool
is_failed Status.failed = true
is_failed _ = false

pub record JiraWriteQueueEntry : Type 0 where
  pub id : ℕ
  pub team_id : ℕ
  pub issue_id : Option ℕ
  pub operation_type : String
  pub payload : Fields
  pub status : Status
  pub priority : ℕ
  pub created_at : ℕ
  pub processed_at : Option ℕ
  pub attempts : ℕ
  pub last_error : Option String
  pub scheduled_event_id : Option ℕ

-- The columns of an issue that the queue writes.
pub record Issue : Type 0 where
  pub id : ℕ
  pub jira_issue_key : Option String
  pub jira_issue_id : Option String

pub record Db : Type 0 where
  pub entries : List JiraWriteQueueEntry
  pub issues : List Issue

-- The answer of a create call: its `key`, and its `id` as text, "" where there is none.
pub record Response : Type 0 where
  pub key : Option String
  pub id : String

pub data Answer : Type 0 where
  answered : Option Response → Answer
  -- JiraRateLimitError, with its seconds
  rate_limited : ℕ → Answer
  -- another exception, with its text
  broken : String → Answer

abbrev pub Priorities : Type 0
Priorities = List (String × ℕ)

abbrev pub operation_priority : Priorities
operation_priority =
    ("CREATE_SPRINT", 0)
    ∷ ("CREATE_ISSUE", 1)
    ∷ ("ADD_TO_SPRINT", 2)
    ∷ ("MOVE_TO_BACKLOG", 2)
    ∷ ("TRANSITION_ISSUE", 3)
    ∷ ("ADD_COMMENT", 4)
    ∷ ("CREATE_LINK", 5)
    ∷ ("UPDATE_ISSUE", 6)
    ∷ ("UPDATE_SPRINT_DETAILS", 7)
    ∷ ("UPDATE_SPRINT", 7)
    ∷ ("COMPLETE_SPRINT", 7)
    ∷ ("DELETE_SPRINT", 8)
    ∷ []

-- `OPERATION_PRIORITY.get(operation_type, 5)`
abbrev priority_of : Priorities → String → ℕ
priority_of [] operation_type = 5
priority_of ((name, n) ∷ rest) operation_type =
    let later = priority_of rest operation_type in if str_eq name operation_type then n else later

-- `fresh` is the row's new id, `now` its creation.
unfoldable pub enqueue : ℕ → ℕ → ℕ → String → Fields → Option ℕ → Option ℕ → Db → Db
enqueue fresh now team_id operation_type payload issue_id scheduled_event_id db = record db {
  entries =
      db.entries
      ++ record {
        id = fresh;
        team_id = team_id;
        issue_id = issue_id;
        operation_type = operation_type;
        payload = payload;
        status = Status.pending;
        priority = priority_of operation_priority operation_type;
        created_at = now;
        processed_at = none;
        attempts = 0;
        last_error = none;
        scheduled_event_id = scheduled_event_id;
      }
        ∷ [];
}

abbrev pub by_priority : JiraWriteQueueEntry → JiraWriteQueueEntry → Bool
by_priority a b =
    ltb a.priority b.priority || (a.priority == b.priority && leb a.created_at b.created_at)

abbrev pub get_pending_batch : Db → List JiraWriteQueueEntry
get_pending_batch db = sort_by by_priority (keep_if (λ e. is_pending e.status) db.entries)

-- A write to the row with the id.
abbrev pub write :
    ℕ
    → (JiraWriteQueueEntry → JiraWriteQueueEntry)
    → List JiraWriteQueueEntry
    → List JiraWriteQueueEntry
write id f [] = []
write id f (e ∷ es) = let rest = write id f es in if e.id == id then f e ∷ rest else e ∷ rest

-- _map_issue_key: nothing when the issue is not there
abbrev pub map_issue_key : ℕ → Response → List Issue → List Issue
map_issue_key id response [] = []
map_issue_key id response (i ∷ is) =
    let rest = map_issue_key id response is in
    if i.id == id
    then record i { jira_issue_key = response.key; jira_issue_id = some response.id } ∷ is
    else i ∷ rest

-- `text[:n]`
abbrev pub truncated : ℕ → String → String
truncated zero s = String.[]
truncated (suc n) String.[] = String.[]
truncated (suc n) (String.◌∷◌ c s) = String.◌∷◌ c (truncated n s)

-- The mapping that follows a creation.
map_created : JiraWriteQueueEntry → Option Response → List Issue → List Issue
map_created e none issues = issues
map_created e (some response) issues = elim e.issue_id [
  | none ↦ issues
  | some id ↦
      let mapped = map_issue_key id response issues in
      if str_eq e.operation_type "CREATE_ISSUE" then mapped else issues
]

pub complete : ℕ → JiraWriteQueueEntry → JiraWriteQueueEntry
complete now e = record e { status = Status.done; processed_at = some now }

unfoldable pub defer : JiraWriteQueueEntry → JiraWriteQueueEntry
defer e = record e { status = Status.pending }

pub fail : String → JiraWriteQueueEntry → JiraWriteQueueEntry
fail text e = record e {
  status = Status.failed;
  attempts = e.attempts + 1;
  last_error = some (truncated 500 text);
}

pub start : JiraWriteQueueEntry → JiraWriteQueueEntry
start e = record e { status = Status.in_flight }

-- `process_one` after the answer; the number is the pause that it returns.
pub settle : ℕ → JiraWriteQueueEntry → Answer → Db → Db × Option ℕ
unfolding complete defer fail map_created
settle now e (answered result) db = (
  record {
    entries = write e.id (complete now) db.entries;
    issues = map_created e result db.issues;
  },
  none,
)
settle now e (rate_limited seconds) db =
    (record db { entries = write e.id defer db.entries }, some seconds)
settle now e (broken text) db = (record db { entries = write e.id (fail text) db.entries }, none)

module _ (dispatch : JiraWriteQueueEntry → Answer) (now : ℕ) where
  pub process_one : JiraWriteQueueEntry → Db → Db × Option ℕ
  unfolding start settle
  process_one e db =
      settle now e (dispatch (start e)) (record db { entries = write e.id start db.entries })

  -- `if retry_after`: a pause of no seconds does not end the batch.
  abbrev pub pauses : Option ℕ → Bool
  pauses none = false
  pauses (some n) = not (n == 0)

  -- The loop of `process_batch`, without the waits between the entries
  pub process_all : List JiraWriteQueueEntry → Db → Db
  unfolding process_one
  process_all [] db = db
  process_all (e ∷ es) db =
      let (db', pause) = process_one e db in
      let rest = process_all es db' in if pauses pause then db' else rest

  unfoldable pub process_batch : Bool → Db → Db
  unfolding process_all
  process_batch offline db = if offline then db else process_all (get_pending_batch db) db

unfoldable pub retry_failed : Db → Db × ℕ
retry_failed db = (
  record db {
    entries =
        map
          (λ e.
            if is_failed e.status then record e { status = Status.pending; attempts = 0 } else e)
          db.entries;
  },
  length (keep_if (λ e. is_failed e.status) db.entries),
)
