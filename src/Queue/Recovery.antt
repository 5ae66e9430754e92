-- ===== src/Queue/Recovery.antt =====
-- The recovery of the write queue: _group_by_issue, _collapse_and_write, _build_catchup_comment and
-- run_recovery.
pub mod Comments
use jira_simulator.Base.{
  ℕ, String, str_eq, Bool, Option, none, some, List, [], ◌∷◌, ◌++◌, if◌then◌else◌, keep_if, length,
  sort_by, leb, opt_eq,
}
use jira_simulator.Delivery.{Json, Fields}
use jira_simulator.Queue.{Status, JiraWriteQueueEntry, Db, is_pending, write, defer, enqueue}

-- `groups.setdefault(key, []).append(entry)`
abbrev pub Groups : Type 0
Groups = List (Option ℕ × List JiraWriteQueueEntry)

abbrev pub add_to_group : JiraWriteQueueEntry → Groups → Groups
add_to_group e [] = (e.issue_id, e ∷ []) ∷ []
add_to_group e ((key, es) ∷ rest) =
    let later = add_to_group e rest in
    if opt_eq key e.issue_id then (key, es ++ e ∷ []) ∷ rest else (key, es) ∷ later

abbrev pub group_from : Groups → List JiraWriteQueueEntry → Groups
group_from groups [] = groups
group_from groups (e ∷ es) = group_from (add_to_group e groups) es

abbrev pub group_by_issue : List JiraWriteQueueEntry → Groups
group_by_issue es = group_from [] es

abbrev pub skip : JiraWriteQueueEntry → JiraWriteQueueEntry
skip e = record e { status = Status.skipped }

abbrev pub skip_all : List JiraWriteQueueEntry → List JiraWriteQueueEntry → List JiraWriteQueueEntry
skip_all [] rows = rows
skip_all (e ∷ es) rows = skip_all es (write e.id skip rows)

-- `entries[-1]` of e ∷ es
abbrev pub last_of : JiraWriteQueueEntry → List JiraWriteQueueEntry → JiraWriteQueueEntry
last_of e [] = e
last_of e (x ∷ xs) = last_of x xs

-- The text under `issue_key`, when it is there and not empty.
abbrev pub issue_key_of : Fields → Option String
issue_key_of Fields.close = none
issue_key_of (Fields.field name (Json.text t) rest) =
    let later = issue_key_of rest in
    if str_eq name "issue_key" then (if str_eq t "" then none else some t) else later
issue_key_of (Fields.field name _ rest) = issue_key_of rest

-- The rows once the entries of a group have the statuses that `_collapse_and_write` gives them.
unfoldable pub collapse :
    List JiraWriteQueueEntry → List JiraWriteQueueEntry → List JiraWriteQueueEntry
unfolding defer
collapse [] rows = rows
collapse (e ∷ es) rows = write (last_of e es).id defer (skip_all (e ∷ es) rows)

-- The groups of `run_recovery`
abbrev pub pending_groups : Db → Groups
pending_groups db =
    group_by_issue (
      sort_by (λ a b. leb a.created_at b.created_at)
        (keep_if (λ e. is_pending e.status) db.entries))

-- What `self._session_factory()` gives: a new session for each call, as a sessionmaker does, or one
-- session for all.
pub data Sessions : Type 0 where
  new_sessions one_session : Sessions

-- The rows that the commits of `_collapse_and_write` leave in the table. It changes entries of the
-- session of `run_recovery` and commits a session that it asks for itself.
abbrev pub committed :
    Sessions → List JiraWriteQueueEntry → List JiraWriteQueueEntry → List JiraWriteQueueEntry
committed new_sessions rows changed = rows
committed one_session rows changed = changed

-- The comment's text, of the first and last instant and the number of the entries; the clock and
-- the source of new ids.
module _ (sessions : Sessions) (catchup_body : ℕ → ℕ → ℕ → String) (now : ℕ) (fresh : Db → ℕ) where
  abbrev pub comment : ℕ → String → JiraWriteQueueEntry → JiraWriteQueueEntry → ℕ → Db → Db
  comment issue_id key first last count db =
      enqueue (fresh db) now last.team_id "ADD_COMMENT"
        (Fields.field "issue_key" (Json.text key) (
          Fields.field "body" (Json.text (catchup_body first.created_at last.created_at count))
            Fields.close))
        (some issue_id) none db

  abbrev pub collapse_and_write : Option ℕ → List JiraWriteQueueEntry → Db → Db
  collapse_and_write issue_id [] db = db
  collapse_and_write none (e ∷ es) db = record db {
    entries = committed sessions db.entries (collapse (e ∷ es) db.entries);
  }
  collapse_and_write (some id) (e ∷ es) db =
      let db' = record db {
        entries = committed sessions db.entries (collapse (e ∷ es) db.entries);
      } in
      elim (issue_key_of e.payload) [
        | none ↦ db'
        | some key ↦ comment id key e (last_of e es) (length (e ∷ es)) db'
      ]

  abbrev pub collapse_groups : Groups → Db → Db
  collapse_groups [] db = db
  collapse_groups ((issue_id, es) ∷ rest) db =
      collapse_groups rest (collapse_and_write issue_id es db)

  unfoldable pub run_recovery : Db → Db
  run_recovery db = collapse_groups (pending_groups db) db
