-- ===== src/Queue/Recovery/Comments.antt =====
-- What a recovery leaves in the table where each call of the session factory gives a new session.
use jira_simulator.Base.{
  ℕ, ◌≡◌, Bool, false, Option, List, [], ◌∷◌, ◌++◌, All, length, keep_if, is_some, ◌&&◌,
}
use jira_simulator.Queue.{Status, JiraWriteQueueEntry, Db}
use jira_simulator.Queue.Recovery.{Groups, issue_key_of}

abbrev pub IsComment : JiraWriteQueueEntry → Type 0
IsComment e = (e.operation_type ≡ "ADD_COMMENT") × (e.status ≡ Status.pending)

-- Whether a group gets a comment: it is of an issue, and its first entry names the issue's key.
abbrev pub wants_comment : Option ℕ × List JiraWriteQueueEntry → Bool
wants_comment (issue_id, []) = false
wants_comment (issue_id, e ∷ es) = is_some issue_id && is_some (issue_key_of e.payload)

-- The table has gained this many comments, and is as it was otherwise.
pub record IsCommented (count : ℕ) (db after : Db) : Type 0 where
  pub comments : List JiraWriteQueueEntry
  pub entries : after.entries ≡ db.entries ++ comments
  pub number : length comments ≡ count
  pub pending : All IsComment comments
  pub issues : after.issues ≡ db.issues

abbrev pub comments_of : Groups → ℕ
comments_of groups = length (keep_if wants_comment groups)
