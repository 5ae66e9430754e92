-- ===== src/Delivery/Store.antt =====
-- backend/app/v2/persistence/jira_delivery_store.py: each method of the store is one transaction
-- on three tables. A method that raises is rolled back, so an exception comes with no new store.
mod First
pub mod Pending
pub mod Records
pub mod Mappings
pub mod Batch
use jira_simulator.Base.{
  ℕ, ◌+◌, String, Bool, true, false, not, ◌&&◌, ◌||◌, Option, none, some, List, [], ◌∷◌, leb, ◌==◌,
  if◌then◌else◌, str_eq, keep_if, find, any, all, take, sort_by, is_some,
}
use jira_simulator.Base.Result.{Result, ok, raised, ◌>>=◌, ◌>>◌, require}
use jira_simulator.Delivery.{
  Json, Items, Fields, DeliveryError, value_error, lookup_error, integrity_error, Intent,
  JiraResourceMapping, PendingJiraIntent, JiraDeliverySuccess, JiraDeliveryFailure,
  pending_jira_intent,
}

pub data ReceiptState : Type 0 where
  retryable delivered : ReceiptState

-- V2JiraDeliveryReceiptModel; its primary key is `intent_id`.
pub record Receipt : Type 0 where
  pub intent_id : ℕ
  pub state : ReceiptState
  pub attempts : ℕ
  pub next_attempt_at : Option ℕ
  pub last_attempt_at : ℕ
  pub delivered_at : Option ℕ
  pub last_error : Option String

pub record Tables : Type 0 where
  pub intents : List Intent
  pub receipts : List Receipt
  pub mappings : List JiraResourceMapping

abbrev pub max_pending_limit : ℕ
max_pending_limit = 50

abbrev pub is_delivered : Receipt → Bool
is_delivered r = elim r.state [ ReceiptState.delivered ↦ true | ReceiptState.retryable ↦ false ]

-- `session.get(V2JiraDeliveryReceiptModel, intent_id)`
abbrev pub receipt_of : List Receipt → ℕ → Option Receipt
receipt_of rows id = find (λ r. r.intent_id == id) rows

abbrev pub Candidate : Type 0
Candidate = Intent × Option Receipt

abbrev pub receipt_open : Option Receipt → Bool
receipt_open none = true
receipt_open (some r) = not (is_delivered r)

-- The outer join of the intents with their receipts.
pub joined : Tables → List Intent → List Candidate
joined db [] = []
joined db (i ∷ is) = (i, receipt_of db.receipts i.id) ∷ joined db is

abbrev pub by_append_sequence : Candidate → Candidate → Bool
by_append_sequence a b = leb a.0.append_sequence b.0.append_sequence

-- `setdefault(intent.team_id, (intent, receipt))` over the rows; `seen` are the keys so far.
pub first_by_team : List ℕ → List Candidate → List Candidate
first_by_team seen [] = []
first_by_team seen ((i, r) ∷ rows) =
    let known = first_by_team seen rows in
    let fresh = first_by_team (i.team_id ∷ seen) rows in
    if any (λ t. t == i.team_id) seen then known else (i, r) ∷ fresh

pub first_outstanding_by_team : Tables → List Candidate
unfolding joined first_by_team
first_outstanding_by_team db =
    first_by_team []
      (sort_by by_append_sequence (keep_if (λ c. receipt_open c.1) (joined db db.intents)))

pub due : Option Receipt → ℕ → Bool
due none as_of = true
due (some r) as_of =
    not (is_delivered r)
    && elim r.next_attempt_at [ none ↦ false | some instant ↦ leb instant as_of ]

-- `document.get(name, [])`
pub get_field : String → Fields → Json
get_field name Fields.close = Json.array Items.end
get_field name (Fields.field key value rest) =
    let later = get_field name rest in if str_eq key name then value else later

strings : Items → Result DeliveryError (List String)
strings Items.end = ok []
strings (Items.item (Json.text s) rest) = do ss ← strings rest; ok (s ∷ ss)
strings (Items.item _ rest) =
    raised (value_error "depends_on must be a list of semantic-key strings")

string_list : Json → Result DeliveryError (List String)
string_list (Json.array values) = strings values
string_list _ = raised (value_error "depends_on must be a list of semantic-key strings")

pub dependency_keys : Fields → Result DeliveryError (List String)
unfolding get_field strings string_list
dependency_keys document = string_list (get_field "depends_on" document)

-- Some intent with this semantic key has a DELIVERED receipt.
abbrev pub key_delivered : Tables → String → Bool
key_delivered db key =
    any
      (λ i.
        str_eq i.semantic_key key
        && elim (receipt_of db.receipts i.id) [ none ↦ false | some r ↦ is_delivered r ])
      db.intents

-- The query selects delivered keys among `dependencies` only, so the two sets are equal when
-- every dependency is selected.
pub dependencies_delivered : Tables → Intent → Result DeliveryError Bool
dependencies_delivered db intent = do
  dependencies ← dependency_keys intent.payload
  ok (all (key_delivered db) dependencies)

-- `_due(...) and _dependencies_delivered(...)`, over the candidates.
pub ready_candidates : Tables → ℕ → List Candidate → Result DeliveryError (List Candidate)
unfolding due dependencies_delivered dependency_keys
ready_candidates db as_of [] = ok []
ready_candidates db as_of ((i, r) ∷ rows) = do
  ready ← if due r as_of then dependencies_delivered db i else ok false
  rest ← ready_candidates db as_of rows
  ok (if ready then (i, r) ∷ rest else rest)

pub pending_intent : Candidate → Result DeliveryError PendingJiraIntent
unfolding dependency_keys pending_jira_intent
pending_intent (i, r) = do
  keys ← dependency_keys i.payload
  pending_jira_intent i keys (elim r [ none ↦ 0 | some receipt ↦ receipt.attempts ])

pub pending_intents : List Candidate → Result DeliveryError (List PendingJiraIntent)
unfolding pending_intent
pending_intents [] = ok []
pending_intents (c ∷ cs) = do item ← pending_intent c; rest ← pending_intents cs; ok (item ∷ rest)

unfoldable pub pending : Tables → ℕ → ℕ → Result DeliveryError (List PendingJiraIntent)
unfolding first_outstanding_by_team ready_candidates pending_intents
pending db as_of limit = do
  require (leb 1 limit && leb limit max_pending_limit)
      (value_error "limit must be between 1 and 50")
  ready ← ready_candidates db as_of (first_outstanding_by_team db)
  pending_intents (take limit ready)

-- _require_intent
pub require_intent : Tables → ℕ → Result DeliveryError (Unit {0})
require_intent db id = require (any (λ i. i.id == id) db.intents) (lookup_error id)

abbrev pub opt_str_eq : Option String → Option String → Bool
opt_str_eq none none = true
opt_str_eq (some a) (some b) = str_eq a b
opt_str_eq _ _ = false

abbrev pub same_identity : ℕ → String → ℕ → JiraResourceMapping → Bool
same_identity team kind id m =
    m.team_id == team && str_eq m.internal_kind kind && m.internal_id == id

-- The unique constraints of the table on the provider's id and key; a null key is no duplicate.
abbrev pub same_provider : JiraResourceMapping → JiraResourceMapping → Bool
same_provider value m =
    m.team_id == value.team_id
    && str_eq m.internal_kind value.internal_kind
    && (str_eq m.jira_id value.jira_id
        || (is_some value.jira_key && opt_str_eq m.jira_key value.jira_key))

-- _ensure_mapping
pub ensure_mapping :
    List JiraResourceMapping → JiraResourceMapping → Result DeliveryError (List JiraResourceMapping)
ensure_mapping rows value =
    elim (find (same_identity value.team_id value.internal_kind value.internal_id) rows) [
      | none ↦ if any (same_provider value) rows then raised integrity_error else ok (value ∷ rows)
      | some existing ↦
          if str_eq existing.jira_id value.jira_id && opt_str_eq existing.jira_key value.jira_key
          then ok rows
          else raised (value_error "resource mapping conflicts with its persisted Jira identity")
    ]

pub ensure_mappings :
    List JiraResourceMapping
    → List JiraResourceMapping
    → Result DeliveryError (List JiraResourceMapping)
unfolding ensure_mapping
ensure_mappings rows [] = ok rows
ensure_mappings rows (value ∷ values) = do
  rows' ← ensure_mapping rows value
  ensure_mappings rows' values

abbrev delivered_receipt : JiraDeliverySuccess → Receipt
delivered_receipt result = record {
  intent_id = result.intent_id;
  state = ReceiptState.delivered;
  attempts = 1;
  next_attempt_at = none;
  last_attempt_at = result.delivered_at;
  delivered_at = some result.delivered_at;
  last_error = none;
}

abbrev retryable_receipt : JiraDeliveryFailure → Receipt
retryable_receipt result = record {
  intent_id = result.intent_id;
  state = ReceiptState.retryable;
  attempts = 1;
  next_attempt_at = some result.retry_at;
  last_attempt_at = result.failed_at;
  delivered_at = none;
  last_error = some result.error;
}

-- The assignments to the receipt row in `record_success`.
abbrev mark_delivered : JiraDeliverySuccess → Receipt → Receipt
mark_delivered result r = if is_delivered r then r else record r {
  state = ReceiptState.delivered;
  attempts = r.attempts + 1;
  next_attempt_at = none;
  last_attempt_at = result.delivered_at;
  delivered_at = some result.delivered_at;
  last_error = none;
}

-- The assignments to the receipt row in `record_failure`.
abbrev mark_failed : JiraDeliveryFailure → Receipt → Receipt
mark_failed result r = if is_delivered r then r else record r {
  attempts = r.attempts + 1;
  next_attempt_at = some result.retry_at;
  last_attempt_at = result.failed_at;
  last_error = some result.error;
}

-- Adds the row, or updates the one that has the primary key.
pub upsert : ℕ → Receipt → (Receipt → Receipt) → List Receipt → List Receipt
upsert id fresh change [] = fresh ∷ []
upsert id fresh change (r ∷ rows) =
    let rest = upsert id fresh change rows in
    if r.intent_id == id then change r ∷ rows else r ∷ rest

unfoldable pub record_success : Tables → JiraDeliverySuccess → Result DeliveryError Tables
unfolding require_intent ensure_mappings upsert
record_success db result = do
  require_intent db result.intent_id
  mappings ← ensure_mappings db.mappings result.mappings
  ok (record db {
    mappings = mappings;
    receipts =
        upsert result.intent_id (delivered_receipt result) (mark_delivered result) db.receipts;
  })

unfoldable pub record_failure : Tables → JiraDeliveryFailure → Result DeliveryError Tables
unfolding require_intent upsert
record_failure db result = do
  require_intent db result.intent_id
  ok (record db {
    receipts = upsert result.intent_id (retryable_receipt result) (mark_failed result) db.receipts;
  })

pub find_mapping : Tables → ℕ → String → ℕ → Option JiraResourceMapping
find_mapping db team kind id = find (same_identity team kind id) db.mappings
