-- ===== src/Delivery/Tests.antt =====
-- Runs of Jira delivery on small tables, and the theorems at such inputs.
use jira_simulator.Base.{ℕ, ◌≡◌, ◌≢◌, refl, none, some, [], ◌∷◌, List, String, All, leb, is_blank}
use jira_simulator.Base.Result.{ok, raised}
use jira_simulator.Delivery.{
  Json, Items, Fields, Intent, PendingJiraIntent, JiraDeliverySuccess, JiraDeliveryFailure,
  JiraResourceMapping, DeliveryBatchResult, value_error, jira_resource_mapping,
}
use jira_simulator.Delivery.Store.{
  Tables, ReceiptState, Receipt, receipt_of, due, pending, record_success, record_failure,
  find_mapping,
}
use jira_simulator.Delivery.Store.Pending.{IsReady, pending-IsReady}
use jira_simulator.Delivery.Store.Records.{
  attempts_after, here, next, appends, delivered-not-pending, record_success_lem,
  record_failure_lem,
}
use jira_simulator.Delivery.Store.Mappings.{record_success-maps}
use jira_simulator.Delivery.Worker.{Adapter, rate_limited, retry_delay}

abbrev intent : ℕ → ℕ → String → ℕ → Items → Intent
intent id team key sequence deps = record {
  id = id;
  team_id = team;
  semantic_key = key;
  append_sequence = sequence;
  payload = Fields.field "depends_on" (Json.array deps) Fields.close;
}

abbrev create : Intent
create = intent 11 1 "create" 1 Items.end

abbrev start : Intent
start = intent 12 1 "start" 2 (Items.item (Json.text "create") Items.end)

abbrev other : Intent
other = intent 21 2 "other" 3 Items.end

abbrev issue_mapping : JiraResourceMapping
issue_mapping = record {
  team_id = 1;
  internal_kind = "issue";
  internal_id = 5;
  jira_id = "10001";
  jira_key = some "AB-1";
}

abbrev two_steps : Tables
two_steps = record { intents = start ∷ create ∷ other ∷ []; receipts = []; mappings = [] }

abbrev item : Intent → List String → ℕ → PendingJiraIntent
item i keys attempts = record { intent = i; dependency_keys = keys; attempts = attempts }

abbrev first_items : List PendingJiraIntent
first_items = item create [] 0 ∷ item other [] 0 ∷ []

abbrev created : JiraDeliverySuccess
created = record { intent_id = 11; mappings = issue_mapping ∷ []; delivered_at = 70 }

abbrev delivered_row : Receipt
delivered_row = record {
  intent_id = 11;
  state = ReceiptState.delivered;
  attempts = 1;
  next_attempt_at = none;
  last_attempt_at = 70;
  delivered_at = some 70;
  last_error = none;
}

abbrev one_done : Tables
one_done = record {
  intents = start ∷ create ∷ other ∷ [];
  receipts = delivered_row ∷ [];
  mappings = issue_mapping ∷ [];
}

abbrev later_items : List PendingJiraIntent
later_items = item start ("create" ∷ []) 0 ∷ item other [] 0 ∷ []

abbrev refused : JiraDeliveryFailure
refused = record { intent_id = 11; retry_at = 90; error = "busy"; failed_at = 80 }

abbrev one_refused : Tables
one_refused = record {
  intents = start ∷ create ∷ other ∷ [];
  receipts =
      record {
        intent_id = 11;
        state = ReceiptState.retryable;
        attempts = 1;
        next_attempt_at = some 90;
        last_attempt_at = 80;
        delivered_at = none;
        last_error = some "busy";
      }
      ∷ [];
  mappings = [];
}

first_pending : pending two_steps 60 50 ≡ ok first_items
unfolding pending is_blank
first_pending = refl

later_pending : pending one_done 80 50 ≡ ok later_items
unfolding pending is_blank
later_pending = refl

creation_recorded : record_success two_steps created ≡ ok one_done
unfolding record_success
creation_recorded = refl

refusal_recorded : record_failure two_steps refused ≡ ok one_refused
unfolding record_failure
refusal_recorded = refl

blank_kind_refused :
    jira_resource_mapping 1 " " 5 "10001" none
    ≡ raised (value_error "internal_kind must be a non-empty string")
unfolding jira_resource_mapping is_blank
blank_kind_refused = refl

pending-IsReady_example : All (IsReady two_steps 60) first_items
pending-IsReady_example = pending-IsReady two_steps 60 50 first_items first_pending

abbrev with_another : Tables
with_another = record one_done { intents = intent 31 3 "third" 4 Items.end ∷ one_done.intents }

abbrev three_items : List PendingJiraIntent
three_items =
    item start ("create" ∷ []) 0
    ∷ item other [] 0
    ∷ item (intent 31 3 "third" 4 Items.end) [] 0
    ∷ []

three_pending : pending with_another 80 50 ≡ ok three_items
unfolding pending is_blank
three_pending = refl

delivered-not-pending_example : All (λ i. i.intent.id ≢ 11) three_items
delivered-not-pending_example =
    delivered-not-pending {db = one_done} {db' = with_another} 11 80 50 three_items
      (delivered_row, refl, refl) (next here (appends (intent 31 3 "third" 4 Items.end)))
      three_pending

record_success_lem_example :
    ((r : Receipt) × (receipt_of one_done.receipts 11 ≡ some r)
      × (r.state ≡ ReceiptState.delivered)
      × (r.attempts ≡ attempts_after (receipt_of two_steps.receipts 11)))
    × ((j : ℕ) → j ≢ 11 → receipt_of one_done.receipts j ≡ receipt_of two_steps.receipts j)
record_success_lem_example = record_success_lem two_steps created creation_recorded

record_failure_lem_example :
    ((r : Receipt) × (receipt_of one_refused.receipts 11 ≡ some r)
      × (r.attempts ≡ attempts_after (receipt_of two_steps.receipts 11))
      × ((t : ℕ) → due (some r) t ≡ leb 90 t))
    × ((j : ℕ) → j ≢ 11 → receipt_of one_refused.receipts j ≡ receipt_of two_steps.receipts j)
record_failure_lem_example = record_failure_lem two_steps refused refusal_recorded refl

record_success-maps_example :
    All
      (λ v.
        (m : JiraResourceMapping) × (find_mapping one_done v.team_id v.internal_kind v.internal_id
          ≡ some m)
        × (m.jira_id ≡ v.jira_id)
        × (m.jira_key ≡ v.jira_key))
      created.mappings
    × ((team : ℕ) (kind : String) (id : ℕ) (m : JiraResourceMapping)
        → find_mapping two_steps team kind id ≡ some m
        → find_mapping one_done team kind id ≡ some m)
record_success-maps_example = record_success-maps two_steps one_done created creation_recorded

abbrev limited : Adapter
limited n i = rate_limited 60 "busy"

abbrev refused_row : ℕ → Receipt
refused_row id = record {
  intent_id = id;
  state = ReceiptState.retryable;
  attempts = 1;
  next_attempt_at = some 160;
  last_attempt_at = 100;
  delivered_at = none;
  last_error = some "busy";
}

abbrev both_refused : Tables
both_refused = record two_steps { receipts = refused_row 11 ∷ refused_row 21 ∷ [] }

abbrev two_failed : DeliveryBatchResult
two_failed = record { attempted = 2; delivered = 0; deferred = 0; failed = 2 }

doubled_delays :
    (retry_delay 0 ≡ 10) × (retry_delay 1 ≡ 20) × (retry_delay 4 ≡ 160) × (retry_delay 5 ≡ 300)
unfolding retry_delay
doubled_delays = (refl, refl, refl, refl)
