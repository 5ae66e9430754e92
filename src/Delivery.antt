-- ===== src/Delivery.antt =====
-- backend/app/v2/domain/jira_delivery.py: the values of retryable Jira delivery, and the rows of
-- backend/app/v2/persistence/jira_delivery_models.py that the store keeps. A UUID is the number
-- that it stands for, and an aware instant the microseconds since a fixed origin in UTC.
pub mod Store
pub mod Worker
mod Tests
use jira_simulator.Base.{
  ℕ, String, Bool, not, Option, none, some, List, any, is_blank, if◌then◌else◌,
}
use jira_simulator.Base.Result.{Result, ok, raised, require, ◌>>=◌, ◌>>◌}

-- The parsed form of a canonical JSON payload.
mutual
  pub data Json : Type 0 where
    null : Json
    boolean : Bool → Json
    number : String → Json
    text : String → Json
    array : Items → Json
    object : Fields → Json

  pub data Items : Type 0 where
    end : Items
    item : Json → Items → Items

  pub data Fields : Type 0 where
    close : Fields
    field : String → Json → Fields → Fields

pub data DeliveryError : Type 0 where
  value_error : String → DeliveryError
  lookup_error : ℕ → DeliveryError
  integrity_error : DeliveryError
  adapter_error : String → DeliveryError

-- The columns of a projection intent that delivery reads; the rest travels with it unread.
pub record Intent : Type 0 where
  pub id : ℕ
  pub team_id : ℕ
  pub semantic_key : String
  pub append_sequence : ℕ
  pub payload : Fields

pub record JiraResourceMapping : Type 0 where
  pub team_id : ℕ
  pub internal_kind : String
  pub internal_id : ℕ
  pub jira_id : String
  pub jira_key : Option String

pub record PendingJiraIntent : Type 0 where
  pub intent : Intent
  pub dependency_keys : List String
  pub attempts : ℕ

pub record JiraDeliverySuccess : Type 0 where
  pub intent_id : ℕ
  pub mappings : List JiraResourceMapping
  pub delivered_at : ℕ

pub record JiraDeliveryFailure : Type 0 where
  pub intent_id : ℕ
  pub retry_at : ℕ
  pub error : String
  pub failed_at : ℕ

pub record DeliveryBatchResult : Type 0 where
  pub attempted : ℕ
  pub delivered : ℕ
  pub deferred : ℕ
  pub failed : ℕ

-- `PendingJiraIntent(...)` with its `__post_init__`; a natural number of attempts is not negative.
unfoldable pub pending_jira_intent :
    Intent → List String → ℕ → Result DeliveryError PendingJiraIntent
pending_jira_intent intent keys attempts =
    if any is_blank keys
    then raised (value_error "dependency keys must be non-empty strings")
    else ok (record { intent = intent; dependency_keys = keys; attempts = attempts })

-- `JiraDeliveryFailure(...)` with its `__post_init__`.
unfoldable pub jira_delivery_failure : ℕ → ℕ → String → ℕ → Result DeliveryError JiraDeliveryFailure
jira_delivery_failure intent_id retry_at error failed_at =
    if is_blank error
    then raised (value_error "error must be a non-empty string")
    else ok (record {
      intent_id = intent_id;
      retry_at = retry_at;
      error = error;
      failed_at = failed_at;
    })

-- `JiraResourceMapping(...)` with its `__post_init__`.
unfoldable pub jira_resource_mapping :
    ℕ → String → ℕ → String → Option String → Result DeliveryError JiraResourceMapping
jira_resource_mapping team_id kind internal_id jira_id jira_key = do
  require (not (is_blank kind)) (value_error "internal_kind must be a non-empty string")
  require (not (is_blank jira_id)) (value_error "jira_id must be a non-empty string")
  require (elim jira_key [ none ↦ Bool.true | some key ↦ not (is_blank key) ])
      (value_error "jira_key must be null or a non-empty string")
  ok (record {
    team_id = team_id;
    internal_kind = kind;
    internal_id = internal_id;
    jira_id = jira_id;
    jira_key = jira_key;
  })
