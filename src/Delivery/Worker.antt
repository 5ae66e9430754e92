-- ===== src/Delivery/Worker.antt =====
-- backend/app/v2/application/jira_delivery.py: the worker that drains the store. The Jira adapter
-- is a parameter: its answer to the n-th call of a drain, for the intent that it is handed. The
-- rounds of the `while` loop take fuel, and the limit is enough of it.
pub mod Drain
use jira_simulator.Base.{
  ℕ, zero, suc, ◌+◌, ◌-◌, ◌*◌, ◌^◌, min, String, Bool, true, false, not, List, [], ◌∷◌, ltb, ◌==◌,
  if◌then◌else◌, keep_if, contains,
}
use jira_simulator.Base.Result.{Result, ok, raised, ◌>>=◌}
use jira_simulator.Delivery.{
  DeliveryError, adapter_error, PendingJiraIntent, JiraDeliverySuccess, DeliveryBatchResult,
  jira_delivery_failure,
}
use jira_simulator.Delivery.Store.{Tables, pending, record_success, record_failure}

-- What `await adapter.deliver(item)` comes back with: a rate limit carries the delay that
-- `timedelta(seconds=retry_after_seconds)` makes of it, in microseconds, and the error's text.
pub data Outcome : Type 0 where
  success : JiraDeliverySuccess → Outcome
  rate_limited : ℕ → String → Outcome
  provider_error : String → Outcome
  other_error : String → Outcome

abbrev pub Adapter : Type 0
Adapter = ℕ → PendingJiraIntent → Outcome

abbrev pub base_retry_seconds : ℕ
base_retry_seconds = 10

abbrev pub max_retry_seconds : ℕ
max_retry_seconds = 300

abbrev pub microseconds_per_second : ℕ
microseconds_per_second = 1_000_000

unfoldable pub retry_delay : ℕ → ℕ
retry_delay attempts = min (base_retry_seconds * 2 ^ attempts) max_retry_seconds

-- _record_failure
pub fail_intent : Tables → PendingJiraIntent → ℕ → String → ℕ → Result DeliveryError (Bool × Tables)
unfolding jira_delivery_failure
fail_intent db item retry_at error failed_at = do
  failure ← jira_delivery_failure item.intent.id retry_at error failed_at
  db' ← record_failure db failure
  ok (false, db')

-- The adapter's answer, and the handlers of the two delivery errors.
pub settle : Tables → PendingJiraIntent → ℕ → Outcome → Result DeliveryError (Bool × Tables)
unfolding fail_intent retry_delay
settle db item as_of (success s) =
    if s.intent_id == item.intent.id
    then (do db' ← record_success db s; ok (true, db'))
    else fail_intent db item (as_of + retry_delay item.attempts * microseconds_per_second)
        "adapter returned the wrong intent identifier" as_of
settle db item as_of (rate_limited delay error) = fail_intent db item (as_of + delay) error as_of
settle db item as_of (provider_error error) =
    fail_intent db item (as_of + retry_delay item.attempts * microseconds_per_second) error as_of
settle db item as_of (other_error error) = raised (adapter_error error)

-- The local variables of `drain_once`, with the tables that it works on.
pub record DrainState : Type 0 where
  pub db : Tables
  pub processed : List ℕ
  pub attempted : ℕ
  pub delivered : ℕ
  pub failed : ℕ

abbrev pub tally : DrainState → PendingJiraIntent → Bool × Tables → DrainState
tally s item (true, db) = record s {
  db = db;
  processed = item.intent.id ∷ s.processed;
  attempted = s.attempted + 1;
  delivered = s.delivered + 1;
}
tally s item (false, db) = record s {
  db = db;
  processed = item.intent.id ∷ s.processed;
  attempted = s.attempted + 1;
  failed = s.failed + 1;
}

module _ (adapter : Adapter) (as_of limit : ℕ) where
  -- One pass of the `for` loop's body.
  pub attempt : DrainState → PendingJiraIntent → Result DeliveryError DrainState
  unfolding settle
  attempt s item = do
    settled ← settle s.db item as_of (adapter s.attempted item)
    ok (tally s item settled)

  pub attempt_all : DrainState → List PendingJiraIntent → Result DeliveryError DrainState
  unfolding attempt
  attempt_all s [] = ok s
  attempt_all s (item ∷ items) = do s' ← attempt s item; attempt_all s' items

  abbrev pub unprocessed : DrainState → List PendingJiraIntent → List PendingJiraIntent
  unprocessed s items = keep_if (λ item. not (contains s.processed item.intent.id)) items

  -- `if not pending: break`, and else the pass and the next round.
  pub round :
      (DrainState → Result DeliveryError DrainState)
      → DrainState
      → List PendingJiraIntent
      → Result DeliveryError DrainState
  unfolding attempt_all
  round next s [] = ok s
  round next s (item ∷ items) = do s' ← attempt_all s (item ∷ items); next s'

  pub rounds : ℕ → DrainState → Result DeliveryError DrainState
  unfolding round
  rounds zero s = ok s
  rounds (suc fuel) s =
      if ltb s.attempted limit
      then (do
        items ← pending s.db as_of (limit - s.attempted)
        round (rounds fuel) s (unprocessed s items))
      else ok s

  abbrev pub starting : Tables → DrainState
  starting db = record { db = db; processed = []; attempted = 0; delivered = 0; failed = 0 }

  unfoldable pub drain_once : Tables → Result DeliveryError (DeliveryBatchResult × Tables)
  unfolding rounds
  drain_once db = do
    s ← rounds limit (starting db)
    ok (
      record { attempted = s.attempted; delivered = s.delivered; deferred = 0; failed = s.failed },
      s.db,
    )
