-- ===== src/Delivery/Worker/Drain.antt =====
-- The accounts of a drain, and that it goes on until nothing is left to try.
use jira_simulator.Base.{
  ℕ, ◌+◌, ◌-◌, ◌≤◌, ◌≡◌, All, ◌⊎◌, Bool, true, List, [], ◌∷◌, length, contains, map, if◌then◌else◌,
}
use jira_simulator.Base.Result.{Result, ok}
use jira_simulator.Delivery.{PendingJiraIntent, DeliveryBatchResult}
use jira_simulator.Delivery.Store.{Tables, pending}
use jira_simulator.Delivery.Worker.{Adapter, DrainState, settle, unprocessed}

module _ (adapter : Adapter) (as_of : ℕ) where
  -- From the tables `start` these intents have been handed to the adapter, the latest first, each
  -- answer recorded in the tables that the one before it left; `delivered` of them succeeded.
  abbrev pub IsTrial : Tables → List PendingJiraIntent → Tables → ℕ → ℕ → Type 0
  IsTrial start [] db delivered failed = (start ≡ db) × (delivered ≡ 0) × (failed ≡ 0)
  IsTrial start (item ∷ earlier) db delivered failed =
      (before : Tables) × (d : ℕ) × (f : ℕ) × (b : Bool) × IsTrial start earlier before d f
      × (settle before item as_of (adapter (length earlier) item) ≡ ok (b, db))
      × (delivered ≡ (if b then d + 1 else d))
      × (failed ≡ (if b then f else f + 1))

-- What the local variables say: the intents tried.
pub record IsTallied (adapter : Adapter) (as_of : ℕ) (start : Tables) (s : DrainState)
    : Type 0 where
  pub tried : List PendingJiraIntent
  pub trial : IsTrial adapter as_of start tried s.db s.delivered s.failed
  pub named : s.processed ≡ map (λ item. item.intent.id) tried
  pub counted : s.attempted ≡ length tried
  pub sum : s.attempted ≡ s.delivered + s.failed

module _ (adapter : Adapter) (as_of limit : ℕ) (start : Tables) where
  -- The `while` loop ended by its own tests.
  abbrev IsDrained : DrainState → Type 0
  IsDrained s =
      (s.attempted ≡ limit)
      ⊎ ((items : List PendingJiraIntent) × (pending s.db as_of (limit - s.attempted) ≡ ok items)
          × (unprocessed adapter as_of limit s items ≡ []))

  abbrev Ends : DrainState → Type 0
  Ends s = IsTallied adapter as_of start s × (s.attempted ≤ limit) × IsDrained s

  -- The counts are those of the trial, the limit holds, and the loop stopped at the limit or with
  -- every intent that is still pending among those tried.
  pub record IsAccounted (result : DeliveryBatchResult) (db : Tables) : Type 0 where
    pub tried : List PendingJiraIntent
    pub trial : IsTrial adapter as_of start tried db result.delivered result.failed
    pub attempts : result.attempted ≡ length tried
    pub sum : result.attempted ≡ result.delivered + result.failed
    pub fits : result.attempted ≤ limit
    pub drained :
        (result.attempted ≡ limit)
        ⊎ ((items : List PendingJiraIntent) × (pending db as_of (limit - result.attempted)
              ≡ ok items)
            × All (λ item. contains (map (λ t. t.intent.id) tried) item.intent.id ≡ true) items)

  -- The answers that a state ends with.
  abbrev result_of : DrainState → DeliveryBatchResult
  result_of s = record {
    attempted = s.attempted;
    delivered = s.delivered;
    deferred = 0;
    failed = s.failed;
  }
