-- ===== src/Delivery/Store/Records.antt =====
-- What `record_success` and `record_failure` do to the receipts, and what no later step undoes.
use jira_simulator.Base.{
  ℕ, ◌+◌, ◌≡◌, ◌≢◌, refl, true, Option, none, some, List, [], ◌∷◌, arith, leb, ◌==◌, ==-self,
  if◌then◌else◌, All, All-map, ap, ◌∙◌, subst,
}
use jira_simulator.Base.Result.{ok, >>=-eq-ok, ok-injective}
use jira_simulator.Delivery.{Intent, PendingJiraIntent, JiraDeliverySuccess, JiraDeliveryFailure}
use jira_simulator.Delivery.Store.{
  ReceiptState, Receipt, Tables, receipt_of, receipt_open, is_delivered, due, upsert,
  delivered_receipt, retryable_receipt, mark_delivered, mark_failed, require_intent,
  ensure_mappings, record_success, record_failure, pending,
}
use jira_simulator.Delivery.Store.Pending.{IsDue, pending-IsReady}

-- The row that an upsert leaves under its key.
abbrev changed : Receipt → (Receipt → Receipt) → Option Receipt → Receipt
changed fresh change none = fresh
changed fresh change (some r) = change r

receipt_of-upsert :
    (id : ℕ) (fresh : Receipt) (change : Receipt → Receipt) (j : ℕ) (rows : List Receipt)
    → fresh.intent_id ≡ id
    → ((r : Receipt) → (change r).intent_id ≡ r.intent_id)
    → receipt_of (upsert id fresh change rows) j
      ≡ (if j == id then some (changed fresh change (receipt_of rows id)) else receipt_of rows j)
unfolding upsert
receipt_of-upsert id fresh change j [] named keeps = ground arith
receipt_of-upsert id fresh change j (r ∷ rows) named keeps =
    ground (arith, keeps r, receipt_of-upsert id fresh change j rows named keeps)

-- One attempt more, unless the intent was delivered.
abbrev pub attempts_after : Option Receipt → ℕ
attempts_after none = 1
attempts_after (some r) = if is_delivered r then r.attempts else r.attempts + 1

module _ (db : Tables) {db' : Tables} where
  success-receipt_of :
      (s : JiraDeliverySuccess) (j : ℕ)
      → record_success db s ≡ ok db'
      → receipt_of db'.receipts j ≡ (
          if j == s.intent_id
          then some (
              changed (delivered_receipt s) (mark_delivered s) (receipt_of db.receipts s.intent_id))
          else receipt_of db.receipts j)
  unfolding record_success
  success-receipt_of s j e =
      let (_, _, e') = >>=-eq-ok (require_intent db s.intent_id) _ e in
      let (mappings, _, e'') = >>=-eq-ok (ensure_mappings db.mappings s.mappings) _ e' in
      rw (← ok-injective e'') (
        receipt_of-upsert s.intent_id (delivered_receipt s) (mark_delivered s) j db.receipts refl
          (λ r. ground arith))

  failure-receipt_of :
      (f : JiraDeliveryFailure) (j : ℕ)
      → record_failure db f ≡ ok db'
      → receipt_of db'.receipts j ≡ (
          if j == f.intent_id
          then some
              (changed (retryable_receipt f) (mark_failed f) (receipt_of db.receipts f.intent_id))
          else receipt_of db.receipts j)
  unfolding record_failure
  failure-receipt_of f j e =
      let (_, _, e') = >>=-eq-ok (require_intent db f.intent_id) _ e in
      rw (← ok-injective e') (
        receipt_of-upsert f.intent_id (retryable_receipt f) (mark_failed f) j db.receipts refl
          (λ r. ground arith))

  -- After `record_success` the intent's receipt is DELIVERED, and it counts one attempt more unless
  -- it was delivered before; every other receipt is as it was.
  pub record_success_lem :
      (s : JiraDeliverySuccess)
      → record_success db s ≡ ok db'
      → ((r : Receipt) × (receipt_of db'.receipts s.intent_id ≡ some r)
          × (r.state ≡ ReceiptState.delivered)
          × (r.attempts ≡ attempts_after (receipt_of db.receipts s.intent_id)))
        × ((j : ℕ) → j ≢ s.intent_id → receipt_of db'.receipts j ≡ receipt_of db.receipts j)
  record_success_lem s e = (
    (
      changed (delivered_receipt s) (mark_delivered s) (receipt_of db.receipts s.intent_id),
      rw (success-receipt_of s s.intent_id e, ==-self s.intent_id) refl,
      ground arith,
      ground arith,
    ),
    λ j other. ground (arith, success-receipt_of s j e),
  )

  -- After `record_failure` of an undelivered intent its receipt counts one attempt more, and the
  -- intent is due again from the retry time on and not before; other receipts are as they were.
  pub record_failure_lem :
      (f : JiraDeliveryFailure)
      → record_failure db f ≡ ok db'
      → receipt_open (receipt_of db.receipts f.intent_id) ≡ true
      → ((r : Receipt) × (receipt_of db'.receipts f.intent_id ≡ some r)
          × (r.attempts ≡ attempts_after (receipt_of db.receipts f.intent_id))
          × ((t : ℕ) → due (some r) t ≡ leb f.retry_at t))
        × ((j : ℕ) → j ≢ f.intent_id → receipt_of db'.receipts j ≡ receipt_of db.receipts j)
  unfolding due
  record_failure_lem f e h = (
    (
      changed (retryable_receipt f) (mark_failed f) (receipt_of db.receipts f.intent_id),
      rw (failure-receipt_of f f.intent_id e, ==-self f.intent_id) refl,
      ground (arith, h),
      λ t. ground (arith, h),
    ),
    λ j other. ground (arith, failure-receipt_of f j e),
  )

-- What other transactions do to the tables: the two outcomes, and the append of an intent.
pub data Step (db : Tables) : Tables → Type 0 where
  succeeds : {db' : Tables} (s : JiraDeliverySuccess) → record_success db s ≡ ok db' → Step db db'
  fails : {db' : Tables} (f : JiraDeliveryFailure) → record_failure db f ≡ ok db' → Step db db'
  appends : (i : Intent) → Step db (record db { intents = i ∷ db.intents })

pub data Reach (db : Tables) : Tables → Type 0 where
  here : Reach db db
  next : {db' db'' : Tables} → Reach db db' → Step db' db'' → Reach db db''

abbrev pub HasDelivered : Tables → ℕ → Type 0
HasDelivered db id =
    (r : Receipt) × (receipt_of db.receipts id ≡ some r) × (r.state ≡ ReceiptState.delivered)

Step-HasDelivered :
    {db db' : Tables} (id : ℕ) → Step db db' → HasDelivered db id → HasDelivered db' id
Step-HasDelivered {db} id (succeeds s e) (r, found, state) =
    (r, ground (arith, success-receipt_of db s id e), state)
Step-HasDelivered {db} id (fails f e) (r, found, state) =
    (r, ground (arith, failure-receipt_of db f id e), state)
Step-HasDelivered id (appends i) h = h

Reach-HasDelivered :
    {db db' : Tables} (id : ℕ) → Reach db db' → HasDelivered db id → HasDelivered db' id
Reach-HasDelivered id here h = h
Reach-HasDelivered id (next r st) h = Step-HasDelivered id st (Reach-HasDelivered id r h)

-- An intent that is delivered is never handed to the worker again, whatever steps follow.
pub delivered-not-pending :
    {db db' : Tables} (id : ℕ) (as_of limit : ℕ) (items : List PendingJiraIntent)
    → HasDelivered db id
    → Reach db db'
    → pending db' as_of limit ≡ ok items
    → All (λ item. item.intent.id ≢ id) items
delivered-not-pending {db' = db'} id as_of limit items h reach e =
    let (r, found, state) = Reach-HasDelivered id reach h in
    All-map items
      (λ item ready same.
        let due_now : IsDue (some r) as_of =
          subst (λ o. IsDue o as_of) (ap (receipt_of db'.receipts) same ∙ found) ready.due_now in
        cc (due_now.0, state))
      (pending-IsReady db' as_of limit items e)
