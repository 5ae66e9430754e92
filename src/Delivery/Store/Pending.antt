-- ===== src/Delivery/Store/Pending.antt =====
-- What `pending` hands to the worker.
use jira_simulator.Base.{
  ℕ, ◌≤◌, String, ◌≡◌, refl, true, false, inl, inr, Option, none, some, List, [], ◌∷◌, Memᴰ, arith,
  leb, Bool-cases, take, All, All-map, All-take, any-found, all-All, &&-true, if◌then◌else◌, subst,
  ap, ◌∙◌, All-at, ◌&&◌, eq_iff,
}
use jira_simulator.Delivery.Store.First.{IsFirst, IsJoined, candidates}
use jira_simulator.Base.Result.{ok, require, >>=-eq-ok, ok-injective}
use jira_simulator.Delivery.{Intent, PendingJiraIntent, pending_jira_intent}
use jira_simulator.Delivery.Store.{
  ReceiptState, Receipt, Tables, Candidate, receipt_of, is_delivered, first_outstanding_by_team,
  due, dependency_keys, key_delivered, dependencies_delivered, ready_candidates, pending_intent,
  pending_intents, pending, max_pending_limit,
}

-- An intent of the tables has this key and a DELIVERED receipt.
pub record IsKeyDelivered (db : Tables) (key : String) : Type 0 where
  pub source : Intent
  pub receipt : Receipt
  pub stored : Memᴰ source db.intents
  pub named : source.semantic_key ≡ key
  pub found : receipt_of db.receipts source.id ≡ some receipt
  pub delivered : receipt.state ≡ ReceiptState.delivered

-- No attempt yet, or a failed one whose retry time has come.
abbrev pub IsDue : Option Receipt → ℕ → Type 0
IsDue none as_of = Unit
IsDue (some r) as_of =
    (r.state ≡ ReceiptState.retryable) × (t : ℕ) × (r.next_attempt_at ≡ some t) × (t ≤ as_of)

pub record IsReady (db : Tables) (as_of : ℕ) (item : PendingJiraIntent) : Type 0 where
  pub stored : Memᴰ item.intent db.intents
  pub due_now : IsDue (receipt_of db.receipts item.intent.id) as_of
  pub first : IsFirst db item.intent
  pub keys : dependency_keys item.intent.payload ≡ ok item.dependency_keys
  pub dependencies : All (IsKeyDelivered db) item.dependency_keys

found_delivered :
    (o : Option Receipt)
    → elim o [ none ↦ false | some r ↦ is_delivered r ] ≡ true
    → (r : Receipt) × (o ≡ some r) × (r.state ≡ ReceiptState.delivered)
found_delivered none h = cc
found_delivered (some r) h = (r, refl, ground (arith, h))

key_delivered-IsKeyDelivered :
    (db : Tables) (key : String) → key_delivered db key ≡ true → IsKeyDelivered db key
key_delivered-IsKeyDelivered db key h =
    let (i, stored, passes) = any-found _ db.intents h in
    let (named, delivered) = &&-true _ _ passes in
    let (r, found, state) = found_delivered (receipt_of db.receipts i.id) delivered in
    record {
      source = i;
      receipt = r;
      stored = stored;
      named = (eq_iff i.semantic_key key).0 named;
      found = found;
      delivered = state;
    }

due-IsDue : (r : Option Receipt) (as_of : ℕ) → due r as_of ≡ true → IsDue r as_of
unfolding due
due-IsDue none as_of h = tt
due-IsDue (some r) as_of h = ground (arith, h)

abbrev HasDelivered : Tables → Intent → Type 0
HasDelivered db i =
    (keys : List String) × (dependency_keys i.payload ≡ ok keys) × All (IsKeyDelivered db) keys

-- Due, with all that it depends on delivered.
abbrev IsUnblocked : Tables → ℕ → Candidate → Type 0
IsUnblocked db as_of c = IsDue c.1 as_of × HasDelivered db c.0

dependencies_delivered_lem :
    (db : Tables) (i : Intent) → dependencies_delivered db i ≡ ok true → HasDelivered db i
unfolding dependencies_delivered
dependencies_delivered_lem db i h =
    let (keys, read, found) = >>=-eq-ok (dependency_keys i.payload) _ h in
    (
      keys,
      read,
      All-map keys (key_delivered-IsKeyDelivered db)
          (all-All (key_delivered db) keys (ok-injective found)),
    )

test_passed :
    (db : Tables) (as_of : ℕ) (c : Candidate)
    → (if due c.1 as_of then dependencies_delivered db c.0 else ok false) ≡ ok true
    → IsUnblocked db as_of c
test_passed db as_of (i, r) h = elim (Bool-cases (due r as_of)) [
  | inl e ↦ (due-IsDue r as_of e, dependencies_delivered_lem db i (rw e at h))
  | inr e ↦ cc (rw e at h)
]

ready_candidates-All {κ} :
    (P : Candidate → Type κ) (db : Tables) (as_of : ℕ) (rows ready : List Candidate)
    → ready_candidates db as_of rows ≡ ok ready
    → All P rows
    → All (λ c. P c × IsUnblocked db as_of c) ready
unfolding ready_candidates
ready_candidates-All P db as_of [] ready e h =
    subst (All (λ c. P c × IsUnblocked db as_of c)) (ok-injective e) tt
ready_candidates-All P db as_of ((i, r) ∷ rows) ready e (h, hs) =
    let (test, tested, e') =
      >>=-eq-ok (if due r as_of then dependencies_delivered db i else ok false) _ e in
    let (rest, passed, e'') = >>=-eq-ok (ready_candidates db as_of rows) _ e' in
    let later = ready_candidates-All P db as_of rows rest passed hs in
    elim (Bool-cases test) [
      | inl yes_ready ↦
          subst (All (λ c. P c × IsUnblocked db as_of c)) (ok-injective (rw yes_ready at e''))
            ((h, test_passed db as_of (i, r) (tested ∙ ap ok yes_ready)), later)
      | inr not_ready ↦
          subst (All (λ c. P c × IsUnblocked db as_of c)) (ok-injective (rw not_ready at e'')) later
    ]

pending_intents-All {κ} :
    (P : PendingJiraIntent → Type κ) (cs : List Candidate) (items : List PendingJiraIntent)
    → ((c : Candidate) (item : PendingJiraIntent) → pending_intent c ≡ ok item → Memᴰ c cs → P item)
    → pending_intents cs ≡ ok items
    → All P items
unfolding pending_intents
pending_intents-All P [] items f e = subst (All P) (ok-injective e) tt
pending_intents-All P (c ∷ cs) items f e =
    let (item, made, e') = >>=-eq-ok (pending_intent c) _ e in
    let (rest, more, e'') = >>=-eq-ok (pending_intents cs) _ e' in
    subst (All P) (ok-injective e'') (
      f c item made (Memᴰ.head refl),
      pending_intents-All P cs rest (λ d x made_d m. f d x made_d (Memᴰ.tail m)) more,
    )

module _ (db : Tables) (as_of : ℕ) where
  abbrev Chosen : Candidate → Type 0
  Chosen c = (IsJoined db c × IsFirst db c.0) × IsUnblocked db as_of c

  pending_intent-IsReady :
      (c : Candidate) (item : PendingJiraIntent)
      → pending_intent c ≡ ok item
      → Chosen c
      → IsReady db as_of item
  unfolding pending_intent pending_jira_intent
  pending_intent-IsReady (i, r) item made (((stored, receipt), first), (is_due, blocked)) =
      let (keys, read, deps) = blocked in
      let (keys', read', made') = >>=-eq-ok (dependency_keys i.payload) _ made in
      let same_intent : item.intent ≡ i = ground (arith, made') in
      let same_keys : item.dependency_keys ≡ keys = ground (arith, made', read, read') in
      record {
        stored = rw same_intent stored;
        due_now = rw (same_intent, ← receipt) is_due;
        first = rw same_intent first;
        keys = rw (same_intent, same_keys) read;
        dependencies = rw same_keys deps;
      }

  -- Whatever `pending` hands out is an intent of the tables that is due, that no earlier open
  -- intent of its team stands before, and whose listed dependencies are all delivered.
  pub pending-IsReady :
      (limit : ℕ) (items : List PendingJiraIntent)
      → pending db as_of limit ≡ ok items
      → All (IsReady db as_of) items
  unfolding pending
  pending-IsReady limit items e =
      let (_, _, e') = >>=-eq-ok (require (leb 1 limit && leb limit max_pending_limit) _) _ e in
      let (ready, found, e'') =
        >>=-eq-ok (ready_candidates db as_of (first_outstanding_by_team db)) _ e' in
      pending_intents-All (IsReady db as_of) (take limit ready) items
        (λ c item made m. pending_intent-IsReady c item made (
          All-at Chosen (take limit ready)
            (All-take Chosen limit ready (
              ready_candidates-All (λ c. IsJoined db c × IsFirst db c.0) db as_of
                (first_outstanding_by_team db) ready found (candidates db)))
            m))
        e''
