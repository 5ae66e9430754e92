-- ===== src/Delivery/Store/Batch.antt =====
-- The size of a batch of `pending`.
use jira_simulator.Base.{
  ℕ, ◌≤◌, ◌≡◌, List, [], ◌∷◌, arith, leb, ◌&&◌, take, length, length-take-le, subst,
}
use jira_simulator.Base.Result.{ok, require, >>=-eq-ok, ok-injective}
use jira_simulator.Delivery.{PendingJiraIntent}
use jira_simulator.Delivery.Store.{
  Tables, Candidate, first_outstanding_by_team, ready_candidates, pending_intent, pending_intents,
  pending, max_pending_limit,
}

length-pending_intents :
    (cs : List Candidate) (items : List PendingJiraIntent)
    → pending_intents cs ≡ ok items
    → length items ≡ length cs
unfolding pending_intents
length-pending_intents [] items e = subst (λ l. length l ≡ 0) (ok-injective e) (omega arith)
length-pending_intents (c ∷ cs) items e =
    let (item, _, e') = >>=-eq-ok (pending_intent c) _ e in
    let (rest, more, e'') = >>=-eq-ok (pending_intents cs) _ e' in
    subst (λ l. length l ≡ length (c ∷ cs)) (ok-injective e'')
      (omega (arith, length-pending_intents cs rest more))

-- A batch that `pending` returns holds no more intents than the limit that it was given.
pub length-pending-le :
    (db : Tables) (as_of limit : ℕ) (items : List PendingJiraIntent)
    → pending db as_of limit ≡ ok items
    → length items ≤ limit
unfolding pending
length-pending-le db as_of limit items e =
    let (_, _, e') = >>=-eq-ok (require (leb 1 limit && leb limit max_pending_limit) _) _ e in
    let (ready, _, e'') =
      >>=-eq-ok (ready_candidates db as_of (first_outstanding_by_team db)) _ e' in
    omega (arith, length-pending_intents (take limit ready) items e'', length-take-le limit ready)
