-- ===== src/Delivery/Store/Mappings.antt =====
-- The identities that Jira gave to local resources are written once.
use jira_simulator.Base.{
  ℕ, String, ◌≡◌, refl, ap, subst, true, false, inl, inr, Option, none, some, List, [], ◌∷◌, arith,
  Bool-cases, Option-cases, find, All, str_eq, eq_iff,
}
use jira_simulator.Base.Result.{ok, >>=-eq-ok, ok-injective}
use jira_simulator.Delivery.{JiraResourceMapping, JiraDeliverySuccess}
use jira_simulator.Delivery.Store.{
  Tables, same_identity, opt_str_eq, ensure_mapping, ensure_mappings, require_intent,
  record_success, find_mapping,
}

abbrev Found : List JiraResourceMapping → JiraResourceMapping → Type 0
Found rows v =
    (m : JiraResourceMapping) × (find (same_identity v.team_id v.internal_kind v.internal_id) rows
      ≡ some m)
    × (m.jira_id ≡ v.jira_id)
    × (m.jira_key ≡ v.jira_key)

opt_str_eq→eq : (a b : Option String) → opt_str_eq a b ≡ true → a ≡ b
opt_str_eq→eq none none h = refl
opt_str_eq→eq (some a) (some b) h = ap some ((eq_iff a b).0 h)
opt_str_eq→eq none (some b) h = cc
opt_str_eq→eq (some a) none h = cc

same_identity_self :
    (v : JiraResourceMapping) → same_identity v.team_id v.internal_kind v.internal_id v ≡ true
same_identity_self v = ground (arith, (eq_iff v.internal_kind v.internal_kind).1 refl)

-- The identity of a new row is that of no row found before.
other_identity :
    (rows : List JiraResourceMapping) (v m : JiraResourceMapping) (team : ℕ) (kind : String)
    (id : ℕ)
    → find (same_identity v.team_id v.internal_kind v.internal_id) rows ≡ none
    → find (same_identity team kind id) rows ≡ some m
    → same_identity team kind id v ≡ false
other_identity rows v m team kind id absent found =
    elim (Bool-cases (same_identity team kind id v)) [
      | inr e ↦ e
      | inl e ↦
          let same_team : v.team_id ≡ team = ground (arith, e) in
          let same_kind : str_eq v.internal_kind kind ≡ true = ground (arith, e) in
          let same_id : v.internal_id ≡ id = ground (arith, e) in
          cc (absent, found, same_team, (eq_iff v.internal_kind kind).0 same_kind, same_id)
    ]

ensure-keeps :
    (rows rows' : List JiraResourceMapping) (v m : JiraResourceMapping) (team : ℕ) (kind : String)
    (id : ℕ)
    → ensure_mapping rows v ≡ ok rows'
    → find (same_identity team kind id) rows ≡ some m
    → find (same_identity team kind id) rows' ≡ some m
unfolding ensure_mapping
ensure-keeps rows rows' v m team kind id e found =
    elim (Option-cases (find (same_identity v.team_id v.internal_kind v.internal_id) rows)) [
      | inl absent ↦
          ground (arith, absent, found, other_identity rows v m team kind id absent found)
      | inr (old, present) ↦ ground (arith, present)
    ]

ensure-finds :
    (rows rows' : List JiraResourceMapping) (v : JiraResourceMapping)
    → ensure_mapping rows v ≡ ok rows'
    → Found rows' v
unfolding ensure_mapping
ensure-finds rows rows' v e =
    elim (Option-cases (find (same_identity v.team_id v.internal_kind v.internal_id) rows)) [
      | inl absent ↦ (v, ground (arith, absent, same_identity_self v), refl, refl)
      | inr (old, present) ↦ (
        old,
        ground (arith, present),
        ground (arith, present, eq_iff old.jira_id v.jira_id),
        ground (arith, present, opt_str_eq→eq old.jira_key v.jira_key),
      )
    ]

ensure_mappings-keeps :
    (rows rows' values : List JiraResourceMapping) (m : JiraResourceMapping) (team : ℕ)
    (kind : String) (id : ℕ)
    → ensure_mappings rows values ≡ ok rows'
    → find (same_identity team kind id) rows ≡ some m
    → find (same_identity team kind id) rows' ≡ some m
unfolding ensure_mappings
ensure_mappings-keeps rows rows' [] m team kind id e found =
    subst (λ l. find (same_identity team kind id) l ≡ some m) (ok-injective e) found
ensure_mappings-keeps rows rows' (v ∷ values) m team kind id e found =
    let (mid, one, e') = >>=-eq-ok (ensure_mapping rows v) _ e in
    ensure_mappings-keeps mid rows' values m team kind id e'
      (ensure-keeps rows mid v m team kind id one found)

ensure_mappings-finds :
    (rows rows' values : List JiraResourceMapping)
    → ensure_mappings rows values ≡ ok rows'
    → All (Found rows') values
unfolding ensure_mappings
ensure_mappings-finds rows rows' [] e = tt
ensure_mappings-finds rows rows' (v ∷ values) e =
    let (mid, one, e') = >>=-eq-ok (ensure_mapping rows v) _ e in
    let (m, found, same_id, same_key) = ensure-finds rows mid v one in
    (
      (m, ensure_mappings-keeps mid rows' values m _ _ _ e' found, same_id, same_key),
      ensure_mappings-finds mid rows' values e',
    )

-- After `record_success` each mapping of the result is found with its Jira id and key, and every
-- mapping that was found before is found unchanged.
pub record_success-maps :
    (db db' : Tables) (s : JiraDeliverySuccess)
    → record_success db s ≡ ok db'
    → All
        (λ v.
          (m : JiraResourceMapping) × (find_mapping db' v.team_id v.internal_kind v.internal_id
            ≡ some m)
          × (m.jira_id ≡ v.jira_id)
          × (m.jira_key ≡ v.jira_key))
        s.mappings
      × ((team : ℕ) (kind : String) (id : ℕ) (m : JiraResourceMapping)
          → find_mapping db team kind id ≡ some m
          → find_mapping db' team kind id ≡ some m)
unfolding record_success find_mapping
record_success-maps db db' s e =
    let (_, _, e') = >>=-eq-ok (require_intent db s.intent_id) _ e in
    let (rows, mapped, e'') = >>=-eq-ok (ensure_mappings db.mappings s.mappings) _ e' in
    subst
      (λ t.
        All (Found t.mappings) s.mappings
        × ((team : ℕ) (kind : String) (id : ℕ) (m : JiraResourceMapping)
            → find (same_identity team kind id) db.mappings ≡ some m
            → find (same_identity team kind id) t.mappings ≡ some m))
      (ok-injective e'')
      (
        ensure_mappings-finds db.mappings rows s.mappings mapped,
        λ team kind id m. ensure_mappings-keeps db.mappings rows s.mappings m team kind id mapped,
      )
