-- ===== src/Delivery/Store/First.antt =====
-- The first open intent of each team.
use jira_simulator.Base.{
  ℕ, ◌≤◌, ◌≡◌, refl, true, false, inl, inr, List, [], ◌∷◌, Memᴰ, arith, ◌==◌, Bool-cases, keep_if,
  any, All, All-map, All-Memᴰ, All-keep_if, All-keep_if_inv, sort_by, Sorted, sort_by-All,
  sort_by-Sorted, All-sort_by, All-zip, leb→le,
}
use jira_simulator.Delivery.{Intent}
use jira_simulator.Delivery.Store.{
  Tables, Candidate, receipt_of, receipt_open, joined, by_append_sequence, first_by_team,
  first_outstanding_by_team,
}

abbrev pub IsOpen : Tables → Intent → Type 0
IsOpen db i = receipt_open (receipt_of db.receipts i.id) ≡ true

-- No intent of the same team that still waits for its delivery was appended before this one.
abbrev pub IsFirst : Tables → Intent → Type 0
IsFirst db i =
    All (λ j. j.team_id ≡ i.team_id → IsOpen db j → i.append_sequence ≤ j.append_sequence)
      db.intents

-- The candidates of teams that were seen are left out.
first_by_team-unseen :
    (seen : List ℕ) (rows : List Candidate)
    → All (λ c. any (λ t. t == c.0.team_id) seen ≡ false) (first_by_team seen rows)
unfolding first_by_team
first_by_team-unseen seen [] = tt
first_by_team-unseen seen ((i, r) ∷ rows) = elim (Bool-cases (any (λ t. t == i.team_id) seen)) [
  | inl e ↦ rw e (first_by_team-unseen seen rows)
  | inr e ↦
      rw e (e, All-map _ (λ c h. ground (arith, h)) (first_by_team-unseen (i.team_id ∷ seen) rows))
]

first_by_team-All {κ} :
    (P : Candidate → Type κ) (seen : List ℕ) (rows : List Candidate)
    → All P rows
    → All P (first_by_team seen rows)
unfolding first_by_team
first_by_team-All P seen [] h = tt
first_by_team-All P seen ((i, r) ∷ rows) (h, hs) =
    elim (Bool-cases (any (λ t. t == i.team_id) seen)) [
      | inl e ↦ rw e (first_by_team-All P seen rows hs)
      | inr e ↦ rw e (h, first_by_team-All P (i.team_id ∷ seen) rows hs)
    ]

abbrev IsLeast : List Candidate → Candidate → Type 0
IsLeast rows c =
    All (λ d. d.0.team_id ≡ c.0.team_id → c.0.append_sequence ≤ d.0.append_sequence) rows

-- Of sorted rows the first of each team is its least.
first_by_team-IsLeast :
    (seen : List ℕ) (rows : List Candidate)
    → Sorted by_append_sequence rows
    → All (IsLeast rows) (first_by_team seen rows)
unfolding first_by_team
first_by_team-IsLeast seen [] h = tt
first_by_team-IsLeast seen ((i, r) ∷ rows) (least, sorted) =
    elim (Bool-cases (any (λ t. t == i.team_id) seen)) [
      | inl e ↦ rw e (
          All-map _ (λ c (unseen, later). ((λ same. cc (rw same at e, unseen)), later))
            (All-zip _ _ _ (first_by_team-unseen seen rows)
              (first_by_team-IsLeast seen rows sorted)))
      | inr e ↦ rw e (
        ((λ _. omega arith), All-map rows (λ d h _. leb→le _ _ h) least),
        All-map _ (λ c (unseen, later). ((λ same. ground (arith, unseen)), later))
            (All-zip _ _ _ (first_by_team-unseen (i.team_id ∷ seen) rows)
              (first_by_team-IsLeast (i.team_id ∷ seen) rows sorted)),
      )
    ]

-- The outer join pairs each intent with its receipt.
abbrev pub IsJoined : Tables → Candidate → Type 0
IsJoined db c = Memᴰ c.0 db.intents × (c.1 ≡ receipt_of db.receipts c.0.id)

joined-IsJoined :
    (db : Tables) (is : List Intent)
    → All (λ i. Memᴰ i db.intents) is
    → All (IsJoined db) (joined db is)
unfolding joined
joined-IsJoined db [] h = tt
joined-IsJoined db (i ∷ is) (h, hs) = ((h, refl), joined-IsJoined db is hs)

All-joined {κ} :
    (db : Tables) (P : Candidate → Type κ) (is : List Intent)
    → All P (joined db is)
    → All (λ i. P (i, receipt_of db.receipts i.id)) is
unfolding joined
All-joined db P [] h = tt
All-joined db P (i ∷ is) (h, hs) = (h, All-joined db P is hs)

module _ (db : Tables) where
  abbrev open_rows : List Candidate
  open_rows = keep_if (λ c. receipt_open c.1) (joined db db.intents)

  rows-Sorted : Sorted by_append_sequence (sort_by by_append_sequence open_rows)
  rows-Sorted =
      sort_by-Sorted by_append_sequence (λ x y h. ground arith) (λ x y z h k. ground arith)
        open_rows

  IsLeast-IsFirst :
      (c : Candidate) → IsLeast (sort_by by_append_sequence open_rows) c → IsFirst db c.0
  IsLeast-IsFirst c h =
      All-map db.intents (λ j f same waits. f waits same)
        (All-joined db _ db.intents (
          All-keep_if_inv _ (λ d. receipt_open d.1) (joined db db.intents)
            (All-sort_by by_append_sequence _ open_rows h)))

  pub candidates : All (λ c. IsJoined db c × IsFirst db c.0) (first_outstanding_by_team db)
  unfolding first_outstanding_by_team
  candidates =
      All-zip _ _ _
        (first_by_team-All (IsJoined db) [] _ (
          sort_by-All by_append_sequence _ open_rows
            (All-keep_if _ (λ c. receipt_open c.1) _ (joined-IsJoined db db.intents (All-Memᴰ _)))))
        (All-map _ IsLeast-IsFirst (first_by_team-IsLeast [] _ rows-Sorted))
