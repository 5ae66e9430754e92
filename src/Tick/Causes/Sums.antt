-- ===== src/Tick/Causes/Sums.antt =====
-- What the aggregation of queue causes keeps.
use jira_simulator.Base.{
  ℕ, ◌+◌, ◌≡◌, refl, ◌∙◌, String, str_eq, true, false, ◌&&◌, List, [], ◌∷◌, arith, Bool-cases, inl,
  inr, ◌==◌, sort_by, insert_by, All, Pairwise, insert_by-All, sort_by-All, eq_iff, &&-true, ==→eq,
  sym,
}
use jira_simulator.Tick.Advance.{QueueCause}
use jira_simulator.Tick.Causes.{
  reason_text, same_key, add_cause, totals_of, key_le, aggregate_queue_causes, is_for, share,
  time_for,
}

same_tests :
    (a b : QueueCause) (visit_id : ℕ) (reason : String)
    → same_key a b ≡ true
    → is_for visit_id reason a ≡ is_for visit_id reason b
same_tests a b visit_id reason h =
    let (same_visit, same_reason) = &&-true _ _ h in
    let visits = ==→eq a.visit_id b.visit_id same_visit in
    let reasons = (eq_iff (reason_text a.reason) (reason_text b.reason)).0 same_reason in
    λ i. (visits i == visit_id) && str_eq (reasons i) reason

add_cause-time :
    (c : QueueCause) (totals : List QueueCause) (visit_id : ℕ) (reason : String)
    → time_for visit_id reason (add_cause c totals)
      ≡ share visit_id reason c + time_for visit_id reason totals
add_cause-time c [] visit_id reason = refl
add_cause-time c (t ∷ rest) visit_id reason = elim (Bool-cases (same_key t c)) [
  | inl e ↦
      let tests = same_tests t c visit_id reason e in
      rw e (elim (Bool-cases (is_for visit_id reason c)) [
        | inl counts ↦ rw (counts, tests ∙ counts) (omega arith)
        | inr other ↦ rw (other, tests ∙ other) (omega arith)
      ])
  | inr e ↦ rw e (omega (arith, add_cause-time c rest visit_id reason))
]

totals_of-time :
    (causes totals : List QueueCause) (visit_id : ℕ) (reason : String)
    → time_for visit_id reason (totals_of causes totals)
      ≡ time_for visit_id reason causes + time_for visit_id reason totals
totals_of-time [] totals visit_id reason = omega arith
totals_of-time (c ∷ rest) totals visit_id reason = omega (
  arith,
  totals_of-time rest (add_cause c totals) visit_id reason,
  add_cause-time c totals visit_id reason,
)

insert_by-time :
    (c : QueueCause) (causes : List QueueCause) (visit_id : ℕ) (reason : String)
    → time_for visit_id reason (insert_by key_le c causes)
      ≡ share visit_id reason c + time_for visit_id reason causes
insert_by-time c [] visit_id reason = refl
insert_by-time c (d ∷ rest) visit_id reason = elim (Bool-cases (key_le c d)) [
  | inl e ↦ rw e refl
  | inr e ↦ rw e (omega (arith, insert_by-time c rest visit_id reason))
]

sort_by-time :
    (causes : List QueueCause) (visit_id : ℕ) (reason : String)
    → time_for visit_id reason (sort_by key_le causes) ≡ time_for visit_id reason causes
sort_by-time [] visit_id reason = refl
sort_by-time (c ∷ rest) visit_id reason = omega (
  arith,
  insert_by-time c (sort_by key_le rest) visit_id reason,
  sort_by-time rest visit_id reason,
)

-- Two causes of different keys.
abbrev pub IsApart : QueueCause → QueueCause → Type 0
IsApart a b = same_key a b ≡ false

add_cause-apart :
    (c : QueueCause) (totals : List QueueCause)
    → Pairwise IsApart totals
    → (P : QueueCause → Type 0)
    → ((a b : QueueCause) → a.visit_id ≡ b.visit_id → a.reason ≡ b.reason → P a → P b)
    → P c
    → All P totals
    → All P (add_cause c totals)
add_cause-apart c [] _ P keeps h _ = (h, tt)
add_cause-apart c (t ∷ rest) (_, apart) P keeps h (ht, hs) = elim (Bool-cases (same_key t c)) [
  | inl e ↦ rw e (keeps t _ refl refl ht, hs)
  | inr e ↦ rw e (ht, add_cause-apart c rest apart P keeps h hs)
]

add_cause-Pairwise :
    (c : QueueCause) (totals : List QueueCause)
    → Pairwise IsApart totals
    → Pairwise IsApart (add_cause c totals)
add_cause-Pairwise c [] _ = (tt, tt)
add_cause-Pairwise c (t ∷ rest) (ht, hs) = elim (Bool-cases (same_key t c)) [
  | inl e ↦ rw e (ht, hs)
  | inr e ↦ rw e (
    add_cause-apart c rest hs (IsApart t)
        (λ a b visits reasons away. ap2_apart t a b visits reasons ∙ away) e ht,
    add_cause-Pairwise c rest hs,
  )
]
  where
    ap2_apart :
        (t a b : QueueCause)
        → a.visit_id ≡ b.visit_id
        → a.reason ≡ b.reason
        → same_key t b ≡ same_key t a
    ap2_apart t a b visits reasons = λ i.
        (t.visit_id == sym visits i) && str_eq (reason_text t.reason) (reason_text (sym reasons i))

totals_of-Pairwise :
    (causes totals : List QueueCause)
    → Pairwise IsApart totals
    → Pairwise IsApart (totals_of causes totals)
totals_of-Pairwise [] totals h = h
totals_of-Pairwise (c ∷ rest) totals h =
    totals_of-Pairwise rest (add_cause c totals) (add_cause-Pairwise c totals h)

IsApart-sym : (a b : QueueCause) → IsApart a b → IsApart b a
IsApart-sym a b h = elim (Bool-cases (same_key b a)) [
  | inr e ↦ e
  | inl e ↦
      let (same_visit, same_reason) =
        &&-true (b.visit_id == a.visit_id) (str_eq (reason_text b.reason) (reason_text a.reason))
          e in
      let texts = (eq_iff (reason_text b.reason) (reason_text a.reason)).0 same_reason in
      let back : str_eq (reason_text a.reason) (reason_text b.reason) ≡ true =
        (eq_iff (reason_text a.reason) (reason_text b.reason)).1 (sym texts) in
      let impossible : true ≡ false = ground (arith, h, back, same_visit) in cc (impossible)
]

insert_by-Pairwise :
    (c : QueueCause) (causes : List QueueCause)
    → All (IsApart c) causes
    → Pairwise IsApart causes
    → Pairwise IsApart (insert_by key_le c causes)
insert_by-Pairwise c [] _ _ = (tt, tt)
insert_by-Pairwise c (d ∷ rest) (h, hs) (hd, apart) = elim (Bool-cases (key_le c d)) [
  | inl e ↦ rw e ((h, hs), (hd, apart))
  | inr e ↦ rw e (
    insert_by-All key_le (IsApart d) c rest (IsApart-sym c d h) hd,
    insert_by-Pairwise c rest hs apart,
  )
]

sort_by-Pairwise :
    (causes : List QueueCause) → Pairwise IsApart causes → Pairwise IsApart (sort_by key_le causes)
sort_by-Pairwise [] _ = tt
sort_by-Pairwise (c ∷ rest) (h, hs) =
    insert_by-Pairwise c (sort_by key_le rest) (sort_by-All key_le (IsApart c) rest h)
      (sort_by-Pairwise rest hs)

-- The aggregation keeps the queue time of each visit for each reason, and names no visit and reason
-- twice.
pub aggregate_queue_causes-time :
    (causes : List QueueCause)
    → ((visit_id : ℕ) (reason : String)
        → time_for visit_id reason (aggregate_queue_causes causes)
          ≡ time_for visit_id reason causes)
      × Pairwise IsApart (aggregate_queue_causes causes)
unfolding aggregate_queue_causes
aggregate_queue_causes-time causes = (
  (λ visit_id reason. omega (
    arith,
    sort_by-time (totals_of causes []) visit_id reason,
    totals_of-time causes [] visit_id reason,
  )),
  sort_by-Pairwise (totals_of causes []) (totals_of-Pairwise causes [] tt),
)
