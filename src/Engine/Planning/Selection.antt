-- ===== src/Engine/Planning/Selection.antt =====
-- What `plan_sprint` selects, and when a sprint ends.
use jira_simulator.Base.{
  ℕ, ◌+◌, ◌≤◌, ◌<◌, ◌≡◌, ◌⊎◌, inl, inr, refl, sym, ap, subst, Bool, true, false, ◌&&◌, List, [],
  ◌∷◌, ◌++◌, ltb, leb, Bool-cases, if◌then◌else◌, arith, Perm, sort_by-perm,
}
use jira_simulator.Base.Result.{ok}
use jira_simulator.Engine.{Runtime}
use jira_simulator.Engine.Planning.{
  BacklogItem, points, pull, ordered, plan_sprint, load, IsPlan, check_sprint_end,
  create_next_sprint_dates,
}

left_over : ℕ → ℕ → ℕ → List BacklogItem → List BacklogItem
left_over capacity_min target total [] = []
left_over capacity_min target total (i ∷ is) =
    let later = left_over capacity_min target (total + points i) is in
    if ltb target (total + points i) && leb capacity_min total then i ∷ is else later

pull-append :
    (least target total : ℕ) (is : List BacklogItem)
    → pull least target total is ++ left_over least target total is ≡ is
unfolding pull left_over
pull-append least target total [] = refl
pull-append least target total (i ∷ is) =
    elim (Bool-cases (ltb target (total + points i) && leb least total)) [
      | inl e ↦ rw e refl
      | inr e ↦ rw e (ap (λ x. i ∷ x) (pull-append least target (total + points i) is))
    ]

pull-stops :
    (least target total : ℕ) (is : List BacklogItem) (j : BacklogItem) (js : List BacklogItem)
    → left_over least target total is ≡ j ∷ js
    → (target < total + load (pull least target total is) + points j)
      × (least ≤ total + load (pull least target total is))
unfolding pull left_over
pull-stops least target total [] j js e = cc (e)
pull-stops least target total (i ∷ is) j js e =
    elim (Bool-cases (ltb target (total + points i) && leb least total)) [
      | inl stop ↦
          let same : i ≡ j = cc (rw stop at e) in
          rw stop (
            subst (λ x. (target < total + 0 + points x) × (least ≤ total + 0)) same
              (ground (arith, stop)))
      | inr go ↦
          let (h, h') = pull-stops least target (total + points i) is j js (rw go at e) in
          rw go (omega (arith, h), omega (arith, h'))
    ]

pull-fits :
    (least target total : ℕ) (is earlier later : List BacklogItem) (i : BacklogItem)
    → earlier ++ (i ∷ later) ≡ pull least target total is
    → (total + load earlier + points i ≤ target) ⊎ (total + load earlier < least)
unfolding pull
pull-fits least target total [] [] later i e = cc (e)
pull-fits least target total [] (x ∷ xs) later i e = cc (e)
pull-fits least target total (j ∷ js) [] later i e =
    elim (Bool-cases (ltb target (total + points j) && leb least total)) [
      | inl stop ↦ cc (rw stop at e)
      | inr go ↦
          let same : j ≡ i = cc (rw go at e) in
          subst (λ x. (total + 0 + points x ≤ target) ⊎ (total + 0 < least)) same
            (ground (arith, go))
    ]
pull-fits least target total (j ∷ js) (x ∷ xs) later i e =
    elim (Bool-cases (ltb target (total + points j) && leb least total)) [
      | inl stop ↦ cc (rw stop at e)
      | inr go ↦
          let same : j ≡ x = cc (rw go at e) in
          let tails : xs ++ (i ∷ later) ≡ pull least target (total + points j) js =
            cc (rw go at e) in
          subst
            (λ y.
              (total + (points y + load xs) + points i ≤ target)
              ⊎ (total + (points y + load xs) < least))
            same (ground (arith, pull-fits least target (total + points j) js xs later i tails))
    ]

module _ (R : Runtime) where
  ordered-perm :
      (backlog : List BacklogItem) (randomized : Bool) (rng : R.Rng)
      → Perm (ordered R backlog randomized rng).0 backlog
  unfolding ordered
  ordered-perm backlog true rng = R.shuffle-perm backlog rng
  ordered-perm backlog false rng = sort_by-perm _ backlog

  pull-IsPlan :
      (backlog in_order : List BacklogItem) (least target : ℕ)
      → Perm in_order backlog
      → IsPlan backlog least target (pull least target 0 in_order)
  pull-IsPlan backlog in_order least target p = record {
    rest = left_over least target 0 in_order;
    of_backlog = subst (λ x. Perm x backlog) (sym (pull-append least target 0 in_order)) p;
    fits = λ earlier later i e. ground (arith, pull-fits least target 0 in_order earlier later i e);
    stops = λ i is e.
        let (over, enough) = pull-stops least target 0 in_order i is e in
        (omega (arith, over), omega (arith, enough));
  }

  -- A plan that is made of a backlog with items has a target between the two capacities, and is a
  -- prefix of a permutation of the backlog: each item of it fitted the target or came while the
  -- load was below the minimum; the item after it, if there is one, exceeds the target while the
  -- minimum is met. When the capacities are in order such a plan is made.
  pub plan_sprint-IsPlan :
      (i : BacklogItem) (is : List BacklogItem) (low high : ℕ) (randomized : Bool) (rng : R.Rng)
      → low ≤ high
      → (selected : List BacklogItem) × (target : ℕ) × (rng' : R.Rng) × (plan_sprint R
            (i ∷ is)
            low
            high
            randomized
            rng
          ≡ ok (selected, target, rng'))
        × IsPlan (i ∷ is) low target selected
        × (low ≤ target)
        × (target ≤ high)
  unfolding plan_sprint
  plan_sprint-IsPlan i is low high randomized rng h =
      let o = ordered R (i ∷ is) randomized rng in
      let drawn = R.randint low high o.1 in
      let range = R.randint_range low high o.1 h in
      let in_range : ltb high low ≡ false = ground arith in
      (
        pull low drawn.0 0 o.0,
        drawn.0,
        drawn.1,
        rw in_range refl,
        pull-IsPlan (i ∷ is) o.0 low drawn.0 (ordered-perm (i ∷ is) randomized rng),
        range.0,
        range.1,
      )

-- A sprint with the dates that `create_next_sprint_dates` gives has ended, for `check_sprint_end`,
-- from its end date on and not before.
pub check_sprint_end-dates :
    (start days now : ℕ)
    → check_sprint_end (create_next_sprint_dates start days).0 days now
      ≡ leb (create_next_sprint_dates start days).1 now
unfolding check_sprint_end create_next_sprint_dates
check_sprint_end-dates start days now = ground arith
