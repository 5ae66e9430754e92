-- ===== src/Lifecycle/Rollover.antt =====
-- What a rollover leaves: the old sprint completed, its scope closed, and the next sprint active with
-- the carried and the selected work.
use jira_simulator.Base.{
  ℕ, ◌+◌, ◌≡◌, refl, sym, ◌∙◌, ap, subst, true, false, inl, inr, ==→eq, &&-true, Option-cases, Memᴰ,
  arith, All-map, All-zip, All-keep_if, All-of_keep_if, All-Memᴰ, All-keep_if_inv, none, List, [],
  ◌∷◌, ◌++◌, map, All, keep_if, map-All,
}
use jira_simulator.Base.Result.{Result, ok, raised, >>=-eq-ok, ok-injective}
use jira_simulator.State.Checks.{Check, check}
use jira_simulator.State.Checks as Checks
use jira_simulator.State.Names.{Runtime}
use jira_simulator.State.Sprints.{
  SprintState, SprintScopeEntry, is_sprint_active, scope_checks, sprint_checks,
}
use jira_simulator.State.Counters.{SemanticCounter}
use jira_simulator.State.Collections.{ScrumState}
use jira_simulator.State.Validation.{validate_write_set, collection_checks}
use jira_simulator.Lifecycle.{
  Fault, invalid, made, LiveTeamState, Services, SemanticCounterClaim, counter_of,
}
use jira_simulator.Lifecycle.Scope.{
  entry_of, scope_entries, carryover_ids, ranked_backlog_ids, in_sprint, points_of, ranked_backlog,
  capacity_target,
}
use jira_simulator.Lifecycle.Selection.{
  IsBacklogWork, ComesFrom, carried-ComesFrom, IsCarried, carried-IsCarried,
  select_backlog-IsBacklogWork,
}
use jira_simulator.Lifecycle.Boundary.{
  planned_scope, closed_entries, removed_entry, completed_sprint, successor, successor_sprint,
  sprint_counter_scope, roll_active_sprint, write_set_of, context_of,
}
use jira_simulator.Lifecycle.Intents.{
  SprintTransition, complete_sprint, create_sprint, scope_sprint, start_sprint,
}
use jira_simulator.Lifecycle.Chain.{IsChain, intents_after-IsChain}

checked_value {ℓ} :
    {A : Type ℓ} (outcome : Result Checks.Fault (Unit {0})) (value result : A)
    → ◌≡◌ {A = Result Fault A}
        (elim outcome [ ok done ↦ ok value | raised fault ↦ raised (invalid fault) ])
        (ok result)
    → (outcome ≡ ok tt) × (value ≡ result)
checked_value (ok tt) value result h = (refl, ok-injective h)
checked_value (raised fault) value result h = cc

-- What is made is the value given, which passes its checks.
pub made-ok {ℓ} :
    {A : Type ℓ} (checks : List Check) (value result : A)
    → made checks value ≡ ok result
    → (check checks ≡ ok tt) × (value ≡ result)
made-ok checks value result h = checked_value (check checks) value result h

abbrev pub IsTaken : ℕ → ℕ → SprintScopeEntry → Type 0
IsTaken sprint_id boundary e =
    (e.sprint_id ≡ sprint_id) × (e.added_at ≡ boundary) × (e.removed_at ≡ none)

-- Entries of a sprint for these items, none of them removed.
pub record IsScopeOf (sprint_id boundary : ℕ) (ids : List ℕ) (entries : List SprintScopeEntry)
    : Type 0 where
  pub items : map (λ e. e.work_item_id) entries ≡ ids
  pub current : All (IsTaken sprint_id boundary) entries

module _ {R : Runtime} (services : Services R) (state : LiveTeamState R) where
  pub scope_entries-IsScopeOf :
      (sprint_id boundary : ℕ) (ids : List ℕ) (entries : List SprintScopeEntry)
      → scope_entries services state sprint_id boundary ids ≡ ok entries
      → IsScopeOf sprint_id boundary ids entries
  scope_entries-IsScopeOf sprint_id boundary [] entries h =
      subst (IsScopeOf sprint_id boundary []) (ok-injective h) record { items = refl; current = tt }
  scope_entries-IsScopeOf sprint_id boundary (i ∷ ids) entries h =
      let fresh = entry_of services state sprint_id boundary i in
      let (entry, first, h') = >>=-eq-ok (made (scope_checks R fresh) fresh) _ h in
      let (later, rest, h'') =
        >>=-eq-ok (scope_entries services state sprint_id boundary ids) _ h' in
      let (_, same) = made-ok (scope_checks R fresh) fresh entry first in
      let scope = scope_entries-IsScopeOf sprint_id boundary ids later rest in
      subst (IsScopeOf sprint_id boundary (i ∷ ids)) (ok-injective h'') record {
        items =
            let named : entry.work_item_id ≡ i =
              ap (λ (e : SprintScopeEntry). e.work_item_id) (sym same) in
            let others = scope.items in λ k. named k ∷ others k;
        current =
            (subst (IsTaken sprint_id boundary) {x = fresh} same (refl, refl, refl), scope.current);
      }

closed_entries-removed :
    (R : Runtime) (boundary : ℕ) (entries closed : List SprintScopeEntry)
    → closed_entries R boundary entries ≡ ok closed
    → closed ≡ map (removed_entry boundary) entries
closed_entries-removed R boundary [] closed h = sym (ok-injective h)
closed_entries-removed R boundary (e ∷ rest) closed h =
    let removed = removed_entry boundary e in
    let (first, made_first, h') = >>=-eq-ok (made (scope_checks R removed) removed) _ h in
    let (later, made_rest, h'') = >>=-eq-ok (closed_entries R boundary rest) _ h' in
    let (_, same) = made-ok (scope_checks R removed) removed first made_first in
    let others = closed_entries-removed R boundary rest later made_rest in
    sym (ok-injective h'') ∙ (λ k. sym same k ∷ others k)

-- The entry is a current one of the sprint.
abbrev pub IsCurrent : {R : Runtime} → LiveTeamState R → SprintState → SprintScopeEntry → Type 0
IsCurrent state sprint e =
    Memᴰ e state.scrum.sprint_scope × (e.sprint_id ≡ sprint.id) × (e.removed_at ≡ none)

in_sprint_lem :
    (sprint_id : ℕ) (e : SprintScopeEntry)
    → in_sprint sprint_id e ≡ true
    → (e.sprint_id ≡ sprint_id) × (e.removed_at ≡ none)
in_sprint_lem sprint_id e h =
    let (named, current) = &&-true _ _ h in
    (
      ==→eq e.sprint_id sprint_id named,
      elim (Option-cases e.removed_at) [
        | inl kept ↦ kept
        | inr (instant, removed) ↦ let impossible : false ≡ true = rw removed at current in cc
      ],
    )

current-in_sprint :
    (sprint_id : ℕ) (e : SprintScopeEntry)
    → e.sprint_id ≡ sprint_id
    → e.removed_at ≡ none
    → in_sprint sprint_id e ≡ true
current-in_sprint sprint_id e named kept = rw kept (ground (arith, named))

current_entries :
    {R : Runtime} (state : LiveTeamState R) (sprint : SprintState)
    → All (IsCurrent state sprint) (keep_if (in_sprint sprint.id) state.scrum.sprint_scope)
current_entries {R} state sprint =
    let entries = state.scrum.sprint_scope in
    All-map {P = λ e. Memᴰ e entries × ((e.sprint_id ≡ sprint.id) × (e.removed_at ≡ none))}
      {Q = IsCurrent {R = R} state sprint} (keep_if (in_sprint sprint.id) entries)
      (λ e (m, (named, current)). (m, named, current))
      (All-zip _ _ (keep_if (in_sprint sprint.id) entries)
        (All-keep_if (λ e. Memᴰ e entries) (in_sprint sprint.id) entries (All-Memᴰ entries))
        (All-of_keep_if
          (λ (e : SprintScopeEntry). (e.sprint_id ≡ sprint.id) × (e.removed_at ≡ none))
          (in_sprint sprint.id) (in_sprint_lem sprint.id) entries))

-- The unfinished items of the current entries are among the ids.
abbrev pub AllCarried : {R : Runtime} → LiveTeamState R → SprintState → List ℕ → Type 0
AllCarried state sprint ids =
    All
      (λ e. e.sprint_id ≡ sprint.id → e.removed_at ≡ none → IsCarried state.scrum.work_items ids e)
      state.scrum.sprint_scope

carryover_ids_lem :
    {R : Runtime} (services : Services R) (state : LiveTeamState R) (sprint : SprintState)
    (ids : List ℕ)
    → carryover_ids services state sprint.id ≡ ok ids
    → All (ComesFrom (IsCurrent state sprint) state.scrum.work_items) ids
      × AllCarried state sprint ids
carryover_ids_lem {R} services state sprint ids h =
    let items = state.scrum.work_items in
    let entries = state.scrum.sprint_scope in
    (
      carried-ComesFrom (IsCurrent {R = R} state sprint) items
          (keep_if (in_sprint sprint.id) entries) ids h (current_entries state sprint),
      All-map entries (λ e kept named current. kept (current-in_sprint sprint.id e named current))
          (All-keep_if_inv (IsCarried items ids) (in_sprint sprint.id) entries
            (carried-IsCarried items (keep_if (in_sprint sprint.id) entries) ids h)),
    )

-- The state after a rollover of `sprint` at `boundary`.
pub record IsRollover {R : Runtime} (state : LiveTeamState R) (sprint : SprintState) (boundary : ℕ)
    (t : SprintTransition R) : Type 0 where
  pub next : SprintState
  pub counter : SemanticCounter
  pub carry_ids : List ℕ
  pub backlog_ids : List ℕ
  pub entries : List SprintScopeEntry
  pub sprints : t.state.sprints ≡ completed_sprint sprint boundary ∷ next ∷ []
  pub counted : counter_of state (sprint_counter_scope sprint) ≡ ok counter
  pub next_ordinal : next.ordinal ≡ counter.next_value
  pub next_active : is_sprint_active next.lifecycle ≡ true
  pub scope :
      t.state.sprint_scope
      ≡ map (removed_entry boundary) (keep_if (in_sprint sprint.id) state.scrum.sprint_scope)
        ++ entries
  pub taken : IsScopeOf next.id boundary (carry_ids ++ backlog_ids) entries
  pub carried : All (ComesFrom (IsCurrent state sprint) state.scrum.work_items) carry_ids
  pub unfinished : AllCarried state sprint carry_ids
  pub selected : All (IsBacklogWork state.scrum.work_items) backlog_ids
  pub valid : validate_write_set t.state ≡ ok tt
  pub chain : IsChain none t.projection_intents

module _ {R : Runtime} (services : Services R) where
  -- What `_successor` gives: active, with the ordinal of the counter.
  successor_lem :
      (state : LiveTeamState R) (sprint : SprintState) (boundary : ℕ) (next : SprintState)
      (claim : SemanticCounterClaim)
      → successor services state sprint boundary ≡ ok (next, claim)
      → (counter : SemanticCounter) × (counter_of state (sprint_counter_scope sprint) ≡ ok counter)
        × (next.ordinal ≡ counter.next_value)
        × (is_sprint_active next.lifecycle ≡ true)
  unfolding successor
  successor_lem state sprint boundary next claim h =
      let (counter, e, h1) = >>=-eq-ok (counter_of state (sprint_counter_scope sprint)) _ h in
      let (start, _, h2) = >>=-eq-ok (services.cadence_boundary counter.next_value) _ h1 in
      let (end_, _, h3) = >>=-eq-ok (services.cadence_boundary (counter.next_value + 1)) _ h2 in
      let fresh = successor_sprint services sprint counter.next_value start end_ boundary in
      let (checked, first, h4) = >>=-eq-ok (made (sprint_checks R fresh) fresh) _ h3 in
      let (_, same) = made-ok (sprint_checks R fresh) fresh checked first in
      let given : fresh ≡ next =
        same ∙ ap (λ (p : SprintState × SemanticCounterClaim). p.0) (ok-injective h4) in
      (
        counter,
        e,
        sym (ap (λ (s : SprintState). s.ordinal) given),
        subst (λ (s : SprintState). is_sprint_active s.lifecycle ≡ true) given refl,
      )

  selected_backlog :
      (state : LiveTeamState R) (sprint_id : ℕ) (carry_ids ids : List ℕ)
      → ranked_backlog_ids services state sprint_id carry_ids ≡ ok ids
      → All (IsBacklogWork state.scrum.work_items) ids
  selected_backlog state sprint_id carry_ids ids h =
      let (used, _, h') = >>=-eq-ok (points_of state.scrum.work_items carry_ids) _ h in
      subst (All (IsBacklogWork state.scrum.work_items)) (ok-injective h') (
        map-All (IsBacklogWork state.scrum.work_items) (λ w. w.id)
          (ranked_backlog services state sprint_id used)
          (select_backlog-IsBacklogWork state.capacity_min_points
            (capacity_target services state sprint_id) state.scrum.work_items used))

  -- A rollover that returns completes the old sprint and closes its scope, starts the next one with
  -- the ordinal of the team's counter, and gives it the items of the old one's current scope that
  -- are unfinished, all of them and no other, and then items of the backlog; what it writes passes
  -- the checks of a write set, and each of its Jira intents depends on exactly the one before it.
  pub roll_active_sprint-IsRollover :
      (state : LiveTeamState R) (sprint : SprintState) (boundary : ℕ) (t : SprintTransition R)
      → roll_active_sprint services state sprint boundary ≡ ok t
      → IsRollover state sprint boundary t
  unfolding roll_active_sprint validate_write_set
  roll_active_sprint-IsRollover state sprint boundary t h =
      let ((next, claim), e1, h1) = >>=-eq-ok (successor services state sprint boundary) _ h in
      let (carry_ids, e2, h2) = >>=-eq-ok (carryover_ids services state sprint.id) _ h1 in
      let (carried, unfinished) = carryover_ids_lem services state sprint carry_ids e2 in
      let (backlog_ids, e3, h3) =
        >>=-eq-ok (ranked_backlog_ids services state next.id carry_ids) _ h2 in
      let (plan, _, h4) =
        >>=-eq-ok (planned_scope services state next.id backlog_ids boundary) _ h3 in
      let old = completed_sprint sprint boundary in
      let (completed, e5, h5) = >>=-eq-ok (made (sprint_checks R old) old) _ h4 in
      let (closed, e6, h6) =
        >>=-eq-ok
          (closed_entries R boundary (keep_if (in_sprint sprint.id) state.scrum.sprint_scope)) _
          h5 in
      let (entries, e7, h7) =
        >>=-eq-ok (scope_entries services state next.id boundary (carry_ids ++ backlog_ids)) _ h6 in
      let written = write_set_of (completed ∷ next ∷ []) (closed ++ entries) plan in
      let (write_set, e8, h8) = >>=-eq-ok (made (collection_checks written) written) _ h7 in
      let (valid, same_set) = made-ok (collection_checks written) written write_set e8 in
      let (_, same_old) = made-ok (sprint_checks R old) old completed e5 in
      let stated : written ≡ t.state =
        same_set ∙ ap (λ (u : SprintTransition R). u.state) (ok-injective h8) in
      let (counter, counted, next_ordinal, next_active) =
        successor_lem state sprint boundary next claim e1 in
      record {
        next = next;
        counter = counter;
        carry_ids = carry_ids;
        backlog_ids = backlog_ids;
        entries = entries;
        sprints =
            ap (λ (s : ScrumState R). s.sprints) (sym stated) ∙ (λ k. sym same_old k ∷ next ∷ []);
        counted = counted;
        next_ordinal = next_ordinal;
        next_active = next_active;
        scope =
            ap (λ (s : ScrumState R). s.sprint_scope) (sym stated)
            ∙ ap (λ es. es ++ entries) (closed_entries-removed R boundary _ closed e6);
        taken =
            scope_entries-IsScopeOf services state next.id boundary (carry_ids ++ backlog_ids)
              entries e7;
        carried = carried;
        unfinished = unfinished;
        selected = selected_backlog state next.id carry_ids backlog_ids e3;
        chain =
            subst (λ (u : SprintTransition R). IsChain none u.projection_intents) (ok-injective h8)
              (intents_after-IsChain services
                (context_of services state sprint boundary next (claim ∷ plan.claims) write_set)
                (complete_sprint ∷ create_sprint ∷ scope_sprint ∷ start_sprint ∷ []) none);
        valid = subst (λ s. check (collection_checks s) ≡ ok tt) stated valid;
      }
