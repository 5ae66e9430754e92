-- ===== src/Lifecycle/Scope.antt =====
-- What a sprint takes on: the unfinished work of the one before it and the first of the backlog.
use jira_simulator.Base.{
  ℕ, ◌+◌, ◌-◌, Bool, true, false, not, ◌&&◌, none, some, is_some, List, [], ◌∷◌, map, keep_if,
  contains, find_last, sort_by, ltb, leb, ◌==◌, if◌then◌else◌,
}
use jira_simulator.Base.Result.{Result, ok, raised, ◌>>=◌}
use jira_simulator.State.Names.{Runtime}
use jira_simulator.State.Work.{WorkItemState, WorkItemLifecycle, simulator_rank, rank_lt}
use jira_simulator.State.Sprints.{SprintScopeEntry, StatusVisitState, scope_uuid, scope_checks}
use jira_simulator.State.Counters.{SemanticCounterScope, visit_ordinal}
use jira_simulator.Lifecycle.{
  Fault, key_error, made, LiveTeamState, Activation, Services, SemanticCounterClaim, counter_of,
}

abbrev pub is_backlog : WorkItemLifecycle → Bool
is_backlog WorkItemLifecycle.backlog = true
is_backlog WorkItemLifecycle.active = false
is_backlog WorkItemLifecycle.done = false
is_backlog WorkItemLifecycle.cancelled = false

abbrev pub is_work_active : WorkItemLifecycle → Bool
is_work_active WorkItemLifecycle.backlog = false
is_work_active WorkItemLifecycle.active = true
is_work_active WorkItemLifecycle.done = false
is_work_active WorkItemLifecycle.cancelled = false

-- `work_by_id[item_id]`
abbrev pub work_by_id : List WorkItemState → ℕ → Result Fault WorkItemState
work_by_id items item_id = elim (find_last (λ w. w.id == item_id) items) [
  | none ↦ raised key_error
  | some work ↦ ok work
]

-- The order of `sorted(work_items, key=lambda item: item.simulator_rank)`.
abbrev pub rank_le : WorkItemState → WorkItemState → Bool
rank_le a b = not (rank_lt (simulator_rank b) (simulator_rank a))

abbrev pub in_sprint : ℕ → SprintScopeEntry → Bool
in_sprint sprint_id e = e.sprint_id == sprint_id && not (is_some e.removed_at)

-- `_carryover_ids`, over the entries that are of the sprint and not removed
abbrev pub carried : List WorkItemState → List SprintScopeEntry → Result Fault (List ℕ)
carried items [] = ok []
carried items (e ∷ rest) = work_by_id items e.work_item_id >>= λ work.
    carried items rest >>= λ later.
    ok (if is_work_active work.lifecycle then e.work_item_id ∷ later else later)

-- `sum(work_by_id[item_id].story_points for item_id in carry_ids)`
abbrev pub points_of : List WorkItemState → List ℕ → Result Fault ℕ
points_of items [] = ok 0
points_of items (i ∷ rest) =
    work_by_id items i >>= λ work. points_of items rest >>= λ later. ok (work.story_points + later)

-- `if used >= minimum and used + points > target: break`
abbrev pub is_full : ℕ → ℕ → ℕ → ℕ → Bool
is_full minimum target used points = leb minimum used && ltb target (used + points)

-- The loop of `_ranked_backlog_ids`: the items it selects, in order.
abbrev pub select_backlog : ℕ → ℕ → List WorkItemState → ℕ → List WorkItemState
select_backlog minimum target [] used = []
select_backlog minimum target (item ∷ rest) used =
    let next = if is_backlog item.lifecycle then used + item.story_points else used in
    let later = select_backlog minimum target rest next in
    if not (is_backlog item.lifecycle)
    then later
    else if is_full minimum target used item.story_points
    then []
    else item ∷ later

-- The loop of `_selected_scope_ids` of scrum_bootstrap.py, which selects from all items.
abbrev pub select_scope : ℕ → ℕ → List WorkItemState → ℕ → List WorkItemState
select_scope minimum target [] used = []
select_scope minimum target (item ∷ rest) used =
    let later = select_scope minimum target rest (used + item.story_points) in
    if is_full minimum target used item.story_points then [] else item ∷ later

module _ {R : Runtime} (services : Services R) where
  abbrev pub capacity_target : LiveTeamState R → ℕ → ℕ
  capacity_target state sprint_id =
      state.capacity_min_points
      + services.capacity_draw sprint_id (state.capacity_max_points - state.capacity_min_points + 1)

  abbrev pub carryover_ids : LiveTeamState R → ℕ → Result Fault (List ℕ)
  carryover_ids state sprint_id =
      carried state.scrum.work_items (keep_if (in_sprint sprint_id) state.scrum.sprint_scope)

  abbrev pub ranked_backlog : LiveTeamState R → ℕ → ℕ → List WorkItemState
  ranked_backlog state sprint_id used =
      select_backlog state.capacity_min_points (capacity_target state sprint_id)
        (sort_by rank_le state.scrum.work_items) used

  abbrev pub ranked_backlog_ids : LiveTeamState R → ℕ → List ℕ → Result Fault (List ℕ)
  ranked_backlog_ids state sprint_id carry_ids =
      points_of state.scrum.work_items carry_ids >>= λ used.
      ok (map (λ w. w.id) (ranked_backlog state sprint_id used))

  -- `_selected_scope_ids`
  abbrev pub selected_scope_ids : LiveTeamState R → ℕ → List ℕ
  selected_scope_ids state sprint_id =
      map (λ w. w.id)
        (select_scope state.capacity_min_points (capacity_target state sprint_id)
          (sort_by rank_le state.scrum.work_items) 0)

  -- Its ids in the order of rank.
  abbrev pub ordered_ids : LiveTeamState R → ℕ → List ℕ
  ordered_ids state sprint_id =
      let selected = selected_scope_ids state sprint_id in
      map (λ w. w.id)
        (keep_if (λ w. contains selected w.id) (sort_by rank_le state.scrum.work_items))

  -- `SprintScopeEntry(...)` of an item that a sprint takes on
  abbrev pub entry_of : LiveTeamState R → ℕ → ℕ → ℕ → SprintScopeEntry
  entry_of state sprint_id boundary item_id = record {
    id = scope_uuid R sprint_id item_id;
    team_id = state.team_id;
    run_id = state.run_id;
    sprint_id = sprint_id;
    work_item_id = item_id;
    added_at = boundary;
    removed_at = none;
  }

  -- `_scope_entries`
  abbrev pub scope_entries : LiveTeamState R → ℕ → ℕ → List ℕ → Result Fault (List SprintScopeEntry)
  scope_entries state sprint_id boundary [] = ok []
  scope_entries state sprint_id boundary (item_id ∷ rest) =
      let entry = entry_of state sprint_id boundary item_id in
      made (scope_checks R entry) entry >>= λ checked.
      scope_entries state sprint_id boundary rest >>= λ later. ok (checked ∷ later)

  -- `_activate_selected_work`: each item with its visit and sample, if it has one now
  abbrev pub activate_selected_work :
      List ℕ → ℕ → List WorkItemState → Result Fault (List (Activation R))
  activate_selected_work selected boundary [] = ok []
  activate_selected_work selected boundary (item ∷ rest) =
      (if contains selected item.id then services.activate_item boundary item else ok (item, none))
      >>= λ first. activate_selected_work selected boundary rest >>= λ later. ok (first ∷ later)

  -- `_visit_claim` of each visit
  abbrev pub visit_claims :
      LiveTeamState R → List StatusVisitState → Result Fault (List SemanticCounterClaim)
  visit_claims state [] = ok []
  visit_claims state (visit ∷ rest) =
      let scope : SemanticCounterScope = record {
        kind = visit_ordinal;
        scope_id = visit.work_item_id;
        scope_key = "VISIT";
      } in
      counter_of state scope >>= λ counter. visit_claims state rest >>= λ later.
      ok (record { scope = scope; start = counter.next_value; count = 1 } ∷ later)
