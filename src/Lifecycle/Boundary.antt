-- ===== src/Lifecycle/Boundary.antt =====
-- `cross_sprint_boundary`: what a team's state becomes at an instant.
use jira_simulator.Base.{
  ℕ, ◌+◌, Bool, ◌&&◌, Option, none, some, List, [], ◌∷◌, ◌++◌, map, keep_if, find, contains,
  flat_map, ◌==◌,
}
use jira_simulator.Base.Result.{Result, ok, ◌>>=◌}
use jira_simulator.State.Names.{Runtime, sprint_rng_id}
use jira_simulator.State.Work.{WorkItemState}
use jira_simulator.State.Sprints.{
  SprintState, SprintScopeEntry, StatusVisitState, SprintLifecycle, is_sprint_planned,
  is_sprint_active, sprint_checks, scope_checks,
}
use jira_simulator.State.Counters.{SemanticCounterScope, sprint_ordinal}
use jira_simulator.State.Samples.{StatusVisitSample}
use jira_simulator.State.Collections.{ScrumState}
use jira_simulator.State.Validation.{collection_checks}
use jira_simulator.Lifecycle.{
  Fault, made, LiveTeamState, Activation, Services, SemanticCounterClaim, counter_of,
}
use jira_simulator.Lifecycle.Scope.{
  carryover_ids, ranked_backlog_ids, ordered_ids, scope_entries, activate_selected_work,
  visit_claims, in_sprint,
}
use jira_simulator.Lifecycle.Intents.{
  TransitionContext, SprintTransition, activation_transition, rollover_transition,
}

abbrev pub empty_state : {R : Runtime} → ScrumState R
empty_state = record {
  member_identities = [];
  member_availability_overlays = [];
  member_business_date_consumption = [];
  work_items = [];
  work_item_factors = [];
  sprints = [];
  sprint_scope = [];
  status_visits = [];
  status_visit_samples = [];
  semantic_counters = [];
  natural_decision_evaluations = [];
}

-- `_PlannedScope`
pub record PlannedScope (R : Runtime) : Type 0 where
  pub work_items : List WorkItemState
  pub scope : List SprintScopeEntry
  pub visits : List StatusVisitState
  pub samples : List (StatusVisitSample R)
  pub claims : List SemanticCounterClaim

-- `ScrumStateWriteSet(work_items=..., sprints=..., sprint_scope=..., status_visits=...,
-- status_visit_samples=...)`, before its checks
abbrev pub write_set_of :
    {R : Runtime} → List SprintState → List SprintScopeEntry → PlannedScope R → ScrumState R
write_set_of sprints scope plan = record {
  member_identities = [];
  member_availability_overlays = [];
  member_business_date_consumption = [];
  work_items = plan.work_items;
  work_item_factors = [];
  sprints = sprints;
  sprint_scope = scope;
  status_visits = plan.visits;
  status_visit_samples = plan.samples;
  semantic_counters = [];
  natural_decision_evaluations = [];
}

abbrev pub visit_of : {R : Runtime} → Activation R → List StatusVisitState
visit_of (item, none) = []
visit_of (item, some (visit, sample)) = visit ∷ []

abbrev pub sample_of : {R : Runtime} → Activation R → List (StatusVisitSample R)
sample_of (item, none) = []
sample_of (item, some (visit, sample)) = sample ∷ []

-- `sprint.lifecycle is SprintLifecycle.PLANNED and sprint.planned_start_at == instant`
abbrev pub starts_at : ℕ → SprintState → Bool
starts_at instant s = is_sprint_planned s.lifecycle && s.planned_start_at == instant

abbrev pub ends_at : ℕ → SprintState → Bool
ends_at instant s = is_sprint_active s.lifecycle && s.planned_end_at == instant

-- `replace(sprint, lifecycle=ACTIVE, ...)`
abbrev pub activated_sprint : SprintState → ℕ → SprintState
activated_sprint sprint boundary = record {
  id = sprint.id;
  team_id = sprint.team_id;
  run_id = sprint.run_id;
  ordinal = sprint.ordinal;
  lifecycle = SprintLifecycle.active;
  planned_start_at = sprint.planned_start_at;
  planned_end_at = sprint.planned_end_at;
  observed_start_at = some boundary;
  observed_end_at = sprint.observed_end_at;
  created_at = sprint.created_at;
  updated_at = boundary;
}

-- `_completed_sprint`
abbrev pub completed_sprint : SprintState → ℕ → SprintState
completed_sprint sprint boundary = record {
  id = sprint.id;
  team_id = sprint.team_id;
  run_id = sprint.run_id;
  ordinal = sprint.ordinal;
  lifecycle = SprintLifecycle.completed;
  planned_start_at = sprint.planned_start_at;
  planned_end_at = sprint.planned_end_at;
  observed_start_at = sprint.observed_start_at;
  observed_end_at = some boundary;
  created_at = sprint.created_at;
  updated_at = boundary;
}

abbrev pub removed_entry : ℕ → SprintScopeEntry → SprintScopeEntry
removed_entry boundary e = record {
  id = e.id;
  team_id = e.team_id;
  run_id = e.run_id;
  sprint_id = e.sprint_id;
  work_item_id = e.work_item_id;
  added_at = e.added_at;
  removed_at = some boundary;
}

-- The entries of `closed_scope`, each checked when it is made.
abbrev pub closed_entries :
    (R : Runtime) → ℕ → List SprintScopeEntry → Result Fault (List SprintScopeEntry)
closed_entries R boundary [] = ok []
closed_entries R boundary (e ∷ rest) =
    made (scope_checks R (removed_entry boundary e)) (removed_entry boundary e) >>= λ closed.
    closed_entries R boundary rest >>= λ later. ok (closed ∷ later)

abbrev pub sprint_counter_scope : SprintState → SemanticCounterScope
sprint_counter_scope sprint = record {
  kind = sprint_ordinal;
  scope_id = sprint.team_id;
  scope_key = "SCRUM";
}

module _ {R : Runtime} where
  abbrev pub empty_transition : SprintTransition R
  empty_transition = record {
    state = empty_state;
    activity = [];
    ground_truth = [];
    projection_intents = [];
    counter_claims = [];
  }

  abbrev pub plan_of :
      List ℕ
      → List (Activation R)
      → List SprintScopeEntry
      → List SemanticCounterClaim
      → PlannedScope R
  plan_of selected activations entries claims = record {
    work_items = keep_if (λ w. contains selected w.id) (map (λ a. a.0) activations);
    scope = entries;
    visits = flat_map visit_of activations;
    samples = flat_map sample_of activations;
    claims = claims;
  }

  module _ (services : Services R) where
    -- `_planned_scope`
    unfoldable pub planned_scope : LiveTeamState R → ℕ → List ℕ → ℕ → Result Fault (PlannedScope R)
    planned_scope state sprint_id selected boundary =
        activate_selected_work services selected boundary state.scrum.work_items >>= λ activations.
        scope_entries services state sprint_id boundary selected >>= λ entries.
        visit_claims services state (flat_map visit_of activations) >>= λ claims.
        ok (plan_of selected activations entries claims)

    -- The sprint that follows, with the ordinal that its counter gives.
    abbrev pub successor_sprint : SprintState → ℕ → ℕ → ℕ → ℕ → SprintState
    successor_sprint sprint ordinal start end_ boundary = record {
      id = sprint_rng_id R sprint.team_id ordinal;
      team_id = sprint.team_id;
      run_id = sprint.run_id;
      ordinal = ordinal;
      lifecycle = SprintLifecycle.active;
      planned_start_at = start;
      planned_end_at = end_;
      observed_start_at = some boundary;
      observed_end_at = none;
      created_at = boundary;
      updated_at = boundary;
    }

    -- `_successor`
    unfoldable pub successor :
        LiveTeamState R → SprintState → ℕ → Result Fault (SprintState × SemanticCounterClaim)
    successor state sprint boundary = counter_of state (sprint_counter_scope sprint) >>= λ counter.
        services.cadence_boundary counter.next_value >>= λ start.
        services.cadence_boundary (counter.next_value + 1) >>= λ end_.
        let next = successor_sprint sprint counter.next_value start end_ boundary in
        made (sprint_checks R next) next >>= λ checked. ok (
          checked,
          record { scope = sprint_counter_scope sprint; start = counter.next_value; count = 1 },
        )

    -- `_TransitionContext(...)`
    abbrev pub context_of :
        LiveTeamState R
        → SprintState
        → ℕ
        → SprintState
        → List SemanticCounterClaim
        → ScrumState R
        → TransitionContext R
    context_of state previous boundary current claims write_set = record {
      state = state;
      write_set = write_set;
      claims = claims;
      previous = previous;
      current = current;
      boundary = boundary;
    }

    -- `_activate_planned_sprint`
    unfoldable pub activate_planned_sprint :
        LiveTeamState R → SprintState → ℕ → Result Fault (SprintTransition R)
    activate_planned_sprint state sprint boundary =
        planned_scope state sprint.id (ordered_ids services state sprint.id) boundary >>= λ plan.
        made (sprint_checks R (activated_sprint sprint boundary)) (activated_sprint sprint boundary)
        >>= λ activated.
            made (collection_checks (write_set_of (activated ∷ []) plan.scope plan))
              (write_set_of (activated ∷ []) plan.scope plan)
            >>= λ write_set. ok (
                activation_transition services
                  (context_of state sprint boundary activated plan.claims write_set))

    -- `_roll_active_sprint`
    unfoldable pub roll_active_sprint :
        LiveTeamState R → SprintState → ℕ → Result Fault (SprintTransition R)
    roll_active_sprint state sprint boundary = successor state sprint boundary >>= λ (next, claim).
        carryover_ids services state sprint.id >>= λ carry_ids.
        ranked_backlog_ids services state next.id carry_ids >>= λ backlog_ids.
        planned_scope state next.id backlog_ids boundary >>= λ plan.
        made (sprint_checks R (completed_sprint sprint boundary)) (completed_sprint sprint boundary)
        >>= λ completed.
            closed_entries R boundary (keep_if (in_sprint sprint.id) state.scrum.sprint_scope)
            >>= λ closed_scope.
                scope_entries services state next.id boundary (carry_ids ++ backlog_ids)
                >>= λ successor_scope.
                    let scope = closed_scope ++ successor_scope in
                    made (collection_checks (write_set_of (completed ∷ next ∷ []) scope plan))
                      (write_set_of (completed ∷ next ∷ []) scope plan)
                    >>= λ write_set. ok (
                        rollover_transition services
                          (context_of state sprint boundary next (claim ∷ plan.claims) write_set))

    -- `cross_sprint_boundary`, after the two lookups
    abbrev pub cross :
        LiveTeamState R
        → ℕ
        → Option SprintState
        → Option SprintState
        → Result Fault (SprintTransition R)
    cross state instant (some planned) active = activate_planned_sprint state planned instant
    cross state instant none (some active) = roll_active_sprint state active instant
    cross state instant none none = ok empty_transition

    unfoldable pub cross_sprint_boundary : LiveTeamState R → ℕ → Result Fault (SprintTransition R)
    cross_sprint_boundary state instant =
        cross state instant (find (starts_at instant) state.scrum.sprints)
          (find (ends_at instant) state.scrum.sprints)
