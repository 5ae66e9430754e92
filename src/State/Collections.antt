-- ===== src/State/Collections.antt =====
-- The collections of a state and what is checked of them together: `_ScrumCollections.validate` and
-- `ScrumStateSnapshot.validate`.
use jira_simulator.Base.{
  ℕ, String, Bool, not, ◌&&◌, is_some, List, [], ◌∷◌, map, keep_if, ◌==◌, unique, flat_map, concat,
}
use jira_simulator.State.Checks.{Check, Fault, value_error, labelled}
use jira_simulator.State.Names.{Runtime, decision_eq}
use jira_simulator.State.Work.{
  MemberIdentity, MemberAvailabilityOverlay, MemberBusinessDateConsumption, WorkItemState,
  WorkItemFactor, identity_checks, overlay_checks, consumption_checks, work_item_checks,
  factor_checks,
}
use jira_simulator.State.Sprints.{
  SprintState, SprintScopeEntry, StatusVisitState, is_sprint_active, is_open, sprint_checks,
  scope_checks, visit_checks,
}
use jira_simulator.State.Counters.{
  SemanticCounter, NaturalDecisionEvaluation, scope_eq, counter_checks, evaluation_checks,
}
use jira_simulator.State.Samples.{StatusVisitSample, sample_checks}

-- `ScrumStateWriteSet`, and a `ScrumStateSnapshot` with the same fields
pub record ScrumState (R : Runtime) : Type 0 where
  pub member_identities : List MemberIdentity
  pub member_availability_overlays : List (MemberAvailabilityOverlay R)
  pub member_business_date_consumption : List MemberBusinessDateConsumption
  pub work_items : List WorkItemState
  pub work_item_factors : List (WorkItemFactor R)
  pub sprints : List SprintState
  pub sprint_scope : List SprintScopeEntry
  pub status_visits : List StatusVisitState
  pub status_visit_samples : List (StatusVisitSample R)
  pub semantic_counters : List SemanticCounter
  pub natural_decision_evaluations : List NaturalDecisionEvaluation

abbrev pub same_counter : SemanticCounter → SemanticCounter → Bool
same_counter a b = a.team_id == b.team_id && (a.run_id == b.run_id && scope_eq a.scope b.scope)

abbrev pub same_day : MemberBusinessDateConsumption → MemberBusinessDateConsumption → Bool
same_day a b =
    a.team_id == b.team_id
    && (a.run_id == b.run_id && (a.member_id == b.member_id && a.business_date == b.business_date))

abbrev pub same_run_sprint : SprintState → SprintState → Bool
same_run_sprint a b = a.team_id == b.team_id && a.run_id == b.run_id

abbrev pub same_scope_item : SprintScopeEntry → SprintScopeEntry → Bool
same_scope_item a b =
    a.team_id == b.team_id && (a.run_id == b.run_id && a.work_item_id == b.work_item_id)

abbrev pub same_visit_item : StatusVisitState → StatusVisitState → Bool
same_visit_item a b =
    a.team_id == b.team_id && (a.run_id == b.run_id && a.work_item_id == b.work_item_id)

abbrev pub same_occurrence : NaturalDecisionEvaluation → NaturalDecisionEvaluation → Bool
same_occurrence a b =
    a.team_id == b.team_id
    && (a.run_id == b.run_id
        && (decision_eq a.decision_type b.decision_type
            && (a.semantic_entity_id == b.semantic_entity_id && a.occurrence == b.occurrence)))

abbrev duplicate : Fault
duplicate = value_error "Scrum state collections must not contain duplicate identities"

abbrev at_most_one : String → Fault
at_most_one label = labelled "Scrum state must contain at most one" label

module _ {R : Runtime} where
  -- `_validate_collection` of each collection
  abbrev pub record_groups : ScrumState R → List (List Check)
  record_groups s =
      flat_map (identity_checks R) s.member_identities
      ∷ flat_map (overlay_checks R) s.member_availability_overlays
      ∷ flat_map (consumption_checks R) s.member_business_date_consumption
      ∷ flat_map (work_item_checks R) s.work_items
      ∷ flat_map (factor_checks R) s.work_item_factors
      ∷ flat_map (sprint_checks R) s.sprints
      ∷ flat_map (scope_checks R) s.sprint_scope
      ∷ flat_map (visit_checks R) s.status_visits
      ∷ flat_map (sample_checks R) s.status_visit_samples
      ∷ flat_map counter_checks s.semantic_counters
      ∷ flat_map (evaluation_checks R) s.natural_decision_evaluations
      ∷ []

  abbrev pub record_checks : ScrumState R → List Check
  record_checks s = concat (record_groups s)

  -- `_validate_collection_uniqueness`
  abbrev pub uniqueness_checks : ScrumState R → List Check
  uniqueness_checks s =
      (unique (λ a b. a.id == b.id) s.member_identities, duplicate)
      ∷ (unique (λ a b. a.id == b.id) s.member_availability_overlays, duplicate)
      ∷ (unique same_day s.member_business_date_consumption, duplicate)
      ∷ (unique (λ a b. a.id == b.id) s.work_items, duplicate)
      ∷ (unique (λ a b. a.id == b.id) s.work_item_factors, duplicate)
      ∷ (unique (λ a b. a.id == b.id) s.sprints, duplicate)
      ∷ (unique (λ a b. a.id == b.id) s.sprint_scope, duplicate)
      ∷ (unique (λ a b. a.id == b.id) s.status_visits, duplicate)
      ∷ (unique (λ a b. a.visit_id == b.visit_id) s.status_visit_samples, duplicate)
      ∷ (unique same_counter s.semantic_counters, duplicate)
      ∷ (unique (λ a b. a.id == b.id) s.natural_decision_evaluations, duplicate)
      ∷ []

  -- `_validate_partial_uniqueness`
  abbrev pub partial_uniqueness_checks : ScrumState R → List Check
  partial_uniqueness_checks s =
      (
        unique same_run_sprint (keep_if (λ a. is_sprint_active a.lifecycle) s.sprints),
        at_most_one "active sprint",
      )
      ∷ (
        unique same_scope_item (keep_if (λ a. not (is_some a.removed_at)) s.sprint_scope),
        at_most_one "current sprint scope",
      )
      ∷ (
        unique same_visit_item (keep_if (λ a. is_open a.lifecycle) s.status_visits),
        at_most_one "open status visit",
      )
      ∷ (
        unique same_occurrence s.natural_decision_evaluations,
        at_most_one "natural evaluation occurrence",
      )
      ∷ []

  -- The runs of all records; a member identity has none.
  abbrev pub run_lists : ScrumState R → List (List ℕ)
  run_lists s =
      map (λ a. a.run_id) s.member_availability_overlays
      ∷ map (λ a. a.run_id) s.member_business_date_consumption
      ∷ map (λ a. a.run_id) s.work_items
      ∷ map (λ a. a.run_id) s.work_item_factors
      ∷ map (λ a. a.run_id) s.sprints
      ∷ map (λ a. a.run_id) s.sprint_scope
      ∷ map (λ a. a.run_id) s.status_visits
      ∷ map (λ a. a.run_id) s.status_visit_samples
      ∷ map (λ a. a.run_id) s.semantic_counters
      ∷ map (λ a. a.run_id) s.natural_decision_evaluations
      ∷ []

  abbrev pub run_ids : ScrumState R → List ℕ
  run_ids s = concat (run_lists s)

  abbrev pub team_lists : ScrumState R → List (List ℕ)
  team_lists s =
      map (λ a. a.team_id) s.member_identities
      ∷ map (λ a. a.team_id) s.member_availability_overlays
      ∷ map (λ a. a.team_id) s.member_business_date_consumption
      ∷ map (λ a. a.team_id) s.work_items
      ∷ map (λ a. a.team_id) s.work_item_factors
      ∷ map (λ a. a.team_id) s.sprints
      ∷ map (λ a. a.team_id) s.sprint_scope
      ∷ map (λ a. a.team_id) s.status_visits
      ∷ map (λ a. a.team_id) s.status_visit_samples
      ∷ map (λ a. a.team_id) s.semantic_counters
      ∷ map (λ a. a.team_id) s.natural_decision_evaluations
      ∷ []

  abbrev pub team_ids : ScrumState R → List ℕ
  team_ids s = concat (team_lists s)
