-- ===== src/State/Validation.antt =====
-- What is asked of the collections together: one team, statuses, references and samples.
-- `_ScrumCollections.validate`, `ScrumStateSnapshot.validate` and `from_write_set`.
use jira_simulator.Base.{
  ℕ, String, str_eq, not, ◌&&◌, ◌||◌, Option, none, some, List, [], ◌∷◌, ◌++◌, all, map, length,
  leb, ◌==◌, if◌then◌else◌, find_last, set_of, flat_map, concat, contains,
}
use jira_simulator.Base.Result.{Result, ok, ◌>>=◌, ◌>>◌}
use jira_simulator.State.Checks.{Check, Fault, check, value_error, labelled}
use jira_simulator.State.Names.{
  Runtime, DecisionType, decision_eq, decision_value, is_natural_owner_decision, decision_of,
  risk_member_unavailable_outcome,
}
use jira_simulator.State.Work.{WorkItemState}
use jira_simulator.State.Sprints.{StatusVisitState, is_open}
use jira_simulator.State.Counters.{
  SemanticCounter, decision_checks, counts_decisions, is_visit_ordinal,
}
use jira_simulator.State.Samples.{StatusVisitSample}
use jira_simulator.State.Collections.{
  ScrumState, record_checks, uniqueness_checks, partial_uniqueness_checks, team_ids, run_ids,
}

-- `_require_reference`: the identifier is a key of the owners.
abbrev pub require_reference : ℕ → List ℕ → String → Check
require_reference identifier owners label =
    (contains owners identifier, labelled label "must reference a state owner")

abbrev pub optional_reference : Option ℕ → List ℕ → String → List Check
optional_reference none owners label = []
optional_reference (some identifier) owners label = require_reference identifier owners label ∷ []

-- `_validate_natural_owner`
abbrev pub owner_check : List ℕ → List ℕ → ℕ → DecisionType → Check
owner_check work_ids member_ids owner_id decision = (
  is_natural_owner_decision decision
      && (if decision_eq decision risk_member_unavailable_outcome
          then contains member_ids owner_id
          else contains work_ids owner_id),
  value_error "natural decision must reference its supported state owner",
)

abbrev pub natural_owner_checks : List ℕ → List ℕ → String → ℕ → List Check
natural_owner_checks work_ids member_ids key owner_id =
    decision_checks (owner_check work_ids member_ids owner_id) (decision_of key)

abbrev pub counter_reference_checks : List ℕ → List ℕ → SemanticCounter → List Check
counter_reference_checks work_ids member_ids c =
    (
      not (is_visit_ordinal c.scope.kind) || contains work_ids c.scope.scope_id,
      value_error "visit ordinal counter must reference a work item",
    )
    ∷ (if counts_decisions c.scope.kind
        then natural_owner_checks work_ids member_ids c.scope.scope_key c.scope.scope_id
        else [])

abbrev pub open_status_of : Option WorkItemState → StatusVisitState → List Check
open_status_of none v = []
open_status_of (some work) v =
    (
      not (is_open v.lifecycle) || str_eq v.status_key work.current_status_key,
      value_error "open visit status must match current work status",
    )
    ∷ []

abbrev pub sample_link_of :
    {R : Runtime} → Option StatusVisitState → StatusVisitSample R → List Check
sample_link_of none s = []
sample_link_of (some v) s =
    (
      s.team_id == v.team_id && s.run_id == v.run_id,
      value_error "status sample team/run must match its visit",
    )
    ∷ (
      s.required_work_microseconds == v.required_work_microseconds,
      value_error "status sample must match visit required work",
    )
    ∷ []

module _ {R : Runtime} where
  -- `_validate_one_team_run`
  abbrev pub one_team_run_check : ScrumState R → Check
  one_team_run_check s = (
    leb (length (set_of ◌==◌ (team_ids s))) 1 && leb (length (set_of ◌==◌ (run_ids s))) 1,
    value_error "Scrum state collections must use one team/run",
  )

  -- `_validate_open_visit_status`
  abbrev pub open_visit_status_checks : ScrumState R → List Check
  open_visit_status_checks s =
      flat_map (λ v. open_status_of (find_last (λ w. w.id == v.work_item_id) s.work_items) v)
        s.status_visits

  -- `_validate_sample_links`
  abbrev pub sample_link_checks : ScrumState R → List Check
  sample_link_checks s =
      flat_map (λ a. sample_link_of (find_last (λ v. v.id == a.visit_id) s.status_visits) a)
        s.status_visit_samples

  -- `_validate_member_references`
  abbrev pub member_reference_groups : ScrumState R → List (List Check)
  member_reference_groups s =
      let members = map (λ m. m.id) s.member_identities in
      map (λ o. require_reference o.member_id members "member child") s.member_availability_overlays
      ∷ map (λ c. require_reference c.member_id members "member child")
          s.member_business_date_consumption
      ∷ flat_map (λ v. optional_reference v.member_id members "visit member") s.status_visits
      ∷ []

  abbrev pub member_reference_checks : ScrumState R → List Check
  member_reference_checks s = concat (member_reference_groups s)

  -- `_validate_work_references`
  abbrev pub work_reference_groups : ScrumState R → List (List Check)
  work_reference_groups s =
      let work_items = map (λ w. w.id) s.work_items in
      let sprints = map (λ p. p.id) s.sprints in
      let visits = map (λ v. v.id) s.status_visits in
      map (λ f. require_reference f.work_item_id work_items "factor work item") s.work_item_factors
      ∷ flat_map
          (λ e.
            require_reference e.work_item_id work_items "scope work item"
            ∷ require_reference e.sprint_id sprints "scope sprint"
            ∷ [])
          s.sprint_scope
      ∷ map (λ v. require_reference v.work_item_id work_items "visit work item") s.status_visits
      ∷ map (λ a. require_reference a.visit_id visits "sample visit") s.status_visit_samples
      ∷ []

  abbrev pub work_reference_checks : ScrumState R → List Check
  work_reference_checks s = concat (work_reference_groups s)

  -- `_validate_counter_references`
  abbrev pub counter_references : ScrumState R → List Check
  counter_references s =
      let work_ids = map (λ w. w.id) s.work_items in
      let member_ids = map (λ m. m.id) s.member_identities in
      flat_map (counter_reference_checks work_ids member_ids) s.semantic_counters
      ++ flat_map
          (λ e.
            natural_owner_checks work_ids member_ids (decision_value e.decision_type)
              e.semantic_entity_id)
          s.natural_decision_evaluations

  -- `_validate_sample_cardinality`: two sets of identifiers are equal.
  abbrev pub sample_cardinality_check : ScrumState R → Check
  sample_cardinality_check s =
      let visit_ids = map (λ v. v.id) s.status_visits in
      let sampled = map (λ a. a.visit_id) s.status_visit_samples in
      (
        all (contains sampled) visit_ids && all (contains visit_ids) sampled,
        value_error "complete Scrum state requires exactly one sample per visit",
      )

  abbrev pub collection_groups : ScrumState R → List (List Check)
  collection_groups s =
      record_checks s
      ∷ uniqueness_checks s
      ∷ partial_uniqueness_checks s
      ∷ (one_team_run_check s ∷ [])
      ∷ open_visit_status_checks s
      ∷ sample_link_checks s
      ∷ []

  abbrev pub collection_checks : ScrumState R → List Check
  collection_checks s = concat (collection_groups s)

  -- `_ScrumCollections.validate`, which a `ScrumStateWriteSet` passes when it is made
  unfoldable pub validate_write_set : ScrumState R → Result Fault (Unit {0})
  validate_write_set s = check (collection_checks s)

  abbrev pub snapshot_groups : ScrumState R → List (List Check)
  snapshot_groups s =
      collection_checks s
      ∷ member_reference_checks s
      ∷ work_reference_checks s
      ∷ counter_references s
      ∷ open_visit_status_checks s
      ∷ (sample_cardinality_check s ∷ [])
      ∷ []

  abbrev pub snapshot_checks : ScrumState R → List Check
  snapshot_checks s = concat (snapshot_groups s)

  -- `ScrumStateSnapshot.validate`
  unfoldable pub validate_snapshot : ScrumState R → Result Fault (Unit {0})
  validate_snapshot s = check (snapshot_checks s)

  -- `ScrumStateSnapshot.from_write_set`
  unfoldable pub from_write_set : ScrumState R → Result Fault (ScrumState R)
  unfolding validate_write_set validate_snapshot
  from_write_set s = validate_write_set s >> validate_snapshot s >>= λ done. ok s
