-- ===== src/State/Counters.antt =====
-- The semantic counters and the evaluations of natural decisions, and the samples of status visits.
use jira_simulator.Base.{
  ℕ, String, str_eq, Bool, true, false, not, ◌&&◌, ◌||◌, Option, none, some, List, [], ◌∷◌, ◌++◌,
  any, map, ◌==◌, if◌then◌else◌,
}
use jira_simulator.State.Checks.{
  Check, value_error, require_safe_integer, require_counter_value, require_text,
}
use jira_simulator.State.Names.{
  Runtime, DecisionType, decision_types, decision_value, decision_of, is_natural_owner_decision,
  creation_kinds, creation_value,
}
use jira_simulator.State.Work.{require_semantic_id}

pub data SemanticCounterKind : Type 0 where
  sprint_ordinal item_sequence visit_ordinal natural_decision_occurrence : SemanticCounterKind

-- `_scope_key`
abbrev pub scope_keys : SemanticCounterKind → List String
scope_keys sprint_ordinal = "SCRUM" ∷ []
scope_keys item_sequence = map creation_value creation_kinds
scope_keys visit_ordinal = "VISIT" ∷ []
scope_keys natural_decision_occurrence = map decision_value decision_types

pub record SemanticCounterScope : Type 0 where
  pub kind : SemanticCounterKind
  pub scope_id : ℕ
  pub scope_key : String

pub record SemanticCounter : Type 0 where
  pub team_id : ℕ
  pub run_id : ℕ
  pub scope : SemanticCounterScope
  pub next_value : ℕ

pub record NaturalDecisionEvaluation : Type 0 where
  pub id : ℕ
  pub team_id : ℕ
  pub run_id : ℕ
  pub decision_type : DecisionType
  pub semantic_entity_id : ℕ
  pub business_date : ℕ
  pub occurrence : ℕ
  pub commit_id : ℕ
  pub recorded_at : ℕ

abbrev pub kind_index : SemanticCounterKind → ℕ
kind_index sprint_ordinal = 0
kind_index item_sequence = 1
kind_index visit_ordinal = 2
kind_index natural_decision_occurrence = 3

-- `scope == other`, field by field
abbrev pub scope_eq : SemanticCounterScope → SemanticCounterScope → Bool
scope_eq a b =
    kind_index a.kind == kind_index b.kind
    && (a.scope_id == b.scope_id && str_eq a.scope_key b.scope_key)

abbrev pub is_team_scoped : SemanticCounterKind → Bool
is_team_scoped sprint_ordinal = true
is_team_scoped item_sequence = true
is_team_scoped visit_ordinal = false
is_team_scoped natural_decision_occurrence = false

abbrev pub is_visit_ordinal : SemanticCounterKind → Bool
is_visit_ordinal sprint_ordinal = false
is_visit_ordinal item_sequence = false
is_visit_ordinal visit_ordinal = true
is_visit_ordinal natural_decision_occurrence = false

abbrev pub counts_decisions : SemanticCounterKind → Bool
counts_decisions sprint_ordinal = false
counts_decisions item_sequence = false
counts_decisions visit_ordinal = false
counts_decisions natural_decision_occurrence = true

abbrev pub counter_scope_checks : SemanticCounterScope → List Check
counter_scope_checks s =
    require_text s.scope_key "scope_key"
    ∷ (
      any (λ key. str_eq key s.scope_key) (scope_keys s.kind),
      value_error "scope_key does not match the semantic counter kind",
    )
    ∷ []

-- `DecisionType(key)` with what is then asked of it
abbrev pub decision_checks : (DecisionType → Check) → Option DecisionType → List Check
decision_checks asked none = (false, value_error "is not a valid DecisionType") ∷ []
decision_checks asked (some decision) = asked decision ∷ []

abbrev pub counter_checks : SemanticCounter → List Check
counter_checks c =
    counter_scope_checks c.scope
    ++ (require_counter_value c.next_value
        ∷ (
          not (is_team_scoped c.scope.kind) || c.scope.scope_id == c.team_id,
          value_error "team-scoped counter must use team_id as scope_id",
        )
        ∷ (if counts_decisions c.scope.kind
            then decision_checks
                (λ d. (
                  is_natural_owner_decision d,
                  value_error "counter decision type has no supported natural owner",
                ))
                (decision_of c.scope.scope_key)
            else []))

module _ (R : Runtime) where
  open R use {semantic_uuid, str_uuid, str_date}

  abbrev pub expected_id : NaturalDecisionEvaluation → ℕ
  expected_id e = semantic_uuid (
      "evaluation"
      ∷ str_uuid e.team_id
      ∷ str_uuid e.run_id
      ∷ decision_value e.decision_type
      ∷ str_uuid e.semantic_entity_id
      ∷ str_date e.business_date
      ∷ [])

  abbrev pub evaluation_checks : NaturalDecisionEvaluation → List Check
  evaluation_checks e =
      (
        is_natural_owner_decision e.decision_type,
        value_error "decision type has no supported natural owner",
      )
      ∷ require_safe_integer e.occurrence "occurrence"
      ∷ require_semantic_id e.id (expected_id e) "semantic evaluation id"
      ∷ []
