-- ===== src/State/Names.antt =====
-- What the state is named by: the semantic identifiers of backend/app/v2/domain/canonical_json.py
-- and deterministic_rng.py, with the kinds of creation and of decision.
use jira_simulator.Base.{ℕ, String, str_eq, Bool, Option, List, [], ◌∷◌, any, find}

pub data CreationKind : Type 0 where
  initial_backlog scrum_replenishment kanban_arrival agent_created jira_imported : CreationKind

abbrev pub creation_kinds : List CreationKind
creation_kinds =
    initial_backlog ∷ scrum_replenishment ∷ kanban_arrival ∷ agent_created ∷ jira_imported ∷ []

-- `kind.value`
abbrev pub creation_value : CreationKind → String
creation_value initial_backlog = "INITIAL_BACKLOG"
creation_value scrum_replenishment = "SCRUM_REPLENISHMENT"
creation_value kanban_arrival = "KANBAN_ARRIVAL"
creation_value agent_created = "AGENT_CREATED"
creation_value jira_imported = "JIRA_IMPORTED"

pub data DecisionType : Type 0 where
  backlog_issue_type : DecisionType
  backlog_story_points : DecisionType
  backlog_priority : DecisionType
  item_description_quality : DecisionType
  item_latent_complexity : DecisionType
  status_dwell : DecisionType
  status_touch : DecisionType
  scrum_capacity_target : DecisionType
  risk_external_dependency_outcome : DecisionType
  risk_external_dependency_duration : DecisionType
  risk_cancellation_outcome : DecisionType
  risk_review_rejection_outcome : DecisionType
  risk_rework_duration : DecisionType
  risk_member_unavailable_outcome : DecisionType
  risk_member_unavailable_duration : DecisionType
  forced_rework_duration : DecisionType
  kanban_arrival_gap : DecisionType
  kanban_class_of_service : DecisionType

abbrev pub decision_types : List DecisionType
decision_types =
    backlog_issue_type ∷ backlog_story_points ∷ backlog_priority ∷ item_description_quality
    ∷ item_latent_complexity ∷ status_dwell ∷ status_touch ∷ scrum_capacity_target
    ∷ risk_external_dependency_outcome ∷ risk_external_dependency_duration
    ∷ risk_cancellation_outcome ∷ risk_review_rejection_outcome ∷ risk_rework_duration
    ∷ risk_member_unavailable_outcome ∷ risk_member_unavailable_duration ∷ forced_rework_duration
    ∷ kanban_arrival_gap ∷ kanban_class_of_service ∷ []

-- `decision.value`
abbrev pub decision_value : DecisionType → String
decision_value backlog_issue_type = "BACKLOG_ISSUE_TYPE"
decision_value backlog_story_points = "BACKLOG_STORY_POINTS"
decision_value backlog_priority = "BACKLOG_PRIORITY"
decision_value item_description_quality = "ITEM_DESCRIPTION_QUALITY"
decision_value item_latent_complexity = "ITEM_LATENT_COMPLEXITY"
decision_value status_dwell = "STATUS_DWELL"
decision_value status_touch = "STATUS_TOUCH"
decision_value scrum_capacity_target = "SCRUM_CAPACITY_TARGET"
decision_value risk_external_dependency_outcome = "RISK_EXTERNAL_DEPENDENCY_OUTCOME"
decision_value risk_external_dependency_duration = "RISK_EXTERNAL_DEPENDENCY_DURATION"
decision_value risk_cancellation_outcome = "RISK_CANCELLATION_OUTCOME"
decision_value risk_review_rejection_outcome = "RISK_REVIEW_REJECTION_OUTCOME"
decision_value risk_rework_duration = "RISK_REWORK_DURATION"
decision_value risk_member_unavailable_outcome = "RISK_MEMBER_UNAVAILABLE_OUTCOME"
decision_value risk_member_unavailable_duration = "RISK_MEMBER_UNAVAILABLE_DURATION"
decision_value forced_rework_duration = "FORCED_REWORK_DURATION"
decision_value kanban_arrival_gap = "KANBAN_ARRIVAL_GAP"
decision_value kanban_class_of_service = "KANBAN_CLASS_OF_SERVICE"

abbrev pub decision_eq : DecisionType → DecisionType → Bool
decision_eq a b = str_eq (decision_value a) (decision_value b)

-- `DecisionType(key)`, which raises on another key
abbrev pub decision_of : String → Option DecisionType
decision_of key = find (λ d. str_eq (decision_value d) key) decision_types

abbrev natural_owner_decisions : List DecisionType
natural_owner_decisions = risk_cancellation_outcome ∷ risk_member_unavailable_outcome ∷ []

-- `decision in NATURAL_OWNER_DECISIONS`
abbrev pub is_natural_owner_decision : DecisionType → Bool
is_natural_owner_decision d = any (decision_eq d) natural_owner_decisions

-- Python's texts of values, its hash and its floats, and the canonical JSON of
-- backend/app/v2/domain/canonical_json.py.
pub record Runtime : Type 1 where
  -- `uuid5(SEMANTIC_ID_V1_NAMESPACE, path)`; the path is given by its parts, which `/` separates
  pub semantic_uuid : List String → ℕ
  pub str_uuid : ℕ → String
  pub str_int : ℕ → String
  -- A date by its ordinal.
  pub str_date : ℕ → String
  -- The text is the canonical JSON of an object whose SHA-256 is the digest.
  pub is_canonical_json : String → String → Bool
  pub Num : Type 0
  -- math.isfinite(x) and 0 <= x <= 1
  pub is_fraction : Num → Bool
  -- math.isfinite(x) and 0 <= x
  pub is_finite : Num → Bool
  -- Numerator and denominator of a float that is not negative.
  pub as_integer_ratio : Num → ℕ × ℕ
  -- `canonical_sha256({"required_work_microseconds": n})`
  pub required_work_digest : ℕ → String
  -- The JSON documents of a sample, and whether they agree with its visit, team, run and hours.
  pub Documents : Type 0
  pub documents_match : Documents → ℕ → ℕ → ℕ → Num → Bool

module _ (R : Runtime) where
  open R use {semantic_uuid, str_uuid, str_int}

  abbrev pub ordinal_uuid : String → ℕ → ℕ → ℕ
  ordinal_uuid prefix parent_id ordinal =
      semantic_uuid (prefix ∷ str_uuid parent_id ∷ str_int ordinal ∷ [])

  abbrev pub member_rng_id : ℕ → ℕ → ℕ
  member_rng_id team_id index = ordinal_uuid "member" team_id index

  abbrev pub sprint_rng_id : ℕ → ℕ → ℕ
  sprint_rng_id team_id ordinal = ordinal_uuid "sprint" team_id ordinal

  abbrev pub item_rng_id : ℕ → CreationKind → ℕ → ℕ
  item_rng_id team_id kind sequence =
      semantic_uuid ("item" ∷ str_uuid team_id ∷ creation_value kind ∷ str_int sequence ∷ [])

  abbrev pub visit_rng_id : ℕ → ℕ → ℕ
  visit_rng_id item_id ordinal = ordinal_uuid "visit" item_id ordinal
