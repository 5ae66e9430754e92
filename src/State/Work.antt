-- ===== src/State/Work.antt =====
-- Members and work items of the state, each with the checks of its `validate`.
use jira_simulator.Base.{
  ℕ, String, str_eq, Bool, ◌&&◌, ◌||◌, Option, none, some, List, [], ◌∷◌, ◌++◌, any, contains, ltb,
  leb, ◌==◌,
}
use jira_simulator.State.Checks.{
  Check, value_error, labelled, require_safe_integer, require_microseconds, require_text,
  require_lower_hex_digest,
}
use jira_simulator.State.Names.{Runtime, CreationKind, member_rng_id, item_rng_id}

abbrev pub issue_types : List String
issue_types = "STORY" ∷ "BUG" ∷ "TASK" ∷ "SPIKE" ∷ "ENABLER" ∷ []

abbrev pub story_point_values : List ℕ
story_point_values = 1 ∷ 2 ∷ 3 ∷ 5 ∷ 8 ∷ 13 ∷ []

pub data WorkItemLifecycle : Type 0 where
  backlog active done cancelled : WorkItemLifecycle

pub data WorkPriority : Type 0 where
  highest high medium low lowest : WorkPriority

-- `WORK_PRIORITY_ORDER.index(priority.value)`
abbrev pub priority_index : WorkPriority → ℕ
priority_index highest = 0
priority_index high = 1
priority_index medium = 2
priority_index low = 3
priority_index lowest = 4

pub data FactorKind : Type 0 where
  description_quality latent_complexity : FactorKind

abbrev pub factor_value : FactorKind → String
factor_value description_quality = "DESCRIPTION_QUALITY"
factor_value latent_complexity = "LATENT_COMPLEXITY"

abbrev pub require_semantic_id : ℕ → ℕ → String → Check
require_semantic_id actual expected label =
    (actual == expected, labelled label "does not match its semantic coordinates")

pub record SimulatorRank : Type 0 where
  pub priority : WorkPriority
  pub relative_rank : ℕ
  pub work_item_id : ℕ

pub record MemberIdentity : Type 0 where
  pub id : ℕ
  pub team_id : ℕ
  pub blueprint_index : ℕ

pub record MemberAvailabilityOverlay (R : Runtime) : Type 0 where
  pub id : ℕ
  pub team_id : ℕ
  pub run_id : ℕ
  pub member_id : ℕ
  pub source : String
  pub starts_at : ℕ
  pub ends_at : ℕ
  pub availability_fraction : R.Num
  pub daily_capacity_ceiling_microseconds : Option ℕ
  pub reason : String
  pub provenance_json : String
  pub provenance_sha256 : String
  pub created_at : ℕ

pub record MemberBusinessDateConsumption : Type 0 where
  pub team_id : ℕ
  pub run_id : ℕ
  pub member_id : ℕ
  pub business_date : ℕ
  pub consumed_labor_microseconds : ℕ

pub record WorkItemState : Type 0 where
  pub id : ℕ
  pub team_id : ℕ
  pub run_id : ℕ
  pub creation_kind : CreationKind
  pub creation_sequence : ℕ
  pub issue_type : String
  pub story_points : ℕ
  pub priority : WorkPriority
  pub relative_rank : ℕ
  pub lifecycle : WorkItemLifecycle
  pub current_status_key : String
  pub created_at : ℕ
  pub updated_at : ℕ

pub record WorkItemFactor (R : Runtime) : Type 0 where
  pub id : ℕ
  pub team_id : ℕ
  pub run_id : ℕ
  pub work_item_id : ℕ
  pub kind : FactorKind
  pub value : R.Num
  pub provenance_json : String
  pub provenance_sha256 : String
  pub recorded_at : ℕ

abbrev pub simulator_rank : WorkItemState → SimulatorRank
simulator_rank w = record {
  priority = w.priority;
  relative_rank = w.relative_rank;
  work_item_id = w.id;
}

-- `a.simulator_rank < b.simulator_rank`: the order of the tuples of `_sort_key`
abbrev pub rank_lt : SimulatorRank → SimulatorRank → Bool
rank_lt a b =
    ltb (priority_index a.priority) (priority_index b.priority)
    || (priority_index a.priority == priority_index b.priority
        && (ltb a.relative_rank b.relative_rank
            || (a.relative_rank == b.relative_rank && ltb a.work_item_id b.work_item_id)))

abbrev pub optional_ceiling : Option ℕ → List Check
optional_ceiling none = []
optional_ceiling (some n) = require_microseconds n "capacity ceiling" ∷ []

-- `_validate_classification`
abbrev pub classification_checks : WorkItemState → List Check
classification_checks w =
    (
      any (λ t. str_eq t w.issue_type) issue_types,
      value_error "issue_type must be a supported exact value",
    )
    ∷ (
      contains story_point_values w.story_points,
      value_error "story_points must use the supported Fibonacci scale",
    )
    ∷ require_safe_integer w.relative_rank "relative_rank"
    ∷ require_text w.current_status_key "current_status_key"
    ∷ []

module _ (R : Runtime) where
  open R use {semantic_uuid, str_uuid, is_canonical_json, is_fraction}

  abbrev pub require_fraction : R.Num → String → Check
  require_fraction value label =
      (is_fraction value, labelled label "must be a finite fraction in [0, 1]")

  abbrev pub canonical_document : String → String → String → List Check
  canonical_document text digest label =
      require_text text label ∷ require_lower_hex_digest digest label
      ++ ((
        is_canonical_json text digest,
        labelled label "must be a canonical JSON object with this digest",
      )
          ∷ [])

  abbrev pub identity_checks : MemberIdentity → List Check
  identity_checks m =
      require_safe_integer m.blueprint_index "blueprint_index"
      ∷ require_semantic_id m.id (member_rng_id R m.team_id m.blueprint_index) "semantic member id"
      ∷ []

  abbrev pub overlay_checks : MemberAvailabilityOverlay R → List Check
  overlay_checks o =
      require_text o.source "source"
      ∷ (
        ltb o.starts_at o.ends_at,
        value_error "overlay interval must be half-open with starts_at before ends_at",
      )
      ∷ require_fraction o.availability_fraction "availability_fraction"
      ∷ (optional_ceiling o.daily_capacity_ceiling_microseconds
          ++ (require_text o.reason "reason"
              ∷ canonical_document o.provenance_json o.provenance_sha256 "provenance"))

  abbrev pub consumption_checks : MemberBusinessDateConsumption → List Check
  consumption_checks c =
      require_microseconds c.consumed_labor_microseconds "consumed_labor_microseconds" ∷ []

  abbrev pub work_item_checks : WorkItemState → List Check
  work_item_checks w =
      require_safe_integer w.creation_sequence "creation_sequence"
      ∷ require_semantic_id w.id (item_rng_id R w.team_id w.creation_kind w.creation_sequence)
          "semantic work item id"
      ∷ (classification_checks w
          ++ ((leb w.created_at w.updated_at, value_error "updated_at must not precede created_at")
              ∷ []))

  abbrev pub factor_checks : WorkItemFactor R → List Check
  factor_checks f =
      require_semantic_id f.id
        (semantic_uuid ("factor" ∷ str_uuid f.work_item_id ∷ factor_value f.kind ∷ []))
        "semantic factor id"
      ∷ require_fraction f.value "factor value"
      ∷ canonical_document f.provenance_json f.provenance_sha256 "provenance"
