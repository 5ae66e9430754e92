-- ===== src/Lifecycle/Intents.antt =====
-- The records that a transition leaves: the activity, the ground truth and the Jira intents, each
-- of which depends on the one before it.
use jira_simulator.Base.{
  ℕ, ◌+◌, String, not, ◌&&◌, Option, none, some, is_some, List, [], ◌∷◌, map, keep_if, ◌==◌,
}
use jira_simulator.State.Names.{Runtime}
use jira_simulator.State.Sprints.{SprintState}
use jira_simulator.State.Collections.{ScrumState}
use jira_simulator.Lifecycle.{LiveTeamState, SemanticCounterClaim, Services}

pub data Operation : Type 0 where
  complete_sprint create_sprint scope_sprint start_sprint : Operation

-- `operation.lower()`
abbrev pub suffix_of : Operation → String
suffix_of complete_sprint = "complete_sprint"
suffix_of create_sprint = "create_sprint"
suffix_of scope_sprint = "scope_sprint"
suffix_of start_sprint = "start_sprint"

-- A key by its parts, which `/` separates.
abbrev pub Key : Type 0
Key = List String

-- What CREATE_SPRINT says of the sprint; its name is given by the parts that `-` separates.
pub record SprintDetails : Type 0 where
  pub board_id : String
  pub name : List String
  pub start_at : ℕ
  pub end_at : ℕ

pub record ProjectionPayload : Type 0 where
  pub sprint_id : String
  pub depends_on : List Key
  pub details : Option SprintDetails
  pub issue_ids : Option (List String)

pub record ProjectionIntentDraft : Type 0 where
  pub semantic_key : Key
  pub occurred_at : ℕ
  pub operation : Operation
  pub entity_id : ℕ
  pub entity_version : ℕ
  pub payload : ProjectionPayload

pub record ActivityEventDraft : Type 0 where
  pub semantic_key : Key
  pub occurred_at : ℕ
  pub event_type : String
  pub sprint_id : ℕ
  pub entity_version : ℕ

pub record GroundTruthRecordDraft : Type 0 where
  pub semantic_key : Key
  pub occurred_at : ℕ
  pub previous_sprint_id : ℕ
  pub current_sprint_id : ℕ
  pub carryover_policy : String

pub record TransitionContext (R : Runtime) : Type 0 where
  pub state : LiveTeamState R
  pub write_set : ScrumState R
  pub claims : List SemanticCounterClaim
  pub previous : SprintState
  pub current : SprintState
  pub boundary : ℕ

pub record SprintTransition (R : Runtime) : Type 0 where
  pub state : ScrumState R
  pub activity : List ActivityEventDraft
  pub ground_truth : List GroundTruthRecordDraft
  pub projection_intents : List ProjectionIntentDraft
  pub counter_claims : List SemanticCounterClaim

-- `context.previous if operation == "COMPLETE_SPRINT" else context.current`
abbrev pub sprint_for : {R : Runtime} → TransitionContext R → Operation → SprintState
sprint_for context complete_sprint = context.previous
sprint_for context create_sprint = context.current
sprint_for context scope_sprint = context.current
sprint_for context start_sprint = context.current

-- `[] if not intents else [intents[-1].semantic_key]`
abbrev pub dependency_of : Option Key → List Key
dependency_of none = []
dependency_of (some key) = key ∷ []

module _ {R : Runtime} where
  open R use {str_uuid, str_int}

  abbrev pub boundary_key : LiveTeamState R → ℕ → String → Key
  boundary_key state ordinal suffix =
      "sprint-boundary"
      ∷ str_uuid state.team_id
      ∷ str_uuid state.run_id
      ∷ str_int ordinal
      ∷ suffix
      ∷ []

  abbrev details_of : Services R → TransitionContext R → Operation → Option SprintDetails
  details_of services context create_sprint =
      let sprint = context.current in
      some record {
        board_id = str_uuid context.state.team_id;
        name = "SIM" ∷ context.state.project_key ∷ services.hex_prefix sprint.id ∷ [];
        start_at = sprint.planned_start_at;
        end_at = sprint.planned_end_at;
      }
  details_of services context complete_sprint = none
  details_of services context scope_sprint = none
  details_of services context start_sprint = none

  abbrev pub issues_of : TransitionContext R → Operation → Option (List String)
  issues_of context scope_sprint = some (
      map (λ e. str_uuid e.work_item_id)
        (keep_if (λ e. e.sprint_id == context.current.id && not (is_some e.removed_at))
          context.write_set.sprint_scope))
  issues_of context complete_sprint = none
  issues_of context create_sprint = none
  issues_of context start_sprint = none

  -- `_projection_payload`
  abbrev pub projection_payload :
      Services R → TransitionContext R → Operation → List Key → ProjectionPayload
  projection_payload services context operation dependency =
      let sprint = sprint_for context operation in
      record {
        sprint_id = str_uuid sprint.id;
        depends_on = dependency;
        details = details_of services context operation;
        issue_ids = issues_of context operation;
      }

  -- `_build_projection_intents`; `last` is the key of the intent built before, if any.
  abbrev pub intents_after :
      Services R → TransitionContext R → List Operation → Option Key → List ProjectionIntentDraft
  intents_after services context [] last = []
  intents_after services context (operation ∷ rest) last =
      let key = boundary_key context.state context.current.ordinal (suffix_of operation) in
      record {
        semantic_key = key;
        occurred_at = context.boundary;
        operation = operation;
        entity_id = (sprint_for context operation).id;
        entity_version = context.state.version + 1;
        payload = projection_payload services context operation (dependency_of last);
      }
      ∷ intents_after services context rest (some key)

  abbrev pub build_projection_intents :
      Services R → TransitionContext R → List Operation → List ProjectionIntentDraft
  build_projection_intents services context operations =
      intents_after services context operations none

  -- `_activity`
  abbrev pub activity_event : TransitionContext R → String → ActivityEventDraft
  activity_event context event_type = record {
    semantic_key = boundary_key context.state context.current.ordinal "activity";
    occurred_at = context.boundary;
    event_type = event_type;
    sprint_id = context.current.id;
    entity_version = context.state.version + 1;
  }

  -- `_ground_truth`
  abbrev pub ground_truth : TransitionContext R → GroundTruthRecordDraft
  ground_truth context = record {
    semantic_key = boundary_key context.state context.current.ordinal "ground-truth";
    occurred_at = context.boundary;
    previous_sprint_id = context.previous.id;
    current_sprint_id = context.current.id;
    carryover_policy = context.state.carryover_policy_version;
  }

  abbrev transition_of :
      Services R → TransitionContext R → String → List Operation → SprintTransition R
  transition_of services context event_type operations = record {
    state = context.write_set;
    activity = activity_event context event_type ∷ [];
    ground_truth = ground_truth context ∷ [];
    projection_intents = build_projection_intents services context operations;
    counter_claims = context.claims;
  }

  abbrev pub activation_transition : Services R → TransitionContext R → SprintTransition R
  activation_transition services context =
      transition_of services context "SPRINT_STARTED"
        (create_sprint ∷ scope_sprint ∷ start_sprint ∷ [])

  abbrev pub rollover_transition : Services R → TransitionContext R → SprintTransition R
  rollover_transition services context =
      transition_of services context "SPRINT_ROLLED_OVER"
        (complete_sprint ∷ create_sprint ∷ scope_sprint ∷ start_sprint ∷ [])
