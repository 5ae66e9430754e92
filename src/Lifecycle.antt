-- ===== src/Lifecycle.antt =====
-- backend/app/v2/domain/sprint_lifecycle.py: the activation of a planned sprint and the rollover of
-- an active one at its fixed boundary, over the state of backend/app/v2/domain/scrum_state.py.
-- The cadence of the calendar, the draw of the capacity and the activation of one item are given.
pub mod Intents
pub mod Scope
pub mod Boundary
pub mod Selection
pub mod Chain
pub mod Rollover
pub mod Crossing
mod Tests
use jira_simulator.Base.{ℕ, String, Bool, true, false, Option, none, some, List, find}
use jira_simulator.Base.Result.{Result, ok, raised, ◌>>=◌}
use jira_simulator.State.Checks.{Check, check}
use jira_simulator.State.Checks as Checks
use jira_simulator.State.Names.{Runtime}
use jira_simulator.State.Work.{WorkItemState}
use jira_simulator.State.Sprints.{StatusVisitState}
use jira_simulator.State.Counters.{SemanticCounter, SemanticCounterScope, scope_eq}
use jira_simulator.State.Samples.{StatusVisitSample}
use jira_simulator.State.Collections.{ScrumState}

-- A `next(...)` with nothing to give, a missing key, or a value that fails its checks.
pub data Fault : Type 0 where
  stop_iteration key_error : Fault
  invalid : Checks.Fault → Fault

-- The value, once `__post_init__` has checked it.
abbrev pub made {ℓ} : {A : Type ℓ} → List Check → A → Result Fault A
made checks value = elim (check checks) [
  | ok done ↦ ok value
  | raised fault ↦ raised (invalid fault)
]

pub record LiveTeamState (R : Runtime) : Type 0 where
  pub team_id : ℕ
  pub run_id : ℕ
  pub version : ℕ
  pub capacity_min_points : ℕ
  pub capacity_max_points : ℕ
  pub project_key : String
  pub carryover_policy_version : String
  pub scrum : ScrumState R

abbrev pub Activation : Runtime → Type 0
Activation R = WorkItemState × Option (StatusVisitState × StatusVisitSample R)

-- What the transitions call: `cadence_boundary` of the business calendar, the draw
-- `int(draw.unit_value * n)` of SCRUM_CAPACITY_TARGET for a sprint, `_activate_item` of
-- scrum_bootstrap.py at an instant, and the first twelve digits of `UUID.hex`.
pub record Services (R : Runtime) : Type 0 where
  pub cadence_boundary : ℕ → Result Fault ℕ
  pub capacity_draw : ℕ → ℕ → ℕ
  pub activate_item : ℕ → WorkItemState → Result Fault (Activation R)
  pub hex_prefix : ℕ → String

pub record SemanticCounterClaim : Type 0 where
  pub scope : SemanticCounterScope
  pub start : ℕ
  pub count : ℕ

abbrev counter_found : Option SemanticCounter → Result Fault SemanticCounter
counter_found none = raised stop_iteration
counter_found (some counter) = ok counter

-- `next(item for item in state.scrum.semantic_counters if item.scope == scope)`
abbrev pub counter_of :
    {R : Runtime} → LiveTeamState R → SemanticCounterScope → Result Fault SemanticCounter
counter_of state scope =
    counter_found (find (λ c. scope_eq c.scope scope) state.scrum.semantic_counters)
