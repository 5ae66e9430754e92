-- ===== src/Engine.antt =====
-- backend/app/engine: the tick of one work item and the planning of a sprint. Ids and story points
-- are natural numbers. Floats and `random.Random` are Python's: the operations of a `Runtime`,
-- with the laws of the standard library that the theorems need.
pub mod Members
pub mod Distributions
pub mod Route
pub mod Entry
pub mod Moves
pub mod Workflow
pub mod Planning
mod Tests
use jira_simulator.Base.{ℕ, ◌≤◌, ◌<◌, String, Bool, Option, List, Perm}

pub record Runtime : Type 1 where
  pub Num : Type 0
  pub zero : Num
  pub two : Num
  pub one_and_quarter : Num
  pub min_full_time : Num
  pub z_25 : Num
  pub z_99 : Num
  -- x < y and x <= y
  pub less : Num → Num → Bool
  pub less_eq : Num → Num → Bool
  pub same : Num → Num → Bool
  pub plus : Num → Num → Num
  pub minus : Num → Num → Num
  pub times : Num → Num → Num
  pub over : Num → Num → Num
  pub log : Num → Num
  pub exp : Num → Num
  -- The generator: its state, and what each method draws.
  pub Rng : Type 0
  pub random : Rng → Num × Rng
  pub gauss : Rng → Num × Rng
  pub uniform : Num → Num → Rng → Num × Rng
  pub randint : ℕ → ℕ → Rng → ℕ × Rng
  -- The index that `choice` draws of a sequence of the length.
  pub choice : ℕ → Rng → ℕ × Rng
  pub shuffle : {A : Type 0} → List A → Rng → List A × Rng
  pub randint_range :
      (low high : ℕ) (g : Rng)
      → low ≤ high
      → (low ≤ (randint low high g).0) × ((randint low high g).0 ≤ high)
  pub shuffle-perm : {A : Type 0} (xs : List A) (g : Rng) → Perm (shuffle xs g).0 xs
  pub choice_range : (n : ℕ) (g : Rng) → 0 < n → (choice n g).0 < n

pub data EngineFault : Type 0 where
  key_error : EngineFault
  value_error : String → EngineFault

-- `JiraWriteAction` of types.py, with the two entries of a transition's payload.
pub record JiraWriteAction : Type 0 where
  pub operation_type : String
  pub issue_key : Option String
  pub target_status : String
  pub issue_id : ℕ

pub data Completion : Type 0 where
  not_completed : Completion
  -- `issue.completed_at = True`
  marked : Completion
  completed : ℕ → Completion

pub record WorkflowStep : Type 0 where
  pub id : ℕ
  pub order : ℕ
  pub jira_status : String
  pub roles : List String

module _ (R : Runtime) where
  open R use {Num}

  -- The fields of an issue that the engine reads and writes.
  pub record Issue : Type 0 where
    pub id : ℕ
    pub issue_type : String
    pub story_points : Option ℕ
    pub jira_issue_key : Option String
    pub status : String
    pub current_workflow_step_id : Option ℕ
    pub current_worker_id : Option ℕ
    pub sampled_full_time : Num
    pub sampled_work_time : Num
    pub elapsed_full_time : Num
    pub elapsed_work_time : Num
    pub work_started : Bool
    pub completed_at : Completion

  pub record TouchTimeConfig : Type 0 where
    pub full_time_p25 : Option Num
    pub full_time_p50 : Option Num
    pub full_time_p99 : Option Num
    pub min_hours : Num
    pub max_hours : Num

  pub record MoveLeftTarget : Type 0 where
    pub to_step_id : ℕ
    pub weight : Num

  pub record MoveLeftConfig : Type 0 where
    pub from_step_id : ℕ
    pub issue_type : Option String
    pub base_probability : Num
    pub targets : List MoveLeftTarget
