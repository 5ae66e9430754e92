-- ===== src/Engine/Moves.antt =====
-- Where an item that is ready goes: roll_direction of backend/app/engine/workflow_engine.py.
pub mod Targets
use jira_simulator.Base.{
  ℕ, String, Bool, true, false, ◌&&◌, Option, none, some, List, [], ◌∷◌, ◌==◌, if◌then◌else◌,
  str_eq,
}
use jira_simulator.Engine.{Runtime, WorkflowStep, MoveLeftTarget, MoveLeftConfig}

pub data Direction : Type 0 where
  forward : Direction
  left : ℕ → Direction

-- `config.issue_type == issue_type`
abbrev pub of_kind : String → Option String → Bool
of_kind kind none = false
of_kind kind (some k) = str_eq k kind

-- `config.issue_type is None`
abbrev pub of_any : Option String → Bool
of_any none = true
of_any (some _) = false

module _ (R : Runtime) where
  open R use {Num, zero as no_time, less_eq, plus, times, Rng, random}

  -- The loop of `roll_direction`: the last specific and the last generic configuration.
  pub matching :
      String
      → WorkflowStep
      → Option (MoveLeftConfig R)
      → Option (MoveLeftConfig R)
      → List (MoveLeftConfig R)
      → Option (MoveLeftConfig R)
  matching kind step (some specific) generic [] = some specific
  matching kind step none generic [] = generic
  matching kind step specific generic (c ∷ cs) =
      let here = c.from_step_id == step.id in
      matching kind step (if here && of_kind kind c.issue_type then some c else specific)
        (if here && of_any c.issue_type then some c else generic) cs

  abbrev pub total_weight : Num → List (MoveLeftTarget R) → Num
  total_weight sum [] = sum
  total_weight sum (t ∷ ts) = total_weight (plus sum t.weight) ts

  -- The loop over the targets, and its fallback to the last one.
  pub pick_target : Num → Num → MoveLeftTarget R → List (MoveLeftTarget R) → Direction
  pick_target roll cumulative t [] = left t.to_step_id
  pick_target roll cumulative t (u ∷ us) =
      let later = pick_target roll (plus cumulative t.weight) u us in
      if less_eq roll (plus cumulative t.weight) then left t.to_step_id else later

  pub roll_target : List (MoveLeftTarget R) → Rng → Direction × Rng
  unfolding pick_target
  roll_target [] rng = (forward, rng)
  roll_target (t ∷ ts) rng =
      let total = total_weight no_time (t ∷ ts) in
      let (drawn, rng') = random rng in
      if less_eq total no_time
      then (forward, rng)
      else (pick_target (times drawn total) no_time t ts, rng')

  unfoldable pub roll_direction :
      String → WorkflowStep → List (MoveLeftConfig R) → Rng → Direction × Rng
  unfolding matching roll_target
  roll_direction kind step configs rng = elim (matching kind step none none configs) [
    | none ↦ (forward, rng)
    | some config ↦
        let (drawn, rng') = random rng in
        if less_eq config.base_probability drawn
        then (forward, rng')
        else roll_target config.targets rng'
  ]
