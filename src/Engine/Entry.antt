-- ===== src/Engine/Entry.antt =====
-- The entry of an item into a status: get_touch_time_config and enter_status of
-- backend/app/engine/workflow_engine.py.
use jira_simulator.Base.{
  ℕ, String, Bool, false, not, ◌&&◌, Option, none, some, List, [], ◌∷◌, ◌==◌, if◌then◌else◌, str_eq,
}
use jira_simulator.Base.Result.{Result, ok, ◌>>=◌}
use jira_simulator.Engine.{
  Runtime, EngineFault, JiraWriteAction, WorkflowStep, Issue, TouchTimeConfig,
}
use jira_simulator.Engine.Distributions.{sample_full_time, sample_work_time}

module _ (R : Runtime) where
  open R use {Num, zero as no_time, same, Rng}

  -- The dict of configurations by step, issue type and story points.
  abbrev pub TouchTimes : Type 0
  TouchTimes = List (ℕ × String × ℕ × TouchTimeConfig R)

  abbrev pub touch_time : TouchTimes → ℕ → String → ℕ → Option (TouchTimeConfig R)
  touch_time [] step kind points = none
  touch_time ((s, k, p, c) ∷ rest) step kind points =
      let later = touch_time rest step kind points in
      if s == step && (str_eq k kind && p == points) then some c else later

  abbrev pub get_touch_time_config : TouchTimes → ℕ → String → ℕ → Option (TouchTimeConfig R)
  get_touch_time_config configs step kind points = elim (touch_time configs step kind points) [
    | some c ↦ some c
    | none ↦ touch_time configs step kind 0
  ]

  -- A float that is there and is not zero.
  abbrev given : Option Num → Bool
  given none = false
  given (some x) = not (same x no_time)

  full_time_of : TouchTimeConfig R → Rng → Result EngineFault (Num × Rng)
  unfolding sample_full_time
  full_time_of c rng = elim c.full_time_p25 [
    | none ↦ ok (no_time, rng)
    | some p25 ↦ elim c.full_time_p50 [
      | none ↦ ok (no_time, rng)
      | some p50 ↦ elim c.full_time_p99 [
        | none ↦ ok (no_time, rng)
        | some p99 ↦
            if given (some p25) && (given (some p50) && given (some p99))
            then sample_full_time R p25 p50 p99 rng
            else ok (no_time, rng)
      ]
    ]
  ]

  -- The two samples of `enter_status`.
  pub sample_times : Option (TouchTimeConfig R) → Rng → Result EngineFault (Num × Num × Rng)
  unfolding full_time_of sample_work_time
  sample_times none rng = ok (no_time, no_time, rng)
  sample_times (some c) rng = do
    full ← full_time_of c rng
    work ← sample_work_time R c.min_hours c.max_hours full.1
    ok (full.0, work.0, work.1)

  abbrev pub transition_action : Issue R → WorkflowStep → JiraWriteAction
  transition_action issue step = record {
    operation_type = "TRANSITION_ISSUE";
    issue_key = issue.jira_issue_key;
    target_status = step.jira_status;
    issue_id = issue.id;
  }

  unfoldable pub enter_status :
      Issue R
      → WorkflowStep
      → Option (TouchTimeConfig R)
      → Rng
      → Result EngineFault (Issue R × List JiraWriteAction × Rng)
  unfolding sample_times
  enter_status issue step config rng = do
    times ← sample_times config rng
    ok (
      record issue {
        current_workflow_step_id = some step.id;
        status = step.jira_status;
        sampled_full_time = times.0;
        sampled_work_time = times.1;
        elapsed_full_time = no_time;
        elapsed_work_time = no_time;
        work_started = false;
        current_worker_id = none;
      },
      transition_action issue step ∷ [],
      times.2,
    )
