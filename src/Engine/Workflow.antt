-- ===== src/Engine/Workflow.antt =====
-- backend/app/engine/workflow_engine.py: the tick of one work item. An issue is mutated in place
-- there; here each function returns it, with the generator's new state.
mod Steps
pub mod Completed
use jira_simulator.Base.{
  ℕ, zero, Bool, true, false, not, ◌&&◌, ◌||◌, Option, none, some, List, [], if◌then◌else◌,
}
use jira_simulator.Base.Result.{Result, ok, ◌>>=◌}
use jira_simulator.Engine.{
  Runtime, EngineFault, JiraWriteAction, marked, WorkflowStep, Issue, MoveLeftConfig,
}
use jira_simulator.Engine.Members.{
  MemberTickState, state_of, find_available_member, mark_busy, release_assignment,
}
use jira_simulator.Engine.Route.{find_step_by_id, next_step, is_final_step}
use jira_simulator.Engine.Entry.{TouchTimes, get_touch_time_config, enter_status}
use jira_simulator.Engine.Moves.{Direction, forward, left, roll_direction}

module _ (R : Runtime) where
  open R use {Num, zero as no_time, less, less_eq, same, plus, times, Rng, random}

  abbrev pub check_transition_ready : Issue R → Bool
  check_transition_ready issue =
      (same issue.sampled_work_time no_time
        || less_eq issue.sampled_work_time issue.elapsed_work_time)
      && less_eq issue.sampled_full_time issue.elapsed_full_time

  -- `ItemTickResult`, with the issue and the generator.
  pub record ItemTickResult : Type 0 where
    pub issue : Issue R
    pub jira_actions : List JiraWriteAction
    pub member_states : List MemberTickState
    pub completed : Bool
    pub rng : Rng

  -- The variables of `process_item_tick` between its steps.
  pub record Working : Type 0 where
    pub issue : Issue R
    pub states : List MemberTickState
    pub rng : Rng

  pub take_worker : Working → Option MemberTickState → Rng → Result EngineFault Working
  unfolding mark_busy
  take_worker w none rng = ok (record w { rng = rng })
  take_worker w (some worker) rng = do
    states ← mark_busy w.states worker.member_id w.issue.id
    ok (record {
      issue = record w.issue { work_started = true; current_worker_id = some worker.member_id };
      states = states;
      rng = rng;
    })

  -- Step 1
  pub assign_worker : WorkflowStep → Working → Result EngineFault Working
  unfolding take_worker find_available_member
  assign_worker step w =
      let (found, rng) = find_available_member R w.states step.roles w.issue.id w.rng in
      let taken = take_worker w found rng in
      if less no_time w.issue.sampled_work_time && not w.issue.work_started then taken else ok w

  abbrev pub work : Num → Issue R → Issue R
  work hours issue = record issue { elapsed_work_time = plus issue.elapsed_work_time hours }

  pub keep_busy : Working → ℕ → Result EngineFault Working
  unfolding mark_busy
  keep_busy w worker = do
    s ← state_of w.states worker
    let marked_states = mark_busy w.states worker w.issue.id
    states ← if s.busy_this_tick then ok w.states else marked_states
    ok (record w { states = states })

  pub advance_as : Num → Working → Bool → Option ℕ → Result EngineFault Working
  unfolding keep_busy
  advance_as hours w started none = ok w
  advance_as hours w false (some worker) = ok w
  advance_as hours w true (some worker) = keep_busy (record w { issue = work hours w.issue }) worker

  -- Step 2
  pub advance_work : Num → Working → Result EngineFault Working
  unfolding advance_as
  advance_work hours w = advance_as hours w w.issue.work_started w.issue.current_worker_id

  -- Step 3
  abbrev pub advance_full : Num → Working → Working
  advance_full hours w = record w {
    issue = record w.issue { elapsed_full_time = plus w.issue.elapsed_full_time hours };
  }

  abbrev pub unready : Working → ItemTickResult
  unready w = record {
    issue = w.issue;
    jira_actions = [];
    member_states = w.states;
    completed = false;
    rng = w.rng;
  }

  abbrev pub points_of : Issue R → ℕ
  points_of issue = elim issue.story_points [ none ↦ 0 | some n ↦ n ]

  -- `enter_status` in a result, with the completion flag that goes with it.
  pub enter : TouchTimes R → WorkflowStep → Bool → Working → Result EngineFault ItemTickResult
  unfolding enter_status
  enter configs step completed w = do
    let config = get_touch_time_config R configs step.id w.issue.issue_type (points_of w.issue)
    entered ← enter_status R w.issue step config w.rng
    ok (record {
      issue = entered.0;
      jira_actions = entered.1;
      member_states = w.states;
      completed = completed;
      rng = entered.2;
    })

  abbrev pub finish : Working → ItemTickResult
  finish w = record {
    issue = record w.issue { completed_at = marked };
    jira_actions = [];
    member_states = w.states;
    completed = true;
    rng = w.rng;
  }

  pub move_forward :
      List WorkflowStep
      → TouchTimes R
      → WorkflowStep
      → Working
      → Option WorkflowStep
      → Result EngineFault ItemTickResult
  unfolding enter is_final_step
  move_forward steps configs current w none = ok (finish w)
  move_forward steps configs current w (some next) =
      let entered = enter configs next (is_final_step steps next) w in
      if is_final_step steps current then ok (finish w) else entered

  pub move_left : TouchTimes R → Working → Option WorkflowStep → Result EngineFault ItemTickResult
  unfolding enter
  move_left configs w none = ok (unready w)
  move_left configs w (some target) = enter configs target false w

  -- Step 6, before it the release of the worker
  pub execute :
      List WorkflowStep
      → TouchTimes R
      → WorkflowStep
      → Working
      → Direction
      → Result EngineFault ItemTickResult
  unfolding move_forward move_left next_step
  execute steps configs current w forward =
      move_forward steps configs current w (next_step steps current.order)
  execute steps configs current w (left target) =
      move_left configs w (find_step_by_id steps (some target))

  pub release_as : Working → Option ℕ → Result EngineFault Working
  unfolding release_assignment
  release_as w none = ok w
  release_as w (some worker) = do
    states ← release_assignment w.states worker
    ok (record w { states = states })

  pub release : Working → Result EngineFault Working
  unfolding release_as
  release w = release_as w w.issue.current_worker_id

  -- Steps 4 to 7
  pub conclude :
      List WorkflowStep
      → TouchTimes R
      → List (MoveLeftConfig R)
      → WorkflowStep
      → Working
      → Result EngineFault ItemTickResult
  unfolding roll_direction release execute
  conclude steps configs moves current w =
      let (direction, rng) = roll_direction R w.issue.issue_type current moves w.rng in
      let moved =
        release (record w { rng = rng }) >>= λ w'. execute steps configs current w' direction in
      if check_transition_ready w.issue then moved else ok (unready w)

  pub tick_step :
      List WorkflowStep
      → TouchTimes R
      → List (MoveLeftConfig R)
      → Num
      → Working
      → Option WorkflowStep
      → Result EngineFault ItemTickResult
  unfolding assign_worker advance_work conclude
  tick_step steps configs moves hours w none = ok (unready w)
  tick_step steps configs moves hours w (some current) = do
    assigned ← assign_worker current w
    worked ← advance_work hours assigned
    conclude steps configs moves current (advance_full hours worked)

  unfoldable pub process_item_tick :
      Issue R
      → List WorkflowStep
      → TouchTimes R
      → List (MoveLeftConfig R)
      → List MemberTickState
      → Num
      → Rng
      → Result EngineFault ItemTickResult
  unfolding tick_step
  process_item_tick issue steps configs moves states hours rng =
      tick_step steps configs moves hours (record { issue = issue; states = states; rng = rng })
        (find_step_by_id steps issue.current_workflow_step_id)
