-- ===== src/Lifecycle/Tests.antt =====
-- A rollover and an activation of a small team, and the theorems at such inputs.
use jira_simulator.Base.{◌*◌, ◌≡◌, refl, some, List, [], ◌∷◌, map, is_canonical_text, is_lower_hex}
use jira_simulator.Base.Result.{Result, ok, raised}
use jira_simulator.State.Work.{WorkItemState, WorkItemLifecycle}
use jira_simulator.State.Sprints.{SprintLifecycle}
use jira_simulator.State.Tests.{
  small_runtime, small_state, first_sprint, first_visit, first_sample, item, item_id,
}
use jira_simulator.State.Samples.{hours_to_microseconds, round_half_even}
use jira_simulator.Lifecycle.{LiveTeamState, Services, Fault}
use jira_simulator.Lifecycle.Scope.{select_backlog}
use jira_simulator.Lifecycle.Boundary.{
  planned_scope, successor, roll_active_sprint, cross_sprint_boundary, empty_transition,
}
use jira_simulator.Lifecycle.Selection.{IsSelection, select_backlog-IsSelection}
use jira_simulator.Lifecycle.Intents.{SprintTransition}
use jira_simulator.Lifecycle.Rollover.{IsRollover, roll_active_sprint-IsRollover}
use jira_simulator.Lifecycle.Crossing.{IsCrossing, cross_sprint_boundary-IsCrossing}

abbrev services : Services small_runtime
services = record {
  cadence_boundary = λ n. ok (n * 100);
  capacity_draw = λ sprint span. 0;
  activate_item = λ instant w. ok (
    item w.creation_sequence WorkItemLifecycle.active w.story_points "doing",
    some (first_visit w.creation_sequence, first_sample w.creation_sequence),
  );
  hex_prefix = λ n. "0123456789ab";
}

abbrev team : LiveTeamState small_runtime
team = record {
  team_id = 1;
  run_id = 2;
  version = 4;
  capacity_min_points = 5;
  capacity_max_points = 8;
  project_key = "DEMO";
  carryover_policy_version = "1";
  scrum = small_state;
}

-- The transition, where the boundary gives one.
abbrev or_empty : Result Fault (SprintTransition small_runtime) → SprintTransition small_runtime
or_empty (ok t) = t
or_empty (raised fault) = empty_transition

abbrev rolled : SprintTransition small_runtime
rolled = or_empty (roll_active_sprint services team first_sprint 100)

rolls : roll_active_sprint services team first_sprint 100 ≡ ok rolled
unfolding roll_active_sprint planned_scope successor is_canonical_text is_lower_hex
    hours_to_microseconds round_half_even
rolls = refl

crosses : cross_sprint_boundary services team 100 ≡ ok rolled
unfolding cross_sprint_boundary roll_active_sprint planned_scope successor is_canonical_text
    is_lower_hex hours_to_microseconds round_half_even
crosses = refl

rolled_lifecycles :
    map (λ s. s.lifecycle) rolled.state.sprints
    ≡ SprintLifecycle.completed ∷ SprintLifecycle.active ∷ []
unfolding roll_active_sprint planned_scope successor is_canonical_text is_lower_hex
    hours_to_microseconds round_half_even
rolled_lifecycles = refl

-- The old entry of the carried item, then its new one and that of the selected item.
rolled_scope :
    map (λ e. e.work_item_id) rolled.state.sprint_scope ≡ item_id 0 ∷ item_id 0 ∷ item_id 1 ∷ []
unfolding roll_active_sprint planned_scope successor is_canonical_text is_lower_hex
    hours_to_microseconds round_half_even
rolled_scope = refl

no_boundary : cross_sprint_boundary services team 99 ≡ ok empty_transition
unfolding cross_sprint_boundary
no_boundary = refl

roll_active_sprint-IsRollover_example : IsRollover team first_sprint 100 rolled
roll_active_sprint-IsRollover_example =
    roll_active_sprint-IsRollover services team first_sprint 100 rolled rolls

cross_sprint_boundary-IsCrossing_example : IsCrossing services team 100 rolled
cross_sprint_boundary-IsCrossing_example =
    cross_sprint_boundary-IsCrossing services team 100 rolled crosses

abbrev two_waiting : List WorkItemState
two_waiting =
    item 1 WorkItemLifecycle.backlog 2 "todo" ∷ item 2 WorkItemLifecycle.backlog 8 "todo" ∷ []

select_backlog-IsSelection_example :
    IsSelection 5 6 3 two_waiting (select_backlog 5 6 two_waiting 3)
select_backlog-IsSelection_example = select_backlog-IsSelection 5 6 two_waiting 3
