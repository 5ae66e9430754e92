-- ===== src/Engine/Tests.antt =====
-- Runs of the engine over whole numbers, and the theorems at such inputs.
use jira_simulator.Base.Perm
use jira_simulator.Base.{
  ℕ, ◌+◌, ◌*◌, ◌-◌, ◌≤◌, ◌≡◌, refl, true, false, none, some, List, [], ◌∷◌, ltb, leb, ◌==◌, arith,
  Memᴰ,
}
use jira_simulator.Base.Result.{ok, raised}
use jira_simulator.Engine.{Runtime, value_error, WorkflowStep, Issue, MoveLeftConfig, not_completed}
use jira_simulator.Engine.Members.{
  MemberTickState, build_member_states, find_available_member, mark_busy, release_assignment,
}
use jira_simulator.Engine.Members.Free.{IsChoice, find_available_member-IsChoice}
use jira_simulator.Engine.Distributions.{
  fit_lognormal, sample_full_time, sample_work_time, sample_sprint_capacity,
}
use jira_simulator.Engine.Entry.{TouchTimes}
use jira_simulator.Engine.Workflow.{ItemTickResult, process_item_tick}
use jira_simulator.Engine.Workflow.Completed.{StandsAtEnd, process_item_tick-completed}
use jira_simulator.Engine.Moves.{left, roll_direction}
use jira_simulator.Engine.Moves.Targets.{applies, IsTarget, roll_direction-IsTarget}
use jira_simulator.Engine.Planning.{
  BacklogItem, plan_sprint, IsPlan, check_sprint_end, create_next_sprint_dates,
}
use jira_simulator.Engine.Planning.Selection.{plan_sprint-IsPlan, check_sprint_end-dates}

abbrev lowest : ℕ → ℕ → ℕ → ℕ × ℕ
lowest low high g = (low, g)

-- A generator that draws the least of each range.
abbrev whole_numbers : Runtime
whole_numbers = record {
  Num = ℕ;
  zero = 0;
  two = 2;
  one_and_quarter = 2;
  min_full_time = 1;
  z_25 = 1;
  z_99 = 2;
  less = ltb;
  less_eq = leb;
  same = λ x y. x == y;
  plus = λ x y. x + y;
  minus = λ x y. x - y;
  times = λ x y. x * y;
  over = λ x y. x;
  log = λ x. x;
  exp = λ x. x;
  Rng = ℕ;
  random = λ g. (0, g);
  gauss = λ g. (0, g);
  uniform = λ low high g. (low, g);
  randint = lowest;
  choice = λ n g. (0, g);
  shuffle = λ xs g. (xs, g);
  randint_range = λ low high g h. (omega arith, h);
  shuffle-perm = λ xs g. Perm.rfl;
  choice_range = λ n g h. h;
}

abbrev to_do : WorkflowStep
to_do = record { id = 1; order = 1; jira_status = "To Do"; roles = "dev" ∷ [] }

abbrev finished : WorkflowStep
finished = record { id = 2; order = 2; jira_status = "Done"; roles = [] }

abbrev steps : List WorkflowStep
steps = to_do ∷ finished ∷ []

abbrev touch_times : TouchTimes whole_numbers
touch_times = []

abbrev member : MemberTickState
member = record { member_id = 7; role = "dev"; busy_this_tick = false; assigned_issue_id = none }

abbrev story : Issue whole_numbers
story = record {
  id = 3;
  issue_type = "Story";
  story_points = some 3;
  jira_issue_key = some "AB-3";
  status = "To Do";
  current_workflow_step_id = some 1;
  current_worker_id = none;
  sampled_full_time = 2;
  sampled_work_time = 2;
  elapsed_full_time = 0;
  elapsed_work_time = 0;
  work_started = false;
  completed_at = not_completed;
}

abbrev moved : ItemTickResult whole_numbers
moved = record {
  issue = record story {
    status = "Done";
    current_workflow_step_id = some 2;
    sampled_full_time = 0;
    sampled_work_time = 0;
  };
  jira_actions =
      record {
        operation_type = "TRANSITION_ISSUE";
        issue_key = some "AB-3";
        target_status = "Done";
        issue_id = 3;
      }
      ∷ [];
  member_states = record member { busy_this_tick = true } ∷ [];
  completed = true;
  rng = 0;
}

last_tick : process_item_tick whole_numbers story steps touch_times [] (member ∷ []) 2 0 ≡ ok moved
unfolding process_item_tick mark_busy release_assignment find_available_member
last_tick = refl

states_built :
    build_member_states (record { id = 7; role = "dev"; assigned_issue_id = none } ∷ [])
    ≡ member ∷ []
unfolding build_member_states
states_built = refl

capacity_refused :
    sample_sprint_capacity whole_numbers 9 3 0 ≡ raised (value_error "Invalid capacity range")
unfolding sample_sprint_capacity
capacity_refused = refl

negative_refused :
    sample_full_time whole_numbers 0 1 2 0 ≡ raised (value_error "All percentiles must be positive")
unfolding sample_full_time fit_lognormal
negative_refused = refl

no_work : sample_work_time whole_numbers 0 0 5 ≡ ok (0, 5)
unfolding sample_work_time
no_work = refl

member_found : (find_available_member whole_numbers (member ∷ []) ("dev" ∷ []) 3 0).0 ≡ some member
unfolding find_available_member
member_found = refl

find_available_member-IsChoice_example :
    IsChoice
      (member ∷ [])
      ("dev" ∷ [])
      3
      (find_available_member whole_numbers (member ∷ []) ("dev" ∷ []) 3 0).0
find_available_member-IsChoice_example =
    find_available_member-IsChoice whole_numbers (member ∷ []) ("dev" ∷ []) 3 0

process_item_tick-completed_example : StandsAtEnd whole_numbers steps (refl, (refl, tt)) (some 2)
process_item_tick-completed_example =
    process_item_tick-completed whole_numbers steps (refl, (refl, tt)) story touch_times []
      (member ∷ []) 2 0 moved last_tick refl

abbrev big : BacklogItem
big = record { id = 1; story_points = some 8; backlog_priority = some 1 }

abbrev small : BacklogItem
small = record { id = 2; story_points = some 3; backlog_priority = none }

plan_sprint-IsPlan_example :
    (selected : List BacklogItem) × (target : ℕ) × (rng' : ℕ) × (plan_sprint whole_numbers
        (small ∷ big ∷ [])
        5
        9
        false
        0
      ≡ ok (selected, target, rng'))
    × IsPlan (small ∷ big ∷ []) 5 target selected
    × (5 ≤ target)
    × (target ≤ 9)
plan_sprint-IsPlan_example =
    plan_sprint-IsPlan whole_numbers small (big ∷ []) 5 9 false 0 (omega arith)

big_first : plan_sprint whole_numbers (small ∷ big ∷ []) 5 9 false 0 ≡ ok (big ∷ [], 5, 0)
unfolding plan_sprint
big_first = refl

check_sprint_end-dates_example :
    check_sprint_end (create_next_sprint_dates 1000 10).0 10 864_999
    ≡ leb (create_next_sprint_dates 1000 10).1 864_999
check_sprint_end-dates_example = check_sprint_end-dates 1000 10 864_999

abbrev rework : MoveLeftConfig whole_numbers
rework = record {
  from_step_id = 2;
  issue_type = none;
  base_probability = 1;
  targets = record { to_step_id = 1; weight = 2 } ∷ [];
}

goes_back : (roll_direction whole_numbers "Story" finished (rework ∷ []) 0).0 ≡ left 1
unfolding roll_direction
goes_back = refl

roll_direction-IsTarget_example :
    (c : MoveLeftConfig whole_numbers) × Memᴰ c (rework ∷ [])
    × (applies whole_numbers "Story" finished c ≡ true)
    × (leb c.base_probability 0 ≡ false)
    × IsTarget whole_numbers 1 c.targets
roll_direction-IsTarget_example =
    roll_direction-IsTarget whole_numbers "Story" finished (rework ∷ []) 0 1 goes_back
