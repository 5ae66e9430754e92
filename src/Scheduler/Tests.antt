-- ===== src/Scheduler/Tests.antt =====
-- Runs over a few teams, and the theorems at such inputs.
use jira_simulator.Base.{ℕ, suc, ◌*◌, ◌≡◌, refl, Bool, some, List, [], ◌∷◌, leb, arith}
use jira_simulator.Base.Result.{Result, ok}
use jira_simulator.State.Tests.{first_sprint}
use jira_simulator.Scheduler.{
  TeamRuntime, SchedulerRunResult, Fault, due_team_ids, drain_due_pages, run_due,
}
use jira_simulator.Scheduler.Once.{IsKeyed, IsOnce, run_due-IsOnce}
use jira_simulator.Scheduler.Termination.{run_due-ends}
use jira_simulator.Scheduler.Boundaries.{
  next_boundary, caught_up, IsEarliest, next_boundary-IsEarliest,
}
use jira_simulator.Scheduler.Advance.{TeamView, CommitOutcome, tick, advance}

abbrev running : ℕ → ℕ → TeamRuntime
running team_id wake = record { team_id = team_id; state = "RUNNING"; next_wake_at = some wake }

abbrev teams : List TeamRuntime
teams =
    running 7 40
    ∷ running 3 50
    ∷ record { team_id = 5; state = "PAUSED"; next_wake_at = some 10 }
    ∷ running 9 90
    ∷ []

abbrev rows_of : List TeamRuntime → List TeamRuntime
rows_of w = w

-- Team 7 raises; the table is left as it is.
abbrev turn : ℕ → List TeamRuntime → List TeamRuntime × Bool
turn team_id w = (w, leb team_id 6)

abbrev three_and_seven : SchedulerRunResult
three_and_seven = record { attempted = 3 ∷ 7 ∷ []; succeeded = 3 ∷ []; failed = 7 ∷ [] }

ran : run_due rows_of turn 60 5 teams ≡ ok (teams, three_and_seven)
unfolding run_due drain_due_pages due_team_ids
ran = refl

teams_differ : IsKeyed teams
teams_differ = (
  (omega arith, (omega arith, (omega arith, tt))),
  ((omega arith, (omega arith, tt)), ((omega arith, tt), (tt, tt))),
)

run_due-IsOnce_example : IsOnce rows_of turn teams (teams, three_and_seven)
run_due-IsOnce_example =
    run_due-IsOnce rows_of turn (λ t w h. h) 60 5 teams (teams, three_and_seven) teams_differ ran

run_due-ends_example :
    (end_ : List TeamRuntime × SchedulerRunResult) × (run_due rows_of turn 60 5 teams ≡ ok end_)
run_due-ends_example = run_due-ends rows_of turn (λ t w. refl) 60 5 teams (omega arith)

next_found : next_boundary 40 200 (first_sprint ∷ []) ≡ some 100
unfolding next_boundary
next_found = refl

next_boundary-IsEarliest_example :
    IsEarliest 40 200 (first_sprint ∷ []) (next_boundary 40 200 (first_sprint ∷ []))
next_boundary-IsEarliest_example = next_boundary-IsEarliest 40 200 (first_sprint ∷ [])

-- A team whose world is its version, ten units of time each.
abbrev load : ℕ → ℕ → Result Fault TeamView
load team_id w = ok record { version = w; simulation_time = w * 10; sprints = [] }

abbrev calculate : ℕ → ℕ → ℕ → Result Fault ℕ
calculate team_id as_of w = ok w

abbrev commit : ℕ → ℕ → ℕ × CommitOutcome
commit command w = (suc w, CommitOutcome.committed)

two_ticks : advance load calculate commit 5 1 20 0 ≡ (2, ok tt)
unfolding advance tick caught_up next_boundary
two_ticks = refl
