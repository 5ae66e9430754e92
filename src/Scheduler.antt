-- ===== src/Scheduler.antt =====
-- backend/app/v2/application/live_scheduler.py, team_tick.py and
-- backend/app/v2/persistence/due_team_store.py: the search for due teams and the sequential run over
-- them. The persisted world is a state that each operation is given and gives back; the order of
-- UUIDs is that of their texts.
pub mod Boundaries
pub mod Advance
pub mod Once
pub mod Termination
mod Tests
use jira_simulator.Base.{
  ℕ, zero, suc, ◌+◌, String, str_eq, Bool, true, false, ◌&&◌, Option, none, some, List, [], ◌∷◌,
  ◌++◌, map, keep_if, sort_by, take, ltb, leb, if◌then◌else◌,
}
use jira_simulator.Base.Result.{Result, ok, raised}

-- A row of the team runtimes.
pub record TeamRuntime : Type 0 where
  pub team_id : ℕ
  pub state : String
  pub next_wake_at : Option ℕ

pub data Fault : Type 0 where
  value_error : String → Fault
  runtime_error : String → Fault
  stale_runtime_version : Fault
  other_error : Fault
  out_of_fuel : Fault

abbrev wakes_by : ℕ → Option ℕ → Bool
wakes_by instant none = false
wakes_by instant (some t) = leb t instant

abbrev pub after_cursor : Option ℕ → ℕ → Bool
after_cursor none team_id = true
after_cursor (some cursor) team_id = ltb cursor team_id

abbrev is_running : TeamRuntime → Bool
is_running r = str_eq r.state "RUNNING"

-- The `where` clauses of `due_team_ids`.
abbrev pub is_due : ℕ → Option ℕ → TeamRuntime → Bool
is_due as_of cursor r =
    is_running r && (wakes_by as_of r.next_wake_at && after_cursor cursor r.team_id)

abbrev pub due_rows : List TeamRuntime → ℕ → Option ℕ → List ℕ
due_rows rows as_of cursor = sort_by leb (map (λ r. r.team_id) (keep_if (is_due as_of cursor) rows))

-- `due_team_ids(as_of, limit, after_team_id)`
unfoldable pub due_team_ids : List TeamRuntime → ℕ → ℕ → Option ℕ → Result Fault (List ℕ)
due_team_ids rows as_of limit cursor =
    if leb 1 limit && leb limit 100
    then ok (take limit (due_rows rows as_of cursor))
    else raised (value_error "limit must be between 1 and 100")

-- `running_team_ids`
pub running_team_ids : List TeamRuntime → List ℕ
running_team_ids rows = sort_by leb (map (λ r. r.team_id) (keep_if is_running rows))

pub record SchedulerRunResult : Type 0 where
  pub attempted : List ℕ
  pub succeeded : List ℕ
  pub failed : List ℕ

abbrev pub default_limit : ℕ
default_limit = 100

-- `team_ids[-1]` of a page that is not empty
abbrev pub last_of : ℕ → List ℕ → ℕ
last_of first [] = first
last_of first (x ∷ xs) = last_of x xs

abbrev pub nothing_run : SchedulerRunResult
nothing_run = record { attempted = []; succeeded = []; failed = [] }

-- `attempted.extend(page.attempted)`, and so for the others
abbrev pub extend : SchedulerRunResult → SchedulerRunResult → SchedulerRunResult
extend before page = record {
  attempted = before.attempted ++ page.attempted;
  succeeded = before.succeeded ++ page.succeeded;
  failed = before.failed ++ page.failed;
}

abbrev note_team : ℕ → Bool → SchedulerRunResult → SchedulerRunResult
note_team team_id true later = record {
  attempted = later.attempted;
  succeeded = team_id ∷ later.succeeded;
  failed = later.failed;
}
note_team team_id false later = record {
  attempted = later.attempted;
  succeeded = later.succeeded;
  failed = team_id ∷ later.failed;
}

module _ {W : Type 0} (rows_of : W → List TeamRuntime) (operation : ℕ → W → W × Bool) where
  -- The loop of `_run`: the world after it, and who succeeded or raised.
  abbrev pub run_each : List ℕ → W → W × SchedulerRunResult
  run_each [] w = (w, nothing_run)
  run_each (t ∷ rest) w =
      let step = operation t w in
      let later = run_each rest step.0 in (later.0, note_team t step.1 later.1)

  -- `_run`
  abbrev pub run_page : List ℕ → W → W × SchedulerRunResult
  run_page team_ids w =
      let done = run_each team_ids w in
      (
        done.0,
        record { attempted = team_ids; succeeded = done.1.succeeded; failed = done.1.failed },
      )

  module _ (as_of : ℕ) where
    -- `_drain_due_pages`, with fuel for its rounds
    unfoldable pub drain_due_pages :
        ℕ → W → Option ℕ → SchedulerRunResult → Result Fault (W × SchedulerRunResult)
    drain_due_pages zero w cursor result = raised out_of_fuel
    drain_due_pages (suc fuel) w cursor result =
        elim (due_team_ids (rows_of w) as_of default_limit cursor) [
          | raised fault ↦ raised fault
          | ok [] ↦ ok (w, result)
          | ok (first ∷ rest) ↦
              let page = run_page (first ∷ rest) w in
              drain_due_pages fuel page.0 (some (last_of first rest)) (extend result page.1)
        ]

    -- `run_due`
    unfoldable pub run_due : ℕ → W → Result Fault (W × SchedulerRunResult)
    run_due fuel w = drain_due_pages fuel w none nothing_run

  -- The run of `resume_after_restart` over the running teams
  abbrev pub resume_after_restart : W → W × SchedulerRunResult
  resume_after_restart w = run_page (running_team_ids (rows_of w)) w
