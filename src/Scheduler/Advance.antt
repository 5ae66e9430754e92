-- ===== src/Scheduler/Advance.antt =====
-- One team's turn: ticks until it has caught up (`LiveScheduler._advance`), each with one retry of a
-- stale commit (`TeamTickService.advance`). The load, the calculation of a tick and its commit are
-- given; the world is the one after what raised, too.
use jira_simulator.Base.{ℕ, zero, suc, List, leb, if◌then◌else◌}
use jira_simulator.Base.Result.{Result, ok, raised}
use jira_simulator.State.Sprints.{SprintState}
use jira_simulator.Scheduler.{Fault, runtime_error, stale_runtime_version, out_of_fuel}
use jira_simulator.Scheduler.Boundaries.{caught_up}

-- What the scheduler reads of a `LiveTeamState`.
pub record TeamView : Type 0 where
  pub version : ℕ
  pub simulation_time : ℕ
  pub sprints : List SprintState

pub data CommitOutcome : Type 0 where
  committed stale : CommitOutcome
  failed : Fault → CommitOutcome

abbrev pub Outcome : Type 0
Outcome = Result Fault (Unit {0})

module _ {W Command : Type 0} (load : ℕ → W → Result Fault TeamView)
    (calculate : ℕ → ℕ → W → Result Fault Command) (commit : Command → W → W × CommitOutcome) where
  -- The second attempt raises what the commit raises.
  abbrev last_commit : W × CommitOutcome → W × Outcome
  last_commit (w, committed) = (w, ok tt)
  last_commit (w, stale) = (w, raised stale_runtime_version)
  last_commit (w, failed fault) = (w, raised fault)

  abbrev last_attempt : Result Fault Command → W → W × Outcome
  last_attempt (raised fault) w = (w, raised fault)
  last_attempt (ok command) w = last_commit (commit command w)

  abbrev first_commit : ℕ → ℕ → W × CommitOutcome → W × Outcome
  first_commit team_id as_of (w, committed) = (w, ok tt)
  first_commit team_id as_of (w, stale) = last_attempt (calculate team_id as_of w) w
  first_commit team_id as_of (w, failed fault) = (w, raised fault)

  abbrev first_attempt : ℕ → ℕ → Result Fault Command → W → W × Outcome
  first_attempt team_id as_of (raised fault) w = (w, raised fault)
  first_attempt team_id as_of (ok command) w = first_commit team_id as_of (commit command w)

  -- `TeamTickService.advance(TickRequest(team_id, as_of, as_of))`
  unfoldable pub tick : ℕ → ℕ → W → W × Outcome
  tick team_id as_of w = first_attempt team_id as_of (calculate team_id as_of w) w

  -- What a round of `_advance` does with what it has loaded; `again` is the next round.
  abbrev pub round :
      ℕ
      → Result Fault TeamView
      → W
      → W × Outcome
      → Result Fault TeamView
      → W × Outcome
      → W × Outcome
  round as_of (raised fault) w ticked after again = (w, raised fault)
  round as_of (ok before) w (w', raised fault) after again = (w', raised fault)
  round as_of (ok before) w (w', ok _) (raised fault) again = (w', raised fault)
  round as_of (ok before) w (w', ok _) (ok after) again =
      if leb after.version before.version
      then (w', raised (runtime_error "team tick did not advance the persisted runtime version"))
      else if caught_up after.simulation_time as_of after.sprints
      then (w', ok tt)
      else again

  -- `LiveScheduler._advance`, with fuel for its rounds
  unfoldable pub advance : ℕ → ℕ → ℕ → W → W × Outcome
  unfolding tick
  advance zero team_id as_of w = (w, raised out_of_fuel)
  advance (suc fuel) team_id as_of w =
      let ticked = tick team_id as_of w in
      let again = advance fuel team_id as_of ticked.0 in
      round as_of (load team_id w) w ticked (load team_id ticked.0) again
