-- ===== src/State/Snapshots.antt =====
-- What a state that passes its checks is: one team, one active sprint, references that resolve, and
-- a sample for each visit.
use jira_simulator.Base.{
  ℕ, ◌≤◌, ◌≡◌, Bool, true, false, List, [], ◌∷◌, arith, &&-true, leb→le, length, All, All-map,
  All-zip, All-keep_if, keep_if, Pairwise, unique-Pairwise, single_value, All-map_inv,
  All-concat_inv,
}
use jira_simulator.Base.Result.{ok}
use jira_simulator.State.Checks.{Passes, check-All, All-check}
use jira_simulator.State.Names.{Runtime}
use jira_simulator.State.Sprints.{SprintState, is_sprint_active}
use jira_simulator.State.Collections.{
  ScrumState, team_ids, run_ids, team_lists, run_lists, same_run_sprint,
}
use jira_simulator.State.Validation.{
  validate_write_set, validate_snapshot, collection_groups, snapshot_groups, one_team_run_check,
}

-- Of elements that all coincide, and no two of which do, there is at most one.
at_most_one {ℓ} :
    {A : Type ℓ} (same : A → A → Bool) (xs : List A)
    → All (λ x. All (λ y. same x y ≡ true) xs) xs
    → Pairwise (λ x y. same x y ≡ false) xs
    → length xs ≤ 1
at_most_one same [] _ _ = omega arith
at_most_one same (x ∷ []) _ _ = omega arith
at_most_one same (x ∷ y ∷ ys) ((_, (hxy, _)), _) ((different, _), _) = cc

same_everywhere :
    (t r : ℕ) (xs : List SprintState)
    → All (λ a. (a.team_id ≡ t) × (a.run_id ≡ r)) xs
    → All (λ a. All (λ b. same_run_sprint a b ≡ true) xs) xs
same_everywhere t r xs h =
    All-map xs
      (λ a (team, run). All-map xs (λ b (team', run'). ground (arith, team, run, team', run')) h) h

-- The coordinates of the records of a state: one team and one run.
pub record IsOneTeam {R : Runtime} (s : ScrumState R) : Type 0 where
  pub team_id : ℕ
  pub run_id : ℕ
  pub teams : All (λ t. t ≡ team_id) (team_ids s)
  pub runs : All (λ t. t ≡ run_id) (run_ids s)

module _ {R : Runtime} where
  pub one_team : (s : ScrumState R) → Passes (one_team_run_check s) → IsOneTeam s
  one_team s h =
      let (teams, runs) = &&-true _ _ h in
      let (team, same_team) = single_value (team_ids s) (leb→le _ 1 teams) in
      let (run, same_run) = single_value (run_ids s) (leb→le _ 1 runs) in
      record { team_id = team; run_id = run; teams = same_team; runs = same_run }

  sprint_coordinates :
      (s : ScrumState R) (o : IsOneTeam s)
      → All (λ a. (a.team_id ≡ o.team_id) × (a.run_id ≡ o.run_id)) s.sprints
  sprint_coordinates s o =
      let (_, (_, (_, (_, (_, (teams, _)))))) = All-concat_inv _ (team_lists s) o.teams in
      let (_, (_, (_, (_, (runs, _))))) = All-concat_inv _ (run_lists s) o.runs in
      All-zip _ _ s.sprints (All-map_inv _ _ s.sprints teams) (All-map_inv _ _ s.sprints runs)

  pub collection_parts :
      (s : ScrumState R) → validate_write_set s ≡ ok tt → All (All Passes) (collection_groups s)
  unfolding validate_write_set
  collection_parts s h = All-concat_inv Passes (collection_groups s) (check-All _ h)

  pub snapshot_parts :
      (s : ScrumState R) → validate_snapshot s ≡ ok tt → All (All Passes) (snapshot_groups s)
  unfolding validate_snapshot
  snapshot_parts s h = All-concat_inv Passes (snapshot_groups s) (check-All _ h)

  -- A snapshot that passes has passed as a write set.
  pub snapshot-write_set :
      (s : ScrumState R) → validate_snapshot s ≡ ok tt → validate_write_set s ≡ ok tt
  unfolding validate_write_set
  snapshot-write_set s h = let (parts, _) = snapshot_parts s h in All-check _ parts

  -- A write set that passes its checks has at most one active sprint, and all its records name one
  -- team and one run.
  pub validate_write_set-one_active :
      (s : ScrumState R)
      → validate_write_set s ≡ ok tt
      → (length (keep_if (λ a. is_sprint_active a.lifecycle) s.sprints) ≤ 1) × IsOneTeam s
  validate_write_set-one_active s h =
      let (_, (_, ((apart, _), ((alone, _), _)))) = collection_parts s h in
      let o = one_team s alone in
      let running = keep_if (λ (a : SprintState). is_sprint_active a.lifecycle) s.sprints in
      let coordinates =
        All-keep_if (λ (a : SprintState). (a.team_id ≡ o.team_id) × (a.run_id ≡ o.run_id))
          (λ a. is_sprint_active a.lifecycle) s.sprints (sprint_coordinates s o) in
      (
        at_most_one same_run_sprint running (same_everywhere o.team_id o.run_id running coordinates)
            (unique-Pairwise same_run_sprint running apart),
        o,
      )
