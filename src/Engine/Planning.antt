-- ===== src/Engine/Planning.antt =====
-- backend/app/engine/sprint_lifecycle.py: the planning of a sprint and its dates. A `datetime` is
-- its whole seconds; the carryover's dicts are issues of `Engine`.
pub mod Selection
use jira_simulator.Base.Perm
use jira_simulator.Base.{
  Perm, sort_by, ℕ, zero, suc, ◌+◌, ◌*◌, ◌-◌, ◌≤◌, ◌<◌, ◌≡◌, ◌⊎◌, Bool, true, false, ◌&&◌, ◌||◌,
  Option, none, some, List, [], ◌∷◌, ◌++◌, ltb, leb, ◌==◌, if◌then◌else◌, arith,
}
use jira_simulator.Base.Result.{Result, ok, raised, ◌>>=◌}
use jira_simulator.Engine.{Runtime, EngineFault, value_error, Issue}

pub record BacklogItem : Type 0 where
  pub id : ℕ
  pub story_points : Option ℕ
  pub backlog_priority : Option ℕ

-- `issue.get("story_points") or 0`
abbrev pub points : BacklogItem → ℕ
points i = elim i.story_points [ none ↦ 0 | some n ↦ n ]

-- `i.get("backlog_priority") or 999`
abbrev pub priority : BacklogItem → ℕ
priority i = elim i.backlog_priority [ none ↦ 999 | some n ↦ if n == 0 then 999 else n ]

-- The key of the sort, compared as tuples are.
abbrev pub before : BacklogItem → BacklogItem → Bool
before i j = ltb (priority i) (priority j) || (priority i == priority j && leb i.id j.id)

-- The loop of `plan_sprint`
pub pull : ℕ → ℕ → ℕ → List BacklogItem → List BacklogItem
pull capacity_min target total [] = []
pull capacity_min target total (i ∷ is) =
    let rest = pull capacity_min target (total + points i) is in
    if ltb target (total + points i) && leb capacity_min total then [] else i ∷ rest

module _ (R : Runtime) where
  -- `rng.randint`, which wants an ordered range
  abbrev pub draw_target : ℕ → ℕ → R.Rng → Result EngineFault (ℕ × R.Rng)
  draw_target low high rng =
      if ltb high low then raised (value_error "empty range") else ok (R.randint low high rng)

  pub ordered : List BacklogItem → Bool → R.Rng → List BacklogItem × R.Rng
  ordered backlog true rng = R.shuffle backlog rng
  ordered backlog false rng = (sort_by before backlog, rng)

  -- The items that are selected and the target.
  unfoldable pub plan_sprint :
      List BacklogItem → ℕ → ℕ → Bool → R.Rng → Result EngineFault (List BacklogItem × ℕ × R.Rng)
  unfolding pull ordered
  plan_sprint [] capacity_min capacity_max randomized rng =
      let (target, rng') = R.randint capacity_min capacity_max rng in
      ok (if leb capacity_min capacity_max then ([], target, rng') else ([], capacity_min, rng))
  plan_sprint (i ∷ is) capacity_min capacity_max randomized rng = do
    let (in_order, rng') = ordered (i ∷ is) randomized rng
    drawn ← draw_target capacity_min capacity_max rng'
    ok (pull capacity_min drawn.0 0 in_order, drawn.0, drawn.1)

  -- `remaining * 1.25` over what has elapsed, when something remains
  abbrev stretch : R.Num → R.Num → R.Num
  stretch sampled elapsed =
      let remaining = R.minus sampled elapsed in
      if R.less R.zero remaining
      then R.plus elapsed (R.times remaining R.one_and_quarter)
      else sampled

  -- The issue and its `carried_over` flag
  abbrev carry : Issue R → Issue R × Bool
  carry i = (
    record i {
      sampled_work_time = stretch i.sampled_work_time i.elapsed_work_time;
      sampled_full_time = stretch i.sampled_full_time i.elapsed_full_time;
      work_started = false;
      current_worker_id = none;
    },
    true,
  )

  abbrev pub handle_carryover : List (Issue R) → List (Issue R × Bool)
  handle_carryover [] = []
  handle_carryover (i ∷ is) = carry i ∷ handle_carryover is

abbrev day_seconds : ℕ
day_seconds = 86400

-- `elapsed_days >= sprint_length_days`, where a negative span is less than any length
unfoldable pub check_sprint_end : ℕ → ℕ → ℕ → Bool
check_sprint_end sprint_start sprint_length_days sim_now =
    if ltb sim_now sprint_start
    then false
    else leb (sprint_length_days * day_seconds) (sim_now - sprint_start)

unfoldable pub create_next_sprint_dates : ℕ → ℕ → ℕ × ℕ
create_next_sprint_dates prev_end_date sprint_length_days =
    (prev_end_date, prev_end_date + sprint_length_days * day_seconds)

abbrev pub load : List BacklogItem → ℕ
load [] = 0
load (i ∷ is) = points i + load is

-- A selection out of the backlog: a prefix of an order of it, each item of which fitted the target
-- or came while the load was below the minimum, and after which the next item did neither.
pub record IsPlan (backlog : List BacklogItem) (capacity_min target : ℕ)
    (selected : List BacklogItem) : Type 0 where
  pub rest : List BacklogItem
  pub of_backlog : Perm (selected ++ rest) backlog
  pub fits :
      (earlier later : List BacklogItem) (i : BacklogItem)
      → earlier ++ (i ∷ later) ≡ selected
      → (load earlier + points i ≤ target) ⊎ (load earlier < capacity_min)
  pub stops :
      (i : BacklogItem) (is : List BacklogItem)
      → rest ≡ i ∷ is
      → (target < load selected + points i) × (capacity_min ≤ load selected)
