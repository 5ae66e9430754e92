-- ===== src/Tick/Advance.antt =====
-- One segment of work: _advance_visit, _queue_cause and _advance_segment.
mod Cases
pub mod Accounts
pub mod Labor
use jira_simulator.Base.{
  ℕ, zero, ◌+◌, ◌-◌, min, Bool, true, false, not, ◌&&◌, ◌||◌, Option, none, some, List, [], ◌∷◌,
  ◌++◌, map, find, keep_if, contains, sort_by, ltb, leb, ◌==◌, if◌then◌else◌, str_eq,
}
use jira_simulator.Base.Result.{Result, ok, raised, ◌>>=◌}
use jira_simulator.Tick.Numbers.{Floats}
use jira_simulator.Tick.{
  Fault, key_error, stop_iteration, runtime_error, StatusVisitState, WorkItemState, LiveTeamState,
  Segment, microseconds, member_of, Consumption, consumed, consume,
}
use jira_simulator.Tick.Capacity.{Constraint, Capacity, segment_capacity}
use jira_simulator.Tick.Owners.{AssignedVisit, assign_owners}

pub record QueueCause : Type 0 where
  pub visit_id : ℕ
  pub reason : Constraint
  pub delta_microseconds : ℕ

-- _queue_cause
pub queue_cause : ℕ → Option Constraint → ℕ → Result Fault (Option QueueCause)
queue_cause visit_id reason delta = if delta == 0 then ok none else elim reason [
  | none ↦ raised (runtime_error "queued labor must have a limiting constraint")
  | some r ↦ ok (some (record { visit_id = visit_id; reason = r; delta_microseconds = delta }))
]

-- `next(item for item in items if ...)`
abbrev pub next {ℓ} : {A : Type ℓ} → Option A → Result Fault A
next none = raised stop_iteration
next (some a) = ok a

pub record Advanced : Type 0 where
  pub visit : StatusVisitState
  pub cause : Option QueueCause
  pub consumption : Consumption

abbrev pub paused : Segment → StatusVisitState → StatusVisitState
paused segment visit = record visit {
  pause_microseconds = visit.pause_microseconds + microseconds segment;
}

-- `segment.microseconds if visit.remaining_work_microseconds else 0`
abbrev pub waiting : Segment → StatusVisitState → ℕ
waiting segment visit = if visit.remaining_work_microseconds == 0 then 0 else microseconds segment

abbrev pub queued : ℕ → StatusVisitState → StatusVisitState
queued delta visit = record visit { queue_microseconds = visit.queue_microseconds + delta }

-- `0 if remaining == 0 else segment.microseconds - credited`
abbrev pub uncredited : Segment → StatusVisitState → ℕ → ℕ
uncredited segment visit credited =
    if visit.remaining_work_microseconds - credited == 0 then 0 else microseconds segment - credited

abbrev pub worked : Segment → ℕ → StatusVisitState → StatusVisitState
worked segment credited visit = record visit {
  elapsed_work_microseconds = visit.elapsed_work_microseconds + credited;
  remaining_work_microseconds = visit.remaining_work_microseconds - credited;
  queue_microseconds = visit.queue_microseconds + uncredited segment visit credited;
  credited_labor_microseconds = visit.credited_labor_microseconds + credited;
}

-- `work_by_id[visit.work_item_id].simulator_rank`, before the sort.
pub with_ranks :
    List WorkItemState
    → List StatusVisitState
    → Result Fault (List (WorkItemState × StatusVisitState))
with_ranks work [] = ok []
with_ranks work (v ∷ vs) = do
  item ← elim (find (λ w. w.id == v.work_item_id) work) [ none ↦ raised key_error | some w ↦ ok w ]
  rest ← with_ranks work vs
  ok ((item, v) ∷ rest)

-- `SimulatorRank.__lt__` or equality.
abbrev pub rank_le : WorkItemState × StatusVisitState → WorkItemState × StatusVisitState → Bool
rank_le (a, _) (b, _) =
    ltb a.priority_index b.priority_index
    || (a.priority_index == b.priority_index
        && (ltb a.relative_rank b.relative_rank
            || (a.relative_rank == b.relative_rank && leb a.id b.id)))

-- `_SegmentAdvance`, with the consumption that the loop leaves behind.
pub record SegmentAdvance : Type 0 where
  pub visits : List StatusVisitState
  pub queue_causes : List QueueCause
  pub consumption : Consumption

module _ (F : Floats) where
  -- The last part of `_advance_visit`, with the capacity of the member `id` in the segment.
  pub work_with : Segment → Consumption → StatusVisitState → ℕ → Capacity → Result Fault Advanced
  unfolding consumed consume queue_cause
  work_with segment consumption visit id capacity = do
    let credited = min capacity.labor visit.remaining_work_microseconds
    cause ←
        queue_cause visit.id (some capacity.limiting_constraint) (uncredited segment visit credited)
    ok (record {
      visit = worked segment credited visit;
      cause = cause;
      consumption =
          consume consumption id segment.business_date
            (consumed consumption id segment.business_date + credited);
    })

  pub work_visit :
      LiveTeamState F
      → Segment
      → Consumption
      → Consumption
      → StatusVisitState
      → ℕ
      → Result Fault Advanced
  unfolding segment_capacity work_with
  work_visit state segment starting consumption visit owner = do
    identity ← next (find (λ i. i.id == owner) state.member_identities)
    member ← member_of state identity
    work_with segment consumption visit identity.id
        (segment_capacity F state member identity.id segment starting consumption)

  -- The middle part: no owner, or no work left.
  pub wait_visit :
      Segment → Consumption → StatusVisitState → Option Constraint → Result Fault Advanced
  unfolding queue_cause
  wait_visit segment consumption visit denied = do
    cause ← queue_cause visit.id denied (waiting segment visit)
    ok (record {
      visit = queued (waiting segment visit) visit;
      cause = cause;
      consumption = consumption;
    })

  -- The rest of `_advance_visit`, by whether the status pauses the clock and by the owner.
  pub advance_owned :
      LiveTeamState F
      → Segment
      → Consumption
      → Consumption
      → StatusVisitState
      → Option Constraint
      → Bool
      → Option ℕ
      → Result Fault Advanced
  unfolding work_visit wait_visit
  advance_owned state segment starting consumption visit denied true owner =
      ok (record { visit = paused segment visit; cause = none; consumption = consumption })
  advance_owned state segment starting consumption visit denied false none =
      wait_visit segment consumption visit denied
  advance_owned state segment starting consumption visit denied false (some owner) =
      if visit.remaining_work_microseconds == 0
      then wait_visit segment consumption visit denied
      else work_visit state segment starting consumption visit owner

  unfoldable pub advance_visit :
      LiveTeamState F → Segment → Consumption → Consumption → AssignedVisit → Result Fault Advanced
  unfolding advance_owned
  advance_visit state segment starting consumption assignment = do
    let visit = assignment.visit
    status ← next (find (λ s. str_eq s.key visit.status_key) state.statuses)
    advance_owned state segment starting consumption visit assignment.denied_reason
        status.pauses_service_clock visit.member_id

  abbrev pub add_cause : Option QueueCause → List QueueCause → List QueueCause
  add_cause none causes = causes
  add_cause (some c) causes = c ∷ causes

  -- The loop of `_advance_segment` over the assignments.
  pub advance_all :
      LiveTeamState F
      → Segment
      → Consumption
      → Consumption
      → List AssignedVisit
      → Result Fault SegmentAdvance
  unfolding advance_visit
  advance_all state segment starting consumption [] =
      ok (record { visits = []; queue_causes = []; consumption = consumption })
  advance_all state segment starting consumption (a ∷ rest_of) = do
    one ← advance_visit state segment starting consumption a
    rest ← advance_all state segment starting one.consumption rest_of
    ok (record {
      visits = one.visit ∷ rest.visits;
      queue_causes = add_cause one.cause rest.queue_causes;
      consumption = rest.consumption;
    })

  unfoldable pub advance_segment :
      LiveTeamState F
      → List StatusVisitState
      → Consumption
      → Segment
      → List ℕ
      → Result Fault SegmentAdvance
  unfolding with_ranks assign_owners advance_all
  advance_segment state visits consumption segment blocked = do
    ranked ← with_ranks state.work_items (keep_if (λ v. not (contains blocked v.id)) visits)
    let ordered = map (λ (_, v). v) (sort_by rank_le ranked)
    assignments ← assign_owners F state ordered segment consumption
    rest ← advance_all state segment consumption consumption assignments
    ok (record rest { visits = keep_if (λ v. contains blocked v.id) visits ++ rest.visits })
