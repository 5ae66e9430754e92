-- ===== src/Tick/Advance/Accounts.antt =====
-- The accounts of a visit over a segment: its labor, its time and its queue.
use jira_simulator.Base.{
  ℕ, ◌+◌, ◌^◌, ◌≤◌, ◌<◌, ◌≡◌, refl, min, inl, inr, Option, none, some, arith, subst,
}
use jira_simulator.Base.Result.{ok, >>=-eq-ok, ok-injective}
use jira_simulator.Tick.Numbers.{Floats}
use jira_simulator.Tick.{StatusVisitState, LiveTeamState, Segment, microseconds, Consumption}
use jira_simulator.Tick.Capacity.{Constraint, Capacity, segment_capacity}
use jira_simulator.Tick.Capacity.Bounds.{available-le, labor-le}
use jira_simulator.Tick.Owners.{AssignedVisit}
use jira_simulator.Tick.Advance.Cases.{IsWorked, advance_visit_cases}
use jira_simulator.Tick.Advance.{
  QueueCause, queue_cause, Advanced, waiting, uncredited, worked, work_with, wait_visit,
  advance_visit,
}

abbrev pub delta_of : Option QueueCause → ℕ
delta_of none = 0
delta_of (some c) = c.delta_microseconds

-- What a segment of `time` microseconds may do to a visit.
pub record IsAccounted (time : ℕ) (before after : StatusVisitState) (cause : Option QueueCause)
    : Type 0 where
  pub same_id : after.id ≡ before.id
  pub same_item : after.work_item_id ≡ before.work_item_id
  pub same_owner : after.member_id ≡ before.member_id
  pub same_work :
      after.elapsed_work_microseconds + after.remaining_work_microseconds
      ≡ before.elapsed_work_microseconds + before.remaining_work_microseconds
  pub credited_as_worked :
      after.credited_labor_microseconds + before.elapsed_work_microseconds
      ≡ before.credited_labor_microseconds + after.elapsed_work_microseconds
  pub all_time_spent :
      0 < after.remaining_work_microseconds
      → after.queue_microseconds + after.pause_microseconds + after.credited_labor_microseconds
        ≡ before.queue_microseconds + before.pause_microseconds + before.credited_labor_microseconds
          + time
  pub queue_explained : after.queue_microseconds ≡ before.queue_microseconds + delta_of cause

delta_of-queue_cause :
    (id : ℕ) (reason : Option Constraint) (delta : ℕ) {cause : Option QueueCause}
    → queue_cause id reason delta ≡ ok cause
    → delta_of cause ≡ delta
unfolding queue_cause
delta_of-queue_cause id reason delta e = ground arith

module _ (F : Floats) (state : LiveTeamState F) (segment : Segment)
    (short : microseconds segment ≤ 2 ^ 53) where
  -- What labor is credited fits the segment.
  labor-le_segment :
      (starting consumption : Consumption) (visit : StatusVisitState) (owner : ℕ) (r : Advanced)
      (w : IsWorked F state segment starting consumption visit owner r)
      → (segment_capacity F state w.member w.identity.id segment starting consumption).labor
        ≤ microseconds segment
  labor-le_segment starting consumption visit owner r w = omega (
    arith,
    (labor-le F state w.member w.identity.id segment starting consumption).0,
    available-le F state w.member w.identity.id segment short,
  )

  worked-IsAccounted :
      (credited : ℕ) (visit : StatusVisitState) (cause : Option QueueCause)
      → credited ≤ microseconds segment
      → credited ≤ visit.remaining_work_microseconds
      → delta_of cause ≡ uncredited segment visit credited
      → IsAccounted (microseconds segment) visit (worked segment credited visit) cause
  worked-IsAccounted credited visit cause fits enough same = record {
    same_id = refl;
    same_item = refl;
    same_owner = refl;
    same_work = omega arith;
    credited_as_worked = omega arith;
    all_time_spent = λ more. ground arith;
    queue_explained = rw same refl;
  }

  work_with-IsAccounted :
      (consumption : Consumption) (visit : StatusVisitState) (id : ℕ) (capacity : Capacity)
      (r : Advanced)
      → capacity.labor ≤ microseconds segment
      → work_with F segment consumption visit id capacity ≡ ok r
      → IsAccounted (microseconds segment) visit r.visit r.cause
  unfolding work_with
  work_with-IsAccounted consumption visit id capacity r fits e =
      let credited = min capacity.labor visit.remaining_work_microseconds in
      let (cause, caused, made) =
        >>=-eq-ok
          (queue_cause visit.id (some capacity.limiting_constraint)
            (uncredited segment visit credited))
          _ e in
      subst (λ a. IsAccounted (microseconds segment) visit a.visit a.cause) (ok-injective made)
        (worked-IsAccounted credited visit cause (omega arith) (omega arith)
          (delta_of-queue_cause visit.id (some capacity.limiting_constraint) _ caused))

  wait_visit-IsAccounted :
      (consumption : Consumption) (visit : StatusVisitState) (denied : Option Constraint)
      (r : Advanced)
      → wait_visit F segment consumption visit denied ≡ ok r
      → IsAccounted (microseconds segment) visit r.visit r.cause
  unfolding wait_visit
  wait_visit-IsAccounted consumption visit denied r e =
      let (cause, caused, made) =
        >>=-eq-ok (queue_cause visit.id denied (waiting segment visit)) _ e in
      let same = delta_of-queue_cause visit.id denied _ caused in
      subst (λ a. IsAccounted (microseconds segment) visit a.visit a.cause) (ok-injective made)
        (record {
          same_id = refl;
          same_item = refl;
          same_owner = refl;
          same_work = omega arith;
          credited_as_worked = omega arith;
          all_time_spent = λ more. ground arith;
          queue_explained = rw same refl;
        })

  -- When `_advance_visit` returns, the visit has its identity, its owner and its total of work as
  -- before, is credited the labor that it was worked on, has each microsecond of the segment
  -- counted once as queue, pause or credited labor if work remains, and the cause that comes with
  -- it explains all that its queue grew by.
  pub advance_visit-IsAccounted :
      (starting consumption : Consumption) (a : AssignedVisit) (r : Advanced)
      → advance_visit F state segment starting consumption a ≡ ok r
      → IsAccounted (microseconds segment) a.visit r.visit r.cause
  advance_visit-IsAccounted starting consumption a r e =
      elim (advance_visit_cases F state segment starting consumption a r e) [
        | inl same ↦
            subst (λ x. IsAccounted (microseconds segment) a.visit x.visit x.cause) same
              (record {
                same_id = refl;
                same_item = refl;
                same_owner = refl;
                same_work = refl;
                credited_as_worked = omega arith;
                all_time_spent = λ more. omega arith;
                queue_explained = omega arith;
              })
        | inr (inl waited) ↦ wait_visit-IsAccounted consumption a.visit a.denied_reason r waited
        | inr (inr (owner, _, w)) ↦
            work_with-IsAccounted consumption a.visit w.identity.id _ r
              (labor-le_segment starting consumption a.visit owner r w) w.result
      ]
