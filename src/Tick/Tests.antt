-- ===== src/Tick/Tests.antt =====
-- Runs of the advance on a small team, and the theorems at such inputs.
use jira_simulator.Base.{
  ℕ, ◌*◌, ◌/◌, ◌≤◌, ◌≡◌, refl, true, false, none, some, List, [], ◌∷◌, ltb, ◌==◌, if◌then◌else◌,
  arith,
}
use jira_simulator.Base.Result.{ok}
use jira_simulator.Tick.Numbers.{Floats}
use jira_simulator.Tick.{
  MemberBlueprint, MemberIdentity, StatusVisitState, Segment, LiveTeamState, consumed,
}
use jira_simulator.Tick.Capacity.{wip_limit, available_microseconds, daily_ceiling}
use jira_simulator.Tick.Owners.{AssignedVisit, assign_owners}
use jira_simulator.Tick.Owners.Wip.{works_on, assign_owners-le_wip}
use jira_simulator.Tick.Advance.{Advanced, SegmentAdvance, advance_visit, advance_segment}
use jira_simulator.Tick.Advance.Accounts.{IsAccounted, advance_visit-IsAccounted}
use jira_simulator.Tick.Advance.Labor.{IsWithin, advance_segment-IsWithin}

-- n times x halves
abbrev halves : ℕ → ℕ → ℕ
halves n x = if x == 0 then 0 else if x == 1 then n / 2 else if x == 2 then n else n * x

halves-le : (n x : ℕ) → ltb 2 x ≡ false → halves n x ≤ n
halves-le n x small = ground arith

ltb_irrefl : (x : ℕ) → ltb x x ≡ false
ltb_irrefl x = ground arith

ltb_down : (x y z : ℕ) → ltb x y ≡ true → ltb z y ≡ false → ltb z x ≡ false
ltb_down x y z h h' = ground arith

abbrev half_units : Floats
half_units = record {
  Num = ℕ;
  zero = 0;
  one = 2;
  less = ltb;
  is_zero = λ x. x == 0;
  round_scaled = halves;
  round_scaled-le = λ n x h small. halves-le n x small;
  less_irrefl = ltb_irrefl;
  less_down = ltb_down;
}

abbrev developer : MemberBlueprint half_units
developer = record {
  daily_capacity_hours = 4;
  max_concurrent_wip = 1;
  responsibilities = record { activity = "development"; proficiency = 2 } ∷ [];
  availability =
      record {
        starts_at = 0;
        ends_at = 1000;
        availability_fraction = 2;
        daily_capacity_hours_override = 4;
      }
      ∷ [];
}

abbrev ada : MemberIdentity
ada = record { id = 1; blueprint_index = 0 }

abbrev team : LiveTeamState half_units
team = record {
  members = developer ∷ [];
  statuses = record { key = "doing"; pauses_service_clock = false } ∷ [];
  member_identities = ada ∷ [];
  overlays = [];
  work_items =
      record { id = 31; priority_index = 0; relative_rank = 0 }
      ∷ record { id = 32; priority_index = 1; relative_rank = 0 }
      ∷ [];
}

abbrev hour : Segment
hour = record { business_date = 7; start = 100; end_ = 160 }

abbrev visit : ℕ → ℕ → ℕ → StatusVisitState
visit id item remaining = record {
  id = id;
  work_item_id = item;
  status_key = "doing";
  activity_key = some "development";
  member_id = none;
  required_work_microseconds = remaining;
  elapsed_work_microseconds = 0;
  remaining_work_microseconds = remaining;
  queue_microseconds = 0;
  pause_microseconds = 0;
  credited_labor_microseconds = 0;
}

abbrev two_visits : List StatusVisitState
two_visits = visit 41 31 80 ∷ visit 42 32 90 ∷ []

abbrev assigned : List AssignedVisit
assigned =
    record { visit = record (visit 41 31 80) { member_id = some 1 }; denied_reason = none }
    ∷ record { visit = visit 42 32 90; denied_reason = some wip_limit }
    ∷ []

one_is_assigned : assign_owners half_units team two_visits hour [] ≡ ok assigned
unfolding assign_owners
one_is_assigned = refl

abbrev worked_visit : StatusVisitState
worked_visit = record (visit 41 31 80) {
  member_id = some 1;
  elapsed_work_microseconds = 60;
  remaining_work_microseconds = 20;
  credited_labor_microseconds = 60;
}

abbrev advanced : SegmentAdvance
advanced = record {
  visits = worked_visit ∷ record (visit 42 32 90) { queue_microseconds = 60 } ∷ [];
  queue_causes = record { visit_id = 42; reason = wip_limit; delta_microseconds = 60 } ∷ [];
  consumption = (1, 7, 60) ∷ [];
}

both_advance : advance_segment half_units team two_visits [] hour [] ≡ ok advanced
unfolding advance_segment
both_advance = refl

abbrev first_assigned : AssignedVisit
first_assigned = record {
  visit = record (visit 41 31 80) { member_id = some 1 };
  denied_reason = none;
}

abbrev first_advanced : Advanced
first_advanced = record { visit = worked_visit; cause = none; consumption = (1, 7, 60) ∷ [] }

first_advances : advance_visit half_units team hour [] [] first_assigned ≡ ok first_advanced
unfolding advance_visit
first_advances = refl

assign_owners-le_wip_example : works_on 1 assigned ≤ 1
assign_owners-le_wip_example =
    assign_owners-le_wip half_units team hour ada developer (refl, tt) refl refl two_visits []
      assigned one_is_assigned

advance_visit-IsAccounted_example : IsAccounted 60 first_assigned.visit worked_visit none
advance_visit-IsAccounted_example =
    advance_visit-IsAccounted half_units team hour (omega arith) [] [] first_assigned first_advanced
      first_advances

advance_segment-IsWithin_example :
    IsWithin
      (available_microseconds half_units team developer 1 hour)
      (daily_ceiling half_units team developer 1 hour)
      (consumed [] 1 7)
      (consumed ((1, 7, 60) ∷ []) 1 7)
advance_segment-IsWithin_example =
    advance_segment-IsWithin half_units team two_visits [] hour [] advanced ada developer
      both_advance refl refl
