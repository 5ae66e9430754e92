-- ===== src/Tick.antt =====
-- backend/app/v2/domain/scrum_tick.py: the advance of the open status visits of one team through
-- business segments. The values are those of backend/app/v2/domain/scrum_state.py and
-- team_blueprint.py that the advance reads. A UUID is the number that it stands for, a business
-- date its ordinal, and an instant the microseconds since a fixed origin.
pub mod Numbers
pub mod Capacity
pub mod Owners
pub mod Advance
pub mod Segments
pub mod Causes
mod Tests
use jira_simulator.Base.{
  ℕ, ◌-◌, String, Bool, Option, none, some, List, [], ◌∷◌, get_elem?, ◌==◌, if◌then◌else◌, ◌&&◌,
}
use jira_simulator.Base.Result.{Result, ok, raised, ◌>>=◌}
use jira_simulator.Tick.Numbers.{Floats}

-- What a lookup or an inconsistent state raises.
pub data Fault : Type 0 where
  index_error key_error stop_iteration : Fault
  runtime_error : String → Fault

module _ (F : Floats) where
  open F use {Num}

  pub record AvailabilityInterval : Type 0 where
    pub starts_at : ℕ
    pub ends_at : ℕ
    pub availability_fraction : Num
    pub daily_capacity_hours_override : Num

  pub record Responsibility : Type 0 where
    pub activity : String
    pub proficiency : Num

  pub record MemberBlueprint : Type 0 where
    pub daily_capacity_hours : Num
    pub max_concurrent_wip : ℕ
    pub responsibilities : List Responsibility
    pub availability : List AvailabilityInterval

  pub record MemberAvailabilityOverlay : Type 0 where
    pub member_id : ℕ
    pub starts_at : ℕ
    pub ends_at : ℕ
    pub availability_fraction : Num
    pub daily_capacity_ceiling_microseconds : Option ℕ

pub record MemberIdentity : Type 0 where
  pub id : ℕ
  pub blueprint_index : ℕ

pub record WorkflowStatus : Type 0 where
  pub key : String
  pub pauses_service_clock : Bool

pub record StatusVisitState : Type 0 where
  pub id : ℕ
  pub work_item_id : ℕ
  pub status_key : String
  pub activity_key : Option String
  pub member_id : Option ℕ
  pub required_work_microseconds : ℕ
  pub elapsed_work_microseconds : ℕ
  pub remaining_work_microseconds : ℕ
  pub queue_microseconds : ℕ
  pub pause_microseconds : ℕ
  pub credited_labor_microseconds : ℕ

-- `SimulatorRank`: the index of the priority, the relative rank and the item's id.
pub record WorkItemState : Type 0 where
  pub id : ℕ
  pub priority_index : ℕ
  pub relative_rank : ℕ

-- `_BusinessSegment`; `start` is not after `end_`.
pub record Segment : Type 0 where
  pub business_date : ℕ
  pub start : ℕ
  pub end_ : ℕ

abbrev pub microseconds : Segment → ℕ
microseconds s = s.end_ - s.start

-- The part of `LiveTeamState` that the advance reads.
pub record LiveTeamState (F : Floats) : Type 0 where
  pub members : List (MemberBlueprint F)
  pub statuses : List WorkflowStatus
  pub member_identities : List MemberIdentity
  pub overlays : List (MemberAvailabilityOverlay F)
  pub work_items : List WorkItemState

-- `state.aggregate.blueprint.members[identity.blueprint_index]`
abbrev pub member_of :
    {F : Floats} → LiveTeamState F → MemberIdentity → Result Fault (MemberBlueprint F)
member_of state identity = elim (get_elem? state.members identity.blueprint_index) [
  | none ↦ raised index_error
  | some member ↦ ok member
]

-- Labor by member and business date: `dict[tuple[UUID, date], int]`.
abbrev pub Consumption : Type 0
Consumption = List (ℕ × ℕ × ℕ)

-- `consumption.get((member, day), 0)`
unfoldable pub consumed : Consumption → ℕ → ℕ → ℕ
consumed [] member day = 0
consumed ((m, d, n) ∷ rest) member day =
    let later = consumed rest member day in if m == member && d == day then n else later

-- `consumption[(member, day)] = n`
unfoldable pub consume : Consumption → ℕ → ℕ → ℕ → Consumption
consume [] member day n = (member, day, n) ∷ []
consume ((m, d, k) ∷ rest) member day n =
    let later = consume rest member day n in
    if m == member && d == day then (m, d, n) ∷ rest else (m, d, k) ∷ later
