-- ===== src/Tick/Capacity.antt =====
-- The capacity of a member in a segment: _active, _member_overlays, _effective_fraction,
-- _available_microseconds, _daily_ceiling, _proficiency, _remaining_capacity, _segment_capacity.
-- Each takes the member's blueprint, which its caller has looked up.
pub mod Bounds
use jira_simulator.Base.{
  ℕ, zero, ◌-◌, min, String, Bool, ◌&&◌, Option, none, some, List, [], ◌∷◌, ◌++◌, map, keep_if, leb,
  ltb, ◌==◌, if◌then◌else◌, str_eq,
}
use jira_simulator.Tick.Numbers.{Floats}
use jira_simulator.Tick.{
  MemberBlueprint, MemberAvailabilityOverlay, Responsibility, LiveTeamState, Segment, microseconds,
  Consumption, consumed,
}

abbrev pub microseconds_per_hour : ℕ
microseconds_per_hour = 3_600_000_000

pub data Constraint : Type 0 where
  no_capable_member unavailable daily_capacity wip_limit contention : Constraint

pub record Capacity : Type 0 where
  pub labor : ℕ
  pub limiting_constraint : Constraint

-- _active
abbrev pub active : ℕ → ℕ → Segment → Bool
active starts_at ends_at segment = leb starts_at segment.start && ltb segment.start ends_at

abbrev pub minimum : ℕ → List ℕ → ℕ
minimum m [] = m
minimum m (x ∷ xs) = minimum (min m x) xs

module _ (F : Floats) where
  open F use {Num, one, less, round_scaled}

  -- _member_overlays
  abbrev pub member_overlays : LiveTeamState F → ℕ → List (MemberAvailabilityOverlay F)
  member_overlays state id = keep_if (λ o. o.member_id == id) state.overlays

  -- `min((first, *rest))`: the first of the least.
  pub least : Num → List Num → Num
  least x [] = x
  least x (y ∷ ys) = least (if less y x then y else x) ys

  -- The fractions of the intervals and overlays that are active at the segment's start.
  pub fractions : LiveTeamState F → MemberBlueprint F → ℕ → Segment → List Num
  fractions state member id segment =
      map (λ i. i.availability_fraction)
        (keep_if (λ i. active i.starts_at i.ends_at segment) member.availability)
      ++ map (λ o. o.availability_fraction)
          (keep_if (λ o. active o.starts_at o.ends_at segment) (member_overlays state id))

  unfoldable pub effective_fraction : LiveTeamState F → MemberBlueprint F → ℕ → Segment → Num
  unfolding least fractions
  effective_fraction state member id segment = least one (fractions state member id segment)

  unfoldable pub available_microseconds : LiveTeamState F → MemberBlueprint F → ℕ → Segment → ℕ
  unfolding effective_fraction
  available_microseconds state member id segment =
      round_scaled (microseconds segment) (effective_fraction state member id segment)

  -- The ceilings of the overlays that set one.
  pub overlay_ceilings : List (MemberAvailabilityOverlay F) → Segment → List ℕ
  overlay_ceilings [] segment = []
  overlay_ceilings (o ∷ os) segment =
      let rest = overlay_ceilings os segment in
      if active o.starts_at o.ends_at segment
      then elim o.daily_capacity_ceiling_microseconds [ none ↦ rest | some c ↦ c ∷ rest ]
      else rest

  pub daily_ceiling : LiveTeamState F → MemberBlueprint F → ℕ → Segment → ℕ
  unfolding effective_fraction overlay_ceilings
  daily_ceiling state member id segment =
      let base = round_scaled microseconds_per_hour member.daily_capacity_hours in
      let overrides =
        map (λ i. round_scaled microseconds_per_hour i.daily_capacity_hours_override)
          (keep_if (λ i. active i.starts_at i.ends_at segment) member.availability) in
      let ceilings = overlay_ceilings (member_overlays state id) segment in
      round_scaled (minimum base (overrides ++ ceilings))
        (effective_fraction state member id segment)

  -- _proficiency: of the first responsibility for the activity.
  unfoldable pub proficiency_in : List (Responsibility F) → Option String → Option Num
  proficiency_in rs none = none
  proficiency_in [] (some activity) = none
  proficiency_in (r ∷ rs) (some activity) =
      let rest = proficiency_in rs (some activity) in
      if str_eq r.activity activity then some r.proficiency else rest

  unfoldable pub remaining_capacity :
      LiveTeamState F → MemberBlueprint F → ℕ → Segment → Consumption → ℕ
  unfolding available_microseconds daily_ceiling consumed
  remaining_capacity state member id segment consumption =
      min (available_microseconds state member id segment)
        (daily_ceiling state member id segment - consumed consumption id segment.business_date)

  -- `used` is what the segment has consumed so far.
  unfoldable pub segment_capacity :
      LiveTeamState F → MemberBlueprint F → ℕ → Segment → Consumption → Consumption → Capacity
  unfolding available_microseconds daily_ceiling consumed
  segment_capacity state member id segment starting consumption =
      let total = consumed consumption id segment.business_date in
      let used = total - consumed starting id segment.business_date in
      let segment_remaining = available_microseconds state member id segment - used in
      let daily_remaining = daily_ceiling state member id segment - total in
      if leb segment_remaining daily_remaining
      then record {
        labor = segment_remaining;
        limiting_constraint = if used == 0 then Constraint.unavailable else Constraint.contention;
      }
      else record { labor = daily_remaining; limiting_constraint = Constraint.daily_capacity }
