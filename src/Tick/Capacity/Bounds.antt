-- ===== src/Tick/Capacity/Bounds.antt =====
-- Bounds on the capacity of a member in a segment.
use jira_simulator.Base.{ℕ, ◌-◌, ◌^◌, ◌≤◌, ◌≡◌, inl, inr, false, List, [], ◌∷◌, arith, Bool-cases}
use jira_simulator.Tick.Numbers.{Floats}
use jira_simulator.Tick.{
  MemberBlueprint, LiveTeamState, Segment, microseconds, Consumption, consumed,
}
use jira_simulator.Tick.Capacity.{
  least, fractions, available_microseconds, daily_ceiling, segment_capacity,
}

module _ (F : Floats) where
  open F use {Num, one, less, less_irrefl, less_down, round_scaled-le}

  least-le : (z x : Num) (xs : List Num) → less z x ≡ false → less z (least F x xs) ≡ false
  unfolding least
  least-le z x [] h = h
  least-le z x (y ∷ ys) h = elim (Bool-cases (less y x)) [
    | inl e ↦ rw e (least-le z y ys (less_down y x z e h))
    | inr e ↦ rw e (least-le z x ys h)
  ]

  module _ (state : LiveTeamState F) (member : MemberBlueprint F) (id : ℕ) (segment : Segment) where
    pub available-le :
        microseconds segment ≤ 2 ^ 53
        → available_microseconds F state member id segment ≤ microseconds segment
    unfolding available_microseconds
    available-le h =
        round_scaled-le _ _ h
          (least-le one one (fractions F state member id segment) (less_irrefl one))

    -- Within what the member is available and has not used yet, and within the rest of the day.
    pub labor-le :
        (starting consumption : Consumption)
        → ((segment_capacity F state member id segment starting consumption).labor
            ≤ available_microseconds F state member id segment
              - (consumed consumption id segment.business_date
                  - consumed starting id segment.business_date))
          × ((segment_capacity F state member id segment starting consumption).labor
              ≤ daily_ceiling F state member id segment
                - consumed consumption id segment.business_date)
    unfolding segment_capacity
    labor-le starting consumption = ground arith
