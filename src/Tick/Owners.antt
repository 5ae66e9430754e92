-- ===== src/Tick/Owners.antt =====
-- Who works on which visit in a segment: _assign_owners, _can_retain, _assign_owner and
-- _assignment_denial_reason. The member ids of a team are unique, so the dict of the identities by
-- id is the list of them.
mod Candidates
pub mod Wip
use jira_simulator.Base.{
  ℕ, zero, ◌+◌, Bool, true, false, not, ◌&&◌, ◌||◌, Option, none, some, List, [], ◌∷◌, find, ltb,
  ◌==◌, if◌then◌else◌, is_some,
}
use jira_simulator.Base.Result.{Result, ok, raised, ◌>>=◌}
use jira_simulator.Tick.Numbers.{Floats}
use jira_simulator.Tick.{
  Fault, key_error, MemberBlueprint, MemberIdentity, StatusVisitState, LiveTeamState, Segment,
  member_of, Consumption,
}
use jira_simulator.Tick.Capacity.{
  Constraint, no_capable_member, unavailable, daily_capacity, wip_limit, effective_fraction,
  available_microseconds, proficiency_in, remaining_capacity,
}

-- `_AssignedVisit`
pub record AssignedVisit : Type 0 where
  pub visit : StatusVisitState
  pub denied_reason : Option Constraint

-- `retained`: how many visits each member works on in the segment.
abbrev pub Retained : Type 0
Retained = ℕ → ℕ

abbrev pub bump : Retained → ℕ → Retained
bump retained id j = if j == id then retained j + 1 else retained j

abbrev pub with_owner : StatusVisitState → Option ℕ → StatusVisitState
with_owner visit owner = record visit { member_id = owner }

-- `members[owner]`
abbrev pub identity_by_id : List MemberIdentity → ℕ → Result Fault MemberIdentity
identity_by_id identities id = elim (find (λ i. i.id == id) identities) [
  | none ↦ raised key_error
  | some identity ↦ ok identity
]

pub denial_reason : Bool → Bool → Bool → Constraint
denial_reason capable available has_capacity =
    if not capable
    then no_capable_member
    else if not available
    then unavailable
    else if not has_capacity
    then daily_capacity
    else wip_limit

module _ (F : Floats) where
  open F use {Num, less, is_zero}

  pub can_retain :
      LiveTeamState F
      → MemberBlueprint F
      → MemberIdentity
      → StatusVisitState
      → Segment
      → Retained
      → Bool
  unfolding proficiency_in available_microseconds
  can_retain state member identity visit segment retained =
      is_some (proficiency_in F member.responsibilities visit.activity_key)
      && ltb 0 (available_microseconds F state member identity.id segment)
      && ltb (retained identity.id) member.max_concurrent_wip

  -- `owner is not None and _can_retain(...)`
  pub keeps_owner : LiveTeamState F → Segment → Retained → StatusVisitState → Result Fault Bool
  unfolding can_retain
  keeps_owner state segment retained visit = elim visit.member_id [
    | none ↦ ok false
    | some owner ↦ do
      identity ← identity_by_id state.member_identities owner
      member ← member_of state identity
      ok (can_retain state member identity visit segment retained)
  ]

  abbrev pub bump_owner : Retained → StatusVisitState → Retained
  bump_owner retained visit = elim visit.member_id [
    | none ↦ retained
    | some owner ↦ bump retained owner
  ]

  -- The first loop of `_assign_owners`.
  pub retain_owners :
      LiveTeamState F
      → Segment
      → Retained
      → List StatusVisitState
      → Result Fault (List StatusVisitState × Retained)
  unfolding keeps_owner
  retain_owners state segment retained [] = ok ([], retained)
  retain_owners state segment retained (v ∷ vs) = do
    kept ← keeps_owner state segment retained v
    rest ← retain_owners state segment (if kept then bump_owner retained v else retained) vs
    ok ((if kept then v else with_owner v none) ∷ rest.0, rest.1)

  abbrev pub Candidate : Type 0
  Candidate = Num × MemberIdentity

  -- The local variables of `_assign_owner`.
  pub record Survey : Type 0 where
    pub capable : Bool
    pub available : Bool
    pub has_capacity : Bool
    pub candidates : List Candidate

  -- The body of the loop for one capable member, put before what the rest of the loop finds.
  pub survey_member : (fraction_is_zero capacity_is_zero room : Bool) → Candidate → Survey → Survey
  survey_member fraction_is_zero capacity_is_zero room candidate rest =
      if fraction_is_zero
      then record rest { capable = true }
      else if capacity_is_zero
      then record rest { capable = true; available = true }
      else record {
        capable = true;
        available = true;
        has_capacity = true;
        candidates = if room then candidate ∷ rest.candidates else rest.candidates;
      }

  -- The loop of `_assign_owner` over the members.
  pub survey :
      LiveTeamState F
      → Segment
      → Consumption
      → Retained
      → StatusVisitState
      → List MemberIdentity
      → Result Fault Survey
  unfolding survey_member proficiency_in effective_fraction remaining_capacity
  survey state segment consumption retained visit [] =
      ok (record { capable = false; available = false; has_capacity = false; candidates = [] })
  survey state segment consumption retained visit (identity ∷ rest) = do
    member ← member_of state identity
    later ← survey state segment consumption retained visit rest
    ok (elim (proficiency_in F member.responsibilities visit.activity_key) [
      | none ↦ later
      | some proficiency ↦
          survey_member (is_zero (effective_fraction F state member identity.id segment))
            (remaining_capacity F state member identity.id segment consumption == 0)
            (ltb (retained identity.id) member.max_concurrent_wip) (proficiency, identity) later
    ])

  -- `candidate[:2] > best[:2]`: a higher proficiency, or as high a one and an earlier member.
  pub outranks : Candidate → Candidate → Bool
  outranks (p, i) (q, j) = less q p || (not (less p q) && ltb i.blueprint_index j.blueprint_index)

  -- `max`: the first of the greatest.
  pub best_of : Candidate → List Candidate → Candidate
  unfolding outranks
  best_of best [] = best
  best_of best (c ∷ cs) = best_of (if outranks c best then c else best) cs

  -- The end of `_assign_owner`: the denial, or the best candidate.
  pub choose : Retained → StatusVisitState → Constraint → List Candidate → AssignedVisit × Retained
  unfolding best_of
  choose retained visit reason [] =
      (record { visit = visit; denied_reason = some reason }, retained)
  choose retained visit reason (c ∷ cs) =
      let owner = (best_of c cs).1.id in
      (record { visit = with_owner visit (some owner); denied_reason = none }, bump retained owner)

  pub assign_owner :
      LiveTeamState F
      → Segment
      → Consumption
      → Retained
      → StatusVisitState
      → Result Fault (AssignedVisit × Retained)
  unfolding survey choose denial_reason
  assign_owner state segment consumption retained visit = do
    s ← survey state segment consumption retained visit state.member_identities
    ok (choose retained visit (denial_reason s.capable s.available s.has_capacity) s.candidates)

  -- The body of the second loop of `_assign_owners`, by whether the visit has an owner.
  pub settle_owner :
      Bool
      → LiveTeamState F
      → Segment
      → Consumption
      → Retained
      → StatusVisitState
      → Result Fault (AssignedVisit × Retained)
  unfolding assign_owner
  settle_owner true state segment consumption retained visit =
      ok (record { visit = visit; denied_reason = none }, retained)
  settle_owner false state segment consumption retained visit =
      assign_owner state segment consumption retained visit

  -- The second loop of `_assign_owners`.
  pub assign_rest :
      LiveTeamState F
      → Segment
      → Consumption
      → Retained
      → List StatusVisitState
      → Result Fault (List AssignedVisit)
  unfolding settle_owner
  assign_rest state segment consumption retained [] = ok []
  assign_rest state segment consumption retained (v ∷ vs) = do
    one ← settle_owner (is_some v.member_id) state segment consumption retained v
    rest ← assign_rest state segment consumption one.1 vs
    ok (one.0 ∷ rest)

  unfoldable pub assign_owners :
      LiveTeamState F
      → List StatusVisitState
      → Segment
      → Consumption
      → Result Fault (List AssignedVisit)
  unfolding retain_owners assign_rest
  assign_owners state visits segment consumption = do
    retained ← retain_owners state segment (λ _. 0) visits
    assign_rest state segment consumption retained.1 retained.0
