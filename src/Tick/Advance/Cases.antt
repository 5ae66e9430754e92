-- ===== src/Tick/Advance/Cases.antt =====
-- The ways through `_advance_visit`.
use jira_simulator.Base.{
  ℕ, ◌≡◌, refl, Bool, true, false, ◌⊎◌, inl, inr, Option, none, some, find, ◌==◌, Bool-cases,
  str_eq,
}
use jira_simulator.Base.Result.{ok, >>=-eq-ok, ok-injective}
use jira_simulator.Tick.Numbers.{Floats}
use jira_simulator.Tick.{
  MemberBlueprint, MemberIdentity, LiveTeamState, StatusVisitState, Segment, member_of, Consumption,
}
use jira_simulator.Tick.Capacity.{Constraint, segment_capacity}
use jira_simulator.Tick.Owners.{AssignedVisit}
use jira_simulator.Tick.Advance.{
  next, Advanced, paused, work_with, work_visit, wait_visit, advance_owned, advance_visit,
}

module _ (F : Floats) (state : LiveTeamState F) (segment : Segment)
    (starting consumption : Consumption) where
  -- The member that a worked visit is owned by, and the capacity that it was given.
  pub record IsWorked (visit : StatusVisitState) (owner : ℕ) (r : Advanced) : Type 0 where
    pub identity : MemberIdentity
    pub member : MemberBlueprint F
    pub found : find (λ i. i.id == owner) state.member_identities ≡ some identity
    pub looked_up : member_of state identity ≡ ok member
    pub result :
        work_with F segment consumption visit identity.id
          (segment_capacity F state member identity.id segment starting consumption)
        ≡ ok r

  next-found :
      (o : Option MemberIdentity) {identity : MemberIdentity}
      → next o ≡ ok identity
      → o ≡ some identity
  next-found none h = cc
  next-found (some i) h = cc

  pub work_visit_inv :
      (visit : StatusVisitState) (owner : ℕ) (r : Advanced)
      → work_visit F state segment starting consumption visit owner ≡ ok r
      → IsWorked visit owner r
  unfolding work_visit
  work_visit_inv visit owner r e =
      let (identity, found, e') =
        >>=-eq-ok (next (find (λ i. i.id == owner) state.member_identities)) _ e in
      let (member, looked_up, e'') = >>=-eq-ok (member_of state identity) _ e' in
      record {
        identity = identity;
        member = member;
        found = next-found _ found;
        looked_up = looked_up;
        result = e'';
      }

  abbrev pub AdvanceCases : StatusVisitState → Option Constraint → Option ℕ → Advanced → Type 0
  AdvanceCases visit denied owned r =
      (record { visit = paused segment visit; cause = none; consumption = consumption } ≡ r)
      ⊎ ((wait_visit F segment consumption visit denied ≡ ok r)
          ⊎ ((owner : ℕ) × (owned ≡ some owner) × IsWorked visit owner r))

  advance_owned_cases :
      (visit : StatusVisitState) (denied : Option Constraint) (pauses : Bool) (owned : Option ℕ)
      (r : Advanced)
      → advance_owned F state segment starting consumption visit denied pauses owned ≡ ok r
      → AdvanceCases visit denied owned r
  unfolding advance_owned
  advance_owned_cases visit denied true owned r e = inl (ok-injective e)
  advance_owned_cases visit denied false none r e = inr (inl e)
  advance_owned_cases visit denied false (some owner) r e =
      elim (Bool-cases (visit.remaining_work_microseconds == 0)) [
        | inl z ↦ inr (inl (rw z (rw z at e)))
        | inr z ↦ inr (inr (owner, refl, work_visit_inv visit owner r (rw z at e)))
      ]

  pub advance_visit_cases :
      (a : AssignedVisit) (r : Advanced)
      → advance_visit F state segment starting consumption a ≡ ok r
      → AdvanceCases a.visit a.denied_reason a.visit.member_id r
  unfolding advance_visit
  advance_visit_cases a r e =
      let (status, _, e') =
        >>=-eq-ok (next (find (λ s. str_eq s.key a.visit.status_key) state.statuses)) _ e in
      advance_owned_cases a.visit a.denied_reason status.pauses_service_clock a.visit.member_id r e'
