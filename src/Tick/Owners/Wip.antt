-- ===== src/Tick/Owners/Wip.antt =====
-- The work-in-progress limit of the members.
use jira_simulator.Base.{
  ℕ, ◌+◌, ◌≤◌, ◌<◌, ◌≡◌, refl, sym, ap, subst, Bool, true, false, inl, inr, Option, none, some,
  List, [], ◌∷◌, All, All-at, All-Memᴰ, find, arith, ltb→lt, &&-true, ◌==◌, ==→eq, opt_eq,
  Option-cases, if◌then◌else◌, is_some, ◌∙◌,
}
use jira_simulator.Base.Result.{ok, >>=-eq-ok, ok-injective}
use jira_simulator.Tick.Numbers.{Floats}
use jira_simulator.Tick.{
  MemberBlueprint, MemberIdentity, StatusVisitState, LiveTeamState, Segment, member_of, Consumption,
}
use jira_simulator.Tick.Capacity.{Constraint}
use jira_simulator.Tick.Owners.Candidates.{best_of-All, HasRoom, survey-HasRoom}
use jira_simulator.Tick.Owners.{
  AssignedVisit, Retained, with_owner, bump_owner, identity_by_id, can_retain, keeps_owner,
  retain_owners, Candidate, survey, best_of, choose, assign_owner, settle_owner, assign_rest,
  assign_owners,
}

-- How many of the assigned visits the member works on.
abbrev pub works_on : ℕ → List AssignedVisit → ℕ
works_on id [] = 0
works_on id (a ∷ rest) = (if opt_eq a.visit.member_id (some id) then 1 else 0) + works_on id rest

abbrev owned_by : ℕ → List StatusVisitState → ℕ
owned_by id [] = 0
owned_by id (v ∷ vs) = (if opt_eq v.member_id (some id) then 1 else 0) + owned_by id vs

module _ (F : Floats) (state : LiveTeamState F) (segment : Segment) (identity : MemberIdentity)
    (member : MemberBlueprint F)
    (unique : All
      (λ i. find (λ j. j.id == i.id) state.member_identities ≡ some i)
      state.member_identities)
    (found : find (λ i. i.id == identity.id) state.member_identities ≡ some identity)
    (looked_up : member_of state identity ≡ ok member) where
  abbrev Fits : Retained → Type 0
  Fits r = r identity.id ≤ member.max_concurrent_wip

  -- The owner that a visit keeps; this member only if it has room.
  abbrev KeepsOwner : Retained → Option ℕ → Type 0
  KeepsOwner retained owned =
      (owner : ℕ) × (owned ≡ some owner)
      × (identity.id == owner ≡ true → retained identity.id < member.max_concurrent_wip)

  identity_by_id-found :
      (ids : List MemberIdentity) (owner : ℕ) (i : MemberIdentity)
      → identity_by_id ids owner ≡ ok i
      → find (λ j. j.id == owner) ids ≡ some i
  identity_by_id-found ids owner i e = ground (arith, e)

  same_member :
      (owner : ℕ) (i : MemberIdentity) (b : MemberBlueprint F)
      → identity.id == owner ≡ true
      → find (λ j. j.id == owner) state.member_identities ≡ some i
      → member_of state i ≡ ok b
      → (i ≡ identity) × (b ≡ member)
  same_member owner i b same by_owner blueprint =
      let found_owner : find (λ j. j.id == owner) state.member_identities ≡ some identity =
        subst (λ n. find (λ j. j.id == n) state.member_identities ≡ some identity)
          (==→eq identity.id owner same) found in
      let same_identity : i ≡ identity = cc (by_owner, found_owner) in
      (same_identity, ok-injective (sym blueprint ∙ ap (member_of state) same_identity ∙ looked_up))

  retained-room :
      (retained : Retained) (owner : ℕ) (i : MemberIdentity) (b : MemberBlueprint F)
      → identity.id == owner ≡ true
      → find (λ j. j.id == owner) state.member_identities ≡ some i
      → member_of state i ≡ ok b
      → retained i.id < b.max_concurrent_wip
      → retained identity.id < member.max_concurrent_wip
  retained-room retained owner i b same by_owner blueprint room =
      let (same_i, same_b) = same_member owner i b same by_owner blueprint in
      rw (← same_i, ← same_b) room

  can_retain-room :
      (retained : Retained) (i : MemberIdentity) (b : MemberBlueprint F) (v : StatusVisitState)
      → can_retain F state b i v segment retained ≡ true
      → retained i.id < b.max_concurrent_wip
  unfolding can_retain
  can_retain-room retained i b v kept = ltb→lt _ _ (&&-true _ _ kept).1

  keeps_owner-room :
      (retained : Retained) (v : StatusVisitState)
      → keeps_owner F state segment retained v ≡ ok true
      → KeepsOwner retained v.member_id
  unfolding keeps_owner
  keeps_owner-room retained v e = elim (Option-cases v.member_id) [
    | inl m ↦ cc (rw (m, keeps_owner) at e)
    | inr (owner, m) ↦
        let (i, by_id, e') =
          >>=-eq-ok (identity_by_id state.member_identities owner) _ (rw (m, keeps_owner) at e) in
        let (b, blueprint, e'') = >>=-eq-ok (member_of state i) _ e' in
        (
          owner,
          m,
          λ same.
              retained-room retained owner i b same
                (identity_by_id-found state.member_identities owner i by_id) blueprint
                (can_retain-room retained i b v (ok-injective e'')),
        )
  ]

  bump-KeepsOwner :
      (retained : Retained) (v : StatusVisitState)
      → KeepsOwner retained v.member_id
      → Fits retained
      → Fits (bump_owner F retained v)
        × (bump_owner F retained v identity.id
            ≡ retained identity.id + (if opt_eq v.member_id (some identity.id) then 1 else 0))
  bump-KeepsOwner retained v (owner, m, room) h = (rw m (ground (arith, room)), rw m (ground arith))

  abbrev Counted : Retained → List StatusVisitState × Retained → Type 0
  Counted retained p =
      Fits p.1 × (p.1 identity.id ≡ retained identity.id + owned_by identity.id p.0)

  retain_step :
      (keeps : Bool) (retained : Retained) (v : StatusVisitState)
      (p : List StatusVisitState × Retained)
      → (keeps ≡ true → KeepsOwner retained v.member_id)
      → Fits retained
      → (Fits (if keeps then bump_owner F retained v else retained)
          → Counted (if keeps then bump_owner F retained v else retained) p)
      → Counted retained ((if keeps then v else with_owner v none) ∷ p.0, p.1)
  retain_step true retained v p room h later =
      let (fits, bumped) = bump-KeepsOwner retained v (room refl) h in
      let (fits', counted) = later fits in (fits', omega (arith, bumped, counted))
  retain_step false retained v p room h later =
      let (fits, counted) = later h in (fits, omega (arith, counted))

  -- After the first loop the count of the member is that of the visits that it keeps.
  retain_owners-Counted :
      (retained : Retained) (vs : List StatusVisitState) (p : List StatusVisitState × Retained)
      → retain_owners F state segment retained vs ≡ ok p
      → Fits retained
      → Counted retained p
  unfolding retain_owners
  retain_owners-Counted retained [] p e h =
      subst (Counted retained) (ok-injective e) (h, omega arith)
  retain_owners-Counted retained (v ∷ vs) p e h =
      let (keeps, tested, e') = >>=-eq-ok (keeps_owner F state segment retained v) _ e in
      let next = if keeps then bump_owner F retained v else retained in
      let (q, later, made) = >>=-eq-ok (retain_owners F state segment next vs) _ e' in
      subst (Counted retained) (ok-injective made) (
        retain_step keeps retained v q (λ kept. keeps_owner-room retained v (tested ∙ ap ok kept)) h
          (retain_owners-Counted next vs q later))

  abbrev owns : Option ℕ → ℕ
  owns owned = if opt_eq owned (some identity.id) then 1 else 0

  -- The owner's count goes up by one, and stays within the limit for this member.
  abbrev Owned : Retained → AssignedVisit × Retained → Type 0
  Owned retained p = Fits p.1 × (p.1 identity.id ≡ retained identity.id + owns p.0.visit.member_id)

  choose-Owned :
      (retained : Retained) (visit : StatusVisitState) (reason : Constraint)
      (cs : List (Candidate F))
      → All (HasRoom F state segment [] retained visit) cs
      → visit.member_id ≡ none
      → Fits retained
      → Owned retained (choose F retained visit reason cs)
  unfolding choose
  choose-Owned retained visit reason [] room unowned h = (h, rw unowned (omega arith))
  choose-Owned retained visit reason (c ∷ cs) (first, rest) unowned h =
      let best = best_of F c cs in
      let (listed, m, blueprint, room) =
        best_of-All F (HasRoom F state segment [] retained visit) c cs first rest in
      let fits : identity.id == best.1.id ≡ true
          → retained identity.id < member.max_concurrent_wip =
        λ same.
          retained-room retained best.1.id best.1 m same (All-at _ _ unique listed) blueprint
            room in
      (ground (arith, fits), ground arith)

  assign_owner-Owned :
      (consumption : Consumption) (retained : Retained) (visit : StatusVisitState)
      (p : AssignedVisit × Retained)
      → assign_owner F state segment consumption retained visit ≡ ok p
      → visit.member_id ≡ none
      → Fits retained
      → Owned retained p
  unfolding assign_owner
  assign_owner-Owned consumption retained visit p e unowned h =
      let (s, surveyed, made) =
        >>=-eq-ok (survey F state segment consumption retained visit state.member_identities) _ e in
      subst (Owned retained) (ok-injective made) (
        choose-Owned retained visit _ s.candidates
          (survey-HasRoom F state segment consumption retained visit state.member_identities s
            (All-Memᴰ _) surveyed)
          unowned h)

  settle_owner-Owned :
      (has_owner : Bool) (consumption : Consumption) (retained : Retained)
      (visit : StatusVisitState) (p : AssignedVisit × Retained)
      → is_some visit.member_id ≡ has_owner
      → settle_owner F has_owner state segment consumption retained visit ≡ ok p
      → Fits retained
      → Fits p.1
        × (p.1 identity.id + owns visit.member_id ≡ retained identity.id + owns p.0.visit.member_id)
  unfolding settle_owner
  settle_owner-Owned true consumption retained visit p has e h =
      subst
        (λ q.
          Fits q.1
          × (q.1 identity.id + owns visit.member_id
              ≡ retained identity.id + owns q.0.visit.member_id))
        (ok-injective e) (h, refl)
  settle_owner-Owned false consumption retained visit p has e h =
      let unowned : visit.member_id ≡ none = ground (arith, has) in
      let (fits, counted) = assign_owner-Owned consumption retained visit p e unowned h in
      (fits, rw unowned (omega (arith, counted)))

  assign_rest-le :
      (consumption : Consumption) (retained : Retained) (vs : List StatusVisitState)
      (as_ : List AssignedVisit)
      → assign_rest F state segment consumption retained vs ≡ ok as_
      → Fits retained
      → works_on identity.id as_ + retained identity.id
        ≤ member.max_concurrent_wip + owned_by identity.id vs
  unfolding assign_rest
  assign_rest-le consumption retained [] as_ e h =
      subst (λ l. works_on identity.id l + retained identity.id ≤ member.max_concurrent_wip + 0)
        (ok-injective e) (omega arith)
  assign_rest-le consumption retained (v ∷ vs) as_ e h =
      let (one, first, e') =
        >>=-eq-ok (settle_owner F (is_some v.member_id) state segment consumption retained v) _ e in
      let (rest, later, made) = >>=-eq-ok (assign_rest F state segment consumption one.1 vs) _ e' in
      let (fits, counted) = settle_owner-Owned _ consumption retained v one refl first h in
      subst
        (λ l.
          works_on identity.id l + retained identity.id
          ≤ member.max_concurrent_wip + owned_by identity.id (v ∷ vs))
        (ok-injective made)
        (omega (arith, counted, assign_rest-le consumption one.1 vs rest later fits))

  -- However the visits of a segment are assigned, no member works on more of them than its limit
  -- of concurrent work, when the ids of the members are unique.
  pub assign_owners-le_wip :
      (visits : List StatusVisitState) (consumption : Consumption) (as_ : List AssignedVisit)
      → assign_owners F state visits segment consumption ≡ ok as_
      → works_on identity.id as_ ≤ member.max_concurrent_wip
  unfolding assign_owners
  assign_owners-le_wip visits consumption as_ e =
      let (p, kept, e') = >>=-eq-ok (retain_owners F state segment (λ _. 0) visits) _ e in
      let (fits, counted) = retain_owners-Counted (λ _. 0) visits p kept (omega arith) in
      omega (arith, counted, assign_rest-le consumption p.1 p.0 as_ e' fits)
