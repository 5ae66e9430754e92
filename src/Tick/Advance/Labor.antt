-- ===== src/Tick/Advance/Labor.antt =====
-- No member works more in a segment than the segment and the day allow.
use jira_simulator.Base.{
  ℕ, ◌+◌, ◌≤◌, ◌≡◌, sym, not, min, true, false, ◌⊎◌, inl, inr, some, List, [], ◌∷◌, find,
  find-passes, ==→eq, ==-self, ◌∙◌, arith, ◌==◌, ◌&&◌, Bool-cases, subst, ap, if◌then◌else◌,
  keep_if, map, sort_by, contains,
}
use jira_simulator.Base.Result.{ok, >>=-eq-ok, ok-injective}
use jira_simulator.Tick.Numbers.{Floats}
use jira_simulator.Tick.{
  MemberBlueprint, MemberIdentity, StatusVisitState, LiveTeamState, Segment, member_of, Consumption,
  consumed, consume,
}
use jira_simulator.Tick.Capacity.{Capacity, available_microseconds, daily_ceiling, segment_capacity}
use jira_simulator.Tick.Capacity.Bounds.{labor-le}
use jira_simulator.Tick.Owners.{AssignedVisit, assign_owners}
use jira_simulator.Tick.Advance.Cases.{IsWorked, advance_visit_cases}
use jira_simulator.Tick.Advance.{
  queue_cause, waiting, uncredited, Advanced, work_with, wait_visit, advance_visit, SegmentAdvance,
  advance_all, with_ranks, rank_le, advance_segment,
}

consumed-consume :
    (c : Consumption) (m d n m' d' : ℕ)
    → consumed (consume c m d n) m' d' ≡ (if m' == m && d' == d then n else consumed c m' d')
unfolding consumed consume
consumed-consume [] m d n m' d' = ground arith
consumed-consume ((i, j, k) ∷ rest) m d n m' d' = ground (arith, consumed-consume rest m d n m' d')

-- What a segment may take from the member with this id, given what is available and the ceiling.
pub record IsWithin (available ceiling before after : ℕ) : Type 0 where
  pub grows : before ≤ after
  pub within_segment : after ≤ before + available
  pub within_day : (after ≤ ceiling) ⊎ (after ≡ before)

module _ (F : Floats) (state : LiveTeamState F) (segment : Segment) (starting : Consumption)
    (identity : MemberIdentity) (member : MemberBlueprint F)
    (found : find (λ i. i.id == identity.id) state.member_identities ≡ some identity)
    (looked_up : member_of state identity ≡ ok member) where
  abbrev Within : Consumption → Type 0
  Within c =
      IsWithin (available_microseconds F state member identity.id segment)
        (daily_ceiling F state member identity.id segment)
        (consumed starting identity.id segment.business_date)
        (consumed c identity.id segment.business_date)

  consumption-work_with :
      (c : Consumption) (visit : StatusVisitState) (id : ℕ) (capacity : Capacity) (r : Advanced)
      → work_with F segment c visit id capacity ≡ ok r
      → (labor : ℕ) × (labor ≤ capacity.labor)
        × (r.consumption
            ≡ consume c id segment.business_date (consumed c id segment.business_date + labor))
  unfolding work_with
  consumption-work_with c visit id capacity r e =
      let credited = min capacity.labor visit.remaining_work_microseconds in
      let (cause, _, made) =
        >>=-eq-ok
          (queue_cause visit.id (some capacity.limiting_constraint)
            (uncredited segment visit credited))
          _ e in
      (credited, omega arith, ap (λ a. a.consumption) (sym (ok-injective made)))

  consumption-wait_visit :
      (c : Consumption) (a : AssignedVisit) (r : Advanced)
      → wait_visit F segment c a.visit a.denied_reason ≡ ok r
      → c ≡ r.consumption
  unfolding wait_visit
  consumption-wait_visit c a r e =
      let (cause, _, made) =
        >>=-eq-ok (queue_cause a.visit.id a.denied_reason (waiting segment a.visit)) _ e in
      ap (λ x. x.consumption) (ok-injective made)

  grow-Within :
      (c : Consumption) (labor : ℕ)
      → labor ≤ (segment_capacity F state member identity.id segment starting c).labor
      → Within c
      → Within (
          consume c identity.id segment.business_date
            (consumed c identity.id segment.business_date + labor))
  grow-Within c labor fits h =
      let bounds = labor-le F state member identity.id segment starting c in
      rw (consumed-consume, ==-self identity.id, ==-self segment.business_date) (omega arith)

  other-Within :
      (c : Consumption) (id n : ℕ)
      → identity.id == id ≡ false
      → Within c
      → Within (consume c id segment.business_date n)
  other-Within c id n other h = rw (consumed-consume, other) h

  same_member :
      (c : Consumption) (visit : StatusVisitState) (owner : ℕ) (r : Advanced)
      (w : IsWorked F state segment starting c visit owner r)
      → identity.id == w.identity.id ≡ true
      → (w.identity ≡ identity) × (w.member ≡ member)
  same_member c visit owner r w same =
      let owns =
        ==→eq w.identity.id owner (find-passes _ state.member_identities w.identity w.found) in
      let same_owner : identity.id ≡ owner = ==→eq _ _ same ∙ owns in
      let found_owner : find (λ i. i.id == owner) state.member_identities ≡ some identity =
        subst (λ n. find (λ i. i.id == n) state.member_identities ≡ some identity) same_owner
          found in
      let same_identity : w.identity ≡ identity = cc (w.found, found_owner) in
      (
        same_identity,
        ok-injective (sym w.looked_up ∙ ap (member_of state) same_identity ∙ looked_up),
      )

  work_visit-Within :
      (c : Consumption) (visit : StatusVisitState) (owner : ℕ) (r : Advanced)
      → IsWorked F state segment starting c visit owner r
      → Within c
      → Within r.consumption
  work_visit-Within c visit owner r w h =
      let (labor, fits, same) =
        consumption-work_with c visit w.identity.id
          (segment_capacity F state w.member w.identity.id segment starting c) r w.result in
      elim (Bool-cases (identity.id == w.identity.id)) [
        | inr other ↦ rw same (other-Within c w.identity.id _ other h)
        | inl e ↦
            let (same_identity, members) = same_member c visit owner r w e in
            rw (same, same_identity)
              (grow-Within c labor
                (subst
                  (λ m. labor ≤ (segment_capacity F state m identity.id segment starting c).labor)
                  members
                  (subst
                    (λ i. labor ≤ (segment_capacity F state w.member i.id segment starting c).labor)
                    same_identity fits))
                h)
      ]

  advance_visit-Within :
      (c : Consumption) (a : AssignedVisit) (r : Advanced)
      → advance_visit F state segment starting c a ≡ ok r
      → Within c
      → Within r.consumption
  advance_visit-Within c a r e h = elim (advance_visit_cases F state segment starting c a r e) [
    | inl same ↦ subst (λ x. Within x.consumption) same h
    | inr (inl waited) ↦ subst Within (consumption-wait_visit c a r waited) h
    | inr (inr (owner, _, w)) ↦ work_visit-Within c a.visit owner r w h
  ]

  advance_all-Within :
      (c : Consumption) (as_ : List AssignedVisit) (r : SegmentAdvance)
      → advance_all F state segment starting c as_ ≡ ok r
      → Within c
      → Within r.consumption
  unfolding advance_all
  advance_all-Within c [] r e h = subst (λ x. Within x.consumption) (ok-injective e) h
  advance_all-Within c (a ∷ more) r e h =
      let (one, first, e') = >>=-eq-ok (advance_visit F state segment starting c a) _ e in
      let (rest, later, made) =
        >>=-eq-ok (advance_all F state segment starting one.consumption more) _ e' in
      subst (λ x. Within x.consumption) (ok-injective made)
        (advance_all-Within one.consumption more rest later (advance_visit-Within c a one first h))

-- Over a segment the labor that a member has consumed on the business date never falls, grows by
-- at most what the member is available in the segment, and, if it grows at all, stays within the
-- member's daily ceiling.
pub advance_segment-IsWithin :
    (F : Floats) (state : LiveTeamState F) (visits : List StatusVisitState)
    (consumption : Consumption) (segment : Segment) (blocked : List ℕ) (r : SegmentAdvance)
    (identity : MemberIdentity) (member : MemberBlueprint F)
    → advance_segment F state visits consumption segment blocked ≡ ok r
    → find (λ i. i.id == identity.id) state.member_identities ≡ some identity
    → member_of state identity ≡ ok member
    → IsWithin
        (available_microseconds F state member identity.id segment)
        (daily_ceiling F state member identity.id segment)
        (consumed consumption identity.id segment.business_date)
        (consumed r.consumption identity.id segment.business_date)
unfolding advance_segment
advance_segment-IsWithin F state visits consumption segment blocked r identity member e found
      looked_up =
    let (ranked, _, e') =
      >>=-eq-ok (with_ranks state.work_items (keep_if (λ v. not (contains blocked v.id)) visits)) _
        e in
    let (assignments, _, e'') =
      >>=-eq-ok
        (assign_owners F state (map (λ (_, v). v) (sort_by rank_le ranked)) segment consumption) _
        e' in
    let (rest, later, made) =
      >>=-eq-ok (advance_all F state segment consumption consumption assignments) _ e'' in
    subst
      (λ x.
        IsWithin (available_microseconds F state member identity.id segment)
          (daily_ceiling F state member identity.id segment)
          (consumed consumption identity.id segment.business_date)
          (consumed x.consumption identity.id segment.business_date))
      (ok-injective made)
      (advance_all-Within F state segment consumption identity member found looked_up consumption
        assignments rest later (omega arith))
