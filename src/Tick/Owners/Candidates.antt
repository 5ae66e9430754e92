-- ===== src/Tick/Owners/Candidates.antt =====
-- The candidates for a visit have room below their limits.
use jira_simulator.Base.{
  ◌<◌, ◌≡◌, refl, subst, Bool, true, false, inl, inr, Option, none, some, List, [], ◌∷◌, Memᴰ, All,
  ltb→lt, Bool-cases,
}
use jira_simulator.Base.Result.{ok, >>=-eq-ok, ok-injective}
use jira_simulator.Tick.Numbers.{Floats}
use jira_simulator.Tick.{
  MemberBlueprint, MemberIdentity, StatusVisitState, LiveTeamState, Segment, member_of, Consumption,
}
use jira_simulator.Tick.Capacity.{proficiency_in}
use jira_simulator.Tick.Owners.{
  Retained, Candidate, Survey, survey_member, survey, best_of, outranks,
}

module _ (F : Floats) where
  open F use {Num}

  pub best_of-All {κ} :
      (P : Candidate F → Type κ) (c : Candidate F) (cs : List (Candidate F))
      → P c
      → All P cs
      → P (best_of F c cs)
  unfolding best_of
  best_of-All P c [] h hs = h
  best_of-All P c (d ∷ ds) h (hd, hs) = elim (Bool-cases (outranks F d c)) [
    | inl e ↦ rw e (best_of-All P d ds hd hs)
    | inr e ↦ rw e (best_of-All P c ds h hs)
  ]

  survey_member-All {κ} :
      (P : Candidate F → Type κ) (no_time full room : Bool) (c : Candidate F) (rest : Survey F)
      → (room ≡ true → P c)
      → All P rest.candidates
      → All P (survey_member F no_time full room c rest).candidates
  unfolding survey_member
  survey_member-All P true full room c rest h hs = hs
  survey_member-All P false true room c rest h hs = hs
  survey_member-All P false false true c rest h hs = (h refl, hs)
  survey_member-All P false false false c rest h hs = hs

  module _ (state : LiveTeamState F) (segment : Segment) (consumption : Consumption)
      (retained : Retained) (visit : StatusVisitState) where
    -- A candidate has room below its limit.
    abbrev pub HasRoom : Candidate F → Type 0
    HasRoom c =
        Memᴰ c.1 state.member_identities
        × (m : MemberBlueprint F) × (member_of state c.1 ≡ ok m)
        × (retained c.1.id < m.max_concurrent_wip)

    survey_elim-All :
        (no_time full room : Bool) (p : Option Num) (identity : MemberIdentity) (later : Survey F)
        → (room ≡ true → (n : Num) → HasRoom (n, identity))
        → All HasRoom later.candidates
        → All HasRoom (
            let s : Survey F = elim p [
              | none ↦ later
              | some n ↦ survey_member F no_time full room (n, identity) later
            ] in
            s.candidates)
    survey_elim-All no_time full room none identity later h hs = hs
    survey_elim-All no_time full room (some n) identity later h hs =
        survey_member-All HasRoom no_time full room (n, identity) later (λ e. h e n) hs

    pub survey-HasRoom :
        (identities : List MemberIdentity) (s : Survey F)
        → All (λ i. Memᴰ i state.member_identities) identities
        → survey F state segment consumption retained visit identities ≡ ok s
        → All HasRoom s.candidates
    unfolding survey
    survey-HasRoom [] s m e = subst (λ t. All HasRoom t.candidates) (ok-injective e) tt
    survey-HasRoom (identity ∷ rest) s (m, ms) e =
        let (member, looked_up, e') = >>=-eq-ok (member_of state identity) _ e in
        let (later, surveyed, made) =
          >>=-eq-ok (survey F state segment consumption retained visit rest) _ e' in
        subst (λ t. All HasRoom t.candidates) (ok-injective made)
          (survey_elim-All _ _ _ (proficiency_in F member.responsibilities visit.activity_key)
            identity later (λ room n. (m, member, looked_up, ltb→lt _ _ room))
            (survey-HasRoom rest later ms surveyed))
