-- ===== src/Lifecycle/Crossing.antt =====
-- What happens when a boundary is crossed: the start of a planned sprint, a rollover, or nothing.
use jira_simulator.Base.{
  ℕ, ◌≡◌, refl, sym, ◌∙◌, ap, subst, Bool, true, false, inl, inr, Option, none, some, List, [], ◌∷◌,
  Memᴰ, All, All-map, All-zip, All-find, All-Memᴰ, find-passes, find, flat_map, Bool-cases, &&-true,
  ==→eq, arith,
}
use jira_simulator.Base.Result.{ok, >>=-eq-ok, ok-injective}
use jira_simulator.State.Names.{Runtime}
use jira_simulator.State.Sprints.{SprintState, is_sprint_planned, is_sprint_active, sprint_checks}
use jira_simulator.State.Collections.{ScrumState}
use jira_simulator.State.Validation.{collection_checks}
use jira_simulator.Lifecycle.{LiveTeamState, Services, made}
use jira_simulator.Lifecycle.Scope.{
  ordered_ids, scope_entries, activate_selected_work, visit_claims,
}
use jira_simulator.Lifecycle.Boundary.{
  PlannedScope, planned_scope, visit_of, activated_sprint, activate_planned_sprint, write_set_of,
  cross_sprint_boundary, empty_transition, starts_at, ends_at, cross,
}
use jira_simulator.Lifecycle.Intents.{SprintTransition}
use jira_simulator.Lifecycle.Rollover.{
  IsRollover, roll_active_sprint-IsRollover, made-ok, IsScopeOf, scope_entries-IsScopeOf,
}

-- The sprint is planned to start at the instant.
abbrev pub IsDueToStart : ℕ → SprintState → Type 0
IsDueToStart instant s = (is_sprint_planned s.lifecycle ≡ true) × (s.planned_start_at ≡ instant)

-- The sprint is active and planned to end at the instant.
abbrev pub IsDueToEnd : ℕ → SprintState → Type 0
IsDueToEnd instant s = (is_sprint_active s.lifecycle ≡ true) × (s.planned_end_at ≡ instant)

-- One of the sprints has the property.
abbrev pub HasSprint : (SprintState → Type 0) → List SprintState → SprintState → Type 0
HasSprint P sprints s = Memᴰ s sprints × P s

-- What the start of a planned sprint leaves: the sprint active, with the scope that was selected.
pub record IsStart {R : Runtime} (services : Services R) (state : LiveTeamState R)
    (sprint : SprintState) (instant : ℕ) (t : SprintTransition R) : Type 0 where
  pub sprints : t.state.sprints ≡ activated_sprint sprint instant ∷ []
  pub taken :
      IsScopeOf sprint.id instant (ordered_ids services state sprint.id) t.state.sprint_scope

-- What happens at an instant.
pub data IsCrossing {R : Runtime} (services : Services R) (state : LiveTeamState R) (instant : ℕ)
    (t : SprintTransition R) : Type 0 where
  starts :
      (s : SprintState)
      → HasSprint (IsDueToStart instant) state.scrum.sprints s
      → IsStart services state s instant t
      → IsCrossing services state instant t
  rolls :
      (s : SprintState)
      → All (λ u. ¬ IsDueToStart instant u) state.scrum.sprints
      → HasSprint (IsDueToEnd instant) state.scrum.sprints s
      → IsRollover state s instant t
      → IsCrossing services state instant t
  rests :
      All (λ u. (¬ IsDueToStart instant u) × (¬ IsDueToEnd instant u)) state.scrum.sprints
      → t ≡ empty_transition
      → IsCrossing services state instant t

find-lost {ℓ} :
    {A : Type ℓ} (p : A → Bool) (xs : List A) → find p xs ≡ none → All (λ x. p x ≡ false) xs
find-lost p [] h = tt
find-lost p (x ∷ xs) h = elim (Bool-cases (p x)) [
  | inl e ↦ let impossible : some x ≡ none = rw e at h in cc
  | inr e ↦ (e, find-lost p xs (rw e at h))
]

find-HasSprint :
    (p : SprintState → Bool) (xs : List SprintState) (s : SprintState)
    → find p xs ≡ some s
    → Memᴰ s xs × (p s ≡ true)
find-HasSprint p xs s h = (All-find (λ x. Memᴰ x xs) p xs s (All-Memᴰ xs) h, find-passes p xs s h)

not_starting :
    (instant : ℕ) (s : SprintState) → starts_at instant s ≡ false → ¬ IsDueToStart instant s
not_starting instant s h (planned, at) =
    let impossible : true ≡ false = ground (arith, h, planned, at) in cc (impossible)

not_ending : (instant : ℕ) (s : SprintState) → ends_at instant s ≡ false → ¬ IsDueToEnd instant s
not_ending instant s h (active, at) =
    let impossible : true ≡ false = ground (arith, h, active, at) in cc (impossible)

module _ {R : Runtime} (services : Services R) (state : LiveTeamState R) where
  planned_scope-IsScopeOf :
      (sprint_id boundary : ℕ) (ids : List ℕ) (plan : PlannedScope R)
      → planned_scope services state sprint_id ids boundary ≡ ok plan
      → IsScopeOf sprint_id boundary ids plan.scope
  unfolding planned_scope
  planned_scope-IsScopeOf sprint_id boundary ids plan h =
      let (activations, _, h1) =
        >>=-eq-ok (activate_selected_work services ids boundary state.scrum.work_items) _ h in
      let (entries, e, h2) = >>=-eq-ok (scope_entries services state sprint_id boundary ids) _ h1 in
      let (claims, _, h3) =
        >>=-eq-ok (visit_claims services state (flat_map visit_of activations)) _ h2 in
      subst (λ (p : PlannedScope R). IsScopeOf sprint_id boundary ids p.scope) (ok-injective h3)
        (scope_entries-IsScopeOf services state sprint_id boundary ids entries e)

  activate_planned_sprint-IsStart :
      (sprint : SprintState) (boundary : ℕ) (t : SprintTransition R)
      → activate_planned_sprint services state sprint boundary ≡ ok t
      → IsStart services state sprint boundary t
  unfolding activate_planned_sprint
  activate_planned_sprint-IsStart sprint boundary t h =
      let ids = ordered_ids services state sprint.id in
      let (plan, e1, h1) = >>=-eq-ok (planned_scope services state sprint.id ids boundary) _ h in
      let started = activated_sprint sprint boundary in
      let (activated, e2, h2) = >>=-eq-ok (made (sprint_checks R started) started) _ h1 in
      let written = write_set_of (activated ∷ []) plan.scope plan in
      let (write_set, e3, h3) = >>=-eq-ok (made (collection_checks written) written) _ h2 in
      let (_, same) = made-ok (collection_checks written) written write_set e3 in
      let (_, same_sprint) = made-ok (sprint_checks R started) started activated e2 in
      let stated : written ≡ t.state =
        same ∙ ap (λ (u : SprintTransition R). u.state) (ok-injective h3) in
      record {
        sprints = ap (λ (s : ScrumState R). s.sprints) (sym stated) ∙ (λ k. sym same_sprint k ∷ []);
        taken =
            subst (λ (s : ScrumState R). IsScopeOf sprint.id boundary ids s.sprint_scope) stated
              (planned_scope-IsScopeOf sprint.id boundary ids plan e1);
      }

  -- Crossing a boundary that returns starts a sprint that is planned for the instant, active and
  -- with the scope that is selected for it; without such a sprint it rolls over an active sprint
  -- that is planned to end at the instant; and it leaves everything as it is exactly when there is
  -- neither.
  pub cross_sprint_boundary-IsCrossing :
      (instant : ℕ) (t : SprintTransition R)
      → cross_sprint_boundary services state instant ≡ ok t
      → IsCrossing services state instant t
  unfolding cross_sprint_boundary
  cross_sprint_boundary-IsCrossing instant t h =
      cases (find (starts_at instant) sprints) (find (ends_at instant) sprints) refl refl h
    where
      sprints : List SprintState
      sprints = state.scrum.sprints

      cases :
          (planned active : Option SprintState)
          → find (starts_at instant) state.scrum.sprints ≡ planned
          → find (ends_at instant) state.scrum.sprints ≡ active
          → cross services state instant planned active ≡ ok t
          → IsCrossing services state instant t
      cases (some s) active found _ e =
          let (m, starting) = find-HasSprint (starts_at instant) state.scrum.sprints s found in
          let (planned, at) = &&-true _ _ starting in
          IsCrossing.starts s (m, (planned, ==→eq s.planned_start_at instant at))
            (activate_planned_sprint-IsStart s instant t e)
      cases none (some s) lost found e =
          let (m, ending) = find-HasSprint (ends_at instant) state.scrum.sprints s found in
          let (active, at) = &&-true _ _ ending in
          IsCrossing.rolls s
            (All-map state.scrum.sprints (not_starting instant)
              (find-lost (starts_at instant) state.scrum.sprints lost))
            (m, (active, ==→eq s.planned_end_at instant at))
            (roll_active_sprint-IsRollover services state s instant t e)
      cases none none lost lost' e =
          IsCrossing.rests
            (All-zip _ _ state.scrum.sprints
              (All-map state.scrum.sprints (not_starting instant)
                (find-lost (starts_at instant) state.scrum.sprints lost))
              (All-map state.scrum.sprints (not_ending instant)
                (find-lost (ends_at instant) state.scrum.sprints lost')))
            (sym (ok-injective e))
