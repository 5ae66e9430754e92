-- ===== src/Engine/Moves/Targets.antt =====
-- Where `roll_direction` sends an item back to.
use jira_simulator.Base.{
  ℕ, String, ◌≡◌, refl, subst, Bool, true, false, ◌&&◌, ◌||◌, inl, inr, Option, none, some, List,
  [], ◌∷◌, All, All-map, All-Memᴰ, Memᴰ, Bool-cases, Option-cases, if◌then◌else◌, ◌==◌, arith,
}
use jira_simulator.Engine.{Runtime, WorkflowStep, MoveLeftTarget, MoveLeftConfig}
use jira_simulator.Engine.Moves.{
  of_kind, of_any, Direction, forward, left, matching, total_weight, pick_target, roll_target,
  roll_direction,
}

module _ (R : Runtime) where
  open R use {Num, zero as no_time, less_eq, plus, times, Rng, random}

  -- The configuration is for moves from the step, by issues of the kind or of any kind.
  abbrev pub applies : String → WorkflowStep → MoveLeftConfig R → Bool
  applies kind step c =
      c.from_step_id == step.id && (of_kind kind c.issue_type || of_any c.issue_type)

  abbrev Holds : (MoveLeftConfig R → Type 0) → Option (MoveLeftConfig R) → Type 0
  Holds P none = Unit {0}
  Holds P (some c) = P c

  Holds-choice :
      (P : MoveLeftConfig R → Type 0) (b : Bool) (c : MoveLeftConfig R)
      (o : Option (MoveLeftConfig R))
      → (b ≡ true → P c)
      → Holds P o
      → Holds P (if b then some c else o)
  Holds-choice P true c o h h' = h refl
  Holds-choice P false c o h h' = h'

  matching-Holds :
      (P : MoveLeftConfig R → Type 0) (kind : String) (step : WorkflowStep)
      (cs : List (MoveLeftConfig R)) (specific generic : Option (MoveLeftConfig R))
      → Holds P specific
      → Holds P generic
      → All (λ c. applies kind step c ≡ true → P c) cs
      → Holds P (matching R kind step specific generic cs)
  unfolding matching
  matching-Holds P kind step [] (some c) generic h h' _ = h
  matching-Holds P kind step [] none generic h h' _ = h'
  matching-Holds P kind step (c ∷ cs) specific generic h h' (hc, hs) =
      let here = c.from_step_id == step.id in
      matching-Holds P kind step cs (if here && of_kind kind c.issue_type then some c else specific)
        (if here && of_any c.issue_type then some c else generic)
        (Holds-choice P (here && of_kind kind c.issue_type) c specific (λ e. hc (ground (arith, e)))
          h)
        (Holds-choice P (here && of_any c.issue_type) c generic (λ e. hc (ground (arith, e))) h') hs

  -- One of the targets is the step that is picked.
  abbrev pub IsTarget : ℕ → List (MoveLeftTarget R) → Type 0
  IsTarget x ts = (t : MoveLeftTarget R) × Memᴰ t ts × (t.to_step_id ≡ x)

  -- Every direction that goes left goes to a target.
  abbrev Lands : List (MoveLeftTarget R) → Direction → Type 0
  Lands ts forward = Unit {0}
  Lands ts (left x) = IsTarget x ts

  Lands-later :
      (t : MoveLeftTarget R) (ts : List (MoveLeftTarget R)) (d : Direction)
      → Lands ts d
      → Lands (t ∷ ts) d
  Lands-later t ts forward h = tt
  Lands-later t ts (left x) (u, m, e) = (u, Memᴰ.tail m, e)

  pick_target-Lands :
      (roll cumulative : Num) (t : MoveLeftTarget R) (ts : List (MoveLeftTarget R))
      → Lands (t ∷ ts) (pick_target R roll cumulative t ts)
  unfolding pick_target
  pick_target-Lands roll cumulative t [] = (t, Memᴰ.head refl, refl)
  pick_target-Lands roll cumulative t (u ∷ us) =
      elim (Bool-cases (less_eq roll (plus cumulative t.weight))) [
        | inl e ↦ rw e (t, Memᴰ.head refl, refl)
        | inr e ↦
            rw e (Lands-later t (u ∷ us) _ (pick_target-Lands roll (plus cumulative t.weight) u us))
      ]

  roll_target-Lands : (ts : List (MoveLeftTarget R)) (rng : Rng) → Lands ts (roll_target R ts rng).0
  unfolding roll_target
  roll_target-Lands [] rng = tt
  roll_target-Lands (t ∷ ts) rng =
      elim (Bool-cases (less_eq (total_weight R no_time (t ∷ ts)) no_time)) [
        | inl e ↦ rw e tt
        | inr e ↦ rw e (pick_target-Lands _ no_time t ts)
      ]

  Chosen : String → WorkflowStep → List (MoveLeftConfig R) → MoveLeftConfig R → Type 0
  Chosen kind step configs c = Memᴰ c configs × (applies kind step c ≡ true)

  matching-Chosen :
      (kind : String) (step : WorkflowStep) (configs : List (MoveLeftConfig R))
      → Holds (Chosen kind step configs) (matching R kind step none none configs)
  unfolding Chosen
  matching-Chosen kind step configs =
      matching-Holds (Chosen kind step configs) kind step configs none none tt tt
        (All-map configs (λ c m e. (m, e)) (All-Memᴰ configs))

  -- A direction that goes left is to a target of a configuration of the list, which is for moves
  -- from the step by issues of the kind or of any kind, and the number that was drawn is below its
  -- probability.
  pub roll_direction-IsTarget :
      (kind : String) (step : WorkflowStep) (configs : List (MoveLeftConfig R)) (rng : Rng) (x : ℕ)
      → (roll_direction R kind step configs rng).0 ≡ left x
      → (c : MoveLeftConfig R) × Memᴰ c configs
        × (applies kind step c ≡ true)
        × (less_eq c.base_probability (random rng).0 ≡ false)
        × IsTarget x c.targets
  unfolding roll_direction Chosen
  roll_direction-IsTarget kind step configs rng x e =
      elim (Option-cases (matching R kind step none none configs)) [
        | inl nothing ↦ cc (rw (nothing, roll_direction) at e)
        | inr (c, found) ↦
            let (member, applied) =
              subst (Holds (Chosen kind step configs)) found (matching-Chosen kind step configs) in
            elim (Bool-cases (less_eq c.base_probability (random rng).0)) [
              | inl stays ↦ cc (rw (found, roll_direction, stays) at e)
              | inr moves ↦
                  let lands : (roll_target R c.targets (random rng).1).0 ≡ left x =
                    rw (found, roll_direction, moves) at e in
                  (
                    c,
                    member,
                    applied,
                    moves,
                    subst (Lands c.targets) lands (roll_target-Lands c.targets (random rng).1),
                  )
            ]
      ]
