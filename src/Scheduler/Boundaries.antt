-- ===== src/Scheduler/Boundaries.antt =====
-- The next fixed boundary of a team, and whether it has caught up.
use jira_simulator.Base.{
  ℕ, ◌≤◌, ◌<◌, ◌≡◌, refl, sym, subst, inl, inr, Bool, true, false, not, ◌&&◌, ◌||◌, Option, none,
  some, is_some, List, [], ◌∷◌, ◌++◌, Memᴰ, arith, leb, leb→le, ◌==◌, Bool-cases, Option-cases, All,
  All-map, All-flat_map_inv, leb-false→lt, ◌∙◌, ◌+◌, ◌⊎◌, flat_map, min, if◌then◌else◌,
}
use jira_simulator.State.Sprints.{SprintState, SprintLifecycle, is_sprint_planned, is_sprint_active}
use jira_simulator.Lifecycle.Boundary.{starts_at, ends_at}

-- `_boundary_for`
abbrev pub boundary_for : SprintState → Option ℕ
boundary_for s =
    if is_sprint_planned s.lifecycle
    then some s.planned_start_at
    else if is_sprint_active s.lifecycle
    then some s.planned_end_at
    else none

abbrev pub within : ℕ → ℕ → ℕ → Bool
within cursor as_of instant = leb cursor instant && leb instant as_of

abbrev boundary_within : ℕ → ℕ → Option ℕ → List ℕ
boundary_within cursor as_of none = []
boundary_within cursor as_of (some instant) =
    if within cursor as_of instant then instant ∷ [] else []

-- The comprehension of `_next_boundary`; `cursor` is the simulation time.
abbrev pub boundaries : ℕ → ℕ → List SprintState → List ℕ
boundaries cursor as_of sprints =
    flat_map (λ s. boundary_within cursor as_of (boundary_for s)) sprints

-- `min(boundaries) if boundaries else None`
abbrev pub minimum : List ℕ → Option ℕ
minimum [] = none
minimum (x ∷ xs) = elim (minimum xs) [ none ↦ some x | some y ↦ some (min x y) ]

unfoldable pub next_boundary : ℕ → ℕ → List SprintState → Option ℕ
next_boundary cursor as_of sprints = minimum (boundaries cursor as_of sprints)

-- `_caught_up`
unfoldable pub caught_up : ℕ → ℕ → List SprintState → Bool
unfolding next_boundary
caught_up simulation_time as_of sprints =
    leb as_of simulation_time && not (is_some (next_boundary simulation_time as_of sprints))

-- A sprint whose start or end `cross_sprint_boundary` takes up at this instant.
abbrev pub Crosses : ℕ → SprintState → Type 0
Crosses instant s = (starts_at instant s || ends_at instant s) ≡ true

-- The earliest of the boundaries in the span, if there is one.
abbrev pub IsEarliest : ℕ → ℕ → List SprintState → Option ℕ → Type 0
IsEarliest cursor as_of sprints none =
    All (λ s. (b : ℕ) → cursor ≤ b → b ≤ as_of → (starts_at b s || ends_at b s) ≡ false) sprints
IsEarliest cursor as_of sprints (some instant) =
    (cursor ≤ instant)
    × (instant ≤ as_of)
    × ((s : SprintState) × Memᴰ s sprints × Crosses instant s)
    × All (λ s. (b : ℕ) → cursor ≤ b → b < instant → (starts_at b s || ends_at b s) ≡ false) sprints

crosses_at : ℕ → Option ℕ → Bool
crosses_at b none = false
crosses_at b (some instant) = instant == b

crosses_lem :
    (b start end_ : ℕ) (l : SprintLifecycle)
    → ((is_sprint_planned l && start == b) || (is_sprint_active l && end_ == b))
      ≡ crosses_at b (
          if is_sprint_planned l
          then some start
          else if is_sprint_active l
          then some end_
          else none)
unfolding crosses_at
crosses_lem b start end_ SprintLifecycle.planned = ground arith
crosses_lem b start end_ SprintLifecycle.active = ground arith
crosses_lem b start end_ SprintLifecycle.completed = ground arith

minimum-none : (xs : List ℕ) → minimum xs ≡ none → xs ≡ []
minimum-none [] h = refl
minimum-none (x ∷ xs) h = elim (Option-cases (minimum xs)) [
  | inl e ↦ let found : some x ≡ none = rw e at h in cc
  | inr (y, e) ↦ let found : some (min x y) ≡ none = rw e at h in cc
]

-- The least of some numbers.
abbrev IsLeast : List ℕ → ℕ → Type 0
IsLeast xs m = Memᴰ m xs × All (λ x. m ≤ x) xs

minimum-IsLeast : (xs : List ℕ) (m : ℕ) → minimum xs ≡ some m → IsLeast xs m
minimum-IsLeast [] m h = cc
minimum-IsLeast (x ∷ xs) m h = elim (Option-cases (minimum xs)) [
  | inl e ↦
      let found : some x ≡ some m = rw e at h in
      let same : x ≡ m = cc in
      let alone = minimum-none xs e in
      subst (λ ys. IsLeast (x ∷ ys) m) (sym alone) (Memᴰ.head (sym same), (omega (arith, same), tt))
  | inr (y, e) ↦
      let found : some (min x y) ≡ some m = rw e at h in
      let same : min x y ≡ m = cc in
      let (member, below) = minimum-IsLeast xs y e in
      let others : All (λ z. m ≤ z) xs = All-map xs (λ z hz. omega (arith, hz, same)) below in
      elim (Bool-cases (leb x y)) [
        | inl first ↦
            (Memᴰ.head (omega (arith, same, leb→le x y first)), (omega (arith, same), others))
        | inr later ↦
            let rest : y ≡ m = omega (arith, same, leb-false→lt x y later) in
            (Memᴰ.tail (subst (λ z. Memᴰ z xs) rest member), (omega (arith, same), others))
      ]
]

Mem-append : (x : ℕ) (xs ys : List ℕ) → Memᴰ x (xs ++ ys) → Memᴰ x xs ⊎ Memᴰ x ys
Mem-append x [] ys m = inr m
Mem-append x (z ∷ xs) ys (Memᴰ.head e) = inl (Memᴰ.head e)
Mem-append x (z ∷ xs) ys (Memᴰ.tail m) = elim (Mem-append x xs ys m) [
  | inl m' ↦ inl (Memᴰ.tail m')
  | inr m' ↦ inr m'
]

boundary_within-cases :
    (cursor as_of m : ℕ) (o : Option ℕ)
    → Memᴰ m (boundary_within cursor as_of o)
    → (cursor ≤ m) × (m ≤ as_of) × (crosses_at m o ≡ true)
unfolding crosses_at
boundary_within-cases cursor as_of m none h = elim h [ ]
boundary_within-cases cursor as_of m (some b) h = elim (Bool-cases (within cursor as_of b)) [
  | inr e ↦ let gone : Memᴰ m [] = rw e at h in elim gone [ ]
  | inl e ↦
      let found : Memᴰ m (b ∷ []) = rw e at h in
      let same = only m b found in
      (ground (arith, same, e), ground (arith, same, e), ground (arith, same))
]
  where
    only : (m b : ℕ) → Memᴰ m (b ∷ []) → m ≡ b
    only m b (Memᴰ.head p) = p
    only m b (Memᴰ.tail r) = elim r [ ]

boundaries-found :
    (cursor as_of m : ℕ) (sprints : List SprintState)
    → Memᴰ m (boundaries cursor as_of sprints)
    → (cursor ≤ m) × (m ≤ as_of) × ((s : SprintState) × Memᴰ s sprints × Crosses m s)
boundaries-found cursor as_of m [] h = elim h [ ]
boundaries-found cursor as_of m (s ∷ rest) h =
    elim (Mem-append m (boundary_within cursor as_of (boundary_for s))
      (boundaries cursor as_of rest) h) [
        | inl here ↦
            let (from, to, crosses) = boundary_within-cases cursor as_of m (boundary_for s) here in
            (
              from,
              to,
              (
                s,
                Memᴰ.head refl,
                crosses_lem m s.planned_start_at s.planned_end_at s.lifecycle ∙ crosses,
              ),
            )
        | inr there ↦
            let (from, to, (s', m', crosses)) = boundaries-found cursor as_of m rest there in
            (from, to, (s', Memᴰ.tail m', crosses))
      ]

not_earlier :
    (cursor as_of m b : ℕ) (o : Option ℕ)
    → All (λ x. m ≤ x) (boundary_within cursor as_of o)
    → cursor ≤ b
    → b ≤ as_of
    → b < m
    → crosses_at b o ≡ false
unfolding crosses_at
not_earlier cursor as_of m b none h from to before = refl
not_earlier cursor as_of m b (some x) h from to before = elim (Bool-cases (x == b)) [
  | inr e ↦ e
  | inl e ↦
      let inside : within cursor as_of x ≡ true = ground (arith, e, from, to) in
      let (above, _) = rw inside at h in
      let impossible : true ≡ false = ground (arith, above, before, e) in cc (impossible)
]

-- The next boundary is the earliest instant of the span at which `cross_sprint_boundary` finds a
-- sprint to start or to end; where there is none it finds no sprint in the whole span.
pub next_boundary-IsEarliest :
    (cursor as_of : ℕ) (sprints : List SprintState)
    → IsEarliest cursor as_of sprints (next_boundary cursor as_of sprints)
unfolding next_boundary
next_boundary-IsEarliest cursor as_of sprints =
    elim (Option-cases (minimum (boundaries cursor as_of sprints))) [
      | inl e ↦
          let nothing = minimum-none (boundaries cursor as_of sprints) e in
          let below : All (λ x. as_of + 1 ≤ x) (boundaries cursor as_of sprints) =
            subst (All (λ x. as_of + 1 ≤ x)) (sym nothing) tt in
          rw e (
            All-map sprints
              (λ s h b from to.
                crosses_lem b s.planned_start_at s.planned_end_at s.lifecycle
                ∙ not_earlier cursor as_of (as_of + 1) b (boundary_for s) h from to
                    (omega (arith, to)))
              (All-flat_map_inv (λ x. as_of + 1 ≤ x) _ sprints below))
      | inr (m, e) ↦
          let (member, below) = minimum-IsLeast (boundaries cursor as_of sprints) m e in
          let (from, to, found) = boundaries-found cursor as_of m sprints member in
          rw e (
            from,
            to,
            found,
            All-map sprints
                (λ s h b from' before.
                  crosses_lem b s.planned_start_at s.planned_end_at s.lifecycle
                  ∙ not_earlier cursor as_of m b (boundary_for s) h from'
                      (omega (arith, before, to)) before)
                (All-flat_map_inv (λ x. m ≤ x) _ sprints below),
          )
    ]
