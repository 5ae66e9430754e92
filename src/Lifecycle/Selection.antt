-- ===== src/Lifecycle/Selection.antt =====
-- What the two selections of a rollover take: unfinished work, and backlog up to the capacity.
use jira_simulator.Base.{
  ℕ, ◌+◌, ◌≤◌, ◌<◌, ◌⊎◌, ◌++◌, leb, keep_if, ◌≡◌, refl, ap, subst, inl, inr, true, false, List, [],
  ◌∷◌, Memᴰ, arith, ◌==◌, Bool-cases, Option-cases, ==→eq, All, All-map, All-Memᴰ, find_last,
  find_last-found, sort_by, sort_by-All,
}
use jira_simulator.Base.Result.{ok, raised, >>=-eq-ok, ok-injective}
use jira_simulator.State.Work.{WorkItemState}
use jira_simulator.State.Sprints.{SprintScopeEntry}
use jira_simulator.Lifecycle.{Fault}
use jira_simulator.Lifecycle.Scope.{
  is_backlog, is_work_active, work_by_id, carried, is_full, select_backlog, rank_le,
}

-- The identifier of an unfinished item of the list.
abbrev pub IsActiveWork : List WorkItemState → ℕ → Type 0
IsActiveWork items i =
    (w : WorkItemState) × Memᴰ w items × (w.id ≡ i) × (is_work_active w.lifecycle ≡ true)

abbrev pub IsBacklogWork : List WorkItemState → ℕ → Type 0
IsBacklogWork items i =
    (w : WorkItemState) × Memᴰ w items × (w.id ≡ i) × (is_backlog w.lifecycle ≡ true)

work_by_id-found :
    (items : List WorkItemState) (i : ℕ) (w : WorkItemState)
    → work_by_id items i ≡ ok w
    → Memᴰ w items × (w.id ≡ i)
work_by_id-found items i w h = elim (Option-cases (find_last (λ v. v.id == i) items)) [
  | inl e ↦ let fails : raised Fault.key_error ≡ ok w = rw (e, work_by_id) at h in cc
  | inr (v, e) ↦
      let found : ok v ≡ ok w = rw (e, work_by_id) at h in
      let (m, named) = find_last-found _ items v e in
      (subst (λ u. Memᴰ u items × (u.id ≡ i)) (ok-injective found) (m, ==→eq v.id i named))
]

-- An entry with the property stands behind the identifier, and its item is unfinished.
abbrev pub ComesFrom : (SprintScopeEntry → Type 0) → List WorkItemState → ℕ → Type 0
ComesFrom P items i = ((e : SprintScopeEntry) × P e × (e.work_item_id ≡ i)) × IsActiveWork items i

-- What is carried over is unfinished work of these entries.
pub carried-ComesFrom :
    (P : SprintScopeEntry → Type 0) (items : List WorkItemState) (entries : List SprintScopeEntry)
    (ids : List ℕ)
    → carried items entries ≡ ok ids
    → All P entries
    → All (ComesFrom P items) ids
carried-ComesFrom P items [] ids h _ = subst (All (ComesFrom P items)) (ok-injective h) tt
carried-ComesFrom P items (e ∷ rest) ids h (here, hs) =
    let (work, found, h') = >>=-eq-ok (work_by_id items e.work_item_id) _ h in
    let (later, known, h'') = >>=-eq-ok (carried items rest) _ h' in
    let (m, named) = work_by_id-found items e.work_item_id work found in
    let others = carried-ComesFrom P items rest later known hs in
    subst (All (ComesFrom P items)) (ok-injective h'')
      (elim (Bool-cases (is_work_active work.lifecycle)) [
        | inl running ↦ rw running (((e, here, refl), (work, m, named, running)), others)
        | inr over ↦ rw over others
      ])

select_backlog-All :
    (P : WorkItemState → Type 0) (minimum target : ℕ) (items : List WorkItemState) (used : ℕ)
    → All P items
    → All (λ w. P w × (is_backlog w.lifecycle ≡ true)) (select_backlog minimum target items used)
select_backlog-All P minimum target [] used h = tt
select_backlog-All P minimum target (item ∷ rest) used (hx, hs) =
    elim (Bool-cases (is_backlog item.lifecycle)) [
      | inr out ↦ rw out (select_backlog-All P minimum target rest used hs)
      | inl inside ↦ elim (Bool-cases (is_full minimum target used item.story_points)) [
        | inl full ↦ rw (inside, full) tt
        | inr room ↦
            rw (inside, room)
              ((hx, inside), select_backlog-All P minimum target rest (used + item.story_points) hs)
      ]
    ]

pub select_backlog-IsBacklogWork :
    (minimum target : ℕ) (items : List WorkItemState) (used : ℕ)
    → All
        (λ w. IsBacklogWork items w.id)
        (select_backlog minimum target (sort_by rank_le items) used)
select_backlog-IsBacklogWork minimum target items used =
    All-map _ (λ w (m, inside). (w, m, refl, inside))
      (select_backlog-All (λ w. Memᴰ w items) minimum target (sort_by rank_le items) used
        (sort_by-All rank_le (λ w. Memᴰ w items) items (All-Memᴰ items)))

abbrev pub points : List WorkItemState → ℕ
points [] = 0
points (w ∷ ws) = w.story_points + points ws

room_lem :
    (minimum target used points_ : ℕ)
    → is_full minimum target used points_ ≡ false
    → (used + points_ ≤ target) ⊎ (used < minimum)
room_lem minimum target used points_ h = elim (Bool-cases (leb minimum used)) [
  | inl met ↦ inl (ground (arith, h, met))
  | inr below ↦ inr (ground (arith, below))
]

-- Whether an item may be added: it fits the target, or the minimum is not met.
abbrev pub IsTakable : ℕ → ℕ → ℕ → WorkItemState → Type 0
IsTakable minimum target used item = (used + item.story_points ≤ target) ⊎ (used < minimum)

-- Each item may be added after those before it.
abbrev pub AllTakable : ℕ → ℕ → ℕ → List WorkItemState → Type 0
AllTakable minimum target used [] = Unit
AllTakable minimum target used (w ∷ ws) =
    IsTakable minimum target used w × AllTakable minimum target (used + w.story_points) ws

-- The first of the items that are left, if there is one, could not be added.
abbrev pub IsStop : ℕ → ℕ → ℕ → List WorkItemState → Type 0
IsStop minimum target used [] = Unit
IsStop minimum target used (w ∷ ws) = (minimum ≤ used) × (target < used + w.story_points)

-- A selection from the items, with the backlog that is left.
pub record IsSelection (minimum target used : ℕ) (items selected : List WorkItemState)
    : Type 0 where
  pub left : List WorkItemState
  pub prefix : keep_if (λ w. is_backlog w.lifecycle) items ≡ selected ++ left
  pub takable : AllTakable minimum target used selected
  pub stop : IsStop minimum target (used + points selected) left

-- What a sprint takes on is the first of the backlog in its order: each item fits the target of the
-- capacity or is added while the minimum is not met, and the first item that is left, if there is
-- one, would exceed the target once the minimum is met.
pub select_backlog-IsSelection :
    (minimum target : ℕ) (items : List WorkItemState) (used : ℕ)
    → IsSelection minimum target used items (select_backlog minimum target items used)
select_backlog-IsSelection minimum target [] used = record {
  left = [];
  prefix = refl;
  takable = tt;
  stop = tt;
}
select_backlog-IsSelection minimum target (item ∷ rest) used =
    elim (Bool-cases (is_backlog item.lifecycle)) [
      | inr out ↦
          let later = select_backlog-IsSelection minimum target rest used in
          rw out record {
            left = later.left;
            prefix = rw out later.prefix;
            takable = later.takable;
            stop = later.stop;
          }
      | inl inside ↦ elim (Bool-cases (is_full minimum target used item.story_points)) [
        | inl full ↦
            rw (inside, full)
              record {
                left = item ∷ keep_if (λ w. is_backlog w.lifecycle) rest;
                prefix = rw inside refl;
                takable = tt;
                stop = ground (arith, full);
              }
        | inr room ↦
            let later = select_backlog-IsSelection minimum target rest (used + item.story_points) in
            let sum = points (select_backlog minimum target rest (used + item.story_points)) in
            let same : used + item.story_points + sum ≡ used + (item.story_points + sum) =
              omega arith in
            rw (inside, room)
              record {
                left = later.left;
                prefix = rw inside (ap (λ l. item ∷ l) later.prefix);
                takable = (room_lem minimum target used item.story_points room, later.takable);
                stop = subst (λ n. IsStop minimum target n later.left) same later.stop;
              }
      ]
    ]

-- Each entry's item is known, and carried over when it is unfinished.
abbrev pub IsCarried : List WorkItemState → List ℕ → SprintScopeEntry → Type 0
IsCarried items ids e =
    (w : WorkItemState) × Memᴰ w items
    × (w.id ≡ e.work_item_id)
    × (is_work_active w.lifecycle ≡ true → Memᴰ e.work_item_id ids)

pub carried-IsCarried :
    (items : List WorkItemState) (entries : List SprintScopeEntry) (ids : List ℕ)
    → carried items entries ≡ ok ids
    → All (IsCarried items ids) entries
carried-IsCarried items [] ids h = tt
carried-IsCarried items (e ∷ rest) ids h =
    let (work, found, h') = >>=-eq-ok (work_by_id items e.work_item_id) _ h in
    let (later, known, h'') = >>=-eq-ok (carried items rest) _ h' in
    let (m, named) = work_by_id-found items e.work_item_id work found in
    let others = carried-IsCarried items rest later known in
    elim (Bool-cases (is_work_active work.lifecycle)) [
      | inl running ↦
          let all_ids : e.work_item_id ∷ later ≡ ids = ok-injective (rw running at h'') in
          let here = subst (λ l. Memᴰ e.work_item_id l) all_ids (Memᴰ.head refl) in
          (
            (work, m, named, (λ _. here)),
            All-map rest
                (λ x (w, m', named', taken). (
                  w,
                  m',
                  named',
                  (λ a. subst (λ l. Memᴰ x.work_item_id l) all_ids (Memᴰ.tail (taken a))),
                ))
                others,
          )
      | inr over ↦
          let all_ids : later ≡ ids = ok-injective (rw over at h'') in
          (
            (work, m, named, (λ running. cc (running, over))),
            subst (λ l. All (IsCarried items l) rest) all_ids others,
          )
    ]
