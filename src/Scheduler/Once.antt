-- ===== src/Scheduler/Once.antt =====
-- No team is attempted twice in a run, and the run is that of the operation on each team in turn.
use jira_simulator.Base.{
  not, sym, ◌∙◌, ap, if◌then◌else◌, ℕ, zero, suc, ◌≤◌, ◌<◌, ◌≡◌, ◌≢◌, refl, subst, ◌⊎◌, inl, inr,
  Bool, true, Option, none, some, List, [], ◌∷◌, ◌++◌, map, arith, leb, ltb→lt, Bool-cases, All,
  All-map, All-append, All-take, All-of_keep_if, All-keep_if, keep_if, take, Pairwise, Strict,
  sort-Strict, map-All, sort_by-All, &&-true,
}
use jira_simulator.Base.Result.{ok, ok-injective}
use jira_simulator.Scheduler.{
  TeamRuntime, SchedulerRunResult, due_rows, due_team_ids, is_due, after_cursor, last_of, extend,
  nothing_run, run_each, run_page, drain_due_pages, run_due, default_limit,
}

-- The team identifiers of a table are different.
abbrev pub IsKeyed : List TeamRuntime → Type 0
IsKeyed rows = Pairwise (λ a b. a.team_id ≢ b.team_id) rows

kept-apart :
    (p : TeamRuntime → Bool) (rows : List TeamRuntime)
    → IsKeyed rows
    → Pairwise (λ a b. a ≢ b) (map (λ r. r.team_id) (keep_if p rows))
kept-apart p [] _ = tt
kept-apart p (r ∷ rows) (h, hs) = elim (Bool-cases (p r)) [
  | inl e ↦ rw e (
    map-All (λ i. r.team_id ≢ i) (λ a. a.team_id) (keep_if p rows)
        (All-keep_if (λ a. r.team_id ≢ a.team_id) p rows h),
    kept-apart p rows hs,
  )
  | inr e ↦ rw e (kept-apart p rows hs)
]

take-Strict : (n : ℕ) (xs : List ℕ) → Strict xs → Strict (take n xs)
take-Strict zero xs h = tt
take-Strict (suc n) [] h = tt
take-Strict (suc n) (x ∷ xs) (h, hs) = (All-take (λ y. x < y) n xs h, take-Strict n xs hs)

append-Strict :
    (xs ys : List ℕ) → Strict xs → Strict ys → All (λ x. All (λ y. x < y) ys) xs → Strict (xs ++ ys)
append-Strict [] ys _ h _ = h
append-Strict (x ∷ xs) ys (h, hs) h' (below, others) =
    (All-append (λ y. x < y) xs ys h below, append-Strict xs ys hs h' others)

-- No number of an increasing list is above its last.
last_of-above : (x : ℕ) (xs : List ℕ) → Strict (x ∷ xs) → All (λ y. y ≤ last_of x xs) (x ∷ xs)
last_of-above x [] _ = (omega arith, tt)
last_of-above x (y ∷ ys) ((h, _), hs) =
    let (first, others) = last_of-above y ys hs in (omega (arith, h, first), (first, others))

-- What a cursor leaves behind.
abbrev pub IsBehind : Option ℕ → ℕ → Type 0
IsBehind none i = i ≢ i
IsBehind (some cursor) i = i ≤ cursor

abbrev pub IsAhead : Option ℕ → ℕ → Type 0
IsAhead none i = Unit
IsAhead (some cursor) i = cursor < i

behind-lt : (cursor : Option ℕ) (i j : ℕ) → IsBehind cursor i → IsAhead cursor j → i < j
behind-lt none i j h _ = omega (arith, h)
behind-lt (some c) i j h h' = omega (arith, h, h')

ahead : (cursor : Option ℕ) (i : ℕ) → after_cursor cursor i ≡ true → IsAhead cursor i
ahead none i h = tt
ahead (some c) i h = ltb→lt c i h

pub due_rows-IsAhead :
    (rows : List TeamRuntime) (as_of : ℕ) (cursor : Option ℕ)
    → All (IsAhead cursor) (due_rows rows as_of cursor)
due_rows-IsAhead rows as_of cursor = sort_by-All leb (IsAhead cursor) _ (
    map-All (IsAhead cursor) (λ (r : TeamRuntime). r.team_id) (keep_if (is_due as_of cursor) rows)
      (All-of_keep_if (λ (r : TeamRuntime). IsAhead cursor r.team_id) (is_due as_of cursor)
        (λ r h. ahead cursor r.team_id (&&-true _ _ (&&-true _ _ h).1).1) rows))

pub List-cases {ℓ} :
    {A : Type ℓ} (xs : List A) → (xs ≡ []) ⊎ ((first : A) × (rest : List A) × (xs ≡ first ∷ rest))
List-cases [] = inl refl
List-cases (x ∷ xs) = inr (x, xs, refl)

-- The teams of the answers that pass the test.
abbrev pub teams_with : (Bool → Bool) → List (ℕ × Bool) → List ℕ
teams_with p [] = []
teams_with p ((t, b) ∷ rest) = let later = teams_with p rest in if p b then t ∷ later else later

teams_with-append :
    (p : Bool → Bool) (xs ys : List (ℕ × Bool))
    → teams_with p (xs ++ ys) ≡ teams_with p xs ++ teams_with p ys
teams_with-append p [] ys = refl
teams_with-append p ((t, b) ∷ xs) ys = elim (Bool-cases (p b)) [
  | inl e ↦ rw e (ap (λ l. t ∷ l) (teams_with-append p xs ys))
  | inr e ↦ rw e (teams_with-append p xs ys)
]

module _ {W : Type 0} (rows_of : W → List TeamRuntime) (operation : ℕ → W → W × Bool) where
  -- The world once the operation has been done on each team in turn, and its answers.
  abbrev pub world_after : List ℕ → W → W
  world_after [] w = w
  world_after (t ∷ ts) w = world_after ts (operation t w).0

  abbrev pub answers : List ℕ → W → List (ℕ × Bool)
  answers [] w = []
  answers (t ∷ ts) w = (t, (operation t w).1) ∷ answers ts (operation t w).0

  world_after-append :
      (xs ys : List ℕ) (w : W) → world_after (xs ++ ys) w ≡ world_after ys (world_after xs w)
  world_after-append [] ys w = refl
  world_after-append (t ∷ xs) ys w = world_after-append xs ys (operation t w).0

  answers-append :
      (xs ys : List ℕ) (w : W)
      → answers (xs ++ ys) w ≡ answers xs w ++ answers ys (world_after xs w)
  answers-append [] ys w = refl
  answers-append (t ∷ xs) ys w =
      ap (λ l. (t, (operation t w).1) ∷ l) (answers-append xs ys (operation t w).0)

  -- From the world `start` the run is that of the operation on the teams attempted, in their order;
  -- it succeeded for the teams that the operation answered for, and failed for the others.
  pub record IsRun (start end_ : W) (r : SchedulerRunResult) : Type 0 where
    pub world : end_ ≡ world_after r.attempted start
    pub succeeded : r.succeeded ≡ teams_with (λ b. b) (answers r.attempted start)
    pub failed : r.failed ≡ teams_with not (answers r.attempted start)

  run_each-IsRun :
      (ids : List ℕ) (w : W)
      → ((run_each rows_of operation ids w).0 ≡ world_after ids w)
        × ((run_each rows_of operation ids w).1.succeeded ≡ teams_with (λ b. b) (answers ids w))
        × ((run_each rows_of operation ids w).1.failed ≡ teams_with not (answers ids w))
  run_each-IsRun [] w = (refl, refl, refl)
  run_each-IsRun (t ∷ rest) w =
      let (world, good, bad) = run_each-IsRun rest (operation t w).0 in
      elim (Bool-cases (operation t w).1) [
        | inl e ↦ (world, rw e (ap (λ l. t ∷ l) good), rw e bad)
        | inr e ↦ (world, rw e good, rw e (ap (λ l. t ∷ l) bad))
      ]

  joined :
      (start w : W) (before : SchedulerRunResult) (ids : List ℕ)
      → IsRun start w before
      → (p : Bool → Bool)
      → teams_with p (answers (before.attempted ++ ids) start)
        ≡ teams_with p (answers before.attempted start) ++ teams_with p (answers ids w)
  joined start w before ids h p =
      rw (answers-append before.attempted ids start, sym h.world)
        (teams_with-append p (answers before.attempted start) (answers ids w))

  -- A page that is run after a run makes a run of both.
  extend-IsRun :
      (start w : W) (before : SchedulerRunResult) (ids : List ℕ)
      → IsRun start w before
      → IsRun start
          (run_page rows_of operation ids w).0
          (extend before (run_page rows_of operation ids w).1)
  extend-IsRun start w before ids h =
      let (world, good, bad) = run_each-IsRun ids w in
      let from : world_after before.attempted start ≡ w = sym h.world in
      record {
        world = rw (world_after-append before.attempted ids start, from) world;
        succeeded = (λ k. h.succeeded k ++ good k) ∙ sym (joined start w before ids h (λ b. b));
        failed = (λ k. h.failed k ++ bad k) ∙ sym (joined start w before ids h not);
      }

  abbrev pub IsOnce : W → W × SchedulerRunResult → Type 0
  IsOnce start (w, r) = Strict r.attempted × IsRun start w r

  module _ (keyed : (t : ℕ) (w : W) → IsKeyed (rows_of w) → IsKeyed (rows_of (operation t w).0))
      (as_of : ℕ) where
    run_each-IsKeyed :
        (ids : List ℕ) (w : W)
        → IsKeyed (rows_of w)
        → IsKeyed (rows_of (run_each rows_of operation ids w).0)
    run_each-IsKeyed [] w h = h
    run_each-IsKeyed (t ∷ rest) w h = run_each-IsKeyed rest (operation t w).0 (keyed t w h)

    drain_due_pages-IsOnce :
        (fuel : ℕ) (start w : W) (cursor : Option ℕ) (before : SchedulerRunResult)
        (end_ : W × SchedulerRunResult)
        → IsKeyed (rows_of w)
        → IsOnce start (w, before)
        → All (IsBehind cursor) before.attempted
        → drain_due_pages rows_of operation as_of fuel w cursor before ≡ ok end_
        → IsOnce start end_
    unfolding drain_due_pages due_team_ids
    drain_due_pages-IsOnce zero start w cursor before end_ _ _ _ h = cc
    drain_due_pages-IsOnce (suc fuel) start w cursor before end_ apart (strict, counted) behind h =
        let page = take default_limit (due_rows (rows_of w) as_of cursor) in
        let page_strict : Strict page =
          take-Strict default_limit _
            (sort-Strict _ (kept-apart (is_due as_of cursor) (rows_of w) apart)) in
        let page_ahead : All (IsAhead cursor) page =
          All-take (IsAhead cursor) default_limit _ (due_rows-IsAhead (rows_of w) as_of cursor) in
        elim (List-cases page) [
          | inl e ↦
              let returned : ok (w, before) ≡ ok end_ = rw (e, drain_due_pages) at h in
              subst (IsOnce start) (ok-injective returned) (strict, counted)
          | inr (first, rest, e) ↦
              let ran = run_page rows_of operation (first ∷ rest) w in
              let later : drain_due_pages rows_of operation as_of fuel ran.0
                    (some (last_of first rest)) (extend before ran.1)
                  ≡ ok end_ =
                rw (e, drain_due_pages) at h in
              let strict_page : Strict (first ∷ rest) = rw e at page_strict in
              let ahead_page : All (IsAhead cursor) (first ∷ rest) = rw e at page_ahead in
              let last_behind = last_of-above first rest strict_page in
              let earlier =
                All-map before.attempted
                  (λ i hi. All-map (first ∷ rest) (λ j hj. behind-lt cursor i j hi hj) ahead_page)
                  behind in
              drain_due_pages-IsOnce fuel start ran.0 (some (last_of first rest))
                (extend before ran.1) end_ (run_each-IsKeyed (first ∷ rest) w apart)
                (
                  append-Strict before.attempted (first ∷ rest) strict strict_page earlier,
                  extend-IsRun start w before (first ∷ rest) counted,
                )
                (All-append (λ i. i ≤ last_of first rest) before.attempted (first ∷ rest)
                  (All-map before.attempted (λ i (below, _). omega (arith, below, last_behind.0))
                    earlier)
                  last_behind)
                later
        ]

    -- Over a table whose teams differ, a run that ends has attempted teams in the order of their
    -- identifiers, none of them twice. The world is then the one after the operation on each of them
    -- in turn, the teams reported as succeeded are those for which the operation, in the world of
    -- its turn, succeeded, and those reported as failed are the others, each in this order.
    pub run_due-IsOnce :
        (fuel : ℕ) (w : W) (end_ : W × SchedulerRunResult)
        → IsKeyed (rows_of w)
        → run_due rows_of operation as_of fuel w ≡ ok end_
        → IsOnce w end_
    unfolding run_due
    run_due-IsOnce fuel w end_ apart h =
        drain_due_pages-IsOnce fuel w w none nothing_run end_ apart
          (tt, record { world = refl; succeeded = refl; failed = refl }) tt h
