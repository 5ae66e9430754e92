-- ===== src/Scheduler/Termination.antt =====
-- A run over the due teams ends: each page moves the cursor past a team.
use jira_simulator.Base.{
  ℕ, zero, suc, ◌≤◌, ◌<◌, ◌≡◌, refl, ◌∙◌, ap, subst, inl, inr, Bool, true, false, Option, none,
  some, List, [], ◌∷◌, map, Memᴰ, arith, ltb, leb, Bool-cases, All, All-map, All-take, All-zip,
  All-keep_if, All-Memᴰ, keep_if, take, length, length-keep_if-le, map-All, sort_by-All,
}
use jira_simulator.Base.Result.{ok}
use jira_simulator.Scheduler.{
  TeamRuntime, SchedulerRunResult, due_rows, due_team_ids, is_due, after_cursor, last_of, extend,
  nothing_run, run_each, run_page, drain_due_pages, run_due, default_limit,
}
use jira_simulator.Scheduler.Once.{IsAhead, due_rows-IsAhead, List-cases}

abbrev ids_of : List TeamRuntime → List ℕ
ids_of rows = map (λ r. r.team_id) rows

-- The teams that a cursor has not passed.
abbrev to_come : Option ℕ → List ℕ → ℕ
to_come cursor ids = length (keep_if (after_cursor cursor) ids)

after-ahead :
    (cursor : Option ℕ) (l x : ℕ) → IsAhead cursor l → ltb l x ≡ true → after_cursor cursor x ≡ true
after-ahead none l x _ _ = refl
after-ahead (some c) l x h h' = ground (arith, h, h')

to_come-le :
    (cursor : Option ℕ) (l : ℕ) (ids : List ℕ)
    → IsAhead cursor l
    → to_come (some l) ids ≤ to_come cursor ids
to_come-le cursor l [] h = omega arith
to_come-le cursor l (x ∷ xs) h = elim (Bool-cases (ltb l x)) [
  | inl e ↦ rw (e, after-ahead cursor l x h e) (omega (arith, to_come-le cursor l xs h))
  | inr e ↦ elim (Bool-cases (after_cursor cursor x)) [
    | inl e' ↦ rw (e, e') (omega (arith, to_come-le cursor l xs h))
    | inr e' ↦ rw (e, e') (to_come-le cursor l xs h)
  ]
]

ahead-after : (cursor : Option ℕ) (l : ℕ) → IsAhead cursor l → after_cursor cursor l ≡ true
ahead-after none l _ = refl
ahead-after (some c) l h = ground (arith, h)

to_come-lt :
    (cursor : Option ℕ) (l : ℕ) (ids : List ℕ)
    → IsAhead cursor l
    → Memᴰ l ids
    → to_come (some l) ids < to_come cursor ids
to_come-lt cursor l [] h m = elim m [ ]
to_come-lt cursor l (x ∷ xs) h (Memᴰ.head p) =
    let passed : ltb l x ≡ false = ground (arith, p) in
    let waiting : after_cursor cursor x ≡ true =
      subst (λ y. after_cursor cursor y ≡ true) p (ahead-after cursor l h) in
    rw (passed, waiting) (omega (arith, to_come-le cursor l xs h))
to_come-lt cursor l (x ∷ xs) h (Memᴰ.tail m) = elim (Bool-cases (ltb l x)) [
  | inl e ↦ rw (e, after-ahead cursor l x h e) (omega (arith, to_come-lt cursor l xs h m))
  | inr e ↦ elim (Bool-cases (after_cursor cursor x)) [
    | inl e' ↦ rw (e, e') (omega (arith, to_come-lt cursor l xs h m))
    | inr e' ↦ rw (e, e') (to_come-lt cursor l xs h m)
  ]
]

last_of-All : (P : ℕ → Type 0) (x : ℕ) (xs : List ℕ) → All P (x ∷ xs) → P (last_of x xs)
last_of-All P x [] (h, _) = h
last_of-All P x (y ∷ ys) (_, hs) = last_of-All P y ys hs

Mem-map : (r : TeamRuntime) (rows : List TeamRuntime) → Memᴰ r rows → Memᴰ r.team_id (ids_of rows)
Mem-map r [] m = elim m [ ]
Mem-map r (x ∷ rows) (Memᴰ.head p) = Memᴰ.head (ap (λ (a : TeamRuntime). a.team_id) p)
Mem-map r (x ∷ rows) (Memᴰ.tail m) = Memᴰ.tail (Mem-map r rows m)

due_rows-Mem :
    (rows : List TeamRuntime) (as_of : ℕ) (cursor : Option ℕ)
    → All (λ i. Memᴰ i (ids_of rows)) (due_rows rows as_of cursor)
due_rows-Mem rows as_of cursor =
    sort_by-All leb (λ i. Memᴰ i (ids_of rows)) _
      (map-All (λ i. Memᴰ i (ids_of rows)) (λ (r : TeamRuntime). r.team_id)
        (keep_if (is_due as_of cursor) rows)
        (All-keep_if (λ (r : TeamRuntime). Memᴰ r.team_id (ids_of rows)) (is_due as_of cursor) rows
          (All-map rows (λ r m. Mem-map r rows m) (All-Memᴰ rows))))

module _ {W : Type 0} (rows_of : W → List TeamRuntime) (operation : ℕ → W → W × Bool)
    (kept : (t : ℕ) (w : W) → ids_of (rows_of (operation t w).0) ≡ ids_of (rows_of w))
    (as_of : ℕ) where
  run_each-kept :
      (ids : List ℕ) (w : W)
      → ids_of (rows_of (run_each rows_of operation ids w).0) ≡ ids_of (rows_of w)
  run_each-kept [] w = refl
  run_each-kept (t ∷ rest) w = run_each-kept rest (operation t w).0 ∙ kept t w

  drain_due_pages-ends :
      (fuel : ℕ) (w : W) (cursor : Option ℕ) (before : SchedulerRunResult)
      → to_come cursor (ids_of (rows_of w)) < fuel
      → (end_ : W × SchedulerRunResult) × (drain_due_pages rows_of operation as_of fuel w cursor
            before
          ≡ ok end_)
  unfolding drain_due_pages due_team_ids
  drain_due_pages-ends zero w cursor before enough =
      let impossible : true ≡ false = ground (arith, enough) in cc (impossible)
  drain_due_pages-ends (suc fuel) w cursor before enough =
      let page = take default_limit (due_rows (rows_of w) as_of cursor) in
      let known =
        All-zip (IsAhead cursor) (λ i. Memᴰ i (ids_of (rows_of w))) page
          (All-take (IsAhead cursor) default_limit _ (due_rows-IsAhead (rows_of w) as_of cursor))
          (All-take (λ i. Memᴰ i (ids_of (rows_of w))) default_limit _
            (due_rows-Mem (rows_of w) as_of cursor)) in
      elim (List-cases page) [
        | inl e ↦ ((w, before), rw (e, drain_due_pages) refl)
        | inr (first, rest, e) ↦
            let ran = run_page rows_of operation (first ∷ rest) w in
            let known_page : All (λ i. IsAhead cursor i × Memᴰ i (ids_of (rows_of w)))
                (first ∷ rest) =
              rw e at known in
            let (is_ahead, m) = last_of-All _ first rest known_page in
            let fewer = to_come-lt cursor (last_of first rest) (ids_of (rows_of w)) is_ahead m in
            let same = ap (to_come (some (last_of first rest))) (run_each-kept (first ∷ rest) w) in
            let (end_, later) =
              drain_due_pages-ends fuel ran.0 (some (last_of first rest)) (extend before ran.1)
                (omega (arith, enough, fewer, same)) in
            (end_, rw (e, drain_due_pages) later)
      ]

  length-ids : (rows : List TeamRuntime) → length (ids_of rows) ≡ length rows
  length-ids [] = refl
  length-ids (r ∷ rows) = omega (arith, length-ids rows)

  -- Where the operation on a team leaves the set of teams as it is, a run over the due teams ends,
  -- with one round more than there are teams at most, whatever the operation does otherwise.
  pub run_due-ends :
      (fuel : ℕ) (w : W)
      → length (rows_of w) < fuel
      → (end_ : W × SchedulerRunResult) × (run_due rows_of operation as_of fuel w ≡ ok end_)
  unfolding run_due
  run_due-ends fuel w enough =
      let ids = ids_of (rows_of w) in
      drain_due_pages-ends fuel w none nothing_run
        (omega (arith, enough, length-ids (rows_of w), length-keep_if-le (after_cursor none) ids))
