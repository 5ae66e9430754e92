-- ===== src/Dispatch/Once.antt =====
-- What a dispatch does to the events, the queue and the audit.
use jira_simulator.Base.{
  ℕ, ◌+◌, ◌≤◌, ◌≡◌, refl, ap, sym, subst, ◌∙◌, Bool, true, false, inl, inr, List, [], ◌∷◌, map,
  length, length-append, any, All, All-of_keep_if, sort_by-All, All-take, length-take-le,
  Bool-cases, if◌then◌else◌, ◌==◌, arith,
}
use jira_simulator.Queue.{Db, enqueue}
use jira_simulator.Dispatch.{
  ScheduledEvent, State, is_due, by_time, due_events, stamp, enqueue_event, dispatch_one,
  dispatch_all, dispatch_due_events,
}

abbrev pub is_in : List ScheduledEvent → ℕ → Bool
is_in es id = any (λ e. id == e.id) es

-- The row of an event after the dispatch of a batch.
abbrev pub stamped : ℕ → List ScheduledEvent → ScheduledEvent → ScheduledEvent
stamped now es r = if is_in es r.id then stamp now r else r

module _ (fresh : Db → ℕ) (now : ℕ) where
  stamped_twice :
      (e : ScheduledEvent) (es : List ScheduledEvent) (r : ScheduledEvent)
      → stamped now es (if r.id == e.id then stamp now r else r) ≡ stamped now (e ∷ es) r
  stamped_twice e es r = elim (Bool-cases (r.id == e.id)) [
    | inl here ↦ elim (Bool-cases (is_in es r.id)) [
      | inl again ↦ rw (here, again) refl
      | inr once ↦ rw (here, once) refl
    ]
    | inr away ↦ rw away refl
  ]

  map-stamped :
      (e : ScheduledEvent) (es rows : List ScheduledEvent)
      → map (stamped now es) (map (λ r. if r.id == e.id then stamp now r else r) rows)
        ≡ map (stamped now (e ∷ es)) rows
  map-stamped e es [] = refl
  map-stamped e es (r ∷ rs) =
      rw (stamped_twice e es r) (ap (λ x. stamped now (e ∷ es) r ∷ x) (map-stamped e es rs))

  map_none : (rows : List ScheduledEvent) → map (stamped now []) rows ≡ rows
  map_none [] = refl
  map_none (r ∷ rs) = ap (λ x. r ∷ x) (map_none rs)

  -- The events of the batch are stamped, and the queue and the audit grow by a row for each.
  abbrev pub IsDispatched : List ScheduledEvent → State → State → Type 0
  IsDispatched es before after =
      (after.events ≡ map (stamped now es) before.events)
      × (length after.queue.entries ≡ length before.queue.entries + length es)
      × (length after.audits ≡ length before.audits + length es)

  dispatch_all-IsDispatched :
      (es : List ScheduledEvent) (s : State) → IsDispatched es s (dispatch_all fresh now es s)
  unfolding dispatch_all dispatch_one enqueue_event enqueue
  dispatch_all-IsDispatched [] s = (sym (map_none s.events), omega arith, omega arith)
  dispatch_all-IsDispatched (e ∷ es) s =
      let (rows, queued, audited) = dispatch_all-IsDispatched es (dispatch_one fresh now e s) in
      (
        rows ∙ map-stamped e es s.events,
        omega (arith, queued, length-append s.queue.entries _),
        omega (arith, audited, length-append s.audits _),
      )

  -- A run dispatches at most 50 events, each of them open and due. Their rows become dispatched at
  -- the time of the run and the other events stay, and the write queue and the audit each grow by
  -- one row for each event that the run counts.
  pub dispatch_due_events_lem :
      (s : State)
      → ((dispatch_due_events fresh now s).1 ≤ 50)
        × All (λ e. is_due now e ≡ true) (due_events now s.events)
        × (length (due_events now s.events) ≡ (dispatch_due_events fresh now s).1)
        × IsDispatched (due_events now s.events) s (dispatch_due_events fresh now s).0
  unfolding dispatch_due_events
  dispatch_due_events_lem s = (
    length-take-le 50 _,
    All-take (λ e. is_due now e ≡ true) 50 _
        (sort_by-All by_time (λ e. is_due now e ≡ true) _
          (All-of_keep_if (λ e. is_due now e ≡ true) (is_due now) (λ e h. h) s.events)),
    refl,
    dispatch_all-IsDispatched (due_events now s.events) s,
  )

  stamped-not_due :
      (es rows : List ScheduledEvent) (later : ℕ)
      → All (λ r. is_in es r.id ≡ true → is_due later r ≡ false) (map (stamped now es) rows)
  stamped-not_due es [] later = tt
  stamped-not_due es (r ∷ rs) later = elim (Bool-cases (is_in es r.id)) [
    | inl member ↦ rw member ((λ _. refl), stamped-not_due es rs later)
    | inr other ↦ rw other ((λ named. cc (named, other)), stamped-not_due es rs later)
  ]

  -- No event that a run dispatched is due after the run, at whatever later or earlier time.
  pub dispatched-not_due :
      (s : State) (later : ℕ)
      → All
          (λ r. is_in (due_events now s.events) r.id ≡ true → is_due later r ≡ false)
          (dispatch_due_events fresh now s).0.events
  dispatched-not_due s later =
      let (_, _, _, (rows, _, _)) = dispatch_due_events_lem s in
      subst (All (λ r. is_in (due_events now s.events) r.id ≡ true → is_due later r ≡ false))
        (sym rows) (stamped-not_due (due_events now s.events) s.events later)
