-- ===== src/Calendar/Moments.antt =====
-- The next working moment: of working time, and the first that is.
use jira_simulator.Base.{
  ℕ, zero, suc, ◌+◌, ◌*◌, ◌≤◌, ◌<◌, ◌≡◌, refl, sym, ◌∙◌, subst, inl, inr, Bool, true, false, ◌&&◌,
  ◌||◌, arith, ltb, leb, ◌==◌, Bool-cases, &&-true,
}
use jira_simulator.Calendar.{
  Zone, Settings, is_working_day, is_working_local, is_working_time, scan, hour_of,
  next_working_moment, max_lookahead_days,
}

-- A working day stands among the `n` days from a day on.
abbrev pub HasWorkingDay : Settings → ℕ → ℕ → Type 0
HasWorkingDay s day n = (k : ℕ) × (k < n) × (is_working_day s (day + k) ≡ true)

-- The local time of a full hour is that hour, as it is where the clocks do not skip it.
abbrev pub IsFaithful : Zone → ℕ → Type 0
IsFaithful zone hour =
    (day : ℕ) → zone.to_local (zone.from_local day hour) ≡ (day, hour * 3600000000)

-- Whether a local time is before a full hour of a day.
abbrev pub is_before : ℕ × ℕ → ℕ → ℕ → Bool
is_before local day hour = ltb local.0 day || (local.0 == day && ltb local.1 (hour * 3600000000))

-- The clock shows an earlier local time exactly before the instant of the hour, as it does where no
-- change of the clocks goes back across the hour.
abbrev pub PassesOnce : Zone → ℕ → Type 0
PassesOnce zone hour =
    (t day : ℕ) → ltb t (zone.from_local day hour) ≡ is_before (zone.to_local t) day hour

same_day_before :
    (local : ℕ × ℕ) (hour : ℕ)
    → ltb (hour_of local.1) hour ≡ true
    → is_before local local.0 hour ≡ true
same_day_before local hour h = ground (arith, h)

later_day_before :
    (local : ℕ × ℕ) (day hour : ℕ) → local.0 + 1 ≤ day → is_before local day hour ≡ true
later_day_before local day hour h = ground (arith, h)

-- The first of the days that is a working day.
abbrev pub IsFirstDay : Settings → ℕ → ℕ → Type 0
IsFirstDay s from d =
    (from ≤ d)
    × (is_working_day s d ≡ true)
    × ((x : ℕ) → from ≤ x → x < d → is_working_day s x ≡ false)

scan_lem :
    (zone : Zone) (s : Settings) (after day n k : ℕ)
    → k < n
    → is_working_day s (day + k) ≡ true
    → (d : ℕ) × IsFirstDay s day d × (scan zone s after day n ≡ zone.from_local d s.start_hour)
scan_lem zone s after day zero k h works =
    let impossible : true ≡ false = ground (arith, h) in cc (impossible)
scan_lem zone s after day (suc n) zero h works =
    let here : is_working_day s day ≡ true =
      subst (λ d. is_working_day s d ≡ true) (omega arith) works in
    (
      day,
      (
        omega arith,
        here,
        (λ x l g. let impossible : true ≡ false = ground (arith, l, g) in cc (impossible)),
      ),
      rw here refl,
    )
scan_lem zone s after day (suc n) (suc k) h works = elim (Bool-cases (is_working_day s day)) [
  | inl e ↦ (
    day,
    (
      omega arith,
      e,
      (λ x l g. let impossible : true ≡ false = ground (arith, l, g) in cc (impossible)),
    ),
    rw e refl,
  )
  | inr e ↦
      let (d, (low, working, none_before), found) =
        scan_lem zone s after (day + 1) n k (omega (arith, h))
          (subst (λ d. is_working_day s d ≡ true) (omega arith) works) in
      (
        d,
        (
          omega (arith, low),
          working,
          (λ x l g. elim (Bool-cases (x == day)) [
            | inl same ↦ subst (λ y. is_working_day s y ≡ false) (ground (arith, same)) e
            | inr other ↦ none_before x (ground (arith, other, l)) g
          ]),
        ),
        rw e found,
      )
]

-- The first working moment from an instant on.
pub record IsNext (zone : Zone) (s : Settings) (after moment : ℕ) : Type 0 where
  pub from : after ≤ moment
  pub working : is_working_time zone s moment ≡ true
  pub first : (t : ℕ) → after ≤ t → t < moment → is_working_time zone s t ≡ false

module _ (zone : Zone) (s : Settings) (opens : s.start_hour < s.end_hour)
    (faithful : IsFaithful zone s.start_hour) (midnight : PassesOnce zone 0)
    (start : PassesOnce zone s.start_hour) (end_ : PassesOnce zone s.end_hour) where
  start_works :
      (day : ℕ)
      → is_working_day s day ≡ true
      → is_working_time zone s (zone.from_local day s.start_hour) ≡ true
  unfolding is_working_time
  start_works day h = rw (faithful day) (ground (arith, h, opens))

  -- An instant before the start of a day is of an earlier day, or of an hour before the start.
  before_start :
      (t day : ℕ)
      → t < zone.from_local day s.start_hour
      → is_before (zone.to_local t) day s.start_hour ≡ true
  before_start t day h = sym (start t day) ∙ ground (arith, h)

  -- The dates do not go back.
  later_date : (after t : ℕ) → after ≤ t → (zone.to_local after).0 ≤ (zone.to_local t).0
  later_date after t h =
      let here = midnight after (zone.to_local after).0 in
      let there = midnight t (zone.to_local after).0 in ground (arith, h, here, there)

  -- Nor does a day open again once it has closed.
  still_closed :
      (after t : ℕ)
      → after ≤ t
      → (zone.to_local t).0 ≡ (zone.to_local after).0
      → leb s.end_hour (hour_of (zone.to_local after).1) ≡ true
      → leb s.end_hour (hour_of (zone.to_local t).1) ≡ true
  still_closed after t h same closed =
      let here = end_ after (zone.to_local after).0 in
      let there = end_ t (zone.to_local after).0 in ground (arith, h, same, closed, here, there)

  -- A day that opens in the future, when all the days between are free and this one is not open any
  -- more, opens at the next working moment.
  opens-IsNext :
      (after day : ℕ)
      → is_before (zone.to_local after) day s.start_hour ≡ true
      → is_working_day s day ≡ true
      → ((t : ℕ)
          → after ≤ t
          → (zone.to_local t).0 < day
          → is_working_local s (zone.to_local t) ≡ false)
      → IsNext zone s after (zone.from_local day s.start_hour)
  unfolding is_working_time
  opens-IsNext after day early working free = record {
    from = let e = start after day in ground (arith, early, e);
    working = start_works day working;
    first = λ t h g.
        let before = before_start t day g in
        elim (Bool-cases (ltb (zone.to_local t).0 day)) [
          | inl sooner ↦ free t h (ground (arith, sooner))
          | inr late ↦ ground (arith, before, late)
        ];
  }

  -- A working day that is not open at an instant, and opened before it, has closed.
  has_closed :
      (local : ℕ × ℕ)
      → is_working_local s local ≡ false
      → is_working_day s local.0 ≡ true
      → ltb (hour_of local.1) s.start_hour ≡ false
      → leb s.end_hour (hour_of local.1) ≡ true
  has_closed local e day late = ground (arith, e, day, late)

  closed_until :
      (after d : ℕ)
      → is_working_local s (zone.to_local after) ≡ false
      → is_working_day s (zone.to_local after).0
          && ltb (hour_of (zone.to_local after).1) s.start_hour
        ≡ false
      → IsFirstDay s ((zone.to_local after).0 + 1) d
      → (t : ℕ) → after ≤ t
      → (zone.to_local t).0 < d
      → is_working_local s (zone.to_local t) ≡ false
  closed_until after d e late (low, working, none_before) t h g =
      let dates = later_date after t h in
      elim (Bool-cases ((zone.to_local t).0 == (zone.to_local after).0)) [
        | inr other ↦
            let free = none_before (zone.to_local t).0 (ground (arith, other, dates)) g in
            rw free refl
        | inl equal ↦
            let same : (zone.to_local t).0 ≡ (zone.to_local after).0 = ground (arith, equal) in
            elim (Bool-cases (is_working_day s (zone.to_local after).0)) [
              | inr free ↦
                  let free' : is_working_day s (zone.to_local t).0 ≡ false =
                    subst (λ x. is_working_day s x ≡ false) (sym same) free in
                  rw free' refl
              | inl day ↦
                  let opened : ltb (hour_of (zone.to_local after).1) s.start_hour ≡ false =
                    ground (arith, day, late) in
                  let closed = has_closed (zone.to_local after) e day opened in
                  let still = still_closed after t h same closed in ground (arith, still)
            ]
      ]

  -- Where the working hours are not empty, their start is an hour that the local clock shows, the
  -- clocks are not set back across midnight or across the start or end of the working hours, and a
  -- working day stands among the 30 after the instant's, the next working moment is the first
  -- instant of working time that is not before the instant given.
  pub next_working_moment-IsNext :
      (after : ℕ)
      → HasWorkingDay s ((zone.to_local after).0 + 1) max_lookahead_days
      → IsNext zone s after (next_working_moment zone s after)
  unfolding next_working_moment is_working_time
  next_working_moment-IsNext after (k, near, works) =
      let day = (zone.to_local after).0 in
      let time = (zone.to_local after).1 in
      elim (Bool-cases (is_working_local s (zone.to_local after))) [
        | inl e ↦ rw e record {
          from = omega arith;
          working = e;
          first = λ t h g. let impossible : true ≡ false = ground (arith, h, g) in cc (impossible);
        }
        | inr e ↦ elim (Bool-cases (is_working_day s day && ltb (hour_of time) s.start_hour)) [
          | inl early ↦
              let (working, before) = &&-true _ _ early in
              rw (e, early)
                (opens-IsNext after day (same_day_before (zone.to_local after) s.start_hour before)
                  working
                  (λ t h g.
                    let dates = later_date after t h in
                    let impossible : true ≡ false = ground (arith, dates, g) in cc (impossible)))
          | inr late ↦
              let (d, first_day, found) =
                scan_lem zone s after (day + 1) max_lookahead_days k near works in
              let moment : IsNext zone s after (zone.from_local d s.start_hour) =
                opens-IsNext after d
                  (later_day_before (zone.to_local after) d s.start_hour first_day.0) first_day.1
                  (closed_until after d e late first_day) in
              rw (e, late) (subst (IsNext zone s after) (sym found) moment)
        ]
      ]
