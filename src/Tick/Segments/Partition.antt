-- ===== src/Tick/Segments/Partition.antt =====
-- The segments of a tick are its working time, cut where the availability of a member changes.
use jira_simulator.Base.{
  ℕ, zero, suc, ◌+◌, ◌-◌, ◌≤◌, ◌<◌, ◌≡◌, refl, sym, ◌∙◌, ap, ◌⊎◌, inl, inr, true, false, ◌&&◌,
  Option, none, some, List, [], ◌∷◌, ◌++◌, arith, ltb, leb, ◌==◌, ltb→lt, Bool-cases, ==→eq, All,
  All-map, All-append, All-of_keep_if, All-keep_if_inv, flat_map, Strict, sort-Strict, set_of,
  set_of-apart, set_of-All, All-set_of_inv, sort_by-All, All-sort_by, max, min,
}
use jira_simulator.Tick.{Segment, microseconds}
use jira_simulator.Tick.Segments.{
  Span, BusinessCalendar, inner_ends, availability_boundaries, cut, segments_between, day_segments,
  segments_from, business_segments,
}

abbrev pub total : List Segment → ℕ
total [] = 0
total (s ∷ rest) = microseconds s + total rest

abbrev last : ℕ → List ℕ → ℕ
last x [] = x
last x (y ∷ ys) = last y ys

-- Not inside the segment.
abbrev pub IsOutside : Segment → ℕ → Type 0
IsOutside s b = (b ≤ s.start) ⊎ (s.end_ ≤ b)

-- A segment of the day between two instants, with none of the boundaries inside.
abbrev IsCut : ℕ → ℕ → ℕ → List ℕ → Segment → Type 0
IsCut day lo hi bs s =
    (s.business_date ≡ day)
    × (lo ≤ s.start)
    × (s.start < s.end_)
    × (s.end_ ≤ hi)
    × All (IsOutside s) bs

last-above : (x : ℕ) (xs : List ℕ) → Strict (x ∷ xs) → All (λ y. y ≤ last x xs) (x ∷ xs)
last-above x [] _ = (omega arith, tt)
last-above x (y ∷ ys) ((h, _), hs) =
    let (first, others) = last-above y ys hs in (omega (arith, h, first), (first, others))

cut-IsCut :
    (day left : ℕ) (rest : List ℕ)
    → Strict (left ∷ rest)
    → All (IsCut day left (last left rest) (left ∷ rest)) (cut day left rest)
      × (total (cut day left rest) ≡ last left rest - left)
cut-IsCut day left [] _ = (tt, omega arith)
cut-IsCut day left (right ∷ rest) ((first, later), hs) =
    let (pieces, sum) = cut-IsCut day right rest hs in
    let (end_above, _) = last-above right rest hs in
    let (above, _) = hs in
    (
      (
        (
          refl,
          omega arith,
          first,
          end_above,
          (
            inl (omega arith),
            (inr (omega arith), All-map rest (λ b h. inr (omega (arith, h))) above),
          ),
        ),
        All-map (cut day right rest)
            (λ s (same, from, positive, to, outside). (
              same,
              omega (arith, from, first),
              positive,
              to,
              (inl (omega (arith, from, first)), outside),
            ))
            pieces,
      ),
      omega (arith, sum, first, end_above),
    )

inside_test : (start end_ t : ℕ) → (ltb start t && ltb t end_) ≡ true → (start ≤ t) × (t ≤ end_)
inside_test start end_ t h = (ground (arith, h), ground (arith, h))

inner_ends-inside :
    (spans : List Span) (start end_ : ℕ)
    → All (λ t. (start ≤ t) × (t ≤ end_)) (inner_ends spans start end_)
inner_ends-inside spans start end_ =
    All-of_keep_if (λ t. (start ≤ t) × (t ≤ end_)) _ (inside_test start end_) _

abbrev boundary_values : List Span → ℕ → ℕ → List ℕ
boundary_values spans start end_ = start ∷ end_ ∷ inner_ends spans start end_

-- The segments from `start` to `end_` on one day.
pieces :
    (spans : List Span) (day start end_ : ℕ) (bs : List ℕ)
    → Strict bs
    → start < end_
    → All (λ t. (start ≤ t) × (t ≤ end_)) bs
    → ((P : ℕ → Type 0) → All P bs → All P (boundary_values spans start end_))
    → All (IsCut day start end_ (boundary_values spans start end_)) (segments_between day bs)
      × (total (segments_between day bs) ≡ end_ - start)
pieces spans day start end_ [] _ _ _ whole =
    let (impossible, _) = whole (λ t. true ≡ false) tt in cc (impossible)
pieces spans day start end_ (first ∷ rest) strict positive inside whole =
    let (from, _) = inside in
    let (above, _) = strict in
    let (first_low, _) =
      whole (λ t. first ≤ t) (omega arith, All-map rest (λ t h. omega (arith, h)) above) in
    let (_, (last_high, _)) = whole (λ t. t ≤ last first rest) (last-above first rest strict) in
    let last_low =
      last_of_All (λ t. t ≤ end_) first rest (All-map (first ∷ rest) (λ t h. h.1) inside) in
    let (found, sum) = cut-IsCut day first rest strict in
    (
      All-map (cut day first rest)
          (λ s (same, low, grows, high, outside). (
            same,
            omega (arith, low, from.0, first_low),
            grows,
            omega (arith, high, last_high, last_low),
            whole (IsOutside s) outside,
          ))
          found,
      omega (arith, sum, from.0, first_low, last_high, last_low),
    )
  where
    last_of_All : (P : ℕ → Type 0) (x : ℕ) (xs : List ℕ) → All P (x ∷ xs) → P (last x xs)
    last_of_All P x [] (h, _) = h
    last_of_All P x (y ∷ ys) (_, hs) = last_of_All P y ys hs

-- The ends of all intervals of availability.
abbrev pub ends_of : List Span → List ℕ
ends_of spans = flat_map (λ s. s.0 ∷ s.1 ∷ []) spans

-- A piece of the tick: within it and within the working time of its day, with no interval of
-- availability starting or ending inside.
abbrev pub IsPiece : BusinessCalendar → List Span → ℕ → ℕ → Segment → Type 0
IsPiece calendar spans starts_at ends_at s =
    (starts_at ≤ s.start)
    × (s.start < s.end_)
    × (s.end_ ≤ ends_at)
    × ((working : Span) × (calendar.working_interval s.business_date ≡ some working)
        × (working.0 ≤ s.start)
        × (s.end_ ≤ working.1))
    × All (IsOutside s) (ends_of spans)

-- The working time of a day within the tick.
abbrev pub worked : ℕ → ℕ → Option Span → ℕ
worked starts_at ends_at none = 0
worked starts_at ends_at (some working) = min ends_at working.1 - max starts_at working.0

-- The working time of `n` days from a day on
abbrev pub working_time : BusinessCalendar → ℕ → ℕ → ℕ → ℕ → ℕ
working_time calendar starts_at ends_at day zero = 0
working_time calendar starts_at ends_at day (suc n) =
    worked starts_at ends_at (calendar.working_interval day)
    + working_time calendar starts_at ends_at (day + 1) n

IsOutside-all :
    (spans : List Span) (lo hi : ℕ) (s : Segment)
    → lo ≤ s.start
    → s.end_ ≤ hi
    → All (IsOutside s) (inner_ends spans lo hi)
    → All (IsOutside s) (ends_of spans)
IsOutside-all spans lo hi s from to inner =
    All-map (ends_of spans) (λ b h. beyond b h)
      (All-keep_if_inv (IsOutside s) (λ t. ltb lo t && ltb t hi) (ends_of spans) inner)
  where
    beyond : (b : ℕ) → ((ltb lo b && ltb b hi) ≡ true → IsOutside s b) → IsOutside s b
    beyond b h = elim (Bool-cases (ltb lo b && ltb b hi)) [
      | inl e ↦ h e
      | inr e ↦ elim (Bool-cases (leb b lo)) [
        | inl low ↦ inl (ground (arith, low, from))
        | inr high ↦ inr (ground (arith, e, high, to))
      ]
    ]

total-append : (xs ys : List Segment) → total (xs ++ ys) ≡ total xs + total ys
total-append [] ys = omega arith
total-append (x ∷ xs) ys = omega (arith, total-append xs ys)

module _ (calendar : BusinessCalendar) (spans : List Span) (starts_at ends_at : ℕ) where
  abbrev IsSplit : List Segment → ℕ → Type 0
  IsSplit segments time =
      All (IsPiece calendar spans starts_at ends_at) segments × (total segments ≡ time)

  day_segments-IsSplit :
      (day : ℕ) (working : Option Span)
      → calendar.working_interval day ≡ working
      → IsSplit
          (day_segments spans starts_at ends_at day working)
          (worked starts_at ends_at working)
  unfolding availability_boundaries
  day_segments-IsSplit day none e = (tt, refl)
  day_segments-IsSplit day (some working) e =
      let lo = max starts_at working.0 in
      let hi = min ends_at working.1 in
      elim (Bool-cases (ltb lo hi)) [
        | inr empty ↦ rw empty (tt, ground (arith, empty))
        | inl grows ↦
            let inside : All (λ t. (lo ≤ t) × (t ≤ hi)) (boundary_values spans lo hi) = (
              (omega arith, omega (arith, ltb→lt lo hi grows)),
              ((omega (arith, ltb→lt lo hi grows), omega arith), inner_ends-inside spans lo hi),
            ) in
            let values = boundary_values spans lo hi in
            let (found, sum) =
              pieces spans day lo hi (availability_boundaries spans lo hi)
                (sort-Strict (set_of ◌==◌ values) (set_of-apart values)) (ltb→lt lo hi grows)
                (sort_by-All leb (λ t. (lo ≤ t) × (t ≤ hi)) (set_of ◌==◌ values)
                  (set_of-All (λ t. (lo ≤ t) × (t ≤ hi)) values inside))
                (λ P h. All-set_of_inv P values (All-sort_by leb P (set_of ◌==◌ values) h)) in
            rw grows (
              All-map (segments_between day (availability_boundaries spans lo hi))
                  (λ s (same, from, positive, to, (_, (_, inner))). (
                    omega (arith, from),
                    positive,
                    omega (arith, to),
                    (
                      working,
                      ap calendar.working_interval same ∙ e,
                      omega (arith, from),
                      omega (arith, to),
                    ),
                    IsOutside-all spans lo hi s from to inner,
                  ))
                  found,
              sum,
            )
      ]

  segments_from-IsSplit :
      (n day : ℕ)
      → IsSplit
          (segments_from calendar spans starts_at ends_at day n)
          (working_time calendar starts_at ends_at day n)
  segments_from-IsSplit zero day = (tt, refl)
  segments_from-IsSplit (suc n) day =
      let (first, sum) = day_segments-IsSplit day (calendar.working_interval day) refl in
      let (later, sum') = segments_from-IsSplit n (day + 1) in
      (
        All-append (IsPiece calendar spans starts_at ends_at) _ _ first later,
        total-append (day_segments spans starts_at ends_at day (calendar.working_interval day)) _
            ∙ (λ i. sum i + sum' i),
      )

  no_time : (n day : ℕ) → starts_at ≡ ends_at → working_time calendar starts_at ends_at day n ≡ 0
  no_time zero day same = refl
  no_time (suc n) day same =
      omega (arith, nothing (calendar.working_interval day), no_time n (day + 1) same)
    where
      nothing : (o : Option Span) → worked starts_at ends_at o ≡ 0
      nothing none = refl
      nothing (some working) = omega (arith, same)

  -- The segments of a tick lie in its span and in the working time of their days, no member's
  -- availability starts or ends inside one, and together they last exactly as long as the working
  -- time of the days from the first to the last within the span.
  pub business_segments-IsSplit :
      All
        (IsPiece calendar spans starts_at ends_at)
        (business_segments calendar spans starts_at ends_at)
      × (total (business_segments calendar spans starts_at ends_at)
          ≡ working_time calendar starts_at ends_at
              (calendar.business_date starts_at)
              (calendar.business_date (ends_at - 1) + 1 - calendar.business_date starts_at))
  unfolding business_segments
  business_segments-IsSplit = elim (Bool-cases (starts_at == ends_at)) [
    | inl same ↦ rw same (tt, sym (no_time _ _ (==→eq starts_at ends_at same)))
    | inr apart ↦ rw apart (segments_from-IsSplit _ _)
  ]
