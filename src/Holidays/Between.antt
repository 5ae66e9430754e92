-- ===== src/Holidays/Between.antt =====
-- Which days a horizon has.
use jira_simulator.Base.{
  ℕ, zero, suc, ◌+◌, ◌-◌, ◌≤◌, ◌<◌, ◌≡◌, ◌≢◌, ◌↔◌, refl, sym, ◌∙◌, ap, inl, inr, subst, Bool, true,
  false, List, [], ◌∷◌, ◌++◌, ◌&&◌, ◌||◌, All, Pairwise, Strict, sort-Strict, sort_by, insert_by,
  keep_if, contains, ltb, leb, ◌==◌, Bool-cases, ==→eq, arith,
}
use jira_simulator.Base.Result.{ok, ok-injective}
use jira_simulator.Holidays.{
  Date, of_date, within, holidays_for_year, holidays_of_years, distinct, candidate_holidays,
  holidays_between,
}

contains-append : (xs ys : List ℕ) (d : ℕ) → contains (xs ++ ys) d ≡ contains xs d || contains ys d
contains-append [] ys d = refl
contains-append (x ∷ xs) ys d = ground (arith, contains-append xs ys d)

contains-keep_if :
    (p : ℕ → Bool) (xs : List ℕ) (d : ℕ) → contains (keep_if p xs) d ≡ p d && contains xs d
contains-keep_if p [] d = ground arith
contains-keep_if p (x ∷ xs) d = elim (Bool-cases (x == d)) [
  | inl e ↦
      let same : p x ≡ p d = ap p (ground (arith, e)) in
      ground (arith, contains-keep_if p xs d, e, same)
  | inr e ↦ ground (arith, contains-keep_if p xs d, e)
]

contains-insert :
    (x : ℕ) (xs : List ℕ) (d : ℕ) → contains (insert_by leb x xs) d ≡ contains (x ∷ xs) d
contains-insert x [] d = refl
contains-insert x (y ∷ ys) d = ground (arith, contains-insert x ys d)

contains-sort : (xs : List ℕ) (d : ℕ) → contains (sort_by leb xs) d ≡ contains xs d
contains-sort [] d = refl
contains-sort (x ∷ xs) d = ground (arith, contains-insert x (sort_by leb xs) d, contains-sort xs d)

contains-distinct : (xs : List ℕ) (d : ℕ) → contains (distinct xs) d ≡ contains xs d
unfolding distinct
contains-distinct [] d = refl
contains-distinct (x ∷ xs) d = elim (Bool-cases (contains (distinct xs) x)) [
  | inl e ↦ elim (Bool-cases (x == d)) [
    | inl same ↦
        let here : contains (distinct xs) d ≡ true =
          subst (λ n. contains (distinct xs) n ≡ true) (ground (arith, same)) e in
        rw e (ground (arith, contains-distinct xs d, same, here))
    | inr other ↦ rw e (ground (arith, contains-distinct xs d, other))
  ]
  | inr e ↦ rw e (ground (arith, contains-distinct xs d))
]

lacks-All : (xs : List ℕ) (x : ℕ) → contains xs x ≡ false → All (λ y. x ≢ y) xs
lacks-All [] x h = tt
lacks-All (y ∷ ys) x h = (
  (λ e. let impossible : true ≡ false = ground (arith, h, e) in cc (impossible)),
  lacks-All ys x (ground (arith, h)),
)

distinct-apart : (xs : List ℕ) → Pairwise (λ a b. a ≢ b) (distinct xs)
unfolding distinct
distinct-apart [] = tt
distinct-apart (x ∷ xs) = elim (Bool-cases (contains (distinct xs) x)) [
  | inl e ↦ rw e (distinct-apart xs)
  | inr e ↦ rw e (lacks-All (distinct xs) x e, distinct-apart xs)
]

in_right : (a b c : Bool) → a ≡ b || c → a ≡ true → b ≡ false → c ≡ true
in_right a b c e h lost = ground (arith, e, h, lost)

from_left : (a b c : Bool) → a ≡ b || c → b ≡ true → a ≡ true
from_left a b c e h = ground (arith, e, h)

from_right : (a b c : Bool) → a ≡ b || c → c ≡ true → a ≡ true
from_right a b c e h = ground (arith, e, h)

not_or : (a b : Bool) → (a || b) ≡ false → a ≡ false
not_or a b h = ground (arith, h)

past : (a b : ℕ) → a ≤ b → b == a ≡ false → suc a ≤ b
past a b h e = ground (arith, h, e)

-- The years of a range of dates are those that the range of Python gives.
last_year :
    (s e y : ℕ)
    → ltb s 2 ≡ false
    → ltb (e + 1) (s - 1) ≡ false
    → y < (s - 1) + (e + 3 - s)
    → y ≤ e + 1
last_year s e y h h' h'' = ground (arith, h, h', h'')

year_of_range :
    (s e y : ℕ)
    → ltb s 2 ≡ false
    → ltb (e + 1) (s - 1) ≡ false
    → y ≤ e + 1
    → y < (s - 1) + (e + 3 - s)
year_of_range s e y h h' h'' = ground (arith, h, h', h'')

no_year : (s e y : ℕ) → s ≤ y → y ≤ e → ltb e s ≡ true → true ≡ false
no_year s e y h h' h'' = ground (arith, h, h', h'')

both_within :
    (low high d : ℕ) (c : Bool)
    → (within low high d && c) ≡ true
    → (low ≤ d) × (d ≤ high) × (c ≡ true)
both_within low high d c h = ground (arith, h)

is_within :
    (low high d : ℕ) (c : Bool) → low ≤ d → d ≤ high → c ≡ true → (within low high d && c) ≡ true
is_within low high d c h h' h'' = ground (arith, h, h', h'')

-- A year of a range has the day as one of its holidays.
abbrev HasYear : ℕ → ℕ → ℕ → Type 0
HasYear first last d =
    (year : ℕ) × (first ≤ year) × (year ≤ last) × (contains (holidays_for_year year) d ≡ true)

holidays_of_years-HasYear :
    (first n d : ℕ)
    → contains (holidays_of_years first n) d ≡ true
    → (year : ℕ) × (first ≤ year)
      × (year < first + n)
      × (contains (holidays_for_year year) d ≡ true)
unfolding holidays_of_years
holidays_of_years-HasYear first zero d h = cc (h)
holidays_of_years-HasYear first (suc n) d h =
    elim (Bool-cases (contains (holidays_for_year first) d)) [
      | inl e ↦ (first, omega arith, omega arith, e)
      | inr e ↦
          let joined =
            contains-append (holidays_for_year first) (holidays_of_years (suc first) n) d in
          let (year, low, high, found) =
            holidays_of_years-HasYear (suc first) n d (in_right _ _ _ joined h e) in
          (year, omega (arith, low), omega (arith, high), found)
    ]

HasYear-holidays_of_years :
    (first n d year : ℕ)
    → first ≤ year
    → year < first + n
    → contains (holidays_for_year year) d ≡ true
    → contains (holidays_of_years first n) d ≡ true
unfolding holidays_of_years
HasYear-holidays_of_years first zero d year low high found =
    let impossible : true ≡ false = ground (arith, low, high) in cc (impossible)
HasYear-holidays_of_years first (suc n) d year low high found =
    let joined = contains-append (holidays_for_year first) (holidays_of_years (suc first) n) d in
    elim (Bool-cases (year == first)) [
      | inl e ↦
          let here : contains (holidays_for_year first) d ≡ true =
            subst (λ y. contains (holidays_for_year y) d ≡ true) (==→eq year first e) found in
          from_left _ _ _ joined here
      | inr e ↦
          let later =
            HasYear-holidays_of_years (suc first) n d year (past first year low e)
              (omega (arith, high)) found in
          from_right _ _ _ joined later
    ]

-- A holiday of the horizon: of a year from the one before its first to the one after its last, and
-- between its bounds.
abbrev pub IsHolidayOf : Date → Date → ℕ → Type 0
IsHolidayOf starts_on ends_on d =
    HasYear (starts_on.year - 1) (ends_on.year + 1) d
    × (of_date starts_on ≤ d)
    × (d ≤ of_date ends_on)

candidate_holidays_iff :
    (starts_on ends_on : Date) (d : ℕ)
    → ltb starts_on.year 2 ≡ false
    → ltb (ends_on.year + 1) (starts_on.year - 1) ≡ false
    → (contains (candidate_holidays starts_on ends_on) d ≡ true) ↔ IsHolidayOf starts_on ends_on d
unfolding candidate_holidays
candidate_holidays_iff starts_on ends_on d real years =
    let first = starts_on.year - 1 in
    let n = ends_on.year + 3 - starts_on.year in
    let split =
      contains-keep_if (within (of_date starts_on) (of_date ends_on)) (holidays_of_years first n)
        d in
    (
      (λ h.
          let (after, before, listed) =
            both_within (of_date starts_on) (of_date ends_on) d _ (sym split ∙ h) in
          let (year, low, high, found) = holidays_of_years-HasYear first n d listed in
          (
            (year, low, last_year starts_on.year ends_on.year year real years high, found),
            after,
            before,
          )),
      (λ ((year, low, high, found), after, before).
          let known =
            HasYear-holidays_of_years first n d year low
              (year_of_range starts_on.year ends_on.year year real years high) found in
          split ∙ is_within (of_date starts_on) (of_date ends_on) d _ after before known),
    )

-- A horizon that is computed has its holidays in increasing order, none of them twice, and a day is
-- one of them exactly when it is between the bounds and a holiday of a year from the one before the
-- first to the one after the last.
pub holidays_between_iff :
    (starts_on ends_on : Date) (days : List ℕ)
    → holidays_between starts_on ends_on ≡ ok days
    → Strict days × ((d : ℕ) → (contains days d ≡ true) ↔ IsHolidayOf starts_on ends_on d)
unfolding holidays_between
holidays_between_iff starts_on ends_on days e =
    elim (Bool-cases (ltb (ends_on.year + 1) (starts_on.year - 1))) [
      | inl empty ↦
          subst
            (λ l. Strict l × ((d : ℕ) → (contains l d ≡ true) ↔ IsHolidayOf starts_on ends_on d))
            (ok-injective (rw empty at e))
            (
              tt,
              (λ d. (
                (λ h. cc (h)),
                (λ ((year, low, high, found), after, before).
                    let impossible =
                      no_year (starts_on.year - 1) (ends_on.year + 1) year low high empty in
                    cc (impossible)),
              )),
            )
      | inr years ↦ elim (Bool-cases (ltb starts_on.year 2 || leb 9999 ends_on.year)) [
        | inl out ↦ cc (rw (years, out) at e)
        | inr in_range ↦
            let real = not_or (ltb starts_on.year 2) (leb 9999 ends_on.year) in_range in
            let candidates = candidate_holidays starts_on ends_on in
            subst
              (λ l. Strict l × ((d : ℕ) → (contains l d ≡ true) ↔ IsHolidayOf starts_on ends_on d))
              (ok-injective (rw (years, in_range) at e))
              (
                sort-Strict (distinct candidates) (distinct-apart candidates),
                (λ d.
                    let same =
                      contains-sort (distinct candidates) d ∙ contains-distinct candidates d in
                    rw same (candidate_holidays_iff starts_on ends_on d real years)),
              )
      ]
    ]
