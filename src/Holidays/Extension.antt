-- ===== src/Holidays/Extension.antt =====
-- The end that the horizon catches up to.
use jira_simulator.Base.{
  ℕ, zero, suc, ◌+◌, ◌*◌, ◌≤◌, ◌<◌, ◌≡◌, inl, inr, refl, sym, subst, ◌↔◌, true, false, ltb,
  Bool-cases, arith,
}
use jira_simulator.Base.Result.{ok, ok-injective}
use jira_simulator.Holidays.{requires_extension, catch_up, catch_up_end}

-- What the loop is to find: the first year, in steps of ten from the given one, that does not
-- require an extension.
pub record IsCaughtUp (end_year as_of reached : ℕ) : Type 0 where
  pub steps : ℕ
  pub by_tens : reached ≡ end_year + steps * 10
  pub needed : (n : ℕ) → n < steps → requires_extension (end_year + n * 10) as_of ≡ true
  pub enough : requires_extension reached as_of ≡ false

nothing_below : (n : ℕ) → n < 0 → ⊥
nothing_below n h = omega (arith, h)

needed_first :
    (end_year as_of steps : ℕ)
    → requires_extension end_year as_of ≡ true
    → ((n : ℕ) → n < steps → requires_extension (end_year + 10 + n * 10) as_of ≡ true)
    → (n : ℕ) → n < suc steps
    → requires_extension (end_year + n * 10) as_of ≡ true
needed_first end_year as_of steps first later zero h =
    let here : end_year ≡ end_year + 0 * 10 = omega arith in
    subst (λ y. requires_extension y as_of ≡ true) here first
needed_first end_year as_of steps first later (suc n) h =
    let shift : end_year + 10 + n * 10 ≡ end_year + suc n * 10 = omega arith in
    subst (λ y. requires_extension y as_of ≡ true) shift (later n (omega (arith, h)))

catch_up_sound :
    (fuel end_year as_of reached : ℕ)
    → catch_up fuel end_year as_of ≡ ok reached
    → IsCaughtUp end_year as_of reached
unfolding catch_up
catch_up_sound zero end_year as_of reached e = cc (e)
catch_up_sound (suc fuel) end_year as_of reached e =
    elim (Bool-cases (requires_extension end_year as_of)) [
      | inl more ↦ elim (Bool-cases (ltb 9989 end_year)) [
        | inl over ↦ cc (rw (more, over) at e)
        | inr in_range ↦
            let later =
              catch_up_sound fuel (end_year + 10) as_of reached (rw (more, in_range) at e) in
            record {
              steps = suc later.steps;
              by_tens = omega (arith, later.by_tens);
              needed = needed_first end_year as_of later.steps more later.needed;
              enough = later.enough;
            }
      ]
      | inr done ↦
          let same : end_year ≡ reached = ok-injective (rw done at e) in
          record {
            steps = 0;
            by_tens = omega (arith, same);
            needed = λ n h. elim (nothing_below n h) [ ];
            enough = rw same at done;
          }
    ]

catch_up_complete :
    (fuel steps end_year as_of : ℕ)
    → steps < fuel
    → end_year + steps * 10 ≤ 9999
    → ((n : ℕ) → n < steps → requires_extension (end_year + n * 10) as_of ≡ true)
    → requires_extension (end_year + steps * 10) as_of ≡ false
    → catch_up fuel end_year as_of ≡ ok (end_year + steps * 10)
unfolding catch_up
catch_up_complete zero steps end_year as_of h range needed enough = elim (nothing_below steps h) [ ]
catch_up_complete (suc fuel) zero end_year as_of h range needed enough =
    let here : end_year + 0 * 10 ≡ end_year = omega arith in
    let done : requires_extension end_year as_of ≡ false = rw here at enough in rw (here, done) refl
catch_up_complete (suc fuel) (suc steps) end_year as_of h range needed enough =
    let here : end_year + 0 * 10 ≡ end_year = omega arith in
    let more : requires_extension end_year as_of ≡ true =
      subst (λ y. requires_extension y as_of ≡ true) here (needed 0 (omega arith)) in
    let in_range : ltb 9989 end_year ≡ false = ground arith in
    let shift : (n : ℕ) → end_year + suc n * 10 ≡ end_year + 10 + n * 10 = λ n. omega arith in
    rw (more, in_range, shift steps)
      (catch_up_complete fuel steps (end_year + 10) as_of (omega arith) (omega (arith, range))
        (λ n below.
          subst (λ y. requires_extension y as_of ≡ true) (shift n)
            (needed (suc n) (omega (arith, below))))
        (subst (λ y. requires_extension y as_of ≡ false) (shift steps) enough))

-- The year that the horizon's end is moved to is the first, in steps of ten years from its own,
-- that does not require an extension, and within the range of dates such a year is always found:
-- the loop stops.
pub catch_up_end_iff :
    (end_year as_of reached : ℕ)
    → reached ≤ 9999
    → (catch_up_end end_year as_of ≡ ok reached) ↔ IsCaughtUp end_year as_of reached
unfolding catch_up_end
catch_up_end_iff end_year as_of reached h = (
  catch_up_sound 1000 end_year as_of reached,
  λ c.
      subst (λ y. catch_up 1000 end_year as_of ≡ ok y) (sym c.by_tens)
        (catch_up_complete 1000 c.steps end_year as_of (omega (arith, h, c.by_tens))
          (omega (arith, h, c.by_tens)) c.needed
          (subst (λ y. requires_extension y as_of ≡ false) c.by_tens c.enough)),
)
