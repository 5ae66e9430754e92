-- ===== src/State/Rounding.antt =====
-- The rounding of sampled hours to microseconds: the nearest, and the even one of two.
use jira_simulator.Base.{
  ℕ, ◌+◌, ◌*◌, ◌/◌, ◌%◌, ◌≤◌, ◌<◌, ◌≡◌, ◌&&◌, ◌||◌, ltb, ◌==◌, arith, inl, inr, Bool-cases,
}
use native.Mathlib.Nat.{mod-lt, mod-add-div}
use jira_simulator.State.Samples.{hours_to_microseconds, round_half_even}

-- `rounded` is one of the integers nearest to `n / d`, and even where two are.
pub record IsNearestEven (n d rounded : ℕ) : Type 0 where
  pub not_above : 2 * (rounded * d) ≤ 2 * n + d
  pub not_below : 2 * n ≤ 2 * (rounded * d) + d
  pub tie_above : 2 * (rounded * d) ≡ 2 * n + d → rounded % 2 ≡ 0
  pub tie_below : 2 * n ≡ 2 * (rounded * d) + d → rounded % 2 ≡ 0

rounding_cases :
    (n d q r product : ℕ)
    → 0 < d
    → r < d
    → r + product ≡ n
    → q * d ≡ product
    → (q + 1) * d ≡ product + d
    → IsNearestEven n d (round_half_even q (r * 2) d)
unfolding round_half_even
rounding_cases n d q r product positive small whole now next =
    elim (Bool-cases (ltb d (r * 2) || (r * 2 == d && q % 2 == 1))) [
      | inl up ↦ rw up record {
        not_above = ground (arith, up);
        not_below = ground (arith, up);
        tie_above = λ e. ground (arith, up, e);
        tie_below = λ e. ground (arith, up, e);
      }
      | inr down ↦ rw down record {
        not_above = ground (arith, down);
        not_below = ground (arith, down);
        tie_above = λ e. ground (arith, down, e);
        tie_below = λ e. ground (arith, down, e);
      }
    ]

-- The microseconds are those nearest to the hours; of two that are equally near, the even one.
pub hours_to_microseconds-IsNearestEven :
    (numerator denominator : ℕ)
    → 0 < denominator
    → IsNearestEven
        (numerator * 3600000000)
        denominator
        (hours_to_microseconds numerator denominator)
unfolding hours_to_microseconds
hours_to_microseconds-IsNearestEven numerator denominator positive =
    let n = numerator * 3600000000 in
    rounding_cases n denominator (n / denominator) (n % denominator)
      (denominator * (n / denominator)) positive (mod-lt n positive) (mod-add-div n denominator)
      (grind arith) (grind arith)
