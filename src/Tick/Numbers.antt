-- ===== src/Tick/Numbers.antt =====
-- Python's floats, with the operations that the advance makes on them. They are abstract: the laws
-- are those of IEEE doubles at the values that a blueprint admits (finite and not negative).
use jira_simulator.Base.{ℕ, ◌^◌, ◌≤◌, ◌≡◌, Bool, true, false}

pub record Floats : Type 1 where
  pub Num : Type 0
  pub zero : Num
  pub one : Num
  -- x < y
  pub less : Num → Num → Bool
  -- x == 0
  pub is_zero : Num → Bool
  -- round(n * x)
  pub round_scaled : ℕ → Num → ℕ
  -- At most one times an integer that a double represents, rounded, is at most that integer.
  pub round_scaled-le : (n : ℕ) (x : Num) → n ≤ 2 ^ 53 → less one x ≡ false → round_scaled n x ≤ n
  pub less_irrefl : (x : Num) → less x x ≡ false
  -- What lies below a number that `z` does not lie below.
  pub less_down : (x y z : Num) → less x y ≡ true → less z y ≡ false → less z x ≡ false
