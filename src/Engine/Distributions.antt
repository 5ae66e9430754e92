-- ===== src/Engine/Distributions.antt =====
-- backend/app/engine/distributions.py.
use jira_simulator.Base.{ℕ, ltb, not, ◌&&◌, ◌||◌, if◌then◌else◌}
use jira_simulator.Base.Result.{Result, ok, raised, ◌>>=◌}
use jira_simulator.Engine.{Runtime, EngineFault, value_error}

module _ (R : Runtime) where
  open R use {
    Num, zero, two, min_full_time, z_25, z_99, less, less_eq, same, plus, minus, times, over, log,
    exp, Rng, gauss, uniform, randint,
  }

  -- max(x, y)
  abbrev greater : Num → Num → Num
  greater x y = if less x y then y else x

  abbrev absolute : Num → Num
  absolute x = if less x zero then minus zero x else x

  unfoldable pub fit_lognormal : Num → Num → Num → Result EngineFault (Num × Num)
  fit_lognormal p25 p50 p99 =
      if less_eq p25 zero || (less_eq p50 zero || less_eq p99 zero)
      then raised (value_error "All percentiles must be positive")
      else if not (less_eq p25 p50 && less_eq p50 p99)
      then raised (value_error "Percentiles must be ordered")
      else let mu = log p50 in
        let from_p25 = over (minus mu (log p25)) (absolute z_25) in
        let from_p99 = over (minus (log p99) mu) z_99 in
        ok (mu, greater (over (plus from_p25 from_p99) two) zero)

  unfoldable pub sample_full_time : Num → Num → Num → Rng → Result EngineFault (Num × Rng)
  unfolding fit_lognormal
  sample_full_time p25 p50 p99 rng = do
    fitted ← fit_lognormal p25 p50 p99
    let (mu, sigma) = fitted
    let (z, rng') = gauss rng
    ok (
        if same sigma zero
        then (greater (exp mu) min_full_time, rng)
        else (greater (exp (plus mu (times sigma z))) min_full_time, rng'))

  unfoldable pub sample_work_time : Num → Num → Rng → Result EngineFault (Num × Rng)
  sample_work_time min_hours max_hours rng =
      if same min_hours zero && same max_hours zero
      then ok (zero, rng)
      else if less min_hours zero || less max_hours min_hours
      then raised (value_error "Invalid work time range")
      else ok (uniform min_hours max_hours rng)

  unfoldable pub sample_sprint_capacity : ℕ → ℕ → Rng → Result EngineFault (ℕ × Rng)
  sample_sprint_capacity min_sp max_sp rng =
      if ltb max_sp min_sp
      then raised (value_error "Invalid capacity range")
      else ok (randint min_sp max_sp rng)
