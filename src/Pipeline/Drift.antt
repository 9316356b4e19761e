-- ===== src/Pipeline/Drift.antt =====
-- The releases of the sensor do not drift, however long its calls take.
use ferret_os.Common.{
  ℕ, zero, suc, ◌+◌, ◌*◌, ◌%◌, ◌^◌, ◌≤◌, ◌≡◌, Bool, true, false, min, if◌then◌else◌, arith,
}
use ferret_os.Pipeline.{Services, Sensor, sensor_step, period}

-- The state is that of turn `n` of a sensor that began at `release`.
pub record OnTime (release n : ℕ) (x : Sensor) : Type 0 where
  pub due : x.release ≡ (release + period * n) % 2 ^ 32
  pub counted : x.seq ≡ n % 2 ^ 32
  pub misses_fit : x.misses ≤ 255
  pub dropped_fit : x.dropped ≤ 65535

module _ {S : Type 0} (services : Services S) where
  -- Turns of the loop of `sensor_reader`.
  unfoldable pub sensor_steps : ℕ → Sensor × S → Sensor × S
  sensor_steps zero x = x
  sensor_steps (suc n) x = sensor_steps n (sensor_step services x)

  sensor_step-OnTime :
      (release n : ℕ) (x : Sensor) (s : S)
      → OnTime release n x
      → OnTime release (n + 1) (sensor_step services (x, s)).0
  unfolding sensor_step
  sensor_step-OnTime release n x s t =
      let due = t.due in
      let counted = t.counted in
      let misses_fit = t.misses_fit in
      let dropped_fit = t.dropped_fit in
      record {
        due = omega arith;
        counted = omega arith;
        misses_fit = capped _ (x.misses + 1) x.misses 255 misses_fit;
        dropped_fit = capped _ (x.dropped + 1) x.dropped 65535 dropped_fit;
      }
    where
      capped :
          (b : Bool) (more same cap_at : ℕ)
          → same ≤ cap_at
          → (if b then min more cap_at else same) ≤ cap_at
      capped true more same cap_at h = omega arith
      capped false more same cap_at h = h

  -- From a sensor in its first turn, the release of turn `n` is `n` periods after the first one, with
  -- wrap-around, its number is `n`, and the counters stay within their words.
  pub sensor_steps-OnTime :
      (release m n : ℕ) (x : Sensor) (s : S)
      → OnTime release n x
      → OnTime release (n + m) (sensor_steps m (x, s)).0
  unfolding sensor_steps
  sensor_steps-OnTime release zero n x s t = let same : n ≡ n + 0 = omega arith in rw same at t
  sensor_steps-OnTime release (suc m) n x s t =
      let same : n + 1 + m ≡ n + suc m = omega arith in
      let (x', s') = sensor_step services (x, s) in
      rw same at (
        sensor_steps-OnTime release m (n + 1) (sensor_step services (x, s)).0
          (sensor_step services (x, s)).1 (sensor_step-OnTime release n x s t))
