-- ===== src/Clint.antt =====
-- kernel/src/clint.rs: the machine timer. Its registers are read and written at successive instants, and
-- what `mtime` is at an instant is a parameter.
pub mod Timer
mod Tests
use ferret_os.Common.{
  ℕ, zero, suc, ◌+◌, ◌*◌, ◌-◌, ◌%◌, ◌/◌, ◌^◌, List, [], ◌∷◌, leb, ◌==◌, if◌then◌else◌, Run, ok,
  out_of_fuel, ◌>>=◌, wrapping_add, u32_mod,
}

abbrev pub tick_cycles : ℕ
tick_cycles = 10000

-- A 64-bit register as its high and low words.
pub record Words : Type 0 where
  pub hi : ℕ
  pub lo : ℕ

abbrev pub value : Words → ℕ
value w = w.hi * u32_mod + w.lo

abbrev pub hi_word : ℕ → ℕ
hi_word v = v / u32_mod % u32_mod

-- `TICK_COUNT`, `NEXT_DEADLINE` and `mtimecmp`.
pub record Clint : Type 0 where
  pub tick_count : ℕ
  pub next_deadline : ℕ
  pub mtimecmp : Words

-- The three reads are at the instants `at`, `at + 1` and `at + 2`. The result is with the next instant.
unfoldable pub get_mtime : ℕ → (ℕ → ℕ) → ℕ → Run (ℕ × ℕ)
get_mtime zero mtime at = out_of_fuel
get_mtime (suc fuel) mtime at =
    let hi0 = hi_word (mtime at) in
    let lo = mtime (at + 1) % u32_mod in
    let hi1 = hi_word (mtime (at + 2)) in
    let again = get_mtime fuel mtime (at + 3) in
    if hi0 == hi1 then ok (hi0 * u32_mod + lo, at + 3) else again

-- The contents of `mtimecmp` after each of the three writes.
unfoldable pub mtimecmp_writes : ℕ → Words → List Words
mtimecmp_writes val w =
    record { hi = u32_mod - 1; lo = w.lo }
    ∷ record { hi = u32_mod - 1; lo = val % u32_mod }
    ∷ record { hi = hi_word val; lo = val % u32_mod }
    ∷ []

unfoldable pub last_write : Words → List Words → Words
last_write w [] = w
last_write w (w' ∷ ws) = last_write w' ws

unfoldable pub set_mtimecmp : ℕ → Clint → Clint
set_mtimecmp val c = record c { mtimecmp = last_write c.mtimecmp (mtimecmp_writes val c.mtimecmp) }

-- `schedule_tick(cycles)`
unfoldable pub schedule_tick : ℕ → ℕ → (ℕ → ℕ) → ℕ → Clint → Run Clint
schedule_tick cycles fuel mtime at c = do
  (now, later) ← get_mtime fuel mtime at
  ok (set_mtimecmp ((now + cycles) % 2 ^ 64) c)

unfoldable pub timer_isr : ℕ → (ℕ → ℕ) → ℕ → Clint → Run (ℕ × Clint)
timer_isr fuel mtime at c = do
  let tick = wrapping_add c.tick_count 1
  let next = (c.next_deadline + tick_cycles) % 2 ^ 64
  (now, later) ← get_mtime fuel mtime at
  let deadline = if leb next now then (now + tick_cycles) % 2 ^ 64 else next
  ok (tick, set_mtimecmp deadline (record c { tick_count = tick; next_deadline = deadline }))

unfoldable pub start_ticks : ℕ → (ℕ → ℕ) → ℕ → Clint → Run Clint
start_ticks fuel mtime at c = do
  (now, later) ← get_mtime fuel mtime at
  let deadline = (now + tick_cycles) % 2 ^ 64
  ok (set_mtimecmp deadline (record c { next_deadline = deadline }))

unfoldable pub ticks : Clint → ℕ
ticks c = c.tick_count
