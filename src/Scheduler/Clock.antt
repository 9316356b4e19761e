-- ===== src/Scheduler/Clock.antt =====
-- The wake-up test of a sleep, with a tick counter that wraps around.
use ferret_os.Common.{ℕ, ◌≤◌, ◌<◌, ◌^◌, ◌≡◌, leb, arith, wrapping_add}
use ferret_os.Scheduler.{tick_reached}

-- A sleep of at most 2^31 ticks, looked at less than 2^31 ticks after it began, is over exactly if its
-- ticks have passed, whatever the counter was.
pub tick_reached-elapsed :
    (clock ticks passed : ℕ)
    → clock < 2 ^ 32
    → ticks ≤ 2 ^ 31
    → passed < 2 ^ 31
    → tick_reached (wrapping_add clock passed) (wrapping_add clock ticks) ≡ leb ticks passed
unfolding tick_reached
tick_reached-elapsed clock ticks passed c t p = ground arith
