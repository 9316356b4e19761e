-- ===== src/Clint/Tests.antt =====
-- A timer whose low word overflows between the first reads, and the witnesses.
use ferret_os.Common.{ℕ, ◌+◌, ◌*◌, ◌≤◌, ◌<◌, ◌≡◌, refl, some, get_elem?, ok, arith, ◌⊎◌}
use ferret_os.Clint.{
  Clint, Words, value, hi_word, get_mtime, mtimecmp_writes, last_write, timer_isr,
}
use ferret_os.Clint.Timer.{get_mtime-exact, mtimecmp_writes-quiet, timer_isr-rearms}

abbrev mtime : ℕ → ℕ
mtime i = 4294967290 + 4 * i

get_mtime-exact_example :
    (get_mtime 2 mtime 0 ≡ ok (mtime 1, 3))
    ⊎ ((hi_word (mtime 0) < hi_word (mtime 2)) × (get_mtime 2 mtime 0 ≡ ok (mtime 4, 6)))
get_mtime-exact_example = get_mtime-exact mtime 0 (λ i j h. omega arith) (omega arith) (omega arith)

abbrev old : Words
old = record { hi = 0; lo = 4294967290 }

mtimecmp_writes-quiet_example :
    ((i : ℕ) (w' : Words)
      → get_elem? (mtimecmp_writes 4294977306 old) i ≡ some w'
      → 4294967306 < value w')
    × (value (last_write old (mtimecmp_writes 4294977306 old)) ≡ 4294977306)
mtimecmp_writes-quiet_example =
    mtimecmp_writes-quiet 4294977306 4294967306 old (omega arith) (omega arith) (omega arith)

abbrev timer : Clint
timer = record { tick_count = 4294967295; next_deadline = 4294967290; mtimecmp = old }

read_time : get_mtime 2 mtime 0 ≡ ok (4294967306, 6)
unfolding get_mtime
read_time = refl

timer_isr-rearms_example :
    (c' : Clint) × (timer_isr 2 mtime 0 timer ≡ ok (0, c'))
    × (c'.tick_count ≡ 0)
    × (4294967306 < c'.next_deadline)
    × (value c'.mtimecmp ≡ c'.next_deadline)
    × (((4294967306 < 4294977290) × (c'.next_deadline ≡ 4294977290))
        ⊎ ((4294977290 ≤ 4294967306) × (c'.next_deadline ≡ 4294977306)))
timer_isr-rearms_example =
    timer_isr-rearms 2 mtime 0 4294967306 6 timer read_time (omega arith) (omega arith)
