-- ===== src/Scheduler/Tests.antt =====
-- The witnesses of the scheduler.
use ferret_os.Scheduler.RoundRobin.{yields, yields-turn}
use ferret_os.Scheduler.{same_state, effective_of}
use ferret_os.Scheduler.Lookup.{is_ready}
use ferret_os.Ccg.Populated.{slot, no_task_beyond}
use ferret_os.Task.{effective_priority}
use ferret_os.Common.{
  ℕ, ◌<◌, ◌≡◌, true, false, none, some, arith, ok, ◌==◌, if◌then◌else◌, ◌⊎◌, wrapping_add, leb,
}
use ferret_os.Task.{sleep, receive}
use ferret_os.Ccg.Populated.{slot}
use ferret_os.Scheduler.{
  Kernel, frame_of, tick, yield_current, preempt_if_outranked, block_current, sleep_current,
  wake_sleepers, wake_blocked_on, is_blocked_on, update_task, make_ready,
}
use ferret_os.Scheduler.Dispatch.{Served}
use ferret_os.Scheduler.Calls.{
  Steady, tick-Served, yield_current-Served, preempt_if_outranked-Served,
}
use ferret_os.Scheduler.Switched.{waiting_for, asleep_until, Switched}
use ferret_os.Scheduler.Blocking.{block_current-Served, sleep_current-Served}
use ferret_os.Scheduler.Waking.{woken, wake_sleepers-woken, wake_blocked_on-woken}
use ferret_os.Scheduler.Demo.{task, one_waits, some_wait, demo, demo_slots, demo-Steady}
use ferret_os.Scheduler.{tick_reached}
use ferret_os.Scheduler.Clock.{tick_reached-elapsed}
use ferret_os.Scheduler.Timer.{on_timer_interrupt-Served}
use ferret_os.Scheduler.{on_timer_interrupt, task_ptr, save_current}
use ferret_os.Common.{zero, suc, refl, length, arith, halted, ℕ, ◌≤◌}
use ferret_os.Task.{TaskDescriptor}

tick-Served_example :
    (k' : Kernel) × (tick 0 40 demo
      ≡ ok (
        (if k'.current_task_idx == demo.current_task_idx then none else some k'.current_task_idx),
        k',
      ))
    × Steady 2 k'
    × Served k'
tick-Served_example = tick-Served 0 40 1 demo demo-Steady (omega arith)

yield_current-Served_example :
    (k' : Kernel) × (yield_current 8192 demo ≡ ok (frame_of k' k'.current_task_idx, k'))
    × Steady 2 k'
    × Served k'
yield_current-Served_example = yield_current-Served 1 8192 demo demo-Steady (omega arith)

preempt_if_outranked-Served_example :
    (frame' : ℕ) × (k' : Kernel) × (preempt_if_outranked 8192 demo ≡ ok (frame', k'))
    × Steady 2 k'
    × Served k'
    × (((frame' ≡ 8192) × (k' ≡ demo)) ⊎ (frame' ≡ frame_of k' k'.current_task_idx))
preempt_if_outranked-Served_example =
    preempt_if_outranked-Served 1 8192 demo demo-Steady (omega arith)

block_current-Served_example :
    (k' : Kernel) × (block_current 8192 (receive 2) demo ≡ ok (frame_of k' k'.current_task_idx, k'))
    × Steady 1 k'
    × Served k'
    × Switched (waiting_for 8192 (receive 2)) demo k'
block_current-Served_example = block_current-Served 1 demo demo-Steady some_wait 8192 (receive 2)

sleep_current-Served_example :
    (k' : Kernel) × (sleep_current 5 8192 3 demo ≡ ok (frame_of k' k'.current_task_idx, k'))
    × Steady 1 k'
    × Served k'
    × Switched (asleep_until 8192 8) demo k'
sleep_current-Served_example = sleep_current-Served 1 demo demo-Steady some_wait 5 8192 3

wake_sleepers-woken_example :
    (k' : Kernel) × (wake_sleepers 7 demo ≡ ok k')
    × Steady 4 k'
    × ((j : ℕ) → slot k'.registry.slots j ≡ woken 7 0 3 j (slot demo_slots j))
    × (k'.current_task_idx ≡ 0)
wake_sleepers-woken_example = wake_sleepers-woken 7 1 demo demo-Steady (omega arith)

wake_blocked_on-woken_example :
    ((wake_blocked_on sleep demo ≡ ok (none, demo))
      × ((j : ℕ) → j < 3 → is_blocked_on sleep (slot demo_slots j) ≡ false))
    ⊎ ((j : ℕ) × (k' : Kernel) × (wake_blocked_on sleep demo ≡ ok (some j, k'))
        × (is_blocked_on sleep (slot demo_slots j) ≡ true)
        × Steady 2 k'
        × (k'.registry ≡ (update_task demo j make_ready).registry)
        × (k'.current_task_idx ≡ 0))
wake_blocked_on-woken_example = wake_blocked_on-woken 1 sleep demo demo-Steady (omega arith)

tick_reached-elapsed_example :
    tick_reached (wrapping_add 4294967290 9) (wrapping_add 4294967290 10) ≡ leb 10 9
tick_reached-elapsed_example =
    tick_reached-elapsed 4294967290 10 9 (omega arith) (omega arith) (omega arith)

on_timer_interrupt-Served_example :
    ((on_timer_interrupt (λ a. true) 0 40 7 4000 demo ≡ halted)
      × (j : ℕ) × (t : TaskDescriptor) × (j < 3)
      × (task_ptr (save_current demo 4000) j ≡ some t)
      × (true ≡ false))
    ⊎ ((k' : Kernel) × (on_timer_interrupt (λ a. true) 0 40 7 4000 demo
          ≡ ok (
            (if k'.current_task_idx == demo.current_task_idx
                then 4000
                else frame_of k' k'.current_task_idx),
            k',
          ))
        × Steady 5 k'
        × Served k')
on_timer_interrupt-Served_example =
    on_timer_interrupt-Served (λ a. true) 0 40 7 4000 1 demo demo-Steady (omega arith)

no_task_outranks_1 :
    (i : ℕ) → effective_of (slot demo.registry.slots i) ≤ effective_priority (task 1 3)
unfolding effective_of slot effective_priority
no_task_outranks_1 zero = omega arith
no_task_outranks_1 (suc zero) = omega arith
no_task_outranks_1 (suc (suc zero)) = omega arith
no_task_outranks_1 (suc (suc (suc i))) = rw (no_task_beyond 13 i _ _ _) (omega arith)

ready_1 : is_ready (some (task 1 3)) ≡ true
unfolding is_ready same_state
ready_1 = refl

at_1 : slot demo.registry.slots 1 ≡ some (task 1 3)
unfolding slot
at_1 = refl

yields-turn_example :
    (m : ℕ) × (k' : Kernel) × (m ≤ length demo-Steady.waiters)
    × (yields m (λ i. 4096) demo ≡ ok k')
    × (k'.current_task_idx ≡ 1)
yields-turn_example =
    yields-turn 1 1 (λ i. 4096) demo (task 1 3) demo-Steady one_waits at_1 ready_1
      no_task_outranks_1
