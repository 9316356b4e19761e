-- ===== src/Scheduler/Timer.antt =====
-- The timer interrupt: the canary check, the wake-up of sleepers and the tick.
use ferret_os.Common.{
  ℕ, zero, suc, ◌+◌, ◌≤◌, ◌<◌, ◌^◌, ◌≡◌, refl, Bool, true, false, none, some, ◌==◌, if◌then◌else◌,
  ok, halted, arith, Bool-cases, Option-cases, inl, inr, ◌⊎◌,
}
use ferret_os.Task.{TaskDescriptor}
use ferret_os.Scheduler.{
  Kernel, task_ptr, frame_of, save_current, update_task, check_stack_canaries, on_timer_interrupt,
}
use ferret_os.Scheduler.Dispatch.{Served}
use ferret_os.Scheduler.Calls.{Steady, tick-Served, save_current-Steady}
use ferret_os.Scheduler.Waking.{wake_sleepers-woken}

module _ (canary_intact : ℕ → Bool) (k : Kernel) where
  pub check_stack_canaries-cases :
      (left i : ℕ)
      → ((check_stack_canaries canary_intact left i k ≡ halted)
          × (j : ℕ) × (t : TaskDescriptor) × (j < i + left)
          × (task_ptr k j ≡ some t)
          × (canary_intact t.stack_base ≡ false))
        ⊎ ((check_stack_canaries canary_intact left i k ≡ ok k)
            × ((j : ℕ) (t : TaskDescriptor)
                → i ≤ j
                → j < i + left
                → task_ptr k j ≡ some t
                → canary_intact t.stack_base ≡ true))
  unfolding check_stack_canaries
  check_stack_canaries-cases zero i = inr (refl, λ j t ge lt at. absurd (omega arith))
  check_stack_canaries-cases (suc left) i = elim (check_stack_canaries-cases left (i + 1)) [
    | inl (stops, j, t, lt, at, broken) ↦ elim (Option-cases (task_ptr k i)) [
      | inl empty ↦ inl (rw (check_stack_canaries, empty) stops, j, t, omega arith, at, broken)
      | inr (u, here) ↦ elim (Bool-cases (canary_intact u.stack_base)) [
        | inl good ↦
            inl (rw (check_stack_canaries, here, good) stops, j, t, omega arith, at, broken)
        | inr bad ↦ inl (rw (check_stack_canaries, here, bad) refl, i, u, omega arith, here, bad)
      ]
    ]
    | inr (goes, intact) ↦ elim (Option-cases (task_ptr k i)) [
      | inl empty ↦ inr (
        rw (check_stack_canaries, empty) goes,
        λ j t ge lt at. elim (Bool-cases (i == j)) [
          | inl q ↦
              (let same : i ≡ j = ground arith in
                let empty' : task_ptr k j ≡ none = rw same at empty in cc)
          | inr q ↦ intact j t (ground arith) (omega arith) at
        ],
      )
      | inr (u, here) ↦ elim (Bool-cases (canary_intact u.stack_base)) [
        | inr bad ↦ inl (rw (check_stack_canaries, here, bad) refl, i, u, omega arith, here, bad)
        | inl good ↦ inr (
          rw (check_stack_canaries, here, good) goes,
          λ j t ge lt at. elim (Bool-cases (i == j)) [
            | inl q ↦
                let same : i ≡ j = ground arith in
                let here' : task_ptr k j ≡ some u = rw same at here in
                let e : u ≡ t = cc in rw e at good
            | inr q ↦ intact j t (ground arith) (omega arith) at
          ],
        )
      ]
    ]
  ]

-- From a steady kernel that stays within 2^31 inserts, the timer interrupt halts only if the canary of a
-- registered task is broken. Otherwise it resumes the interrupted frame if the same task goes on, and
-- else the saved frame of the task that now runs, keeps the kernel steady, and leaves no ready task with
-- a higher effective priority than the running one.
pub on_timer_interrupt-Served :
    (canary_intact : ℕ → Bool) (isr_entry instret_now now frame n : ℕ) (k : Kernel)
    → Steady n k
    → n + k.registry.count < 2 ^ 31
    → ((on_timer_interrupt canary_intact isr_entry instret_now now frame k ≡ halted)
        × (j : ℕ) × (t : TaskDescriptor) × (j < k.registry.count)
        × (task_ptr (save_current k frame) j ≡ some t)
        × (canary_intact t.stack_base ≡ false))
      ⊎ ((k' : Kernel) × (on_timer_interrupt canary_intact isr_entry instret_now now frame k
            ≡ ok (
              (if k'.current_task_idx == k.current_task_idx
                  then frame
                  else frame_of k' k'.current_task_idx),
              k',
            ))
          × Steady (n + k.registry.count + 1) k'
          × Served k')
unfolding on_timer_interrupt save_current update_task
on_timer_interrupt-Served canary_intact isr_entry instret_now now frame n k s few =
    let saved = save_current k frame in
    elim (check_stack_canaries-cases canary_intact saved k.registry.count 0) [
      | inl (stops, j, t, lt, at, broken) ↦ inl (rw stops refl, j, t, omega arith, at, broken)
      | inr (goes, intact) ↦
          let (k₃, wakes, s₃, changed, same) =
            wake_sleepers-woken now n saved (save_current-Steady n frame k s) (omega arith) in
          let (k', ticks, s', served) =
            tick-Served isr_entry instret_now (n + k.registry.count) k₃ s₃ (omega arith) in
          let ticks' = rw same at ticks in
          inr (
            k',
            elim (Bool-cases (k'.current_task_idx == k.current_task_idx)) [
              | inl q ↦ rw (goes, wakes, ticks', q) refl
              | inr q ↦ rw (goes, wakes, ticks', q) refl
            ],
            s',
            served,
          )
    ]
