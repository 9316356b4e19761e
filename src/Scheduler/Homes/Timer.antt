-- ===== src/Scheduler/Homes/Timer.antt =====
-- The frames that the timer interrupt stores and returns.
use ferret_os.Common.{
  ℕ, zero, suc, ◌+◌, ◌≡◌, refl, sym, ◌∙◌, ap, Bool, Option, none, some, ◌==◌, if◌then◌else◌, arith,
  Bool-cases, Option-cases, inl, inr, ok, halted, Ensures, Ensures->>=, Ensures-if, Ensures-next,
  wrapping_add,
}
use ferret_os.Scheduler.{
  Kernel, task_ptr, frame_of, save_current, dispatch_next, requeue_current, wake_sleepers,
  check_stack_canaries, should_preempt, update_task, effective_of, next_effective, tick,
  on_timer_interrupt, record_sample,
}
use ferret_os.Scheduler.Homes.{
  Homed, Stays, Resumes, save_current-Homed, dispatch_next-Resumes, requeue_current-Homed,
  wake_sleepers_loop-Homed,
}

module _ (homes : ℕ → ℕ) (count : ℕ) where
  -- What a tick reports of a switch.
  abbrev Ticked : ℕ → Option ℕ × Kernel → Type 0
  Ticked cur (switched, k) = Homed homes count k × (switched ≡ none → k.current_task_idx ≡ cur)

  reported :
      (cur elapsed : ℕ) (k : Kernel)
      → Homed homes count k
      → Ensures (Ticked cur) (
          if k.current_task_idx == cur
          then ok (none, k)
          else ok (
            some k.current_task_idx,
            record k { switch_stats = record_sample k.switch_stats elapsed },
          ))
  reported cur elapsed k h = elim (Bool-cases (k.current_task_idx == cur)) [
    | inl q ↦ rw q (h, λ _. ground arith)
    | inr q ↦ rw q (record { size = h.size; home = h.home }, λ e. cc)
  ]

  tick-Ticked :
      (isr_entry instret_now : ℕ) (k : Kernel)
      → Homed homes count k
      → Ensures (Ticked k.current_task_idx) (tick isr_entry instret_now k)
  unfolding tick
  tick-Ticked isr_entry instret_now k₀ h₀ =
      let k = record k₀ { ticks_since_switch = wrapping_add k₀.ticks_since_switch 1 } in
      let h : Homed homes count k = record { size = h₀.size; home = h₀.home } in
      Ensures-next (Ticked k.current_task_idx) (next_effective k) _ (λ next_eff.
        Ensures-if (Ticked k.current_task_idx)
          (should_preempt (effective_of (task_ptr k k.current_task_idx)) next_eff
            k.ticks_since_switch)
          _ (ok (none, k))
          (Ensures->>= (Stays homes count k.current_task_idx) (Ticked k.current_task_idx)
            (requeue_current k) _ (requeue_current-Homed homes count k h)
            (λ k₁ s.
              Ensures->>= (Resumes homes count) (Ticked k.current_task_idx) (dispatch_next k₁) _
                (dispatch_next-Resumes homes count k₁ s.homed)
                (λ (frame, k₂) (h₂, at). reported k.current_task_idx _ k₂ h₂)))
          (h, λ _. refl))

  check_stack_canaries-same :
      (canary_intact : ℕ → Bool) (left i : ℕ) (k : Kernel)
      → Ensures (λ k'. k' ≡ k) (check_stack_canaries canary_intact left i k)
  unfolding check_stack_canaries
  check_stack_canaries-same canary_intact zero i k = refl
  check_stack_canaries-same canary_intact (suc left) i k = elim (Option-cases (task_ptr k i)) [
    | inl gone ↦
        rw (gone, check_stack_canaries) (check_stack_canaries-same canary_intact left (i + 1) k)
    | inr (t, at) ↦
        rw (at, check_stack_canaries)
          (Ensures-if (λ k'. k' ≡ k) (canary_intact t.stack_base)
            (check_stack_canaries canary_intact left (i + 1) k) halted
            (check_stack_canaries-same canary_intact left (i + 1) k) tt)
  ]

  resumed :
      (frame cur : ℕ) (switched : Option ℕ) (k : Kernel)
      → frame ≡ homes cur
      → Ticked cur (switched, k)
      → Resumes homes count
          (elim switched [ none ↦ frame | some idx ↦ frame_of k k.current_task_idx ], k)
  resumed frame cur none k own (h, same) = (h, inr (own ∙ ap homes (sym (same refl))))
  resumed frame cur (some idx) k own (h, same) = (h, inl refl)

  pub on_timer_interrupt-Resumes :
      (canary_intact : ℕ → Bool) (isr_entry instret_now now frame : ℕ) (k : Kernel)
      → frame ≡ homes k.current_task_idx
      → Homed homes count k
      → Ensures
          (Resumes homes count)
          (on_timer_interrupt canary_intact isr_entry instret_now now frame k)
  unfolding on_timer_interrupt wake_sleepers update_task
  on_timer_interrupt-Resumes canary_intact isr_entry instret_now now frame k own h =
      let saved = save_current k frame in
      Ensures->>= (λ k₂. k₂ ≡ saved) (Resumes homes count)
        (check_stack_canaries canary_intact saved.registry.count 0 saved) _
        (check_stack_canaries-same canary_intact saved.registry.count 0 saved)
        (λ k₂ same.
          Ensures->>= (Stays homes count k.current_task_idx) (Resumes homes count)
            (wake_sleepers now k₂) _
            (rw same (
              unfold save_current in
              (wake_sleepers_loop-Homed homes count saved.registry.count 0 now saved
                (save_current-Homed homes count frame k own h))))
            (λ k₃ s.
              Ensures->>= (Ticked k₃.current_task_idx) (Resumes homes count)
                (tick isr_entry instret_now k₃) _ (tick-Ticked isr_entry instret_now k₃ s.homed)
                (λ (switched, k₄) t.
                  resumed frame k₃.current_task_idx switched k₄ (own ∙ ap homes (sym s.same)) t)))
