-- ===== src/Scheduler/Homes.antt =====
-- The frames that the dispatcher stores and returns: each task keeps its frame at its own place, which is
-- `homes` of its slot, and a call returns the frame of the task that then runs.
pub mod Timer
use mathlib.Core.Option
use ferret_os.Common.{
  ℕ, zero, suc, ◌+◌, ◌≡◌, refl, sym, ◌∙◌, ap, Bool, true, false, Option, none, some, ◌==◌,
  if◌then◌else◌, arith, Bool-cases, Option-cases, inl, inr, ◌⊎◌, Run, ok, halted, ◌>>=◌, Ensures,
  Ensures->>=, Ensures-if, Ensures-next, max, wrapping_add, wrapping_sub, leb,
}
use ferret_os.Task.{TaskDescriptor, BlockReason, ready, running, effective_priority}
use ferret_os.Ccg.Populated.{slot}
use ferret_os.Queue.{pop_max, insert}
use ferret_os.Pmp.{activate_task_region}
use ferret_os.Scheduler.{
  Kernel, task_ptr, update_slot, update_task, with_state, with_frame, block_on, sleep_until,
  make_ready, frame_of, save_current, mark_running, dispatch_next, enqueue_ready, requeue_current,
  is_due, wake, wake_sleepers_loop, wake_sleepers, check_stack_canaries, should_preempt,
  effective_of, next_effective, tick, on_timer_interrupt, yield_current, sleep_current,
  block_current, is_blocked_on, wake_blocked_on_loop, wake_blocked_on, preempt_if_outranked,
  trap_stub_instructions, record_sample,
}
use ferret_os.Scheduler.Lookup.{slot-update_slot}

module _ (homes : ℕ → ℕ) (count : ℕ) where
  -- Every task has its frame at home.
  pub record Homed (k : Kernel) : Type 0 where
    pub size : k.registry.count ≡ count
    pub home :
        (i : ℕ) (t : TaskDescriptor) → slot k.registry.slots i ≡ some t → t.stack_ptr ≡ homes i

  -- Every task has its frame at home, and the same task runs.
  pub record Stays (cur : ℕ) (k : Kernel) : Type 0 where
    pub homed : Homed k
    pub same : k.current_task_idx ≡ cur

  -- The frame that a call returns is the one of the task that runs.
  abbrev pub Resumes : ℕ × Kernel → Type 0
  Resumes (frame, k) =
      Homed k × ((frame ≡ frame_of k k.current_task_idx) ⊎ (frame ≡ homes k.current_task_idx))

  update_task-Homed :
      (k : Kernel) (i : ℕ) (f : TaskDescriptor → TaskDescriptor)
      → ((t : TaskDescriptor) → t.stack_ptr ≡ homes i → (f t).stack_ptr ≡ homes i)
      → Homed k
      → Homed (update_task k i f)
  unfolding update_task
  update_task-Homed k i f keeps h = record {
    size = h.size;
    home = λ j t at. go j t (sym (slot-update_slot k.registry.slots i j f) ∙ at);
  }
    where
      go :
          (j : ℕ) (t : TaskDescriptor)
          → (if i == j then Option.map f (slot k.registry.slots j) else slot k.registry.slots j)
            ≡ some t
          → t.stack_ptr ≡ homes j
      go j t read = elim (Bool-cases (i == j)) [
        | inr q ↦ h.home j t (rw q at read)
        | inl q ↦ elim (Option-cases (slot k.registry.slots j)) [
          | inl gone ↦ absurd (
              let read' : ◌≡◌ {A = Option TaskDescriptor} none (some t) = rw (q, gone) at read in
              cc)
          | inr (u, at) ↦
              let read' : ◌≡◌ {A = Option TaskDescriptor} (some (f u)) (some t) =
                rw (q, at) at read in
              let e : f u ≡ t = cc in
              let same : i ≡ j = ground arith in
              let own : u.stack_ptr ≡ homes i = rw same (h.home j u at) in
              rw (← e, ← same) (keeps u own)
        ]
      ]

  pub save_current-Homed :
      (frame : ℕ) (k : Kernel)
      → frame ≡ homes k.current_task_idx
      → Homed k
      → Homed (save_current k frame)
  unfolding save_current
  save_current-Homed frame k own h =
      update_task-Homed k k.current_task_idx (with_frame frame) (λ t e. own) h

  mark_running-Homed : (k : Kernel) (idx : ℕ) → Homed k → Stays idx (mark_running k idx)
  unfolding mark_running
  mark_running-Homed k idx h =
      let k₁ = record k { current_task_idx = idx; ticks_since_switch = 0 } in
      let h₁ : Homed k₁ = record { size = h.size; home = h.home } in
      elim (Option-cases (task_ptr k₁ idx)) [
        | inl gone ↦ rw (gone, mark_running) (record { homed = h₁; same = refl })
        | inr (t, at) ↦
            let h₂ = update_task-Homed k₁ idx (with_state running) (λ t e. e) h₁ in
            rw (at, mark_running)
              (unfold update_task in
                record { homed = record { size = h₂.size; home = h₂.home }; same = refl })
      ]

  pub dispatch_next-Resumes : (k : Kernel) → Homed k → Ensures Resumes (dispatch_next k)
  unfolding dispatch_next
  dispatch_next-Resumes k h = Ensures-next Resumes (pop_max k.ready_queue) _ (λ (next, q).
      taken next (record k { ready_queue = q }) (record { size = h.size; home = h.home }))
    where
      taken :
          (next : Option ℕ) (k₁ : Kernel)
          → Homed k₁
          → Ensures Resumes (elim next [
            | none ↦ halted
            | some idx ↦ let k₂ = mark_running k₁ idx in ok (frame_of k₂ idx, k₂)
          ])
      taken none k₁ h₁ = tt
      taken (some idx) k₁ h₁ =
          let m = mark_running-Homed k₁ idx h₁ in
          (m.homed, inl (ap (λ i. frame_of (mark_running k₁ idx) i) (sym m.same)))

  enqueue_ready-Homed :
      (k : Kernel) (idx : ℕ) (f : TaskDescriptor → TaskDescriptor) (t : TaskDescriptor)
      → ((t : TaskDescriptor) → (f t).stack_ptr ≡ t.stack_ptr)
      → Homed k
      → Ensures (Stays k.current_task_idx) (enqueue_ready k idx f t)
  unfolding enqueue_ready update_task
  enqueue_ready-Homed k idx f t keeps h =
      Ensures-next (Stays k.current_task_idx) (insert k.ready_queue idx (effective_priority (f t)))
        _
        (λ q.
          let h' = update_task-Homed k idx f (λ u e. keeps u ∙ e) h in
          record { homed = record { size = h'.size; home = h'.home }; same = refl })

  pub requeue_current-Homed :
      (k : Kernel) → Homed k → Ensures (Stays k.current_task_idx) (requeue_current k)
  unfolding requeue_current
  requeue_current-Homed k h = elim (Option-cases (task_ptr k k.current_task_idx)) [
    | inl gone ↦ rw (gone, requeue_current) (record { homed = h; same = refl })
    | inr (t, at) ↦
        rw (at, requeue_current)
          (enqueue_ready-Homed k k.current_task_idx (with_state ready) t (λ u. refl) h)
  ]

  pub switch-Resumes :
      (k : Kernel) → Homed k → Ensures Resumes (requeue_current k >>= dispatch_next)
  switch-Resumes k h =
      Ensures->>= (Stays k.current_task_idx) Resumes (requeue_current k) dispatch_next
        (requeue_current-Homed k h) (λ k₁ s. dispatch_next-Resumes k₁ s.homed)

  wake-Homed : (k : Kernel) (i : ℕ) → Homed k → Ensures (Stays k.current_task_idx) (wake k i)
  unfolding wake
  wake-Homed k i h = elim (Option-cases (task_ptr k i)) [
    | inl gone ↦ rw (gone, wake) (record { homed = h; same = refl })
    | inr (t, at) ↦ rw (at, wake) (enqueue_ready-Homed k i make_ready t (λ u. refl) h)
  ]

  pub wake_sleepers_loop-Homed :
      (left i now : ℕ) (k : Kernel)
      → Homed k
      → Ensures (Stays k.current_task_idx) (wake_sleepers_loop left i now k)
  unfolding wake_sleepers_loop
  wake_sleepers_loop-Homed zero i now k h = record { homed = h; same = refl }
  wake_sleepers_loop-Homed (suc left) i now k h =
      Ensures->>= (Stays k.current_task_idx) (Stays k.current_task_idx)
        (if is_due now (task_ptr k i) then wake k i else ok k) (wake_sleepers_loop left (i + 1) now)
        (Ensures-if (Stays k.current_task_idx) (is_due now (task_ptr k i)) (wake k i) (ok k)
          (wake-Homed k i h) (record { homed = h; same = refl }))
        (λ k₁ s. rw (← s.same) (wake_sleepers_loop-Homed left (i + 1) now k₁ s.homed))

  wake_blocked_on_loop-Homed :
      (left i : ℕ) (reason : BlockReason) (k : Kernel)
      → Homed k
      → Ensures (λ (woken, k'). Stays k.current_task_idx k') (wake_blocked_on_loop left i reason k)
  unfolding wake_blocked_on_loop
  wake_blocked_on_loop-Homed zero i reason k h = record { homed = h; same = refl }
  wake_blocked_on_loop-Homed (suc left) i reason k h =
      Ensures-if (λ (woken, k'). Stays k.current_task_idx k') (is_blocked_on reason (task_ptr k i))
        (wake k i >>= λ k'. ok (some i, k')) (wake_blocked_on_loop left (i + 1) reason k)
        (Ensures->>= (Stays k.current_task_idx) (λ (woken, k'). Stays k.current_task_idx k')
          (wake k i) (λ k'. ok (some i, k')) (wake-Homed k i h) (λ k' s. s))
        (wake_blocked_on_loop-Homed left (i + 1) reason k h)

  pub wake_blocked_on-Homed :
      (reason : BlockReason) (k : Kernel)
      → Homed k
      → Ensures (λ (woken, k'). Stays k.current_task_idx k') (wake_blocked_on reason k)
  unfolding wake_blocked_on
  wake_blocked_on-Homed reason k h = wake_blocked_on_loop-Homed k.registry.count 0 reason k h

  pub yield_current-Resumes :
      (frame : ℕ) (k : Kernel)
      → frame ≡ homes k.current_task_idx
      → Homed k
      → Ensures Resumes (yield_current frame k)
  unfolding yield_current
  yield_current-Resumes frame k own h =
      switch-Resumes (save_current k frame) (save_current-Homed frame k own h)

  -- The running task is blocked in some way, and the next is dispatched.
  blocked-Resumes :
      (frame : ℕ) (f : TaskDescriptor → TaskDescriptor) (k : Kernel)
      → ((t : TaskDescriptor) → (f t).stack_ptr ≡ t.stack_ptr)
      → frame ≡ homes k.current_task_idx
      → Homed k
      → Ensures Resumes (
          dispatch_next
            (update_task (save_current k frame) (save_current k frame).current_task_idx f))
  blocked-Resumes frame f k keeps own h = dispatch_next-Resumes _ (
      update_task-Homed (save_current k frame) (save_current k frame).current_task_idx f
        (λ t e. keeps t ∙ e) (save_current-Homed frame k own h))

  pub sleep_current-Resumes :
      (clock frame ticks : ℕ) (k : Kernel)
      → frame ≡ homes k.current_task_idx
      → Homed k
      → Ensures Resumes (sleep_current clock frame ticks k)
  unfolding sleep_current
  sleep_current-Resumes clock frame ticks k own h =
      blocked-Resumes frame (sleep_until (wrapping_add clock (max ticks 1))) k (λ t. refl) own h

  pub block_current-Resumes :
      (frame : ℕ) (reason : BlockReason) (k : Kernel)
      → frame ≡ homes k.current_task_idx
      → Homed k
      → Ensures Resumes (block_current frame reason k)
  unfolding block_current
  block_current-Resumes frame reason k own h =
      blocked-Resumes frame (block_on reason) k (λ t. refl) own h

  pub preempt_if_outranked-Resumes :
      (frame : ℕ) (k : Kernel)
      → frame ≡ homes k.current_task_idx
      → Homed k
      → Ensures Resumes (preempt_if_outranked frame k)
  unfolding preempt_if_outranked
  preempt_if_outranked-Resumes frame k own h =
      Ensures-next Resumes (next_effective k) _ (λ next. decided next)
    where
      decided :
          (next : Option ℕ)
          → Ensures Resumes (elim next [
            | none ↦ ok (frame, k)
            | some next ↦
                if leb next (effective_of (task_ptr k k.current_task_idx))
                then ok (frame, k)
                else (requeue_current (save_current k frame) >>= dispatch_next)
          ])
      decided none = (h, inr own)
      decided (some next) =
          Ensures-if Resumes (leb next (effective_of (task_ptr k k.current_task_idx)))
            (ok (frame, k)) (requeue_current (save_current k frame) >>= dispatch_next) (h, inr own)
            (switch-Resumes (save_current k frame) (save_current-Homed frame k own h))
