-- ===== src/Boot/Vacant.antt =====
-- The slots above the registered tasks stay empty through `init` and `prepare_frames`.
use ferret_os.Common.{
  ℕ, zero, suc, ◌+◌, ◌≤◌, ◌≡◌, refl, ◌∙◌, Option, none, some, List, ◌==◌, if◌then◌else◌, Bool-cases,
  Option-cases, inl, inr, ok, ◌>>=◌, Ensures, Ensures->>=, Ensures-if, Ensures-next,
}
use ferret_os.Task.{TaskDescriptor, ready, running, effective_priority}
use ferret_os.Ccg.Populated.{slot}
use ferret_os.Queue.{pop_max, insert}
use ferret_os.Mip.{store_mip}
use ferret_os.Context.{kernel_stack_top}
use ferret_os.Scheduler.{
  Kernel, task_ptr, update_task, with_state, with_frame, same_state, mark_running,
  write_precomputed_mip, enqueue_all, populate_ready_queue, init,
}
use ferret_os.Scheduler.Lookup.{slot-update_slot}
use ferret_os.Boot.{Image, Frames, prepare_loop}
use ferret_os.Boot.Start.{store_mip-free}

module _ (count : ℕ) where
  -- There are `count` tasks, in the first slots.
  pub record Vacant (k : Kernel) : Type 0 where
    pub size : k.registry.count ≡ count
    pub free : (i : ℕ) → count ≤ i → slot k.registry.slots i ≡ none

  update_task-Vacant :
      (k : Kernel) (i : ℕ) (f : TaskDescriptor → TaskDescriptor)
      → Vacant k
      → Vacant (update_task k i f)
  unfolding update_task
  update_task-Vacant k i f v = record {
    size = v.size;
    free = λ j ge. slot-update_slot k.registry.slots i j f ∙ elim (Bool-cases (i == j)) [
      | inl q ↦ rw (q, v.free j ge) refl
      | inr q ↦ rw (q, v.free j ge) refl
    ];
  }

  mark_running-Vacant : (k : Kernel) (idx : ℕ) → Vacant k → Vacant (mark_running k idx)
  unfolding mark_running
  mark_running-Vacant k idx v =
      let k₁ = record k { current_task_idx = idx; ticks_since_switch = 0 } in
      let v₁ : Vacant k₁ = record { size = v.size; free = v.free } in
      elim (Option-cases (task_ptr k₁ idx)) [
        | inl gone ↦ rw (gone, mark_running) v₁
        | inr (t, at) ↦
            let v₂ = update_task-Vacant k₁ idx (with_state running) v₁ in
            rw (at, mark_running) (unfold update_task in record { size = v₂.size; free = v₂.free })
      ]

  enqueue_all-Vacant : (left i : ℕ) (k : Kernel) → Vacant k → Ensures Vacant (enqueue_all left i k)
  unfolding enqueue_all
  enqueue_all-Vacant zero i k v = v
  enqueue_all-Vacant (suc left) i k v = elim (Option-cases (task_ptr k i)) [
    | inl gone ↦ rw (gone, enqueue_all) (enqueue_all-Vacant left (i + 1) k v)
    | inr (t, at) ↦
        rw (at, enqueue_all)
          (Ensures->>= Vacant Vacant
            (if same_state t.state ready
              then (insert k.ready_queue i (effective_priority t) >>= λ q.
                  ok (record k { ready_queue = q }))
              else ok k)
            (enqueue_all left (i + 1))
            (Ensures-if Vacant (same_state t.state ready) _ (ok k)
              (Ensures-next Vacant (insert k.ready_queue i (effective_priority t)) _
                (λ q. record { size = v.size; free = v.free }))
              v)
            (λ k' v'. enqueue_all-Vacant left (i + 1) k' v'))
  ]

  pub init-Vacant : (mip_table : List ℕ) (k : Kernel) → Vacant k → Ensures Vacant (init mip_table k)
  unfolding init write_precomputed_mip populate_ready_queue
  init-Vacant mip_table k v =
      let k₁ : Kernel = record k {
        registry = record {
          slots = store_mip k.registry.count mip_table k.registry.slots;
          count = k.registry.count;
        };
      } in
      let v₁ : Vacant k₁ = record {
        size = v.size;
        free = λ i ge. store_mip-free k.registry.count mip_table k.registry.slots i (v.free i ge);
      } in
      Ensures->>= Vacant Vacant (enqueue_all k₁.registry.count 0 k₁) _
        (enqueue_all-Vacant k₁.registry.count 0 k₁ v₁)
        (λ k₂ v₂. Ensures-next Vacant (pop_max k₂.ready_queue) _ (λ (next, q).
          taken next (record k₂ { ready_queue = q }) (record { size = v₂.size; free = v₂.free })))
    where
      taken :
          (next : Option ℕ) (k : Kernel)
          → Vacant k
          → Ensures Vacant (ok (elim next [ none ↦ k | some idx ↦ mark_running k idx ]))
      taken none k v = v
      taken (some idx) k v = mark_running-Vacant k idx v

  pub prepare_loop-Vacant :
      (image : Image) (left i : ℕ) (k : Kernel) (frames : Frames)
      → Vacant k
      → Ensures (λ (k', frames'). Vacant k') (prepare_loop image left i (k, frames))
  unfolding prepare_loop
  prepare_loop-Vacant image zero i k frames v = v
  prepare_loop-Vacant image (suc left) i k frames v = elim (Option-cases (task_ptr k i)) [
    | inl gone ↦ rw (gone, prepare_loop) (prepare_loop-Vacant image left (i + 1) k frames v)
    | inr (t, at) ↦
        rw (at, prepare_loop)
          (Ensures->>= (λ (k', frames'). Vacant k') (λ (k', frames'). Vacant k') _
            (prepare_loop image left (i + 1))
            (Ensures-next (λ (k', frames'). Vacant k') (kernel_stack_top image.kernel_stacks i) _
              (λ top. update_task-Vacant k i (with_frame _) v))
            (λ (k', frames') v'. prepare_loop-Vacant image left (i + 1) k' frames' v'))
  ]
