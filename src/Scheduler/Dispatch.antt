-- ===== src/Scheduler/Dispatch.antt =====
-- Requeueing the running task, and dispatching the best ready one.
use ferret_os.Common.{
  ℕ, ◌+◌, ◌^◌, ◌≤◌, ◌<◌, ◌≡◌, refl, ◌∙◌, Bool, true, false, some, List, [], ◌∷◌, ◌++◌, length, ◌==◌,
  if◌then◌else◌, arith, Bool-cases, inl, inr, ◌⊎◌, ok,
}
use ferret_os.Task.{TaskDescriptor, TaskState, ready, running, Slots, effective_priority, max_tasks}
use ferret_os.Ccg.Populated.{slot}
use ferret_os.Queue.Fifo.{Waiter, dequeue, Extracted, top, dequeued-Extracted, Extracted-priority}
use ferret_os.Queue.Refine.{pop_max-Models}
use ferret_os.Pmp.{activate_task_region}
use ferret_os.Scheduler.{
  Kernel, update_slot, update_task, frame_of, requeue_current, mark_running, dispatch_next,
  with_state, same_state, effective_of,
}
use ferret_os.Scheduler.Lookup.{
  is_ready, is_running, length-update_slot, slot-update_slot, task_ptr-slot,
}
use ferret_os.Scheduler.Agrees.{
  priority, waiter, Agrees, Agrees-take, taken_ready, waiting-top, effective_kept,
  all_keyed-Extracted,
}
use ferret_os.Scheduler.Steps.{
  Sound, no_one, only, Agrees-active, current_running, running-not-ready, enqueue_ready-Sound,
}

-- No ready task has a higher effective priority than the running one.
pub record Served (k : Kernel) : Type 0 where
  pub served :
      (i : ℕ)
      → is_ready (slot k.registry.slots i) ≡ true
      → effective_of (slot k.registry.slots i)
        ≤ effective_of (slot k.registry.slots k.current_task_idx)

effective-with_state :
    (t : TaskDescriptor) (s : TaskState)
    → effective_priority (with_state s t) ≡ effective_priority t
unfolding effective_priority
effective-with_state t s = refl

ready-is_ready : (t : TaskDescriptor) → is_ready (some (with_state ready t)) ≡ true
unfolding is_ready same_state
ready-is_ready t = refl

ready-not-running : (t : TaskDescriptor) → is_running (some (with_state ready t)) ≡ false
unfolding is_running same_state
ready-not-running t = refl

running-is_running :
    (t : TaskDescriptor)
    → (is_running (some (with_state running t)) ≡ true)
      × (is_ready (some (with_state running t)) ≡ false)
unfolding is_running is_ready same_state
running-is_running t = (refl, refl)

if-true : (b : Bool) → (if b then true else false) ≡ b
if-true true = refl
if-true false = refl

-- The task taken out has the highest effective priority.
served_after :
    (slots : Slots) (ws : List Waiter) (w : Waiter) (ws' : List Waiter) (t : TaskDescriptor)
    → Agrees slots ws no_one
    → Extracted priority (top priority ws) ws w ws'
    → slot slots w.task ≡ some t
    → (i : ℕ) → is_ready (slot (update_slot slots w.task (with_state running)) i) ≡ true
    → effective_of (slot (update_slot slots w.task (with_state running)) i)
      ≤ effective_of (slot (update_slot slots w.task (with_state running)) w.task)
served_after slots ws w ws' t a x at i h =
    let kept =
      effective_kept slots w.task (with_state running) t at (effective-with_state t running) in
    let waits = a.waits i in
    let ready_before : is_ready (slot slots i) ≡ true = still_ready (Bool-cases (w.task == i)) in
    let own = all_keyed-Extracted slots x in
    let keyed = a.keyed in
    let best = Extracted-priority priority x in
    let below = waiting-top slots ws i keyed (ground (arith, waits, ready_before)) in
    rw (kept i, kept w.task)
      (order (effective_of (slot slots w.task)) (ground (arith, own, keyed)) below best)
  where
    still_ready : ((w.task == i) ≡ true) ⊎ ((w.task == i) ≡ false) → is_ready (slot slots i) ≡ true
    still_ready (inl e) =
        let here : slot (update_slot slots w.task (with_state running)) i
            ≡ some (with_state running t) =
          (let same : w.task ≡ i = ground arith in
            let at' : slot slots i ≡ some t = rw same at at in
            slot-update_slot slots w.task i (with_state running) ∙ rw (e, at') refl) in
        let off = (running-is_running t).1 in
        let h' : is_ready (some (with_state running t)) ≡ true = rw here at h in absurd cc
    still_ready (inr e) = rw (slot-update_slot slots w.task i (with_state running), e) at h

    order :
        (a : ℕ)
        → a ≡ w.priority
        → effective_of (slot slots i) ≤ top priority ws
        → w.priority ≡ top priority ws
        → effective_of (slot slots i) ≤ a
    order a e le best = omega arith

-- The kernel after `mark_running`.
abbrev marked : Kernel → ℕ → TaskDescriptor → Kernel
marked k i t =
    record (update_task (record k { current_task_idx = i; ticks_since_switch = 0 }) i
      (with_state running)) { pmp = activate_task_region k.pmp (with_state running t) }

mark_running-marked :
    (k : Kernel) (i : ℕ) (t : TaskDescriptor)
    → length k.registry.slots ≡ max_tasks
    → slot k.registry.slots i ≡ some t
    → mark_running k i ≡ marked k i t
unfolding mark_running update_task
mark_running-marked k i t size at =
    let k₁ : Kernel = record k { current_task_idx = i; ticks_since_switch = 0 } in
    rw (task_ptr-slot k₁ i size, at, mark_running) refl

module _ (n : ℕ) (k : Kernel) (ws : List Waiter) where
  pub requeue_current-Sound :
      Sound n (only k.current_task_idx) k ws
      → n < 2 ^ 31
      → (k' : Kernel) × (t : TaskDescriptor) × (slot k.registry.slots k.current_task_idx ≡ some t)
        × (requeue_current k ≡ ok k')
        × Sound (n + 1) no_one k' (ws ++ waiter k.current_task_idx (effective_priority t) ∷ [])
        × (k'.current_task_idx ≡ k.current_task_idx)
  unfolding requeue_current
  requeue_current-Sound s few =
      let (t, at, run) = current_running n k ws s in
      let same : effective_priority (with_state ready t) ≡ effective_priority t =
        effective-with_state t ready in
      let (k', runs, s', kept, regs) =
        enqueue_ready-Sound n k ws (only k.current_task_idx) k.current_task_idx t (with_state ready)
          s at (running-not-ready t run) (ready-is_ready t) same few in
      let s'' = rw same at s' in
      (
        k',
        t,
        at,
        rw (task_ptr-slot k k.current_task_idx s.size, at, requeue_current) runs,
        record {
          size = s''.size;
          queue = s''.queue;
          agrees = Agrees-active _ _ _ no_one (λ j. stopped t j) s''.agrees;
        },
        kept,
      )
    where
      stopped :
          (t : TaskDescriptor) (j : ℕ)
          → (if k.current_task_idx == j
              then is_running (some (with_state ready t))
              else (k.current_task_idx == j))
            ≡ false
      stopped t j =
          let off = ready-not-running t in
          elim (Bool-cases (k.current_task_idx == j)) [
            | inl q ↦ rw (q, off) refl
            | inr q ↦ rw q refl
          ]

  -- The first task of the highest priority, which was ready, is taken out and runs. No other slot changes.
  pub dispatch_next-Runs :
      Sound n no_one k ws
      → 0 < length ws
      → (w : Waiter) × (ws' : List Waiter) × (k' : Kernel) × (dequeue priority ws ≡ some (w, ws'))
        × (dispatch_next k ≡ ok (frame_of k' w.task, k'))
        × Sound n (only w.task) k' ws'
        × (k'.current_task_idx ≡ w.task)
        × Served k'
        × (k'.registry.slots ≡ update_slot k.registry.slots w.task (with_state running))
        × (is_ready (slot k.registry.slots w.task) ≡ true)
  unfolding dispatch_next
  dispatch_next-Runs s some_wait =
      let (w, ws', q, deq, runs, models) =
        pop_max-Models max_tasks n k.ready_queue ws s.queue some_wait in
      let x = dequeued-Extracted priority ws w ws' deq in
      let (t, at, was) =
        taken_ready k.registry.slots ws no_one s.agrees (top priority ws) w ws' x in
      let k₁ : Kernel = record k { ready_queue = q } in
      let (run, not_ready) = running-is_running t in
      let marks = mark_running-marked k₁ w.task t s.size at in
      (
        w,
        ws',
        marked k₁ w.task t,
        deq,
        rw (runs, marks) refl,
        (unfold update_task in
            record {
              size = length-update_slot k.registry.slots w.task (with_state running) ∙ s.size;
              queue = models;
              agrees =
                  Agrees-active _ _ _ (only w.task) (λ j. if-true (w.task == j))
                    (Agrees-take k.registry.slots ws no_one s.agrees (top priority ws) w ws' x t
                      (with_state running) at (effective-with_state t running) not_ready run);
            }),
        (unfold update_task in refl),
        (unfold update_task in
            record { served = served_after k.registry.slots ws w ws' t s.agrees x at }),
        (unfold update_task in refl),
        rw at was,
      )

  pub dispatch_next-Sound :
      Sound n no_one k ws
      → 0 < length ws
      → (w : Waiter) × (ws' : List Waiter) × (k' : Kernel) × (dequeue priority ws ≡ some (w, ws'))
        × (dispatch_next k ≡ ok (frame_of k' w.task, k'))
        × Sound n (only w.task) k' ws'
        × (k'.current_task_idx ≡ w.task)
        × Served k'
  dispatch_next-Sound s some_wait =
      let (w, ws', k', deq, runs, s', same, served, slots, was) = dispatch_next-Runs s some_wait in
      (w, ws', k', deq, runs, s', same, served)
