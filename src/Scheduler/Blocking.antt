-- ===== src/Scheduler/Blocking.antt =====
-- `SYS_SLEEP` and the blocking channel calls: the caller blocks, and the best ready task runs.
use mathlib.Core.Option
use ferret_os.Common.{
  ℕ, ◌+◌, ◌%◌, ◌^◌, Option, none, ◌<◌, ◌≡◌, refl, sym, ◌∙◌, false, some, List, [], ◌∷◌, length,
  ◌==◌, if◌then◌else◌, arith, Bool-cases, inl, inr, ok, halted, max, wrapping_add,
}
use ferret_os.Task.{TaskDescriptor, BlockReason, effective_priority}
use ferret_os.Queue.Refine.{pop_max-none}
use ferret_os.Queue.Fifo.{Waiter}
use ferret_os.Scheduler.{
  Kernel, frame_of, save_current, dispatch_next, block_current, sleep_current, update_task,
  update_slot, with_frame, block_on, sleep_until, same_state,
}
use ferret_os.Scheduler.Lookup.{is_ready, is_running, length-update_slot, slot-update_slot}
use ferret_os.Scheduler.Agrees.{Agrees-keep}
use ferret_os.Scheduler.Steps.{
  Sound, no_one, only, Agrees-active, current_running, running-not-ready, save_current-Sound,
}
use ferret_os.Scheduler.Dispatch.{Served, dispatch_next-Runs}
use ferret_os.Scheduler.Switched.{waiting_for, asleep_until, Switched, switch}
use ferret_os.Ccg.Populated.{slot}
use ferret_os.Scheduler.Calls.{Steady}

-- A write after which a task is neither ready nor running, at the same priority.
pub record Blocks (f : TaskDescriptor → TaskDescriptor) : Type 0 where
  pub not_ready : (t : TaskDescriptor) → is_ready (some (f t)) ≡ false
  pub not_running : (t : TaskDescriptor) → is_running (some (f t)) ≡ false
  pub priority_kept : (t : TaskDescriptor) → effective_priority (f t) ≡ effective_priority t

block_on-Blocks : (reason : BlockReason) → Blocks (block_on reason)
unfolding is_ready is_running same_state effective_priority
block_on-Blocks reason = record {
  not_ready = λ t. refl;
  not_running = λ t. refl;
  priority_kept = λ t. refl;
}

sleep_until-Blocks : (deadline : ℕ) → Blocks (sleep_until deadline)
unfolding is_ready is_running same_state effective_priority
sleep_until-Blocks deadline = record {
  not_ready = λ t. refl;
  not_running = λ t. refl;
  priority_kept = λ t. refl;
}

-- The caller stops.
stop-Sound :
    (n : ℕ) (k : Kernel) (ws : List Waiter) (f : TaskDescriptor → TaskDescriptor)
    → Blocks f
    → Sound n (only k.current_task_idx) k ws
    → Sound n no_one (update_task k k.current_task_idx f) ws
unfolding update_task
stop-Sound n k ws f b s =
    let (t, at, run) = current_running n k ws s in
    record {
      size = length-update_slot k.registry.slots k.current_task_idx f ∙ s.size;
      queue = s.queue;
      agrees =
          Agrees-active _ ws _ no_one (λ j. stopped t j)
            (Agrees-keep k.registry.slots ws (only k.current_task_idx) s.agrees k.current_task_idx t
              at f (b.priority_kept t) (b.not_ready t ∙ sym (running-not-ready t run)));
    }
  where
    stopped :
        (t : TaskDescriptor) (j : ℕ)
        → (if k.current_task_idx == j then is_running (some (f t)) else (k.current_task_idx == j))
          ≡ false
    stopped t j =
        let off = b.not_running t in
        elim (Bool-cases (k.current_task_idx == j)) [ inl q ↦ rw (q, off) refl | inr q ↦ rw q refl ]

saved :
    (n frame : ℕ) (k : Kernel) (ws : List Waiter)
    → Sound n (only k.current_task_idx) k ws
    → Sound n (only (save_current k frame).current_task_idx) (save_current k frame) ws
unfolding save_current update_task
saved n frame k ws s = save_current-Sound n k ws frame s

dispatch_next-halted : (n : ℕ) (k : Kernel) → Sound n no_one k [] → dispatch_next k ≡ halted
unfolding dispatch_next
dispatch_next-halted n k s = rw (pop_max-none s.queue) refl

-- The slots after the caller's frame is saved and the caller stopped by `f`.
stopped-slot :
    (k : Kernel) (frame j : ℕ) (f : TaskDescriptor → TaskDescriptor)
    → slot
        (update_task
          (save_current k frame)
          (save_current k frame).current_task_idx
          f).registry.slots
        j
      ≡ (if k.current_task_idx == j
          then Option.map (λ t. f (with_frame frame t)) (slot k.registry.slots j)
          else slot k.registry.slots j)
unfolding save_current update_task
stopped-slot k frame j f =
    let cur = k.current_task_idx in
    let slots = k.registry.slots in
    slot-update_slot (update_slot slots cur (with_frame frame)) cur j f
    ∙ elim (Bool-cases (cur == j)) [
      | inl q ↦ rw (q, slot-update_slot slots cur j (with_frame frame), q) (twice (slot slots j))
      | inr q ↦ rw (q, slot-update_slot slots cur j (with_frame frame), q) refl
    ]
  where
    twice :
        (o : Option TaskDescriptor)
        → Option.map f (Option.map (with_frame frame) o)
          ≡ Option.map (λ t. f (with_frame frame t)) o
    twice none = refl
    twice (some t) = refl

-- What blocking the caller by the write `f` does: if a task is ready, the best one runs; if none is,
-- the kernel halts.
block-with :
    (n frame : ℕ) (k : Kernel) (ws : List Waiter) (f : TaskDescriptor → TaskDescriptor)
    → Blocks f
    → Sound n (only k.current_task_idx) k ws
    → (0 < length ws
        → (k' : Kernel) × (dispatch_next
              (update_task (save_current k frame) (save_current k frame).current_task_idx f)
            ≡ ok (frame_of k' k'.current_task_idx, k'))
          × Steady n k'
          × Served k'
          × Switched (λ t. f (with_frame frame t)) k k')
      × (length ws ≡ 0
          → dispatch_next
              (update_task (save_current k frame) (save_current k frame).current_task_idx f)
            ≡ halted)
block-with n frame k ws f b s = (
  λ some_wait.
      (let (t, at, run) = current_running n k ws s in
        let (w, ws', k', deq, runs, s', same, served, slots, was) =
          dispatch_next-Runs n (stopped k) ws
            (stop-Sound n (save_current k frame) ws f b (saved n frame k ws s)) some_wait in
        let switched =
          switch (λ t. f (with_frame frame t)) k (stopped k) k' t at
            (b.not_ready (with_frame frame t)) (λ j. stopped-slot k frame j f) (rw same slots)
            (rw same was) in
        (k', rw same runs, record { waiters = ws'; sound = rw same s' }, served, switched)),
  λ alone. go ws alone s,
)
  where
    stopped : Kernel → Kernel
    stopped k = update_task (save_current k frame) (save_current k frame).current_task_idx f

    go :
        (ws : List Waiter)
        → length ws ≡ 0
        → Sound n (only k.current_task_idx) k ws
        → dispatch_next (stopped k) ≡ halted
    go [] e s =
        dispatch_next-halted n (stopped k)
          (stop-Sound n (save_current k frame) [] f b (saved n frame k [] s))
    go (w ∷ ws) e s = absurd (omega arith)

module _ (n : ℕ) (k : Kernel) (s : Steady n k) (some_wait : 0 < length s.waiters) where
  -- With a task ready, blocking the caller leaves it blocked for the reason, with its context saved, and
  -- a ready task of the highest effective priority running; no ready task has a higher one, and no other
  -- task changes.
  pub block_current-Served :
      (frame : ℕ) (reason : BlockReason)
      → (k' : Kernel) × (block_current frame reason k ≡ ok (frame_of k' k'.current_task_idx, k'))
        × Steady n k'
        × Served k'
        × Switched (waiting_for frame reason) k k'
  unfolding block_current
  block_current-Served frame reason =
      (block-with n frame k s.waiters (block_on reason) (block_on-Blocks reason) s.sound).0
        some_wait

  -- With a task ready, `SYS_SLEEP` leaves the caller asleep until `ticks` ticks, at least one, from now,
  -- with its context saved, and a ready task of the highest effective priority running; no ready task has a
  -- higher one, and no other task changes.
  pub sleep_current-Served :
      (clock frame ticks : ℕ)
      → (k' : Kernel) × (sleep_current clock frame ticks k
          ≡ ok (frame_of k' k'.current_task_idx, k'))
        × Steady n k'
        × Served k'
        × Switched (asleep_until frame ((clock + max ticks 1) % 2 ^ 32)) k k'
  unfolding sleep_current
  sleep_current-Served clock frame ticks =
      let deadline = wrapping_add clock (max ticks 1) in
      (block-with n frame k s.waiters (sleep_until deadline) (sleep_until-Blocks deadline)
          s.sound).0
        some_wait

-- Without a ready task, blocking or putting to sleep the caller halts the kernel.
pub blocking-halted :
    (n frame clock ticks : ℕ) (reason : BlockReason) (k : Kernel) (s : Steady n k)
    → length s.waiters ≡ 0
    → (block_current frame reason k ≡ halted) × (sleep_current clock frame ticks k ≡ halted)
unfolding block_current sleep_current
blocking-halted n frame clock ticks reason k s alone =
    let stop = λ (f : TaskDescriptor → TaskDescriptor) (b : Blocks f).
      (block-with n frame k s.waiters f b s.sound).1 alone in
    let deadline = wrapping_add clock (max ticks 1) in
    (
      stop (block_on reason) (block_on-Blocks reason),
      stop (sleep_until deadline) (sleep_until-Blocks deadline),
    )
