-- ===== src/Scheduler/Switched.antt =====
-- What a call that stops its caller does to the tasks.
use mathlib.Core.Option
use ferret_os.Common.{
  ℕ, ◌≡◌, ap, refl, ◌∙◌, true, false, some, ◌==◌, ==_refl, if◌then◌else◌, arith, Bool-cases, inl,
  inr,
}
use ferret_os.Task.{TaskDescriptor, BlockReason, blocked, sleep, running}
use ferret_os.Ccg.Populated.{slot}
use ferret_os.Scheduler.{Kernel, update_slot, with_state}
use ferret_os.Scheduler.Lookup.{is_ready, slot-update_slot}

-- A task that is blocked for a reason, with its context saved at `frame`.
abbrev pub waiting_for : ℕ → BlockReason → TaskDescriptor → TaskDescriptor
waiting_for frame reason t = record t { stack_ptr = frame; state = blocked; blocked_on = reason }

-- A task that sleeps until a tick, with its context saved at `frame`.
abbrev pub asleep_until : ℕ → ℕ → TaskDescriptor → TaskDescriptor
asleep_until frame tick t = record t {
  stack_ptr = frame;
  state = blocked;
  blocked_on = sleep;
  wake_at = tick;
}

-- The caller is as `g` makes it, another task that was ready runs, and no other task changes.
pub record Switched (g : TaskDescriptor → TaskDescriptor) (k k' : Kernel) : Type 0 where
  pub caller :
      (t : TaskDescriptor) × (slot k.registry.slots k.current_task_idx ≡ some t)
      × (slot k'.registry.slots k.current_task_idx ≡ some (g t))
  pub moved : (k.current_task_idx == k'.current_task_idx) ≡ false
  pub was_ready : is_ready (slot k.registry.slots k'.current_task_idx) ≡ true
  pub chosen :
      slot k'.registry.slots k'.current_task_idx
      ≡ Option.map (with_state running) (slot k.registry.slots k'.current_task_idx)
  pub others :
      (j : ℕ)
      → (k.current_task_idx == j) ≡ false
      → (k'.current_task_idx == j) ≡ false
      → slot k'.registry.slots j ≡ slot k.registry.slots j

-- The kernel `stopped` has the caller stopped, and its ready task `k'.current_task_idx` is then run.
pub switch :
    (g : TaskDescriptor → TaskDescriptor) (k stopped k' : Kernel) (t : TaskDescriptor)
    → slot k.registry.slots k.current_task_idx ≡ some t
    → is_ready (some (g t)) ≡ false
    → ((j : ℕ)
        → slot stopped.registry.slots j ≡ (
            if k.current_task_idx == j
            then Option.map g (slot k.registry.slots j)
            else slot k.registry.slots j))
    → k'.registry.slots
      ≡ update_slot stopped.registry.slots k'.current_task_idx (with_state running)
    → is_ready (slot stopped.registry.slots k'.current_task_idx) ≡ true
    → Switched g k k'
switch g k stopped k' t at off stop run was =
    let cur = k.current_task_idx in
    let next = k'.current_task_idx in
    let here : slot stopped.registry.slots cur ≡ some (g t) =
      stop cur ∙ rw (==_refl cur, at) refl in
    let apart : (cur == next) ≡ false = elim (Bool-cases (cur == next)) [
      | inl q ↦
          let same : cur ≡ next = ground arith in
          let here' : slot stopped.registry.slots next ≡ some (g t) = rw same at here in
          let up : is_ready (some (g t)) ≡ true = rw here' at was in absurd cc
      | inr q ↦ q
    ] in
    let apart' : (next == cur) ≡ false = ground arith in
    let after = λ (j : ℕ).
      ap (λ slots. slot slots j) run
      ∙ slot-update_slot stopped.registry.slots next j (with_state running) in
    let before : slot stopped.registry.slots next ≡ slot k.registry.slots next =
      stop next ∙ rw apart refl in
    record {
      caller = (t, at, after cur ∙ rw (apart', here) refl);
      moved = apart;
      was_ready = rw before at was;
      chosen = after next ∙ rw (==_refl next, before) refl;
      others = λ j q q'. after j ∙ rw (q', stop j, q) refl;
    }
