-- ===== src/Scheduler.antt =====
-- kernel/src/scheduler/mod.rs: the dispatcher, from the trap path with interrupts disabled.
-- The `static mut` variables are the fields of one record. A frame pointer is its address, and the
-- null pointer is 0. The reads of the `minstret` counter and of the stack canaries are parameters.
pub mod Lookup
pub mod Agrees
pub mod Room
pub mod Steps
pub mod Dispatch
pub mod Calls
pub mod Switched
pub mod Blocking
pub mod Waking
pub mod Timer
pub mod Clock
pub mod Homes
pub mod Fair
pub mod RoundRobin
pub mod Demo
mod Tests
use ferret_os.Common.{
  ℕ, zero, suc, ◌+◌, ◌-◌, ◌^◌, ◌%◌, ◌/◌, max, min, Bool, true, false, ◌&&◌, ◌||◌, not, Option, none,
  some, List, [], ◌∷◌, ltb, leb, ◌==◌, if◌then◌else◌, Run, ok, halted, ◌>>=◌, wrapping_add,
  wrapping_sub, is_nonnegative_i32, u32_mod,
}
use ferret_os.Task.{
  TaskDescriptor, TaskState, BlockReason, ready, running, blocked, suspended, not_blocked, sleep,
  send, receive, Slots, Registry, max_tasks, effective_priority,
}
use ferret_os.Ccg.Populated.{slot}
use ferret_os.Queue.{PriorityQueue, insert, pop_max, is_empty, peek_max_priority}
use ferret_os.Mip.{store_mip}
use ferret_os.Pmp.{Pmp, activate_task_region}

abbrev pub time_quantum_ticks : ℕ
time_quantum_ticks = 5

abbrev pub trap_stub_instructions : ℕ
trap_stub_instructions = 84

abbrev pub switch_stats_window : ℕ
switch_stats_window = 100

abbrev pub no_task : ℕ
no_task = 255

pub record SwitchStats : Type 0 where
  pub min_seen : ℕ
  pub max_seen : ℕ
  pub total : ℕ
  pub count : ℕ

unfoldable pub new_stats : SwitchStats
new_stats = record { min_seen = u32_mod - 1; max_seen = 0; total = 0; count = 0 }

-- The statistics are printed, then reset, after a window of samples.
unfoldable pub record_sample : SwitchStats → ℕ → SwitchStats
record_sample s instructions =
    let s' : SwitchStats = record {
      min_seen = if ltb instructions s.min_seen then instructions else s.min_seen;
      max_seen = if ltb s.max_seen instructions then instructions else s.max_seen;
      total = (s.total + instructions) % 2 ^ 64;
      count = wrapping_add s.count 1;
    } in
    if leb switch_stats_window s'.count then new_stats else s'

pub record Kernel : Type 0 where
  pub registry : Registry
  pub ready_queue : PriorityQueue
  pub current_task_idx : ℕ
  pub ticks_since_switch : ℕ
  pub switch_stats : SwitchStats
  pub pmp : Pmp

unfoldable pub task_ptr : Kernel → ℕ → Option TaskDescriptor
task_ptr k idx = if ltb idx max_tasks then slot k.registry.slots idx else none

-- A write through a task pointer; a null pointer is not written to.
unfoldable pub update_slot : Slots → ℕ → (TaskDescriptor → TaskDescriptor) → Slots
update_slot [] i f = []
update_slot (none ∷ slots) zero f = none ∷ slots
update_slot (some t ∷ slots) zero f = some (f t) ∷ slots
update_slot (o ∷ slots) (suc i) f = o ∷ update_slot slots i f

unfoldable pub update_task : Kernel → ℕ → (TaskDescriptor → TaskDescriptor) → Kernel
update_task k idx f = record k {
  registry = record { slots = update_slot k.registry.slots idx f; count = k.registry.count };
}

-- The writes to a descriptor.
abbrev pub with_state : TaskState → TaskDescriptor → TaskDescriptor
with_state state t = record t { state = state }

abbrev pub with_frame : ℕ → TaskDescriptor → TaskDescriptor
with_frame frame t = record t { stack_ptr = frame }

abbrev pub block_on : BlockReason → TaskDescriptor → TaskDescriptor
block_on reason t = record t { state = blocked; blocked_on = reason }

abbrev pub sleep_until : ℕ → TaskDescriptor → TaskDescriptor
sleep_until deadline t = record t { state = blocked; blocked_on = sleep; wake_at = deadline }

abbrev pub make_ready : TaskDescriptor → TaskDescriptor
make_ready t = record t { state = ready; blocked_on = not_blocked }

unfoldable pub frame_of : Kernel → ℕ → ℕ
frame_of k idx = elim (task_ptr k idx) [ none ↦ 0 | some t ↦ t.stack_ptr ]

unfoldable pub save_current : Kernel → ℕ → Kernel
save_current k frame = update_task k k.current_task_idx (with_frame frame)

unfoldable pub mark_running : Kernel → ℕ → Kernel
mark_running k idx =
    let k₁ = record k { current_task_idx = idx; ticks_since_switch = 0 } in
    elim (task_ptr k₁ idx) [
      | none ↦ k₁
      | some t ↦
          let k₂ = update_task k₁ idx (with_state running) in
          record k₂ { pmp = activate_task_region k₂.pmp (with_state running t) }
    ]

unfoldable pub dispatch_next : Kernel → Run (ℕ × Kernel)
dispatch_next k = do
  (next, q) ← pop_max k.ready_queue
  let k₁ = record k { ready_queue = q }
  elim next [ none ↦ halted | some idx ↦ let k₂ = mark_running k₁ idx in ok (frame_of k₂ idx, k₂) ]

-- `state = Ready`, then `READY_QUEUE.insert(idx, effective_priority)`
unfoldable pub enqueue_ready :
    Kernel → ℕ → (TaskDescriptor → TaskDescriptor) → TaskDescriptor → Run Kernel
enqueue_ready k idx f t = do
  q ← insert k.ready_queue idx (effective_priority (f t))
  ok (record (update_task k idx f) { ready_queue = q })

unfoldable pub requeue_current : Kernel → Run Kernel
requeue_current k = elim (task_ptr k k.current_task_idx) [
  | none ↦ ok k
  | some t ↦ enqueue_ready k k.current_task_idx (with_state ready) t
]

unfoldable pub tick_reached : ℕ → ℕ → Bool
tick_reached now deadline = is_nonnegative_i32 (wrapping_sub now deadline)

unfoldable pub same_state : TaskState → TaskState → Bool
same_state ready ready = true
same_state running running = true
same_state blocked blocked = true
same_state suspended suspended = true
same_state ready s = false
same_state running s = false
same_state blocked s = false
same_state suspended s = false

unfoldable pub same_reason : BlockReason → BlockReason → Bool
same_reason not_blocked not_blocked = true
same_reason sleep sleep = true
same_reason (send a) (send b) = a == b
same_reason (receive a) (receive b) = a == b
same_reason not_blocked r = false
same_reason sleep r = false
same_reason (send a) r = false
same_reason (receive a) r = false

unfoldable pub is_due : ℕ → Option TaskDescriptor → Bool
is_due now none = false
is_due now (some t) =
    same_state t.state blocked && (same_reason t.blocked_on sleep && tick_reached now t.wake_at)

unfoldable pub wake : Kernel → ℕ → Run Kernel
wake k i = elim (task_ptr k i) [ none ↦ ok k | some t ↦ enqueue_ready k i make_ready t ]

-- `for i in 0..task_count()`, with `left` slots to go from `i` on.
unfoldable pub wake_sleepers_loop : ℕ → ℕ → ℕ → Kernel → Run Kernel
wake_sleepers_loop zero i now k = ok k
wake_sleepers_loop (suc left) i now k = do
  k' ← if is_due now (task_ptr k i) then wake k i else ok k
  wake_sleepers_loop left (i + 1) now k'

unfoldable pub wake_sleepers : ℕ → Kernel → Run Kernel
wake_sleepers now k = wake_sleepers_loop k.registry.count 0 now k

unfoldable pub check_stack_canaries : (ℕ → Bool) → ℕ → ℕ → Kernel → Run Kernel
check_stack_canaries canary_intact zero i k = ok k
check_stack_canaries canary_intact (suc left) i k =
    let rest = check_stack_canaries canary_intact left (i + 1) k in
    elim (task_ptr k i) [
      | none ↦ rest
      | some t ↦ if canary_intact t.stack_base then rest else halted
    ]

unfoldable pub should_preempt : ℕ → Option ℕ → ℕ → Bool
should_preempt cur_eff none ticks_since_switch = false
should_preempt cur_eff (some next) ticks_since_switch =
    ltb cur_eff next || (leb time_quantum_ticks ticks_since_switch && leb cur_eff next)

unfoldable pub effective_of : Option TaskDescriptor → ℕ
effective_of none = 0
effective_of (some t) = effective_priority t

unfoldable pub next_effective : Kernel → Run (Option ℕ)
next_effective k =
    let head : Run (Option ℕ) = peek_max_priority k.ready_queue >>= λ p. ok (some p) in
    if is_empty k.ready_queue then ok none else head

-- `instret_now` is the value of `minstret` when the switch is measured.
unfoldable pub tick : ℕ → ℕ → Kernel → Run (Option ℕ × Kernel)
tick isr_entry instret_now k₀ = do
  let k = record k₀ { ticks_since_switch = wrapping_add k₀.ticks_since_switch 1 }
  let cur_idx = k.current_task_idx
  next_eff ← next_effective k
  let switch : Run (Option ℕ × Kernel) = do
    k₁ ← requeue_current k
    (frame, k₂) ← dispatch_next k₁
    let elapsed = wrapping_add (wrapping_sub instret_now isr_entry) trap_stub_instructions
    if k₂.current_task_idx == cur_idx
        then ok (none, k₂)
        else ok (
          some k₂.current_task_idx,
          record k₂ { switch_stats = record_sample k₂.switch_stats elapsed },
        )
  if should_preempt (effective_of (task_ptr k cur_idx)) next_eff k.ticks_since_switch
      then switch
      else ok (none, k)

-- `now` is the tick count that `clint::timer_isr` returns.
unfoldable pub on_timer_interrupt : (ℕ → Bool) → ℕ → ℕ → ℕ → ℕ → Kernel → Run (ℕ × Kernel)
on_timer_interrupt canary_intact isr_entry instret_now now frame k = do
  let k₁ = save_current k frame
  k₂ ← check_stack_canaries canary_intact k₁.registry.count 0 k₁
  k₃ ← wake_sleepers now k₂
  (switched, k₄) ← tick isr_entry instret_now k₃
  ok (elim switched [ none ↦ frame | some idx ↦ frame_of k₄ k₄.current_task_idx ], k₄)

unfoldable pub yield_current : ℕ → Kernel → Run (ℕ × Kernel)
yield_current frame k = requeue_current (save_current k frame) >>= dispatch_next

-- `ticks` is the number of ticks to sleep, `clock` the tick count.
unfoldable pub sleep_current : ℕ → ℕ → ℕ → Kernel → Run (ℕ × Kernel)
sleep_current clock frame ticks k =
    let k₁ = save_current k frame in
    dispatch_next
      (update_task k₁ k₁.current_task_idx (sleep_until (wrapping_add clock (max ticks 1))))

unfoldable pub block_current : ℕ → BlockReason → Kernel → Run (ℕ × Kernel)
block_current frame reason k =
    let k₁ = save_current k frame in
    dispatch_next (update_task k₁ k₁.current_task_idx (block_on reason))

unfoldable pub is_blocked_on : BlockReason → Option TaskDescriptor → Bool
is_blocked_on reason none = false
is_blocked_on reason (some t) = same_state t.state blocked && same_reason t.blocked_on reason

unfoldable pub wake_blocked_on_loop : ℕ → ℕ → BlockReason → Kernel → Run (Option ℕ × Kernel)
wake_blocked_on_loop zero i reason k = ok (none, k)
wake_blocked_on_loop (suc left) i reason k =
    let rest = wake_blocked_on_loop left (i + 1) reason k in
    if is_blocked_on reason (task_ptr k i) then (wake k i >>= λ k'. ok (some i, k')) else rest

unfoldable pub wake_blocked_on : BlockReason → Kernel → Run (Option ℕ × Kernel)
wake_blocked_on reason k = wake_blocked_on_loop k.registry.count 0 reason k

unfoldable pub preempt_if_outranked : ℕ → Kernel → Run (ℕ × Kernel)
preempt_if_outranked frame k = do
  next_eff ← next_effective k
  let cur_eff = effective_of (task_ptr k k.current_task_idx)
  let switch = requeue_current (save_current k frame) >>= dispatch_next
  elim next_eff [
    | none ↦ ok (frame, k)
    | some next ↦ if leb next cur_eff then ok (frame, k) else switch
  ]

-- `for (i, &mip) in mip_table.iter().enumerate().take(task_count())`
unfoldable pub write_precomputed_mip : List ℕ → Kernel → Kernel
write_precomputed_mip mip_table k = record k {
  registry = record {
    slots = store_mip k.registry.count mip_table k.registry.slots;
    count = k.registry.count;
  };
}

-- `for i in 0..task_count()` of `populate_ready_queue`
unfoldable pub enqueue_all : ℕ → ℕ → Kernel → Run Kernel
enqueue_all zero i k = ok k
enqueue_all (suc left) i k = do
  k' ← elim (task_ptr k i) [
    | none ↦ ok k
    | some t ↦
        let put = insert k.ready_queue i (effective_priority t) >>= λ q.
        ok (record k { ready_queue = q }) in
        if same_state t.state ready then put else ok k
  ]
  enqueue_all left (i + 1) k'

unfoldable pub populate_ready_queue : Kernel → Run Kernel
populate_ready_queue k = do
  k₁ ← enqueue_all k.registry.count 0 k
  (next, q) ← pop_max k₁.ready_queue
  let k₂ = record k₁ { ready_queue = q }
  ok (elim next [ none ↦ k₂ | some idx ↦ mark_running k₂ idx ])

unfoldable pub init : List ℕ → Kernel → Run Kernel
init mip_table k = populate_ready_queue (write_precomputed_mip mip_table k)

-- `current_task()`
unfoldable pub current_task : Kernel → Option TaskDescriptor
current_task k = task_ptr k k.current_task_idx
