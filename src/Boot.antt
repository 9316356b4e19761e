-- ===== src/Boot.antt =====
-- kernel/src/boot.rs with what it calls at boot only: the registration of a task set (`register` of
-- kernel/src/demo/pipeline.rs and hml.rs, kernel/src/generated/bridge.rs, `claim_stack`) and
-- `prepare_frames` and `first_frame` of kernel/src/scheduler/mod.rs. The task set, the addresses that the
-- linker chooses and the global pointer are parameters. Printing is left out.
pub mod Registered
pub mod Populate
pub mod Start
pub mod Vacant
pub mod Ready
pub mod Reached
mod Tests
use Prim.Native.Nat.{bit_or}
use ferret_os.Common.{
  ℕ, zero, suc, ◌+◌, Option, none, some, List, [], ◌∷◌, Bool, not, ◌&&◌, leb, ◌==◌, if◌then◌else◌,
  Run, ok, halted, ◌>>=◌, wrapping_add, length, replicate,
}
use ferret_os.Task.{
  TaskDescriptor, TaskMode, user, machine, Slots, Registry, with_capabilities, new, with_channels,
  with_entry, with_mode, register_task, empty_registry, max_tasks,
}
use ferret_os.Context.{
  TrapFrame, kernel_stack_top, init_frame, mstatus_mpp_user, mstatus_mpp_machine, mstatus_mpie,
}
use ferret_os.Memory.{write_canary}
use ferret_os.Allocator.{check_capability_conflicts, check_channel_conflicts}
use ferret_os.Pmp.{Pmp, configure_pmp}
use ferret_os.Queue
use ferret_os.Scheduler.{
  Kernel, SwitchStats, new_stats, init, frame_of, task_ptr, update_task, with_frame, no_task,
}
use ferret_os.Channel.{no_messages}
use ferret_os.Syscall.{System}
use ferret_os.Clint.{Clint, start_ticks}

-- `TaskConfig` of the generated task schema
pub record TaskConfig : Type 0 where
  pub priority : ℕ
  pub stack_size : ℕ
  pub memory_start : ℕ
  pub memory_end : ℕ
  pub exclusive_cap_mask : ℕ
  pub shared_cap_mask : ℕ
  pub required_cap_mask : ℕ
  pub sends_mask : ℕ
  pub receives_mask : ℕ

unfoldable pub into_descriptor : TaskConfig → ℕ → ℕ → ℕ → TaskDescriptor
into_descriptor c id stack_base entry =
    with_entry
      (with_channels
        (with_capabilities id c.priority stack_base c.stack_size c.memory_start c.memory_end
          c.exclusive_cap_mask c.shared_cap_mask c.required_cap_mask)
        c.sends_mask c.receives_mask)
      entry

-- One task of the task set, with the address of its stack and of its body.
pub record TaskEntry : Type 0 where
  pub config : TaskConfig
  pub stack : ℕ
  pub body : ℕ

-- The calls `register_task(CONFIG.into_descriptor(id, claim_stack(stack), body))`, in slot order.
unfoldable pub register_set : List TaskEntry → ℕ → Registry × (ℕ → ℕ) → Run (Registry × (ℕ → ℕ))
register_set [] id (r, memory) = ok (r, memory)
register_set (e ∷ rest) id (r, memory) = do
  r' ← register_task r (into_descriptor e.config id e.stack e.body)
  register_set rest (id + 1) (r', write_canary memory e.stack)

-- What the linker and the task set provide.
pub record Image : Type 0 where
  pub tasks : List TaskEntry
  pub mip_table : List ℕ
  pub kernel_stacks : ℕ
  pub stack_idle : ℕ
  pub idle : ℕ
  pub task_returned : ℕ
  pub gp : ℕ

abbrev pub idle_priority : ℕ
idle_priority = 0

unfoldable pub idle_task : Image → ℕ → TaskDescriptor
idle_task image id =
    with_mode (with_entry (new id idle_priority image.stack_idle 1024 0 0) image.idle) machine

unfoldable pub is_inside : TaskDescriptor → Bool
is_inside t =
    leb t.memory_start t.stack_base && leb (wrapping_add t.stack_base t.stack_size) t.memory_end

unfoldable pub check_region_placement : Slots → Run (Unit {0})
check_region_placement [] = ok tt
check_region_placement (none ∷ slots) = check_region_placement slots
check_region_placement (some t ∷ slots) =
    let rest = check_region_placement slots in
    elim t.mode [ machine ↦ rest | user ↦ if is_inside t then rest else halted ]

unfoldable pub mpp_of : TaskMode → ℕ
mpp_of user = mstatus_mpp_user
mpp_of machine = mstatus_mpp_machine

-- The state that `prepare_frames` writes: the descriptors, and the frames at their addresses.
abbrev pub Frames : Type 0
Frames = ℕ → TrapFrame

unfoldable pub write_at : Frames → ℕ → TrapFrame → Frames
write_at frames addr f a = if a == addr then f else frames a

-- `for i in 0..task_count()`, with `left` tasks to go from `i` on.
unfoldable pub prepare_loop : Image → ℕ → ℕ → Kernel × Frames → Run (Kernel × Frames)
prepare_loop image zero i s = ok s
prepare_loop image (suc left) i (k, frames) = do
  let build = λ (t : TaskDescriptor). do
    top ← kernel_stack_top image.kernel_stacks i
    let (addr, f) =
        init_frame top (wrapping_add t.stack_base t.stack_size) t.entry image.task_returned image.gp
          (bit_or (mpp_of t.mode) mstatus_mpie)
    ok (update_task k i (with_frame addr), write_at frames addr f)
  s ← elim (task_ptr k i) [ none ↦ ok (k, frames) | some t ↦ build t ]
  prepare_loop image left (i + 1) s

unfoldable pub prepare_frames : Image → Kernel × Frames → Run (Kernel × Frames)
prepare_frames image (k, frames) = prepare_loop image k.registry.count 0 (k, frames)

unfoldable pub first_frame : Kernel → ℕ
first_frame k = frame_of k k.current_task_idx

-- The statics before `kernel_main`.
unfoldable pub static_kernel : Registry → Pmp → Kernel
static_kernel r pmp = record {
  registry = r;
  ready_queue = Queue.new max_tasks;
  current_task_idx = no_task;
  ticks_since_switch = 0;
  switch_stats = new_stats;
  pmp = pmp;
}

-- Registration: the task set, then the idle task.
unfoldable pub register_tasks : Image → (ℕ → ℕ) → Run (Registry × (ℕ → ℕ))
register_tasks image memory = do
  (r, memory') ← register_set image.tasks 0 (empty_registry, memory)
  r' ← register_task r (idle_task image r.count)
  ok (r', memory')

-- The result is the frame that `start_first_task` restores. `mtime` and `at` are for `start_ticks`.
unfoldable pub kernel_main :
    Image → (ℕ → ℕ) → ℕ → (ℕ → ℕ) → Frames → Pmp → Clint → Run (ℕ × System × Clint)
kernel_main image mtime at memory frames pmp clint = do
  (r, memory') ← register_tasks image memory
  placed ← check_region_placement r.slots
  claimed ← check_capability_conflicts r.slots
  ends ← check_channel_conflicts r.slots
  k ← init image.mip_table (static_kernel r (configure_pmp pmp))
  (k', frames') ← prepare_frames image (k, frames)
  clint' ← start_ticks 2 mtime at clint
  let s : System = record {
    kernel = k';
    channels = no_messages;
    frames = frames';
    memory = memory';
    console = [];
    clock = clint'.tick_count;
  }
  ok (first_frame k', s, clint')
