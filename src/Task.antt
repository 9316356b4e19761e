-- ===== src/Task.antt =====
-- kernel/src/memory/task.rs and kernel/src/config.rs: task descriptors and the registry.
-- `TASK_REGISTRY` and `TASK_COUNT` are one record; a slot that was never written is `none`.
use Prim.Native.Nat.{bit_and}
use ferret_os.Common.{
  ℕ, ◌+◌, ◌^◌, max, Bool, not, Option, none, some, List, length, set, replicate, ltb, ◌==◌,
  if◌then◌else◌, Run, ok, panic, assert_then, wrapping_add,
}

abbrev pub max_tasks : ℕ
max_tasks = 16

abbrev pub max_peripherals : ℕ
max_peripherals = 32

abbrev pub max_channels : ℕ
max_channels = 8

pub data TaskState : Type 0 where
  ready running blocked suspended : TaskState

-- `BlockReason::None` is `not_blocked`.
pub data BlockReason : Type 0 where
  not_blocked : BlockReason
  sleep : BlockReason
  send : ℕ → BlockReason
  receive : ℕ → BlockReason

pub data TaskMode : Type 0 where
  user machine : TaskMode

pub record TaskDescriptor : Type 0 where
  pub id : ℕ
  pub priority : ℕ
  pub state : TaskState
  pub stack_ptr : ℕ
  pub stack_base : ℕ
  pub stack_size : ℕ
  pub memory_start : ℕ
  pub memory_end : ℕ
  pub exclusive_cap_mask : ℕ
  pub shared_cap_mask : ℕ
  pub required_cap_mask : ℕ
  pub max_inherited_priority : ℕ
  pub entry : ℕ
  pub wake_at : ℕ
  pub mode : TaskMode
  pub sends_mask : ℕ
  pub receives_mask : ℕ
  pub blocked_on : BlockReason

-- The top of the stack is a `usize` sum: it wraps on the 32-bit target.
unfoldable pub with_capabilities : ℕ → ℕ → ℕ → ℕ → ℕ → ℕ → ℕ → ℕ → ℕ → TaskDescriptor
with_capabilities id priority base size start end exclusive shared required = record {
  id = id;
  priority = priority;
  state = ready;
  stack_ptr = wrapping_add base size;
  stack_base = base;
  stack_size = size;
  memory_start = start;
  memory_end = end;
  exclusive_cap_mask = exclusive;
  shared_cap_mask = shared;
  required_cap_mask = required;
  max_inherited_priority = 0;
  entry = 0;
  wake_at = 0;
  mode = user;
  sends_mask = 0;
  receives_mask = 0;
  blocked_on = not_blocked;
}

-- `TaskDescriptor::new`
unfoldable pub new : ℕ → ℕ → ℕ → ℕ → ℕ → ℕ → TaskDescriptor
new id priority base size start end = record {
  id = id;
  priority = priority;
  state = ready;
  stack_ptr = wrapping_add base size;
  stack_base = base;
  stack_size = size;
  memory_start = start;
  memory_end = end;
  exclusive_cap_mask = 0;
  shared_cap_mask = 0;
  required_cap_mask = 0;
  max_inherited_priority = 0;
  entry = 0;
  wake_at = 0;
  mode = user;
  sends_mask = 0;
  receives_mask = 0;
  blocked_on = not_blocked;
}

unfoldable pub with_channels : TaskDescriptor → ℕ → ℕ → TaskDescriptor
with_channels t sends receives = record t { sends_mask = sends; receives_mask = receives }

unfoldable pub with_mode : TaskDescriptor → TaskMode → TaskDescriptor
with_mode t mode = record t { mode = mode }

unfoldable pub with_entry : TaskDescriptor → ℕ → TaskDescriptor
with_entry t entry = record t { entry = entry }

-- `mask & (1 << i) != 0`
unfoldable pub has_bit : ℕ → ℕ → Bool
has_bit mask i = not (bit_and mask (2 ^ i) == 0)

unfoldable pub effective_priority : TaskDescriptor → ℕ
effective_priority t = max t.priority t.max_inherited_priority

abbrev pub Slots : Type 0
Slots = List (Option TaskDescriptor)

pub record Registry : Type 0 where
  pub slots : Slots
  pub count : ℕ

unfoldable pub empty_registry : Registry
empty_registry = record { slots = replicate max_tasks none; count = 0 }

unfoldable pub register_task : Registry → TaskDescriptor → Run Registry
register_task r desc = assert_then (ltb r.count max_tasks) (
    if ltb r.count (length r.slots)
    then ok (record { slots = set r.slots r.count (some desc); count = r.count + 1 })
    else panic)
