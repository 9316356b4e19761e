-- ===== src/Scheduler/Demo.antt =====
-- A kernel in which task 0 runs, task 1 is ready and task 2 sleeps, for the tests.
use ferret_os.Common.{
  ℕ, zero, suc, ◌+◌, ◌^◌, ◌<◌, ◌≤◌, ◌≡◌, refl, none, some, [], ◌∷◌, length, replicate, arith, ◌==◌,
  if◌then◌else◌,
}
use mathlib.Core.List.Perm
use mathlib.Core.List.{not-mem-nil}
use ferret_os.Task.{
  TaskDescriptor, Slots, ready, running, blocked, sleep, not_blocked, max_tasks, user,
  effective_priority,
}
use ferret_os.Ccg.Populated.{slot, no_task_beyond}
use ferret_os.Queue.{PriorityQueue, entry}
use ferret_os.Queue.Live.{at, slots}
use ferret_os.Queue.Order.{Fits, age}
use ferret_os.Queue.Valid.{Holds}
use ferret_os.Queue.Refine.{Models}
use ferret_os.Scheduler.{Kernel, SwitchStats, same_state, effective_of}
use ferret_os.Scheduler.Lookup.{is_ready, is_running}
use ferret_os.Scheduler.Agrees.{waiter, waiting, all_keyed, Agrees}
use ferret_os.Scheduler.Steps.{only}
use ferret_os.Scheduler.Calls.{Steady}

abbrev pub task : ℕ → ℕ → TaskDescriptor
task id priority = record {
  id = id;
  priority = priority;
  state = ready;
  stack_ptr = 4096;
  stack_base = 0;
  stack_size = 4096;
  memory_start = 4096;
  memory_end = 8192;
  exclusive_cap_mask = 0;
  shared_cap_mask = 0;
  required_cap_mask = 0;
  max_inherited_priority = priority;
  entry = 64;
  wake_at = 0;
  mode = user;
  sends_mask = 2;
  receives_mask = 4;
  blocked_on = not_blocked;
}

abbrev pub demo_slots : Slots
demo_slots =
    some (record (task 0 1) { state = running })
    ∷ some (task 1 3)
    ∷ some (record (task 2 2) { state = blocked; blocked_on = sleep; wake_at = 7 })
    ∷ replicate 13 none

abbrev pub demo_queue : PriorityQueue
demo_queue = record { heap = some (entry 1 3 0) ∷ replicate 15 none; len = 1; next_seq = 1 }

abbrev pub demo_stats : SwitchStats
demo_stats = record { min_seen = 100; max_seen = 0; total = 0; count = 0 }

abbrev pub demo : Kernel
demo = record {
  registry = record { slots = demo_slots; count = 3 };
  ready_queue = demo_queue;
  current_task_idx = 0;
  ticks_since_switch = 0;
  switch_stats = demo_stats;
  pmp = record { addr = replicate 16 0; cfg = replicate 16 0 };
}

demo-Holds : Holds max_tasks demo_queue (entry 1 3 0 ∷ [])
unfolding slots
demo-Holds = record {
  array = refl;
  len = refl;
  room = omega arith;
  word = omega arith;
  fit = λ i h. first i h;
  heap = λ c p h. absurd (omega arith);
}
  where
    first : (i : ℕ) → i < 1 → Fits 1 (at (entry 1 3 0 ∷ []) i)
    first zero h = record { word = omega arith; entered = omega arith; recent = omega arith }
    first (suc i) h = absurd (omega arith)

demo-Models : Models max_tasks 1 demo_queue (waiter 1 3 ∷ [])
demo-Models = record {
  entries = entry 1 3 0 ∷ [];
  arrivals = entry 1 3 0 ∷ [];
  holds = demo-Holds;
  same = Perm.rfl;
  by_age = ((λ d m. absurd (not-mem-nil m)), tt);
  young = λ i h. young i h;
  view = refl;
}
  where
    young : (i : ℕ) → i < 1 → age 1 (at (entry 1 3 0 ∷ []) i) ≤ 1
    young zero h = omega arith
    young (suc i) h = absurd (omega arith)

demo-Agrees : Agrees demo_slots (waiter 1 3 ∷ []) (only 0)
unfolding waiting all_keyed is_ready is_running slot same_state effective_of effective_priority
demo-Agrees = record { waits = λ i. waits i; keyed = refl; runs = λ i. runs i }
  where
    waits : (i : ℕ) → waiting i (waiter 1 3 ∷ []) ≡ (if is_ready (slot demo_slots i) then 1 else 0)
    waits zero = refl
    waits (suc zero) = refl
    waits (suc (suc zero)) = refl
    waits (suc (suc (suc i))) = rw (no_task_beyond 13 i _ _ _) (ground arith)

    runs : (i : ℕ) → is_running (slot demo_slots i) ≡ (0 == i)
    runs zero = refl
    runs (suc zero) = refl
    runs (suc (suc zero)) = refl
    runs (suc (suc (suc i))) = rw (no_task_beyond 13 i _ _ _) (ground arith)

pub demo-Steady : Steady 1 demo
demo-Steady = record {
  waiters = waiter 1 3 ∷ [];
  sound = record { size = refl; queue = demo-Models; agrees = demo-Agrees };
}

pub some_wait : 0 < length demo-Steady.waiters
unfolding demo-Steady
some_wait = omega arith

pub one_waits : 1 + length demo-Steady.waiters < 2 ^ 31
unfolding demo-Steady
one_waits = omega arith
