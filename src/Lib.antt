-- ===== src/Lib.antt =====
-- FerretOS: models of the kernel's core and the theorems that make it correct.
--
-- FerretOS is a small preemptive kernel for one RV32 hart. Tasks are registered at boot with a base
-- priority and with masks of the peripherals that they hold exclusively and that they require. From
-- these the build script computes, for each task, the highest base priority of a task that it can keep
-- waiting, directly or through others (MaxInheritedPriority); a task runs at the maximum of its base
-- priority and this value. The ready tasks wait in a heap ordered by this effective priority, first in
-- first out among equals. Timer interrupts and system calls enter the scheduler, which decides which
-- saved frame to resume. Tasks exchange messages through bounded channels, and the memory protection
-- unit is set up for the task that runs.
--
-- Parts:
--   Common     lists as Rust arrays, machine words, and `Run`, the ways a call ends
--   Task       kernel/src/memory/task.rs and kernel/src/config.rs: descriptors and registry
--   Queue      kernel/src/scheduler/queue.rs: the heap of ready tasks. Queue.Fifo is what it promises,
--              Queue.Refine relates the heap to it
--   Ccg        kernel/src/scheduler/ccg.rs: the capability contention graph; Ccg.Cycle is its search for
--              a cycle
--   Reach      what MaxInheritedPriority means, and breadth-first search on lists
--   Mip        kernel/src/scheduler/mip.rs: the search on arrays; Mip.Inherit is about holders and waiters
--   Generator  kernel/build/ccg_gen.rs: the build script's search
--   Channel    kernel/src/ipc/channel.rs and kernel/src/ipc/kernel.rs: channels and messages
--   Pmp        kernel/src/memory/pmp.rs: the entries that guard the running task
--   Scheduler  kernel/src/scheduler/mod.rs: the dispatcher on top of Task, Queue and Pmp.
--              Scheduler.Steps has its invariant, Scheduler.Calls, Blocking, Waking and Timer its calls,
--              and Scheduler.RoundRobin follows a task through yields until its turn
--   Allocator  kernel/src/capability/allocator.rs: the checks of exclusive holding at boot
--   Syscall    kernel/src/syscall.rs: the system calls, on Scheduler, Channel and the tasks' memory.
--              Syscall.Invariant says when the whole system is in order
--   Context    kernel/src/context/mod.rs: trap frames, kernel stacks, the first frame of a task
--   Memory     kernel/src/memory/stack.rs and kernel/src/memory/region.rs: canaries and regions
--   Boot       kernel/src/boot.rs with what it calls at boot only: kernel/src/generated/bridge.rs, the
--              `register` of kernel/src/demo, and the set-up in kernel/src/scheduler/mod.rs
--   Trap       kernel/src/context/trap.rs: the handler, on Scheduler, Syscall and Clint. Trap.Reach has
--              the states between traps, Trap.Stub the assembly of the entry and the exit
--   Sys        kernel/src/sys.rs: the wrappers that tasks call, and the line buffer
--   Pipeline   kernel/src/demo/pipeline.rs: the sensor, the filter and the lines of the logger, over the
--              kernel's calls as an interface
--   Clint      kernel/src/clint.rs: the 64-bit timer behind the 32-bit bus, and its deadlines
--
-- State is passed explicitly: the `static mut` variables of the scheduler are the fields of the record
-- `Kernel`, the registry is a list of 16 optional descriptors, a heap is the list of its slots. Each
-- Rust function has a definition of the same name; a loop is a recursion named after its function.
-- A Rust panic, the endless `halt()` and exhausted fuel are the results `panic`, `halted` and
-- `out_of_fuel` of `Run`. Words wrap around as in a release build of the 32-bit target, where the
-- width matters.
--
-- Fuel: the sift loops take as much as the index or the length allows, since the index moves by at
-- least one a round; the searches one round more than there are nodes, since a node is queued once; the
-- search for a cycle 17 rounds a node, since it looks for a next edge of a node that often at most; and
-- reading the timer takes two rounds, since the low word overflows at most once in them.
--
-- The ready queue numbers its inserts with a wrapping 32-bit counter and compares by distance. Its
-- theorems hold while no waiting entry is 2^31 inserts old; the scheduler's ask for fewer than 2^31
-- inserts since the queue was empty.
--
-- Parameters: the values of the `minstret` counter, what `mtime` holds at an instant, the linker's
-- addresses and the bounds of the flash image, the task set, and what an `ecall` answers in the wrappers,
-- for which Sys.Ecall puts the kernel's `dispatch`.
-- The feature `pmp` is on, `fault-demo` off. The console is the list of the bytes sent to it, memory a
-- function from addresses to bytes, and a trap frame stands at its address beside it. Between two traps
-- the running task may change any register and any byte.
--
-- Not modelled: device input and output and printing, start-up code, the writes of `mtvec` and `mie` at
-- boot, the tasks of kernel/src/demo/hml.rs, which only sleep and print, and the generated constants;
-- and the loop of the pipeline's logger with its busy waits, the build
-- script's own search for cycles and its parsing of configurations.
pub mod Common
pub mod Queue
pub mod Task
pub mod Ccg
pub mod Reach
pub mod Mip
pub mod Generator
pub mod Channel
pub mod Pmp
pub mod Scheduler
pub mod Allocator
pub mod Context
pub mod Memory
pub mod Syscall
pub mod Clint
pub mod Boot
pub mod Trap
pub mod Sys
pub mod Pipeline
