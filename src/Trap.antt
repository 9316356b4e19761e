-- ===== src/Trap.antt =====
-- kernel/src/context/trap.rs: the trap handler, on the dispatcher, the system calls and the timer, with
-- `note_syscall_mode` of kernel/src/scheduler/mod.rs. Printing is left out, and so is the fault report,
-- which only prints and stops.
pub mod Handler
pub mod Reach
pub mod Stub
mod Tests
use Prim.Native.Nat.{bit_or}
use ferret_os.Common.{
  ℕ, ◌+◌, ◌/◌, ◌%◌, ◌^◌, ◌||◌, leb, ◌==◌, if◌then◌else◌, Run, ok, halted, ◌>>=◌, wrapping_add,
}
use ferret_os.Context.{TrapFrame}
use ferret_os.Memory.{canary_intact}
use ferret_os.Task.{has_bit}
use ferret_os.Clint.{Clint, timer_isr}
use ferret_os.Scheduler.{Kernel, on_timer_interrupt}
use ferret_os.Syscall.{System, write_frame, dispatch}

-- The state that a trap finds and leaves.
pub record Machine : Type 0 where
  pub system : System
  pub clint : Clint
  pub syscall_seen : ℕ

-- What the handler reads of the hardware, and the linker's bounds of the flash image. `at` is the instant
-- of the first read of `mtime`.
pub record Readings : Type 0 where
  pub flash_image : ℕ × ℕ
  pub isr_entry : ℕ
  pub instret_now : ℕ
  pub mtime : ℕ → ℕ
  pub at : ℕ

-- The new `SYSCALL_SEEN`.
unfoldable pub note_syscall_mode : ℕ → ℕ → ℕ
note_syscall_mode idx seen =
    if leb 32 idx then seen else (if has_bit seen idx then seen else bit_or seen (2 ^ idx))

unfoldable pub timer_trap : Readings → ℕ → Machine → Run (ℕ × Machine)
timer_trap w frame m = do
  let s = m.system
  (now, c) ← timer_isr 2 w.mtime w.at m.clint
  (frame', k) ←
      on_timer_interrupt (canary_intact s.memory) w.isr_entry w.instret_now now frame s.kernel
  ok (
    frame',
    record {
      system = record s { kernel = k; clock = c.tick_count };
      clint = c;
      syscall_seen = m.syscall_seen;
    },
  )

unfoldable pub ecall_trap : Readings → ℕ → Machine → Run (ℕ × Machine)
ecall_trap w frame m = do
  let f = m.system.frames frame
  let s = write_frame m.system frame (record f { mepc = wrapping_add f.mepc 4 })
  let seen = note_syscall_mode s.kernel.current_task_idx m.syscall_seen
  (frame', s') ← dispatch w.flash_image frame s
  ok (frame', record { system = s'; clint = m.clint; syscall_seen = seen })

unfoldable pub trap_handler : Readings → ℕ → Machine → Run (ℕ × Machine)
trap_handler w frame m =
    let mcause = (m.system.frames frame).mcause in
    let cause_code = mcause % 2 ^ 31 in
    let interrupt = if cause_code == 7 then timer_trap w frame m else ok (frame, m) in
    let exception =
      if (cause_code == 8) || (cause_code == 11) then ecall_trap w frame m else halted in
    if mcause / 2 ^ 31 % 2 == 1 then interrupt else exception
