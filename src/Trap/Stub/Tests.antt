-- ===== src/Trap/Stub/Tests.antt =====
-- A trap that the handler leaves at once, as a witness.
use ferret_os.Common.{ℕ, ◌+◌, ◌*◌, ◌<◌, ◌≡◌, refl, arith, ◌==◌, if◌then◌else◌}
use ferret_os.Trap.Stub.{
  Csr, mscratch, mepc, mstatus, mcause, mtval, Cpu, run, trap_entry, restore_context,
}
use ferret_os.Trap.Stub.Exit.{restore_context-trap_entry}

abbrev csrs_then : Csr → ℕ
csrs_then mscratch = 4096 + 144
csrs_then mepc = 1000
csrs_then mstatus = 128
csrs_then mcause = 8
csrs_then mtval = 0

abbrev running_task : Cpu
running_task = record { regs = λ r. 3 * r; csrs = csrs_then; memory = λ a. a }

-- The handler leaves the frame, and returns its address in `a0`.
abbrev after_handler : Cpu
after_handler = record {
  regs = λ r. if r == 10 then 4096 else 7;
  csrs = csrs_then;
  memory = (run trap_entry running_task).memory;
}

restore_context-trap_entry_example :
    ((i : ℕ) → 0 < i → i < 32 → (run restore_context after_handler).regs i ≡ running_task.regs i)
    × ((run restore_context after_handler).csrs mepc ≡ running_task.csrs mepc)
    × ((run restore_context after_handler).csrs mstatus ≡ running_task.csrs mstatus)
    × ((run restore_context after_handler).csrs mscratch ≡ running_task.csrs mscratch)
restore_context-trap_entry_example =
    restore_context-trap_entry running_task after_handler 4096 refl (omega arith) refl
      (λ a low high. refl)
