-- ===== src/Trap/Tests.antt =====
-- A timer interrupt of the demonstration kernel, as a witness.
use ferret_os.Common.{ℕ, zero, suc, ◌+◌, ◌^◌, ◌≡◌, refl, sym, ◌∙◌, [], some, replicate, ok, arith}
use ferret_os.Context.{TrapFrame}
use ferret_os.Memory.{write_canary}
use ferret_os.Task.{TaskDescriptor, running, blocked, sleep}
use ferret_os.Ccg.Populated.{slot, no_task_beyond}
use ferret_os.Channel.{Channel, Message, channel}
use ferret_os.Clint.{get_mtime}
use ferret_os.Scheduler.Demo.{task, demo, demo-Steady}
use ferret_os.Trap.{Machine, Readings, trap_handler}
use ferret_os.Trap.Handler.{InCharge, Ends, trap_handler-Ends}

abbrev ticking : TrapFrame
ticking = record { regs = replicate 32 0; mepc = 64; mstatus = 0; mcause = 2 ^ 31 + 7; mtval = 0 }

abbrev machine_at_work : Machine
machine_at_work = record {
  system = record {
    kernel = demo;
    channels = [];
    frames = λ a. ticking;
    memory = write_canary (λ a. 0) 0;
    console = [];
    clock = 0;
  };
  clint = record { tick_count = 0; next_deadline = 0; mtimecmp = record { hi = 0; lo = 0 } };
  syscall_seen = 0;
}

abbrev readings : Readings
readings = record {
  flash_image = (0, 0);
  isr_entry = 0;
  instret_now = 200;
  mtime = λ i. 100;
  at = 0;
}

reads_100 : get_mtime 2 readings.mtime readings.at ≡ ok (100, 3)
unfolding get_mtime
reads_100 = refl

demo_charge : InCharge (λ i. 4096) 3 1 4096 machine_at_work.system
demo_charge = record {
  order = record { steady = demo-Steady; hold = λ ch chan at. absurd (none_held ch chan at) };
  homed = record { size = refl; home = λ i t at. at_4096 i t at };
  own = refl;
}
  where
    none_held : (ch : ℕ) (chan : Channel Message) → channel [] ch ≡ some chan → ⊥
    none_held ch chan at = unfold channel in cc

    at_4096 :
        (i : ℕ) (t : TaskDescriptor) → slot demo.registry.slots i ≡ some t → t.stack_ptr ≡ 4096
    at_4096 zero t at =
        let e : record (task 0 1) { state = running } ≡ t = unfold slot in cc in rw (← e) refl
    at_4096 (suc zero) t at = let e : task 1 3 ≡ t = unfold slot in cc in rw (← e) refl
    at_4096 (suc (suc zero)) t at =
        let e : record (task 2 2) { state = blocked; blocked_on = sleep; wake_at = 7 } ≡ t =
          unfold slot in cc in
        rw (← e) refl
    at_4096 (suc (suc (suc i))) t at =
        absurd (let gone = sym (no_task_beyond 13 i _ _ _) ∙ at in cc)

trap_handler-Ends_example :
    Ends (λ i. 4096) 3 1 4096 machine_at_work (trap_handler readings 4096 machine_at_work)
trap_handler-Ends_example =
    trap_handler-Ends (λ i. 4096) 3 readings 1 4096 100 3 machine_at_work demo_charge (omega arith)
      reads_100
