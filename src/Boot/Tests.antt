-- ===== src/Boot/Tests.antt =====
-- The boot of one task, as a witness.
use ferret_os.Common.{
  Run, panic, out_of_fuel, Bool, true, false, ℕ, ◌+◌, ◌*◌, ◌≡◌, refl, [], ◌∷◌, length, replicate,
  ok, halted, arith, ◌⊎◌,
}
use ferret_os.Task.{Registry, max_tasks}
use ferret_os.Context.{TrapFrame}
use ferret_os.Context.Frames.{home}
use ferret_os.Pmp.{Pmp}
use ferret_os.Clint.{Clint, Words, get_mtime, hi_word}
use ferret_os.Scheduler.Dispatch.{Served}
use ferret_os.Syscall.{System}
use ferret_os.Trap.Handler.{InCharge}
use ferret_os.Boot.{TaskConfig, TaskEntry, Image, kernel_main, register_tasks}
use ferret_os.Trap.{Machine, Readings, trap_handler}
use ferret_os.Trap.Reach.{start, trap, interrupted}
use ferret_os.Boot.Reached.{booted, kernel_main-Reach}
use ferret_os.Boot.Start.{Framed}
use ferret_os.Boot.Ready.{Refused, Accepted, kernel_main-InCharge}

is_ok : {A : Type 0} → Run A → Bool
is_ok (ok a) = true
is_ok r = false

ok_of : {A : Type 0} (r : Run A) → is_ok r ≡ true → (a : A) × (r ≡ ok a)
unfolding is_ok
ok_of (ok a) h = (a, refl)
ok_of panic h = cc
ok_of halted h = cc
ok_of out_of_fuel h = cc

abbrev sensor : TaskEntry
sensor = record {
  config = record {
    priority = 3;
    stack_size = 1024;
    memory_start = 2147622912;
    memory_end = 2147627008;
    exclusive_cap_mask = 1;
    shared_cap_mask = 2147483648;
    required_cap_mask = 0;
    sends_mask = 1;
    receives_mask = 0;
  };
  stack = 2147622912;
  body = 2147500000;
}

abbrev image : Image
image = record {
  tasks = sensor ∷ [];
  mip_table = 0 ∷ [];
  kernel_stacks = 2148007936;
  stack_idle = 2148024320;
  idle = 2147500400;
  task_returned = 2147500800;
  gp = 2148010000;
}

abbrev slow_mtime : ℕ → ℕ
slow_mtime t = 100

abbrev no_pmp : Pmp
no_pmp = record { addr = replicate 16 0; cfg = replicate 16 0 }

abbrev off : Clint
off = record { tick_count = 0; next_deadline = 0; mtimecmp = record { hi = 0; lo = 0 } }

abbrev blank : TrapFrame
blank = record { regs = replicate 32 0; mepc = 0; mstatus = 0; mcause = 0; mtval = 0 }

reads_100 : get_mtime 2 slow_mtime 0 ≡ ok (100, 3)
unfolding get_mtime
reads_100 = refl

kernel_main-InCharge_example :
    (r : Registry) × (memory' : ℕ → ℕ) × (register_tasks image (λ a. 0) ≡ ok (r, memory'))
    × (((kernel_main image slow_mtime 0 (λ a. 0) (λ a. blank) no_pmp off ≡ halted)
          × Refused r.slots)
        ⊎ (Accepted r.slots
            × (frame : ℕ) × (s : System) × (c : Clint) × (kernel_main image slow_mtime 0
                  (λ a. 0)
                  (λ a. blank)
                  no_pmp
                  off
                ≡ ok (frame, s, c))
            × InCharge
                (home image.kernel_stacks)
                (length image.tasks + 1)
                (length image.tasks + 1)
                frame
                s
            × Served s.kernel
            × Framed image 0 (length image.tasks + 1) s.kernel.registry.slots s.frames))
kernel_main-InCharge_example =
    kernel_main-InCharge image slow_mtime 0 100 3 (λ a. 0) (λ a. blank) no_pmp off (omega arith)
      (omega arith) reads_100

boot_ok : is_ok (kernel_main image slow_mtime 0 (λ a. 0) (λ a. blank) no_pmp off) ≡ true
unfolding is_ok kernel_main register_tasks ferret_os.Boot.register_set ferret_os.Task.register_task
    ferret_os.Task.empty_registry ferret_os.Boot.check_region_placement
    ferret_os.Boot.into_descriptor ferret_os.Task.with_entry ferret_os.Task.with_channels
    ferret_os.Task.with_capabilities ferret_os.Boot.is_inside ferret_os.Boot.idle_task
    ferret_os.Task.with_mode ferret_os.Allocator.check_capability_conflicts
    ferret_os.Allocator.check_caps_from ferret_os.Allocator.claim_caps ferret_os.Allocator.claim
    ferret_os.Task.has_bit ferret_os.Allocator.check_channel_conflicts
    ferret_os.Allocator.check_ends_from ferret_os.Allocator.claim_ends ferret_os.Boot.first_frame
    ferret_os.Boot.mpp_of ferret_os.Boot.prepare_frames ferret_os.Boot.prepare_loop
    ferret_os.Boot.static_kernel ferret_os.Boot.write_at ferret_os.Ccg.Populated.slot
    ferret_os.Channel.new ferret_os.Channel.no_messages get_mtime ferret_os.Clint.last_write
    ferret_os.Clint.mtimecmp_writes ferret_os.Clint.set_mtimecmp ferret_os.Clint.start_ticks
    ferret_os.Context.init_frame ferret_os.Context.kernel_stack_top ferret_os.Memory.write_canary
    ferret_os.Memory.write_u32 ferret_os.Mip.store_mip ferret_os.Pmp.activate_task_region
    ferret_os.Pmp.configure_pmp ferret_os.Pmp.encode_region ferret_os.Pmp.is_napot
    ferret_os.Pmp.is_power_of_two ferret_os.Pmp.napot_addr ferret_os.Pmp.task_entries
    ferret_os.Pmp.write_cfg_byte ferret_os.Pmp.write_pmpaddr ferret_os.Pmp.write_pmpcfg0
    ferret_os.Queue.fill_from_last ferret_os.Queue.insert ferret_os.Queue.larger
    ferret_os.Queue.load ferret_os.Queue.new ferret_os.Queue.outranks ferret_os.Queue.outranks_at
    ferret_os.Queue.outranks_slots ferret_os.Queue.pop_max ferret_os.Queue.sift_down
    ferret_os.Queue.sift_down_loop ferret_os.Queue.sift_up ferret_os.Queue.sift_up_loop
    ferret_os.Queue.store ferret_os.Queue.swap ferret_os.Scheduler.enqueue_all
    ferret_os.Scheduler.frame_of ferret_os.Scheduler.init ferret_os.Scheduler.mark_running
    ferret_os.Scheduler.new_stats ferret_os.Scheduler.populate_ready_queue
    ferret_os.Scheduler.same_state ferret_os.Scheduler.task_ptr ferret_os.Scheduler.update_slot
    ferret_os.Scheduler.update_task ferret_os.Scheduler.write_precomputed_mip
    ferret_os.Task.effective_priority ferret_os.Task.new
boot_ok = refl

abbrev boot :
    (x : ℕ × System × Clint) × (kernel_main image slow_mtime 0 (λ a. 0) (λ a. blank) no_pmp off
      ≡ ok x)
boot = ok_of (kernel_main image slow_mtime 0 (λ a. 0) (λ a. blank) no_pmp off) boot_ok

-- The sensor yields.
abbrev yields : TrapFrame
yields = record { regs = replicate 32 0; mepc = 2147500040; mstatus = 0; mcause = 8; mtval = 0 }

abbrev readings : Readings
readings = record {
  flash_image = (0, 0);
  isr_entry = 0;
  instret_now = 200;
  mtime = slow_mtime;
  at = 0;
}

abbrev yielding : Machine
yielding = interrupted boot.0.0 yields (λ a. 0) (booted boot.0.1 boot.0.2)

yield_ok : is_ok (trap_handler readings boot.0.0 yielding) ≡ true
unfolding is_ok kernel_main register_tasks ferret_os.Boot.register_set ferret_os.Task.register_task
    ferret_os.Task.empty_registry ferret_os.Boot.check_region_placement
    ferret_os.Boot.into_descriptor ferret_os.Task.with_entry ferret_os.Task.with_channels
    ferret_os.Task.with_capabilities ferret_os.Boot.is_inside ferret_os.Boot.idle_task
    ferret_os.Task.with_mode ferret_os.Allocator.check_capability_conflicts
    ferret_os.Allocator.check_caps_from ferret_os.Allocator.claim_caps ferret_os.Allocator.claim
    ferret_os.Task.has_bit ferret_os.Allocator.check_channel_conflicts
    ferret_os.Allocator.check_ends_from ferret_os.Allocator.claim_ends ferret_os.Boot.first_frame
    ferret_os.Boot.mpp_of ferret_os.Boot.prepare_frames ferret_os.Boot.prepare_loop
    ferret_os.Boot.static_kernel ferret_os.Boot.write_at ferret_os.Ccg.Populated.slot
    ferret_os.Channel.new ferret_os.Channel.no_messages get_mtime ferret_os.Clint.last_write
    ferret_os.Clint.mtimecmp_writes ferret_os.Clint.set_mtimecmp ferret_os.Clint.start_ticks
    ferret_os.Context.init_frame ferret_os.Context.kernel_stack_top ferret_os.Memory.write_canary
    ferret_os.Memory.write_u32 ferret_os.Mip.store_mip ferret_os.Pmp.activate_task_region
    ferret_os.Pmp.configure_pmp ferret_os.Pmp.encode_region ferret_os.Pmp.is_napot
    ferret_os.Pmp.is_power_of_two ferret_os.Pmp.napot_addr ferret_os.Pmp.task_entries
    ferret_os.Pmp.write_cfg_byte ferret_os.Pmp.write_pmpaddr ferret_os.Pmp.write_pmpcfg0
    ferret_os.Queue.fill_from_last ferret_os.Queue.insert ferret_os.Queue.larger
    ferret_os.Queue.load ferret_os.Queue.new ferret_os.Queue.outranks ferret_os.Queue.outranks_at
    ferret_os.Queue.outranks_slots ferret_os.Queue.pop_max ferret_os.Queue.sift_down
    ferret_os.Queue.sift_down_loop ferret_os.Queue.sift_up ferret_os.Queue.sift_up_loop
    ferret_os.Queue.store ferret_os.Queue.swap ferret_os.Scheduler.enqueue_all
    ferret_os.Scheduler.frame_of ferret_os.Scheduler.init ferret_os.Scheduler.mark_running
    ferret_os.Scheduler.new_stats ferret_os.Scheduler.populate_ready_queue
    ferret_os.Scheduler.same_state ferret_os.Scheduler.task_ptr ferret_os.Scheduler.update_slot
    ferret_os.Scheduler.update_task ferret_os.Scheduler.write_precomputed_mip
    ferret_os.Task.effective_priority ferret_os.Task.new trap_handler interrupted ok_of
    ferret_os.Trap.ecall_trap ferret_os.Trap.note_syscall_mode ferret_os.Syscall.dispatch
    ferret_os.Syscall.set_a0 ferret_os.Syscall.write_frame ferret_os.Scheduler.yield_current
    ferret_os.Scheduler.save_current ferret_os.Scheduler.requeue_current
    ferret_os.Scheduler.enqueue_ready ferret_os.Scheduler.dispatch_next
yield_ok = refl

abbrev after : (x : ℕ × Machine) × (trap_handler readings boot.0.0 yielding ≡ ok x)
after = ok_of (trap_handler readings boot.0.0 yielding) yield_ok

kernel_main-Reach_example :
    InCharge
      (home image.kernel_stacks)
      (length image.tasks + 1)
      (length image.tasks + 1 + 1 * (length image.tasks + 1 + 2))
      after.0.0
      after.0.1.system
kernel_main-Reach_example =
    kernel_main-Reach image slow_mtime 0 100 3 (λ a. 0) (λ a. blank) no_pmp off (omega arith)
      (omega arith) reads_100 boot.0.0 boot.0.1 boot.0.2 boot.1
      (trap start readings yields (λ a. 0) 100 3 reads_100 after.1) (omega arith)
