-- ===== src/Trap/Handler.antt =====
-- What one trap keeps.
use ferret_os.Common.{
  ℕ, zero, suc, ◌+◌, ◌/◌, ◌%◌, ◌^◌, ◌<◌, ◌≡◌, refl, ◌∙◌, false, ◌||◌, some, length, ◌==◌,
  if◌then◌else◌, Run, ok, halted, arith, inl, inr, ◌⊎◌, Bool-cases, leb, wrapping_add,
}
use ferret_os.Task.{TaskDescriptor}
use ferret_os.Memory.{canary_intact}
use ferret_os.Clint.{set_mtimecmp, tick_cycles, Clint, get_mtime, timer_isr}
use ferret_os.Scheduler.{Kernel, task_ptr, frame_of, save_current}
use ferret_os.Scheduler.Lookup.{task_ptr-slot}
use ferret_os.Scheduler.Steps.{current_running}
use ferret_os.Scheduler.Calls.{Steady}
use ferret_os.Scheduler.Waking.{Steady-age}
use ferret_os.Scheduler.Timer.{on_timer_interrupt-Served}
use ferret_os.Scheduler.Homes.{Homed, Resumes}
use ferret_os.Scheduler.Homes.Timer.{on_timer_interrupt-Resumes}
use ferret_os.Syscall.{System, write_frame}
use ferret_os.Syscall.Invariant.{InOrder, Keeps}
use ferret_os.Syscall.Dispatch.{dispatch-Keeps}
use ferret_os.Syscall.Homes.{dispatch-Lands}
use ferret_os.Trap.{note_syscall_mode, Machine, Readings, timer_trap, ecall_trap, trap_handler}

-- A system in order after at most `n` inserts, in which every task has its frame at home, and `frame` is
-- the one of the running task.
pub record InCharge (homes : ℕ → ℕ) (count n frame : ℕ) (s : System) : Type 0 where
  pub order : InOrder n s
  pub homed : Homed homes count s.kernel
  pub own : frame ≡ homes s.kernel.current_task_idx

pub Steady-ages : (d n : ℕ) (k : Kernel) → Steady n k → Steady (n + d) k
Steady-ages zero n k s = let same : n + 0 ≡ n = omega arith in rw same s
Steady-ages (suc d) n k s =
    let same : n + suc d ≡ n + d + 1 = omega arith in
    rw same (Steady-age (n + d) k (Steady-ages d n k s))

timer_isr-runs :
    (fuel : ℕ) (mtime : ℕ → ℕ) (at now later : ℕ) (c : Clint)
    → get_mtime fuel mtime at ≡ ok (now, later)
    → (tick : ℕ) × (c' : Clint) × (timer_isr fuel mtime at c ≡ ok (tick, c'))
unfolding timer_isr
timer_isr-runs fuel mtime at now later c reads =
    let tick = wrapping_add c.tick_count 1 in
    let next = (c.next_deadline + tick_cycles) % 2 ^ 64 in
    let deadline = if leb next now then (now + tick_cycles) % 2 ^ 64 else next in
    (
      tick,
      set_mtimecmp deadline (record c { tick_count = tick; next_deadline = deadline }),
      rw reads refl,
    )

-- Why the kernel stops in a trap: the canary of a registered task is broken, the exception is not a
-- system call, or a task is to be blocked and no other is ready.
pub data Stops (frame : ℕ) (s : System) : Type 0 where
  overflow :
      (j : ℕ) (t : TaskDescriptor)
      → task_ptr (save_current s.kernel frame) j ≡ some t
      → canary_intact s.memory t.stack_base ≡ false
      → Stops frame s
  fault :
      (s.frames frame).mcause / 2 ^ 31 % 2 ≡ 0
      → ((((s.frames frame).mcause % 2 ^ 31) == 8) || (((s.frames frame).mcause % 2 ^ 31) == 11))
        ≡ false
      → Stops frame s
  idle_blocked : (n : ℕ) (st : Steady n s.kernel) → length st.waiters ≡ 0 → Stops frame s

module _ (homes : ℕ → ℕ) (count : ℕ) where
  -- The frame that a steady kernel resumes is at home.
  at_home :
      (n frame : ℕ) (k : Kernel)
      → Steady n k
      → Resumes homes count (frame, k)
      → frame ≡ homes k.current_task_idx
  unfolding frame_of
  at_home n frame k st (h, inr own) = own
  at_home n frame k st (h, inl same) =
      let (t, at, run) = current_running n k st.waiters st.sound in
      same
      ∙ rw (task_ptr-slot k k.current_task_idx st.sound.size, at, frame_of)
          (h.home k.current_task_idx t at)

  -- How a trap ends.
  abbrev pub Ends : ℕ → ℕ → Machine → Run (ℕ × Machine) → Type 0
  Ends n frame m r =
      ((r ≡ halted) × Stops frame m.system)
      ⊎ ((frame' : ℕ) × (m' : Machine) × (r ≡ ok (frame', m'))
          × InCharge homes count (n + count + 2) frame' m'.system)

  module _ (w : Readings) (n frame : ℕ) (m : Machine)
      (charge : InCharge homes count n frame m.system) (few : n + count + 1 < 2 ^ 31) where
    timer_trap-Ends :
        (now later : ℕ)
        → get_mtime 2 w.mtime w.at ≡ ok (now, later)
        → Ends n frame m (timer_trap w frame m)
    unfolding timer_trap
    timer_trap-Ends now later reads =
        let s = m.system in
        let size = charge.homed.size in
        let (tick, c, isr) = timer_isr-runs 2 w.mtime w.at now later m.clint reads in
        let intact = canary_intact s.memory in
        let lands =
          on_timer_interrupt-Resumes homes count intact w.isr_entry w.instret_now tick frame
            s.kernel charge.own charge.homed in
        elim (on_timer_interrupt-Served intact w.isr_entry w.instret_now tick frame n s.kernel
          charge.order.steady (omega arith)) [
            | inl (stops, j, t, lt, at, broken) ↦ inl (rw (isr, stops) refl, overflow j t at broken)
            | inr (k', runs, steady', served) ↦
                let frame' =
                  if k'.current_task_idx == s.kernel.current_task_idx
                  then frame
                  else frame_of k' k'.current_task_idx in
                let lands' : Resumes homes count (frame', k') = rw runs at lands in
                let two : n + s.kernel.registry.count + 1 + 1 ≡ n + count + 2 = omega arith in
                let aged : Steady (n + count + 2) k' =
                  rw two at (Steady-age (n + s.kernel.registry.count + 1) k' steady') in
                inr (
                  frame',
                  record {
                    system = record s { kernel = k'; clock = c.tick_count };
                    clint = c;
                    syscall_seen = m.syscall_seen;
                  },
                  rw (isr, runs) refl,
                  record {
                    order = record { steady = aged; hold = charge.order.hold };
                    homed = lands'.0;
                    own = at_home (n + count + 2) frame' k' aged lands';
                  },
                )
          ]

    ecall_trap-Ends : Ends n frame m (ecall_trap w frame m)
    unfolding ecall_trap Keeps write_frame
    ecall_trap-Ends =
        let f = m.system.frames frame in
        let s = write_frame m.system frame (record f { mepc = wrapping_add f.mepc 4 }) in
        let order : InOrder n s = record {
          steady = charge.order.steady;
          hold = charge.order.hold;
        } in
        let lands = dispatch-Lands homes count frame w.flash_image s charge.own charge.homed in
        elim (dispatch-Keeps w.flash_image n frame s order (omega arith)) [
          | inl (none_waits, stops) ↦
              inl (rw stops refl, idle_blocked n charge.order.steady none_waits)
          | inr (frame', s', runs, order') ↦
              let lands' : Resumes homes count (frame', s'.kernel) = rw runs at lands in
              let same : n + 2 + count ≡ n + count + 2 = omega arith in
              let aged = rw same at (Steady-ages count (n + 2) s'.kernel order'.steady) in
              inr (
                frame',
                record {
                  system = s';
                  clint = m.clint;
                  syscall_seen = note_syscall_mode s.kernel.current_task_idx m.syscall_seen;
                },
                rw runs refl,
                record {
                  order = record { steady = aged; hold = order'.hold };
                  homed = lands'.0;
                  own = at_home (n + count + 2) frame' s'.kernel aged lands';
                },
              )
        ]

    ignored-Ends : Ends n frame m (ok (frame, m))
    ignored-Ends =
        let same : n + (count + 2) ≡ n + count + 2 = omega arith in
        inr (
          frame,
          m,
          refl,
          record {
            order = record {
              steady = rw same at (Steady-ages (count + 2) n m.system.kernel charge.order.steady);
              hold = charge.order.hold;
            };
            homed = charge.homed;
            own = charge.own;
          },
        )

  -- From a machine in charge with fewer than 2^31 - 1 inserts, any trap ends in charge.
  pub trap_handler-Ends :
      (w : Readings) (n frame now later : ℕ) (m : Machine)
      → InCharge homes count n frame m.system
      → n + count + 1 < 2 ^ 31
      → get_mtime 2 w.mtime w.at ≡ ok (now, later)
      → Ends n frame m (trap_handler w frame m)
  unfolding trap_handler
  trap_handler-Ends w n frame now later m charge few reads =
      let mcause = (m.system.frames frame).mcause in
      let cause_code = mcause % 2 ^ 31 in
      elim (Bool-cases (mcause / 2 ^ 31 % 2 == 1)) [
        | inl interrupt ↦ elim (Bool-cases (cause_code == 7)) [
          | inl timer ↦
              rw (interrupt, timer) (timer_trap-Ends w n frame m charge few now later reads)
          | inr other ↦ rw (interrupt, other) (ignored-Ends w n frame m charge few)
        ]
        | inr exception ↦ elim (Bool-cases ((cause_code == 8) || (cause_code == 11))) [
          | inl call ↦ rw (exception, call) (ecall_trap-Ends w n frame m charge few)
          | inr other ↦ inl (rw (exception, other) refl, fault (ground arith) other)
        ]
      ]
