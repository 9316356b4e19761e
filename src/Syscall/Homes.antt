-- ===== src/Syscall/Homes.antt =====
-- The frames that the system calls return: those of the task that then runs.
use ferret_os.Common.{
  ℕ, ◌%◌, ◌≡◌, refl, sym, ap, ◌∙◌, Bool-cases, wrapping_sub, not, Option, none, some, ◌==◌,
  if◌then◌else◌, Option-cases, inl, inr, Run, Ensures, Ensures->>=, Ensures-if, Ensures-next, ltb,
  min,
}
use ferret_os.Context.{reg_a0, reg_a1, reg_a2, reg_a3, reg_a7}
use ferret_os.Task.{BlockReason, send, receive}
use ferret_os.Channel.{Channel, Message, from_bytes, msg_max, try_receive, is_full, channel}
use ferret_os.Scheduler.{Kernel, current_task, wake_blocked_on}
use ferret_os.Scheduler.Homes.{
  Homed, Stays, Resumes, wake_blocked_on-Homed, yield_current-Resumes, sleep_current-Resumes,
  block_current-Resumes, preempt_if_outranked-Resumes,
}
use ferret_os.Syscall.{
  System, enosys, eperm, efault, eagain, einval, log_max_len, may_log, buffer_readable,
  readable_ranges, writable_ranges, holds_endpoint, read_bytes, reg, set_a0, write_frame, ret,
  on_kernel, block_and_restart, wake_and_preempt, nonblocking, send_checked, sys_send,
  receive_checked, sys_receive, sys_log, logged, dispatch,
}

module _ (homes : ℕ → ℕ) (count : ℕ) where
  -- How a call ends for the frames.
  abbrev pub Lands : ℕ × System → Type 0
  Lands (frame, s) = Resumes homes count (frame, s.kernel)

  on_kernel-Lands :
      (s : System) (r : Run (ℕ × Kernel))
      → Ensures (Resumes homes count) r
      → Ensures Lands (on_kernel s r)
  on_kernel-Lands s r h = Ensures->>= (Resumes homes count) Lands r _ h (λ (frame, k) at. at)

  module _ (frame : ℕ) where
    ret-Lands :
        (value : ℕ) (s : System)
        → frame ≡ homes s.kernel.current_task_idx
        → Homed homes count s.kernel
        → Ensures Lands (ret frame value s)
    unfolding ret set_a0 write_frame
    ret-Lands value s own h = (h, inr own)

    block_and_restart-Lands :
        (reason : BlockReason) (s : System)
        → frame ≡ homes s.kernel.current_task_idx
        → Homed homes count s.kernel
        → Ensures Lands (block_and_restart frame reason s)
    unfolding block_and_restart write_frame
    block_and_restart-Lands reason s own h =
        let f = s.frames frame in
        on_kernel-Lands (write_frame s frame (record f { mepc = wrapping_sub f.mepc 4 })) _
          (block_current-Resumes homes count frame reason s.kernel own h)

    wake_and_preempt-Lands :
        (reason : BlockReason) (s : System)
        → frame ≡ homes s.kernel.current_task_idx
        → Homed homes count s.kernel
        → Ensures Lands (wake_and_preempt frame reason s)
    unfolding wake_and_preempt
    wake_and_preempt-Lands reason s own h =
        Ensures->>= (λ (woken, k). Stays homes count s.kernel.current_task_idx k) Lands
          (wake_blocked_on reason s.kernel) _ (wake_blocked_on-Homed homes count reason s.kernel h)
          (λ (woken, k) st.
            on_kernel-Lands s _
              (preempt_if_outranked-Resumes homes count frame k (rw st.same own) st.homed))

    wait-Lands :
        (flags : ℕ) (reason : BlockReason) (s : System)
        → frame ≡ homes s.kernel.current_task_idx
        → Homed homes count s.kernel
        → Ensures Lands
            (if nonblocking flags then ret frame eagain s else block_and_restart frame reason s)
    wait-Lands flags reason s own h =
        Ensures-if Lands (nonblocking flags) (ret frame eagain s) (block_and_restart frame reason s)
          (ret-Lands eagain s own h) (block_and_restart-Lands reason s own h)

    send_checked-Lands :
        (ch ptr len flags : ℕ) (chan : Channel Message) (s : System)
        → frame ≡ homes s.kernel.current_task_idx
        → Homed homes count s.kernel
        → Ensures Lands (send_checked frame ch ptr len flags chan s)
    unfolding send_checked set_a0 write_frame
    send_checked-Lands ch ptr len flags chan s own h =
        Ensures-if Lands (is_full chan) _ _ (wait-Lands flags (send (ch % 256)) s own h)
          (elim (Option-cases (from_bytes (read_bytes s.memory ptr len))) [
            | inl long ↦ rw long tt
            | inr (msg, short) ↦ rw short (wake_and_preempt-Lands (receive (ch % 256)) _ own h)
          ])

    sys_send-Lands :
        (flash_image : ℕ × ℕ) (ch ptr len flags : ℕ) (s : System)
        → frame ≡ homes s.kernel.current_task_idx
        → Homed homes count s.kernel
        → Ensures Lands (sys_send flash_image frame ch ptr len flags s)
    unfolding sys_send
    sys_send-Lands flash_image ch ptr len flags s own h =
        elim (Option-cases (current_task s.kernel)) [
          | inl idle ↦ rw (idle, sys_send) (ret-Lands eperm s own h)
          | inr (task, caller) ↦ elim (Option-cases (channel s.channels ch)) [
            | inl missing ↦ rw (caller, sys_send, missing) (ret-Lands einval s own h)
            | inr (chan, at_ch) ↦
                rw (caller, sys_send, at_ch)
                  (Ensures-if Lands (not (holds_endpoint task.sends_mask ch)) _ _
                    (ret-Lands eperm s own h)
                    (Ensures-if Lands (ltb msg_max len) _ _ (ret-Lands einval s own h) (
                      Ensures-if Lands
                        (not (buffer_readable ptr len (readable_ranges flash_image task))) _ _
                        (ret-Lands efault s own h)
                        (send_checked-Lands ch ptr len flags chan s own h))))
          ]
        ]

    receive_checked-Lands :
        (ch ptr size flags : ℕ) (r : Option Message × Channel Message) (s : System)
        → frame ≡ homes s.kernel.current_task_idx
        → Homed homes count s.kernel
        → Ensures Lands (receive_checked frame ch ptr size flags r s)
    unfolding receive_checked set_a0 write_frame
    receive_checked-Lands ch ptr size flags (none, chan) s own h =
        wait-Lands flags (receive (ch % 256)) s own h
    receive_checked-Lands ch ptr size flags (some msg, chan) s own h =
        wake_and_preempt-Lands (send (ch % 256)) _ own h

    sys_receive-Lands :
        (ch ptr size flags : ℕ) (s : System)
        → frame ≡ homes s.kernel.current_task_idx
        → Homed homes count s.kernel
        → Ensures Lands (sys_receive frame ch ptr size flags s)
    unfolding sys_receive
    sys_receive-Lands ch ptr size flags s own h = elim (Option-cases (current_task s.kernel)) [
      | inl idle ↦ rw (idle, sys_receive) (ret-Lands eperm s own h)
      | inr (task, caller) ↦ elim (Option-cases (channel s.channels ch)) [
        | inl missing ↦ rw (caller, sys_receive, missing) (ret-Lands einval s own h)
        | inr (chan, at_ch) ↦
            rw (caller, sys_receive, at_ch)
              (Ensures-if Lands (not (holds_endpoint task.receives_mask ch)) _ _
                (ret-Lands eperm s own h)
                (Ensures-if Lands (not (buffer_readable ptr size (writable_ranges task))) _ _
                  (ret-Lands efault s own h)
                  (Ensures-next Lands (try_receive chan) _
                    (λ r. receive_checked-Lands ch ptr size flags r s own h))))
      ]
    ]

    sys_log-kernel :
        (flash_image : ℕ × ℕ) (ptr len : ℕ) (s : System)
        → (sys_log flash_image ptr len s).1.kernel ≡ s.kernel
    unfolding sys_log
    sys_log-kernel flash_image ptr len s = elim (Option-cases (current_task s.kernel)) [
      | inl idle ↦ rw (idle, sys_log) refl
      | inr (task, caller) ↦ elim (Bool-cases (may_log task)) [
        | inr off ↦ rw (caller, sys_log, off) refl
        | inl may ↦ elim (Bool-cases (buffer_readable ptr len (readable_ranges flash_image task))) [
          | inr hidden ↦ rw (caller, sys_log, may, hidden) refl
          | inl fits ↦ rw (caller, sys_log, may, fits) refl
        ]
      ]
    ]

    sys_log-Lands :
        (flash_image : ℕ × ℕ) (ptr len : ℕ) (s : System)
        → frame ≡ homes s.kernel.current_task_idx
        → Homed homes count s.kernel
        → Ensures Lands (logged frame (sys_log flash_image ptr len s))
    sys_log-Lands flash_image ptr len s own h =
        let same = sys_log-kernel flash_image ptr len s in
        ret-Lands (sys_log flash_image ptr len s).0 (sys_log flash_image ptr len s).1
          (own ∙ ap (λ (k : Kernel). homes k.current_task_idx) (sym same)) (rw same h)

    -- A system call from the frame of the running task returns the frame of the task that then runs.
    pub dispatch-Lands :
        (flash_image : ℕ × ℕ) (s : System)
        → frame ≡ homes s.kernel.current_task_idx
        → Homed homes count s.kernel
        → Ensures Lands (dispatch flash_image frame s)
    unfolding dispatch set_a0 write_frame
    dispatch-Lands flash_image s own h =
        let call = reg s frame reg_a7 in
        Ensures-if Lands (call == 0) _ _
          (on_kernel-Lands (set_a0 s frame 0) _
            (yield_current-Resumes homes count frame s.kernel own h))
          (Ensures-if Lands (call == 1) _ _
            (on_kernel-Lands (set_a0 s frame 0) _
              (sleep_current-Resumes homes count s.clock frame (reg s frame reg_a0) s.kernel own h))
            (Ensures-if Lands (call == 2) _ _
              (sys_log-Lands flash_image (reg s frame reg_a0) (min (reg s frame reg_a1) log_max_len)
                s own h)
              (Ensures-if Lands (call == 3) _ _ (ret-Lands s.clock s own h) (
                Ensures-if Lands (call == 4) _ _
                  (sys_send-Lands flash_image (reg s frame reg_a0) (reg s frame reg_a1)
                    (reg s frame reg_a2) (reg s frame reg_a3) s own h)
                  (Ensures-if Lands (call == 5) _ _
                    (sys_receive-Lands (reg s frame reg_a0) (reg s frame reg_a1)
                      (reg s frame reg_a2) (reg s frame reg_a3) s own h)
                    (ret-Lands enosys s own h))))))
