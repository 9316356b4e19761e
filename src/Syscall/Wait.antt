-- ===== src/Syscall/Wait.antt =====
-- What the channel calls do when they are allowed but the channel is not ready.
use ferret_os.Common.{
  ℕ, ◌%◌, ◌≤◌, ◌<◌, ◌≡◌, refl, true, false, some, List, [], length, ltb, ◌==◌, ok, arith, inl, inr,
  ◌⊎◌, Bool-cases, wrapping_sub,
}
use ferret_os.Task.{TaskDescriptor, BlockReason, send, receive}
use ferret_os.Channel.{Channel, Message, msg_max, channel_capacity, is_full, capacity, channel}
use ferret_os.Channel.Contents.{Holds, try_receive-empty}
use ferret_os.Scheduler.{Kernel, current_task, frame_of}
use ferret_os.Scheduler.Dispatch.{Served}
use ferret_os.Scheduler.Switched.{waiting_for, Switched}
use ferret_os.Scheduler.Calls.{Steady}
use ferret_os.Scheduler.Blocking.{block_current-Served}
use ferret_os.Syscall.{
  System, set_a0, write_frame, send_checked, sys_send, receive_checked, sys_receive, holds_endpoint,
  buffer_readable, readable_ranges, writable_ranges, ret, eagain, nonblocking, block_and_restart,
}

-- The saved frame is set back to its `ecall`.
abbrev pub rewound : System → ℕ → System
rewound s frame =
    let f = s.frames frame in write_frame s frame (record f { mepc = wrapping_sub f.mepc 4 })

module _ (n frame ch ptr flags : ℕ) (task : TaskDescriptor) (chan : Channel Message) (s : System)
    (steady : Steady n s.kernel) (some_wait : 0 < length steady.waiters)
    (caller : current_task s.kernel ≡ some task) (at_ch : channel s.channels ch ≡ some chan) where
  block_and_restart-Served :
      (reason : BlockReason)
      → (k' : Kernel) × (block_and_restart frame reason s
          ≡ ok (frame_of k' k'.current_task_idx, record (rewound s frame) { kernel = k' }))
        × Steady n k'
        × Served k'
        × Switched (waiting_for frame reason) s.kernel k'
  unfolding block_and_restart write_frame
  block_and_restart-Served reason =
      let (k', runs, steady', served, switched) =
        block_current-Served n s.kernel steady some_wait frame reason in
      (k', rw runs refl, steady', served, switched)

  -- From a steady kernel with a task ready, a permitted send to a full channel either returns
  -- EAGAIN in the caller's a0, if it must not block, or leaves the caller blocked on sending to the
  -- channel, with its frame set back to the `ecall`, and runs a task that was ready and that no
  -- ready task outranks. Nothing else changes of the tasks; channels and memory stay as they are.
  pub sys_send-full :
      (flash_image : ℕ × ℕ) (len : ℕ) (q : List Message)
      → Holds channel_capacity chan q
      → length q ≡ channel_capacity
      → holds_endpoint task.sends_mask ch ≡ true
      → len ≤ msg_max
      → buffer_readable ptr len (readable_ranges flash_image task) ≡ true
      → ((nonblocking flags ≡ true)
          × (sys_send flash_image frame ch ptr len flags s ≡ ok (frame, set_a0 s frame eagain)))
        ⊎ ((nonblocking flags ≡ false)
            × (k' : Kernel) × (sys_send flash_image frame ch ptr len flags s
                ≡ ok (frame_of k' k'.current_task_idx, record (rewound s frame) { kernel = k' }))
            × Steady n k'
            × Served k'
            × Switched (waiting_for frame (send (ch % 256))) s.kernel k')
  unfolding sys_send send_checked is_full capacity ret
  sys_send-full flash_image len q held no_room may short fits =
      let count = held.count in
      let size = held.size in
      let in_size : ltb msg_max len ≡ false = ground arith in
      let full : (chan.len == length chan.buffer) ≡ true = ground arith in
      elim (Bool-cases (nonblocking flags)) [
        | inl now ↦ inl (now, rw (caller, sys_send, at_ch, may, in_size, fits, full, now) refl)
        | inr wait ↦
            let (k', runs, steady', served, switched) =
              block_and_restart-Served (send (ch % 256)) in
            inr (
              wait,
              k',
              rw (caller, sys_send, at_ch, may, in_size, fits, full, wait) runs,
              steady',
              served,
              switched,
            )
      ]

  -- From a steady kernel with a task ready, a permitted receive from an empty channel either
  -- returns EAGAIN in the caller's a0, if it must not block, or leaves the caller blocked on
  -- receiving from the channel, with its frame set back to the `ecall`, and runs a task that was
  -- ready and that no ready task outranks. Nothing else changes of the tasks; channels and memory
  -- stay as they are.
  pub sys_receive-empty :
      (size : ℕ)
      → Holds channel_capacity chan []
      → holds_endpoint task.receives_mask ch ≡ true
      → buffer_readable ptr size (writable_ranges task) ≡ true
      → ((nonblocking flags ≡ true)
          × (sys_receive frame ch ptr size flags s ≡ ok (frame, set_a0 s frame eagain)))
        ⊎ ((nonblocking flags ≡ false)
            × (k' : Kernel) × (sys_receive frame ch ptr size flags s
                ≡ ok (frame_of k' k'.current_task_idx, record (rewound s frame) { kernel = k' }))
            × Steady n k'
            × Served k'
            × Switched (waiting_for frame (receive (ch % 256))) s.kernel k')
  unfolding sys_receive receive_checked ret
  sys_receive-empty size held may fits =
      let stop = try_receive-empty channel_capacity chan held in
      elim (Bool-cases (nonblocking flags)) [
        | inl now ↦ inl (now, rw (caller, sys_receive, at_ch, may, fits, stop, now) refl)
        | inr wait ↦
            let (k', runs, steady', served, switched) =
              block_and_restart-Served (receive (ch % 256)) in
            inr (
              wait,
              k',
              rw (caller, sys_receive, at_ch, may, fits, stop, wait) runs,
              steady',
              served,
              switched,
            )
      ]
