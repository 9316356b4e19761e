-- ===== src/Syscall/Deliver.antt =====
-- What the channel calls do when they are allowed and the channel is ready.
use ferret_os.Common.{
  ℕ, ◌+◌, ◌%◌, ◌≤◌, ◌<◌, ◌^◌, min, ◌≡◌, refl, true, false, some, List, [], ◌∷◌, ◌++◌, length, set,
  take, ltb, ok, arith, inl, inr,
}
use ferret_os.Task.{TaskDescriptor, BlockReason, send, receive}
use ferret_os.Channel.{
  Channel, Message, bytes, msg_max, channel_capacity, is_full, capacity, channel,
}
use ferret_os.Channel.Contents.{Holds, try_send-room, try_receive-first}
use ferret_os.Channel.Bytes.{bytes-from_bytes}
use ferret_os.Scheduler.{Kernel, current_task}
use ferret_os.Scheduler.Dispatch.{Served}
use ferret_os.Scheduler.Calls.{Steady, preempt_if_outranked-Served}
use ferret_os.Scheduler.Waking.{Steady-age, wake_blocked_on-woken}
use ferret_os.Syscall.{
  System, set_a0, write_frame, wake_and_preempt, send_checked, sys_send, receive_checked,
  sys_receive, holds_endpoint, buffer_readable, readable_ranges, writable_ranges, read_bytes,
  write_bytes,
}
use ferret_os.Syscall.Buffers.{length-read_bytes}

-- Waking the peer and rescheduling always succeed.
wake_and_preempt-Served :
    (n frame : ℕ) (reason : BlockReason) (s : System)
    → Steady n s.kernel
    → n + 1 < 2 ^ 31
    → (frame' : ℕ) × (k' : Kernel) × (wake_and_preempt frame reason s
        ≡ ok (frame', record s { kernel = k' }))
      × Steady (n + 2) k'
      × Served k'
unfolding wake_and_preempt
wake_and_preempt-Served n frame reason s steady few =
    let two : n + 1 + 1 ≡ n + 2 = omega arith in
    elim (wake_blocked_on-woken n reason s.kernel steady (omega arith)) [
      | inl (runs, gone) ↦
          let (frame', k', runs', steady', served, how) =
            preempt_if_outranked-Served (n + 1) frame s.kernel (Steady-age n s.kernel steady) few in
          (frame', k', rw (runs, runs') refl, rw two at steady', served)
      | inr (j, k₁, runs, hit, steady₁, regs, kept) ↦
          let (frame', k', runs', steady', served, how) =
            preempt_if_outranked-Served (n + 1) frame k₁ steady₁ few in
          (frame', k', rw (runs, runs') refl, rw two at steady', served)
    ]

module _ (n frame ch ptr flags : ℕ) (task : TaskDescriptor) (chan : Channel Message) (s : System)
    (steady : Steady n s.kernel) (few : n + 1 < 2 ^ 31) (caller : current_task s.kernel ≡ some task)
    (at_ch : channel s.channels ch ≡ some chan) where
  not_full :
      (q : List Message)
      → Holds channel_capacity chan q
      → length q < channel_capacity
      → is_full chan ≡ false
  unfolding is_full capacity
  not_full q held room = let count = held.count in let size = held.size in ground arith

  -- A message that waits in the channel is copied to the caller, cut to the buffer.
  pub sys_receive-delivers :
      (size : ℕ) (msg : Message) (q : List Message)
      → Holds channel_capacity chan (msg ∷ q)
      → holds_endpoint task.receives_mask ch ≡ true
      → buffer_readable ptr size (writable_ranges task) ≡ true
      → (frame' : ℕ) × (s' : System) × (chan' : Channel Message) × (sys_receive frame ch ptr size
            flags s
          ≡ ok (frame', s'))
        × (s'.memory ≡ write_bytes s.memory ptr (take (min (length (bytes msg)) size) (bytes msg)))
        × (s'.channels ≡ set s.channels ch chan')
        × Holds channel_capacity chan' q
        × Steady (n + 2) s'.kernel
        × Served s'.kernel
  unfolding sys_receive receive_checked channel set_a0 write_frame
  sys_receive-delivers size msg q held may fits =
      let (chan', runs, held') = try_receive-first channel_capacity chan msg q held in
      let n_bytes = min (length (bytes msg)) size in
      let s₁ : System =
        set_a0
          (record s {
            channels = set s.channels ch chan';
            memory = write_bytes s.memory ptr (take n_bytes (bytes msg));
          })
          frame (length (bytes msg)) in
      let (frame', k', goes, steady', served) =
        wake_and_preempt-Served n frame (send (ch % 256)) s₁ steady few in
      (
        frame',
        record s₁ { kernel = k' },
        chan',
        rw (caller, sys_receive, at_ch, may, fits, runs) goes,
        refl,
        refl,
        held',
        steady',
        served,
      )

  -- A message from a valid buffer goes behind the ones in the channel, and the caller gets 0.
  pub sys_send-delivers :
      (flash_image : ℕ × ℕ) (len : ℕ) (q : List Message)
      → Holds channel_capacity chan q
      → length q < channel_capacity
      → holds_endpoint task.sends_mask ch ≡ true
      → len ≤ msg_max
      → buffer_readable ptr len (readable_ranges flash_image task) ≡ true
      → (frame' : ℕ) × (s' : System) × (chan' : Channel Message) × (msg : Message) × (sys_send
            flash_image frame ch ptr len flags s
          ≡ ok (frame', s'))
        × (bytes msg ≡ read_bytes s.memory ptr len)
        × (s'.channels ≡ set s.channels ch chan')
        × Holds channel_capacity chan' (q ++ msg ∷ [])
        × (s'.memory ≡ s.memory)
        × (s'.frames ≡ (set_a0 s frame 0).frames)
        × Steady (n + 2) s'.kernel
        × Served s'.kernel
  unfolding sys_send send_checked channel set_a0 write_frame
  sys_send-delivers flash_image len q held room may short fits =
      let (msg, made, same, whole) =
        bytes-from_bytes (read_bytes s.memory ptr len)
          (omega (arith, length-read_bytes s.memory ptr len)) in
      let (chan', sends, held') = try_send-room channel_capacity chan q msg held room in
      let s₁ : System = set_a0 (record s { channels = set s.channels ch chan' }) frame 0 in
      let (frame', k', goes, steady', served) =
        wake_and_preempt-Served n frame (receive (ch % 256)) s₁ steady few in
      let in_size : ltb msg_max len ≡ false = ground arith in
      let open_slot = not_full q held room in
      (
        frame',
        record s₁ { kernel = k' },
        chan',
        msg,
        rw (caller, sys_send, at_ch, may, in_size, fits, open_slot, made, sends) goes,
        same,
        refl,
        held',
        refl,
        refl,
        steady',
        served,
      )
