-- ===== src/Syscall/Dispatch.antt =====
-- kernel/src/syscall.rs, `dispatch`: every system call, whatever the registers hold.
use ferret_os.Common.{
  ℕ, ◌+◌, ◌%◌, ◌≤◌, ◌<◌, ◌^◌, min, ◌≡◌, true, false, ◌&&◌, some, List, [], ◌∷◌, ◌++◌, length, ltb,
  leb, lt_of_get_elem?, ◌==◌, arith, inl, inr, Bool-cases, Option-cases, dec_lt,
}
use ferret_os.Context.{reg_a0, reg_a1, reg_a2, reg_a3, reg_a7}
use ferret_os.Task.{TaskDescriptor, send, receive}
use ferret_os.Channel.{Channel, Message, msg_max, channel_capacity, is_full, capacity, channel}
use ferret_os.Channel.Contents.{Holds, try_receive-empty}
use ferret_os.Scheduler.{current_task}
use ferret_os.Syscall.{
  System, set_a0, write_frame, send_checked, sys_send, receive_checked, sys_receive, holds_endpoint,
  buffer_readable, readable_ranges, writable_ranges, ret, enosys, reg, eperm, einval, eagain,
  enosys, reg, dispatch, sys_log, log_max_len,
}
use ferret_os.Syscall.Deliver.{sys_send-delivers, sys_receive-delivers}
use ferret_os.Syscall.Refused.{sys_send-refused, sys_receive-refused}
use ferret_os.Syscall.Invariant.{
  InOrder, Keeps, set-ChannelsHold, ret-Keeps, waiting-Keeps, yield-Keeps, sleep-Keeps,
  sys_log-InOrder,
}

module _ (n frame : ℕ) (s : System) (order : InOrder n s) (few : n + 1 < 2 ^ 31) where
  sys_send-Keeps :
      (flash_image : ℕ × ℕ) (ch ptr len flags : ℕ)
      → Keeps n (length order.steady.waiters) (sys_send flash_image frame ch ptr len flags s)
  unfolding Keeps ret sys_send send_checked is_full capacity channel
  sys_send-Keeps flash_image ch ptr len flags = elim (Option-cases (current_task s.kernel)) [
    | inl idle ↦ rw (idle, sys_send) (ret-Keeps n frame s order (length order.steady.waiters) eperm)
    | inr (task, caller) ↦ elim (Option-cases (channel s.channels ch)) [
      | inl missing ↦
          rw (caller, sys_send, missing)
            (ret-Keeps n frame s order (length order.steady.waiters) einval)
      | inr (chan, at_ch) ↦ allowed task chan caller at_ch
    ]
  ]
    where
      ready :
          (task : TaskDescriptor) (chan : Channel Message)
          → current_task s.kernel ≡ some task
          → channel s.channels ch ≡ some chan
          → holds_endpoint task.sends_mask ch ≡ true
          → len ≤ msg_max
          → buffer_readable ptr len (readable_ranges flash_image task) ≡ true
          → Keeps n (length order.steady.waiters) (sys_send flash_image frame ch ptr len flags s)
      ready task chan caller at_ch may short fits =
          let (q, held) = order.hold ch chan at_ch in
          elim (dec_lt (length q) channel_capacity) [
            | yes room ↦
                let (
                  frame', s', chan', msg, runs, same, now_in, held', kept, replied, steady', served,
                ) =
                  sys_send-delivers n frame ch ptr flags task chan s order.steady few caller at_ch
                    flash_image len q held room may short fits in
                inr (
                  frame',
                  s',
                  runs,
                  record {
                    steady = steady';
                    hold = rw now_in (
                        set-ChannelsHold s.channels ch chan' (q ++ msg ∷ []) order.hold
                          (lt_of_get_elem? s.channels ch at_ch) held');
                  },
                )
            | no no_room ↦
                let count = held.count in
                let size = held.size in
                let limit = held.fits in
                let in_size : ltb msg_max len ≡ false = ground arith in
                let full : (chan.len == length chan.buffer) ≡ true = ground arith in
                rw (caller, sys_send, at_ch, may, in_size, fits, full)
                  (waiting-Keeps n frame s order flags eagain (send (ch % 256)))
          ]

      allowed :
          (task : TaskDescriptor) (chan : Channel Message)
          → current_task s.kernel ≡ some task
          → channel s.channels ch ≡ some chan
          → Keeps n (length order.steady.waiters) (sys_send flash_image frame ch ptr len flags s)
      allowed task chan caller at_ch =
          elim (Bool-cases (
            holds_endpoint task.sends_mask ch
            && (leb len msg_max && buffer_readable ptr len (readable_ranges flash_image task)))) [
              | inl good ↦ ready task chan caller at_ch (ground arith) (ground arith) (ground arith)
              | inr bad ↦
                  let (code, runs, error) =
                    sys_send-refused frame ch ptr flags task chan s caller at_ch flash_image len
                      bad in
                  rw runs (ret-Keeps n frame s order (length order.steady.waiters) code)
            ]

  sys_receive-Keeps :
      (ch ptr size flags : ℕ)
      → Keeps n (length order.steady.waiters) (sys_receive frame ch ptr size flags s)
  unfolding Keeps ret sys_receive receive_checked channel
  sys_receive-Keeps ch ptr size flags = elim (Option-cases (current_task s.kernel)) [
    | inl idle ↦
        rw (idle, sys_receive) (ret-Keeps n frame s order (length order.steady.waiters) eperm)
    | inr (task, caller) ↦ elim (Option-cases (channel s.channels ch)) [
      | inl missing ↦
          rw (caller, sys_receive, missing)
            (ret-Keeps n frame s order (length order.steady.waiters) einval)
      | inr (chan, at_ch) ↦ allowed task chan caller at_ch
    ]
  ]
    where
      ready :
          (task : TaskDescriptor) (chan : Channel Message) (q : List Message)
          → current_task s.kernel ≡ some task
          → channel s.channels ch ≡ some chan
          → Holds channel_capacity chan q
          → holds_endpoint task.receives_mask ch ≡ true
          → buffer_readable ptr size (writable_ranges task) ≡ true
          → Keeps n (length order.steady.waiters) (sys_receive frame ch ptr size flags s)
      ready task chan [] caller at_ch held may fits =
          let stop = try_receive-empty channel_capacity chan held in
          rw (caller, sys_receive, at_ch, may, fits, stop)
            (waiting-Keeps n frame s order flags eagain (receive (ch % 256)))
      ready task chan (msg ∷ q) caller at_ch held may fits =
          let (frame', s', chan', runs, copied, now_in, held', steady', served) =
            sys_receive-delivers n frame ch ptr flags task chan s order.steady few caller at_ch size
              msg q held may fits in
          inr (
            frame',
            s',
            runs,
            record {
              steady = steady';
              hold = rw now_in (
                  set-ChannelsHold s.channels ch chan' q order.hold
                    (lt_of_get_elem? s.channels ch at_ch) held');
            },
          )

      allowed :
          (task : TaskDescriptor) (chan : Channel Message)
          → current_task s.kernel ≡ some task
          → channel s.channels ch ≡ some chan
          → Keeps n (length order.steady.waiters) (sys_receive frame ch ptr size flags s)
      allowed task chan caller at_ch =
          elim (Bool-cases (
            holds_endpoint task.receives_mask ch
            && buffer_readable ptr size (writable_ranges task))) [
              | inl good ↦
                  let (q, held) = order.hold ch chan at_ch in
                  ready task chan q caller at_ch held (ground arith) (ground arith)
              | inr bad ↦
                  let (code, runs, error) =
                    sys_receive-refused frame ch ptr flags task chan s caller at_ch size bad in
                  rw runs (ret-Keeps n frame s order (length order.steady.waiters) code)
            ]

-- From a system in order, with fewer than 2^31 - 1 inserts made, a system call with any contents of the
-- registers does not panic: it ends with a steady kernel and channels that hold queues. The kernel halts
-- only if no task is ready.
pub dispatch-Keeps :
    (flash_image : ℕ × ℕ) (n frame : ℕ) (s : System)
    → (order : InOrder n s) → n + 1 < 2 ^ 31
    → Keeps n (length order.steady.waiters) (dispatch flash_image frame s)
unfolding dispatch ret set_a0 write_frame
dispatch-Keeps flash_image n frame s order few =
    let f = s.frames frame in
    let a0 = reg s frame reg_a0 in
    let a1 = reg s frame reg_a1 in
    let call = reg s frame reg_a7 in
    let logged_s = sys_log flash_image a0 (min a1 log_max_len) s in
    elim (Bool-cases (call == 0)) [
      | inl c0 ↦ rw c0 (yield-Keeps n frame s order (omega arith))
      | inr o0 ↦ elim (Bool-cases (call == 1)) [
        | inl c1 ↦ rw (o0, c1) (sleep-Keeps n frame s order a0)
        | inr o1 ↦ elim (Bool-cases (call == 2)) [
          | inl c2 ↦
              rw (o0, o1, c2)
                (ret-Keeps n frame logged_s.1
                  (sys_log-InOrder n frame s order flash_image a0 (min a1 log_max_len))
                  (length order.steady.waiters) logged_s.0)
          | inr o2 ↦ elim (Bool-cases (call == 3)) [
            | inl c3 ↦
                rw (o0, o1, o2, c3)
                  (ret-Keeps n frame s order (length order.steady.waiters) s.clock)
            | inr o3 ↦ elim (Bool-cases (call == 4)) [
              | inl c4 ↦
                  rw (o0, o1, o2, o3, c4)
                    (sys_send-Keeps n frame s order few flash_image a0 a1 (reg s frame reg_a2)
                      (reg s frame reg_a3))
              | inr o4 ↦ elim (Bool-cases (call == 5)) [
                | inl c5 ↦
                    rw (o0, o1, o2, o3, o4, c5)
                      (sys_receive-Keeps n frame s order few a0 a1 (reg s frame reg_a2)
                        (reg s frame reg_a3))
                | inr o5 ↦
                    rw (o0, o1, o2, o3, o4, o5)
                      (ret-Keeps n frame s order (length order.steady.waiters) enosys)
              ]
            ]
          ]
        ]
      ]
    ]
