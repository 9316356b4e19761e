-- ===== src/Syscall/Invariant.antt =====
-- What every system call keeps: a steady kernel, and channels that hold queues of messages.
use ferret_os.Common.{
  ℕ, ◌+◌, ◌<◌, ◌^◌, ◌≡◌, refl, sym, ◌∙◌, some, List, length, set, get_elem?-set, ◌==◌,
  if◌then◌else◌, Run, ok, halted, arith, inl, inr, ◌⊎◌, Bool-cases, Option-cases, dec_lt,
}
use ferret_os.Task.{BlockReason, send}
use ferret_os.Channel.{Channel, Channels, Message, channel_capacity, channel}
use ferret_os.Channel.Contents.{Holds}
use ferret_os.Scheduler.{Kernel, current_task, yield_current, sleep_current, frame_of}
use ferret_os.Scheduler.Calls.{Steady, yield_current-Served}
use ferret_os.Scheduler.Blocking.{block_current-Served, sleep_current-Served, blocking-halted}
use ferret_os.Scheduler.Waking.{Steady-age}
use ferret_os.Syscall.{
  System, set_a0, write_frame, buffer_readable, readable_ranges, on_kernel, on_kernel, nonblocking,
  block_and_restart, sys_log, may_log,
}
use ferret_os.Syscall.Wait.{rewound}

-- Each channel holds a queue of messages.
abbrev pub ChannelsHold : Channels → Type 0
ChannelsHold channels =
    (ch : ℕ) (chan : Channel Message)
    → channel channels ch ≡ some chan
    → (q : List Message) × Holds channel_capacity chan q

-- A steady kernel, and channels that hold queues.
pub record InOrder (n : ℕ) (s : System) : Type 0 where
  pub steady : Steady n s.kernel
  pub hold : ChannelsHold s.channels

-- The call ends in order, at most two inserts later. The kernel halts only if no task was waiting.
unfoldable pub Keeps : ℕ → ℕ → Run (ℕ × System) → Type 0
Keeps n waiting r =
    ((waiting ≡ 0) × (r ≡ halted))
    ⊎ ((frame' : ℕ) × (s' : System) × (r ≡ ok (frame', s')) × InOrder (n + 2) s')

two_later : (n : ℕ) (k : Kernel) → Steady n k → Steady (n + 2) k
two_later n k s =
    let two : n + 1 + 1 ≡ n + 2 = omega arith in rw two at (Steady-age (n + 1) k (Steady-age n k s))

pub set-ChannelsHold :
    (channels : Channels) (ch : ℕ) (chan' : Channel Message) (q : List Message)
    → ChannelsHold channels
    → ch < length channels
    → Holds channel_capacity chan' q
    → ChannelsHold (set channels ch chan')
unfolding channel
set-ChannelsHold channels ch chan' q hold lt held other chan at =
    let read = sym (get_elem?-set channels ch other chan' lt) ∙ at in
    elim (Bool-cases (ch == other)) [
      | inl same ↦ (
        q,
        let e : some chan' ≡ some chan = rw same at read in
            let e' : chan' ≡ chan = cc in rw e' at held,
      )
      | inr differ ↦ hold other chan (rw differ at read)
    ]

module _ (n frame : ℕ) (s : System) (order : InOrder n s) where
  pub ret-Keeps : (waiting value : ℕ) → Keeps n waiting (ok (frame, set_a0 s frame value))
  unfolding Keeps set_a0 write_frame
  ret-Keeps waiting value = inr (
    frame,
    set_a0 s frame value,
    refl,
    record { steady = two_later n s.kernel order.steady; hold = order.hold },
  )

  block_and_restart-Keeps :
      (reason : BlockReason)
      → Keeps n (length order.steady.waiters) (block_and_restart frame reason s)
  unfolding Keeps block_and_restart write_frame
  block_and_restart-Keeps reason = elim (dec_lt 0 (length order.steady.waiters)) [
    | yes some_wait ↦
        let (k', runs, steady', served, switched) =
          block_current-Served n s.kernel order.steady some_wait frame reason in
        inr (
          frame_of k' k'.current_task_idx,
          record (rewound s frame) { kernel = k' },
          rw runs refl,
          record { steady = two_later n k' steady'; hold = order.hold },
        )
    | no alone ↦
        let (stops, unused) =
          blocking-halted n frame 0 0 reason s.kernel order.steady (omega arith) in
        inl (omega arith, rw stops refl)
  ]

  pub waiting-Keeps :
      (flags value : ℕ) (reason : BlockReason)
      → Keeps n (length order.steady.waiters) (
          if nonblocking flags
          then ok (frame, set_a0 s frame value)
          else block_and_restart frame reason s)
  unfolding Keeps
  waiting-Keeps flags value reason = elim (Bool-cases (nonblocking flags)) [
    | inl now ↦ rw now (ret-Keeps (length order.steady.waiters) value)
    | inr wait ↦ rw wait (block_and_restart-Keeps reason)
  ]

  pub yield-Keeps :
      n < 2 ^ 31
      → Keeps n
          (length order.steady.waiters)
          (on_kernel (set_a0 s frame 0) (yield_current frame s.kernel))
  unfolding Keeps set_a0 write_frame
  yield-Keeps few =
      let (k', runs, steady', served) = yield_current-Served n frame s.kernel order.steady few in
      let two : n + 1 + 1 ≡ n + 2 = omega arith in
      inr (
        frame_of k' k'.current_task_idx,
        record (set_a0 s frame 0) { kernel = k' },
        rw runs refl,
        record { steady = rw two at (Steady-age (n + 1) k' steady'); hold = order.hold },
      )

  pub sleep-Keeps :
      (ticks : ℕ)
      → Keeps n
          (length order.steady.waiters)
          (on_kernel (set_a0 s frame 0) (sleep_current s.clock frame ticks s.kernel))
  unfolding Keeps set_a0 write_frame
  sleep-Keeps ticks = elim (dec_lt 0 (length order.steady.waiters)) [
    | yes some_wait ↦
        let (k', runs, steady', served, switched) =
          sleep_current-Served n s.kernel order.steady some_wait s.clock frame ticks in
        inr (
          frame_of k' k'.current_task_idx,
          record (set_a0 s frame 0) { kernel = k' },
          rw runs refl,
          record { steady = two_later n k' steady'; hold = order.hold },
        )
    | no alone ↦
        let (unused, stops) =
          blocking-halted n frame s.clock ticks (send 0) s.kernel order.steady (omega arith) in
        inl (omega arith, rw stops refl)
  ]

  pub sys_log-InOrder :
      (flash_image : ℕ × ℕ) (ptr len : ℕ) → InOrder n (sys_log flash_image ptr len s).1
  unfolding sys_log
  sys_log-InOrder flash_image ptr len = elim (Option-cases (current_task s.kernel)) [
    | inl idle ↦ rw (idle, sys_log) order
    | inr (task, caller) ↦ elim (Bool-cases (may_log task)) [
      | inr off ↦ rw (caller, sys_log, off) order
      | inl may ↦ elim (Bool-cases (buffer_readable ptr len (readable_ranges flash_image task))) [
        | inr hidden ↦ rw (caller, sys_log, may, hidden) order
        | inl fits ↦
            rw (caller, sys_log, may, fits) (record { steady = order.steady; hold = order.hold })
      ]
    ]
  ]
