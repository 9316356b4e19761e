-- ===== src/Sys/Reply.antt =====
-- What a wrapper returns when the kernel handles its `ecall`.
use ferret_os.Common.{
  ℕ, ◌+◌, ◌^◌, ◌<◌, ◌≡◌, refl, ap, ◌∙◌, [], ◌∷◌, ◌++◌, true, false, not, some, List, length, set,
  get_or, ltb, ◌==◌, if◌then◌else◌, ok, arith, Bool-cases, inl, inr, dec_lt,
}
use ferret_os.Context.{TrapFrame, reg_a0, reg_a1, reg_a2, reg_a3, reg_a7}
use ferret_os.Task.{TaskDescriptor}
use ferret_os.Channel.{
  bytes, Channel, Message, channel, channel_capacity, msg_max, is_full, capacity,
}
use ferret_os.Channel.Contents.{Holds}
use ferret_os.Scheduler.{current_task}
use ferret_os.Scheduler.Calls.{Steady}
use ferret_os.Syscall.{
  read_bytes, System, reg, set_a0, write_frame, ret, dispatch, sys_send, send_checked,
  holds_endpoint, buffer_readable, readable_ranges, eperm, einval, efault, eagain, flag_nonblock,
}
use ferret_os.Syscall.Deliver.{sys_send-delivers}
use ferret_os.Sys.{
  SysError, permission, fault, would_block, invalid, SysResult, done, failed, map_unit, decode,
  request, try_send,
}
use ferret_os.Sys.Ecall.{
  with_request, handled, reg-write_frame, reg-set_a0, handled-ok, written, request_regs,
}

-- What `try_send` is to return, when the channel holds `q`.
unfoldable pub try_send_reply :
    ℕ × ℕ → TaskDescriptor → ℕ → ℕ → ℕ → List Message → SysResult (Unit {0})
try_send_reply flash_image task ch ptr len q =
    if not (holds_endpoint task.sends_mask ch)
    then failed permission
    else (if ltb msg_max len
        then failed invalid
        else (if not (buffer_readable ptr len (readable_ranges flash_image task))
            then failed fault
            else (if length q == channel_capacity then failed would_block else done tt)))

-- What the call has done when it gives a reply: on success, the bytes of the buffer are the last message
-- in the channel; otherwise kernel, channels and memory are as before. Memory never changes.
pub data Replied (s s' : System) (ch ptr len : ℕ) (q : List Message)
    : SysResult (Unit {0}) → Type 0 where
  queued :
      (chan' : Channel Message) (msg : Message)
      → bytes msg ≡ read_bytes s.memory ptr len
      → s'.channels ≡ set s.channels ch chan'
      → Holds channel_capacity chan' (q ++ msg ∷ [])
      → s'.memory ≡ s.memory
      → Replied s s' ch ptr len q (done tt)
  refused :
      {e : SysError}
      → s'.kernel ≡ s.kernel
      → s'.channels ≡ s.channels
      → s'.memory ≡ s.memory
      → Replied s s' ch ptr len q (failed e)

set_a0-Replied :
    (s : System) (frame value ch ptr len : ℕ) (q : List Message) (e : SysError)
    → Replied s (set_a0 s frame value) ch ptr len q (failed e)
unfolding set_a0 write_frame
set_a0-Replied s frame value ch ptr len q e = refused refl refl refl

Replied-moved :
    (s s' : System) (frame ch ptr len : ℕ) (q : List Message) (f : TrapFrame)
    {reply : SysResult (Unit {0})}
    → Replied (write_frame s frame f) s' ch ptr len q reply
    → Replied s s' ch ptr len q reply
unfolding write_frame
Replied-moved s s' frame ch ptr len q f (queued chan' msg same now_in held kept) =
    queued chan' msg same now_in held kept
Replied-moved s s' frame ch ptr len q f (refused kernel channels memory) =
    refused kernel channels memory

module _ (flash_image : ℕ × ℕ) (n frame ch ptr len : ℕ) (task : TaskDescriptor)
    (chan : Channel Message) (q : List Message) where
  -- The kernel's answer to a send that must not block decodes to the reply.
  sys_send-reply :
      (s : System)
      → Steady n s.kernel
      → n + 1 < 2 ^ 31
      → current_task s.kernel ≡ some task
      → channel s.channels ch ≡ some chan
      → Holds channel_capacity chan q
      → 10 < length (s.frames frame).regs
      → (frame' : ℕ) × (s' : System) × (sys_send flash_image frame ch ptr len flag_nonblock s
          ≡ ok (frame', s'))
        × (map_unit (decode (reg s' frame reg_a0)) ≡ try_send_reply flash_image task ch ptr len q)
        × Replied s s' ch ptr len q (try_send_reply flash_image task ch ptr len q)
  unfolding sys_send send_checked is_full capacity ret try_send_reply decode map_unit
  sys_send-reply s steady few caller at_ch held size =
      elim (Bool-cases (holds_endpoint task.sends_mask ch)) [
        | inr off ↦ (
          frame,
          set_a0 s frame eperm,
          rw (caller, sys_send, at_ch, off) refl,
          rw (off, reg-set_a0 s frame eperm size) refl,
          rw (off) (set_a0-Replied s frame eperm ch ptr len q permission),
        )
        | inl may ↦ elim (Bool-cases (ltb msg_max len)) [
          | inl long ↦ (
            frame,
            set_a0 s frame einval,
            rw (caller, sys_send, at_ch, may, long) refl,
            rw (may, long, reg-set_a0 s frame einval size) refl,
            rw (may, long) (set_a0-Replied s frame einval ch ptr len q invalid),
          )
          | inr short ↦
              elim (Bool-cases (buffer_readable ptr len (readable_ranges flash_image task))) [
                | inr hidden ↦ (
                  frame,
                  set_a0 s frame efault,
                  rw (caller, sys_send, at_ch, may, short, hidden) refl,
                  rw (may, short, hidden, reg-set_a0 s frame efault size) refl,
                  rw (may, short, hidden) (set_a0-Replied s frame efault ch ptr len q fault),
                )
                | inl fits ↦ elim (dec_lt (length q) channel_capacity) [
                  | yes room ↦
                      let (
                        frame', s', chan', msg, runs, same, now_in, held', kept, replied, steady',
                        served,
                      ) =
                        sys_send-delivers n frame ch ptr flag_nonblock task chan s steady few caller
                          at_ch flash_image len q held room may (ground arith) fits in
                      let not_full : (length q == channel_capacity) ≡ false = ground arith in
                      let zero_back : reg s' frame reg_a0 ≡ 0 =
                        ap (λ (frames : ℕ → TrapFrame). get_or (frames frame).regs reg_a0 0) replied
                        ∙ reg-set_a0 s frame 0 size in
                      (
                        frame',
                        s',
                        runs,
                        rw (may, short, fits, not_full, zero_back) refl,
                        rw (may, short, fits, not_full) (queued chan' msg same now_in held' kept),
                      )
                  | no no_room ↦
                      let fits_q = held.fits in
                      let count = held.count in
                      let in_buffer = held.size in
                      let full : (chan.len == length chan.buffer) ≡ true = ground arith in
                      let full_q : (length q == channel_capacity) ≡ true = ground arith in
                      (
                        frame,
                        set_a0 s frame eagain,
                        rw (caller, sys_send, at_ch, may, short, fits, full) refl,
                        rw (may, short, fits, full_q, reg-set_a0 s frame eagain size) refl,
                        rw (may, short, fits, full_q)
                            (set_a0-Replied s frame eagain ch ptr len q would_block),
                      )
                ]
              ]
        ]
      ]

  dispatch-send :
      (s : System)
      → reg s frame reg_a7 ≡ 4
      → reg s frame reg_a0 ≡ ch
      → reg s frame reg_a1 ≡ ptr
      → reg s frame reg_a2 ≡ len
      → reg s frame reg_a3 ≡ flag_nonblock
      → dispatch flash_image frame s ≡ sys_send flash_image frame ch ptr len flag_nonblock s
  unfolding dispatch
  dispatch-send s x7 x0 x1 x2 x3 = rw (x7, x0, x1, x2, x3) refl

  -- For the running task of a steady kernel, a channel that holds a queue and a frame of 32 registers,
  -- `try_send` comes back without a halt or a panic. It returns `Permission` without the sending end, else
  -- `Invalid` beyond 16 bytes, else `Fault` from memory that is not readable, else `WouldBlock` if the
  -- channel is full, and then channels, memory and kernel are unchanged; else it returns success, and the
  -- bytes are the last message in the channel.
  pub try_send-handled :
      (s : System)
      → Steady n s.kernel
      → n + 1 < 2 ^ 31
      → current_task s.kernel ≡ some task
      → channel s.channels ch ≡ some chan
      → Holds channel_capacity chan q
      → length (s.frames frame).regs ≡ 32
      → (s' : System) × (try_send (handled flash_image frame) ch ptr len s
          ≡ ok (try_send_reply flash_image task ch ptr len q, s'))
        × Replied s s' ch ptr len q (try_send_reply flash_image task ch ptr len q)
  unfolding try_send write_frame
  try_send-handled s steady few caller at_ch held size =
      let f = s.frames frame in
      let r = request 4 ch ptr len flag_nonblock in
      let s₀ = write_frame s frame (with_request r f) in
      let (x0, x1, x2, x3, x7, long) = request_regs r f size in
      let at = λ (i : ℕ). reg-write_frame s frame i (with_request r f) in
      let here = ap (λ (g : TrapFrame). length g.regs) (written s frame (with_request r f)) in
      let (frame', s', runs, reply, effect) =
        sys_send-reply s₀ steady few caller at_ch held (omega (arith, here, long)) in
      let calls : dispatch flash_image frame s₀ ≡ ok (frame', s') =
        dispatch-send s₀ (at reg_a7 ∙ x7) (at reg_a0 ∙ x0) (at reg_a1 ∙ x1) (at reg_a2 ∙ x2)
          (at reg_a3 ∙ x3)
        ∙ runs in
      let same = handled-ok flash_image frame r s frame' s' calls in
      (
        s',
        rw same (ap (λ (x : SysResult (Unit {0})). ok (x, s')) reply),
        Replied-moved s s' frame ch ptr len q (with_request r f) effect,
      )
