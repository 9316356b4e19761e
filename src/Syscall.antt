-- ===== src/Syscall.antt =====
-- kernel/src/syscall.rs: the system calls, on the scheduler, the channels and the memory of the tasks.
-- A frame or a buffer is read and written at its address. The linker's bounds of the flash image are a
-- parameter, and so is the console, which is the list of the bytes sent to it.
pub mod Buffers
pub mod Deliver
pub mod Refused
pub mod Wait
pub mod Invariant
pub mod Dispatch
pub mod Homes
mod Tests
use Prim.Native.Nat.{bit_and}
use ferret_os.Common.{
  ℕ, zero, suc, ◌+◌, ◌-◌, ◌%◌, ◌^◌, min, Bool, true, false, not, ◌&&◌, ◌||◌, Option, none, some,
  List, [], ◌∷◌, ◌++◌, length, get_or, set, take, ltb, leb, ◌==◌, if◌then◌else◌, Run, ok, panic,
  ◌>>=◌, wrapping_add, wrapping_sub, u32_mod,
}
use ferret_os.Context.{TrapFrame, reg_a0, reg_a1, reg_a2, reg_a3, reg_a7}
use ferret_os.Task.{TaskDescriptor, BlockReason, send, receive, has_bit}
use ferret_os.Channel.{
  Channel, Channels, Message, from_bytes, bytes, msg_max, try_send, try_receive, is_full, channel,
}
use ferret_os.Scheduler.{
  Kernel, current_task, yield_current, sleep_current, block_current, wake_blocked_on,
  preempt_if_outranked,
}

abbrev pub enosys : ℕ
enosys = u32_mod - 1

abbrev pub eperm : ℕ
eperm = u32_mod - 2

abbrev pub efault : ℕ
efault = u32_mod - 3

abbrev pub eagain : ℕ
eagain = u32_mod - 4

abbrev pub einval : ℕ
einval = u32_mod - 5

abbrev pub log_max_len : ℕ
log_max_len = 256

abbrev pub flag_nonblock : ℕ
flag_nonblock = 1

abbrev pub console_peripheral_id : ℕ
console_peripheral_id = 31

-- What the system calls read and write.
pub record System : Type 0 where
  pub kernel : Kernel
  pub channels : Channels
  pub frames : ℕ → TrapFrame
  pub memory : ℕ → ℕ
  pub console : List ℕ
  pub clock : ℕ

abbrev pub Ranges : Type 0
Ranges = List (ℕ × ℕ)

unfoldable pub any_contains : ℕ → ℕ → Ranges → Bool
any_contains ptr end [] = false
any_contains ptr end ((start, stop) ∷ ranges) =
    leb start ptr && leb end stop || any_contains ptr end ranges

-- `ptr.checked_add(len)` fails if the sum does not fit a 32-bit word.
unfoldable pub buffer_readable : ℕ → ℕ → Ranges → Bool
buffer_readable ptr len ranges =
    if len == 0
    then true
    else (if ltb (ptr + len) u32_mod then any_contains ptr (ptr + len) ranges else false)

unfoldable pub may_log : TaskDescriptor → Bool
may_log task = has_bit task.shared_cap_mask console_peripheral_id

unfoldable pub writable_ranges : TaskDescriptor → Ranges
writable_ranges task =
    (task.memory_start, task.memory_end)
    ∷ (task.stack_base, wrapping_add task.stack_base task.stack_size)
    ∷ []

unfoldable pub readable_ranges : ℕ × ℕ → TaskDescriptor → Ranges
readable_ranges flash_image task =
    (task.memory_start, task.memory_end)
    ∷ (task.stack_base, wrapping_add task.stack_base task.stack_size)
    ∷ flash_image
    ∷ []

unfoldable pub holds_endpoint : ℕ → ℕ → Bool
holds_endpoint mask ch = ltb ch 32 && has_bit mask ch

-- `slice::from_raw_parts(ptr, len)`
unfoldable pub read_bytes : (ℕ → ℕ) → ℕ → ℕ → List ℕ
read_bytes memory ptr zero = []
read_bytes memory ptr (suc len) = memory ptr ∷ read_bytes memory (ptr + 1) len

unfoldable pub write_byte : (ℕ → ℕ) → ℕ → ℕ → ℕ → ℕ
write_byte memory ptr b a = if a == ptr then b else memory a

-- `copy_nonoverlapping(data, ptr, data.len())`
unfoldable pub write_bytes : (ℕ → ℕ) → ℕ → List ℕ → ℕ → ℕ
write_bytes memory ptr [] = memory
write_bytes memory ptr (b ∷ data_left) = write_bytes (write_byte memory ptr b) (ptr + 1) data_left

unfoldable pub write_frame : System → ℕ → TrapFrame → System
write_frame s frame f = record s { frames = λ a. if a == frame then f else s.frames a }

abbrev pub reg : System → ℕ → ℕ → ℕ
reg s frame i = get_or (s.frames frame).regs i 0

-- `(*frame).regs[REG_A0] = value`
unfoldable pub set_a0 : System → ℕ → ℕ → System
set_a0 s frame value =
    let f = s.frames frame in write_frame s frame (record f { regs = set f.regs reg_a0 value })

unfoldable pub ret : ℕ → ℕ → System → Run (ℕ × System)
ret frame value s = ok (frame, set_a0 s frame value)

-- A call of the scheduler.
abbrev pub on_kernel : System → Run (ℕ × Kernel) → Run (ℕ × System)
on_kernel s r = r >>= λ (frame, k). ok (frame, record s { kernel = k })

unfoldable pub block_and_restart : ℕ → BlockReason → System → Run (ℕ × System)
block_and_restart frame reason s =
    let f = s.frames frame in
    let s' = write_frame s frame (record f { mepc = wrapping_sub f.mepc 4 }) in
    on_kernel s' (block_current frame reason s'.kernel)

-- `wake_blocked_on(reason); preempt_if_outranked(frame)`
unfoldable pub wake_and_preempt : ℕ → BlockReason → System → Run (ℕ × System)
wake_and_preempt frame reason s = do
  (woken, k) ← wake_blocked_on reason s.kernel
  on_kernel s (preempt_if_outranked frame k)

abbrev pub nonblocking : ℕ → Bool
nonblocking flags = not (bit_and flags flag_nonblock == 0)

-- The last part of `sys_send`, on a channel that the caller may send to, with a valid buffer.
unfoldable pub send_checked : ℕ → ℕ → ℕ → ℕ → ℕ → Channel Message → System → Run (ℕ × System)
send_checked frame ch ptr len flags chan s =
    let wait =
      if nonblocking flags
      then ret frame eagain s
      else block_and_restart frame (send (ch % 256)) s in
    let deliver : Run (ℕ × System) = elim (from_bytes (read_bytes s.memory ptr len)) [
      | none ↦ panic
      | some msg ↦
          let (sent, chan') = try_send chan msg in
          let s₁ = set_a0 (record s { channels = set s.channels ch chan' }) frame 0 in
          wake_and_preempt frame (receive (ch % 256)) s₁
    ] in
    if is_full chan then wait else deliver

unfoldable pub sys_send : ℕ × ℕ → ℕ → ℕ → ℕ → ℕ → ℕ → System → Run (ℕ × System)
sys_send flash_image frame ch ptr len flags s = elim (current_task s.kernel) [
  | none ↦ ret frame eperm s
  | some task ↦ elim (channel s.channels ch) [
    | none ↦ ret frame einval s
    | some chan ↦
        if not (holds_endpoint task.sends_mask ch)
        then ret frame eperm s
        else (if ltb msg_max len
            then ret frame einval s
            else (if not (buffer_readable ptr len (readable_ranges flash_image task))
                then ret frame efault s
                else send_checked frame ch ptr len flags chan s))
  ]
]

-- The last part of `sys_receive`, with what `try_receive` returned.
unfoldable pub receive_checked :
    ℕ → ℕ → ℕ → ℕ → ℕ → Option Message × Channel Message → System → Run (ℕ × System)
receive_checked frame ch ptr cap flags (none, chan) s =
    if nonblocking flags then ret frame eagain s else block_and_restart frame (receive (ch % 256)) s
receive_checked frame ch ptr cap flags (some msg, chan) s =
    let n = min (length (bytes msg)) cap in
    let s₁ = record s {
      channels = set s.channels ch chan;
      memory = write_bytes s.memory ptr (take n (bytes msg));
    } in
    wake_and_preempt frame (send (ch % 256)) (set_a0 s₁ frame (length (bytes msg)))

unfoldable pub sys_receive : ℕ → ℕ → ℕ → ℕ → ℕ → System → Run (ℕ × System)
sys_receive frame ch ptr cap flags s = elim (current_task s.kernel) [
  | none ↦ ret frame eperm s
  | some task ↦ elim (channel s.channels ch) [
    | none ↦ ret frame einval s
    | some chan ↦
        if not (holds_endpoint task.receives_mask ch)
        then ret frame eperm s
        else (if not (buffer_readable ptr cap (writable_ranges task))
            then ret frame efault s
            else (try_receive chan >>= λ r. receive_checked frame ch ptr cap flags r s))
  ]
]

unfoldable pub sys_log : ℕ × ℕ → ℕ → ℕ → System → ℕ × System
sys_log flash_image ptr len s = elim (current_task s.kernel) [
  | none ↦ (eperm, s)
  | some task ↦
      if not (may_log task)
      then (eperm, s)
      else (if not (buffer_readable ptr len (readable_ranges flash_image task))
          then (efault, s)
          else (len, record s { console = s.console ++ read_bytes s.memory ptr len }))
]

abbrev pub logged : ℕ → ℕ × System → Run (ℕ × System)
logged frame (value, s) = ret frame value s

-- The numbers are `SYS_YIELD` to `SYS_RECEIVE`.
unfoldable pub dispatch : ℕ × ℕ → ℕ → System → Run (ℕ × System)
dispatch flash_image frame s =
    let a0 = reg s frame reg_a0 in
    let a1 = reg s frame reg_a1 in
    let a2 = reg s frame reg_a2 in
    let a3 = reg s frame reg_a3 in
    let call = reg s frame reg_a7 in
    let s₀ = set_a0 s frame 0 in
    if call == 0
    then on_kernel s₀ (yield_current frame s₀.kernel)
    else (if call == 1
        then on_kernel s₀ (sleep_current s₀.clock frame a0 s₀.kernel)
        else (if call == 2
            then logged frame (sys_log flash_image a0 (min a1 log_max_len) s)
            else (if call == 3
                then ret frame s.clock s
                else (if call == 4
                    then sys_send flash_image frame a0 a1 a2 a3 s
                    else (if call == 5
                        then sys_receive frame a0 a1 a2 a3 s
                        else ret frame enosys s)))))
