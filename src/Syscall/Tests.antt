-- ===== src/Syscall/Tests.antt =====
-- System calls of the running task of the demonstration kernel, as witnesses.
use ferret_os.Common.{
  ℕ, zero, suc, ◌+◌, ◌<◌, ◌≤◌, ◌≡◌, refl, ap, true, false, none, some, [], ◌∷◌, length, replicate,
  get_elem?, take, min, arith, ok, ◌⊎◌, u32_mod,
}
use ferret_os.Context.{TrapFrame}
use ferret_os.Task.{TaskDescriptor, send, receive, running, has_bit}
use ferret_os.Channel.{Channel, Channels, Message, bytes, channel, new, channel_capacity}
use ferret_os.Channel.Contents.{Holds, new-Holds, cell}
use ferret_os.Ccg.Populated.{slot}
use ferret_os.Scheduler.{current_task, task_ptr}
use ferret_os.Scheduler.Dispatch.{Served}
use ferret_os.Scheduler.Switched.{waiting_for, Switched}
use ferret_os.Scheduler.Calls.{Steady}
use ferret_os.Scheduler.Demo.{task, demo, demo-Steady}
use ferret_os.Syscall.{
  System, Ranges, any_contains, buffer_readable, read_bytes, write_bytes, sys_send, sys_receive,
  holds_endpoint, writable_ranges, readable_ranges, set_a0,
}
use ferret_os.Syscall.Buffers.{buffer_readable-exact}
use ferret_os.Syscall.Deliver.{sys_receive-delivers, sys_send-delivers}
use ferret_os.Common.{set, List, ◌++◌}
use ferret_os.Syscall.{dispatch}
use ferret_os.Syscall.Invariant.{InOrder, Keeps}
use ferret_os.Syscall.Dispatch.{dispatch-Keeps}
use ferret_os.Syscall.Wait.{rewound, sys_send-full, sys_receive-empty}
use ferret_os.Syscall.{nonblocking, eagain}
use ferret_os.Scheduler.{Kernel, frame_of}
use ferret_os.Scheduler.Demo.{some_wait}

abbrev ram : Ranges
ram = (4096, 8192) ∷ []

buffer_readable-exact_example :
    ((buffer_readable 4100 16 ram ≡ true)
      × (4100 + 16 < u32_mod)
      × (i start stop : ℕ) × (get_elem? ram i ≡ some (start, stop))
      × (start ≤ 4100)
      × (4100 + 16 ≤ stop))
    ⊎ ((buffer_readable 4100 16 ram ≡ false)
        × ((u32_mod ≤ 4100 + 16)
            ⊎ ((i start stop : ℕ)
                → get_elem? ram i ≡ some (start, stop)
                → start ≤ 4100
                → stop < 4100 + 16)))
buffer_readable-exact_example = buffer_readable-exact 4100 16 ram (omega arith)

abbrev caller : TaskDescriptor
caller = record (task 0 1) { state = running }

abbrev hello : Message
hello = record { len = 2; array = 104 ∷ 105 ∷ replicate 14 0 }

abbrev waiting_message : Channel Message
waiting_message = record { buffer = some hello ∷ replicate 7 none; head = 0; len = 1 }

abbrev channels : Channels
channels = new channel_capacity ∷ new channel_capacity ∷ waiting_message ∷ []

abbrev trap : TrapFrame
trap = record { regs = replicate 32 0; mepc = 64; mstatus = 0; mcause = 8; mtval = 0 }

abbrev system : System
system = record {
  kernel = demo;
  channels = channels;
  frames = λ a. trap;
  memory = λ a. 7;
  console = [];
  clock = 0;
}

waiting-Holds : Holds channel_capacity waiting_message (hello ∷ [])
waiting-Holds = record {
  size = refl;
  small = omega arith;
  head_lt = omega arith;
  count = refl;
  fits = omega arith;
  cells = λ i a h. at_head i a h;
}
  where
    at_head :
        (i : ℕ) (a : Message)
        → get_elem? (hello ∷ []) i ≡ some a
        → get_elem? waiting_message.buffer (cell channel_capacity 0 i) ≡ some (some a)
    at_head zero a h = ap some h
    at_head (suc i) a h = cc

caller_runs : current_task demo ≡ some caller
unfolding current_task task_ptr slot
caller_runs = refl

channel_2 : channel channels 2 ≡ some waiting_message
unfolding channel new
channel_2 = refl

channel_1 : channel channels 1 ≡ some (new channel_capacity)
unfolding channel
channel_1 = refl

may_receive : holds_endpoint caller.receives_mask 2 ≡ true
unfolding holds_endpoint has_bit
may_receive = refl

may_send : holds_endpoint caller.sends_mask 1 ≡ true
unfolding holds_endpoint has_bit
may_send = refl

abbrev no_flash : ℕ × ℕ
no_flash = (0, 0)

into_ram : buffer_readable 4100 16 (writable_ranges caller) ≡ true
unfolding buffer_readable any_contains writable_ranges
into_ram = refl

from_ram : buffer_readable 4100 3 (readable_ranges no_flash caller) ≡ true
unfolding buffer_readable any_contains readable_ranges
from_ram = refl

sys_receive-delivers_example :
    (frame' : ℕ) × (s' : System) × (chan' : Channel Message) × (sys_receive 40 2 4100 16 0 system
      ≡ ok (frame', s'))
    × (s'.memory
        ≡ write_bytes system.memory 4100 (take (min (length (bytes hello)) 16) (bytes hello)))
    × (s'.channels ≡ set channels 2 chan')
    × Holds channel_capacity chan' []
    × Steady 3 s'.kernel
    × Served s'.kernel
sys_receive-delivers_example =
    sys_receive-delivers 1 40 2 4100 0 caller waiting_message system demo-Steady (omega arith)
      caller_runs channel_2 16 hello [] waiting-Holds may_receive into_ram

sys_send-delivers_example :
    (frame' : ℕ) × (s' : System) × (chan' : Channel Message) × (msg : Message) × (sys_send no_flash
        40 1 4100 3 0 system
      ≡ ok (frame', s'))
    × (bytes msg ≡ read_bytes system.memory 4100 3)
    × (s'.channels ≡ set channels 1 chan')
    × Holds channel_capacity chan' (msg ∷ [])
    × (s'.memory ≡ system.memory)
    × (s'.frames ≡ (set_a0 system 40 0).frames)
    × Steady 3 s'.kernel
    × Served s'.kernel
sys_send-delivers_example =
    sys_send-delivers 1 40 1 4100 0 caller (new channel_capacity) system demo-Steady (omega arith)
      caller_runs channel_1 no_flash 3 [] (new-Holds channel_capacity (omega arith) (omega arith))
      (omega arith) may_send (omega arith) from_ram

abbrev full_channel : Channel Message
full_channel = record { buffer = replicate 8 (some hello); head = 0; len = 8 }

abbrev blocked_system : System
blocked_system = record system {
  channels = new channel_capacity ∷ full_channel ∷ new channel_capacity ∷ [];
}

full-Holds : Holds channel_capacity full_channel (replicate 8 hello)
full-Holds = record {
  size = refl;
  small = omega arith;
  head_lt = omega arith;
  count = refl;
  fits = omega arith;
  cells = λ i a h. all_hello i a h;
}
  where
    all_hello :
        (i : ℕ) (a : Message)
        → get_elem? (replicate 8 hello) i ≡ some a
        → get_elem? full_channel.buffer (cell channel_capacity 0 i) ≡ some (some a)
    all_hello zero a h = ap some h
    all_hello (suc zero) a h = ap some h
    all_hello (suc (suc zero)) a h = ap some h
    all_hello (suc (suc (suc zero))) a h = ap some h
    all_hello (suc (suc (suc (suc zero)))) a h = ap some h
    all_hello (suc (suc (suc (suc (suc zero))))) a h = ap some h
    all_hello (suc (suc (suc (suc (suc (suc zero)))))) a h = ap some h
    all_hello (suc (suc (suc (suc (suc (suc (suc zero))))))) a h = ap some h
    all_hello (suc (suc (suc (suc (suc (suc (suc (suc i)))))))) a h = cc

full_at_1 : channel blocked_system.channels 1 ≡ some full_channel
unfolding channel
full_at_1 = refl

empty_at_2 : channel blocked_system.channels 2 ≡ some (new channel_capacity)
unfolding channel
empty_at_2 = refl

sys_send-full_example :
    ((nonblocking 0 ≡ true)
      × (sys_send no_flash 40 1 4100 3 0 blocked_system ≡ ok (40, set_a0 blocked_system 40 eagain)))
    ⊎ ((nonblocking 0 ≡ false)
        × (k' : Kernel) × (sys_send no_flash 40 1 4100 3 0 blocked_system
            ≡ ok (
              frame_of k' k'.current_task_idx,
              record (rewound blocked_system 40) { kernel = k' },
            ))
        × Steady 1 k'
        × Served k'
        × Switched (waiting_for 40 (send 1)) blocked_system.kernel k')
sys_send-full_example =
    sys_send-full 1 40 1 4100 0 caller full_channel blocked_system demo-Steady some_wait caller_runs
      full_at_1 no_flash 3 (replicate 8 hello) full-Holds refl may_send (omega arith) from_ram

sys_receive-empty_example :
    ((nonblocking 0 ≡ true)
      × (sys_receive 40 2 4100 16 0 blocked_system ≡ ok (40, set_a0 blocked_system 40 eagain)))
    ⊎ ((nonblocking 0 ≡ false)
        × (k' : Kernel) × (sys_receive 40 2 4100 16 0 blocked_system
            ≡ ok (
              frame_of k' k'.current_task_idx,
              record (rewound blocked_system 40) { kernel = k' },
            ))
        × Steady 1 k'
        × Served k'
        × Switched (waiting_for 40 (receive 2)) blocked_system.kernel k')
sys_receive-empty_example =
    sys_receive-empty 1 40 2 4100 0 caller (new channel_capacity) blocked_system demo-Steady
      some_wait caller_runs empty_at_2 16 (new-Holds channel_capacity (omega arith) (omega arith))
      may_receive into_ram

system-InOrder : InOrder 1 system
unfolding channel
system-InOrder = record { steady = demo-Steady; hold = λ ch chan at. hold ch chan at }
  where
    empty : Holds channel_capacity (new {A = Message} channel_capacity) []
    empty = new-Holds channel_capacity (omega arith) (omega arith)

    hold :
        (ch : ℕ) (chan : Channel Message)
        → get_elem? channels ch ≡ some chan
        → (q : List Message) × Holds channel_capacity chan q
    hold zero chan at = ([], let e : new channel_capacity ≡ chan = cc in rw e at empty)
    hold (suc zero) chan at = ([], let e : new channel_capacity ≡ chan = cc in rw e at empty)
    hold (suc (suc zero)) chan at =
        (hello ∷ [], let e : waiting_message ≡ chan = cc in rw e at waiting-Holds)
    hold (suc (suc (suc i))) chan at = cc

-- `SYS_RECEIVE` on channel 2 into a buffer of 16 bytes.
abbrev receiving : System
receiving = record system {
  frames = λ a. record trap {
    regs = replicate 10 0 ++ (2 ∷ 4100 ∷ 16 ∷ 0 ∷ replicate 3 0 ++ 5 ∷ replicate 14 0);
  };
}

receiving-InOrder : InOrder 1 receiving
receiving-InOrder = record { steady = demo-Steady; hold = system-InOrder.hold }

dispatch-Keeps_example :
    Keeps 1 (length receiving-InOrder.steady.waiters) (dispatch no_flash 40 receiving)
dispatch-Keeps_example = dispatch-Keeps no_flash 1 40 receiving receiving-InOrder (omega arith)
