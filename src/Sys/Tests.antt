-- ===== src/Sys/Tests.antt =====
-- The wrappers and the line buffer on concrete inputs, as witnesses.
use ferret_os.Common.{ok, ◌≡◌, refl, [], ◌∷◌, replicate, some, arith}
use ferret_os.Context.{TrapFrame}
use ferret_os.Task.{TaskDescriptor, running}
use ferret_os.Ccg.Populated.{slot}
use ferret_os.Channel.{Channels, channel, new, channel_capacity}
use ferret_os.Channel.Contents.{new-Holds}
use ferret_os.Scheduler.{current_task, task_ptr}
use ferret_os.Scheduler.Demo.{task, demo, demo-Steady}
use ferret_os.Syscall.{System}
use ferret_os.Sys.{try_send}
use ferret_os.Sys.Ecall.{handled}
use ferret_os.Sys.Reply.{Replied, try_send_reply, try_send-handled}

abbrev caller : TaskDescriptor
caller = record (task 0 1) { state = running }

abbrev channels : Channels
channels = new channel_capacity ∷ new channel_capacity ∷ []

abbrev asking : TrapFrame
asking = record { regs = replicate 32 0; mepc = 64; mstatus = 0; mcause = 8; mtval = 0 }

abbrev system : System
system = record {
  kernel = demo;
  channels = channels;
  frames = λ a. asking;
  memory = λ a. 7;
  console = [];
  clock = 0;
}

caller_runs : current_task demo ≡ some caller
unfolding current_task task_ptr slot
caller_runs = refl

channel_1 : channel channels 1 ≡ some (new channel_capacity)
unfolding channel
channel_1 = refl

try_send-handled_example :
    (s' : System) × (try_send (handled (0, 0) 40) 1 4100 3 system
      ≡ ok (try_send_reply (0, 0) caller 1 4100 3 [], s'))
    × Replied system s' 1 4100 3 [] (try_send_reply (0, 0) caller 1 4100 3 [])
try_send-handled_example =
    try_send-handled (0, 0) 1 40 1 4100 3 caller (new channel_capacity) [] system demo-Steady
      (omega arith) caller_runs channel_1 (new-Holds channel_capacity (omega arith) (omega arith))
      refl
