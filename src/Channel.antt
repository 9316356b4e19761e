-- ===== src/Channel.antt =====
-- kernel/src/ipc/channel.rs and kernel/src/ipc/kernel.rs: the ring buffer of a channel, its messages,
-- and the table of channels. One task sends and one receives, with interrupts off: the atomic
-- operations are the plain ones. A slot of the buffer that is uninitialised is `none`.
pub mod Contents
pub mod Fifo
pub mod Bytes
mod Tests
use ferret_os.Common.{
  ℕ, zero, suc, ◌+◌, ◌%◌, ◌<◌, Option, none, some, List, length, get_elem?, set, replicate, take,
  ◌++◌, ltb, ◌==◌, if◌then◌else◌, Run, ok, ◌>>=◌, or_panic, ◌-◌, Bool, wrapping_add, wrapping_sub,
}
use ferret_os.Task.{max_channels}

pub record Channel {ℓ} (A : Type ℓ) : Type ℓ where
  pub buffer : List (Option A)
  pub head : ℕ
  pub len : ℕ

-- `Ok(())` and `Err(value)`
pub data Sent {ℓ} (A : Type ℓ) : Type ℓ where
  accepted : Sent A
  rejected : A → Sent A

module _ {ℓ} {A : Type ℓ} where
  unfoldable pub new : ℕ → Channel A
  new cap = record { buffer = replicate cap none; head = 0; len = 0 }

  unfoldable pub capacity : Channel A → ℕ
  capacity c = length c.buffer

  unfoldable pub is_empty : Channel A → Bool
  is_empty c = c.len == 0

  unfoldable pub is_full : Channel A → Bool
  is_full c = c.len == capacity c

  unfoldable pub try_send : Channel A → A → Sent A × Channel A
  try_send c value =
      let slot = wrapping_add c.head c.len % capacity c in
      if c.len == capacity c then (rejected value, c) else (
        accepted,
        record {
          buffer = set c.buffer slot (some value);
          head = c.head;
          len = wrapping_add c.len 1;
        },
      )

  -- Reading an index out of bounds panics. Reading an uninitialised slot would be undefined behaviour,
  -- which is also `panic` here.
  unfoldable pub try_receive : Channel A → Run (Option A × Channel A)
  try_receive c =
      let taken : Run (Option A × Channel A) = do
        slot ← or_panic (get_elem? c.buffer c.head)
        value ← or_panic slot
        ok (
          some value,
          record {
            buffer = c.buffer;
            head = wrapping_add c.head 1 % capacity c;
            len = wrapping_sub c.len 1;
          },
        )
      in if c.len == 0 then ok (none, c) else taken

abbrev pub msg_max : ℕ
msg_max = 16

abbrev pub channel_capacity : ℕ
channel_capacity = 8

pub record Message : Type 0 where
  pub len : ℕ
  pub array : List ℕ

-- `data[..bytes.len()].copy_from_slice(bytes)` on an array of zeros: the bytes, then the rest of it.
unfoldable pub from_bytes : List ℕ → Option Message
from_bytes bytes =
    if ltb msg_max (length bytes)
    then none
    else some (record { len = length bytes; array = bytes ++ replicate (msg_max - length bytes) 0 })

unfoldable pub bytes : Message → List ℕ
bytes m = take m.len m.array

abbrev pub Channels : Type 0
Channels = List (Channel Message)

unfoldable pub no_messages : Channels
no_messages = replicate max_channels (new channel_capacity)

unfoldable pub channel : Channels → ℕ → Option (Channel Message)
channel channels id = get_elem? channels id
