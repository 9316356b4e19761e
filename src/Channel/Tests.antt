-- ===== src/Channel/Tests.antt =====
-- A channel of two messages filled and emptied, and the witnesses.
use ferret_os.Common.{ℕ, ◌≡◌, refl, none, some, List, [], ◌∷◌, length, arith, ok}
use ferret_os.Channel.{Channel, Message, accepted, rejected, new, from_bytes, bytes, msg_max}
use ferret_os.Channel.Contents.{Holds}
use ferret_os.Channel.Fifo.{
  Call, send, receive, sent, received, perform_all, serve, serve_all, channel_refines_fifo,
}
use ferret_os.Channel.Bytes.{bytes-from_bytes}

abbrev calls : List (Call ℕ)
calls = send 5 ∷ send 6 ∷ send 7 ∷ receive ∷ send 8 ∷ receive ∷ receive ∷ receive ∷ []

served_in_order :
    (serve_all 2 [] calls).0
    ≡ sent accepted
      ∷ sent accepted
      ∷ sent (rejected 7)
      ∷ received (some 5)
      ∷ sent accepted
      ∷ received (some 6)
      ∷ received (some 8)
      ∷ received none
      ∷ []
unfolding serve_all serve
served_in_order = refl

channel_refines_fifo_example :
    (c' : Channel ℕ) × (perform_all (new 2) calls ≡ ok ((serve_all 2 [] calls).0, c'))
    × Holds 2 c' (serve_all 2 [] calls).1
channel_refines_fifo_example = channel_refines_fifo 2 calls (omega arith) (omega arith)

bytes-from_bytes_example :
    (m : Message) × (from_bytes (97 ∷ 98 ∷ 99 ∷ []) ≡ some m)
    × (bytes m ≡ 97 ∷ 98 ∷ 99 ∷ [])
    × (length m.array ≡ msg_max)
bytes-from_bytes_example = bytes-from_bytes (97 ∷ 98 ∷ 99 ∷ []) (omega arith)
