-- ===== src/Allocator.antt =====
-- kernel/src/capability/allocator.rs: the boot-time checks that no peripheral and no channel endpoint
-- is held twice. The reports print and then stop for ever: they are `halted`.
pub mod Scan
pub mod Caps
pub mod Ends
mod Tests
use ferret_os.Common.{
  ℕ, zero, suc, ◌+◌, ◌≤◌, ◌<◌, Bool, true, false, Option, none, some, List, [], ◌∷◌, get_elem?, set,
  replicate, leb, if◌then◌else◌, Run, ok, halted, ◌>>=◌, or_panic,
}
use ferret_os.Task.{TaskDescriptor, Slots, max_peripherals, max_channels, has_bit}

-- `claimed`, `senders` and `receivers`: who holds each.
abbrev pub Owners : Type 0
Owners = List (Option ℕ)

-- The body of the innermost loop: `limit` is the length of the array, `id` the bit looked at.
unfoldable pub claim : ℕ → ℕ → ℕ → ℕ → Owners → Run Owners
claim limit mask id task owners =
    let take : Run Owners =
      or_panic (get_elem? owners id)
      >>= elim [ some prior ↦ halted | none ↦ ok (set owners id (some task)) ] in
    let in_range = if leb limit id then halted else take in
    if has_bit mask id then in_range else ok owners

-- `for cap_id in 0..u32::BITS`, with `left` bits to go from `id` on.
unfoldable pub claim_caps : ℕ → ℕ → TaskDescriptor → Owners → Run Owners
claim_caps zero id task claimed = ok claimed
claim_caps (suc left) id task claimed =
    claim max_peripherals task.exclusive_cap_mask id task.id claimed
    >>= claim_caps left (id + 1) task

unfoldable pub check_caps_from : Slots → Owners → Run Owners
check_caps_from [] claimed = ok claimed
check_caps_from (none ∷ slots) claimed = check_caps_from slots claimed
check_caps_from (some task ∷ slots) claimed = claim_caps 32 0 task claimed >>= check_caps_from slots

unfoldable pub check_capability_conflicts : Slots → Run Owners
check_capability_conflicts registry = check_caps_from registry (replicate max_peripherals none)

-- The sender and then the receiver of each channel.
unfoldable pub claim_ends : ℕ → ℕ → TaskDescriptor → Owners × Owners → Run (Owners × Owners)
claim_ends zero id task ends = ok ends
claim_ends (suc left) id task (senders, receivers) = do
  senders' ← claim max_channels task.sends_mask id task.id senders
  receivers' ← claim max_channels task.receives_mask id task.id receivers
  claim_ends left (id + 1) task (senders', receivers')

unfoldable pub check_ends_from : Slots → Owners × Owners → Run (Owners × Owners)
check_ends_from [] ends = ok ends
check_ends_from (none ∷ slots) ends = check_ends_from slots ends
check_ends_from (some task ∷ slots) ends = claim_ends 32 0 task ends >>= check_ends_from slots

unfoldable pub check_channel_conflicts : Slots → Run (Owners × Owners)
check_channel_conflicts registry =
    check_ends_from registry (replicate max_channels none, replicate max_channels none)
