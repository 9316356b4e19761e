-- ===== src/Allocator/Tests.antt =====
-- Two tasks that hold peripheral 3, and the witnesses.
use ferret_os.Common.{ℕ, ◌≤◌, ◌<◌, ◌≡◌, ◌⊎◌, refl, none, some, [], ◌∷◌, ok, halted}
use ferret_os.Task.{Slots, with_capabilities, max_peripherals, max_channels, has_bit, with_channels}
use ferret_os.Allocator.Ends.{Misheld, senders_of, receivers_of, check_channel_conflicts-exact}
use ferret_os.Allocator.{
  check_channel_conflicts, check_ends_from, claim_ends, Owners, check_capability_conflicts,
  check_caps_from, claim_caps, claim,
}
use ferret_os.Allocator.Caps.{holders, check_capability_conflicts-exact}

abbrev clash : Slots
clash =
    some (with_capabilities 0 1 0 16 0 0 8 0 0)
    ∷ none
    ∷ some (with_capabilities 1 2 0 16 0 0 9 0 0)
    ∷ []

clash_halts : check_capability_conflicts clash ≡ halted
unfolding check_capability_conflicts check_caps_from claim_caps claim has_bit with_capabilities
clash_halts = refl

check_capability_conflicts-exact_example :
    ((check_capability_conflicts clash ≡ halted)
      × (cap : ℕ) × (cap < max_peripherals)
      × (2 ≤ holders cap clash))
    ⊎ ((claimed : Owners) × (check_capability_conflicts clash ≡ ok claimed)
        × ((cap : ℕ) → cap < max_peripherals → holders cap clash ≤ 1))
check_capability_conflicts-exact_example = check_capability_conflicts-exact clash

-- Channel 2 has a sender and a receiver, and channel 9 does not exist.
abbrev two_ends : Slots
two_ends =
    some (with_channels (with_capabilities 0 1 0 16 0 0 0 0 0) 4 0)
    ∷ some (with_channels (with_capabilities 1 2 0 16 0 0 0 0 0) 512 4)
    ∷ []

two_ends_halts : check_channel_conflicts two_ends ≡ halted
unfolding check_channel_conflicts check_ends_from claim_ends claim has_bit with_capabilities
    with_channels
two_ends_halts = refl

check_channel_conflicts-exact_example :
    ((check_channel_conflicts two_ends ≡ halted)
      × (ch : ℕ) × (ch < 32)
      × (Misheld ch (senders_of ch two_ends) ⊎ Misheld ch (receivers_of ch two_ends)))
    ⊎ ((ends : Owners × Owners) × (check_channel_conflicts two_ends ≡ ok ends)
        × ((ch : ℕ)
            → ch < max_channels
            → (senders_of ch two_ends ≤ 1) × (receivers_of ch two_ends ≤ 1))
        × ((ch : ℕ)
            → max_channels ≤ ch
            → ch < 32
            → (senders_of ch two_ends ≡ 0) × (receivers_of ch two_ends ≡ 0)))
check_channel_conflicts-exact_example = check_channel_conflicts-exact two_ends
