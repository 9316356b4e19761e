-- ===== src/Allocator/Caps.antt =====
-- The capability check stops the boot exactly if a peripheral is held exclusively by two tasks.
use ferret_os.Common.{
  ℕ, zero, suc, ◌+◌, ◌≤◌, ◌<◌, ◌≡◌, refl, ◌∙◌, none, some, [], ◌∷◌, replicate, ok, halted, >>=-ext,
  arith, inl, inr, ◌⊎◌,
}
use ferret_os.Task.{TaskDescriptor, Slots, max_peripherals}
use ferret_os.Allocator.{Owners, claim, claim_caps, check_caps_from, check_capability_conflicts}
use ferret_os.Allocator.Scan.{scan, scan_all, scan_all-new, holders_of}

-- How many tasks hold the peripheral exclusively.
unfoldable pub holders : ℕ → Slots → ℕ
holders cap slots = holders_of (λ task. task.exclusive_cap_mask) cap slots

claim_caps-scan :
    (left id : ℕ) (task : TaskDescriptor) (claimed : Owners)
    → claim_caps left id task claimed
      ≡ scan max_peripherals task.exclusive_cap_mask task.id left id claimed
unfolding claim_caps scan
claim_caps-scan zero id task claimed = refl
claim_caps-scan (suc left) id task claimed =
    >>=-ext (claim max_peripherals task.exclusive_cap_mask id task.id claimed)
      (claim_caps left (id + 1) task)
      (scan max_peripherals task.exclusive_cap_mask task.id left (id + 1))
      (claim_caps-scan left (id + 1) task)

check_caps_from-scan_all :
    (slots : Slots) (claimed : Owners)
    → check_caps_from slots claimed
      ≡ scan_all max_peripherals (λ task. task.exclusive_cap_mask) slots claimed
unfolding check_caps_from scan_all
check_caps_from-scan_all [] claimed = refl
check_caps_from-scan_all (none ∷ slots) claimed = check_caps_from-scan_all slots claimed
check_caps_from-scan_all (some task ∷ slots) claimed = rw (claim_caps-scan 32 0 task claimed) (
    >>=-ext (scan max_peripherals task.exclusive_cap_mask task.id 32 0 claimed)
      (check_caps_from slots) (scan_all max_peripherals (λ task. task.exclusive_cap_mask) slots)
      (check_caps_from-scan_all slots))

-- The check halts if some peripheral is held exclusively by two tasks, and otherwise returns, and then
-- every peripheral has at most one exclusive holder.
pub check_capability_conflicts-exact :
    (registry : Slots)
    → ((check_capability_conflicts registry ≡ halted)
        × (cap : ℕ) × (cap < max_peripherals)
        × (2 ≤ holders cap registry))
      ⊎ ((claimed : Owners) × (check_capability_conflicts registry ≡ ok claimed)
          × ((cap : ℕ) → cap < max_peripherals → holders cap registry ≤ 1))
unfolding check_capability_conflicts holders
check_capability_conflicts-exact registry =
    let same = check_caps_from-scan_all registry (replicate max_peripherals none) in
    elim (scan_all-new max_peripherals (λ task. task.exclusive_cap_mask) (omega arith) registry) [
      | inl (stops, bit, lt, one, inl beyond) ↦ absurd (omega arith)
      | inl (stops, bit, lt, one, inr two) ↦ inl (same ∙ stops, bit, lt, omega arith)
      | inr (claimed, runs, single, absent) ↦
          inr (claimed, same ∙ runs, λ b lt. omega (arith, single b lt))
    ]
