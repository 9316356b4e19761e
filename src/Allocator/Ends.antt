-- ===== src/Allocator/Ends.antt =====
-- The channel check stops the boot exactly if an end of a channel is held by two tasks or is out of range.
use ferret_os.Common.{
  ℕ, zero, suc, ◌+◌, ◌≤◌, ◌<◌, ◌≡◌, refl, sym, ◌∙◌, none, some, [], ◌∷◌, length, replicate, Run, ok,
  halted, arith, inl, inr, ◌⊎◌,
}
use ferret_os.Task.{TaskDescriptor, Slots, max_channels}
use ferret_os.Allocator.{Owners, claim_ends, check_ends_from, check_channel_conflicts}
use ferret_os.Allocator.Scan.{
  scan, scan_all, scan_all-new, holders_of, claim_returns, scan-Scanned, clash, claimed,
}

-- Both results, if both checks return.
both : Run Owners → Run Owners → Run (Owners × Owners)
both a b = elim a [ ok s ↦ elim b [ ok r ↦ ok (s, r) | _ ↦ halted ] | _ ↦ halted ]

both-ok : (s r : Owners) → both (ok s) (ok r) ≡ ok (s, r)
unfolding both
both-ok s r = refl

both-halted : (a : Run Owners) → both a halted ≡ halted
unfolding both
both-halted a = elim a as (λ a. both a halted ≡ halted) [ ok s ↦ refl | _ ↦ refl ]

-- The senders and the receivers are claimed independently.
claim_ends-both :
    (left id : ℕ) (task : TaskDescriptor) (senders receivers : Owners)
    → length senders ≡ max_channels
    → length receivers ≡ max_channels
    → claim_ends left id task (senders, receivers)
      ≡ both
          (scan max_channels task.sends_mask task.id left id senders)
          (scan max_channels task.receives_mask task.id left id receivers)
unfolding claim_ends scan
claim_ends-both zero id task senders receivers ls lr = unfold both in refl
claim_ends-both (suc left) id task senders receivers ls lr =
    elim (claim_returns max_channels task.sends_mask id task.id senders ls) [
      | inl stops ↦ rw stops (unfold both in refl)
      | inr (senders', runs, ls') ↦
          elim (claim_returns max_channels task.receives_mask id task.id receivers lr) [
            | inl stops ↦ rw (runs, stops) (sym (both-halted _))
            | inr (receivers', runs', lr') ↦
                rw (runs, runs') (claim_ends-both left (id + 1) task senders' receivers' ls' lr')
          ]
    ]

scan_returns :
    (mask owner : ℕ) (owners : Owners)
    → length owners ≡ max_channels
    → (scan max_channels mask owner 32 0 owners ≡ halted)
      ⊎ ((owners' : Owners) × (scan max_channels mask owner 32 0 owners ≡ ok owners')
          × (length owners' ≡ max_channels))
scan_returns mask owner owners size =
    elim (scan-Scanned max_channels mask owner 32 0 owners (omega arith) refl size) [
      | clash stops bit lt ge held why ↦ inl stops
      | claimed owners' runs size' all free beyond ↦ inr (owners', runs, size')
    ]

check_ends_from-both :
    (slots : Slots) (senders receivers : Owners)
    → length senders ≡ max_channels
    → length receivers ≡ max_channels
    → check_ends_from slots (senders, receivers)
      ≡ both
          (scan_all max_channels (λ task. task.sends_mask) slots senders)
          (scan_all max_channels (λ task. task.receives_mask) slots receivers)
unfolding check_ends_from scan_all
check_ends_from-both [] senders receivers ls lr = unfold both in refl
check_ends_from-both (none ∷ slots) senders receivers ls lr =
    check_ends_from-both slots senders receivers ls lr
check_ends_from-both (some task ∷ slots) senders receivers ls lr =
    rw (claim_ends-both 32 0 task senders receivers ls lr)
      (elim (scan_returns task.sends_mask task.id senders ls) [
        | inl stops ↦ rw stops (unfold both in refl)
        | inr (senders', runs, ls') ↦ elim (scan_returns task.receives_mask task.id receivers lr) [
          | inl stops ↦
              rw (runs, stops)
                (unfold both in
                  (sym
                    (both-halted (scan_all max_channels (λ task. task.sends_mask) slots senders'))))
          | inr (receivers', runs', lr') ↦
              rw (runs, runs', both-ok senders' receivers')
                (check_ends_from-both slots senders' receivers' ls' lr')
        ]
      ])

-- How many tasks hold the sending or the receiving end of a channel.
unfoldable pub senders_of : ℕ → Slots → ℕ
senders_of ch slots = holders_of (λ task. task.sends_mask) ch slots

unfoldable pub receivers_of : ℕ → Slots → ℕ
receivers_of ch slots = holders_of (λ task. task.receives_mask) ch slots

-- An end of the channel `ch` has two holders, or a holder though there is no such channel.
abbrev pub Misheld : ℕ → ℕ → Type 0
Misheld ch held = (2 ≤ held) ⊎ ((max_channels ≤ ch) × (1 ≤ held))

misheld : (ch held : ℕ) → (max_channels ≤ ch) ⊎ (2 ≤ 0 + held) → 1 ≤ held → Misheld ch held
misheld ch held (inl beyond) one = inr (beyond, one)
misheld ch held (inr two) one = inl (omega arith)

-- The check halts if some channel has two senders or two receivers, or an end of a channel that does not
-- exist is held. Otherwise it returns, and then every channel has at most one sender and one receiver,
-- and no end of another is held.
pub check_channel_conflicts-exact :
    (registry : Slots)
    → ((check_channel_conflicts registry ≡ halted)
        × (ch : ℕ) × (ch < 32)
        × (Misheld ch (senders_of ch registry) ⊎ Misheld ch (receivers_of ch registry)))
      ⊎ ((ends : Owners × Owners) × (check_channel_conflicts registry ≡ ok ends)
          × ((ch : ℕ)
              → ch < max_channels
              → (senders_of ch registry ≤ 1) × (receivers_of ch registry ≤ 1))
          × ((ch : ℕ)
              → max_channels ≤ ch
              → ch < 32
              → (senders_of ch registry ≡ 0) × (receivers_of ch registry ≡ 0)))
unfolding check_channel_conflicts senders_of receivers_of
check_channel_conflicts-exact registry =
    let same =
      check_ends_from-both registry (replicate max_channels none) (replicate max_channels none) refl
        refl in
    elim (scan_all-new max_channels (λ task. task.sends_mask) (omega arith) registry) [
      | inl (stops, ch, lt, one, why) ↦
          inl (same ∙ rw stops (unfold both in refl), ch, lt, inl (misheld ch _ why one))
      | inr (s, runs, single, absent) ↦
          elim (scan_all-new max_channels (λ task. task.receives_mask) (omega arith) registry) [
            | inl (stops, ch, lt, one, why) ↦
                inl (same ∙ rw stops (both-halted _), ch, lt, inr (misheld ch _ why one))
            | inr (r, runs', single', absent') ↦ inr (
              (s, r),
              same ∙ rw (runs, runs') (unfold both in refl),
              (λ ch lt. (omega (arith, single ch lt), omega (arith, single' ch lt))),
              λ ch b lt. (absent ch b lt, absent' ch b lt),
            )
          ]
    ]
