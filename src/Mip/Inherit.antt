-- ===== src/Mip/Inherit.antt =====
-- What the stored values guarantee: a task that holds a peripheral runs at a priority at least as
-- high as every task that needs the peripheral.
use ferret_os.Common.{
  ℕ, zero, suc, ◌≤◌, ◌<◌, ◌≡◌, refl, true, none, some, List, [], ◌∷◌, length, get_elem?, get_or,
  max, ok, ◌>>=◌, arith, dec_lt, lt_of_get_elem?,
}
use ferret_os.Task.{TaskDescriptor, Slots, Registry, max_tasks, effective_priority}
use ferret_os.Ccg.{build}
use ferret_os.Ccg.Populated.{slot, slot-some, contended, contended_tasks}
use ferret_os.Reach.{here, IsHighest, IsHighest-edge}
use ferret_os.Mip.{raise, with_mip, store_mip, compute_and_store_mip}
use ferret_os.Mip.Correct.{priority_of}
use ferret_os.Mip.Values.{compute_mip_values_correct}

-- The first `count` slots hold the tasks, as `register_task` fills them.
pub record IsDense (r : Registry) : Type 0 where
  pub size : length r.slots ≡ max_tasks
  pub small : r.count ≤ max_tasks
  pub free : (i : ℕ) → r.count ≤ i → slot r.slots i ≡ none

slot-store_mip :
    (left : ℕ) (mip : List ℕ) (slots : Slots) (i : ℕ) (t : TaskDescriptor)
    → i < left
    → left ≤ length mip
    → get_elem? slots i ≡ some (some t)
    → get_elem? (store_mip left mip slots) i ≡ some (some (with_mip (get_or mip i 0) t))
unfolding store_mip
slot-store_mip zero mip slots i t h w e = absurd (omega arith)
slot-store_mip (suc left) [] slots i t h w e = absurd (omega arith)
slot-store_mip (suc left) (m ∷ mip) [] i t h w e = cc
slot-store_mip (suc left) (m ∷ mip) (none ∷ slots) zero t h w e = cc
slot-store_mip (suc left) (m ∷ mip) (some t' ∷ slots) zero t h w e =
    let q : t' ≡ t = ground arith in rw q refl
slot-store_mip (suc left) (m ∷ mip) (none ∷ slots) (suc i) t h w e =
    slot-store_mip left mip slots i t (omega arith) (omega arith) e
slot-store_mip (suc left) (m ∷ mip) (some t' ∷ slots) (suc i) t h w e =
    slot-store_mip left mip slots i t (omega arith) (omega arith) e

-- The registry after boot: each task keeps its fields but `max_inherited_priority`, which is the
-- highest base priority that it reaches along the contention edges.
pub record Inherited (r r' : Registry) : Type 0 where
  pub task :
      (i : ℕ) (t : TaskDescriptor)
      → slot r.slots i ≡ some t
      → (m : ℕ) × (get_elem? r'.slots i ≡ some (some (with_mip m t)))
        × IsHighest (contended r.slots) (priority_of r.slots) i m
  pub count : r'.count ≡ r.count

-- The boot step does not panic and stores the values.
pub compute_and_store_mip_correct :
    (r : Registry)
    → IsDense r
    → (r' : Registry) × ((build r.slots >>= λ ccg. compute_and_store_mip ccg r) ≡ ok r')
      × Inherited r r'
unfolding compute_and_store_mip
compute_and_store_mip_correct r d =
    let (ccg, mip, builds, runs, v) = compute_mip_values_correct r.slots d.size in
    (
      record { slots = store_mip r.count mip r.slots; count = r.count },
      rw (builds, runs) refl,
      record {
        task = λ i t e.
            let there = slot-some r.slots i e in
            let low : i < max_tasks = in_range i t there d.size in
            (
              get_or mip i 0,
              slot-store_mip r.count mip r.slots i t (occupied i t e)
                  (let n = v.size in let small = d.small in omega arith) there,
              v.task i t (omega arith) low e,
            );
        count = refl;
      },
    )
  where
    in_range :
        (i : ℕ) (t : TaskDescriptor)
        → get_elem? r.slots i ≡ some (some t)
        → length r.slots ≡ max_tasks
        → i < max_tasks
    in_range i t e n = omega (arith, lt_of_get_elem? r.slots i e)

    occupied : (i : ℕ) (t : TaskDescriptor) → slot r.slots i ≡ some t → i < r.count
    occupied i t e = elim (dec_lt i r.count) [
      | yes lt ↦ lt
      | no ge ↦ let e' : slot r.slots i ≡ none = d.free i (omega arith) in cc
    ]

base_le :
    (slots : Slots) (j : ℕ) (w : TaskDescriptor) (k : ℕ)
    → get_elem? slots j ≡ some (some w)
    → priority_of slots j ≤ k
    → w.priority ≤ k
unfolding slot raise
base_le slots j w k e h =
    let own : max 0 w.priority ≤ k = rw (e, slot) at h in let p = w.priority in omega arith

covers :
    (l w : TaskDescriptor) (m k : ℕ)
    → w.priority ≤ k
    → k ≤ m
    → effective_priority (with_mip k w) ≤ effective_priority (with_mip m l)
unfolding effective_priority
covers l w m k h h' = let p = w.priority in let q = l.priority in omega arith

-- While slot `i` holds exclusively what slot `j` requires, the boot step, which does not panic, leaves
-- the task in `i` with at least the effective priority of the one in `j`.
pub holder-outranks :
    (r : Registry) (i j : ℕ)
    → IsDense r
    → contended r.slots i j ≡ true
    → (r' : Registry) × (t u : TaskDescriptor) × ((build r.slots >>= λ ccg.
          compute_and_store_mip ccg r)
        ≡ ok r')
      × (slot r'.slots i ≡ some t)
      × (slot r'.slots j ≡ some u)
      × (effective_priority u ≤ effective_priority t)
unfolding slot
holder-outranks r i j d c =
    let (r', runs, inherited) = compute_and_store_mip_correct r d in
    let (l, w, at_i, at_j, con, ne) = contended_tasks r.slots i j c in
    let (m, now, best) = inherited.task i l (rw (at_i, slot) refl) in
    let (k, now', best') = inherited.task j w (rw (at_j, slot) refl) in
    let below = IsHighest-edge (contended r.slots) (priority_of r.slots) i j m k c best best' in
    let own = best'.bounds j here in
    (
      r',
      with_mip m l,
      with_mip k w,
      runs,
      rw (now, slot) refl,
      rw (now', slot) refl,
      covers l w m k (base_le r.slots j w k at_j own) below,
    )
