-- ===== src/Mip/Tests.antt =====
-- The three-task example of kernel/build/ccg_gen.rs: task 0 holds what task 2 needs.
use ferret_os.Common.{
  ℕ, zero, suc, ◌≤◌, ◌≡◌, refl, true, none, some, ◌∷◌, replicate, arith, ok, ◌>>=◌,
}
use ferret_os.Task.{TaskDescriptor, Slots, Registry, with_capabilities, effective_priority}
use ferret_os.Ccg.{build, contends}
use ferret_os.Ccg.Populated.{slot, contended, both, no_task_beyond}
use ferret_os.Mip.{
  compute_mip_values, compute_and_store_mip, mip_loop, mip_of, bfs_loop, visit_successors,
  read_edge, enqueue, raise,
}
use ferret_os.Mip.Inherit.{IsDense, holder-outranks}

abbrev demo_slots : Slots
demo_slots =
    some (with_capabilities 0 1 0 16 0 0 1 0 0)
    ∷ some (with_capabilities 1 2 0 16 0 0 0 0 0)
    ∷ some (with_capabilities 2 3 0 16 0 0 0 0 1)
    ∷ replicate 13 none

abbrev demo_registry : Registry
demo_registry = record { slots = demo_slots; count = 3 }

demo_mip :
    (build demo_slots >>= λ ccg. compute_mip_values ccg demo_slots)
    ≡ ok (3 ∷ 2 ∷ 3 ∷ replicate 13 0)
unfolding build compute_mip_values with_capabilities mip_loop mip_of bfs_loop visit_successors
    read_edge enqueue raise
demo_mip = refl

demo_registry-IsDense : IsDense demo_registry
demo_registry-IsDense = record { size = refl; small = omega arith; free = λ i h. free i h }
  where
    free : (i : ℕ) → 3 ≤ i → slot demo_slots i ≡ none
    free zero h = absurd (omega arith)
    free (suc zero) h = absurd (omega arith)
    free (suc (suc zero)) h = absurd (omega arith)
    free (suc (suc (suc i))) h = no_task_beyond 13 i _ _ _

demo_contended : contended demo_slots 0 2 ≡ true
unfolding contended both slot contends with_capabilities
demo_contended = refl

holder-outranks_example :
    (r' : Registry) × (t u : TaskDescriptor) × ((build demo_slots >>= λ ccg.
    compute_and_store_mip ccg demo_registry)
      ≡ ok r')
    × (slot r'.slots 0 ≡ some t)
    × (slot r'.slots 2 ≡ some u)
    × (effective_priority u ≤ effective_priority t)
holder-outranks_example = holder-outranks demo_registry 0 2 demo_registry-IsDense demo_contended
