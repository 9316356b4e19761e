-- ===== src/Ccg/Tests.antt =====
-- The three-task example of kernel/build/ccg_gen.rs, and the witnesses.
use ferret_os.Common.{
  ℕ, zero, suc, Option, ◌≤◌, arith, ◌≡◌, refl, true, false, [], ◌∷◌, none, some, ok, ◌>>=◌,
  replicate, length,
}
use ferret_os.Task.{Slots, with_capabilities}
use ferret_os.Ccg.{CapabilityContentionGraph, build, has_edge, populated}
use ferret_os.Ccg.Populated.{contended, slot, no_task_beyond}
use ferret_os.Ccg.Build.{IsSquare, build-has_edge}
use ferret_os.Ccg.Cycle.{detect_cycle, each_start, dfs_loop, dfs_round, go_on, take_edge, next_edge}
use ferret_os.Ccg.Cycle.Registry.{IsFilled, Verdict, detect_cycle-Verdict}

abbrev demo : Slots
demo =
    some (with_capabilities 0 1 0 16 0 0 1 0 0)
    ∷ some (with_capabilities 1 2 0 16 0 0 0 0 0)
    ∷ some (with_capabilities 2 3 0 16 0 0 0 0 1)
    ∷ replicate 13 none

demo_edges :
    (build demo >>= λ g.
    ok (has_edge g 0 2 ∷ has_edge g 2 0 ∷ has_edge g 0 1 ∷ has_edge g 1 2 ∷ []))
    ≡ ok (true ∷ false ∷ false ∷ false ∷ [])
unfolding build has_edge with_capabilities
demo_edges = refl

build-has_edge_example :
    (ccg : CapabilityContentionGraph) × (build demo ≡ ok ccg)
    × ((i j : ℕ) → has_edge ccg i j ≡ contended demo i j)
    × (ccg.task_count ≡ length (populated demo 0))
    × IsSquare ccg.edges
build-has_edge_example = build-has_edge demo refl

-- Two tasks that each hold what the other requires.
abbrev blocked_pair : Slots
blocked_pair =
    some (with_capabilities 0 1 0 16 0 0 1 0 2)
    ∷ some (with_capabilities 1 2 0 16 0 0 2 0 1)
    ∷ replicate 14 none

demo-detect_cycle : (build demo >>= detect_cycle) ≡ ok none
unfolding build detect_cycle each_start dfs_loop dfs_round go_on take_edge next_edge
    with_capabilities
demo-detect_cycle = refl

blocked_pair-detect_cycle : (build blocked_pair >>= detect_cycle) ≡ ok (some (1, 0))
unfolding build detect_cycle each_start dfs_loop dfs_round go_on take_edge next_edge
    with_capabilities
blocked_pair-detect_cycle = refl

blocked_pair-IsFilled : IsFilled blocked_pair
unfolding populated slot
blocked_pair-IsFilled = record { size = refl; free = free }
  where
    free : (i : ℕ) → 2 ≤ i → slot blocked_pair i ≡ none
    free zero h = absurd (omega arith)
    free (suc zero) h = absurd (omega arith)
    free (suc (suc zero)) h = refl
    free (suc (suc (suc i))) h =
        no_task_beyond 13 i (slot blocked_pair 0) (slot blocked_pair 1) none

detect_cycle-Verdict_example :
    (a : Option (ℕ × ℕ)) × ((build blocked_pair >>= detect_cycle) ≡ ok a) × Verdict blocked_pair a
detect_cycle-Verdict_example = detect_cycle-Verdict blocked_pair blocked_pair-IsFilled
