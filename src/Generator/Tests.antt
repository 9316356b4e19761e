-- ===== src/Generator/Tests.antt =====
-- The three-task example of the generator's unit tests.
use ferret_os.Common.{
  ℕ, zero, suc, ◌≡◌, refl, true, none, some, List, [], ◌∷◌, get_elem?, get_or, replicate, arith, ok,
  ◌>>=◌,
}
use ferret_os.Task.{Slots, with_capabilities, max_tasks}
use ferret_os.Ccg.{build}
use ferret_os.Ccg.Populated.{slot, no_task_beyond}
use ferret_os.Mip.{compute_mip_values}
use ferret_os.Generator.{
  TaskConfig, compute_mip, padded, each_source, bfs, build_edges, edge_rows, visit_row, edge_row,
  needs,
}
use ferret_os.Generator.Agree.{IsRegistered, matches, generator_agrees_with_kernel}

abbrev config : ℕ → ℕ → ℕ → TaskConfig
config priority exclusive required = record {
  priority = priority;
  exclusive_cap_mask = exclusive;
  required_cap_mask = required;
}

abbrev demo : List TaskConfig
demo = config 1 1 0 ∷ config 2 0 0 ∷ config 3 0 1 ∷ []

abbrev demo_slots : Slots
demo_slots =
    some (with_capabilities 0 1 0 16 0 0 1 0 0)
    ∷ some (with_capabilities 1 2 0 16 0 0 0 0 0)
    ∷ some (with_capabilities 2 3 0 16 0 0 0 0 1)
    ∷ replicate 13 none

demo_h_m_l : compute_mip demo ≡ ok (3 ∷ 2 ∷ 3 ∷ [])
unfolding compute_mip each_source bfs build_edges edge_rows visit_row edge_row needs
demo_h_m_l = refl

two_cycle : compute_mip (config 2 1 2 ∷ config 4 2 1 ∷ []) ≡ ok (4 ∷ 4 ∷ [])
unfolding compute_mip each_source bfs build_edges edge_rows visit_row edge_row needs
two_cycle = refl

demo-IsRegistered : IsRegistered demo demo_slots
unfolding matches slot with_capabilities
demo-IsRegistered = record { size = refl; fits = omega arith; slot_matches = λ i. all_match i }
  where
    all_match : (i : ℕ) → matches (get_elem? demo i) (slot demo_slots i) ≡ true
    all_match zero = refl
    all_match (suc zero) = refl
    all_match (suc (suc zero)) = refl
    all_match (suc (suc (suc i))) =
        rw
          (no_task_beyond 13 i (get_or demo_slots 0 none) (get_or demo_slots 1 none)
            (get_or demo_slots 2 none))
          refl

generator_agrees_with_kernel_example :
    (mip : List ℕ) × (compute_mip demo ≡ ok mip)
    × ((build demo_slots >>= λ ccg. compute_mip_values ccg demo_slots) ≡ ok (padded max_tasks mip))
generator_agrees_with_kernel_example =
    generator_agrees_with_kernel demo demo_slots demo-IsRegistered
