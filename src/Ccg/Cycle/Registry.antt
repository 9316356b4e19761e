-- ===== src/Ccg/Cycle/Registry.antt =====
-- The search for a cycle in the graph of a registry.
use ferret_os.Common.{
  ℕ, ◌+◌, ◌≤◌, ◌<◌, ◌≡◌, refl, sym, ◌∙◌, Bool, true, Option, none, some, [], ◌∷◌, length, ok, ◌>>=◌,
  arith, dec_lt,
}
use ferret_os.Task.{Slots, max_tasks}
use ferret_os.Reach.{Reach, here, along}
use ferret_os.Ccg.{CapabilityContentionGraph, edge, build, has_edge, populated}
use ferret_os.Ccg.Populated.{slot, contended, contended_tasks}
use ferret_os.Ccg.Build.{IsSquare, build-has_edge}
use ferret_os.Ccg.Cycle.{detect_cycle}
use ferret_os.Ccg.Cycle.Detect.{Answer, cyclic, acyclic, edge_in_range, detect_cycle-Answer}

populated-le : (slots : Slots) (i : ℕ) → length (populated slots i) ≤ length slots
unfolding populated
populated-le [] i = omega arith
populated-le (none ∷ slots) i = omega (arith, populated-le slots (i + 1))
populated-le (some t ∷ slots) i = omega (arith, populated-le slots (i + 1))

Reach-map :
    {e e' : ℕ → ℕ → Bool} {a b : ℕ}
    → ((u v : ℕ) → e u v ≡ true → e' u v ≡ true)
    → Reach e a b
    → Reach e' a b
Reach-map f here = here
Reach-map f (along {u} {v} r h) = along (Reach-map f r) (f u v h)

-- The registered tasks stand in the first slots.
pub record IsFilled (slots : Slots) : Type 0 where
  pub size : length slots ≡ max_tasks
  pub free : (i : ℕ) → length (populated slots 0) ≤ i → slot slots i ≡ none

-- A pair of slots of which one keeps the other waiting, directly and, the other way round, through others;
-- or the fact that there is none.
pub data Verdict (slots : Slots) : Option (ℕ × ℕ) → Type 0 where
  mutual_block :
      (u w : ℕ)
      → contended slots u w ≡ true
      → Reach (contended slots) w u
      → Verdict slots (some (u, w))
  no_block :
      ((u w : ℕ) → contended slots u w ≡ true → ¬ Reach (contended slots) w u) → Verdict slots none

contended_filled :
    (slots : Slots) (u w : ℕ)
    → IsFilled slots
    → contended slots u w ≡ true
    → u < length (populated slots 0)
unfolding slot
contended_filled slots u w f h = elim (dec_lt u (length (populated slots 0))) [
  | yes lt ↦ lt
  | no ge ↦
      let (l, t, at_u, at_w, c, ne) = contended_tasks slots u w h in
      let empty = f.free u (omega arith) in
      let there : slot slots u ≡ some l = rw (at_u, slot) refl in absurd cc
]

-- For a registry that is filled from slot 0, building the graph and searching it end without a panic.
-- The search returns an edge only if it closes a cycle of tasks that keep each other waiting, and none
-- only if there is no such cycle.
pub detect_cycle-Verdict :
    (slots : Slots)
    → IsFilled slots
    → (a : Option (ℕ × ℕ)) × ((build slots >>= detect_cycle) ≡ ok a) × Verdict slots a
unfolding has_edge
detect_cycle-Verdict slots f =
    let (ccg, builds, same, counted, square) = build-has_edge slots f.size in
    let size = f.size in
    let (a, runs, answer) = detect_cycle-Answer ccg square (omega (arith, populated-le slots 0)) in
    (a, rw builds runs, verdict ccg same counted square answer)
  where
    verdict :
        (ccg : CapabilityContentionGraph)
        → ((i j : ℕ) → has_edge ccg i j ≡ contended slots i j)
        → ccg.task_count ≡ length (populated slots 0)
        → IsSquare ccg.edges
        → {a : Option (ℕ × ℕ)} → Answer ccg.edges ccg.task_count a
        → Verdict slots a
    verdict ccg same counted square answer = go answer
      where
        to : (u v : ℕ) → edge ccg.edges u v ≡ true → contended slots u v ≡ true
        to u v h =
            let (low, low') = edge_in_range ccg.edges square u v h in sym (same u v) ∙ ground arith

        from : (u v : ℕ) → contended slots u v ≡ true → edge ccg.edges u v ≡ true
        from u v h = let all = same u v ∙ h in ground arith

        go : {a : Option (ℕ × ℕ)} → Answer ccg.edges ccg.task_count a → Verdict slots a
        go (cyclic u w h p) = mutual_block u w (to u w h) (Reach-map to p)
        go (acyclic none_on) = no_block (λ u w h p.
            none_on u w (rw counted (contended_filled slots u w f h)) (from u w h)
              (Reach-map from p))
