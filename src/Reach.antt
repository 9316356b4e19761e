-- ===== src/Reach.antt =====
-- What MaxInheritedPriority means: the highest base priority of a task that can be reached in the
-- contention graph. `search` is the breadth-first search that both kernel/build/ccg_gen.rs and
-- kernel/src/scheduler/mip.rs perform, without their arrays; they are shown to agree with it.
pub mod Search
pub mod Highest
use ferret_os.Common.{
  ℕ, zero, suc, ◌+◌, ◌≤◌, ◌≡◌, Bool, true, false, not, ◌&&◌, List, [], ◌∷◌, ◌++◌, get_or, set, max,
  if◌then◌else◌, Run, ok, out_of_fuel, arith,
}

module _ (e : ℕ → ℕ → Bool) where
  pub data Reach (src : ℕ) : ℕ → Type 0 where
    here : Reach src src
    along : {u v : ℕ} → Reach src u → e u v ≡ true → Reach src v

  -- `m` is the highest `p` of a node that `src` reaches.
  pub record IsHighest (p : ℕ → ℕ) (src m : ℕ) : Type 0 where
    pub bounds : (v : ℕ) → Reach src v → p v ≤ m
    pub node : ℕ
    pub reached : Reach src node
    pub attained : m ≡ p node

  -- The round of `cur`: each of the `left` nodes from `j` on that is a successor not seen before is
  -- marked and put into the queue.
  unfoldable pub expand : ℕ → ℕ → ℕ → List ℕ → List Bool → List ℕ × List Bool
  expand cur zero j todo seen = (todo, seen)
  expand cur (suc left) j todo seen =
      let found = e cur j && not (get_or seen j true) in
      expand cur left (j + 1) (if found then todo ++ j ∷ [] else todo)
        (if found then set seen j true else seen)

  -- The search over `n` nodes; `best` is the highest `p` so far.
  unfoldable pub search_loop : ℕ → (ℕ → ℕ) → ℕ → List ℕ → List Bool → ℕ → Run ℕ
  unfolding expand
  search_loop fuel p n [] seen best = ok best
  search_loop zero p n (cur ∷ todo) seen best = out_of_fuel
  search_loop (suc fuel) p n (cur ∷ todo) seen best =
      let (todo', seen') = expand cur n 0 todo seen in
      search_loop fuel p n todo' seen' (max best (p cur))

module _ (e : ℕ → ℕ → Bool) (p : ℕ → ℕ) where
  -- There is one highest value, and it does not rise along an edge.
  pub IsHighest_unique : (src m m' : ℕ) → IsHighest e p src m → IsHighest e p src m' → m ≡ m'
  IsHighest_unique src m m' h h' =
      omega
        (arith, h.attained, h'.attained, h.bounds h'.node h'.reached, h'.bounds h.node h.reached)

  Reach-trans : {u v w : ℕ} → Reach e u v → Reach e v w → Reach e u w
  Reach-trans r here = r
  Reach-trans r (along r' h) = along (Reach-trans r r') h

  pub IsHighest-edge :
      (u v m m' : ℕ) → e u v ≡ true → IsHighest e p u m → IsHighest e p v m' → m' ≤ m
  IsHighest-edge u v m m' h a b =
      omega (arith, b.attained, a.bounds b.node (Reach-trans (along here h) b.reached))
