-- ===== src/Ccg.antt =====
-- kernel/src/scheduler/ccg.rs: the Capability Contention Graph.
-- An edge from slot `l` to slot `h` means that task `l` holds exclusively what task `h` requires.
pub mod Populated
pub mod Build
pub mod Cycle
mod Tests
use Prim.Native.Nat.{bit_and}
use ferret_os.Common.{
  ℕ, zero, suc, ◌+◌, Bool, true, false, not, ◌&&◌, Option, none, some, List, [], ◌∷◌, length,
  get_elem?, get_or, set, replicate, ltb, ◌==◌, if◌then◌else◌, Run, ok, panic, ◌>>=◌, or_panic,
}
use ferret_os.Task.{TaskDescriptor, Slots, max_tasks}

abbrev pub Edges : Type 0
Edges = List (List Bool)

pub record CapabilityContentionGraph : Type 0 where
  pub edges : Edges
  pub task_count : ℕ

-- The `indices` array: the populated slots, from slot `i` on.
unfoldable pub populated : Slots → ℕ → List ℕ
populated [] i = []
populated (none ∷ slots) i = populated slots (i + 1)
populated (some t ∷ slots) i = i ∷ populated slots (i + 1)

-- `registry[i].as_ref().unwrap()`
unfoldable pub task_at : Slots → ℕ → Run TaskDescriptor
task_at slots i = or_panic (get_elem? slots i) >>= or_panic

unfoldable pub contends : TaskDescriptor → TaskDescriptor → Bool
contends l h = not (bit_and l.exclusive_cap_mask h.required_cap_mask == 0)

-- `edges[l][h] = true`
unfoldable pub set_edge : Edges → ℕ → ℕ → Run Edges
set_edge edges l h = do
  row ← or_panic (get_elem? edges l)
  if ltb h (length row) then ok (set edges l (set row h true)) else panic

-- The inner loop for the holder `l` in slot `l_idx`, the `li`-th populated one.
unfoldable pub link_waiters : Slots → TaskDescriptor → ℕ → ℕ → List ℕ → ℕ → Edges → Run Edges
unfolding task_at contends set_edge
link_waiters slots l l_idx li [] hi edges = ok edges
link_waiters slots l l_idx li (h_idx ∷ rest) hi edges = do
  let skip = ok edges
  let test =
      task_at slots h_idx >>= λ h. if contends l h then set_edge edges l_idx h_idx else ok edges
  edges' ← if li == hi then skip else test
  link_waiters slots l l_idx li rest (hi + 1) edges'

unfoldable pub link_holders : Slots → List ℕ → List ℕ → ℕ → Edges → Run Edges
unfolding task_at link_waiters
link_holders slots indices [] li edges = ok edges
link_holders slots indices (l_idx ∷ rest) li edges = do
  l ← task_at slots l_idx
  edges' ← link_waiters slots l l_idx li indices 0 edges
  link_holders slots indices rest (li + 1) edges'

unfoldable pub no_edges : Edges
no_edges = replicate max_tasks (replicate max_tasks false)

unfoldable pub build : Slots → Run CapabilityContentionGraph
unfolding populated link_holders no_edges
build slots = do
  let indices = populated slots 0
  edges ← link_holders slots indices indices 0 no_edges
  ok (record { edges = edges; task_count = length indices })

-- `self.edges[from][to]`, for indices in range
abbrev pub edge : Edges → ℕ → ℕ → Bool
edge edges from to = get_or (get_or edges from []) to false

unfoldable pub has_edge : CapabilityContentionGraph → ℕ → ℕ → Bool
has_edge ccg from to = ltb from max_tasks && (ltb to max_tasks && edge ccg.edges from to)
