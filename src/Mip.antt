-- ===== src/Mip.antt =====
-- kernel/src/scheduler/mip.rs: MaxInheritedPriority by breadth-first search over the graph.
-- The queue and `visited` are arrays of MAX_TASKS; a write past the queue's end would panic. The
-- source updates `mip[src]` in place; here it is carried as `best` and written once.
pub mod Array
pub mod Correct
pub mod Values
pub mod Inherit
mod Tests
use ferret_os.Common.{
  ℕ, zero, suc, ◌+◌, Bool, true, false, not, ◌&&◌, Option, none, some, List, [], ◌∷◌, length,
  get_elem?, set, replicate, max, ltb, if◌then◌else◌, Run, ok, panic, out_of_fuel, ◌>>=◌, or_panic,
}
use ferret_os.Task.{TaskDescriptor, Slots, Registry, max_tasks}
use ferret_os.Ccg.{CapabilityContentionGraph}

pub record Bfs : Type 0 where
  pub queue : List ℕ
  pub tail : ℕ
  pub visited : List Bool

-- `self.edges[from][j]`
unfoldable pub read_edge : CapabilityContentionGraph → ℕ → ℕ → Run Bool
read_edge ccg from j = or_panic (get_elem? ccg.edges from) >>= λ row. or_panic (get_elem? row j)

abbrev pub is_some {ℓ} : {A : Type ℓ} → Option A → Bool
is_some none = false
is_some (some a) = true

-- `queue[tail] = succ; tail += 1; visited[succ] = true`
unfoldable pub enqueue : Bfs → ℕ → Run Bfs
enqueue s succ =
    if ltb s.tail (length s.queue)
    then ok (record {
      queue = set s.queue s.tail succ;
      tail = s.tail + 1;
      visited = set s.visited succ true;
    })
    else panic

-- The loop over `ccg.successors(cur)`, the edges of `cur` with targets from `j` on.
unfoldable pub visit_successors : CapabilityContentionGraph → Slots → ℕ → ℕ → ℕ → Bfs → Run Bfs
visit_successors ccg reg cur zero j s = ok s
visit_successors ccg reg cur (suc left) j s = do
  is_edge ← read_edge ccg cur j
  let meet : Run Bfs = do
    seen ← or_panic (get_elem? s.visited j)
    t ← or_panic (get_elem? reg j)
    if not seen && is_some t then enqueue s j else ok s
  s' ← if is_edge then meet else ok s
  visit_successors ccg reg cur left (j + 1) s'

unfoldable pub raise : Option TaskDescriptor → ℕ → ℕ
raise none best = best
raise (some t) best = max best t.priority

unfoldable pub bfs_loop : ℕ → CapabilityContentionGraph → Slots → ℕ → Bfs → ℕ → Run ℕ
bfs_loop zero ccg reg head s best = out_of_fuel
bfs_loop (suc fuel) ccg reg head s best =
    let round : Run ℕ = do
      cur ← or_panic (get_elem? s.queue head)
      t ← or_panic (get_elem? reg cur)
      s' ← visit_successors ccg reg cur max_tasks 0 s
      bfs_loop fuel ccg reg (head + 1) s' (raise t best)
    in if ltb head s.tail then round else ok best

-- Each task is queued at most once, so MAX_TASKS + 2 rounds of the loop are enough.
unfoldable pub mip_of : CapabilityContentionGraph → Slots → ℕ → TaskDescriptor → Run ℕ
mip_of ccg reg src t =
    bfs_loop (max_tasks + 2) ccg reg 0
      (record {
        queue = set (replicate max_tasks 0) 0 src;
        tail = 1;
        visited = set (replicate max_tasks false) src true;
      })
      t.priority

-- `for src in 0..MAX_TASKS`, with `left` slots to go from `src` on.
unfoldable pub mip_loop : CapabilityContentionGraph → Slots → ℕ → ℕ → List ℕ → Run (List ℕ)
mip_loop ccg reg zero src mip = ok mip
mip_loop ccg reg (suc left) src mip = do
  slot ← or_panic (get_elem? reg src)
  mip' ← elim slot [ none ↦ ok mip | some t ↦ mip_of ccg reg src t >>= λ m. ok (set mip src m) ]
  mip_loop ccg reg left (src + 1) mip'

unfoldable pub compute_mip_values : CapabilityContentionGraph → Slots → Run (List ℕ)
compute_mip_values ccg reg = mip_loop ccg reg max_tasks 0 (replicate max_tasks 0)

abbrev pub with_mip : ℕ → TaskDescriptor → TaskDescriptor
with_mip m t = record t { max_inherited_priority = m }

-- `for (i, m) in mip.iter().enumerate().take(task_count())`: the first `left` values are written to
-- the slots from the front.
unfoldable pub store_mip : ℕ → List ℕ → Slots → Slots
store_mip zero mip slots = slots
store_mip (suc left) [] slots = slots
store_mip (suc left) (m ∷ mip) [] = []
store_mip (suc left) (m ∷ mip) (none ∷ slots) = none ∷ store_mip left mip slots
store_mip (suc left) (m ∷ mip) (some t ∷ slots) = some (with_mip m t) ∷ store_mip left mip slots

unfoldable pub compute_and_store_mip : CapabilityContentionGraph → Registry → Run Registry
compute_and_store_mip ccg r = do
  mip ← compute_mip_values ccg r.slots
  ok (record r { slots = store_mip r.count mip r.slots })
