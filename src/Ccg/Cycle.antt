-- ===== src/Ccg/Cycle.antt =====
-- kernel/src/scheduler/ccg.rs: the depth-first search for a cycle of the contention graph.
pub mod Safe
pub mod Next
pub mod Rounds
pub mod Detect
pub mod Registry
use ferret_os.Common.{
  ℕ, zero, suc, ◌+◌, ◌-◌, ◌*◌, Bool, true, false, Option, none, some, List, [], ◌∷◌, length,
  get_elem?, get_or, set, replicate, ltb, if◌then◌else◌, Run, ok, panic, out_of_fuel, ◌>>=◌,
  or_panic,
}
use ferret_os.Task.{max_tasks}
use ferret_os.Ccg.{Edges, CapabilityContentionGraph, edge}

-- `dfs[..=depth]`, the deepest entry first, and the two arrays of flags. No entry is left when the
-- search has gone back from depth 0.
pub record Dfs : Type 0 where
  pub stack : List (ℕ × ℕ)
  pub visited : List Bool
  pub rec_stack : List Bool

-- What a round of the inner `loop` does: it returns the back edge, or goes on.
pub data Round : Type 0 where
  found : ℕ → ℕ → Round
  going : Dfs → Round

-- The first successor of `node` among the `left` columns from `succ` on.
unfoldable pub next_edge : Edges → ℕ → ℕ → ℕ → Option ℕ
next_edge edges node zero succ = none
next_edge edges node (suc left) succ =
    let rest = next_edge edges node left (succ + 1) in
    if edge edges node succ then some succ else rest

-- The body of the `for` for a successor. The array `dfs` has `max_tasks` entries.
unfoldable pub take_edge : ℕ → ℕ → List (ℕ × ℕ) → List Bool → List Bool → Run Round
take_edge node succ below visited rec_stack =
    let stack = (node, succ + 1) ∷ below in
    if get_or rec_stack succ false
    then ok (found node succ)
    else (if get_or visited succ true
        then ok (going (record { stack = stack; visited = visited; rec_stack = rec_stack }))
        else (if ltb (length stack) max_tasks
            then ok (
                going (record {
                  stack = (succ, 0) ∷ stack;
                  visited = set visited succ true;
                  rec_stack = set rec_stack succ true;
                }))
            else panic))

unfoldable pub go_on : ℕ → List (ℕ × ℕ) → List Bool → List Bool → Option ℕ → Run Round
go_on node below visited rec_stack none =
    ok (going (record { stack = below; visited = visited; rec_stack = set rec_stack node false }))
go_on node below visited rec_stack (some succ) = take_edge node succ below visited rec_stack

unfoldable pub dfs_round : Edges → ℕ → ℕ → List (ℕ × ℕ) → List Bool → List Bool → Run Round
dfs_round edges node next_succ below visited rec_stack =
    go_on node below visited rec_stack (next_edge edges node (max_tasks - next_succ) next_succ)

unfoldable pub dfs_loop : ℕ → Edges → List (ℕ × ℕ) → List Bool → List Bool → Run Round
dfs_loop fuel edges [] visited rec_stack =
    ok (going (record { stack = []; visited = visited; rec_stack = rec_stack }))
dfs_loop zero edges (entry ∷ below) visited rec_stack = out_of_fuel
dfs_loop (suc fuel) edges ((node, next_succ) ∷ below) visited rec_stack =
    dfs_round edges node next_succ below visited rec_stack >>= λ r. elim r [
      | found u v ↦ ok (found u v)
      | going d ↦ dfs_loop fuel edges d.stack d.visited d.rec_stack
    ]

-- The rounds that a search takes at most: a node that is entered looks at its row at most
-- `max_tasks + 1` times.
abbrev pub rounds : ℕ
rounds = 17 * max_tasks + 1

-- The `for` over `start`, with `left` nodes to go.
unfoldable pub each_start : ℕ → Edges → ℕ → List Bool → List Bool → Run (Option (ℕ × ℕ))
each_start zero edges start visited rec_stack = ok none
each_start (suc left) edges start visited rec_stack = do
  seen ← or_panic (get_elem? visited start)
  let skip = each_start left edges (start + 1) visited rec_stack
  let enter =
      dfs_loop rounds edges ((start, 0) ∷ []) (set visited start true) (set rec_stack start true)
      >>= λ r. elim r [
        | found u v ↦ ok (some (u, v))
        | going d ↦ each_start left edges (start + 1) d.visited d.rec_stack
      ]
  if seen then skip else enter

unfoldable pub detect_cycle : CapabilityContentionGraph → Run (Option (ℕ × ℕ))
detect_cycle ccg =
    each_start ccg.task_count ccg.edges 0 (replicate max_tasks false) (replicate max_tasks false)
