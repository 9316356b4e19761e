-- ===== src/Generator.antt =====
-- kernel/build/ccg_gen.rs: the build script's computation of MaxInheritedPriority.
pub mod Correct
pub mod Agree
mod Tests
use Prim.Native.Nat.{bit_and}
use ferret_os.Common.{
  ℕ, zero, suc, ◌+◌, Bool, true, false, not, ◌&&◌, List, [], ◌∷◌, ◌++◌, length, get_elem?, get_or,
  set, replicate, max, map, ◌==◌, if◌then◌else◌, Run, ok, out_of_fuel, ◌>>=◌, or_panic, Option,
  none, some,
}

pub record TaskConfig : Type 0 where
  pub priority : ℕ
  pub exclusive_cap_mask : ℕ
  pub required_cap_mask : ℕ

-- `(tl.exclusive_cap_mask & th.required_cap_mask) != 0`
unfoldable pub needs : TaskConfig → TaskConfig → Bool
needs tl th = not (bit_and tl.exclusive_cap_mask th.required_cap_mask == 0)

-- Row `l` of the matrix, from column `h` on.
unfoldable pub edge_row : ℕ → TaskConfig → ℕ → List TaskConfig → List Bool
edge_row l tl h [] = []
edge_row l tl h (th ∷ ths) = (not (l == h) && needs tl th) ∷ edge_row l tl (h + 1) ths

-- The rows from `l` on.
unfoldable pub edge_rows : List TaskConfig → ℕ → List TaskConfig → List (List Bool)
edge_rows tasks l [] = []
edge_rows tasks l (tl ∷ tls) = edge_row l tl 0 tasks ∷ edge_rows tasks (l + 1) tls

unfoldable pub build_edges : List TaskConfig → List (List Bool)
build_edges tasks = edge_rows tasks 0 tasks

-- The loop over `edges[cur].iter().enumerate()`: `row` is what is left of it, from `succ` on.
unfoldable pub visit_row : List Bool → ℕ → List ℕ → List Bool → Run (List ℕ × List Bool)
visit_row [] succ queue visited = ok (queue, visited)
visit_row (is_edge ∷ row) succ queue visited = do
  seen ← if is_edge then or_panic (get_elem? visited succ) else ok true
  if not seen
      then visit_row row (succ + 1) (queue ++ succ ∷ []) (set visited succ true)
      else visit_row row (succ + 1) queue visited

unfoldable pub bfs : ℕ → List TaskConfig → List (List Bool) → List ℕ → List Bool → ℕ → Run ℕ
bfs fuel tasks edges [] visited best = ok best
bfs zero tasks edges (cur ∷ queue) visited best = out_of_fuel
bfs (suc fuel) tasks edges (cur ∷ queue) visited best = do
  t ← or_panic (get_elem? tasks cur)
  row ← or_panic (get_elem? edges cur)
  (queue', visited') ← visit_row row 0 queue visited
  bfs fuel tasks edges queue' visited' (max best t.priority)

-- `for src in 0..n`, with `left` to go from `src` on. A node is queued once: n + 1 rounds are enough.
unfoldable pub each_source : List TaskConfig → List (List Bool) → ℕ → ℕ → List ℕ → Run (List ℕ)
each_source tasks edges zero src mip = ok mip
each_source tasks edges (suc left) src mip = do
  own ← or_panic (get_elem? mip src)
  m ←
      bfs (length tasks + 1) tasks edges (src ∷ []) (set (replicate (length tasks) false) src true)
        own
  each_source tasks edges left (src + 1) (set mip src m)

unfoldable pub compute_mip : List TaskConfig → Run (List ℕ)
compute_mip tasks =
    each_source tasks (build_edges tasks) (length tasks) 0 (map (λ t. TaskConfig.priority t) tasks)

-- The array that `render_ccg_constants` writes out: `max_tasks` zeros, overwritten from the front.
unfoldable pub padded : ℕ → List ℕ → List ℕ
padded zero mip = []
padded (suc left) [] = 0 ∷ padded left []
padded (suc left) (m ∷ mip) = m ∷ padded left mip
