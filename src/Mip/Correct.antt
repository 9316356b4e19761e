-- ===== src/Mip/Correct.antt =====
-- `compute_mip_values` does not panic, terminates, and gives each task the highest base priority
-- that it reaches.
use mathlib.Core.List.{append_assoc}
use ferret_os.Common.{
  ℕ, zero, suc, ◌+◌, ◌<◌, ◌≡◌, refl, sym, Bool, true, false, ◌||◌, Option, none, some, List, [],
  ◌∷◌, ◌++◌, length, get_elem?, set, max, ltb, ◌==◌, ok, arith, length-append, length-set,
  replicate, get_elem?-append_right, get_or-replicate,
}
use ferret_os.Task.{TaskDescriptor, Slots, max_tasks}
use ferret_os.Ccg.{CapabilityContentionGraph, has_edge}
use ferret_os.Ccg.Build.{IsSquare}
use ferret_os.Ccg.Populated.{slot}
use ferret_os.Reach.{IsHighest, expand, search_loop}
use ferret_os.Reach.Search.{elem, expand-small, marked, marked-set}
use ferret_os.Reach.Highest.{search-IsHighest}
use ferret_os.Mip.{raise, bfs_loop, mip_of}
use ferret_os.Mip.Array.{state, Fills, follows, read_slot, visit_successors_ok}

abbrev pub priority_of : Slots → ℕ → ℕ
priority_of reg v = raise (slot reg v) 0

raise-max : (o : Option TaskDescriptor) (best : ℕ) → raise o best ≡ max best (raise o 0)
unfolding raise
raise-max none best = omega arith
raise-max (some t) best = omega arith

first_fill :
    (src : ℕ)
    → src < max_tasks
    → Fills [] (src ∷ []) (replicate 15 0) (set (replicate max_tasks false) src true)
unfolding marked
first_fill src h = record {
  whole = refl;
  size = length-set (replicate max_tasks false) src true;
  count = sym (
      marked-set (replicate max_tasks false) src
        (ground (arith, get_or-replicate max_tasks src false true)));
}

module _ (ccg : CapabilityContentionGraph) (reg : Slots) (square : IsSquare ccg.edges)
    (size : length reg ≡ max_tasks) where
  queue_head :
      (done todo pad : List ℕ) (cur : ℕ)
      → get_elem? (done ++ (cur ∷ todo ++ pad)) (length done) ≡ some cur
  queue_head done todo pad cur =
      let e : length done + 0 ≡ length done = omega arith in
      rw e at (get_elem?-append_right done (cur ∷ todo ++ pad) 0)

  -- The head moves on.
  advance :
      (done todo pad : List ℕ) (cur : ℕ) (seen : List Bool)
      → state done (cur ∷ todo) pad seen ≡ state (done ++ cur ∷ []) todo pad seen
  advance done todo pad cur seen = λ i. record {
    queue = sym (append_assoc done (cur ∷ []) (todo ++ pad)) i;
    tail = counted i;
    visited = seen;
  }
    where
      counted : length done + suc (length todo) ≡ length (done ++ cur ∷ []) + length todo
      counted = omega (arith, length-append done (cur ∷ []))

  bfs_loop_ok :
      (fuel : ℕ) (done todo pad : List ℕ) (seen : List Bool) (best m : ℕ)
      → Fills done todo pad seen
      → ((v : ℕ) → elem v todo ≡ true → v < max_tasks)
      → search_loop (follows ccg reg) fuel (priority_of reg) max_tasks todo seen best ≡ ok m
      → bfs_loop (suc fuel) ccg reg (length done) (state done todo pad seen) best ≡ ok m
  unfolding bfs_loop search_loop elem
  bfs_loop_ok zero done [] pad seen best m f small h =
      let stop : ltb (length done) (length done + 0) ≡ false = ground arith in rw stop h
  bfs_loop_ok (suc fuel) done [] pad seen best m f small h =
      let stop : ltb (length done) (length done + 0) ≡ false = ground arith in rw stop h
  bfs_loop_ok zero done (cur ∷ todo) pad seen best m f small h = cc
  bfs_loop_ok (suc fuel) done (cur ∷ todo) pad seen best m f small h =
      let go : ltb (length done) (length done + suc (length todo)) ≡ true = ground arith in
      let hc : cur < max_tasks = small cur (ground arith) in
      let wider = length-append done (cur ∷ []) in
      let next : length done + 1 ≡ length (done ++ cur ∷ []) = omega (arith, wider) in
      let f' : Fills (done ++ cur ∷ []) todo pad seen = record {
        whole = omega (arith, f.whole, wider);
        size = f.size;
        count = omega (arith, f.count, wider);
      } in
      let (pad', runs, f'') =
        visit_successors_ok ccg reg square size cur hc max_tasks 0 (done ++ cur ∷ []) todo pad seen
          refl f' in
      let r = expand (follows ccg reg) cur max_tasks 0 todo seen in
      let rest =
        bfs_loop_ok fuel (done ++ cur ∷ []) r.0 pad' r.1 (max best (priority_of reg cur)) m f''
          (expand-small (follows ccg reg) max_tasks cur todo seen (λ v q. small v (later v q))) h in
      rw
        (
          go,
          queue_head done todo pad cur,
          read_slot ccg reg square size cur hc,
          advance done todo pad cur seen,
          runs,
          next,
          raise-max (slot reg cur) best,
        )
        rest
    where
      later : (v : ℕ) → elem v todo ≡ true → (cur == v || elem v todo) ≡ true
      later v q = ground arith

  -- The search from a task ends with the highest base priority that it reaches.
  pub mip_of_ok :
      (src : ℕ) (t : TaskDescriptor)
      → slot reg src ≡ some t
      → src < max_tasks
      → (m : ℕ) × (mip_of ccg reg src t ≡ ok m)
        × IsHighest (follows ccg reg) (priority_of reg) src m
  unfolding mip_of elem
  mip_of_ok src t e h =
      let (m, runs, best) =
        search-IsHighest (follows ccg reg) (priority_of reg) max_tasks bounded src h in
      let own : priority_of reg src ≡ t.priority = unfold raise in rw e (omega arith) in
      (
        m,
        rw own at (
            bfs_loop_ok (max_tasks + 1) [] (src ∷ []) (replicate 15 0)
              (set (replicate max_tasks false) src true) (priority_of reg src) m (first_fill src h)
              (λ v q. ground arith) runs),
        best,
      )
    where
      bounded : (u v : ℕ) → follows ccg reg u v ≡ true → v < max_tasks
      bounded u v q = unfold has_edge in ground arith
