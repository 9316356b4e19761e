-- ===== src/Mip/Array.antt =====
-- The array queue of the search behaves as a list: `done` was taken out, `todo` is in it, and `pad`
-- is the part not yet used.
use mathlib.Core.List.{append_assoc}
use ferret_os.Common.{
  ℕ, zero, suc, ◌+◌, ◌<◌, ◌≡◌, refl, Bool, true, false, not, ◌&&◌, none, some, List, [], ◌∷◌, ◌++◌,
  length, get_elem?, get_or, set, if◌then◌else◌, ok, ◌>>=◌, or_panic, arith, length-append,
  length-set, set-append_middle, get_elem?-eq-get_or, Bool-cases, inl, inr, lt→ltb,
}
use ferret_os.Task.{Slots, max_tasks}
use ferret_os.Ccg.{CapabilityContentionGraph, has_edge}
use ferret_os.Ccg.Build.{IsSquare}
use ferret_os.Ccg.Populated.{slot}
use ferret_os.Reach.{expand}
use ferret_os.Reach.Search.{marked, marked-le, marked-set}
use ferret_os.Mip.{Bfs, read_edge, is_some, enqueue, visit_successors}

abbrev pub state : List ℕ → List ℕ → List ℕ → List Bool → Bfs
state done todo pad seen = record {
  queue = done ++ (todo ++ pad);
  tail = length done + length todo;
  visited = seen;
}

-- Every used place of the queue is a marked node.
pub record Fills (done todo pad : List ℕ) (seen : List Bool) : Type 0 where
  pub whole : length done + length todo + length pad ≡ max_tasks
  pub size : length seen ≡ max_tasks
  pub count : length done + length todo ≡ marked seen

set_next :
    (done todo pad : List ℕ) (x j : ℕ)
    → set (done ++ (todo ++ x ∷ pad)) (length done + length todo) j
      ≡ done ++ ((todo ++ j ∷ []) ++ pad)
set_next done todo pad x j =
    rw
      (
        append_assoc todo (j ∷ []) pad,
        ← append_assoc done todo (x ∷ pad),
        ← append_assoc done todo (j ∷ pad),
      )
      (set-append_middle (done ++ todo) pad x j (length done + length todo)
        (omega (arith, length-append done todo)))

length_queue :
    (done todo pad : List ℕ)
    → length (done ++ (todo ++ pad)) ≡ length done + length todo + length pad
length_queue done todo pad = omega (arith, length-append done (todo ++ pad), length-append todo pad)

-- There is room for a node that is not marked.
enqueue_ok :
    (done todo pad : List ℕ) (seen : List Bool) (j : ℕ)
    → Fills done todo pad seen
    → get_or seen j true ≡ false
    → (pad' : List ℕ) × (enqueue (state done todo pad seen) j
        ≡ ok (state done (todo ++ j ∷ []) pad' (set seen j true)))
      × Fills done (todo ++ j ∷ []) pad' (set seen j true)
unfolding enqueue
enqueue_ok done todo [] seen j f free = absurd (
    omega (
      arith,
      f.whole,
      f.size,
      f.count,
      marked-set seen j free,
      marked-le (set seen j true),
      length-set seen j true,
    ))
enqueue_ok done todo (x ∷ pad) seen j f free =
    let size = length-append todo (j ∷ []) in
    let next : length done + length (todo ++ j ∷ []) ≡ length done + length todo + 1 =
      omega (arith, size) in
    (
      pad,
      rw (lt→ltb _ _ room, set_next done todo pad x j, next),
      record {
        whole = omega (arith, f.whole, size);
        size = omega (arith, f.size, length-set seen j true);
        count = omega (arith, f.count, size, marked-set seen j free);
      },
    )
  where
    room : length done + length todo < length (done ++ (todo ++ x ∷ pad))
    room = omega (arith, length_queue done todo (x ∷ pad))

-- An edge to a slot that holds a task.
abbrev pub follows : CapabilityContentionGraph → Slots → ℕ → ℕ → Bool
follows ccg reg u v = has_edge ccg u v && is_some (slot reg v)

module _ (ccg : CapabilityContentionGraph) (reg : Slots) (square : IsSquare ccg.edges)
    (size : length reg ≡ max_tasks) where
  read_edge_ok :
      (u v : ℕ) → u < max_tasks → v < max_tasks → read_edge ccg u v ≡ ok (has_edge ccg u v)
  unfolding read_edge has_edge
  read_edge_ok u v hu hv =
      let rows = square.rows in
      let wide = square.columns u hu in
      rw (
        get_elem?-eq-get_or ccg.edges u [] (omega arith),
        get_elem?-eq-get_or (get_or ccg.edges u []) v false (omega arith),
        lt→ltb u max_tasks hu,
        lt→ltb v max_tasks hv,
      )

  pub read_slot : (v : ℕ) → v < max_tasks → get_elem? reg v ≡ some (slot reg v)
  unfolding slot
  read_slot v h = rw (get_elem?-eq-get_or reg v none (omega arith), slot)

  abbrev found : ℕ → List Bool → ℕ → Bool
  found cur seen j = follows ccg reg cur j && not (get_or seen j true)

  meet_ok :
      (cur j : ℕ) (hj : j < max_tasks) (done todo pad : List ℕ) (seen : List Bool)
      → Fills done todo pad seen
      → (pad' : List ℕ) × ((if has_edge ccg cur j
            then (or_panic (get_elem? seen j) >>= λ b. or_panic (get_elem? reg j) >>= λ t.
                if not b && is_some t
                then enqueue (state done todo pad seen) j
                else ok (state done todo pad seen))
            else ok (state done todo pad seen))
          ≡ ok (
              state done
                (if found cur seen j then todo ++ j ∷ [] else todo)
                pad'
                (if found cur seen j then set seen j true else seen)))
        × Fills done
            (if found cur seen j then todo ++ j ∷ [] else todo)
            pad'
            (if found cur seen j then set seen j true else seen)
  meet_ok cur j hj done todo pad seen f =
      let sized = f.size in
      let read = get_elem?-eq-get_or seen j true (omega arith) in
      elim (Bool-cases (has_edge ccg cur j)) [
        | inr e ↦ rw e (pad, refl, f)
        | inl e ↦ elim (Bool-cases (get_or seen j true)) [
          | inl b ↦ elim (Bool-cases (is_some (slot reg j))) [
            | inl t ↦ rw (e, read, b, read_slot j hj, t) (pad, refl, f)
            | inr t ↦ rw (e, read, b, read_slot j hj, t) (pad, refl, f)
          ]
          | inr b ↦ elim (Bool-cases (is_some (slot reg j))) [
            | inl t ↦ rw (e, read, b, read_slot j hj, t) (enqueue_ok done todo pad seen j f b)
            | inr t ↦ rw (e, read, b, read_slot j hj, t) (pad, refl, f)
          ]
        ]
      ]

  -- A round over the array is a round over the lists, and does not panic.
  pub visit_successors_ok :
      (cur : ℕ) (hc : cur < max_tasks) (left j : ℕ) (done todo pad : List ℕ) (seen : List Bool)
      → j + left ≡ max_tasks
      → Fills done todo pad seen
      → let r = expand (follows ccg reg) cur left j todo seen in
        (pad' : List ℕ) × (visit_successors ccg reg cur left j (state done todo pad seen)
          ≡ ok (state done r.0 pad' r.1))
        × Fills done r.0 pad' r.1
  unfolding visit_successors expand
  visit_successors_ok cur hc zero j done todo pad seen e f = (pad, refl, f)
  visit_successors_ok cur hc (suc left) j done todo pad seen e f =
      let (pad', runs, f') = meet_ok cur j (omega arith) done todo pad seen f in
      rw (read_edge_ok cur j hc (omega arith), runs)
        (visit_successors_ok cur hc left (j + 1) done
          (if found cur seen j then todo ++ j ∷ [] else todo) pad'
          (if found cur seen j then set seen j true else seen) (omega arith) f')
