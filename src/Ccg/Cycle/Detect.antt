-- ===== src/Ccg/Cycle/Detect.antt =====
-- The search finds a back edge exactly if there is a cycle.
use ferret_os.Common.{
  ℕ, zero, suc, ◌+◌, ◌≤◌, ◌<◌, ◌≡◌, refl, sym, ◌∙◌, Bool, true, false, Option, none, some, List, [],
  ◌∷◌, length, get_or, set, replicate, ltb, ◌==◌, ok, arith, Bool-cases, inl, inr, ◌⊎◌, length-set,
  get_or-set, length-replicate, get_or-replicate, get_elem?-eq-get_or,
}
use ferret_os.Task.{max_tasks}
use ferret_os.Reach.{Reach}
use ferret_os.Reach.Search.{marked, marked-le, marked-set}
use ferret_os.Ccg.{Edges, CapabilityContentionGraph, edge}
use ferret_os.Ccg.Build.{IsSquare}
use ferret_os.Ccg.Cycle.{Dfs, Round, found, going, dfs_loop, each_start, detect_cycle, rounds}
use ferret_os.Ccg.Cycle.Safe.{no_cycle, on, cost, Safe, Entries, IsDfs}
use ferret_os.Ccg.Cycle.Rounds.{measure, Moves, closes, steps, dfs_round-Moves}

-- What `detect_cycle` answers for `n` nodes: an edge of a cycle, or that no node is on a cycle.
pub data Answer (edges : Edges) (n : ℕ) : Option (ℕ × ℕ) → Type 0 where
  cyclic : (u w : ℕ) → edge edges u w ≡ true → Reach (edge edges) w u → Answer edges n (some (u, w))
  acyclic :
      ((u w : ℕ) → u < n → edge edges u w ≡ true → ¬ Reach (edge edges) w u) → Answer edges n none

get_or_past {ℓ} : {A : Type ℓ} (xs : List A) (i : ℕ) (d : A) → length xs ≤ i → get_or xs i d ≡ d
get_or_past [] i d h = refl
get_or_past (x ∷ xs) zero d h = absurd (omega arith)
get_or_past (x ∷ xs) (suc i) d h = get_or_past xs i d (omega arith)

pub edge_in_range :
    (edges : Edges) → IsSquare edges → (u v : ℕ) → edge edges u v ≡ true → (u < 16) × (v < 16)
edge_in_range edges square u v h =
    let rows = square.rows in
    elim (Bool-cases (ltb u 16)) [
      | inl low ↦
          let wide = square.columns u (ground arith) in
          elim (Bool-cases (ltb v 16)) [
            | inl lt ↦ (ground arith, ground arith)
            | inr ge ↦ let no = get_or_past (get_or edges u []) v false (ground arith) in absurd cc
          ]
      | inr out ↦
          let no : get_or (get_or edges u []) v false ≡ false =
            rw (get_or_past edges u [] (ground arith)) refl in
          absurd cc
    ]

module _ (edges : Edges) (columns : (u v : ℕ) → edge edges u v ≡ true → v < 16) where
  -- What the search from a node gives: a back edge, or that all on the stack are safe.
  data Ends (stack : List (ℕ × ℕ)) : Round → Type 0 where
    cycle : (u w : ℕ) → edge edges u w ≡ true → Reach (edge edges) w u → Ends stack (found u w)
    over :
        (d : Dfs)
        → IsDfs (edge edges) [] d.visited d.rec_stack
        → ((x : ℕ) → on x stack ≡ true → Safe (edge edges) x)
        → Ends stack (going d)

  dfs_loop-Ends :
      (fuel : ℕ) (stack : List (ℕ × ℕ)) (visited rec_stack : List Bool)
      → IsDfs (edge edges) stack visited rec_stack
      → measure stack visited < fuel
      → (r : Round) × (dfs_loop fuel edges stack visited rec_stack ≡ ok r) × Ends stack r
  unfolding dfs_loop on
  dfs_loop-Ends fuel [] visited rec_stack is enough = (_, refl, over _ is (λ x h. absurd cc))
  dfs_loop-Ends zero ((v, k) ∷ below) visited rec_stack is enough = absurd (omega arith)
  dfs_loop-Ends (suc fuel) ((v, k) ∷ below) visited rec_stack is enough =
      let (r, runs, moves) = dfs_round-Moves edges columns v k below visited rec_stack is in
      rw runs (go moves (λ d is' less. dfs_loop-Ends fuel d.stack d.visited d.rec_stack is' less))
    where
      go :
          {r : Round}
          → Moves edges columns ((v, k) ∷ below) visited r
          → ((d : Dfs)
              → IsDfs (edge edges) d.stack d.visited d.rec_stack
              → measure d.stack d.visited < fuel
              → (r' : Round) × (dfs_loop fuel edges d.stack d.visited d.rec_stack ≡ ok r')
                × Ends d.stack r')
          → (r' : Round) × ((elim r [
            | found u w ↦ ok (found u w)
            | going d ↦ dfs_loop fuel edges d.stack d.visited d.rec_stack
          ])
              ≡ ok r')
            × Ends ((v, k) ∷ below) r'
      go (closes u w h p) rest = (found u w, refl, cycle u w h p)
      go (steps d is' less left) rest =
          let (r', runs', ends) = rest d is' (omega arith) in (r', runs', finish ends left)
        where
          finish :
              {st : List (ℕ × ℕ)} {r' : Round}
              → Ends st r'
              → ((x : ℕ) → on x ((v, k) ∷ below) ≡ true → Safe (edge edges) x ⊎ (on x st ≡ true))
              → Ends ((v, k) ∷ below) r'
          finish (cycle u w h p) left = cycle u w h p
          finish (over d is'' all_safe) left =
              over d is'' (λ x h. elim (left x h) [ inl y ↦ y | inr y ↦ all_safe x y ])

  started :
      (start : ℕ) (visited rec_stack : List Bool)
      → IsDfs (edge edges) [] visited rec_stack
      → start < 16
      → get_or visited start true ≡ false
      → IsDfs (edge edges) ((start, 0) ∷ []) (set visited start true) (set rec_stack start true)
  unfolding Entries on
  started start visited rec_stack is small fresh =
      let visited_size = is.visited_size in
      let rec_size = is.rec_size in
      let room = is.room in
      let grown = marked-set visited start fresh in
      record {
        visited_size = length-set visited start true ∙ visited_size;
        rec_size = length-set rec_stack start true ∙ rec_size;
        entries =
            (omega arith, small, refl, (λ s lt h. absurd (omega arith)), (λ s q. absurd cc), tt);
        marks = λ x lt.
            get_or-set rec_stack start x true false (omega arith)
            ∙ (let m = is.marks x lt in ground arith);
        seen = λ x h. get_or-set visited start x true true (omega arith) ∙ ground arith;
        left_behind = λ x lt was h.
            is.left_behind x lt
              (sym (get_or-set visited start x true true (omega arith) ∙ ground arith) ∙ was) refl;
        room = omega arith;
      }

  each_start-Answer :
      (left start : ℕ) (visited rec_stack : List Bool)
      → IsDfs (edge edges) [] visited rec_stack
      → start + left ≤ 16
      → ((s : ℕ) → s < start → Safe (edge edges) s)
      → (a : Option (ℕ × ℕ)) × (each_start left edges start visited rec_stack ≡ ok a)
        × Answer edges (start + left) a
  unfolding each_start on cost measure
  each_start-Answer zero start visited rec_stack is small past =
      (none, refl, acyclic (λ u w lt h p. no_cycle (edge edges) (past u (omega arith)) w h p))
  each_start-Answer (suc left) start visited rec_stack is small past =
      let visited_size = is.visited_size in
      let at = get_elem?-eq-get_or visited start true (omega arith) in
      let same : start + 1 + left ≡ start + suc left = omega arith in
      elim (Bool-cases (get_or visited start true)) [
        | inl old ↦
            rw (at, old)
              (rw same at (
                each_start-Answer left (start + 1) visited rec_stack is (omega arith)
                  (up_to (is.left_behind start (omega arith) old refl))))
        | inr fresh ↦
            let grown = marked-set visited start fresh in
            let few : marked (set visited start true) ≤ 16 =
              omega (arith, marked-le (set visited start true), length-set visited start true) in
            let (r, runs, ends) =
              dfs_loop-Ends rounds ((start, 0) ∷ []) (set visited start true)
                (set rec_stack start true) (started start visited rec_stack is (omega arith) fresh)
                (omega arith) in
            rw (at, fresh, runs)
              (go ends (λ d is' mine. rw same at (
                each_start-Answer left (start + 1) d.visited d.rec_stack is' (omega arith)
                  (up_to mine))))
      ]
    where
      up_to : Safe (edge edges) start → (s : ℕ) → s < start + 1 → Safe (edge edges) s
      up_to mine s lt = elim (Bool-cases (start == s)) [
        | inl q ↦ let e : start ≡ s = ground arith in rw (sym e) mine
        | inr q ↦ past s (ground arith)
      ]

      go :
          {r : Round}
          → Ends ((start, 0) ∷ []) r
          → ((d : Dfs)
              → IsDfs (edge edges) [] d.visited d.rec_stack
              → Safe (edge edges) start
              → (a : Option (ℕ × ℕ)) × (each_start left edges (start + 1) d.visited d.rec_stack
                  ≡ ok a)
                × Answer edges (start + suc left) a)
          → (a : Option (ℕ × ℕ)) × ((elim r [
            | found u v ↦ ok (some (u, v))
            | going d ↦ each_start left edges (start + 1) d.visited d.rec_stack
          ])
              ≡ ok a)
            × Answer edges (start + suc left) a
      go (cycle u w h p) rest = (some (u, w), refl, cyclic u w h p)
      go (over d is' all_safe) rest = rest d is' (all_safe start (ground arith))

-- The search for a cycle ends without a panic. It returns an edge only if
-- the edge is on a cycle, and none only if no counted node is on a cycle.
pub detect_cycle-Answer :
    (ccg : CapabilityContentionGraph)
    → IsSquare ccg.edges
    → ccg.task_count ≤ max_tasks
    → (a : Option (ℕ × ℕ)) × (detect_cycle ccg ≡ ok a) × Answer ccg.edges ccg.task_count a
unfolding detect_cycle on
detect_cycle-Answer ccg square small =
    let same : 0 + ccg.task_count ≡ ccg.task_count = omega arith in
    rw same at (
      each_start-Answer ccg.edges (λ u v h. (edge_in_range ccg.edges square u v h).1) ccg.task_count
        0 (replicate max_tasks false) (replicate max_tasks false)
        (record {
          visited_size = length-replicate max_tasks false;
          rec_size = length-replicate max_tasks false;
          entries = unfold Entries in tt;
          marks = λ x lt. get_or-replicate max_tasks x false false ∙ ground arith;
          seen = λ x h. absurd cc;
          left_behind = λ x lt was h.
              let none_seen = get_or-replicate max_tasks x false true in absurd (ground arith);
          room = omega arith;
        })
        (omega arith) (λ s lt. absurd (omega arith)))
