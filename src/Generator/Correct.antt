-- ===== src/Generator/Correct.antt =====
-- The build script's search does not panic, terminates, and gives each task the highest base priority
-- that it reaches.
use mathlib.Core.Path.{subst}
use ferret_os.Common.{
  ℕ, zero, suc, ◌+◌, ◌≤◌, ◌<◌, ◌≡◌, refl, ap, ◌∙◌, Bool, true, false, not, ◌&&◌, Option, none, some,
  List, [], ◌∷◌, ◌++◌, length, get_elem?, get_or, set, max, map, ◌==◌, ok, arith, length-set,
  replicate, length-replicate, length-map, get_or-set, get_elem?-eq-get_or, get_elem?_of_ge,
  Bool-cases, inl, inr, dec_lt,
}
use ferret_os.Reach.{IsHighest, expand, search_loop}
use ferret_os.Reach.Search.{elem, expand-small, Expanded, expand-Expanded}
use ferret_os.Reach.Highest.{search-IsHighest}
use ferret_os.Generator.{
  TaskConfig, needs, edge_row, edge_rows, build_edges, visit_row, bfs, each_source, compute_mip,
}

-- The base priority of task `v`, and whether task `u` holds what another task `v` requires.
unfoldable pub priority_at : List TaskConfig → ℕ → ℕ
priority_at tasks v = elim (get_elem? tasks v) [ none ↦ 0 | some t ↦ t.priority ]

unfoldable pub pair_needs : Option TaskConfig → Option TaskConfig → Bool
pair_needs (some tl) (some th) = needs tl th
pair_needs (some tl) none = false
pair_needs none o = false

unfoldable pub wants : List TaskConfig → ℕ → ℕ → Bool
wants tasks u v = not (u == v) && pair_needs (get_elem? tasks u) (get_elem? tasks v)

wants-lt : (tasks : List TaskConfig) (u v : ℕ) → wants tasks u v ≡ true → v < length tasks
unfolding wants pair_needs
wants-lt tasks u v q = elim (dec_lt v (length tasks)) [
  | yes lt ↦ lt
  | no ge ↦ absurd (
      beyond (get_elem? tasks u) (get_elem? tasks v) (get_elem?_of_ge tasks v (omega arith))
        (ground arith))
]
  where
    beyond : (a b : Option TaskConfig) → b ≡ none → pair_needs a b ≡ true → ⊥
    beyond none none e q = cc
    beyond (some tl) none e q = cc
    beyond a (some th) e q = cc

length-edge_row :
    (l h : ℕ) (tl : TaskConfig) (ths : List TaskConfig) → length (edge_row l tl h ths) ≡ length ths
unfolding edge_row
length-edge_row l h tl [] = refl
length-edge_row l h tl (th ∷ ths) = ap suc (length-edge_row l (h + 1) tl ths)

get_or-edge_row :
    (l h : ℕ) (tl : TaskConfig) (ths : List TaskConfig) (k : ℕ)
    → get_or (edge_row l tl h ths) k false
      ≡ (not (l == (h + k)) && pair_needs (some tl) (get_elem? ths k))
unfolding edge_row pair_needs
get_or-edge_row l h tl [] k = ground arith
get_or-edge_row l h tl (th ∷ ths) zero = let e : h + 0 ≡ h = omega arith in rw e refl
get_or-edge_row l h tl (th ∷ ths) (suc k) =
    let e : h + suc k ≡ h + 1 + k = omega arith in rw e (get_or-edge_row l (h + 1) tl ths k)

get_elem?-edge_rows :
    (tasks : List TaskConfig) (l : ℕ) (tls : List TaskConfig) (k : ℕ) (tl : TaskConfig)
    → get_elem? tls k ≡ some tl
    → get_elem? (edge_rows tasks l tls) k ≡ some (edge_row (l + k) tl 0 tasks)
unfolding edge_rows
get_elem?-edge_rows tasks l [] k tl h = cc
get_elem?-edge_rows tasks l (t ∷ tls) zero tl h =
    let e : l + 0 ≡ l = omega arith in let q : t ≡ tl = ground arith in rw (e, q) refl
get_elem?-edge_rows tasks l (t ∷ tls) (suc k) tl h =
    let e : l + suc k ≡ l + 1 + k = omega arith in
    rw e (get_elem?-edge_rows tasks (l + 1) tls k tl h)

-- A round over the row of `cur` is a round of the search.
visit_row-expand :
    (e : ℕ → ℕ → Bool) (cur : ℕ) (row : List Bool) (j : ℕ) (queue : List ℕ) (visited : List Bool)
    → ((k : ℕ) → k < length row → get_or row k false ≡ e cur (j + k))
    → j + length row ≤ length visited
    → visit_row row j queue visited ≡ ok (expand e cur (length row) j queue visited)
unfolding visit_row expand
visit_row-expand e cur [] j queue visited h w = refl
visit_row-expand e cur (b ∷ row) j queue visited h w =
    let first : b ≡ e cur j = (let q : j + 0 ≡ j = omega arith in rw q at (h 0 (omega arith))) in
    let read = get_elem?-eq-get_or visited j true (omega arith) in
    let later : (k : ℕ) → k < length row → get_or row k false ≡ e cur (j + 1 + k) =
      λ k lt. shift k (h (suc k) (omega arith)) in
    elim (Bool-cases (e cur j)) [
      | inr off ↦
          let b_off : b ≡ false = first ∙ off in
          rw (b_off, off, expand)
            (visit_row-expand e cur row (j + 1) queue visited later (omega arith))
      | inl on ↦
          let b_on : b ≡ true = first ∙ on in
          elim (Bool-cases (get_or visited j true)) [
            | inl seen ↦
                rw (b_on, on, read, seen, expand)
                  (visit_row-expand e cur row (j + 1) queue visited later (omega arith))
            | inr fresh ↦
                rw (b_on, on, read, fresh, expand)
                  (visit_row-expand e cur row (j + 1) (queue ++ j ∷ []) (set visited j true) later
                    (omega (arith, length-set visited j true)))
          ]
    ]
  where
    shift :
        (k : ℕ) → get_or row k false ≡ e cur (j + suc k) → get_or row k false ≡ e cur (j + 1 + k)
    shift k q = let same : j + suc k ≡ j + 1 + k = omega arith in rw same at q

pub inside :
    {A : Type 0} (xs : List A) (i : ℕ) → i < length xs → (a : A) × (get_elem? xs i ≡ some a)
inside [] i h = absurd (omega arith)
inside (x ∷ xs) zero h = (x, refl)
inside (x ∷ xs) (suc i) h = inside xs i (omega arith)

module _ (tasks : List TaskConfig) where
  abbrev n : ℕ
  n = length tasks

  priority_of_task :
      (cur : ℕ) (t : TaskConfig) → get_elem? tasks cur ≡ some t → priority_at tasks cur ≡ t.priority
  unfolding priority_at
  priority_of_task cur t at = rw (at, priority_at) refl

  row_agrees :
      (cur : ℕ) (t : TaskConfig) (k : ℕ)
      → get_elem? tasks cur ≡ some t
      → get_or (edge_row cur t 0 tasks) k false ≡ wants tasks cur (0 + k)
  unfolding wants
  row_agrees cur t k at =
      let q : 0 + k ≡ k = omega arith in get_or-edge_row cur 0 t tasks k ∙ rw (at, q) refl

  round_ok :
      (cur : ℕ) (t : TaskConfig) (queue : List ℕ) (visited : List Bool)
      → get_elem? tasks cur ≡ some t
      → length visited ≡ n
      → (row : List Bool) × (length row ≡ n)
        × (get_elem? (build_edges tasks) cur ≡ some row)
        × (visit_row row 0 queue visited ≡ ok (expand (wants tasks) cur n 0 queue visited))
  unfolding build_edges
  round_ok cur t queue visited at s =
      let row = edge_row cur t 0 tasks in
      let wide = length-edge_row cur 0 t tasks in
      let q : 0 + cur ≡ cur = omega arith in
      (
        row,
        wide,
        rw q at (get_elem?-edge_rows tasks 0 tasks cur t at),
        rw wide at (
            visit_row-expand (wants tasks) cur row 0 queue visited (λ k lt. row_agrees cur t k at)
              (omega arith)),
      )

  bfs_ok :
      (fuel : ℕ) (queue : List ℕ) (visited : List Bool) (best m : ℕ)
      → length visited ≡ n
      → ((v : ℕ) → elem v queue ≡ true → v < n)
      → search_loop (wants tasks) fuel (priority_at tasks) n queue visited best ≡ ok m
      → bfs fuel tasks (build_edges tasks) queue visited best ≡ ok m
  unfolding bfs search_loop elem
  bfs_ok zero [] visited best m s small h = h
  bfs_ok (suc fuel) [] visited best m s small h = h
  bfs_ok zero (cur ∷ queue) visited best m s small h = cc
  bfs_ok (suc fuel) (cur ∷ queue) visited best m s small h =
      let (t, at) = inside tasks cur (small cur (ground arith)) in
      let (row, wide, at_row, round) = round_ok cur t queue visited at s in
      let rest =
        bfs_ok fuel (expand (wants tasks) cur n 0 queue visited).0
          (expand (wants tasks) cur n 0 queue visited).1 (max best (priority_at tasks cur)) m
          (omega (arith, s, Expanded.size (expand-Expanded (wants tasks) cur n 0 queue visited)))
          (expand-small (wants tasks) n cur queue visited (λ v q. small v (ground arith))) h in
      rw (at, at_row, round) (rw (priority_of_task cur t at) at rest)

  source_ok :
      (src : ℕ)
      → src < n
      → (m : ℕ) × (bfs
            (n + 1)
            tasks
            (build_edges tasks)
            (src ∷ [])
            (set (replicate n false) src true)
            (priority_at tasks src)
          ≡ ok m)
        × IsHighest (wants tasks) (priority_at tasks) src m
  unfolding elem
  source_ok src h =
      let (m, runs, best) =
        search-IsHighest (wants tasks) (priority_at tasks) n (wants-lt tasks) src h in
      (
        m,
        bfs_ok (n + 1) (src ∷ []) (set (replicate n false) src true) (priority_at tasks src) m
            (length-set (replicate n false) src true ∙ length-replicate n false)
            (λ v q. ground arith) runs,
        best,
      )

  each_source_ok :
      (left src : ℕ) (mip : List ℕ)
      → src + left ≡ n
      → length mip ≡ n
      → ((i : ℕ) → src ≤ i → i < n → get_or mip i 0 ≡ priority_at tasks i)
      → (mip' : List ℕ) × (each_source tasks (build_edges tasks) left src mip ≡ ok mip')
        × (length mip' ≡ n)
        × ((i : ℕ) → i < src → get_or mip' i 0 ≡ get_or mip i 0)
        × ((i : ℕ)
            → src ≤ i
            → i < n
            → IsHighest (wants tasks) (priority_at tasks) i (get_or mip' i 0))
  unfolding each_source
  each_source_ok zero src mip e s own =
      (mip, refl, s, (λ i q. refl), λ i ge lt. absurd (omega arith))
  each_source_ok (suc left) src mip e s own =
      let (m, runs, best) = source_ok src (omega arith) in
      let at = λ (i : ℕ). get_or-set mip src i m 0 (omega arith) in
      let s₁ = length-set mip src m in
      let (mip', rest, s', kept, all) =
        each_source_ok left (src + 1) (set mip src m) (omega arith) (omega arith)
          (λ i ge lt. let was = own i (omega arith) lt in ground (arith, at i)) in
      let read : get_elem? mip src ≡ some (priority_at tasks src) =
        get_elem?-eq-get_or mip src 0 (omega arith)
        ∙ ap some (own src (omega arith) (omega arith)) in
      (
        mip',
        rw (read, runs) rest,
        s',
        (λ i q. let low = kept i (omega arith) in ground (arith, at i)),
        (λ i ge lt. elim (dec_lt src i) [
          | yes later ↦ all i (omega arith) lt
          | no first ↦
              let same : src ≡ i = omega arith in
              let value : get_or mip' src 0 ≡ m =
                (let k = kept src (omega arith) in ground (arith, at src)) in
              subst (λ k. IsHighest (wants tasks) (priority_at tasks) k (get_or mip' k 0)) same
                (rw value best)
        ]),
      )

  priorities :
      (i : ℕ) → i < n → get_or (map (λ t. TaskConfig.priority t) tasks) i 0 ≡ priority_at tasks i
  unfolding priority_at
  priorities i h = go tasks i h
    where
      go :
          (ts : List TaskConfig) (i : ℕ)
          → i < length ts
          → get_or (map (λ t. TaskConfig.priority t) ts) i 0 ≡ priority_at ts i
      go [] i h = absurd (omega arith)
      go (t ∷ ts) zero h = refl
      go (t ∷ ts) (suc i) h = go ts i (omega arith)

  pub compute_mip_correct :
      (mip : List ℕ) × (compute_mip tasks ≡ ok mip)
      × (length mip ≡ n)
      × ((i : ℕ) → i < n → IsHighest (wants tasks) (priority_at tasks) i (get_or mip i 0))
  unfolding compute_mip
  compute_mip_correct =
      let (mip, runs, s, kept, all) =
        each_source_ok n 0 (map (λ t. TaskConfig.priority t) tasks) (omega arith)
          (length-map (λ t. TaskConfig.priority t) tasks) (λ i ge lt. priorities i lt) in
      (mip, runs, s, λ i lt. all i (omega arith) lt)
