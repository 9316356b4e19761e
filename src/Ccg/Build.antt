-- ===== src/Ccg/Build.antt =====
-- `CapabilityContentionGraph::build` does not panic, and has exactly the edges of contention.
use ferret_os.Common.{
  ℕ, suc, ◌+◌, ◌-◌, ◌<◌, ◌≡◌, refl, true, false, ◌&&◌, ◌||◌, some, List, [], ◌∷◌, length, get_elem?,
  get_or, set, replicate, ltb, ◌==◌, if◌then◌else◌, ok, ◌>>=◌, arith, length-set, get_or-set,
  get_elem?-eq-get_or, Bool-cases, inl, inr, lt→ltb, get_or-replicate, lt_of_get_elem?,
}
use ferret_os.Task.{TaskDescriptor, Slots, max_tasks}
use ferret_os.Ccg.{
  Edges, CapabilityContentionGraph, populated, task_at, contends, set_edge, link_waiters,
  link_holders, no_edges, build, edge, has_edge,
}
use ferret_os.Ccg.Populated.{
  contended, elem, populated_slot, populated_position, populated-elem, contended_of_tasks,
  contended_tasks,
}

-- 16 rows of 16.
pub record IsSquare (e : Edges) : Type 0 where
  pub rows : length e ≡ max_tasks
  pub columns : (i : ℕ) → i < max_tasks → length (get_or e i []) ≡ max_tasks

set_edge_ok :
    (e : Edges) (l h : ℕ)
    → IsSquare e
    → l < max_tasks
    → h < max_tasks
    → (e' : Edges) × (set_edge e l h ≡ ok e')
      × IsSquare e'
      × ((i j : ℕ) → edge e' i j ≡ (edge e i j || (l == i && h == j)))
unfolding set_edge
set_edge_ok e l h s hl hh =
    let row = get_or e l [] in
    let wide = s.columns l hl in
    let tall = s.rows in
    let e' = set e l (set row h true) in
    let was = λ (i : ℕ). get_or-set e l i (set row h true) [] (omega arith) in
    (
      e',
      rw (get_elem?-eq-get_or e l [] (omega arith), lt→ltb h (length row) (omega arith)),
      record {
        rows = omega (arith, length-set e l (set row h true));
        columns = λ i p. rw (was i) (elim (Bool-cases (l == i)) [
          | inl q ↦ rw (q, length-set) wide
          | inr q ↦ rw q (s.columns i p)
        ]);
      },
      λ i j. rw (was i) (elim (Bool-cases (l == i)) [
        | inl q ↦ ground (arith, get_or-set row h j true false)
        | inr q ↦ ground arith
      ]),
    )

task_at_slot :
    (slots : Slots) (i : ℕ) (t : TaskDescriptor)
    → get_elem? slots i ≡ some (some t)
    → task_at slots i ≡ ok t
unfolding task_at
task_at_slot slots i t h = rw h

-- `indices` lists slots that hold tasks, each once.
record IsListing (slots : Slots) (indices : List ℕ) : Type 0 where
  holds_task :
      (k a : ℕ)
      → get_elem? indices k ≡ some a
      → (t : TaskDescriptor) × (get_elem? slots a ≡ some (some t)) × (a < max_tasks)
  position :
      (j k a b : ℕ)
      → get_elem? indices j ≡ some a
      → get_elem? indices k ≡ some b
      → (j == k) ≡ (a == b)

module _ (slots : Slots) (indices : List ℕ) (v : IsListing slots indices) where
  module _ (l : TaskDescriptor) (l_idx li : ℕ) (at_li : get_elem? indices li ≡ some l_idx)
      (in_slot : get_elem? slots l_idx ≡ some (some l)) (hl : l_idx < max_tasks) where
    -- One round of the inner loop.
    visit :
        (h hi : ℕ) (e : Edges)
        → get_elem? indices hi ≡ some h
        → IsSquare e
        → (e' : Edges) × ((if li == hi
              then ok e
              else (task_at slots h >>= λ t. if contends l t then set_edge e l_idx h else ok e))
            ≡ ok e')
          × IsSquare e'
          × ((i j : ℕ)
              → edge e' i j ≡ (edge e i j || (l_idx == i && (h == j && contended slots l_idx h))))
    visit h hi e here s =
        let (t, there, hh) = v.holds_task hi h here in
        let same = v.position li hi l_idx h at_li here in
        elim (Bool-cases (l_idx == h)) [
          | inl q ↦
              let off : contended slots l_idx h ≡ false = unfold contended in rw q in
              (e, rw (same, q), s, λ i j. ground arith)
          | inr q ↦
              let on : contended slots l_idx h ≡ contends l t =
                ground (arith, contended_of_tasks slots l_idx h l t in_slot there) in
              elim (Bool-cases (contends l t)) [
                | inl c ↦
                    let (e', runs, s', marked) = set_edge_ok e l_idx h s hl hh in
                    (
                      e',
                      rw (same, q, task_at_slot slots h t there, c) runs,
                      s',
                      λ i j. ground (arith, marked i j),
                    )
                | inr c ↦ (e, rw (same, q, task_at_slot slots h t there, c), s, λ i j. ground arith)
              ]
        ]

    link_waiters_ok :
        (hs : List ℕ) (hi : ℕ) (e : Edges)
        → ((k a : ℕ) → get_elem? hs k ≡ some a → get_elem? indices (hi + k) ≡ some a)
        → IsSquare e
        → (e' : Edges) × (link_waiters slots l l_idx li hs hi e ≡ ok e')
          × IsSquare e'
          × ((i j : ℕ)
              → edge e' i j
                ≡ (edge e i j || (l_idx == i && (elem j hs && contended slots l_idx j))))
    unfolding link_waiters elem
    link_waiters_ok [] hi e sub s = (e, refl, s, λ i j. ground arith)
    link_waiters_ok (h ∷ hs) hi e sub s =
        let (e₁, runs₁, s₁, marked₁) =
          visit h hi e (let q : hi + 0 ≡ hi = omega arith in rw q at (sub 0 h refl)) s in
        let (e₂, runs₂, s₂, marked₂) =
          link_waiters_ok hs (hi + 1) e₁
            (λ k a g. let q : hi + 1 + k ≡ hi + suc k = omega arith in rw q (sub (suc k) a g)) s₁ in
        (e₂, rw runs₁ runs₂, s₂, λ i j. ground (arith, marked₁ i j, marked₂ i j))

  link_holders_ok :
      (ls : List ℕ) (li : ℕ) (e : Edges)
      → ((k a : ℕ) → get_elem? ls k ≡ some a → get_elem? indices (li + k) ≡ some a)
      → IsSquare e
      → (e' : Edges) × (link_holders slots indices ls li e ≡ ok e')
        × IsSquare e'
        × ((i j : ℕ)
            → edge e' i j ≡ (edge e i j || (elem i ls && (elem j indices && contended slots i j))))
  unfolding link_holders elem
  link_holders_ok [] li e sub s = (e, refl, s, λ i j. ground arith)
  link_holders_ok (l_idx ∷ ls) li e sub s =
      let here : get_elem? indices li ≡ some l_idx =
        (let q : li + 0 ≡ li = omega arith in rw q at (sub 0 l_idx refl)) in
      let (l, there, hl) = v.holds_task li l_idx here in
      let (e₁, runs₁, s₁, marked₁) =
        link_waiters_ok l l_idx li here there hl indices 0 e
          (λ k a g. let q : 0 + k ≡ k = omega arith in rw q g) s in
      let (e₂, runs₂, s₂, marked₂) =
        link_holders_ok ls (li + 1) e₁
          (λ k a g. let q : li + 1 + k ≡ li + suc k = omega arith in rw q (sub (suc k) a g)) s₁ in
      (
        e₂,
        rw (task_at_slot slots l_idx l there, runs₁) runs₂,
        s₂,
        λ i j. ground (arith, marked₁ i j, marked₂ i j),
      )

no_edges-IsSquare : IsSquare no_edges
unfolding no_edges
no_edges-IsSquare = record {
  rows = refl;
  columns = λ i p.
      rw (get_or-replicate max_tasks i (replicate max_tasks false) [], lt→ltb i max_tasks p) refl;
}

no_edges-edge : (i j : ℕ) → edge no_edges i j ≡ false
unfolding no_edges
no_edges-edge i j =
    rw (get_or-replicate max_tasks i (replicate max_tasks false) [])
      (elim (Bool-cases (ltb i max_tasks)) [
        | inl e ↦ rw (e, get_or-replicate max_tasks j false false) (ground arith)
        | inr e ↦ rw e
      ])

populated-IsListing :
    (slots : Slots) → length slots ≡ max_tasks → IsListing slots (populated slots 0)
populated-IsListing slots size = record {
  holds_task = λ k a g.
      let (t, e, ge, lt) = populated_slot slots 0 k a g in
      let q : a - 0 ≡ a = omega arith in (t, rw q at e, omega arith);
  position = populated_position slots;
}

contended-elem :
    (slots : Slots) (i j : ℕ)
    → contended slots i j ≡ true
    → (elem i (populated slots 0) ≡ true) × (elem j (populated slots 0) ≡ true)
contended-elem slots i j h =
    let (l, w, at_i, at_j, c, ne) = contended_tasks slots i j h in
    let zero_plus : (k : ℕ) → 0 + k ≡ k = λ k. omega arith in
    (
      rw (zero_plus i) at (populated-elem slots 0 i l at_i),
      rw (zero_plus j) at (populated-elem slots 0 j w at_j),
    )

contended_lt :
    (slots : Slots) (i j : ℕ)
    → length slots ≡ max_tasks
    → contended slots i j ≡ true
    → (i < max_tasks) × (j < max_tasks)
contended_lt slots i j size h =
    let (l, w, at_i, at_j, c, ne) = contended_tasks slots i j h in
    (omega (arith, lt_of_get_elem? slots i at_i), omega (arith, lt_of_get_elem? slots j at_j))

-- The graph of a registry has an edge from `i` to `j` exactly if `i` holds exclusively a peripheral
-- that another slot `j` requires; building it does not panic.
pub build-has_edge :
    (slots : Slots)
    → length slots ≡ max_tasks
    → (ccg : CapabilityContentionGraph) × (build slots ≡ ok ccg)
      × ((i j : ℕ) → has_edge ccg i j ≡ contended slots i j)
      × (ccg.task_count ≡ length (populated slots 0))
      × IsSquare ccg.edges
unfolding build has_edge
build-has_edge slots size =
    let indices = populated slots 0 in
    let (e, runs, square, marked) =
      link_holders_ok slots indices (populated-IsListing slots size) indices 0 no_edges
        (λ k a g. let q : 0 + k ≡ k = omega arith in rw q g) no_edges-IsSquare in
    (
      record { edges = e; task_count = length indices },
      rw runs,
      (λ i j. agree e i j (marked i j)),
      refl,
      square,
    )
  where
    agree :
        (e : Edges) (i j : ℕ)
        → edge e i j ≡ (
            edge no_edges i j
            || (elem i (populated slots 0) && (elem j (populated slots 0) && contended slots i j)))
        → (ltb i max_tasks && (ltb j max_tasks && edge e i j)) ≡ contended slots i j
    agree e i j marked = elim (Bool-cases (contended slots i j)) [
      | inl c ↦
          ground
            (arith, no_edges-edge i j, contended-elem slots i j c, contended_lt slots i j size c)
      | inr c ↦ ground (arith, no_edges-edge i j)
    ]
