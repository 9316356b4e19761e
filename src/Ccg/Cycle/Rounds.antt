-- ===== src/Ccg/Cycle/Rounds.antt =====
-- A round of the search for a cycle, branch by branch.
use ferret_os.Common.{
  ℕ, ◌+◌, ◌-◌, ◌*◌, ◌≤◌, ◌<◌, ◌≡◌, refl, sym, ap, ◌∙◌, Bool, true, false, Option, none, some, List,
  ◌∷◌, length, get_or, set, ltb, ◌==◌, ok, arith, Bool-cases, inl, inr, ◌⊎◌, length-set, get_or-set,
}
use ferret_os.Reach.{Reach}
use ferret_os.Reach.Search.{marked, marked-le, marked-set}
use ferret_os.Ccg.{Edges, edge}
use ferret_os.Ccg.Cycle.{Dfs, Round, found, going, take_edge, go_on, dfs_round}
use ferret_os.Ccg.Cycle.Next.{Next, no_more, first, next_edge-Next}
use ferret_os.Ccg.Cycle.Safe.{on, cost, Safe, safe, Entries, Entries-leave, IsDfs, path}

-- An upper bound of the rounds to come.
unfoldable pub measure : List (ℕ × ℕ) → List Bool → ℕ
measure stack visited = 17 * (16 - marked visited) + cost stack

module _ (edges : Edges) (columns : (u v : ℕ) → edge edges u v ≡ true → v < 16) where
  -- What a round gives: an edge back to a node that leads to its start, or a state that is nearer to the
  -- end, in which the nodes that have left the stack are safe.
  pub data Moves (stack : List (ℕ × ℕ)) (visited : List Bool) : Round → Type 0 where
    closes :
        (u w : ℕ) → edge edges u w ≡ true → Reach (edge edges) w u → Moves stack visited (found u w)
    steps :
        (d : Dfs)
        → IsDfs (edge edges) d.stack d.visited d.rec_stack
        → measure d.stack d.visited < measure stack visited
        → ((x : ℕ) → on x stack ≡ true → Safe (edge edges) x ⊎ (on x d.stack ≡ true))
        → Moves stack visited (going d)

  -- The node's row is finished: it is safe, and the search goes back.
  back :
      (v k : ℕ) (below : List (ℕ × ℕ)) (visited rec_stack : List Bool)
      → IsDfs (edge edges) ((v, k) ∷ below) visited rec_stack
      → ((s : ℕ) → k ≤ s → s < k + (16 - k) → edge edges v s ≡ false)
      → Moves
          ((v, k) ∷ below)
          visited
          (going (record { stack = below; visited = visited; rec_stack = set rec_stack v false }))
  unfolding Entries on cost measure
  back v k below visited rec_stack is none_left =
      let (few, small, once, looked, entered, es) = is.entries in
      let visited_size = is.visited_size in
      let rec_size = is.rec_size in
      let room = is.room in
      let after : (s : ℕ) → edge edges v s ≡ true → Safe (edge edges) s = λ s h.
        elim (Bool-cases (ltb s k)) [
          | inl lt ↦ elim (looked s (ground arith) h) [ inl w ↦ w | inr q ↦ absurd cc ]
          | inr ge ↦
              let c = columns v s h in
              let no = none_left s (ground arith) (ground arith) in absurd cc
        ] in
      let mine = safe after in
      let gone : (x : ℕ)
          → on x ((v, k) ∷ below) ≡ true
          → Safe (edge edges) x ⊎ (on x below ≡ true) =
        λ x h. elim (Bool-cases (v == x)) [
          | inl q ↦ let same : v ≡ x = ground arith in inl (rw (sym same) mine)
          | inr q ↦ inr (rw q at h)
        ] in
      steps _
        (record {
          visited_size = visited_size;
          rec_size = length-set rec_stack v false ∙ rec_size;
          entries = Entries-leave (edge edges) v below mine es;
          marks = λ x lt.
              get_or-set rec_stack v x false false (omega arith) ∙ elim (Bool-cases (v == x)) [
                | inl q ↦ let same : v ≡ x = ground arith in rw (q, sym same) (sym once)
                | inr q ↦ let m = is.marks x lt in rw q (rw q at m)
              ];
          seen = λ x h. is.seen x (ground arith);
          left_behind = λ x lt was h. elim (Bool-cases (v == x)) [
            | inl q ↦ let same : v ≡ x = ground arith in rw (sym same) mine
            | inr q ↦ is.left_behind x lt was (ground arith)
          ];
          room = omega arith;
        })
        (omega arith) gone

  -- The search goes to a new node.
  enter :
      (v k w : ℕ) (below : List (ℕ × ℕ)) (visited rec_stack : List Bool)
      → IsDfs (edge edges) ((v, k) ∷ below) visited rec_stack
      → k ≤ w
      → edge edges v w ≡ true
      → ((t : ℕ) → k ≤ t → t < w → edge edges v t ≡ false)
      → get_or visited w true ≡ false
      → (length ((v, w + 1) ∷ below) < 16)
        × Moves ((v, k) ∷ below) visited (
            going (record {
              stack = (w, 0) ∷ (v, w + 1) ∷ below;
              visited = set visited w true;
              rec_stack = set rec_stack w true;
            }))
  unfolding Entries on cost measure
  enter v k w below visited rec_stack is lo edge_to before fresh =
      let (few, small, once, looked, entered, es) = is.entries in
      let visited_size = is.visited_size in
      let rec_size = is.rec_size in
      let room = is.room in
      let in_row = columns v w edge_to in
      let grown = marked-set visited w fresh in
      let cap = marked-le (set visited w true) in
      let same_size = length-set visited w true in
      let off : on w ((v, k) ∷ below) ≡ false = elim (Bool-cases (on w ((v, k) ∷ below))) [
        | inl h ↦ let was = is.seen w h in absurd cc
        | inr h ↦ h
      ] in
      let looked' : (s : ℕ)
          → s < w + 1
          → edge edges v s ≡ true
          → Safe (edge edges) s ⊎ (some w ≡ some s) =
        λ s lt h. elim (Bool-cases (ltb s k)) [
          | inl l ↦ elim (looked s (ground arith) h) [ inl x ↦ inl x | inr q ↦ absurd cc ]
          | inr ge ↦ elim (Bool-cases (w == s)) [
            | inl q ↦ let same : w ≡ s = ground arith in inr (ap some same)
            | inr q ↦ let no = before s (ground arith) (ground arith) in absurd cc
          ]
        ] in
      let below_it : (s : ℕ) → some w ≡ some s → edge edges v s ≡ true =
        λ s q. let same : w ≡ s = cc in rw (sym same) edge_to in
      (
        omega arith,
        steps _
            (record {
              visited_size = same_size ∙ visited_size;
              rec_size = length-set rec_stack w true ∙ rec_size;
              entries = (
                omega arith,
                in_row,
                off,
                (λ s lt h. absurd (omega arith)),
                (λ s q. absurd cc),
                (omega arith, small, once, looked', below_it, es),
              );
              marks = λ x lt.
                  get_or-set rec_stack w x true false (omega arith)
                  ∙ (let m = is.marks x lt in ground arith);
              seen = λ x h.
                  get_or-set visited w x true true (omega arith)
                  ∙ (let was = is.seen x in ground arith);
              left_behind = λ x lt was h.
                  is.left_behind x lt
                    (sym (get_or-set visited w x true true (omega arith) ∙ ground arith) ∙ was)
                    (ground arith);
              room = omega arith;
            })
            (omega arith) (λ x h. inr (ground arith)),
      )

  -- The search stays at the node, whose successor was left before.
  stay :
      (v k w : ℕ) (below : List (ℕ × ℕ)) (visited rec_stack : List Bool)
      → IsDfs (edge edges) ((v, k) ∷ below) visited rec_stack
      → k ≤ w
      → edge edges v w ≡ true
      → ((t : ℕ) → k ≤ t → t < w → edge edges v t ≡ false)
      → get_or visited w true ≡ true
      → get_or rec_stack w false ≡ false
      → Moves
          ((v, k) ∷ below)
          visited
          (going (record { stack = (v, w + 1) ∷ below; visited = visited; rec_stack = rec_stack }))
  unfolding Entries on cost measure
  stay v k w below visited rec_stack is lo edge_to before old out =
      let (few, small, once, looked, entered, es) = is.entries in
      let in_row = columns v w edge_to in
      let passed = is.left_behind w in_row old (sym (is.marks w in_row) ∙ out) in
      let looked' : (s : ℕ)
          → s < w + 1
          → edge edges v s ≡ true
          → Safe (edge edges) s ⊎ (none ≡ some s) =
        λ s lt h. elim (Bool-cases (ltb s k)) [
          | inl l ↦ looked s (ground arith) h
          | inr ge ↦ elim (Bool-cases (w == s)) [
            | inl q ↦ let same : w ≡ s = ground arith in inl (rw (sym same) passed)
            | inr q ↦ let no = before s (ground arith) (ground arith) in absurd cc
          ]
        ] in
      steps _
        (record {
          visited_size = is.visited_size;
          rec_size = is.rec_size;
          entries = (omega arith, small, once, looked', entered, es);
          marks = is.marks;
          seen = is.seen;
          left_behind = is.left_behind;
          room = is.room;
        })
        (omega arith) (λ x h. inr h)

  -- A round does not panic.
  pub dfs_round-Moves :
      (v k : ℕ) (below : List (ℕ × ℕ)) (visited rec_stack : List Bool)
      → IsDfs (edge edges) ((v, k) ∷ below) visited rec_stack
      → (r : Round) × (dfs_round edges v k below visited rec_stack ≡ ok r)
        × Moves ((v, k) ∷ below) visited r
  unfolding dfs_round take_edge go_on
  dfs_round-Moves v k below visited rec_stack is = by_next (next_edge-Next edges v (16 - k) k)
    where
      take :
          (w : ℕ)
          → k ≤ w
          → edge edges v w ≡ true
          → ((t : ℕ) → k ≤ t → t < w → edge edges v t ≡ false)
          → (r : Round) × (take_edge v w below visited rec_stack ≡ ok r)
            × Moves ((v, k) ∷ below) visited r
      take w lo h before = elim (Bool-cases (get_or rec_stack w false)) [
        | inl closed ↦ (
          found v w,
          rw closed refl,
          closes v w h (
              path (edge edges) w v k none below is.entries
                (sym (is.marks w (columns v w h)) ∙ closed)),
        )
        | inr out ↦ elim (Bool-cases (get_or visited w true)) [
          | inl old ↦
              (_, rw (out, old) refl, stay v k w below visited rec_stack is lo h before old out)
          | inr fresh ↦
              let (room, moves) = enter v k w below visited rec_stack is lo h before fresh in
              let fits : ltb (length ((v, w + 1) ∷ below)) 16 ≡ true = ground arith in
              (_, rw (out, fresh, fits) refl, moves)
        ]
      ]

      by_next :
          {o : Option ℕ}
          → Next edges v (16 - k) k o
          → (r : Round) × (go_on v below visited rec_stack o ≡ ok r)
            × Moves ((v, k) ∷ below) visited r
      by_next (no_more none_left) = (_, refl, back v k below visited rec_stack is none_left)
      by_next (first w lo hi h before) = take w lo h before
