-- ===== src/Reach/Highest.antt =====
-- The search ends with the highest `p` of a node that is reached.
use native.Mathlib.Decide.{dec_le}
use mathlib.Core.Path.{subst}
use ferret_os.Common.{
  ℕ, zero, suc, ◌+◌, ◌≤◌, ◌<◌, ◌≡◌, refl, Bool, true, false, ◌||◌, List, [], ◌∷◌, length, get_or,
  set, max, ok, arith, Bool-cases, inl, inr, replicate, length-replicate, length-set, get_or-set,
  get_or-replicate,
}
use ferret_os.Reach.{Reach, here, along, IsHighest, expand, search_loop}
use ferret_os.Reach.Search.{elem, marked, marked-le, marked-set, expand-Expanded}

module _ (e : ℕ → ℕ → Bool) (p : ℕ → ℕ) (n : ℕ) (bounded : (u v : ℕ) → e u v ≡ true → v < n)
    (src : ℕ) where
  -- `done` was taken from the queue, `todo` is in it, and both are exactly what is marked.
  record Searching (done todo : List ℕ) (seen : List Bool) (best : ℕ) : Type 0 where
    size : length seen ≡ n
    marks : (v : ℕ) → v < n → get_or seen v true ≡ (elem v done || elem v todo)
    small : (v : ℕ) → elem v todo ≡ true → v < n
    reached : (v : ℕ) → (elem v done || elem v todo) ≡ true → Reach e src v
    closed : (u v : ℕ) → elem u done ≡ true → e u v ≡ true → (elem v done || elem v todo) ≡ true
    start : (elem src done || elem src todo) ≡ true
    count : length done + length todo ≡ marked seen
    bounds : (u : ℕ) → elem u done ≡ true → p u ≤ best
    node : ℕ
    node_reached : Reach e src node
    attained : best ≡ p node

  all_done :
      (done : List ℕ) (seen : List Bool) (best : ℕ)
      → Searching done [] seen best
      → (v : ℕ) → Reach e src v
      → elem v done ≡ true
  unfolding elem
  all_done done seen best s v here = ground (arith, s.start)
  all_done done seen best s v (along {u} r h) =
      ground (arith, s.closed u v (all_done done seen best s u r) h)

  finished :
      (done : List ℕ) (seen : List Bool) (best : ℕ)
      → Searching done [] seen best
      → IsHighest e p src best
  finished done seen best s = record {
    bounds = λ v r. s.bounds v (all_done done seen best s v r);
    node = s.node;
    reached = s.node_reached;
    attained = s.attained;
  }

  best_node :
      (best : ℕ)
      → ((u : ℕ) × Reach e src u × (best ≡ p u))
      → (cur : ℕ) → Reach e src cur
      → (u : ℕ) × Reach e src u × (max best (p cur) ≡ p u)
  best_node best (u, r, q) cur r' = elim (dec_le (p cur) best) [
    | yes h ↦ (u, r, omega arith)
    | no h ↦ (cur, r', omega arith)
  ]

  Searching-round :
      (done : List ℕ) (cur : ℕ) (todo : List ℕ) (seen : List Bool) (best : ℕ)
      → Searching done (cur ∷ todo) seen best
      → let r = expand e cur n 0 todo seen in Searching (cur ∷ done) r.0 r.1 (max best (p cur))
  unfolding elem
  Searching-round done cur todo seen best s =
      let r = expand-Expanded e cur n 0 todo seen in
      let at_cur : Reach e src cur = s.reached cur (ground arith) in
      let (node, node_reached, attained) =
        best_node best (s.node, s.node_reached, s.attained) cur at_cur in
      record {
        size = omega (arith, r.size, s.size);
        marks = λ v h. ground (arith, r.marks v, r.queue v, s.marks v, s.size);
        small = λ v h. ground (arith, r.queue v, s.small v, bounded cur v);
        reached = λ v h. elim (Bool-cases (elem v done || elem v (cur ∷ todo))) [
          | inl old ↦ s.reached v old
          | inr new ↦ along at_cur (ground (arith, r.queue v))
        ];
        closed = λ u v h g. ground (arith, r.queue v, s.closed u v, s.marks v, bounded u v);
        start = ground (arith, r.queue src, s.start);
        count = omega (arith, r.count, s.count);
        bounds = λ u h. ground (arith, s.bounds u);
        node = node;
        node_reached = node_reached;
        attained = attained;
      }

  search_loop-IsHighest :
      (fuel : ℕ) (done todo : List ℕ) (seen : List Bool) (best : ℕ)
      → n < fuel + length done
      → Searching done todo seen best
      → (m : ℕ) × (search_loop e fuel p n todo seen best ≡ ok m) × IsHighest e p src m
  unfolding search_loop
  search_loop-IsHighest zero done [] seen best f s = (best, refl, finished done seen best s)
  search_loop-IsHighest (suc fuel) done [] seen best f s = (best, refl, finished done seen best s)
  search_loop-IsHighest zero done (cur ∷ todo) seen best f s =
      absurd (omega (arith, s.count, marked-le seen, s.size))
  search_loop-IsHighest (suc fuel) done (cur ∷ todo) seen best f s =
      let r = expand e cur n 0 todo seen in
      search_loop-IsHighest fuel (cur ∷ done) r.0 r.1 (max best (p cur)) (omega arith)
        (Searching-round done cur todo seen best s)

  abbrev pub first_seen : List Bool
  first_seen = set (replicate n false) src true

  marked-replicate : (k : ℕ) → marked (replicate k false) ≡ 0
  unfolding marked
  marked-replicate zero = refl
  marked-replicate (suc k) = marked-replicate k

  -- The search from `src` returns the highest `p` that `src` reaches; `n + 1` rounds suffice.
  pub search-IsHighest :
      src < n
      → (m : ℕ) × (search_loop e (n + 1) p n (src ∷ []) first_seen (p src) ≡ ok m)
        × IsHighest e p src m
  unfolding elem
  search-IsHighest h =
      let fresh : get_or (replicate n false) src true ≡ false =
        ground (arith, get_or-replicate n src false true) in
      let size = length-replicate n false in
      search_loop-IsHighest (n + 1) [] (src ∷ []) first_seen (p src) (omega arith) (record {
        size = omega (arith, size, length-set (replicate n false) src true);
        marks = λ v q. ground (
          arith,
          size,
          get_or-set (replicate n false) src v true true,
          get_or-replicate n v false true,
        );
        small = λ v q. ground arith;
        reached = λ v q. let q' : src ≡ v = ground arith in subst (λ w. Reach e src w) q' here;
        closed = λ u v q. cc;
        start = ground arith;
        count = omega (arith, marked-set (replicate n false) src fresh, marked-replicate n);
        bounds = λ u q. cc;
        node = src;
        node_reached = here;
        attained = refl;
      })
