-- ===== src/Reach/Search.antt =====
-- The search visits exactly the nodes that are reached, and terminates.
use ferret_os.Common.{
  ℕ, zero, suc, ◌+◌, ◌≤◌, ◌<◌, ◌≡◌, refl, Bool, true, false, not, ◌&&◌, ◌||◌, List, [], ◌∷◌, ◌++◌,
  length, get_or, set, arith, leb, ltb, ◌==◌, length-set, get_or-set, length-append, Bool-cases,
  inl, inr,
}
use ferret_os.Reach.{expand}

unfoldable pub elem : ℕ → List ℕ → Bool
elem v [] = false
elem v (x ∷ xs) = x == v || elem v xs

pub elem-append : (v : ℕ) (xs ys : List ℕ) → elem v (xs ++ ys) ≡ (elem v xs || elem v ys)
unfolding elem
elem-append v [] ys = refl
elem-append v (x ∷ xs) ys = ground (arith, elem-append v xs ys)

-- The number of marked nodes.
unfoldable pub marked : List Bool → ℕ
marked [] = 0
marked (true ∷ seen) = suc (marked seen)
marked (false ∷ seen) = marked seen

pub marked-le : (seen : List Bool) → marked seen ≤ length seen
unfolding marked
marked-le [] = omega arith
marked-le (true ∷ seen) = omega (arith, marked-le seen)
marked-le (false ∷ seen) = omega (arith, marked-le seen)

pub marked-set :
    (seen : List Bool) (j : ℕ)
    → get_or seen j true ≡ false
    → marked (set seen j true) ≡ marked seen + 1
unfolding marked
marked-set [] j h = cc
marked-set (true ∷ seen) zero h = cc
marked-set (false ∷ seen) zero h = omega arith
marked-set (true ∷ seen) (suc j) h = omega (arith, marked-set seen j h)
marked-set (false ∷ seen) (suc j) h = omega (arith, marked-set seen j h)

pub in_array : (seen : List Bool) (j : ℕ) → get_or seen j true ≡ false → j < length seen
in_array [] j h = cc
in_array (x ∷ seen) zero h = omega arith
in_array (x ∷ seen) (suc j) h = omega (arith, in_array seen j h)

-- Whether `v` is among the `left` nodes from `j` on.
abbrev pub within : ℕ → ℕ → ℕ → Bool
within j left v = leb j v && ltb v (j + left)

module _ (e : ℕ → ℕ → Bool) where
  -- What a round does: it marks the successors, queues the new ones, and keeps the count.
  pub record Expanded (cur left j : ℕ) (todo : List ℕ) (seen : List Bool) (r : List ℕ × List Bool)
      : Type 0 where
    pub size : length r.1 ≡ length seen
    pub marks :
        (v : ℕ)
        → v < length seen
        → get_or r.1 v true ≡ (get_or seen v true || (within j left v && e cur v))
    pub queue :
        (v : ℕ)
        → elem v r.0 ≡ (elem v todo || (not (get_or seen v true) && (within j left v && e cur v)))
    pub count : marked r.1 + length todo ≡ marked seen + length r.0

  pub expand-Expanded :
      (cur left j : ℕ) (todo : List ℕ) (seen : List Bool)
      → Expanded cur left j todo seen (expand e cur left j todo seen)
  unfolding expand elem
  expand-Expanded cur zero j todo seen = record {
    size = refl;
    marks = λ v h. ground arith;
    queue = λ v. ground arith;
    count = omega arith;
  }
  expand-Expanded cur (suc left) j todo seen =
      elim (Bool-cases (e cur j && not (get_or seen j true))) [
        | inl f ↦
            let free : get_or seen j true ≡ false = ground arith in
            let r = expand-Expanded cur left (j + 1) (todo ++ j ∷ []) (set seen j true) in
            let low = in_array seen j free in
            rw f (record {
              size = omega (arith, r.size, length-set seen j true);
              marks = λ v h.
                  ground
                    (arith, r.marks v, length-set seen j true, get_or-set seen j v true true low);
              queue = λ v. ground (
                arith,
                r.queue v,
                elem-append v todo (j ∷ []),
                get_or-set seen j v true true low,
              );
              count = omega (arith, r.count, marked-set seen j free, length-append todo (j ∷ []));
            })
        | inr f ↦
            let r = expand-Expanded cur left (j + 1) todo seen in
            rw f (record {
              size = r.size;
              marks = λ v h. ground (arith, r.marks v);
              queue = λ v. ground (arith, r.queue v);
              count = r.count;
            })
      ]

-- New nodes are in range.
pub expand-small :
    (e : ℕ → ℕ → Bool) (n cur : ℕ) (todo : List ℕ) (seen : List Bool)
    → ((v : ℕ) → elem v todo ≡ true → v < n)
    → (v : ℕ) → elem v (expand e cur n 0 todo seen).0 ≡ true
    → v < n
expand-small e n cur todo seen small v q = elim (Bool-cases (elem v todo)) [
  | inl old ↦ small v old
  | inr new ↦
      go (elem v todo) (elem v (expand e cur n 0 todo seen).0) (get_or seen v true) (e cur v) new q
        (Expanded.queue (expand-Expanded e cur n 0 todo seen) v)
]
  where
    go :
        (old now done next : Bool)
        → old ≡ false
        → now ≡ true
        → now ≡ (old || (not done && (within 0 n v && next)))
        → v < n
    go old now done next a b c = ground arith
