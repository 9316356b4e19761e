-- ===== src/Ccg/Cycle/Safe.antt =====
-- The state between two rounds of the search for a cycle.
use ferret_os.Common.{
  ℕ, ◌+◌, ◌-◌, ◌≤◌, ◌<◌, ◌≡◌, refl, sym, Bool, true, false, ◌||◌, Option, none, some, List, [], ◌∷◌,
  length, get_or, ◌==◌, arith, Bool-cases, inl, inr, ◌⊎◌,
}
use ferret_os.Reach.{Reach, here, along}
use ferret_os.Reach.Search.{marked}

unfoldable pub on : ℕ → List (ℕ × ℕ) → Bool
on v [] = false
on v ((u, k) ∷ stack) = u == v || on v stack

-- What the entries of the stack may still cost.
unfoldable pub cost : List (ℕ × ℕ) → ℕ
cost [] = 0
cost ((u, k) ∷ stack) = 17 - k + cost stack

some_injective : {a b : ℕ} → some a ≡ some b → a ≡ b
some_injective q = cc

module _ (e : ℕ → ℕ → Bool) where
  -- No path from the node comes to a cycle.
  pub data Safe : ℕ → Type 0 where
    safe : {u : ℕ} → ((w : ℕ) → e u w ≡ true → Safe w) → Safe u

  -- Each entry is entered along an edge from the one below it, and the successors that it has looked at
  -- are safe, but for the entry `above` it.
  unfoldable pub Entries : Option ℕ → List (ℕ × ℕ) → Type 0
  unfolding on
  Entries above [] = Unit {0}
  Entries above ((v, k) ∷ below) =
      (k ≤ 16)
      × (v < 16)
      × (on v below ≡ false)
      × ((s : ℕ) → s < k → e v s ≡ true → Safe s ⊎ (above ≡ some s))
      × ((s : ℕ) → above ≡ some s → e v s ≡ true)
      × Entries (some v) below

  pub record IsDfs (stack : List (ℕ × ℕ)) (visited rec_stack : List Bool) : Type 0 where
    pub visited_size : length visited ≡ 16
    pub rec_size : length rec_stack ≡ 16
    pub entries : Entries none stack
    pub marks : (v : ℕ) → v < 16 → get_or rec_stack v false ≡ on v stack
    pub seen : (v : ℕ) → on v stack ≡ true → get_or visited v true ≡ true
    pub left_behind : (v : ℕ) → v < 16 → get_or visited v true ≡ true → on v stack ≡ false → Safe v
    pub room : length stack ≤ marked visited

  -- When the entry above is left, it is safe.
  pub Entries-leave :
      (v : ℕ) (stack : List (ℕ × ℕ)) → Safe v → Entries (some v) stack → Entries none stack
  unfolding Entries
  Entries-leave v [] ok_v es = tt
  Entries-leave v ((u, k) ∷ stack) ok_v (few, small, once, looked, entered, es) =
      let moved : (s : ℕ) → v ≡ s → Safe s = λ s q. rw (sym q) ok_v in
      (
        few,
        small,
        once,
        (λ s lt h. elim (looked s lt h) [
          | inl w ↦ inl w
          | inr q ↦ inl (moved s (some_injective q))
        ]),
        (λ s q. absurd cc),
        es,
      )

  -- The stack is a path.
  pub path :
      (w v k : ℕ) (above : Option ℕ) (below : List (ℕ × ℕ))
      → Entries above ((v, k) ∷ below)
      → on w ((v, k) ∷ below) ≡ true
      → Reach e w v
  unfolding Entries on
  path w v k above [] es h = let same : v ≡ w = ground arith in rw same here
  path w v k above ((u, j) ∷ st) es h = elim (Bool-cases (v == w)) [
    | inl q ↦ let same : v ≡ w = ground arith in rw same here
    | inr q ↦
        let (few, small, once, looked, entered, es') = es in
        let (few', small', once', looked', entered', es'') = es' in
        along (path w u j (some v) st es' (rw q at h)) (entered' v refl)
  ]

  first_edge : {a u b : ℕ} → Reach e a u → e u b ≡ true → (c : ℕ) × (e a c ≡ true) × Reach e c b
  first_edge {b = b} here h = (b, h, here)
  first_edge (along r h') h = let (c, out, p) = first_edge r h' in (c, out, along p h)

  pub no_cycle : {u : ℕ} → Safe u → (w : ℕ) → e u w ≡ true → ¬ Reach e w u
  no_cycle (safe next) w h p = let (c, out, q) = first_edge p h in no_cycle (next w h) c out q
