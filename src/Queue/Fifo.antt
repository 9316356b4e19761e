-- ===== src/Queue/Fifo.antt =====
-- What the ready queue promises: among the waiting tasks, in order of arrival, the first one of the
-- highest priority leaves.
use ferret_os.Common.{
  ℕ, ◌≤◌, ◌≡◌, refl, max, List, [], ◌∷◌, ◌++◌, map, length, Option, none, some, arith, ◌==◌,
  if◌then◌else◌, Run, ok, panic, ltb, sym, ap, ◌∙◌,
}
use mathlib.Core.Option
use mathlib.Core.List.Perm
use ferret_os.Common.{◌>>=◌, Perm, ◌≢◌, Mem, Bool-cases, ◌⊎◌, inl, inr, ==_iff}
use mathlib.Core.List.{not-mem-nil, mem-cons, mem-cons_self, mem-cons_of_mem}
use mathlib.Core.Logic.Or
use mathlib.Core.Path.{subst}
use mathlib.Core.HLevel.{¬_prop}
use native.Mathlib.Bridge.{le_prop}

abbrev pub behind {ℓ} : {A : Type ℓ} → A → A × List A → A × List A
behind x (y, ys) = (y, x ∷ ys)

abbrev pub viewed {ℓ κ} : {A : Type ℓ} {B : Type κ} → (A → B) → A × List A → B × List B
viewed view (y, ys) = (view y, map view ys)

module _ {ℓ} {A : Type ℓ} (priority : A → ℕ) where
  unfoldable pub top : List A → ℕ
  top [] = 0
  top (x ∷ xs) = max (priority x) (top xs)

  -- The first entry of priority `p`, and the others.
  pub extract : ℕ → List A → Option (A × List A)
  extract p [] = none
  extract p (x ∷ xs) =
      if priority x == p then some (x, xs) else Option.map (behind x) (extract p xs)

  unfoldable pub dequeue : List A → Option (A × List A)
  unfolding extract top
  dequeue xs = extract (top xs) xs

pub dequeue-nil {ℓ} : {A : Type ℓ} (priority : A → ℕ) → dequeue priority [] ≡ none
unfolding dequeue
dequeue-nil priority = refl

pub record Waiter : Type 0 where
  pub task : ℕ
  pub priority : ℕ

-- One call of a client, and its reply.
pub data Op : Type 0 where
  put : ℕ → ℕ → Op
  take : Op

-- What a client sees of its calls on a queue of capacity `n`; a `put` on a full queue panics.
-- The loops bind the rest of the run by `let`, so that it waits.
unfoldable pub run : ℕ → List Waiter → List Op → Run (List (Option ℕ))
run n ws [] = ok []
run n ws (put task priority ∷ ops) =
    let rest = run n (ws ++ record { task = task; priority = priority } ∷ []) ops in
    if ltb (length ws) n then (rest >>= λ rs. ok (none ∷ rs)) else panic
run n ws (take ∷ ops) =
    let stay = run n ws ops in
    elim (dequeue (λ w. w.priority) ws) [
      | none ↦ stay >>= λ rs. ok (none ∷ rs)
      | some (w, ws') ↦ run n ws' ops >>= λ rs. ok (some w.task ∷ rs)
    ]

module _ {ℓ} {A : Type ℓ} (priority : A → ℕ) where
  -- `x` is the first entry of priority `p`, and `ys` the others.
  pub data Extracted (p : ℕ) : List A → A → List A → Type ℓ where
    here : {x : A} {xs : List A} → priority x ≡ p → Extracted p (x ∷ xs) x xs
    later :
        {z x : A} {xs ys : List A}
        → priority z ≢ p
        → Extracted p xs x ys
        → Extracted p (z ∷ xs) x (z ∷ ys)

  pub extract-cases :
      (p : ℕ) (xs : List A)
      → ((extract priority p xs ≡ none) × ((x : A) → Mem x xs → priority x ≢ p))
        ⊎ ((x : A) × (ys : List A) × (extract priority p xs ≡ some (x, ys)) × Extracted p xs x ys)
  unfolding extract
  extract-cases p [] = inl (refl, λ x m. absurd (not-mem-nil m))
  extract-cases p (z ∷ xs) = elim (Bool-cases (priority z == p)) [
    | inl e ↦ inr (z, xs, rw e, here ((==_iff _ _).0 e))
    | inr e ↦
        let ne : priority z ≢ p = ground arith in
        elim (extract-cases p xs) [
          | inl (h, all) ↦
              inl (rw (e, h), λ x m. Or.elim ¬_prop (mem-cons.0 m) (λ q. rw q ne) (all x))
          | inr (x, ys, h, view) ↦ inr (x, z ∷ ys, rw (e, h), later ne view)
        ]
  ]

  pub Extracted-perm :
      {p : ℕ} {xs : List A} {x : A} {ys : List A} → Extracted p xs x ys → Perm (x ∷ ys) xs
  Extracted-perm (here {x} {xs} e) = Perm.rfl
  Extracted-perm (later ne v) = Perm.trans (Perm.swap _ _ _) (Perm.cons _ (Extracted-perm v))

  pub Extracted-priority :
      {p : ℕ} {xs : List A} {x : A} {ys : List A} → Extracted p xs x ys → priority x ≡ p
  Extracted-priority (here e) = e
  Extracted-priority (later ne v) = Extracted-priority v

  pub le-top : (xs : List A) (x : A) → Mem x xs → priority x ≤ top priority xs
  unfolding top
  le-top [] x m = absurd (not-mem-nil m)
  le-top (y ∷ xs) x m =
      Or.elim le_prop (mem-cons.0 m) (λ e. rw e (omega arith)) (λ h. omega (arith, le-top xs x h))

  pub top-le : (xs : List A) (b : ℕ) → ((x : A) → Mem x xs → priority x ≤ b) → top priority xs ≤ b
  unfolding top
  top-le [] b h = omega arith
  top-le (y ∷ xs) b h =
      omega (arith, h y mem-cons_self, top-le xs b (λ x m. h x (mem-cons_of_mem y m)))

-- Reading priorities through a view changes nothing.
module _ {ℓ κ} {A : Type ℓ} {B : Type κ} (view : A → B) (priority : B → ℕ) where
  top-map : (xs : List A) → top priority (map view xs) ≡ top (λ x. priority (view x)) xs
  unfolding top
  top-map [] = refl
  top-map (x ∷ xs) = rw (top-map xs)

  extract-map :
      (p : ℕ) (xs : List A)
      → extract priority p (map view xs)
        ≡ Option.map (viewed view) (extract (λ x. priority (view x)) p xs)
  unfolding extract
  extract-map p [] = refl
  extract-map p (x ∷ xs) = elim (Bool-cases (priority (view x) == p)) [
    | inl e ↦ rw e
    | inr e ↦ rw (e, extract-map p xs) (regroup (extract (λ x. priority (view x)) p xs))
  ]
    where
      regroup :
          (o : Option (A × List A))
          → Option.map (behind (view x)) (Option.map (viewed view) o)
            ≡ Option.map (viewed view) (Option.map (behind x) o)
      regroup none = refl
      regroup (some (y, ys)) = refl

  pub dequeue-map :
      (xs : List A)
      → dequeue priority (map view xs)
        ≡ Option.map (viewed view) (dequeue (λ x. priority (view x)) xs)
  unfolding dequeue
  dequeue-map xs = rw (top-map xs) (extract-map _ xs)

-- What `dequeue` returns was extracted.
pub dequeued-Extracted {ℓ} :
    {A : Type ℓ} (priority : A → ℕ) (xs : List A) (x : A) (ys : List A)
    → dequeue priority xs ≡ some (x, ys)
    → Extracted priority (top priority xs) xs x ys
unfolding dequeue
dequeued-Extracted {A = A} priority xs x ys h = elim (extract-cases priority (top priority xs) xs) [
  | inl (e, all) ↦ absurd (let q : none ≡ some (x, ys) = sym e ∙ h in cc)
  | inr (y, zs, e, v) ↦
      let same = ap {B = A × List A} (λ o. elim o [ none ↦ (x, ys) | some z ↦ z ]) (sym e ∙ h) in
      subst (λ z. Extracted priority (top priority xs) xs z.0 z.1) same v
]
