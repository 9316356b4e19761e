-- ===== src/Generator/Agree.antt =====
-- The build script and the kernel compute the same values.
use mathlib.Core.Path.{subst, fun_ext}
use ferret_os.Common.{
  ℕ, zero, suc, ◌≤◌, ◌<◌, ◌≡◌, refl, sym, ap, ◌∙◌, Bool, true, false, ◌&&◌, Option, none, some,
  List, [], ◌∷◌, length, get_elem?, get_or, get_or-ext, ◌==◌, ok, ◌>>=◌, arith, get_elem?_of_ge,
  Bool-cases, inl, inr, dec_lt,
}
use ferret_os.Task.{TaskDescriptor, Slots, max_tasks}
use ferret_os.Ccg.{build, contends}
use ferret_os.Ccg.Populated.{slot, contended, both}
use ferret_os.Reach.{IsHighest, IsHighest_unique}
use ferret_os.Mip.{raise, compute_mip_values}
use ferret_os.Mip.Correct.{priority_of}
use ferret_os.Mip.Values.{AreMip, compute_mip_values_correct}
use ferret_os.Generator.{TaskConfig, needs, compute_mip, padded}
use ferret_os.Generator.Correct.{priority_at, pair_needs, wants, compute_mip_correct, inside}

-- A slot holds the task of a configuration, or both are absent.
unfoldable pub matches : Option TaskConfig → Option TaskDescriptor → Bool
matches none none = true
matches (some c) (some t) =
    c.priority == t.priority
    && (c.exclusive_cap_mask == t.exclusive_cap_mask && c.required_cap_mask == t.required_cap_mask)
matches none (some t) = false
matches (some c) none = false

-- The tasks were registered in the order of the file.
pub record IsRegistered (tasks : List TaskConfig) (slots : Slots) : Type 0 where
  pub size : length slots ≡ max_tasks
  pub fits : length tasks ≤ max_tasks
  pub slot_matches : (i : ℕ) → matches (get_elem? tasks i) (slot slots i) ≡ true

matches-raise :
    (c : Option TaskConfig) (t : Option TaskDescriptor)
    → matches c t ≡ true
    → elim c [ none ↦ 0 | some x ↦ x.priority ] ≡ raise t 0
unfolding matches raise
matches-raise none none h = refl
matches-raise (some c) (some t) h = let p = c.priority in let q = t.priority in ground arith
matches-raise none (some t) h = cc
matches-raise (some c) none h = cc

matches-both :
    (a b : Option TaskConfig) (t u : Option TaskDescriptor)
    → matches a t ≡ true
    → matches b u ≡ true
    → pair_needs a b ≡ both t u
unfolding matches pair_needs both needs contends
matches-both none b none u h h' = refl
matches-both (some c) none (some t) none h h' = refl
matches-both (some c) (some d) (some t) (some u) h h' =
    let e : c.exclusive_cap_mask ≡ t.exclusive_cap_mask = ground arith in
    let r : d.required_cap_mask ≡ u.required_cap_mask = ground arith in rw (e, r) refl
matches-both none b (some t) u h h' = cc
matches-both (some c) b none u h h' = cc
matches-both (some c) none (some t) (some u) h h' = cc
matches-both (some c) (some d) (some t) none h h' = cc

occupied :
    (c : Option TaskConfig) (t : Option TaskDescriptor)
    → matches c t ≡ true
    → (a : TaskConfig) × (c ≡ some a)
    → (u : TaskDescriptor) × (t ≡ some u)
unfolding matches
occupied none t h e = cc
occupied (some c) none h e = cc
occupied (some c) (some t) h e = (t, refl)

empty :
    (c : Option TaskConfig) (t : Option TaskDescriptor) → matches c t ≡ true → c ≡ none → t ≡ none
unfolding matches
empty none none h e = refl
empty none (some t) h e = cc
empty (some c) t h e = cc

get_or_of_ge : (xs : List ℕ) (i : ℕ) → length xs ≤ i → get_or xs i 0 ≡ 0
get_or_of_ge [] i h = refl
get_or_of_ge (x ∷ xs) zero h = absurd (omega arith)
get_or_of_ge (x ∷ xs) (suc i) h = get_or_of_ge xs i (omega arith)

length-padded : (n : ℕ) (mip : List ℕ) → length (padded n mip) ≡ n
unfolding padded
length-padded zero mip = refl
length-padded (suc n) [] = ap suc (length-padded n [])
length-padded (suc n) (m ∷ mip) = ap suc (length-padded n mip)

get_or-padded : (n : ℕ) (mip : List ℕ) (i : ℕ) → i < n → get_or (padded n mip) i 0 ≡ get_or mip i 0
unfolding padded
get_or-padded zero mip i h = absurd (omega arith)
get_or-padded (suc n) [] zero h = refl
get_or-padded (suc n) [] (suc i) h = get_or-padded n [] i (omega arith)
get_or-padded (suc n) (m ∷ mip) zero h = refl
get_or-padded (suc n) (m ∷ mip) (suc i) h = get_or-padded n mip i (omega arith)

module _ (tasks : List TaskConfig) (slots : Slots) (reg : IsRegistered tasks slots) where
  same_edges : wants tasks ≡ contended slots
  unfolding wants contended
  same_edges = fun_ext λ i. fun_ext λ j. elim (Bool-cases (i == j)) [
    | inl q ↦ rw (q, wants, contended) refl
    | inr q ↦
        rw (q, wants, contended)
          (matches-both (get_elem? tasks i) (get_elem? tasks j) (slot slots i) (slot slots j)
            (reg.slot_matches i) (reg.slot_matches j))
  ]

  same_priorities : priority_at tasks ≡ priority_of slots
  unfolding priority_at
  same_priorities =
      fun_ext λ i. matches-raise (get_elem? tasks i) (slot slots i) (reg.slot_matches i)

  value_agrees :
      (mip kernel : List ℕ)
      → length mip ≡ length tasks
      → AreMip slots kernel
      → ((i : ℕ)
          → i < length tasks
          → IsHighest (wants tasks) (priority_at tasks) i (get_or mip i 0))
      → (i : ℕ) → i < max_tasks
      → get_or kernel i 0 ≡ get_or (padded max_tasks mip) i 0
  value_agrees mip kernel s v all i lt =
      rw (get_or-padded max_tasks mip i lt) (elim (dec_lt i (length tasks)) [
        | yes low ↦
            let (t, at) =
              occupied (get_elem? tasks i) (slot slots i) (reg.slot_matches i)
                (inside tasks i low) in
            IsHighest_unique (contended slots) (priority_of slots) i _ _
              (v.task i t (omega arith) lt at)
              (subst (λ p. IsHighest (contended slots) p i (get_or mip i 0)) same_priorities
                (subst (λ e. IsHighest e (priority_at tasks) i (get_or mip i 0)) same_edges
                  (all i low)))
        | no high ↦
            let gone =
              empty (get_elem? tasks i) (slot slots i) (reg.slot_matches i)
                (get_elem?_of_ge tasks i (omega arith)) in
            v.free i gone ∙ sym (get_or_of_ge mip i (omega arith))
      ])

  -- The array that the build script writes into ccg_constants.rs is the one that the kernel computes
  -- from the registry.
  pub generator_agrees_with_kernel :
      (mip : List ℕ) × (compute_mip tasks ≡ ok mip)
      × ((build slots >>= λ ccg. compute_mip_values ccg slots) ≡ ok (padded max_tasks mip))
  generator_agrees_with_kernel =
      let (ccg, kernel, builds, runs, v) = compute_mip_values_correct slots reg.size in
      let (mip, generates, s, all) = compute_mip_correct tasks in
      let same =
        get_or-ext 0 kernel (padded max_tasks mip) (v.size ∙ sym (length-padded max_tasks mip))
          (λ i lt. value_agrees mip kernel s v all i (let size = v.size in omega arith)) in
      (mip, generates, rw (builds, runs) (ap ok same))
