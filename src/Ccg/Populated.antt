-- ===== src/Ccg/Populated.antt =====
-- The list of populated slots, and what the graph is meant to be.
use ferret_os.Common.{
  ℕ, zero, suc, ◌+◌, ◌-◌, ◌<◌, ◌≤◌, ◌≡◌, ◌≢◌, refl, Bool, true, false, ◌||◌, Option, none, some,
  List, [], ◌∷◌, length, replicate, get_elem?, ◌==◌, if◌then◌else◌, arith, dec_lt,
}
use ferret_os.Task.{TaskDescriptor, Slots}
use ferret_os.Ccg.{populated, contends}

-- The task in slot `i`, if there is one.
unfoldable pub slot : Slots → ℕ → Option TaskDescriptor
slot slots i = elim (get_elem? slots i) [ none ↦ none | some o ↦ o ]

unfoldable pub both : Option TaskDescriptor → Option TaskDescriptor → Bool
both (some l) (some h) = contends l h
both (some l) none = false
both none o = false

-- Slot `i` holds exclusively what another slot `j` requires.
unfoldable pub contended : Slots → ℕ → ℕ → Bool
contended slots i j = if i == j then false else both (slot slots i) (slot slots j)

pub contended_of_tasks :
    (slots : Slots) (i j : ℕ) (l h : TaskDescriptor)
    → get_elem? slots i ≡ some (some l)
    → get_elem? slots j ≡ some (some h)
    → contended slots i j ≡ (if i == j then false else contends l h)
unfolding contended slot both
contended_of_tasks slots i j l h e e' = rw (e, e', slot, both)

pub slot-some :
    (slots : Slots) (i : ℕ) {t : TaskDescriptor}
    → slot slots i ≡ some t
    → get_elem? slots i ≡ some (some t)
unfolding slot
slot-some slots i h = go (get_elem? slots i) h
  where
    go :
        {t : TaskDescriptor} (o : Option (Option TaskDescriptor))
        → elim o [ none ↦ none | some o ↦ o ] ≡ some t
        → o ≡ some (some t)
    go none h = cc
    go (some o) h = cc

-- What a contended pair consists of.
pub contended_tasks :
    (slots : Slots) (i j : ℕ)
    → contended slots i j ≡ true
    → (l h : TaskDescriptor) × (get_elem? slots i ≡ some (some l))
      × (get_elem? slots j ≡ some (some h))
      × (contends l h ≡ true)
      × (i ≢ j)
unfolding contended
contended_tasks slots i j h = go (slot slots i) refl (slot slots j) refl h
  where
    go :
        (x : Option TaskDescriptor)
        → slot slots i ≡ x
        → (y : Option TaskDescriptor) → slot slots j ≡ y
        → (if i == j then false else both x y) ≡ true
        → (l h : TaskDescriptor) × (get_elem? slots i ≡ some (some l))
          × (get_elem? slots j ≡ some (some h))
          × (contends l h ≡ true)
          × (i ≢ j)
    go none e y e' q = absurd (unfold both in ground arith)
    go (some l) e none e' q = absurd (unfold both in ground arith)
    go (some l) e (some h) e' q =
        unfold both in (l, h, slot-some slots i e, slot-some slots j e', ground arith, ground arith)

unfoldable pub elem : ℕ → List ℕ → Bool
elem j [] = false
elem j (x ∷ xs) = x == j || elem j xs

pub populated_slot :
    (slots : Slots) (i k a : ℕ)
    → get_elem? (populated slots i) k ≡ some a
    → (t : TaskDescriptor) × (get_elem? slots (a - i) ≡ some (some t))
      × (i ≤ a)
      × (a < i + length slots)
unfolding populated
populated_slot [] i k a h = cc
populated_slot (none ∷ slots) i k a h =
    let (t, e, ge, lt) = populated_slot slots (i + 1) k a h in
    let down : a - i ≡ suc (a - (i + 1)) = omega arith in (t, rw down e, omega arith, omega arith)
populated_slot (some t ∷ slots) i zero a h =
    let same : i ≡ a = ground arith in
    let none_left : a - i ≡ 0 = omega arith in (t, rw none_left, omega arith, omega arith)
populated_slot (some t ∷ slots) i (suc k) a h =
    let (t', e, ge, lt) = populated_slot slots (i + 1) k a h in
    let down : a - i ≡ suc (a - (i + 1)) = omega arith in (t', rw down e, omega arith, omega arith)

pub populated_mono :
    (slots : Slots) (i j k a b : ℕ)
    → get_elem? (populated slots i) j ≡ some a
    → get_elem? (populated slots i) k ≡ some b
    → j < k
    → a < b
unfolding populated
populated_mono [] i j k a b h h' lt = cc
populated_mono (none ∷ slots) i j k a b h h' lt = populated_mono slots (i + 1) j k a b h h' lt
populated_mono (some t ∷ slots) i j zero a b h h' lt = absurd (omega arith)
populated_mono (some t ∷ slots) i zero (suc k) a b h h' lt =
    let (t', e, ge, bound) = populated_slot slots (i + 1) k b h' in
    let same : i ≡ a = ground arith in omega arith
populated_mono (some t ∷ slots) i (suc j) (suc k) a b h h' lt =
    populated_mono slots (i + 1) j k a b h h' (omega arith)

-- Positions and slots are told apart alike.
pub populated_position :
    (slots : Slots) (j k a b : ℕ)
    → get_elem? (populated slots 0) j ≡ some a
    → get_elem? (populated slots 0) k ≡ some b
    → (j == k) ≡ (a == b)
populated_position slots j k a b h h' = elim (dec_lt j k) [
  | yes lt ↦ ground (arith, populated_mono slots 0 j k a b h h' lt)
  | no ge ↦ elim (dec_lt k j) [
    | yes lt ↦ ground (arith, populated_mono slots 0 k j b a h' h lt)
    | no ge' ↦
        let e : j ≡ k = omega arith in
        let moved : get_elem? (populated slots 0) k ≡ some a = rw e at h in ground arith
  ]
]

pub populated-elem :
    (slots : Slots) (i j : ℕ) (t : TaskDescriptor)
    → get_elem? slots j ≡ some (some t)
    → elem (i + j) (populated slots i) ≡ true
unfolding populated elem
populated-elem [] i j t h = cc
populated-elem (none ∷ slots) i zero t h = cc
populated-elem (none ∷ slots) i (suc j) t h =
    let e : i + suc j ≡ i + 1 + j = omega arith in rw e (populated-elem slots (i + 1) j t h)
populated-elem (some t' ∷ slots) i zero t h = ground arith
populated-elem (some t' ∷ slots) i (suc j) t h =
    let e : i + suc j ≡ i + 1 + j = omega arith in
    ground (arith, e, populated-elem slots (i + 1) j t h)

-- Behind three slots, an empty rest of the registry holds no task.
pub no_task_beyond :
    (n i : ℕ) (a b c : Option TaskDescriptor)
    → slot (a ∷ b ∷ c ∷ replicate n none) (suc (suc (suc i))) ≡ none
unfolding slot
no_task_beyond zero i a b c = refl
no_task_beyond (suc n) zero a b c = refl
no_task_beyond (suc n) (suc i) a b c = no_task_beyond n i a b c
