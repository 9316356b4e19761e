-- ===== src/Queue/Remove.antt =====
-- `remove`: the scan for a task, and the repair of the heap.
use mathlib.Core.List.Perm
use ferret_os.Common.{
  ℕ, zero, suc, ◌+◌, ◌-◌, ◌<◌, ◌≤◌, ◌≡◌, ◌≢◌, ◌⊎◌, refl, ◌∙◌, List, ◌∷◌, length, ltb, arith, ◌==◌,
  if◌then◌else◌, Perm, Option, some, none, ok, ◌>>=◌, length-perm, Bool-cases, Bool, inl, inr, true,
  false, Option-cases, dec_lt,
}
use ferret_os.Queue.{HeapEntry, PriorityQueue, parent, remove, find_task, sift_down, sift_up}
use ferret_os.Queue.Live.{at, slots, up, down, load-slots, sift_down_loop-slots, sift_up_loop-slots}
use ferret_os.Queue.Order.{AllFit, UpInv}
use ferret_os.Queue.Sift.{Sifted, up_restores, down_restores}
use ferret_os.Queue.Valid.{
  Holds, fill, fill-slots, length-fill, at-fill, fill-perm, fill-AllFit, fill-DownInv,
}

-- The first index from `i` on, among the next `left`, whose entry is of the task.
first : ℕ → List HeapEntry → ℕ → ℕ → Option ℕ
first zero a i task_id = none
first (suc left) a i task_id =
    let rest = first left a (i + 1) task_id in if (at a i).task_id == task_id then some i else rest

find_task-slots :
    (left : ℕ) (a : List HeapEntry) (pad i task_id : ℕ)
    → i + left ≤ length a
    → find_task left (slots a pad) i task_id ≡ ok (first left a i task_id)
unfolding find_task first
find_task-slots zero a pad i task_id h = refl
find_task-slots (suc left) a pad i task_id h =
    rw (load-slots a pad i (omega arith)) (elim (Bool-cases ((at a i).task_id == task_id)) [
      | inl e ↦ rw e
      | inr e ↦ rw e (find_task-slots left a pad (i + 1) task_id (omega arith))
    ])

first_found :
    (left : ℕ) (a : List HeapEntry) (i task_id j : ℕ)
    → first left a i task_id ≡ some j
    → (j < i + left) × ((at a j).task_id ≡ task_id)
unfolding first
first_found zero a i task_id j h = cc
first_found (suc left) a i task_id j h = ground (arith, first_found left a (i + 1) task_id j)

first_missing :
    (left : ℕ) (a : List HeapEntry) (i task_id : ℕ)
    → first left a i task_id ≡ none
    → (j : ℕ) → i ≤ j
    → j < i + left
    → (at a j).task_id ≢ task_id
unfolding first
first_missing zero a i task_id h j p q = absurd (omega arith)
first_missing (suc left) a i task_id h j p q = elim (dec_lt i j) [
  | yes later ↦ ground (arith, first_missing left a (i + 1) task_id (ground arith) j)
  | no here ↦ let e : i ≡ j = omega arith in rw (← e) (ground arith)
]

module _ (n : ℕ) (q : PriorityQueue) (a : List HeapEntry) (v : Holds n q a) where
  -- The entry of `task_id` at index `i` is gone.
  pub record Taken (task_id : ℕ) (r : Bool × PriorityQueue) (b : List HeapEntry) (i : ℕ)
      : Type 0 where
    pub done : r.0 ≡ true
    pub of_task : (at a i).task_id ≡ task_id
    pub valid : Holds n r.1 b
    pub rest : Perm (at a i ∷ b) a
    pub kept : r.1.next_seq ≡ q.next_seq

  module _ (i : ℕ) (hi : i < length a) where
    abbrev m : ℕ
    m = length a - 1

    size : length a ≡ suc m
    size = omega arith

    abbrev repaired : List HeapEntry
    repaired = up (i + 1) (down (m + 1) (fill a i m) i) i

    abbrev left : List HeapEntry
    left = if ltb i m then repaired else fill a i m

    filled-AllFit : AllFit q.next_seq (fill a i m)
    filled-AllFit = fill-AllFit a i m hi size q.next_seq v.fit

    length-filled : length (fill a i m) ≡ m
    length-filled = length-fill a i m hi size

    module _ (below : i < m) where
      sunk :
          UpInv q.next_seq (down (m + 1) (fill a i m) i) i
          × AllFit q.next_seq (down (m + 1) (fill a i m) i)
          × Perm (down (m + 1) (fill a i m) i) (fill a i m)
      sunk =
          down_restores q.next_seq v.word (m + 1) i (fill a i m) i (omega (arith, length-filled))
            filled-AllFit (fill-DownInv a i m hi size q.next_seq v.heap below)

      repaired-Sifted : Sifted q.next_seq v.word (fill a i m) repaired
      repaired-Sifted =
          let (h, f, p) = up_restores q.next_seq v.word (i + 1) _ i (omega arith) sunk.1 sunk.0 in
          (h, f, Perm.trans p sunk.2)

      repair-runs :
          (pad : ℕ)
          → (sift_down m (slots (fill a i m) pad) i >>= λ h. sift_up h i) ≡ ok (slots repaired pad)
      unfolding sift_down sift_up
      repair-runs pad =
          rw
            (sift_down_loop-slots (m + 1) m (fill a i m) pad i (omega (arith, length-filled))
              (omega arith) below)
            (sift_up_loop-slots (i + 1) _ pad i (omega arith) sunk.0.inside)

    left-Sifted : Sifted q.next_seq v.word (fill a i m) left
    left-Sifted = elim (Bool-cases (ltb i m)) [
      | inl e ↦ rw e (repaired-Sifted (ground arith))
      | inr e ↦
          let last : i ≡ m = ground arith in
          rw e (
            (λ c p r. ground (
              arith,
              length-filled,
              last,
              at-fill a i m hi size c,
              at-fill a i m hi size (parent c),
              v.heap c,
            )),
            filled-AllFit,
            Perm.rfl,
          )
    ]

    abbrev removed : PriorityQueue
    removed = record q { heap = slots left (suc (n - length a)); len = m }

    length-left : length left ≡ m
    length-left = length-perm left-Sifted.2 ∙ length-filled

    finish :
        (if ltb i m
          then (sift_down m (slots (fill a i m) (suc (n - length a))) i >>= λ h. sift_up h i)
          else ok (slots (fill a i m) (suc (n - length a))))
        ≡ ok (slots left (suc (n - length a)))
    finish = elim (Bool-cases (ltb i m)) [
      | inl e ↦ rw e (repair-runs (ground arith) (suc (n - length a)))
      | inr e ↦ rw e
    ]

    remove-runs :
        (task_id : ℕ)
        → first (length a) a 0 task_id ≡ some i
        → remove q task_id ≡ ok (true, removed)
    unfolding remove
    remove-runs task_id found = rw (
      v.len,
      v.array,
      find_task-slots (length a) a (n - length a) 0 task_id (omega arith),
      found,
      v.len,
      v.array,
      fill-slots a i m hi size (n - length a),
      finish,
    )

    removed-Taken :
        (task_id : ℕ) → (at a i).task_id ≡ task_id → Taken task_id (true, removed) left i
    removed-Taken task_id e = record {
      done = refl;
      of_task = e;
      valid = record {
        array =
            rw length-left (let e' : n - m ≡ suc (n - length a) = omega (arith, v.room) in rw e');
        len = omega (arith, length-left);
        room = omega (arith, length-left, v.room);
        word = v.word;
        fit = left-Sifted.1;
        heap = left-Sifted.0;
      };
      rest = Perm.trans (Perm.cons _ left-Sifted.2) (fill-perm a i m hi size);
      kept = refl;
    }

  -- `remove` returns `false` and changes nothing if no entry is of the task; otherwise it returns
  -- `true`, takes out exactly one entry of the task, and leaves a valid queue of the others.
  pub remove_correct :
      (task_id : ℕ)
      → ((remove q task_id ≡ ok (false, q)) × ((j : ℕ) → j < length a → (at a j).task_id ≢ task_id))
        ⊎ ((r : Bool × PriorityQueue) × (b : List HeapEntry) × (i : ℕ) × (remove q task_id ≡ ok r)
            × Taken task_id r b i)
  remove_correct task_id = elim (Option-cases (first (length a) a 0 task_id)) [
    | inl e ↦
        inl (missing e, λ j h. first_missing (length a) a 0 task_id e j (omega arith) (omega arith))
    | inr (i, e) ↦
        let (near, same) = first_found (length a) a 0 task_id i e in
        let hi : i < length a = omega arith in
        inr (
          (true, removed i hi),
          left i hi,
          i,
          remove-runs i hi task_id e,
          removed-Taken i hi task_id same,
        )
  ]
    where
      scan : find_task q.len q.heap 0 task_id ≡ ok (first (length a) a 0 task_id)
      scan =
          rw (v.len, v.array) (find_task-slots (length a) a (n - length a) 0 task_id (omega arith))

      missing : first (length a) a 0 task_id ≡ none → remove q task_id ≡ ok (false, q)
      missing e = unfold remove in rw (scan, e)
