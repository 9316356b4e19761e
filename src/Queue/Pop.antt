-- ===== src/Queue/Pop.antt =====
-- `pop_max`, `peek_max` and `peek_max_priority`.
use mathlib.Core.List.Perm
use ferret_os.Common.{
  ℕ, suc, ◌+◌, ◌-◌, ◌<◌, ◌≤◌, ◌≡◌, refl, ◌∙◌, List, [], ◌∷◌, length, ltb, arith, ◌==◌,
  if◌then◌else◌, Perm, some, none, ok, length-perm, Bool-cases, inl, inr, false,
}
use ferret_os.Queue.{HeapEntry, PriorityQueue, pop_max, peek_max, peek_max_priority, sift_down}
use ferret_os.Queue.Live.{at, slots, down, load-slots, sift_down_loop-slots}
use ferret_os.Queue.Order.{rank}
use ferret_os.Queue.Sift.{Sifted, down_restores}
use ferret_os.Queue.Valid.{
  Holds, fill, fill-slots, length-fill, fill-perm, fill-AllFit, fill-DownInv, root_highest,
}

-- `pop_max` on an empty queue returns `None` and changes nothing.
pub pop_max-empty : (n : ℕ) (q : PriorityQueue) → Holds n q [] → pop_max q ≡ ok (none, q)
unfolding pop_max
pop_max-empty n q v = ground (arith, v.len)

module _ (n : ℕ) (q : PriorityQueue) (a : List HeapEntry) (v : Holds n q a)
    (some_left : 0 < length a) where
  abbrev m : ℕ
  m = length a - 1

  size : length a ≡ suc m
  size = omega arith

  abbrev left : List HeapEntry
  left = let sunk = down (m + 1) (fill a 0 m) 0 in if ltb 0 m then sunk else fill a 0 m

  left-Sifted : Sifted q.next_seq v.word (fill a 0 m) left
  left-Sifted = elim (Bool-cases (ltb 0 m)) [
    | inl e ↦
        let (u, g, p) =
          down_restores q.next_seq v.word (m + 1) 0 (fill a 0 m) 0
            (omega (arith, length-fill a 0 m some_left size))
            (fill-AllFit a 0 m some_left size q.next_seq v.fit)
            (fill-DownInv a 0 m some_left size q.next_seq v.heap (ground arith)) in
        rw e ((λ c p r. u.edges c p r (omega arith)), g, p)
    | inr e ↦ rw e (
      (λ c p r. absurd (ground (arith, length-fill a 0 m some_left size))),
      fill-AllFit a 0 m some_left size q.next_seq v.fit,
      Perm.rfl,
    )
  ]

  abbrev popped : PriorityQueue
  popped = record q { heap = slots left (suc (n - length a)); len = m }

  length-left : length left ≡ m
  length-left = length-perm left-Sifted.2 ∙ length-fill a 0 m some_left size

  finish :
      (if ltb 0 m
        then sift_down m (slots (fill a 0 m) (suc (n - length a))) 0
        else ok (slots (fill a 0 m) (suc (n - length a))))
      ≡ ok (slots left (suc (n - length a)))
  unfolding sift_down
  finish = elim (Bool-cases (ltb 0 m)) [
    | inl e ↦ rw e (
        sift_down_loop-slots (m + 1) m (fill a 0 m) (suc (n - length a)) 0
          (omega (arith, length-fill a 0 m some_left size)) (omega arith) (ground arith))
    | inr e ↦ rw e
  ]

  pop_max-runs : pop_max q ≡ ok (some (at a 0).task_id, popped)
  unfolding pop_max
  pop_max-runs =
      let nonzero : (length a == 0) ≡ false = ground arith in
      rw (
        v.len,
        nonzero,
        v.array,
        load-slots a (n - length a) 0 some_left,
        v.len,
        v.array,
        fill-slots a 0 m some_left size (n - length a),
        finish,
      )

  -- `pop_max` on a non-empty queue removes exactly one entry, the root, and returns its task: no
  -- entry outranks it, and the queue of the others is valid.
  pub pop_max_correct :
      (q' : PriorityQueue) × (b : List HeapEntry) × (pop_max q ≡ ok (some (at a 0).task_id, q'))
      × Holds n q' b
      × Perm (at a 0 ∷ b) a
      × ((i : ℕ) → i < length a → rank q.next_seq (at a i) ≤ rank q.next_seq (at a 0))
      × (q'.next_seq ≡ q.next_seq)
  pop_max_correct = (
    popped,
    left,
    pop_max-runs,
    record {
      array = rw length-left (let e : n - m ≡ suc (n - length a) = omega (arith, v.room) in rw e);
      len = omega (arith, length-left);
      room = omega (arith, length-left, v.room);
      word = v.word;
      fit = left-Sifted.1;
      heap = left-Sifted.0;
    },
    Perm.trans (Perm.cons _ left-Sifted.2) (fill-perm a 0 m some_left size),
    (λ i h. root_highest q.next_seq a i v.heap h),
    refl,
  )

  -- The two peeks return the root's fields.
  pub peek-runs :
      (peek_max q ≡ ok (some (at a 0).task_id))
      × (peek_max_priority q ≡ ok (at a 0).effective_priority)
  unfolding peek_max peek_max_priority
  peek-runs = (
    rw (v.array, load-slots a (n - length a) 0 some_left),
    rw (v.array, load-slots a (n - length a) 0 some_left),
  )
