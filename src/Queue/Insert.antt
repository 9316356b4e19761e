-- ===== src/Queue/Insert.antt =====
-- `insert`: what it adds, and that a full queue makes it panic.
use mathlib.Core.List.Perm
use ferret_os.Common.{
  ℕ, suc, ◌+◌, ◌-◌, ◌<◌, ◌^◌, ◌≡◌, refl, List, [], ◌∷◌, ◌++◌, length, arith, Perm, ok, panic,
  length-perm, ◌∙◌, wrapping_add, length-append, get_or-append_left, get_or-append_last,
  perm-append_last, dec_lt, le→ltb, lt→ltb,
}
use ferret_os.Queue.{HeapEntry, PriorityQueue, entry, parent, insert, sift_up}
use ferret_os.Queue.Live.{blank, at, slots, up, sift_up_loop-slots}
use ferret_os.Queue.Order.{Fits, age, rank, AllFit, UpInv}
use ferret_os.Queue.Sift.{Sifted, up_restores}
use ferret_os.Queue.Valid.{Holds, Holds-length, append_slot}

-- No entry would be more than 2^31 inserts old after one more insert.
abbrev pub HasRecent : PriorityQueue → List HeapEntry → Type 0
HasRecent q a = (i : ℕ) → i < length a → age q.next_seq (at a i) < 2 ^ 31

-- `insert` on a full queue panics.
pub insert-full :
    (n : ℕ) (q : PriorityQueue) (a : List HeapEntry) (task_id priority : ℕ)
    → Holds n q a
    → length a ≡ n
    → insert q task_id priority ≡ panic
unfolding insert
insert-full n q a task_id priority v full =
    rw (le→ltb q.len (length q.heap) (omega (arith, Holds-length v, v.len)))

module _ (n : ℕ) (q : PriorityQueue) (a : List HeapEntry) (task_id priority : ℕ) (v : Holds n q a)
    (spare : length a < n) (recent : HasRecent q a) where
  abbrev fresh : HeapEntry
  fresh = entry task_id priority q.next_seq

  abbrev next : ℕ
  next = wrapping_add q.next_seq 1

  older :
      (i : ℕ)
      → i < length a
      → Fits next (at a i) × (rank next (at a i) ≡ rank q.next_seq (at a i) + 1)
  older i h =
      let w = v.word in
      let f = v.fit i h in
      let r = recent i h in
      (record { word = f.word; entered = omega arith; recent = omega arith }, omega arith)

  grown-AllFit : AllFit next (a ++ fresh ∷ [])
  grown-AllFit i h = elim (dec_lt i (length a)) [
    | yes below ↦ rw (get_or-append_left a (fresh ∷ []) i blank below) (older i below).0
    | no last ↦
        rw (get_or-append_last a fresh i blank (omega (arith, length-append a (fresh ∷ []))))
          (let w = v.word in record { word = w; entered = omega arith; recent = omega arith })
  ]

  grown-UpInv : UpInv next (a ++ fresh ∷ []) (length a)
  grown-UpInv =
      let size = length-append a (fresh ∷ []) in
      record {
        inside = omega (arith, size);
        edges = λ c p r s.
            let hc : c < length a = omega (arith, size) in
            let hp : parent c < length a = omega arith in
            rw
              (
                get_or-append_left a (fresh ∷ []) c blank hc,
                get_or-append_left a (fresh ∷ []) (parent c) blank hp,
              )
              (omega (arith, (older c hc).1, (older (parent c) hp).1, v.heap c p hc));
        bridged = λ c p r s. absurd (omega (arith, size));
      }

  abbrev placed : List HeapEntry
  placed = up (length a + 1) (a ++ fresh ∷ []) (length a)

  placed-Sifted : Sifted next (omega arith) (a ++ fresh ∷ []) placed
  placed-Sifted =
      up_restores next (omega arith) (length a + 1) _ (length a) (omega arith) grown-AllFit
        grown-UpInv

  abbrev inserted : PriorityQueue
  inserted = record {
    heap = slots placed (n - (length a + 1));
    len = length a + 1;
    next_seq = next;
  }

  length-placed : length placed ≡ length a + 1
  length-placed = length-perm placed-Sifted.2 ∙ length-append a (fresh ∷ [])

  insert-runs : insert q task_id priority ≡ ok inserted
  unfolding insert sift_up
  insert-runs =
      let pad : n - length a ≡ suc (n - (length a + 1)) = omega arith in
      rw
        (
          lt→ltb q.len (length q.heap) (omega (arith, Holds-length v, v.len)),
          v.array,
          v.len,
          pad,
          append_slot a (n - (length a + 1)) (length a) fresh refl,
          add-sub,
        )
        (rw
          (sift_up_loop-slots (length a + 1) (a ++ fresh ∷ []) (n - (length a + 1)) (length a)
            (omega arith) (omega (arith, length-append a (fresh ∷ []))))
          refl)
    where
      add-sub : length a + 1 - 1 ≡ length a
      add-sub = omega arith

  -- A queue with room takes the task as its newest entry, stays valid and keeps the others.
  pub insert_correct :
      (q' : PriorityQueue) × (b : List HeapEntry) × (insert q task_id priority ≡ ok q')
      × Holds n q' b
      × Perm b (fresh ∷ a)
      × (q'.next_seq ≡ next)
  insert_correct = (
    inserted,
    placed,
    insert-runs,
    record {
      array = rw length-placed;
      len = omega (arith, length-placed);
      room = omega (arith, length-placed);
      word = omega arith;
      fit = placed-Sifted.1;
      heap = placed-Sifted.0;
    },
    Perm.trans placed-Sifted.2 (perm-append_last a fresh),
    refl,
  )
