-- ===== src/Queue/Tests.antt =====
-- The unit tests of kernel/src/scheduler/queue.rs, run on the model, and the witnesses.
use ferret_os.Common.{
  ℕ, zero, suc, ◌+◌, ◌-◌, ◌≤◌, ◌<◌, ◌≡◌, ◌≢◌, ◌⊎◌, refl, Bool, false, none, some, List, [], ◌∷◌,
  replicate, arith, ok, ◌>>=◌, u32_mod, Perm, wrapping_add,
}
use ferret_os.Queue.{HeapEntry, PriorityQueue, entry, new, insert, pop_max, remove, parent}
use ferret_os.Queue.Live.{at, slots}
use ferret_os.Queue.Order.{Fits, rank}
use ferret_os.Queue.Valid.{Holds}
use ferret_os.Queue.Insert.{insert_correct, HasRecent}
use ferret_os.Queue.Pop.{pop_max_correct}
use ferret_os.Queue.Remove.{Taken, remove_correct}
use ferret_os.Queue.Fifo.{put, take, run}
use ferret_os.Queue.Refine.{run_calls, run_refines}

wrap_around :
    (do
      a ← insert (record (new 4) { next_seq = u32_mod - 2 }) 7 1
      b ← insert a 8 1
      c ← insert b 9 1
      (i, d) ← pop_max c
      (j, e) ← pop_max d
      (k, f) ← pop_max e
      ok (i ∷ j ∷ k ∷ []))
    ≡ ok (some 7 ∷ some 8 ∷ some 9 ∷ [])
unfolding new insert pop_max
wrap_around = refl

abbrev two : List HeapEntry
two = entry 7 3 0 ∷ entry 8 1 1 ∷ []

abbrev queue : ℕ → PriorityQueue
queue pad = record {
  heap = some (entry 7 3 0) ∷ some (entry 8 1 1) ∷ replicate pad none;
  len = 2;
  next_seq = 2;
}

two_fit : (i : ℕ) → i < 2 → Fits 2 (at two i)
two_fit zero h = record { word = omega arith; entered = omega arith; recent = omega arith }
two_fit (suc zero) h = record { word = omega arith; entered = omega arith; recent = omega arith }
two_fit (suc (suc i)) h = absurd (omega arith)

two_heap : (c : ℕ) → 0 < c → c < 2 → rank 2 (at two c) ≤ rank 2 (at two (parent c))
two_heap zero p h = absurd (omega arith)
two_heap (suc zero) p h = omega arith
two_heap (suc (suc c)) p h = absurd (omega arith)

two_recent : (pad : ℕ) → HasRecent (queue pad) two
two_recent pad zero h = omega arith
two_recent pad (suc zero) h = omega arith
two_recent pad (suc (suc i)) h = absurd (omega arith)

queue-Holds : (pad : ℕ) → Holds (2 + pad) (queue pad) two
unfolding slots
queue-Holds pad = record {
  array = let e : 2 + pad - 2 ≡ pad = omega arith in rw e refl;
  len = refl;
  room = omega arith;
  word = omega arith;
  fit = two_fit;
  heap = two_heap;
}

insert_correct_example :
    (q' : PriorityQueue) × (b : List HeapEntry) × (insert (queue 2) 9 2 ≡ ok q')
    × Holds 4 q' b
    × Perm b (entry 9 2 2 ∷ two)
    × (q'.next_seq ≡ wrapping_add 2 1)
insert_correct_example =
    insert_correct 4 (queue 2) two 9 2 (queue-Holds 2) (omega arith) (two_recent 2)

pop_max_correct_example :
    (q' : PriorityQueue) × (b : List HeapEntry) × (pop_max (queue 2) ≡ ok (some 7, q'))
    × Holds 4 q' b
    × Perm (entry 7 3 0 ∷ b) two
    × ((i : ℕ) → i < 2 → rank 2 (at two i) ≤ rank 2 (entry 7 3 0))
    × (q'.next_seq ≡ 2)
pop_max_correct_example = pop_max_correct 4 (queue 2) two (queue-Holds 2) (omega arith)

remove_correct_example :
    ((remove (queue 2) 8 ≡ ok (false, queue 2)) × ((j : ℕ) → j < 2 → (at two j).task_id ≢ 8))
    ⊎ ((r : Bool × PriorityQueue) × (b : List HeapEntry) × (i : ℕ) × (remove (queue 2) 8 ≡ ok r)
        × Taken 4 (queue 2) two (queue-Holds 2) 8 r b i)
remove_correct_example = remove_correct 4 (queue 2) two (queue-Holds 2) 8

run_refines_example :
    run_calls (new 4) (put 7 1 ∷ put 8 3 ∷ take ∷ []) ≡ run 4 [] (put 7 1 ∷ put 8 3 ∷ take ∷ [])
run_refines_example = run_refines 4 (put 7 1 ∷ put 8 3 ∷ take ∷ []) (omega arith)
