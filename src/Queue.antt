-- ===== src/Queue.antt =====
-- kernel/src/scheduler/queue.rs: the fixed-capacity max-heap of ready tasks.
-- The array length is the const parameter `N`. An index out of range panics, as in Rust. The two
-- sift loops take fuel: an index below `N` rises at most that often, and sinks at most `N` times.
pub mod Live
pub mod Order
pub mod Sift
pub mod Valid
pub mod Insert
pub mod Pop
pub mod Remove
pub mod Fifo
pub mod Refine
mod Tests
use ferret_os.Common.{
  ℕ, zero, suc, ◌+◌, ◌-◌, ◌*◌, ◌/◌, ◌%◌, ◌^◌, ◌≡◌, Bool, true, false, not, ◌&&◌, Option, none, some,
  List, [], ◌∷◌, length, get_elem?, set, replicate, ltb, ◌==◌, if◌then◌else◌, Run, ok, panic,
  out_of_fuel, ◌>>=◌, assert_then, or_panic, wrapping_sub, wrapping_add, is_positive_i32,
}

-- `HeapEntry`. `task_id` and `effective_priority` are `u8`, `seq` is `u32`.
pub record HeapEntry : Type 0 where
  pub task_id : ℕ
  pub effective_priority : ℕ
  pub seq : ℕ

abbrev pub entry : ℕ → ℕ → ℕ → HeapEntry
entry task_id effective_priority seq = record {
  task_id = task_id;
  effective_priority = effective_priority;
  seq = seq;
}

pub record PriorityQueue : Type 0 where
  pub heap : List (Option HeapEntry)
  pub len : ℕ
  pub next_seq : ℕ

unfoldable pub outranks : HeapEntry → HeapEntry → Bool
outranks x y =
    if not (x.effective_priority == y.effective_priority)
    then ltb y.effective_priority x.effective_priority
    else is_positive_i32 (wrapping_sub y.seq x.seq)

-- `PriorityQueue::<N>::new()`
unfoldable pub new : ℕ → PriorityQueue
new n = record { heap = replicate n none; len = 0; next_seq = 0 }

unfoldable pub is_empty : PriorityQueue → Bool
is_empty q = q.len == 0

-- `self.heap[i]`
unfoldable pub load : List (Option HeapEntry) → ℕ → Run (Option HeapEntry)
load h i = or_panic (get_elem? h i)

-- `self.heap[i] = v`
unfoldable pub store :
    List (Option HeapEntry) → ℕ → Option HeapEntry → Run (List (Option HeapEntry))
store h i v = if ltb i (length h) then ok (set h i v) else panic

-- `self.heap.swap(i, j)`
unfoldable pub swap : List (Option HeapEntry) → ℕ → ℕ → Run (List (Option HeapEntry))
unfolding load
swap h i j = do x ← load h i; y ← load h j; ok (set (set h i y) j x)

unfoldable pub outranks_slots : Option HeapEntry → Option HeapEntry → Bool
unfolding outranks
outranks_slots (some x) (some y) = outranks x y
outranks_slots (some x) none = true
outranks_slots none y = false

unfoldable pub outranks_at : List (Option HeapEntry) → ℕ → ℕ → Run Bool
unfolding load outranks_slots
outranks_at h a b = do x ← load h a; y ← load h b; ok (outranks_slots x y)

abbrev pub parent : ℕ → ℕ
parent idx = (idx - 1) / 2

unfoldable pub sift_up_loop : ℕ → List (Option HeapEntry) → ℕ → Run (List (Option HeapEntry))
sift_up_loop zero h idx = out_of_fuel
sift_up_loop (suc fuel) h idx =
    let rise = swap h idx (parent idx) >>= λ h'. sift_up_loop fuel h' (parent idx) in
    let step = outranks_at h idx (parent idx) >>= λ above. if above then rise else ok h in
    if ltb 0 idx then step else ok h

unfoldable pub sift_up : List (Option HeapEntry) → ℕ → Run (List (Option HeapEntry))
unfolding sift_up_loop outranks_at swap
sift_up h idx = sift_up_loop (idx + 1) h idx

-- `if c < self.len && self.outranks_at(c, largest) { largest = c }`
unfoldable pub larger : ℕ → List (Option HeapEntry) → ℕ → ℕ → Run ℕ
unfolding outranks_at
larger len h c largest =
    if ltb c len
    then (outranks_at h c largest >>= λ above. ok (if above then c else largest))
    else ok largest

unfoldable pub sift_down_loop : ℕ → ℕ → List (Option HeapEntry) → ℕ → Run (List (Option HeapEntry))
sift_down_loop zero len h idx = out_of_fuel
sift_down_loop (suc fuel) len h idx = do
  l ← larger len h (2 * idx + 1) idx
  largest ← larger len h (2 * idx + 2) l
  let sink = swap h idx largest >>= λ h'. sift_down_loop fuel len h' largest
  if largest == idx then ok h else sink

unfoldable pub sift_down : ℕ → List (Option HeapEntry) → ℕ → Run (List (Option HeapEntry))
unfolding sift_down_loop larger swap
sift_down len h idx = sift_down_loop (len + 1) len h idx

unfoldable pub insert : PriorityQueue → ℕ → ℕ → Run PriorityQueue
unfolding store sift_up
insert q task_id effective_priority = assert_then (ltb q.len (length q.heap)) (do
  h ← store q.heap q.len (some (entry task_id effective_priority q.next_seq))
  h' ← sift_up h (q.len + 1 - 1)
  ok (record { heap = h'; len = q.len + 1; next_seq = wrapping_add q.next_seq 1 }))

-- `self.heap[i] = self.heap[len]; self.heap[len] = None`
unfoldable pub fill_from_last : List (Option HeapEntry) → ℕ → ℕ → Run (List (Option HeapEntry))
unfolding load store
fill_from_last h i len = do last ← load h len; h' ← store h i last; store h' len none

unfoldable pub pop_max : PriorityQueue → Run (Option ℕ × PriorityQueue)
unfolding load fill_from_last sift_down
pop_max q =
    if q.len == 0
    then ok (none, q)
    else (load q.heap 0 >>= elim [
      | none ↦ ok (none, q)
      | some root ↦ (do
        let len = q.len - 1
        h ← fill_from_last q.heap 0 len
        h' ← if ltb 0 len then sift_down len h 0 else ok h
        ok (some root.task_id, record q { heap = h'; len = len }))
    ])

unfoldable pub peek_max : PriorityQueue → Run (Option ℕ)
unfolding load
peek_max q = load q.heap 0 >>= elim [ none ↦ ok none | some e ↦ ok (some e.task_id) ]

unfoldable pub peek_max_priority : PriorityQueue → Run ℕ
unfolding load
peek_max_priority q = load q.heap 0 >>= elim [ none ↦ ok 0 | some e ↦ ok e.effective_priority ]

-- `(0..self.len).find(..)`, with `left` indices still to look at from `i` on
unfoldable pub find_task : ℕ → List (Option HeapEntry) → ℕ → ℕ → Run (Option ℕ)
unfolding load
find_task zero h i task_id = ok none
find_task (suc left) h i task_id =
    let rest = find_task left h (i + 1) task_id in
    load h i >>= elim [ none ↦ rest | some e ↦ if e.task_id == task_id then ok (some i) else rest ]

unfoldable pub remove : PriorityQueue → ℕ → Run (Bool × PriorityQueue)
unfolding find_task fill_from_last sift_down sift_up
remove q task_id = find_task q.len q.heap 0 task_id >>= elim [
  | none ↦ ok (false, q)
  | some idx ↦ (do
    let len = q.len - 1
    h ← fill_from_last q.heap idx len
    let repair = sift_down len h idx >>= λ h'. sift_up h' idx
    h' ← if ltb idx len then repair else ok h
    ok (true, record q { heap = h'; len = len }))
]
