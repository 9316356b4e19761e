-- ===== src/Queue/Refine.antt =====
-- The heap behaves as the list of its waiting tasks in order of arrival.
use mathlib.Core.List.Perm
use mathlib.Core.HLevel.{×₃_prop}
use native.Mathlib.Nat.{ℕ_set}
use mathlib.Core.List.{
  mem-append, map-append, not-mem-nil, mem-cons, mem-cons_self, mem-cons_of_mem,
}
use mathlib.Core.Logic.Or
use native.Mathlib.Bridge.{le_prop}
use ferret_os.Common.{
  ℕ, zero, suc, ◌+◌, ◌<◌, ◌≤◌, ◌^◌, ◌≡◌, refl, sym, ap, ◌==◌, List, [], ◌∷◌, ◌++◌, map, Mem, length,
  arith, Perm, Option, none, some, Run, ok, ◌>>=◌, length-perm, length-map, perm-append_last, ◌∙◌,
  wrapping_add, inl, inr, ltb, ltb→lt, Bool-cases,
}
use mathlib.Core.Path.{subst}
use ferret_os.Queue.{
  HeapEntry, PriorityQueue, entry, new, insert, pop_max, peek_max_priority, is_empty,
}
use ferret_os.Queue.Live.{at}
use ferret_os.Queue.Order.{age, rank}
use ferret_os.Queue.Valid.{Holds, new-Holds}
use ferret_os.Queue.Insert.{insert_correct, insert-full}
use ferret_os.Queue.Pop.{pop_max_correct, pop_max-empty, peek-runs}
use ferret_os.Queue.Fifo.{
  Waiter, Op, put, take, run, top, dequeue, dequeue-map, dequeue-nil, Extracted, here, later,
  extract-cases, dequeued-Extracted, Extracted-perm, Extracted-priority, le-top, top-le,
}

abbrev pub waiter : HeapEntry → Waiter
waiter e = record { task = e.task_id; priority = e.effective_priority }

abbrev prio : HeapEntry → ℕ
prio e = e.effective_priority

-- Oldest first.
abbrev pub IsByAge : ℕ → List HeapEntry → Type 0
IsByAge now [] = Unit {0}
IsByAge now (e ∷ es) = ((d : HeapEntry) → Mem d es → age now d < age now e) × IsByAge now es

-- `q` is a valid heap of the tasks `ws`, listed in order of arrival; none is more than `k` inserts old.
pub record Models (n k : ℕ) (q : PriorityQueue) (ws : List Waiter) : Type 0 where
  pub entries : List HeapEntry
  pub arrivals : List HeapEntry
  pub holds : Holds n q entries
  pub same : Perm arrivals entries
  pub by_age : IsByAge q.next_seq arrivals
  pub young : (i : ℕ) → i < length entries → age q.next_seq (at entries i) ≤ k
  pub view : ws ≡ map waiter arrivals

-- A property of every index holds of every member.
at_mem :
    {P : HeapEntry → Type 0}
    → ((e : HeapEntry) → IsProp (P e))
    → (a : List HeapEntry) → ((i : ℕ) → i < length a → P (at a i))
    → (e : HeapEntry) → Mem e a
    → P e
at_mem is_prop [] h e m = absurd (not-mem-nil m)
at_mem {P} is_prop (x ∷ a) h e m =
    Or.elim (is_prop e) (mem-cons.0 m) (λ q. subst P (sym q) (h 0 (omega arith)))
      (at_mem is_prop a (λ i p. h (suc i) (omega arith)) e)

mem_at : (a : List HeapEntry) (i : ℕ) → i < length a → Mem (at a i) a
mem_at [] i h = absurd (omega arith)
mem_at (x ∷ a) zero h = mem-cons_self
mem_at (x ∷ a) (suc i) h = mem-cons_of_mem x (mem_at a i (omega arith))

IsByAge-extracted :
    (now : ℕ) {p : ℕ} {es : List HeapEntry} {x : HeapEntry} {ys : List HeapEntry}
    → Extracted prio p es x ys
    → IsByAge now es
    → IsByAge now ys
IsByAge-extracted now (here e) h = h.1
IsByAge-extracted now (later ne v) h = (
  (λ d m. h.0 d ((Perm.mem_iff (Extracted-perm prio v)).0 (mem-cons_of_mem _ m))),
  IsByAge-extracted now v h.1,
)

-- The extracted entry is older than any other of its priority.
Extracted-oldest :
    (now : ℕ) {p : ℕ} {es : List HeapEntry} {x : HeapEntry} {ys : List HeapEntry}
    → Extracted prio p es x ys
    → IsByAge now es
    → (d : HeapEntry) → Mem d ys
    → prio d ≡ p
    → age now d < age now x
Extracted-oldest now (here e) h d m q = h.0 d m
Extracted-oldest now (later ne v) h d m q =
    Or.elim le_prop (mem-cons.0 m) (λ e. absurd (ne (rw (← e) q)))
      (λ m'. Extracted-oldest now v h.1 d m' q)

HeapEntry-set : IsSet HeapEntry
HeapEntry-set = hlevel

-- The entry of the highest rank is the first of the highest priority in order of arrival.
dequeue_highest :
    (now : ℕ) (es : List HeapEntry) (r : HeapEntry)
    → IsByAge now es
    → Mem r es
    → ((e : HeapEntry) → Mem e es → rank now e ≤ rank now r)
    → (ys : List HeapEntry) × (dequeue prio es ≡ some (r, ys)) × Perm (r ∷ ys) es × IsByAge now ys
unfolding dequeue
dequeue_highest now es r ordered here_r highest = elim (extract-cases prio (top prio es) es) [
  | inl (missing, all) ↦ absurd (all r here_r (sym level))
  | inr (x, ys, found, v) ↦
      let same : x ≡ r =
        Or.elim (HeapEntry-set x r) (mem-cons.0 ((Perm.mem_iff (Extracted-perm prio v)).1 here_r))
          sym
          λ m.
            let older = Extracted-oldest now v ordered r m (sym level) in
            let low = highest x ((Perm.mem_iff (Extracted-perm prio v)).0 mem-cons_self) in
            absurd (omega (arith, older, low, Extracted-priority prio v, level)) in
      (ys, rw (← same) found, rw (← same) (Extracted-perm prio v), IsByAge-extracted now v ordered)
]
  where
    level : top prio es ≡ prio r
    level = omega (
      arith,
      le-top prio es r here_r,
      top-le prio es (prio r) (λ e m. omega (arith, highest e m)),
    )

pub new-Models : (n : ℕ) → Models n 0 (new n) []
new-Models n = record {
  entries = [];
  arrivals = [];
  holds = new-Holds n;
  same = Perm.nil;
  by_age = tt;
  young = λ i h. absurd (omega arith);
  view = refl;
}

Models-length :
    {n k : ℕ} {q : PriorityQueue} {ws : List Waiter} (v : Models n k q ws)
    → length ws ≡ length v.entries
Models-length v = rw v.view (length-map waiter v.arrivals ∙ length-perm v.same)

IsByAge-append :
    (now : ℕ) (es : List HeapEntry) (f : HeapEntry)
    → IsByAge now es
    → ((e : HeapEntry) → Mem e es → age now f < age now e)
    → IsByAge now (es ++ f ∷ [])
IsByAge-append now [] f h older = ((λ d m. absurd (not-mem-nil m)), tt)
IsByAge-append now (e ∷ es) f h older = (
  (λ d m.
      Or.elim le_prop (mem-append.0 m) (λ m'. h.0 d m')
        λ m'.
          Or.elim le_prop (mem-cons.0 m') (λ q. rw q (older e mem-cons_self))
            (λ m''. absurd (not-mem-nil m''))),
  IsByAge-append now es f h.1 (λ d m. older d (mem-cons_of_mem e m)),
)

IsByAge-later :
    (now next : ℕ) (es : List HeapEntry)
    → ((e : HeapEntry) → Mem e es → age next e ≡ age now e + 1)
    → IsByAge now es
    → IsByAge next es
IsByAge-later now next [] h o = tt
IsByAge-later now next (e ∷ es) h o = (
  (λ d m. omega (arith, h d (mem-cons_of_mem e m), h e mem-cons_self, o.0 d m)),
  IsByAge-later now next es (λ d m. h d (mem-cons_of_mem e m)) o.1,
)

age_le_prop : (now k : ℕ) (e : HeapEntry) → IsProp (age now e ≤ k)
age_le_prop now k e = le_prop

module _ (n k : ℕ) (q : PriorityQueue) (ws : List Waiter) (v : Models n k q ws) where
  module _ (task_id priority : ℕ) (q' : PriorityQueue) (b : List HeapEntry) (held : Holds n q' b)
      (same : Perm b (entry task_id priority q.next_seq ∷ v.entries))
      (now' : q'.next_seq ≡ wrapping_add q.next_seq 1) (few : k < 2 ^ 31) where
    abbrev fresh : HeapEntry
    fresh = entry task_id priority q.next_seq

    aged :
        (e : HeapEntry)
        → Mem e v.entries
        → (age q'.next_seq e ≡ age q.next_seq e + 1)
          × (age q.next_seq e ≤ k)
          × (1 ≤ age q.next_seq e)
    aged =
        at_mem (λ e. ×₃_prop (ℕ_set _ _) le_prop le_prop) v.entries
          λ i h.
            let f = v.holds.fit i h in
            let y = v.young i h in
            let w = v.holds.word in (rw now' (omega (arith, f.word, f.entered, w)), y, f.entered)

    newest : age q'.next_seq fresh ≡ 1
    newest = let w = v.holds.word in rw now' (omega arith)

    arrived : (e : HeapEntry) → Mem e v.arrivals → Mem e v.entries
    arrived e = (Perm.mem_iff v.same).0

    grown_young : (e : HeapEntry) → Mem e (fresh ∷ v.entries) → age q'.next_seq e ≤ k + 1
    grown_young e m =
        Or.elim le_prop (mem-cons.0 m) (λ h. rw h (omega (arith, newest)))
          (λ h. omega (arith, (aged e h).0, (aged e h).1))

    grown-Models : Models n (k + 1) q' (ws ++ record { task = task_id; priority = priority } ∷ [])
    grown-Models = record {
      entries = b;
      arrivals = v.arrivals ++ fresh ∷ [];
      holds = held;
      same =
          Perm.trans (perm-append_last v.arrivals fresh)
            (Perm.trans (Perm.cons fresh v.same) (Perm.symm same));
      by_age =
          IsByAge-append q'.next_seq v.arrivals fresh
            (IsByAge-later q.next_seq q'.next_seq v.arrivals (λ e m. (aged e (arrived e m)).0)
              v.by_age)
            (λ e m. omega (arith, newest, (aged e (arrived e m)).0, (aged e (arrived e m)).2));
      young = λ i h. grown_young (at b i) ((Perm.mem_iff same).0 (mem_at b i h));
      view = rw (v.view, map-append) refl;
    }

  -- `insert` with room is arrival at the end of the line.
  pub insert-Models :
      (task_id priority : ℕ)
      → length ws < n
      → k < 2 ^ 31
      → (q' : PriorityQueue) × (insert q task_id priority ≡ ok q')
        × Models n (k + 1) q' (ws ++ record { task = task_id; priority = priority } ∷ [])
  insert-Models task_id priority room few =
      let spare : length v.entries < n = omega (arith, Models-length v) in
      let (q', b, runs, held, same, now') =
        insert_correct n q v.entries task_id priority v.holds spare
          (λ i h. omega (arith, v.young i h)) in
      (q', runs, grown-Models task_id priority q' b held same now' few)

  module _ (q' : PriorityQueue) (b : List HeapEntry) (held : Holds n q' b)
      (some_left : 0 < length v.entries) (same : Perm (at v.entries 0 ∷ b) v.entries)
      (now' : q'.next_seq ≡ q.next_seq)
      (highest : (i : ℕ)
        → i < length v.entries
        → rank q.next_seq (at v.entries i) ≤ rank q.next_seq (at v.entries 0)) where
    abbrev root : HeapEntry
    root = at v.entries 0

    chosen :
        (ys : List HeapEntry) × (dequeue prio v.arrivals ≡ some (root, ys))
        × Perm (root ∷ ys) v.arrivals
        × IsByAge q.next_seq ys
    chosen =
        dequeue_highest q.next_seq v.arrivals root v.by_age
          ((Perm.mem_iff v.same).1 (mem_at v.entries 0 some_left))
          (λ e m.
            at_mem {P = λ d. rank q.next_seq d ≤ rank q.next_seq root} (λ d. le_prop) v.entries
              highest e ((Perm.mem_iff v.same).0 m))

    left-Models : Models n k q' (map waiter chosen.0)
    left-Models = record {
      entries = b;
      arrivals = chosen.0;
      holds = held;
      same = Perm.cons_inv (Perm.trans chosen.2 (Perm.trans v.same (Perm.symm same)));
      by_age = rw now' chosen.3;
      young = λ i h. rw now' (
          at_mem {P = λ d. age q.next_seq d ≤ k} (λ d. le_prop) v.entries v.young (at b i)
            ((Perm.mem_iff same).0 (mem-cons_of_mem root (mem_at b i h))));
      view = refl;
    }

    dequeued : dequeue (λ w. w.priority) ws ≡ some (waiter root, map waiter chosen.0)
    dequeued = rw (v.view, dequeue-map waiter (λ w. w.priority) v.arrivals, chosen.1) refl

  -- `pop_max` on a non-empty queue serves the first waiting task of the highest priority.
  pub pop_max-Models :
      0 < length ws
      → (w : Waiter) × (ws' : List Waiter) × (q' : PriorityQueue) × (dequeue (λ x. x.priority) ws
          ≡ some (w, ws'))
        × (pop_max q ≡ ok (some w.task, q'))
        × Models n k q' ws'
  pop_max-Models h =
      let some_left : 0 < length v.entries = omega (arith, Models-length v) in
      let (q', b, runs, held, same, highest, now') =
        pop_max_correct n q v.entries v.holds some_left in
      (
        waiter (at v.entries 0),
        map waiter (chosen q' b held some_left same now' highest).0,
        q',
        dequeued q' b held some_left same now' highest,
        runs,
        left-Models q' b held some_left same now' highest,
      )

  -- The peek shows the highest priority of a waiting task.
  pub peek-Models : 0 < length ws → peek_max_priority q ≡ ok (top (λ x. x.priority) ws)
  peek-Models h =
      let some_left : 0 < length v.entries = omega (arith, Models-length v) in
      let (q', b, runs, held, same, highest, now') =
        pop_max_correct n q v.entries v.holds some_left in
      let taken = dequeued q' b held some_left same now' highest in
      let best =
        Extracted-priority (λ x. x.priority) (dequeued-Extracted (λ x. x.priority) ws _ _ taken) in
      (peek-runs n q v.entries v.holds some_left).1 ∙ ap ok best

  pub is_empty-Models : is_empty q ≡ (length ws == 0)
  unfolding is_empty
  is_empty-Models = let count = v.holds.len in rw (count, Models-length v) refl

  pub Models-later : Models n (k + 1) q ws
  Models-later = record {
    entries = v.entries;
    arrivals = v.arrivals;
    holds = v.holds;
    same = v.same;
    by_age = v.by_age;
    young = λ i h. omega (arith, v.young i h);
    view = v.view;
  }

-- What a client sees of its calls on the heap.
pub run_calls : PriorityQueue → List Op → Run (List (Option ℕ))
run_calls q [] = ok []
run_calls q (put task priority ∷ ops) =
    insert q task priority >>= λ q'. run_calls q' ops >>= λ rs. ok (none ∷ rs)
run_calls q (take ∷ ops) = pop_max q >>= λ (r, q'). run_calls q' ops >>= λ rs. ok (r ∷ rs)

pub pop_max-none : {n k : ℕ} {q : PriorityQueue} (v : Models n k q []) → pop_max q ≡ ok (none, q)
pop_max-none {n} {k} {q} v = go v.entries v.holds (Models-length v)
  where
    go : (a : List HeapEntry) → Holds n q a → 0 ≡ length a → pop_max q ≡ ok (none, q)
    go [] h e = pop_max-empty n q h
    go (x ∷ a) h e = absurd (omega arith)

-- No run of fewer than 2^31 calls tells the heap from the list of waiting tasks.
run_from :
    (ops : List Op) (n k : ℕ) (q : PriorityQueue) (ws : List Waiter)
    → Models n k q ws
    → k + length ops ≤ 2 ^ 31
    → run_calls q ops ≡ run n ws ops
unfolding run_calls run
run_from [] n k q ws v few = refl
run_from (put task priority ∷ ops) n k q ws v few = elim (Bool-cases (ltb (length ws) n)) [
  | inl e ↦
      let (q', runs, v') = insert-Models n k q ws v task priority (ltb→lt _ _ e) (omega arith) in
      rw (
        e,
        runs,
        run_from ops n (k + 1) q' (ws ++ record { task = task; priority = priority } ∷ []) v'
            (omega arith),
      )
  | inr e ↦ rw (
    e,
    insert-full n q v.entries task priority v.holds (ground (arith, Models-length v, v.holds.room)),
  )
]
run_from (take ∷ ops) n k q [] v few = rw (
  pop_max-none v,
  dequeue-nil {A = Waiter} (λ w. w.priority),
  run,
  run_from ops n k q [] v (omega arith),
)
run_from (take ∷ ops) n k q (w ∷ ws) v few =
    let (x, ws', q', first, runs, v') = pop_max-Models n k q (w ∷ ws) v (omega arith) in
    rw (runs, first, run, run_from ops n k q' ws' v' (omega arith))

pub run_refines :
    (n : ℕ) (ops : List Op) → length ops ≤ 2 ^ 31 → run_calls (new n) ops ≡ run n [] ops
run_refines n ops few = run_from ops n 0 (new n) [] (new-Models n) (omega arith)
