-- ===== src/Boot/Populate.antt =====
-- `populate_ready_queue` of kernel/src/scheduler/mod.rs on a registry of ready tasks.
use ferret_os.Common.{
  ℕ, zero, suc, ◌+◌, ◌≤◌, ◌<◌, ◌≡◌, refl, ap, ◌∙◌, true, false, Option, none, some, List, [], ◌∷◌,
  ◌++◌, length, ltb, ◌==◌, if◌then◌else◌, Run, ok, halted, arith, Bool-cases, inl, inr, dec_lt,
  ==_refl, length-append, >>=-eq-ok, Option-cases,
}
use ferret_os.Task.{
  TaskDescriptor, TaskState, Registry, Slots, ready, running, blocked, suspended, max_tasks,
  effective_priority,
}
use ferret_os.Ccg.Populated.{slot}
use ferret_os.Queue.{pop_max, PriorityQueue}
use ferret_os.Queue.Fifo.{Waiter, top, dequeued-Extracted}
use ferret_os.Queue.Refine.{Models, insert-Models}
use ferret_os.Scheduler.{
  Kernel, task_ptr, same_state, effective_of, enqueue_all, populate_ready_queue, dispatch_next,
  mark_running, frame_of, update_task,
}
use ferret_os.Scheduler.Lookup.{is_ready, is_running, task_ptr-slot}
use ferret_os.Scheduler.Agrees.{
  waiter, waiting, all_keyed, waiting-append, all_keyed-append, Agrees, taken_ready, priority,
}
use ferret_os.Scheduler.Steps.{Sound, no_one}
use ferret_os.Scheduler.Dispatch.{Served, dispatch_next-Sound}
use ferret_os.Scheduler.Calls.{Steady}

-- The tasks below slot `i` that are ready wait.
pub record Enqueued (i : ℕ) (k : Kernel) (ws : List Waiter) : Type 0 where
  pub queue : Models max_tasks i k.ready_queue ws
  pub waits :
      (j : ℕ)
      → waiting j ws
        ≡ (if ltb j i then (if is_ready (slot k.registry.slots j) then 1 else 0) else 0)
  pub keyed : all_keyed k.registry.slots ws ≡ true
  pub room : length ws ≤ i

ready_slot :
    (o : Option TaskDescriptor)
    → is_ready o ≡ true
    → (t : TaskDescriptor) × (o ≡ some t) × (same_state t.state ready ≡ true)
unfolding is_ready
ready_slot none h = cc
ready_slot (some t) h = (t, refl, h)

effective_at :
    (slots : Slots) (i : ℕ) (t : TaskDescriptor)
    → slot slots i ≡ some t
    → effective_of (slot slots i) ≡ effective_priority t
unfolding effective_of
effective_at slots i t at = rw (at, effective_of) refl

pub enqueue_all-Enqueued :
    (left i : ℕ) (k : Kernel) (ws : List Waiter)
    → length k.registry.slots ≡ max_tasks
    → i + left ≤ max_tasks
    → ((j : ℕ) → j < i + left → is_ready (slot k.registry.slots j) ≡ true)
    → Enqueued i k ws
    → (k' : Kernel) × (ws' : List Waiter) × (enqueue_all left i k ≡ ok k')
      × Enqueued (i + left) k' ws'
      × (k'.registry ≡ k.registry)
      × (length ws' ≡ length ws + left)
unfolding enqueue_all
enqueue_all-Enqueued zero i k ws size low all e =
    let same : i ≡ i + 0 = omega arith in (k, ws, refl, rw same at e, refl, omega arith)
enqueue_all-Enqueued (suc left) i k ws size low all e =
    let (t, at, is) = ready_slot (slot k.registry.slots i) (all i (omega arith)) in
    let p = effective_priority t in
    let (q, runs, models) =
      insert-Models max_tasks i k.ready_queue ws e.queue i p (let r = e.room in omega arith)
        (omega arith) in
    let k₁ : Kernel = record k { ready_queue = q } in
    let e₁ : Enqueued (i + 1) k₁ (ws ++ waiter i p ∷ []) = record {
      queue = models;
      waits = λ j. next j p (e.waits j) (all i (omega arith));
      keyed = own t at;
      room = let r = e.room in omega (arith, length-append ws (waiter i p ∷ []));
    } in
    let (k', ws', goes, e', kept, len) =
      enqueue_all-Enqueued left (i + 1) k₁ (ws ++ waiter i p ∷ []) size (omega arith)
        (λ j h. all j (omega arith)) e₁ in
    let same : i + 1 + left ≡ i + suc left = omega arith in
    (
      k',
      ws',
      rw (task_ptr-slot k i size, at, is, runs, enqueue_all) goes,
      rw same at e',
      kept,
      omega (arith, length-append ws (waiter i p ∷ [])),
    )
  where
    next :
        (j p : ℕ)
        → waiting j ws
          ≡ (if ltb j i then (if is_ready (slot k.registry.slots j) then 1 else 0) else 0)
        → is_ready (slot k.registry.slots i) ≡ true
        → waiting j (ws ++ waiter i p ∷ [])
          ≡ (if ltb j (i + 1) then (if is_ready (slot k.registry.slots j) then 1 else 0) else 0)
    next j p h is =
        let step = waiting-append j ws (waiter i p) in
        elim (Bool-cases (i == j)) [
          | inl here ↦
              let same : i ≡ j = ground arith in
              let is' : is_ready (slot k.registry.slots j) ≡ true = rw same at is in
              let past : ltb j i ≡ false = ground arith in
              let now : ltb j (i + 1) ≡ true = ground arith in
              let none_yet : waiting j ws ≡ 0 = rw past at h in
              rw (now, is') (step ∙ rw (here, none_yet) refl)
          | inr away ↦
              let same : ltb j (i + 1) ≡ ltb j i = ground arith in
              rw same (step ∙ rw away (omega (arith, h)))
        ]

    own :
        (t : TaskDescriptor)
        → slot k.registry.slots i ≡ some t
        → all_keyed k.registry.slots (ws ++ waiter i (effective_priority t) ∷ []) ≡ true
    own t at =
        let key = effective_at k.registry.slots i t at in
        all_keyed-append k.registry.slots ws (waiter i (effective_priority t))
        ∙ rw (e.keyed, key, ==_refl (effective_priority t)) refl

-- What `dispatch_next` takes out of the queue and marks.
taken_marked :
    (k k' : Kernel) (frame : ℕ)
    → dispatch_next k ≡ ok (frame, k')
    → (idx : ℕ) × (q : PriorityQueue) × (pop_max k.ready_queue ≡ ok (some idx, q))
      × (mark_running (record k { ready_queue = q }) idx ≡ k')
unfolding dispatch_next
taken_marked k k' frame h =
    let ((next, q), rest, pops) = >>=-eq-ok (pop_max k.ready_queue) _ h in go next q pops rest
  where
    go :
        (next : Option ℕ) (q : PriorityQueue)
        → pop_max k.ready_queue ≡ ok (next, q)
        → ◌≡◌ {A = Run (ℕ × Kernel)}
            (elim next [
              | none ↦ halted
              | some idx ↦
                  (let k₂ = mark_running (record k { ready_queue = q }) idx in
                    ok (frame_of k₂ idx, k₂))
            ])
            (ok (frame, k'))
        → (idx : ℕ) × (q : PriorityQueue) × (pop_max k.ready_queue ≡ ok (some idx, q))
          × (mark_running (record k { ready_queue = q }) idx ≡ k')
    go none q pops h = cc
    go (some idx) q pops h = (idx, q, pops, cc)

mark_running-count : (k : Kernel) (i : ℕ) → (mark_running k i).registry.count ≡ k.registry.count
unfolding mark_running update_task
mark_running-count k i =
    let k₁ : Kernel = record k { current_task_idx = i; ticks_since_switch = 0 } in
    elim (Option-cases (task_ptr k₁ i)) [
      | inl gone ↦ rw (gone, mark_running) refl
      | inr (t, at) ↦ rw (at, mark_running) refl
    ]

marked_count :
    (k k₁ k' : Kernel) (q : PriorityQueue) (idx : ℕ)
    → k₁.registry ≡ k.registry
    → mark_running (record k₁ { ready_queue = q }) idx ≡ k'
    → k'.registry.count ≡ k.registry.count
marked_count k k₁ k' q idx kept marks =
    let count = mark_running-count (record k₁ { ready_queue = q }) idx in
    let count' : k'.registry.count ≡ k₁.registry.count = rw marks at count in
    count' ∙ ap (λ (r : Registry). r.count) kept

module _ (slots : Slots) (count j : ℕ) (all : j < count → is_ready (slot slots j) ≡ true)
    (free : count ≤ j → slot slots j ≡ none) where
  waits_whole :
      ◌≡◌ {A = ℕ}
        (if ltb j (0 + count) then (if is_ready (slot slots j) then 1 else 0) else 0)
        (if is_ready (slot slots j) then 1 else 0)
  unfolding is_ready
  waits_whole = elim (Bool-cases (ltb j (0 + count))) [
    | inl low ↦ rw low refl
    | inr high ↦ rw (high, free (ground arith)) refl
  ]

  none_runs : is_running (slot slots j) ≡ false
  unfolding is_running
  none_runs = elim (dec_lt j count) [
    | yes low ↦ (let (t, at, is) = ready_slot (slot slots j) (all low) in rw at (go t.state is))
    | no high ↦ rw (free (omega arith)) refl
  ]
    where
      go : (s : TaskState) → same_state s ready ≡ true → same_state s running ≡ false
      go ready h = unfold same_state in refl
      go running h = absurd (unfold same_state in (cc))
      go blocked h = absurd (unfold same_state in (cc))
      go suspended h = absurd (unfold same_state in (cc))

below_count :
    (slots slots₁ : Slots) (count i : ℕ) (t : TaskDescriptor)
    → slots₁ ≡ slots
    → slot slots₁ i ≡ some t
    → ((j : ℕ) → count ≤ j → slot slots j ≡ none)
    → i < count
below_count slots slots₁ count i t same at free = elim (dec_lt i count) [
  | yes lt ↦ lt
  | no ge ↦
      absurd
        (let gone = free i (omega arith) in let at' : slot slots i ≡ some t = rw same at at in cc)
]

-- On a registry of ready tasks, with an empty queue, the first task to run is a task that no ready task
-- outranks, and the queue holds the others.
pub populate_ready_queue-Steady :
    (k : Kernel)
    → length k.registry.slots ≡ max_tasks
    → 0 < k.registry.count
    → k.registry.count ≤ max_tasks
    → ((i : ℕ) → i < k.registry.count → is_ready (slot k.registry.slots i) ≡ true)
    → ((i : ℕ) → k.registry.count ≤ i → slot k.registry.slots i ≡ none)
    → Models max_tasks 0 k.ready_queue []
    → (k' : Kernel) × (populate_ready_queue k ≡ ok k')
      × Steady k.registry.count k'
      × Served k'
      × (k'.registry.count ≡ k.registry.count)
      × (k'.current_task_idx < k.registry.count)
unfolding populate_ready_queue
populate_ready_queue-Steady k size some_task low all free fresh =
    let e₀ : Enqueued 0 k [] = record {
      queue = fresh;
      waits = λ j. unfold waiting in (let past : ltb j 0 ≡ false = ground arith in rw past refl);
      keyed = unfold all_keyed in refl;
      room = omega arith;
    } in
    let (k₁, ws, runs, e, kept, len) =
      enqueue_all-Enqueued k.registry.count 0 k [] size (omega arith) (λ j h. all j (omega arith))
        e₀ in
    let slots_kept : k₁.registry.slots ≡ k.registry.slots = ap (λ (r : Registry). r.slots) kept in
    let agrees : Agrees k₁.registry.slots ws no_one = rw slots_kept (record {
      waits = λ j.
          (rw slots_kept at (e.waits j))
          ∙ waits_whole k.registry.slots k.registry.count j (all j) (free j);
      keyed = rw slots_kept at e.keyed;
      runs = λ j. none_runs k.registry.slots k.registry.count j (all j) (free j);
    }) in
    let sound : Sound k.registry.count no_one k₁ ws = record {
      size = ap (λ (s : Slots). length s) slots_kept ∙ size;
      queue =
          let same : 0 + k.registry.count ≡ k.registry.count = omega arith in rw same at e.queue;
      agrees = agrees;
    } in
    let (w, ws', k', deq, goes, sound', at, served) =
      dispatch_next-Sound k.registry.count k₁ ws sound (omega arith) in
    let (t, here, is) =
      taken_ready k₁.registry.slots ws no_one agrees (top priority ws) w ws'
        (dequeued-Extracted priority ws w ws' deq) in
    let low : k'.current_task_idx < k.registry.count = rw at (
      below_count k.registry.slots k₁.registry.slots k.registry.count w.task t slots_kept here
        free) in
    let (idx, q, pops, marks) = taken_marked k₁ k' (frame_of k' w.task) goes in
    (
      k',
      rw (runs, pops, marks) refl,
      record { waiters = ws'; sound = rw at sound' },
      served,
      marked_count k k₁ k' q idx kept marks,
      low,
    )
