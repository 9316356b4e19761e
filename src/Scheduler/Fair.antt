-- ===== src/Scheduler/Fair.antt =====
-- How many tasks of its priority are dispatched before a waiting task.
use mathlib.Core.Option
use ferret_os.Common.{
  ℕ, ◌+◌, ◌≤◌, ◌<◌, ◌≡◌, refl, sym, ◌∙◌, true, false, Option, none, some, List, [], ◌∷◌, ◌++◌,
  length, ◌==◌, if◌then◌else◌, arith, Bool-cases, Option-cases, inl, inr, ok, halted, Ensures,
  Ensures->>=, Ensures-next, Ensures-weaken,
}
use ferret_os.Task.{TaskDescriptor, Slots, ready, running, effective_priority}
use ferret_os.Ccg.Populated.{slot}
use ferret_os.Queue.{PriorityQueue, pop_max, insert}
use ferret_os.Queue.Fifo.{Waiter, top, Extracted, here, later}
use ferret_os.Scheduler.{
  Kernel, task_ptr, update_task, effective_of, with_state, with_frame, frame_of, save_current,
  requeue_current, enqueue_ready, mark_running, dispatch_next, yield_current,
}
use ferret_os.Scheduler.Lookup.{slot-update_slot}
use ferret_os.Scheduler.Agrees.{priority, waiting, all_keyed}

-- The waiters of priority `p` in front of the task.
unfoldable pub ahead : ℕ → ℕ → List Waiter → ℕ
ahead j p [] = 0
ahead j p (w ∷ ws) =
    let rest = ahead j p ws in
    if w.task == j then 0 else ((if w.priority == p then 1 else 0) + rest)

pub ahead-le : (j p : ℕ) (ws : List Waiter) → 0 < waiting j ws → ahead j p ws < length ws
unfolding ahead waiting
ahead-le j p [] h = absurd (omega arith)
ahead-le j p (w ∷ ws) h = elim (Bool-cases (w.task == j)) [
  | inl q ↦ rw q (omega arith)
  | inr q ↦
      let h' : 0 < waiting j ws = ground arith in
      let rest = ahead-le j p ws h' in rw q (ground arith)
]

pub ahead-append :
    (j p : ℕ) (ws : List Waiter) (c : Waiter)
    → 0 < waiting j ws
    → ahead j p (ws ++ c ∷ []) ≡ ahead j p ws
unfolding ahead waiting
ahead-append j p [] c h = absurd (omega arith)
ahead-append j p (w ∷ ws) c h = elim (Bool-cases (w.task == j)) [
  | inl q ↦ rw q refl
  | inr q ↦ let h' : 0 < waiting j ws = ground arith in rw (q, ahead-append j p ws c h') refl
]

-- Each dispatch of another task of priority `p` brings the task forward.
pub ahead-Extracted :
    {p : ℕ} {xs ys : List Waiter} {w : Waiter} (slots : Slots) (j : ℕ)
    → Extracted priority p xs w ys
    → all_keyed slots xs ≡ true
    → effective_of (slot slots j) ≡ p
    → (w.task == j) ≡ false
    → ahead j p xs ≡ 1 + ahead j p ys
unfolding ahead all_keyed
ahead-Extracted slots j (here {x} {xs} e) keyed own off = rw off (ground arith)
ahead-Extracted {p = p} slots j (later {z} ne v) keyed own off = elim (Bool-cases (z.task == j)) [
  | inl q ↦ absurd (
      let same : z.task ≡ j = ground arith in
      let key : effective_of (slot slots z.task) ≡ z.priority = ground arith in
      let key' : effective_of (slot slots j) ≡ z.priority = rw same at key in ne (sym key' ∙ own))
  | inr q ↦ let rest = ahead-Extracted slots j v (ground arith) own off in rw q (ground arith)
]

pub top-bounded :
    (slots : Slots) (ws : List Waiter) (p : ℕ)
    → all_keyed slots ws ≡ true
    → ((i : ℕ) → effective_of (slot slots i) ≤ p)
    → top priority ws ≤ p
unfolding all_keyed top
top-bounded slots [] p keyed low = omega arith
top-bounded slots (w ∷ ws) p keyed low =
    let own = low w.task in let rest = top-bounded slots ws p (ground arith) low in ground arith

-- The effective priorities are the same.
pub record SameEffective (k k' : Kernel) : Type 0 where
  pub same :
      (j : ℕ) → effective_of (slot k'.registry.slots j) ≡ effective_of (slot k.registry.slots j)

update_task-SameEffective :
    (k : Kernel) (i : ℕ) (f : TaskDescriptor → TaskDescriptor)
    → ((t : TaskDescriptor) → effective_priority (f t) ≡ effective_priority t)
    → SameEffective k (update_task k i f)
unfolding update_task effective_of
update_task-SameEffective k i f keeps = record {
  same = λ j. rw (slot-update_slot k.registry.slots i j f) (at j);
}
  where
    at :
        (j : ℕ)
        → effective_of
            (if i == j then Option.map f (slot k.registry.slots j) else slot k.registry.slots j)
          ≡ effective_of (slot k.registry.slots j)
    at j = elim (Bool-cases (i == j)) [
      | inr q ↦ rw q refl
      | inl q ↦ elim (Option-cases (slot k.registry.slots j)) [
        | inl gone ↦ rw (q, gone) refl
        | inr (t, here_t) ↦ rw (q, here_t, effective_of) (keeps t)
      ]
    ]

SameEffective-trans : (a b c : Kernel) → SameEffective a b → SameEffective b c → SameEffective a c
SameEffective-trans a b c x y = record { same = λ j. y.same j ∙ x.same j }

mark_running-SameEffective : (k : Kernel) (idx : ℕ) → SameEffective k (mark_running k idx)
unfolding mark_running
mark_running-SameEffective k idx =
    let k₁ = record k { current_task_idx = idx; ticks_since_switch = 0 } in
    elim (Option-cases (task_ptr k₁ idx)) [
      | inl gone ↦ rw (gone, mark_running) (record { same = λ j. refl })
      | inr (t, at) ↦
          let s =
            update_task-SameEffective k₁ idx (with_state running)
              (λ u. unfold effective_priority in refl) in
          rw (at, mark_running) (unfold update_task in record { same = s.same })
    ]

requeue_current-SameEffective : (k : Kernel) → Ensures (SameEffective k) (requeue_current k)
unfolding requeue_current enqueue_ready
requeue_current-SameEffective k = elim (Option-cases (task_ptr k k.current_task_idx)) [
  | inl gone ↦ rw (gone, requeue_current) (record { same = λ j. refl })
  | inr (t, at) ↦
      let s =
        update_task-SameEffective k k.current_task_idx (with_state ready)
          (λ u. unfold effective_priority in refl) in
      rw (at, requeue_current)
        (Ensures-next (SameEffective k)
          (insert k.ready_queue k.current_task_idx (effective_priority (with_state ready t))) _
          (λ q. unfold update_task in record { same = s.same }))
]

dispatch_next-SameEffective :
    (k : Kernel) → Ensures (λ (frame, k'). SameEffective k k') (dispatch_next k)
unfolding dispatch_next
dispatch_next-SameEffective k =
    Ensures-next (λ (frame, k'). SameEffective k k') (pop_max k.ready_queue) _
      (λ (next, q). taken next q)
  where
    taken :
        (next : Option ℕ) (q : PriorityQueue)
        → Ensures
            (λ (frame, k'). SameEffective k k')
            (elim next [
              | none ↦ halted
              | some idx ↦
                  let k₂ = mark_running (record k { ready_queue = q }) idx in
                  ok (frame_of k₂ idx, k₂)
            ])
    taken none q = tt
    taken (some idx) q =
        let s = mark_running-SameEffective (record k { ready_queue = q }) idx in
        record { same = s.same }

pub save_current-SameEffective : (frame : ℕ) (k : Kernel) → SameEffective k (save_current k frame)
unfolding save_current
save_current-SameEffective frame k =
    update_task-SameEffective k k.current_task_idx (with_frame frame)
      (λ u. unfold effective_priority in refl)

pub yield_current-SameEffective :
    (frame : ℕ) (k : Kernel) → Ensures (λ (frame', k'). SameEffective k k') (yield_current frame k)
unfolding yield_current
yield_current-SameEffective frame k =
    let saved = save_current k frame in
    let s₀ = save_current-SameEffective frame k in
    Ensures->>= (SameEffective saved) (λ (frame', k'). SameEffective k k') (requeue_current saved)
      dispatch_next (requeue_current-SameEffective saved)
      (λ k₁ s₁.
        Ensures-weaken (λ (frame', k'). SameEffective k₁ k') (λ (frame', k'). SameEffective k k')
          (dispatch_next k₁)
          (λ (frame', k') s₂. SameEffective-trans k k₁ k' (SameEffective-trans k saved k₁ s₀ s₁) s₂)
          (dispatch_next-SameEffective k₁))
