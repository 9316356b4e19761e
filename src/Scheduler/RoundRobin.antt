-- ===== src/Scheduler/RoundRobin.antt =====
-- Tasks of the same effective priority take turns.
use ferret_os.Common.{
  ℕ, zero, suc, ◌+◌, ◌-◌, ◌^◌, ◌≤◌, ◌<◌, ◌≡◌, refl, sym, ◌∙◌, true, some, List, [], ◌∷◌, ◌++◌,
  length, length-append, ◌==◌, arith, Bool-cases, inl, inr, ◌⊎◌, Run, ok, ◌>>=◌,
}
use ferret_os.Task.{TaskDescriptor, effective_priority}
use ferret_os.Ccg.Populated.{slot}
use ferret_os.Queue.Fifo.{Waiter, top, Extracted, dequeued-Extracted}
use ferret_os.Scheduler.{update_task, Kernel, effective_of, frame_of, save_current, yield_current}
use ferret_os.Scheduler.Lookup.{is_ready}
use ferret_os.Scheduler.Agrees.{
  priority, waiter, waiting, all_keyed, all_keyed-append, waiting-append, waiting-top,
  waiting-Extracted,
}
use ferret_os.Scheduler.Steps.{Sound, only, save_current-Sound}
use ferret_os.Scheduler.Dispatch.{requeue_current-Sound, dispatch_next-Sound}
use ferret_os.Scheduler.Calls.{Steady}
use ferret_os.Scheduler.Fair.{
  ahead, ahead-le, ahead-append, ahead-Extracted, top-bounded, SameEffective,
  save_current-SameEffective, yield_current-SameEffective,
}

-- Yields, each by the task that then runs, with the frames that are saved.
unfoldable pub yields : ℕ → (ℕ → ℕ) → Kernel → Run Kernel
yields zero frames k = ok k
yields (suc m) frames k =
    yield_current (frames 0) k >>= λ (frame, k'). yields m (λ i. frames (i + 1)) k'

-- A yield, on the list of waiting tasks: the caller, which is `c`, goes to its end, and `w` is taken out.
yield_step :
    (n frame : ℕ) (k : Kernel) (ws : List Waiter)
    → Sound n (only k.current_task_idx) k ws
    → n < 2 ^ 31
    → (c w : Waiter) × (ws' : List Waiter) × (frame' : ℕ) × (k' : Kernel) × (yield_current frame k
        ≡ ok (frame', k'))
      × Sound (n + 1) (only k'.current_task_idx) k' ws'
      × (k'.current_task_idx ≡ w.task)
      × Extracted priority (top priority (ws ++ c ∷ [])) (ws ++ c ∷ []) w ws'
      × (all_keyed k.registry.slots (ws ++ c ∷ []) ≡ true)
unfolding yield_current effective_of
yield_step n frame k ws s few =
    let saved = save_current k frame in
    let s₀ = save_current-Sound n k ws frame (s) in
    let e₀ = save_current-SameEffective frame k in
    let (k₁, t, at, runs₁, s₁, same₁) = requeue_current-Sound n saved ws (saved_only s₀) few in
    let c = waiter saved.current_task_idx (effective_priority t) in
    let (w, ws', k₂, deq, runs₂, s₂, same₂, served) =
      dispatch_next-Sound (n + 1) k₁ (ws ++ c ∷ []) s₁ (omega (arith, length-append ws (c ∷ []))) in
    let own : effective_of (slot k.registry.slots saved.current_task_idx) ≡ effective_priority t =
      sym (e₀.same saved.current_task_idx) ∙ rw (at, effective_of) refl in
    let keyed = s.agrees.keyed in
    (
      c,
      w,
      ws',
      frame_of k₂ w.task,
      k₂,
      rw runs₁ runs₂,
      rw same₂ s₂,
      same₂,
      dequeued-Extracted priority (ws ++ c ∷ []) w ws' deq,
      all_keyed-append k.registry.slots ws c ∙ ground (arith, own),
    )
  where
    saved_only :
        Sound n (only k.current_task_idx) (save_current k frame) ws
        → Sound n (only (save_current k frame).current_task_idx) (save_current k frame) ws
    saved_only x = unfold save_current update_task in x

-- Task `j` waits, with the highest effective priority of all tasks, behind `n` others of this priority.
record Next (j p n : ℕ) (k : Kernel) (ws : List Waiter) : Type 0 where
  low : (i : ℕ) → effective_of (slot k.registry.slots i) ≤ p
  own : effective_of (slot k.registry.slots j) ≡ p
  waits : 0 < waiting j ws
  behind : ahead j p ws ≤ n

-- A yield starts the task, or brings it forward.
turn :
    (left n j p frame : ℕ) (k : Kernel) (ws : List Waiter)
    → Sound n (only k.current_task_idx) k ws
    → n < 2 ^ 31
    → Next j p left k ws
    → (frame' : ℕ) × (k' : Kernel) × (ws' : List Waiter) × (yield_current frame k ≡ ok (frame', k'))
      × Sound (n + 1) (only k'.current_task_idx) k' ws'
      × ((k'.current_task_idx ≡ j) ⊎ ((less : ℕ) × (less + 1 ≡ left) × Next j p less k' ws'))
turn left n j p frame k ws s few next =
    let (c, w, ws', frame', k', runs, s', at, taken, keyed) = yield_step n frame k ws s few in
    let same : SameEffective k k' = rw runs at (yield_current-SameEffective frame k) in
    let slots = k.registry.slots in
    let own = next.own in
    let waits = next.waits in
    let behind = next.behind in
    let more : 0 < waiting j (ws ++ c ∷ []) = omega (arith, waiting-append j ws c) in
    let best : top priority (ws ++ c ∷ []) ≡ p = omega (
      arith,
      top-bounded slots (ws ++ c ∷ []) p keyed next.low,
      waiting-top slots (ws ++ c ∷ []) j keyed more,
      own,
    ) in
    let taken' = rw best at taken in
    (
      frame',
      k',
      ws',
      runs,
      s',
      elim (Bool-cases (w.task == j)) [
        | inl mine ↦ inl (ground (arith, at))
        | inr other ↦
            let forward = ahead-Extracted slots j taken' keyed own other in
            let still = waiting-Extracted taken' j in
            let same_place = ahead-append j p ws c waits in
            inr (
              left - 1,
              omega (arith, forward, same_place),
              record {
                low = λ i. rw (same.same i) (next.low i);
                own = same.same j ∙ own;
                waits = ground arith;
                behind = omega (arith, forward, same_place);
              },
            )
      ],
    )

turns :
    (left n j p : ℕ) (frames : ℕ → ℕ) (k : Kernel) (ws : List Waiter)
    → Sound n (only k.current_task_idx) k ws
    → Next j p left k ws
    → n + left < 2 ^ 31
    → (m : ℕ) × (k' : Kernel) × (m ≤ left + 1)
      × (yields m frames k ≡ ok k')
      × (k'.current_task_idx ≡ j)
unfolding yields
turns zero n j p frames k ws s next few =
    let (frame', k', ws', runs, s', how) = turn zero n j p (frames 0) k ws s (omega arith) next in
    elim how [
      | inl mine ↦ (1, k', omega arith, rw runs refl, mine)
      | inr (less, one, next') ↦ absurd (omega arith)
    ]
turns (suc left) n j p frames k ws s next few =
    let (frame', k', ws', runs, s', how) =
      turn (suc left) n j p (frames 0) k ws s (omega arith) next in
    elim how [
      | inl mine ↦ (1, k', omega arith, rw runs refl, mine)
      | inr (less, one, next') ↦
          let same : less ≡ left = omega arith in
          let (m, k'', few', runs', mine) =
            turns left (n + 1) j p (λ i. frames (i + 1)) k' ws' s' (rw same at next')
              (omega arith) in
          (suc m, k'', omega arith, rw runs runs', mine)
    ]

-- From a steady kernel that stays within 2^31 inserts, a ready task that no task outranks runs after at
-- most as many yields as tasks are waiting.
pub yields-turn :
    (n j : ℕ) (frames : ℕ → ℕ) (k : Kernel) (t : TaskDescriptor)
    → (s : Steady n k) → n + length s.waiters < 2 ^ 31
    → slot k.registry.slots j ≡ some t
    → is_ready (some t) ≡ true
    → ((i : ℕ) → effective_of (slot k.registry.slots i) ≤ effective_priority t)
    → (m : ℕ) × (k' : Kernel) × (m ≤ length s.waiters)
      × (yields m frames k ≡ ok k')
      × (k'.current_task_idx ≡ j)
unfolding effective_of
yields-turn n j frames k t s few at is low =
    let waits = s.sound.agrees.waits j in
    let one : waiting j s.waiters ≡ 1 = waits ∙ rw (at, is) refl in
    let p = effective_priority t in
    let before = ahead-le j p s.waiters (omega arith) in
    let (m, k', close, runs, mine) =
      turns (ahead j p s.waiters) n j p frames k s.waiters s.sound
        (record {
          low = low;
          own = rw (at, effective_of) refl;
          waits = omega arith;
          behind = omega arith;
        })
        (omega arith) in
    (m, k', omega arith, runs, mine)
