-- ===== src/Scheduler/Calls.antt =====
-- The entry points of the scheduler keep the invariant, and leave the best task running.
use ferret_os.Common.{
  ℕ, ◌+◌, ◌^◌, ◌≤◌, ◌<◌, ◌≡◌, refl, Bool, true, false, none, some, List, [], ◌∷◌, ◌++◌, length,
  ◌==◌, if◌then◌else◌, arith, Bool-cases, inl, inr, ◌⊎◌, ok, ◌>>=◌, ==_refl, leb, length-append,
  wrapping_add, wrapping_sub, >>=-eq-ok,
}
use ferret_os.Task.{effective_priority, max_tasks}
use ferret_os.Ccg.Populated.{slot}
use ferret_os.Queue.Fifo.{Waiter, top}
use ferret_os.Queue.Refine.{peek-Models, is_empty-Models, Models-later}
use ferret_os.Scheduler.{
  Kernel, frame_of, save_current, requeue_current, dispatch_next, yield_current,
  preempt_if_outranked, next_effective, effective_of, should_preempt, tick, record_sample,
  trap_stub_instructions, update_task, SwitchStats,
}
use ferret_os.Scheduler.Lookup.{is_ready, task_ptr-slot}
use ferret_os.Scheduler.Agrees.{priority, waiter, waiting, waiting-le, waiting-top}
use ferret_os.Scheduler.Steps.{Sound, only, save_current-Sound}
use ferret_os.Scheduler.Dispatch.{Served, requeue_current-Sound, dispatch_next-Sound}

-- A task runs, and the ready queue holds exactly the ready tasks.
pub record Steady (n : ℕ) (k : Kernel) : Type 0 where
  pub waiters : List Waiter
  pub sound : Sound n (only k.current_task_idx) k waiters

-- `requeue_current(); dispatch_next()` always finds a task.
pub switch-Steady :
    (n : ℕ) (k : Kernel)
    → Steady n k
    → n < 2 ^ 31
    → (k' : Kernel) × ((requeue_current k >>= dispatch_next)
        ≡ ok (frame_of k' k'.current_task_idx, k'))
      × Steady (n + 1) k'
      × Served k'
switch-Steady n k s few =
    let (k₁, t, at, runs₁, s₁, same₁) = requeue_current-Sound n k s.waiters s.sound few in
    let ws₁ = s.waiters ++ waiter k.current_task_idx (effective_priority t) ∷ [] in
    let (w, ws', k₂, deq, runs₂, s₂, same₂, served) = dispatch_next-Sound (n + 1) k₁ ws₁ s₁ (
      omega
        (arith, length-append s.waiters (waiter k.current_task_idx (effective_priority t) ∷ []))) in
    (k₂, rw (runs₁, same₂) runs₂, record { waiters = ws'; sound = rw same₂ s₂ }, served)

-- What `peek_max_priority` on a queue that is not empty gives.
pub next_effective-runs :
    (n : ℕ) (active : ℕ → Bool) (k : Kernel) (ws : List Waiter)
    → Sound n active k ws
    → next_effective k ≡ ok (if length ws == 0 then none else some (top priority ws))
unfolding next_effective
next_effective-runs n active k ws s =
    rw (is_empty-Models max_tasks n k.ready_queue ws s.queue) (elim (Bool-cases (length ws == 0)) [
      | inl e ↦ rw e refl
      | inr e ↦ rw (e, peek-Models max_tasks n k.ready_queue ws s.queue (ground arith)) refl
    ])

-- If the highest waiting priority is no higher than the running task's, the running task is served.
pub Served-stay :
    (n : ℕ) (k : Kernel) (s : Steady n k)
    → (0 < length s.waiters
        → top priority s.waiters ≤ effective_of (slot k.registry.slots k.current_task_idx))
    → Served k
Served-stay n k s low = record { served = λ i r. go i r (s.sound.agrees.waits i) }
  where
    go :
        (i : ℕ)
        → is_ready (slot k.registry.slots i) ≡ true
        → waiting i s.waiters ≡ (if is_ready (slot k.registry.slots i) then 1 else 0)
        → effective_of (slot k.registry.slots i)
          ≤ effective_of (slot k.registry.slots k.current_task_idx)
    go i r waits =
        let one : waiting i s.waiters ≡ 1 = rw r at waits in
        let below = waiting-top k.registry.slots s.waiters i s.sound.agrees.keyed (omega arith) in
        let best = low (omega (arith, waiting-le i s.waiters)) in omega arith

-- Ageing the bound and the tick counter changes nothing else.
pub Steady-later :
    (n ticks : ℕ) (k : Kernel)
    → Steady n k
    → Steady (n + 1) (record k { ticks_since_switch = ticks })
Steady-later n ticks k s = record {
  waiters = s.waiters;
  sound = record {
    size = s.sound.size;
    queue = Models-later max_tasks n k.ready_queue s.waiters s.sound.queue;
    agrees = s.sound.agrees;
  };
}

pub Steady-stats :
    (n : ℕ) (stats : SwitchStats) (k : Kernel)
    → Steady n k
    → Steady n (record k { switch_stats = stats })
Steady-stats n stats k s = record {
  waiters = s.waiters;
  sound = record { size = s.sound.size; queue = s.sound.queue; agrees = s.sound.agrees };
}

pub save_current-Steady : (n frame : ℕ) (k : Kernel) → Steady n k → Steady n (save_current k frame)
unfolding save_current update_task
save_current-Steady n frame k s = record {
  waiters = s.waiters;
  sound = save_current-Sound n k s.waiters frame s.sound;
}

-- `SYS_YIELD` does not halt: it leaves a ready task of the highest effective priority running.
pub yield_current-Served :
    (n frame : ℕ) (k : Kernel)
    → Steady n k
    → n < 2 ^ 31
    → (k' : Kernel) × (yield_current frame k ≡ ok (frame_of k' k'.current_task_idx, k'))
      × Steady (n + 1) k'
      × Served k'
unfolding yield_current
yield_current-Served n frame k s few =
    switch-Steady n (save_current k frame) (save_current-Steady n frame k s) few

-- The effective priority that `tick` compares with.
abbrev pub running_priority : Kernel → ℕ
running_priority k = effective_of (slot k.registry.slots k.current_task_idx)

no_preempt :
    (cur_eff ticks len best : ℕ)
    → should_preempt cur_eff (if len == 0 then none else some best) ticks ≡ false
    → 0 < len
    → best ≤ cur_eff
unfolding should_preempt
no_preempt cur_eff ticks len best h pos =
    let some_wait : (len == 0) ≡ false = ground arith in
    let h' : should_preempt cur_eff (some best) ticks ≡ false = rw some_wait at h in ground arith

-- After a tick no ready task has a higher effective priority than the running one. The tick does not
-- halt, and reports the running task if it is a new one.
pub tick-Served :
    (isr_entry instret_now n : ℕ) (k : Kernel)
    → Steady n k
    → n < 2 ^ 31
    → (k' : Kernel) × (tick isr_entry instret_now k
        ≡ ok (
          (if k'.current_task_idx == k.current_task_idx then none else some k'.current_task_idx),
          k',
        ))
      × Steady (n + 1) k'
      × Served k'
unfolding tick
tick-Served isr_entry instret_now n k₀ s few =
    let k : Kernel = record k₀ { ticks_since_switch = wrapping_add k₀.ticks_since_switch 1 } in
    let same : Steady n k = record {
      waiters = s.waiters;
      sound = record { size = s.sound.size; queue = s.sound.queue; agrees = s.sound.agrees };
    } in
    let next = next_effective-runs n (only k.current_task_idx) k s.waiters same.sound in
    let own = task_ptr-slot k k.current_task_idx s.sound.size in
    elim (Bool-cases (
      should_preempt (running_priority k)
        (if length s.waiters == 0 then none else some (top priority s.waiters))
        k.ticks_since_switch)) [
          | inr stay ↦ (
            k,
            (let r : (k.current_task_idx == k.current_task_idx) ≡ true =
                  ==_refl k.current_task_idx in
                rw (next, own, stay, r) refl),
            Steady-later n k.ticks_since_switch k same,
            Served-stay n k same (no_preempt _ _ _ _ stay),
          )
          | inl go ↦
              let (k', runs, s', served) = switch-Steady n k same few in
              let (k₁, e₂, e₁) = >>=-eq-ok (requeue_current k) dispatch_next runs in
              elim (Bool-cases (k'.current_task_idx == k₀.current_task_idx)) [
                | inl back ↦ (k', rw (next, own, go, e₁, e₂, back) refl, s', served)
                | inr away ↦
                    let sample =
                      wrapping_add (wrapping_sub instret_now isr_entry) trap_stub_instructions in
                    let stats = record_sample k'.switch_stats sample in
                    (
                      record k' { switch_stats = stats },
                      rw (next, own, go, e₁, e₂, away) refl,
                      Steady-stats (n + 1) stats k' s',
                      record { served = served.served },
                    )
              ]
        ]

-- After a wake-up the running task goes on, with nothing changed, unless a ready task has a higher
-- effective priority. In both cases no ready task has a higher one than the task that now runs.
pub preempt_if_outranked-Served :
    (n frame : ℕ) (k : Kernel)
    → Steady n k
    → n < 2 ^ 31
    → (frame' : ℕ) × (k' : Kernel) × (preempt_if_outranked frame k ≡ ok (frame', k'))
      × Steady (n + 1) k'
      × Served k'
      × (((frame' ≡ frame) × (k' ≡ k)) ⊎ (frame' ≡ frame_of k' k'.current_task_idx))
unfolding preempt_if_outranked
preempt_if_outranked-Served n frame k s few =
    let next = next_effective-runs n (only k.current_task_idx) k s.waiters s.sound in
    let own = task_ptr-slot k k.current_task_idx s.sound.size in
    let later = Steady-later n k.ticks_since_switch k s in
    elim (Bool-cases (length s.waiters == 0)) [
      | inl alone ↦ (
        frame,
        k,
        rw (next, alone) refl,
        later,
        Served-stay n k s (λ pos. absurd (ground arith)),
        inl (refl, refl),
      )
      | inr others ↦ elim (Bool-cases (leb (top priority s.waiters) (running_priority k))) [
        | inl stay ↦ (
          frame,
          k,
          rw (next, others, own, stay) refl,
          later,
          Served-stay n k s (λ pos. ground arith),
          inl (refl, refl),
        )
        | inr go ↦
            let (k', runs, s', served) =
              switch-Steady n (save_current k frame) (save_current-Steady n frame k s) few in
            (
              frame_of k' k'.current_task_idx,
              k',
              rw (next, others, own, go) runs,
              s',
              served,
              inr refl,
            )
      ]
    ]
