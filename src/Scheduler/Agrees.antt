-- ===== src/Scheduler/Agrees.antt =====
-- The ready queue, as a list of waiting tasks, and the states of the tasks agree.
use ferret_os.Common.{
  ℕ, ◌+◌, ◌≤◌, ◌<◌, ◌≡◌, refl, sym, ◌∙◌, Bool, true, false, ◌&&◌, Option, none, some, List, [], ◌∷◌,
  ◌++◌, length, ◌==◌, if◌then◌else◌, arith, Bool-cases, inl, inr, ==_refl,
}
use ferret_os.Task.{TaskDescriptor, Slots, effective_priority}
use ferret_os.Ccg.Populated.{slot}
use ferret_os.Queue.Fifo.{Waiter, top, Extracted, here, later}
use ferret_os.Scheduler.{update_slot, effective_of}
use ferret_os.Scheduler.Lookup.{is_ready, is_running, slot-update_slot}

abbrev pub priority : Waiter → ℕ
priority w = w.priority

abbrev pub waiter : ℕ → ℕ → Waiter
waiter task priority = record { task = task; priority = priority }

-- How often task `i` waits.
unfoldable pub waiting : ℕ → List Waiter → ℕ
waiting i [] = 0
waiting i (w ∷ ws) = (if w.task == i then 1 else 0) + waiting i ws

-- Every waiting task has its effective priority.
unfoldable pub all_keyed : Slots → List Waiter → Bool
all_keyed slots [] = true
all_keyed slots (w ∷ ws) = effective_of (slot slots w.task) == w.priority && all_keyed slots ws

-- The tasks that wait are those in the state Ready, once each, and `active` are those in the state
-- Running.
pub record Agrees (slots : Slots) (ws : List Waiter) (active : ℕ → Bool) : Type 0 where
  pub waits : (i : ℕ) → waiting i ws ≡ (if is_ready (slot slots i) then 1 else 0)
  pub keyed : all_keyed slots ws ≡ true
  pub runs : (i : ℕ) → is_running (slot slots i) ≡ active i

pub waiting-le : (i : ℕ) (ws : List Waiter) → waiting i ws ≤ length ws
unfolding waiting
waiting-le i [] = omega arith
waiting-le i (w ∷ ws) = ground (arith, waiting-le i ws)

pub waiting-append :
    (i : ℕ) (ws : List Waiter) (w : Waiter)
    → waiting i (ws ++ w ∷ []) ≡ waiting i ws + (if w.task == i then 1 else 0)
unfolding waiting
waiting-append i [] w = omega arith
waiting-append i (v ∷ ws) w = omega (arith, waiting-append i ws w)

pub all_keyed-append :
    (slots : Slots) (ws : List Waiter) (w : Waiter)
    → all_keyed slots (ws ++ w ∷ [])
      ≡ (all_keyed slots ws && effective_of (slot slots w.task) == w.priority)
unfolding all_keyed
all_keyed-append slots [] w = ground arith
all_keyed-append slots (v ∷ ws) w = ground (arith, all_keyed-append slots ws w)

all_keyed-ext :
    (slots slots' : Slots) (ws : List Waiter)
    → ((i : ℕ) → effective_of (slot slots i) ≡ effective_of (slot slots' i))
    → all_keyed slots ws ≡ all_keyed slots' ws
unfolding all_keyed
all_keyed-ext slots slots' [] h = refl
all_keyed-ext slots slots' (w ∷ ws) h = rw (h w.task, all_keyed-ext slots slots' ws h) refl

-- A waiting task has at most the highest priority of the queue.
pub waiting-top :
    (slots : Slots) (ws : List Waiter) (i : ℕ)
    → all_keyed slots ws ≡ true
    → 0 < waiting i ws
    → effective_of (slot slots i) ≤ top priority ws
unfolding waiting all_keyed top
waiting-top slots [] i k h = absurd (omega arith)
waiting-top slots (w ∷ ws) i k h = elim (Bool-cases (w.task == i)) [
  | inl e ↦
      let same : w.task ≡ i = ground arith in
      let own : effective_of (slot slots w.task) ≡ w.priority = ground arith in
      let own' : effective_of (slot slots i) ≡ w.priority = rw same at own in omega arith
  | inr e ↦ ground (arith, waiting-top slots ws i)
]

pub waiting-Extracted :
    {p : ℕ} {ws ws' : List Waiter} {w : Waiter}
    → Extracted priority p ws w ws'
    → (i : ℕ) → waiting i ws ≡ (if w.task == i then 1 else 0) + waiting i ws'
unfolding waiting
waiting-Extracted (here e) i = refl
waiting-Extracted (later ne v) i = omega (arith, waiting-Extracted v i)

pub all_keyed-Extracted :
    {p : ℕ} {ws ws' : List Waiter} {w : Waiter} (slots : Slots)
    → Extracted priority p ws w ws'
    → all_keyed slots ws ≡ (effective_of (slot slots w.task) == w.priority && all_keyed slots ws')
unfolding all_keyed
all_keyed-Extracted slots (here e) = refl
all_keyed-Extracted slots (later ne v) = ground (arith, all_keyed-Extracted slots v)

-- A write that keeps the effective priority of task `i`.
pub effective_kept :
    (slots : Slots) (i : ℕ) (f : TaskDescriptor → TaskDescriptor) (t : TaskDescriptor)
    → slot slots i ≡ some t
    → effective_priority (f t) ≡ effective_priority t
    → (j : ℕ) → effective_of (slot (update_slot slots i f) j) ≡ effective_of (slot slots j)
unfolding effective_of
effective_kept slots i f t at e j = rw (slot-update_slot slots i j f) (elim (Bool-cases (i == j)) [
  | inl q ↦
      let same : i ≡ j = ground arith in
      let at' : slot slots j ≡ some t = rw same at at in rw (q, at', effective_of) e
  | inr q ↦ rw q refl
])

module _ (slots : Slots) (ws : List Waiter) (active : ℕ → Bool) (a : Agrees slots ws active) where
  module _ (i : ℕ) (t : TaskDescriptor) (at : slot slots i ≡ some t)
      (f : TaskDescriptor → TaskDescriptor)
      (same_priority : effective_priority (f t) ≡ effective_priority t) where
    after : (j : ℕ) → slot (update_slot slots i f) j ≡ (if i == j then some (f t) else slot slots j)
    after j = slot-update_slot slots i j f ∙ elim (Bool-cases (i == j)) [
      | inl q ↦
          let same : i ≡ j = ground arith in
          let at' : slot slots j ≡ some t = rw same at at in rw (q, at') refl
      | inr q ↦ rw q refl
    ]

    keyed_after : all_keyed (update_slot slots i f) ws ≡ true
    keyed_after =
        sym (
          all_keyed-ext slots (update_slot slots i f) ws
            (λ j. sym (effective_kept slots i f t at same_priority j)))
        ∙ a.keyed

    -- A write that does not change whether the task is ready.
    pub Agrees-keep :
        is_ready (some (f t)) ≡ is_ready (some t)
        → Agrees
            (update_slot slots i f)
            ws
            (λ j. if i == j then is_running (some (f t)) else active j)
    Agrees-keep e = record {
      waits = λ j. rw (after j) (elim (Bool-cases (i == j)) [
        | inl q ↦
            let same : i ≡ j = ground arith in
            let at' : slot slots j ≡ some t = rw same at at in a.waits j ∙ rw (q, e, at') refl
        | inr q ↦ rw q (a.waits j)
      ]);
      keyed = keyed_after;
      runs = λ j.
          rw (after j) (elim (Bool-cases (i == j)) [ inl q ↦ rw q refl | inr q ↦ rw q (a.runs j) ]);
    }

    own_key : (effective_of (slot (update_slot slots i f) i) == effective_priority (f t)) ≡ true
    unfolding effective_of
    own_key =
        let r : (i == i) ≡ true = ==_refl i in
        let e : slot (update_slot slots i f) i ≡ some (f t) = after i ∙ rw r refl in
        rw (e, effective_of) (==_refl (effective_priority (f t)))

    -- A task that becomes ready waits behind the others.
    pub Agrees-ready :
        is_ready (some t) ≡ false
        → is_ready (some (f t)) ≡ true
        → Agrees
            (update_slot slots i f)
            (ws ++ waiter i (effective_priority (f t)) ∷ [])
            (λ j. if i == j then is_running (some (f t)) else active j)
    Agrees-ready was now = record {
      waits = λ j.
          waiting-append j ws (waiter i (effective_priority (f t)))
          ∙ rw (after j, a.waits j)
              (elim (Bool-cases (i == j)) [
                | inl q ↦
                    let same : i ≡ j = ground arith in
                    let at' : slot slots j ≡ some t = rw same at at in
                    rw (q, now, at', was) (omega arith)
                | inr q ↦ rw q (omega arith)
              ]);
      keyed =
          all_keyed-append (update_slot slots i f) ws (waiter i (effective_priority (f t)))
          ∙ rw keyed_after own_key;
      runs = λ j.
          rw (after j) (elim (Bool-cases (i == j)) [ inl q ↦ rw q refl | inr q ↦ rw q (a.runs j) ]);
    }

  -- The task that leaves the queue first is ready, and no ready task has a higher priority.
  module _ (p : ℕ) (w : Waiter) (ws' : List Waiter) (x : Extracted priority p ws w ws') where
    pub taken_ready :
        (t : TaskDescriptor) × (slot slots w.task ≡ some t) × (is_ready (some t) ≡ true)
    taken_ready =
        ready_task (slot slots w.task) refl
          (begin_waits (a.waits w.task) (waiting-Extracted x w.task))
      where
        begin_waits :
            waiting w.task ws ≡ (if is_ready (slot slots w.task) then 1 else 0)
            → waiting w.task ws ≡ (if w.task == w.task then 1 else 0) + waiting w.task ws'
            → is_ready (slot slots w.task) ≡ true
        begin_waits h g =
            let r : (w.task == w.task) ≡ true = ==_refl w.task in ground (arith, rw r at g)

        none_ready : is_ready none ≡ true → ⊥
        none_ready h = unfold is_ready in cc

        ready_task :
            (o : Option TaskDescriptor)
            → slot slots w.task ≡ o
            → is_ready (slot slots w.task) ≡ true
            → (t : TaskDescriptor) × (slot slots w.task ≡ some t) × (is_ready (some t) ≡ true)
        ready_task none e h = absurd (none_ready (rw e at h))
        ready_task (some t) e h = (t, e, rw e at h)

    others_wait :
        (i : ℕ)
        → waiting i ws' ≡ (if w.task == i then 0 else (if is_ready (slot slots i) then 1 else 0))
    others_wait i = let h = a.waits i in let g = waiting-Extracted x i in ground arith

    pub Agrees-take :
        (t : TaskDescriptor) (f : TaskDescriptor → TaskDescriptor)
        → slot slots w.task ≡ some t
        → effective_priority (f t) ≡ effective_priority t
        → is_ready (some (f t)) ≡ false
        → is_running (some (f t)) ≡ true
        → Agrees (update_slot slots w.task f) ws' (λ j. if w.task == j then true else active j)
    Agrees-take t f at same_priority not_ready now = record {
      waits = λ j.
          others_wait j
          ∙ rw (after w.task t at f same_priority j) (elim (Bool-cases (w.task == j)) [
            | inl q ↦ rw (q, not_ready) refl
            | inr q ↦ rw q refl
          ]);
      keyed =
          let k = keyed_after w.task t at f same_priority in
          let e = all_keyed-Extracted (update_slot slots w.task f) x in ground arith;
      runs = λ j.
          rw (after w.task t at f same_priority j) (elim (Bool-cases (w.task == j)) [
            | inl q ↦ rw (q, now) refl
            | inr q ↦ rw q (a.runs j)
          ]);
    }
