-- ===== src/Scheduler/Steps.antt =====
-- The invariant of the scheduler, and the writes of its operations.
use ferret_os.Common.{
  ℕ, ◌+◌, ◌^◌, ◌<◌, ◌≡◌, refl, ◌∙◌, Bool, true, false, Option, none, some, List, [], ◌∷◌, ◌++◌,
  length, ◌==◌, if◌then◌else◌, arith, Bool-cases, inl, inr, ok, ==_refl, dec_lt,
}
use ferret_os.Task.{
  TaskDescriptor, TaskState, ready, running, blocked, suspended, Slots, effective_priority,
  max_tasks,
}
use ferret_os.Ccg.Populated.{slot}
use ferret_os.Queue.Fifo.{Waiter}
use ferret_os.Queue.Refine.{Models, insert-Models}
use ferret_os.Scheduler.{Kernel, update_task, save_current, enqueue_ready, with_frame, same_state}
use ferret_os.Scheduler.Lookup.{is_ready, is_running, length-update_slot, slot_beyond}
use ferret_os.Scheduler.Agrees.{waiter, Agrees, Agrees-keep, Agrees-ready}
use ferret_os.Scheduler.Room.{waiting_room}

-- The ready queue holds the tasks `ws`, all inserted within the last `n` inserts, and agrees with the
-- task states; `active` are the running tasks.
pub record Sound (n : ℕ) (active : ℕ → Bool) (k : Kernel) (ws : List Waiter) : Type 0 where
  pub size : length k.registry.slots ≡ max_tasks
  pub queue : Models max_tasks n k.ready_queue ws
  pub agrees : Agrees k.registry.slots ws active

abbrev pub no_one : ℕ → Bool
no_one j = false

abbrev pub only : ℕ → ℕ → Bool
only i j = i == j

pub Agrees-active :
    (slots : Slots) (ws : List Waiter) (active active' : ℕ → Bool)
    → ((j : ℕ) → active j ≡ active' j)
    → Agrees slots ws active
    → Agrees slots ws active'
Agrees-active slots ws active active' h a = record {
  waits = a.waits;
  keyed = a.keyed;
  runs = λ j. a.runs j ∙ h j;
}

pub occupied_slot :
    (slots : Slots) (i : ℕ) (p : Option TaskDescriptor → Bool)
    → p none ≡ false
    → p (slot slots i) ≡ true
    → (t : TaskDescriptor) × (slot slots i ≡ some t) × (p (some t) ≡ true)
occupied_slot slots i p gone h = go (slot slots i) refl
  where
    go :
        (o : Option TaskDescriptor)
        → slot slots i ≡ o
        → (t : TaskDescriptor) × (slot slots i ≡ some t) × (p (some t) ≡ true)
    go none e = absurd (let h' : p none ≡ true = rw e at h in cc)
    go (some t) e = (t, e, rw e at h)

pub in_range :
    (slots : Slots) (i : ℕ) (t : TaskDescriptor)
    → length slots ≡ max_tasks
    → slot slots i ≡ some t
    → i < max_tasks
in_range slots i t size at = elim (dec_lt i max_tasks) [
  | yes lt ↦ lt
  | no ge ↦ absurd (let gone = slot_beyond slots i (omega arith) in cc)
]

pub running-not-ready :
    (t : TaskDescriptor) → is_running (some t) ≡ true → is_ready (some t) ≡ false
unfolding is_running is_ready same_state
running-not-ready t h = go t.state h
  where
    go : (s : TaskState) → same_state s running ≡ true → same_state s ready ≡ false
    go ready h = cc
    go running h = refl
    go blocked h = cc
    go suspended h = cc

module _ (n : ℕ) (k : Kernel) (ws : List Waiter) where
  -- The running task is a task.
  pub current_running :
      Sound n (only k.current_task_idx) k ws
      → (t : TaskDescriptor) × (slot k.registry.slots k.current_task_idx ≡ some t)
        × (is_running (some t) ≡ true)
  current_running s =
      occupied_slot k.registry.slots k.current_task_idx is_running (unfold is_running in refl)
        (s.agrees.runs k.current_task_idx ∙ ==_refl k.current_task_idx)

  -- A write to the running task that leaves it running.
  pub save_current-Sound :
      (frame : ℕ)
      → Sound n (only k.current_task_idx) k ws
      → Sound n (only k.current_task_idx) (save_current k frame) ws
  unfolding save_current update_task
  save_current-Sound frame s =
      let (t, at, run) = current_running s in
      record {
        size = length-update_slot k.registry.slots k.current_task_idx (with_frame frame) ∙ s.size;
        queue = s.queue;
        agrees =
            Agrees-active _ ws _ (only k.current_task_idx) (λ j. still t j run)
              (Agrees-keep k.registry.slots ws (only k.current_task_idx) s.agrees k.current_task_idx
                t at (with_frame frame) (unfold effective_priority in refl)
                (unfold is_ready in refl));
      }
    where
      still :
          (t : TaskDescriptor) (j : ℕ)
          → is_running (some t) ≡ true
          → (if k.current_task_idx == j
              then is_running (some (with_frame frame t))
              else (k.current_task_idx == j))
            ≡ (k.current_task_idx == j)
      still t j run =
          let run' : is_running (some (with_frame frame t)) ≡ true = unfold is_running in run in
          elim (Bool-cases (k.current_task_idx == j)) [
            | inl q ↦ rw (q, run') refl
            | inr q ↦ rw q refl
          ]

  -- A task that is not ready is put into the queue.
  pub enqueue_ready-Sound :
      (active : ℕ → Bool) (i : ℕ) (t : TaskDescriptor) (f : TaskDescriptor → TaskDescriptor)
      → Sound n active k ws
      → slot k.registry.slots i ≡ some t
      → is_ready (some t) ≡ false
      → is_ready (some (f t)) ≡ true
      → effective_priority (f t) ≡ effective_priority t
      → n < 2 ^ 31
      → (k' : Kernel) × (enqueue_ready k i f t ≡ ok k')
        × Sound
            (n + 1)
            (λ j. if i == j then is_running (some (f t)) else active j)
            k'
            (ws ++ waiter i (effective_priority (f t)) ∷ [])
        × (k'.current_task_idx ≡ k.current_task_idx)
        × (k'.registry ≡ (update_task k i f).registry)
  unfolding enqueue_ready update_task
  enqueue_ready-Sound active i t f s at was now same few =
      let (q, runs, models) =
        insert-Models max_tasks n k.ready_queue ws s.queue i (effective_priority (f t))
          (room s at was) few in
      (
        record (update_task k i f) { ready_queue = q },
        rw runs refl,
        record {
          size = length-update_slot k.registry.slots i f ∙ s.size;
          queue = models;
          agrees = Agrees-ready k.registry.slots ws active s.agrees i t at f same was now;
        },
        refl,
        refl,
      )
    where
      room :
          Sound n active k ws
          → slot k.registry.slots i ≡ some t
          → is_ready (some t) ≡ false
          → length ws < max_tasks
      room s at was =
          waiting_room k.registry.slots ws active i s.agrees s.size
            (in_range k.registry.slots i t s.size at) (rw at was)
