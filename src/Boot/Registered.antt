-- ===== src/Boot/Registered.antt =====
-- The registry after registration: its first slots are filled, with tasks that are ready.
use ferret_os.Common.{
  ℕ, zero, suc, ◌+◌, ◌≤◌, ◌<◌, ◌≡◌, refl, ◌∙◌, true, false, none, some, List, [], ◌∷◌, length,
  replicate, set, get_elem?-set, length-set, ltb, ◌==◌, if◌then◌else◌, ok, panic, arith, Bool-cases,
  inl, inr,
}
use ferret_os.Task.{
  TaskDescriptor, Registry, Slots, register_task, empty_registry, max_tasks, with_capabilities, new,
  with_channels, with_entry, with_mode,
}
use ferret_os.Ccg.Populated.{slot}
use ferret_os.Scheduler.{same_state}
use ferret_os.Scheduler.Lookup.{is_ready}
use ferret_os.Mip.Inherit.{IsDense}
use ferret_os.Memory.{write_canary}
use ferret_os.Boot.{
  TaskConfig, TaskEntry, Image, into_descriptor, idle_task, register_set, register_tasks,
}

-- The slots below `count` hold ready tasks, with what `P` says of them, and the others are empty.
pub record AllReady (r : Registry) : Type 0 where
  pub dense : IsDense r
  pub fresh : (i : ℕ) → i < r.count → is_ready (slot r.slots i) ≡ true

slot-set :
    (slots : Slots) (i j : ℕ) (t : TaskDescriptor)
    → i < length slots
    → slot (set slots i (some t)) j ≡ (if i == j then some t else slot slots j)
unfolding slot
slot-set slots i j t h =
    rw (get_elem?-set slots i j (some t) h, slot)
      (elim (Bool-cases (i == j)) [ inl e ↦ rw (e, slot) refl | inr e ↦ rw (e, slot) refl ])

-- With room, a ready task goes into the next slot.
pub register_task-AllReady :
    (r : Registry) (t : TaskDescriptor)
    → AllReady r
    → r.count < max_tasks
    → is_ready (some t) ≡ true
    → (register_task r t
        ≡ ok (record { slots = set r.slots r.count (some t); count = r.count + 1 }))
      × AllReady (record { slots = set r.slots r.count (some t); count = r.count + 1 })
unfolding register_task
register_task-AllReady r t a room is =
    let size = a.dense.size in
    let low : ltb r.count max_tasks ≡ true = ground arith in
    let inside : ltb r.count (length r.slots) ≡ true = ground arith in
    let read = λ (j : ℕ). slot-set r.slots r.count j t (omega arith) in
    (
      rw (low, inside) refl,
      record {
        dense = record {
          size = length-set r.slots r.count (some t) ∙ size;
          small = omega arith;
          free = λ j h.
              let off : (r.count == j) ≡ false = ground arith in
              rw (read j, off) (a.dense.free j (omega arith));
        };
        fresh = λ j h. elim (Bool-cases (r.count == j)) [
          | inl e ↦ rw (read j, e) is
          | inr e ↦ rw (read j, e) (a.fresh j (ground arith))
        ];
      },
    )

pub register_task-full :
    (r : Registry) (t : TaskDescriptor) → max_tasks ≤ r.count → register_task r t ≡ panic
unfolding register_task
register_task-full r t full =
    let high : ltb r.count max_tasks ≡ false = ground arith in rw high refl

into_descriptor-ready :
    (c : TaskConfig) (id base entry : ℕ) → is_ready (some (into_descriptor c id base entry)) ≡ true
unfolding is_ready same_state into_descriptor with_entry with_channels with_capabilities
into_descriptor-ready c id base entry = refl

idle_task-ready : (image : Image) (id : ℕ) → is_ready (some (idle_task image id)) ≡ true
unfolding is_ready same_state idle_task with_mode with_entry new
idle_task-ready image id = refl

slot-none : (n i : ℕ) → slot (replicate n none) i ≡ none
unfolding slot
slot-none zero i = refl
slot-none (suc n) zero = refl
slot-none (suc n) (suc i) = slot-none n i

empty-AllReady : AllReady empty_registry
unfolding empty_registry
empty-AllReady = record {
  dense = record { size = refl; small = omega arith; free = λ i h. slot-none max_tasks i };
  fresh = λ i h. absurd (omega arith);
}

-- While the set fits, it is registered in order.
register_set-AllReady :
    (tasks : List TaskEntry) (id : ℕ) (r : Registry) (memory : ℕ → ℕ)
    → AllReady r
    → r.count + length tasks ≤ max_tasks
    → (r' : Registry) × (memory' : ℕ → ℕ) × (register_set tasks id (r, memory) ≡ ok (r', memory'))
      × AllReady r'
      × (r'.count ≡ r.count + length tasks)
unfolding register_set
register_set-AllReady [] id r memory a room = (r, memory, refl, a, omega arith)
register_set-AllReady (e ∷ rest) id r memory a room =
    let t = into_descriptor e.config id e.stack e.body in
    let (runs, a') =
      register_task-AllReady r t a (omega arith)
        (into_descriptor-ready e.config id e.stack e.body) in
    let (r', memory', goes, a'', count) =
      register_set-AllReady rest (id + 1) _ (write_canary memory e.stack) a' (omega arith) in
    (r', memory', rw runs goes, a'', omega arith)

-- With room for the idle task, all tasks are registered.
pub register_tasks-AllReady :
    (image : Image) (memory : ℕ → ℕ)
    → length image.tasks < max_tasks
    → (r : Registry) × (memory' : ℕ → ℕ) × (register_tasks image memory ≡ ok (r, memory'))
      × AllReady r
      × (r.count ≡ length image.tasks + 1)
unfolding register_tasks empty_registry
register_tasks-AllReady image memory room =
    let (r, memory', runs, a, count) =
      register_set-AllReady image.tasks 0 empty_registry memory empty-AllReady (omega arith) in
    let (goes, a') =
      register_task-AllReady r (idle_task image r.count) a (omega arith)
        (idle_task-ready image r.count) in
    (
      record { slots = set r.slots r.count (some (idle_task image r.count)); count = r.count + 1 },
      memory',
      rw (runs, goes) refl,
      a',
      omega arith,
    )
