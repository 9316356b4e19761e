-- ===== src/Scheduler/Lookup.antt =====
-- Reading a slot after a write, and the properties of slots that the scheduler depends on.
use mathlib.Core.Option
use ferret_os.Common.{
  ℕ, zero, suc, ◌≡◌, refl, Bool, false, Option, none, some, [], ◌∷◌, length, ◌==◌, if◌then◌else◌,
  arith, ap, get_elem?_of_ge, ◌≤◌, Bool-cases, inl, inr, ltb,
}
use ferret_os.Task.{TaskDescriptor, ready, running, Slots, max_tasks}
use ferret_os.Ccg.Populated.{slot}
use ferret_os.Scheduler.{Kernel, update_slot, same_state, task_ptr}

unfoldable pub is_ready : Option TaskDescriptor → Bool
is_ready none = false
is_ready (some t) = same_state t.state ready

unfoldable pub is_running : Option TaskDescriptor → Bool
is_running none = false
is_running (some t) = same_state t.state running

pub length-update_slot :
    (slots : Slots) (i : ℕ) (f : TaskDescriptor → TaskDescriptor)
    → length (update_slot slots i f) ≡ length slots
unfolding update_slot
length-update_slot [] i f = refl
length-update_slot (none ∷ slots) zero f = refl
length-update_slot (some t ∷ slots) zero f = refl
length-update_slot (none ∷ slots) (suc i) f = ap suc (length-update_slot slots i f)
length-update_slot (some t ∷ slots) (suc i) f = ap suc (length-update_slot slots i f)

pub slot_beyond : (slots : Slots) (i : ℕ) → length slots ≤ i → slot slots i ≡ none
unfolding slot
slot_beyond slots i h = rw (get_elem?_of_ge slots i h, slot) refl

pub slot-update_slot :
    (slots : Slots) (i j : ℕ) (f : TaskDescriptor → TaskDescriptor)
    → slot (update_slot slots i f) j
      ≡ (if i == j then Option.map f (slot slots j) else slot slots j)
unfolding update_slot slot
slot-update_slot [] i j f = ground arith
slot-update_slot (none ∷ slots) zero zero f = refl
slot-update_slot (some t ∷ slots) zero zero f = refl
slot-update_slot (none ∷ slots) zero (suc j) f = ground arith
slot-update_slot (some t ∷ slots) zero (suc j) f = ground arith
slot-update_slot (none ∷ slots) (suc i) zero f = ground arith
slot-update_slot (some t ∷ slots) (suc i) zero f = ground arith
slot-update_slot (none ∷ slots) (suc i) (suc j) f =
    let q : (suc i == suc j) ≡ (i == j) = ground arith in rw q (slot-update_slot slots i j f)
slot-update_slot (some t ∷ slots) (suc i) (suc j) f =
    let q : (suc i == suc j) ≡ (i == j) = ground arith in rw q (slot-update_slot slots i j f)

-- In a full registry the bound of `task_ptr` changes nothing.
pub task_ptr-slot :
    (k : Kernel) (i : ℕ)
    → length k.registry.slots ≡ max_tasks
    → task_ptr k i ≡ slot k.registry.slots i
unfolding task_ptr
task_ptr-slot k i size = elim (Bool-cases (ltb i max_tasks)) [
  | inl low ↦ rw low refl
  | inr high ↦ rw (high, slot_beyond k.registry.slots i (ground arith)) refl
]
