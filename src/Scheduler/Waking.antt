-- ===== src/Scheduler/Waking.antt =====
-- Sleeping and blocked tasks wake up.
use mathlib.Core.Option
use ferret_os.Common.{
  ℕ, zero, suc, ◌+◌, ◌^◌, ◌≤◌, ◌<◌, ◌≡◌, refl, ◌∙◌, Bool, true, false, ◌&&◌, Option, none, some,
  ◌==◌, if◌then◌else◌, arith, Bool-cases, inl, inr, ◌⊎◌, ok, leb, ltb, dec_lt,
}
use ferret_os.Task.{
  TaskDescriptor, TaskState, BlockReason, ready, running, blocked, suspended, effective_priority,
  max_tasks,
}
use ferret_os.Ccg.Populated.{slot}
use ferret_os.Queue.Refine.{Models-later}
use ferret_os.Scheduler.{
  Kernel, update_task, same_state, make_ready, wake, is_due, is_blocked_on, wake_sleepers_loop,
  wake_sleepers, wake_blocked_on_loop, wake_blocked_on,
}
use ferret_os.Scheduler.Lookup.{is_ready, is_running, task_ptr-slot, slot-update_slot}
use ferret_os.Scheduler.Steps.{only, Agrees-active, occupied_slot, enqueue_ready-Sound}
use ferret_os.Scheduler.Calls.{Steady}

unfoldable pub is_blocked : Option TaskDescriptor → Bool
is_blocked none = false
is_blocked (some t) = same_state t.state blocked

is_blocked-none : is_blocked none ≡ false
unfolding is_blocked
is_blocked-none = refl

blocked-idle :
    (t : TaskDescriptor)
    → is_blocked (some t) ≡ true
    → (is_ready (some t) ≡ false) × (is_running (some t) ≡ false)
unfolding is_blocked is_ready is_running same_state
blocked-idle t h = go t.state h
  where
    go :
        (s : TaskState)
        → same_state s blocked ≡ true
        → (same_state s ready ≡ false) × (same_state s running ≡ false)
    go blocked h = (refl, refl)
    go ready h = cc
    go running h = cc
    go suspended h = cc

make_ready-ready :
    (t : TaskDescriptor)
    → (is_ready (some (make_ready t)) ≡ true)
      × (is_running (some (make_ready t)) ≡ false)
      × (effective_priority (make_ready t) ≡ effective_priority t)
unfolding is_ready is_running same_state effective_priority
make_ready-ready t = (refl, refl, refl)

pub Steady-age : (n : ℕ) (k : Kernel) → Steady n k → Steady (n + 1) k
Steady-age n k s = record {
  waiters = s.waiters;
  sound = record {
    size = s.sound.size;
    queue = Models-later max_tasks n k.ready_queue s.waiters s.sound.queue;
    agrees = s.sound.agrees;
  };
}

-- A blocked task that is woken is ready and waits in the queue; nothing else changes.
wake-Steady :
    (n : ℕ) (k : Kernel) (i : ℕ)
    → Steady n k
    → is_blocked (slot k.registry.slots i) ≡ true
    → n < 2 ^ 31
    → (k' : Kernel) × (wake k i ≡ ok k')
      × Steady (n + 1) k'
      × (k'.registry ≡ (update_task k i make_ready).registry)
      × (k'.current_task_idx ≡ k.current_task_idx)
unfolding wake
wake-Steady n k i s h few =
    let (t, at, held) = occupied_slot k.registry.slots i is_blocked (is_blocked-none) h in
    let (not_ready, not_running) = blocked-idle t held in
    let (now, still, same) = make_ready-ready t in
    let (k', runs, s', kept, regs) =
      enqueue_ready-Sound n k s.waiters (only k.current_task_idx) i t make_ready s.sound at
        not_ready now same few in
    (
      k',
      rw (task_ptr-slot k i s.sound.size, at, wake) runs,
      record {
        waiters = _;
        sound = record {
          size = s'.size;
          queue = s'.queue;
          agrees =
              Agrees-active _ _ _ (only k'.current_task_idx)
                (λ j. rw kept (unchanged t j at still not_running (s.sound.agrees.runs i)))
                s'.agrees;
        };
      },
      regs,
      kept,
    )
  where
    unchanged :
        (t : TaskDescriptor) (j : ℕ)
        → slot k.registry.slots i ≡ some t
        → is_running (some (make_ready t)) ≡ false
        → is_running (some t) ≡ false
        → is_running (slot k.registry.slots i) ≡ (k.current_task_idx == i)
        → (if i == j then is_running (some (make_ready t)) else (k.current_task_idx == j))
          ≡ (k.current_task_idx == j)
    unchanged t j at still idle runs = elim (Bool-cases (i == j)) [
      | inl q ↦
          let runs' : is_running (some t) ≡ (k.current_task_idx == i) = rw at at runs in
          let away : (k.current_task_idx == j) ≡ false = ground arith in rw (q, still, away) refl
      | inr q ↦ rw q refl
    ]

due-blocked : (now : ℕ) (o : Option TaskDescriptor) → is_due now o ≡ true → is_blocked o ≡ true
unfolding is_due is_blocked
due-blocked now none h = cc
due-blocked now (some t) h = ground arith

reason-blocked :
    (reason : BlockReason) (o : Option TaskDescriptor)
    → is_blocked_on reason o ≡ true
    → is_blocked o ≡ true
unfolding is_blocked_on is_blocked
reason-blocked reason none h = cc
reason-blocked reason (some t) h = ground arith

-- What slot `j` holds after the sleepers among the `left` slots from `i` on were woken.
abbrev pub woken : ℕ → ℕ → ℕ → ℕ → Option TaskDescriptor → Option TaskDescriptor
woken now i left j o =
    if leb i j && ltb j (i + left) && is_due now o then Option.map make_ready o else o

woken-other :
    (now i left j : ℕ) (o : Option TaskDescriptor)
    → (i == j) ≡ false
    → woken now (i + 1) left j o ≡ woken now i (suc left) j o
woken-other now i left j o h =
    let same : (leb (i + 1) j && ltb j (i + 1 + left)) ≡ (leb i j && ltb j (i + suc left)) =
      ground arith in
    ground (arith, same)

woken-first :
    (now i left j : ℕ) (o : Option TaskDescriptor)
    → (i == j) ≡ true
    → is_due now o ≡ true
    → woken now (i + 1) left j (Option.map make_ready o) ≡ woken now i (suc left) j o
woken-first now i left j o h due =
    let past : leb (i + 1) j ≡ false = ground arith in
    let inside : (leb i j && ltb j (i + suc left)) ≡ true = ground arith in
    rw (past, inside, due) refl

woken-idle :
    (now i left j : ℕ) (o : Option TaskDescriptor)
    → is_due now o ≡ false
    → woken now (i + 1) left j o ≡ woken now i (suc left) j o
woken-idle now i left j o idle = ground arith

wake_sleepers_loop-Steady :
    (left i now n : ℕ) (k : Kernel)
    → Steady n k
    → n + left ≤ 2 ^ 31
    → (k' : Kernel) × (wake_sleepers_loop left i now k ≡ ok k')
      × Steady (n + left) k'
      × ((j : ℕ) → slot k'.registry.slots j ≡ woken now i left j (slot k.registry.slots j))
      × (k'.current_task_idx ≡ k.current_task_idx)
unfolding wake_sleepers_loop
wake_sleepers_loop-Steady zero i now n k s few =
    let e : n + 0 ≡ n = omega arith in (k, refl, rw e s, (λ j. ground arith), refl)
wake_sleepers_loop-Steady (suc left) i now n k s few =
    let seen = task_ptr-slot k i s.sound.size in
    let e : n + 1 + left ≡ n + suc left = omega arith in
    elim (Bool-cases (is_due now (slot k.registry.slots i))) [
      | inl due ↦
          let (k₁, runs₁, s₁, regs, kept₁) =
            wake-Steady n k i s (due-blocked now (slot k.registry.slots i) due) (omega arith) in
          let (k₂, runs₂, s₂, woken₂, kept₂) =
            wake_sleepers_loop-Steady left (i + 1) now (n + 1) k₁ s₁ (omega arith) in
          (
            k₂,
            rw (seen, due, runs₁) runs₂,
            rw e at s₂,
            (λ j. woken₂ j ∙ woken_step j (registry_slot k₁ regs j) due),
            kept₂ ∙ kept₁,
          )
      | inr idle ↦
          let (k₂, runs₂, s₂, woken₂, kept₂) =
            wake_sleepers_loop-Steady left (i + 1) now (n + 1) k (Steady-age n k s) (omega arith) in
          (k₂, rw (seen, idle) runs₂, rw e at s₂, (λ j. woken₂ j ∙ idle_step j idle), kept₂)
    ]
  where
    registry_slot :
        (k₁ : Kernel)
        → k₁.registry ≡ (update_task k i make_ready).registry
        → (j : ℕ)
        → slot k₁.registry.slots j ≡ (
            if i == j
            then Option.map make_ready (slot k.registry.slots j)
            else slot k.registry.slots j)
    registry_slot k₁ regs j =
        rw regs (unfold update_task in slot-update_slot k.registry.slots i j make_ready)

    woken_step :
        {o : Option TaskDescriptor} (j : ℕ)
        → o ≡ (
            if i == j
            then Option.map make_ready (slot k.registry.slots j)
            else slot k.registry.slots j)
        → is_due now (slot k.registry.slots i) ≡ true
        → woken now (i + 1) left j o ≡ woken now i (suc left) j (slot k.registry.slots j)
    woken_step j e due = rw e (elim (Bool-cases (i == j)) [
      | inl q ↦
          let same : i ≡ j = ground arith in
          let due' : is_due now (slot k.registry.slots j) ≡ true = rw same at due in
          rw q (woken-first now i left j (slot k.registry.slots j) q due')
      | inr q ↦ rw q (woken-other now i left j (slot k.registry.slots j) q)
    ])

    idle_step :
        (j : ℕ)
        → is_due now (slot k.registry.slots i) ≡ false
        → woken now (i + 1) left j (slot k.registry.slots j)
          ≡ woken now i (suc left) j (slot k.registry.slots j)
    idle_step j idle = elim (Bool-cases (i == j)) [
      | inl q ↦
          let same : i ≡ j = ground arith in
          let idle' : is_due now (slot k.registry.slots j) ≡ false = rw same at idle in
          woken-idle now i left j (slot k.registry.slots j) idle'
      | inr q ↦ woken-other now i left j (slot k.registry.slots j) q
    ]

-- `wake_sleepers` makes ready, and puts into the queue, exactly the sleeping tasks whose tick has come,
-- and changes no other slot.
pub wake_sleepers-woken :
    (now n : ℕ) (k : Kernel)
    → Steady n k
    → n + k.registry.count ≤ 2 ^ 31
    → (k' : Kernel) × (wake_sleepers now k ≡ ok k')
      × Steady (n + k.registry.count) k'
      × ((j : ℕ)
          → slot k'.registry.slots j ≡ woken now 0 k.registry.count j (slot k.registry.slots j))
      × (k'.current_task_idx ≡ k.current_task_idx)
unfolding wake_sleepers
wake_sleepers-woken now n k s few = wake_sleepers_loop-Steady k.registry.count 0 now n k s few

wake_blocked_on_loop-Steady :
    (left i n : ℕ) (reason : BlockReason) (k : Kernel)
    → Steady n k
    → n < 2 ^ 31
    → ((wake_blocked_on_loop left i reason k ≡ ok (none, k))
        × ((j : ℕ) → i ≤ j → j < i + left → is_blocked_on reason (slot k.registry.slots j) ≡ false))
      ⊎ ((j : ℕ) × (k' : Kernel) × (wake_blocked_on_loop left i reason k ≡ ok (some j, k'))
          × (is_blocked_on reason (slot k.registry.slots j) ≡ true)
          × Steady (n + 1) k'
          × (k'.registry ≡ (update_task k j make_ready).registry)
          × (k'.current_task_idx ≡ k.current_task_idx))
unfolding wake_blocked_on_loop
wake_blocked_on_loop-Steady zero i n reason k s few = inl (refl, λ j ge lt. absurd (omega arith))
wake_blocked_on_loop-Steady (suc left) i n reason k s few =
    let seen = task_ptr-slot k i s.sound.size in
    elim (Bool-cases (is_blocked_on reason (slot k.registry.slots i))) [
      | inl hit ↦
          let (k₁, runs, s₁, regs, kept) =
            wake-Steady n k i s (reason-blocked reason (slot k.registry.slots i) hit) few in
          inr (i, k₁, rw (seen, hit, runs) refl, hit, s₁, regs, kept)
      | inr miss ↦ elim (wake_blocked_on_loop-Steady left (i + 1) n reason k s few) [
        | inl (runs, gone) ↦ inl (
          rw (seen, miss) runs,
          λ j ge lt. elim (dec_lt i j) [
            | yes later ↦ gone j (omega arith) (omega arith)
            | no here ↦ let same : i ≡ j = omega arith in rw same at miss
          ],
        )
        | inr (j, k₁, runs, hit, s₁, regs, kept) ↦
            inr (j, k₁, rw (seen, miss) runs, hit, s₁, regs, kept)
      ]
    ]

-- `wake_blocked_on` wakes one task that is blocked on the reason, and returns it; it returns `None` and
-- changes nothing only if no task is.
pub wake_blocked_on-woken :
    (n : ℕ) (reason : BlockReason) (k : Kernel)
    → Steady n k
    → n < 2 ^ 31
    → ((wake_blocked_on reason k ≡ ok (none, k))
        × ((j : ℕ) → j < k.registry.count → is_blocked_on reason (slot k.registry.slots j) ≡ false))
      ⊎ ((j : ℕ) × (k' : Kernel) × (wake_blocked_on reason k ≡ ok (some j, k'))
          × (is_blocked_on reason (slot k.registry.slots j) ≡ true)
          × Steady (n + 1) k'
          × (k'.registry ≡ (update_task k j make_ready).registry)
          × (k'.current_task_idx ≡ k.current_task_idx))
unfolding wake_blocked_on
wake_blocked_on-woken n reason k s few =
    elim (wake_blocked_on_loop-Steady k.registry.count 0 n reason k s few) [
      | inl (runs, gone) ↦ inl (runs, λ j lt. gone j (omega arith) (omega arith))
      | inr found ↦ inr found
    ]
