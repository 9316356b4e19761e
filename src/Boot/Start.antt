-- ===== src/Boot/Start.antt =====
-- `init` and `prepare_frames` of kernel/src/scheduler/mod.rs on a registry of ready tasks.
use ferret_os.Common.{
  ℕ, zero, suc, ◌+◌, ◌*◌, ◌^◌, ◌≤◌, ◌<◌, ◌≡◌, refl, sym, ap, ◌∙◌, Bool, true, false, Option, none,
  some, List, [], ◌∷◌, length, ◌==◌, if◌then◌else◌, ok, arith, Bool-cases, inl, inr, ◌⊎◌, ==_refl,
  Option-cases, wrapping_add, get_elem?,
}
use Prim.Native.Nat.{bit_or}
use ferret_os.Task.{TaskDescriptor, Slots, max_tasks, effective_priority}
use ferret_os.Ccg.Populated.{slot}
use ferret_os.Queue.Fifo.{Waiter}
use ferret_os.Queue.Refine.{Models}
use ferret_os.Mip.{store_mip, with_mip}
use ferret_os.Context.{TrapFrame, init_frame, mstatus_mpie, reg_ra, reg_sp, reg_gp}
use ferret_os.Context.Frames.{home, kernel_stack_top-runs, homes_apart}
use ferret_os.Scheduler.{
  Kernel, task_ptr, update_task, update_slot, with_frame, effective_of, write_precomputed_mip, init,
}
use ferret_os.Scheduler.Lookup.{
  is_ready, is_running, task_ptr-slot, slot-update_slot, length-update_slot,
}
use ferret_os.Scheduler.Agrees.{Agrees-keep, effective_kept}
use ferret_os.Scheduler.Steps.{Sound, only, Agrees-active}
use ferret_os.Scheduler.Dispatch.{Served}
use ferret_os.Scheduler.Calls.{Steady}
use ferret_os.Boot.{Image, Frames, write_at, mpp_of, prepare_loop}
use ferret_os.Boot.Registered.{AllReady}
use ferret_os.Boot.Populate.{populate_ready_queue-Steady}

length-store_mip :
    (left : ℕ) (mip : List ℕ) (slots : Slots) → length (store_mip left mip slots) ≡ length slots
unfolding store_mip
length-store_mip zero mip slots = refl
length-store_mip (suc left) [] slots = refl
length-store_mip (suc left) (m ∷ mip) [] = refl
length-store_mip (suc left) (m ∷ mip) (none ∷ slots) = ap suc (length-store_mip left mip slots)
length-store_mip (suc left) (m ∷ mip) (some t ∷ slots) = ap suc (length-store_mip left mip slots)

-- A slot is as before, or its task got a value.
store_mip-cases :
    (left : ℕ) (mip : List ℕ) (slots : Slots) (i : ℕ)
    → (slot (store_mip left mip slots) i ≡ slot slots i)
      ⊎ ((m : ℕ) × (t : TaskDescriptor) × (slot slots i ≡ some t)
          × (slot (store_mip left mip slots) i ≡ some (with_mip m t)))
unfolding store_mip slot
store_mip-cases zero mip slots i = inl refl
store_mip-cases (suc left) [] slots i = inl refl
store_mip-cases (suc left) (m ∷ mip) [] i = inl refl
store_mip-cases (suc left) (m ∷ mip) (none ∷ slots) zero = inl refl
store_mip-cases (suc left) (m ∷ mip) (none ∷ slots) (suc i) = store_mip-cases left mip slots i
store_mip-cases (suc left) (m ∷ mip) (some t ∷ slots) zero = inr (m, t, refl, refl)
store_mip-cases (suc left) (m ∷ mip) (some t ∷ slots) (suc i) = store_mip-cases left mip slots i

store_mip-is_ready :
    (left : ℕ) (mip : List ℕ) (slots : Slots) (i : ℕ)
    → is_ready (slot slots i) ≡ true
    → is_ready (slot (store_mip left mip slots) i) ≡ true
unfolding is_ready
store_mip-is_ready left mip slots i h = elim (store_mip-cases left mip slots i) [
  | inl same ↦ rw same h
  | inr (m, t, at, now) ↦ rw now (let h' : is_ready (some t) ≡ true = rw at at h in h')
]

pub store_mip-free :
    (left : ℕ) (mip : List ℕ) (slots : Slots) (i : ℕ)
    → slot slots i ≡ none
    → slot (store_mip left mip slots) i ≡ none
store_mip-free left mip slots i h = elim (store_mip-cases left mip slots i) [
  | inl same ↦ same ∙ h
  | inr (m, t, at, now) ↦ cc
]

-- `init` on a registry of ready tasks starts the best of them.
pub init-Steady :
    (mip_table : List ℕ) (k : Kernel)
    → AllReady k.registry
    → 0 < k.registry.count
    → Models max_tasks 0 k.ready_queue []
    → (k' : Kernel) × (init mip_table k ≡ ok k')
      × Steady k.registry.count k'
      × Served k'
      × (k'.registry.count ≡ k.registry.count)
      × (k'.current_task_idx < k.registry.count)
unfolding init write_precomputed_mip
init-Steady mip_table k a some_task fresh =
    let slots' = store_mip k.registry.count mip_table k.registry.slots in
    let k₁ : Kernel = record k { registry = record { slots = slots'; count = k.registry.count } } in
    populate_ready_queue-Steady k₁
      (length-store_mip k.registry.count mip_table k.registry.slots ∙ a.dense.size) some_task
      a.dense.small
      (λ i h. store_mip-is_ready k.registry.count mip_table k.registry.slots i (a.fresh i h))
      (λ i h. store_mip-free k.registry.count mip_table k.registry.slots i (a.dense.free i h)) fresh

-- A frame address can be stored in any descriptor.
frame-Sound :
    (n : ℕ) (active : ℕ → Bool) (k : Kernel) (ws : List Waiter) (i frame : ℕ) (t : TaskDescriptor)
    → slot k.registry.slots i ≡ some t
    → Sound n active k ws
    → Sound n active (update_task k i (with_frame frame)) ws
unfolding update_task
frame-Sound n active k ws i frame t at s = record {
  size = length-update_slot k.registry.slots i (with_frame frame) ∙ s.size;
  queue = s.queue;
  agrees =
      Agrees-active _ ws _ active (λ j. still j (s.agrees.runs i))
        (Agrees-keep k.registry.slots ws active s.agrees i t at (with_frame frame)
          (unfold effective_priority in refl) (unfold is_ready in refl));
}
  where
    still :
        (j : ℕ)
        → is_running (slot k.registry.slots i) ≡ active i
        → (if i == j then is_running (some (with_frame frame t)) else active j) ≡ active j
    still j run = elim (Bool-cases (i == j)) [
      | inl q ↦
          let same : i ≡ j = ground arith in
          let own : is_running (some t) ≡ active j = rw same at (rw at at run) in
          rw q (unfold is_running in own)
      | inr q ↦ rw q refl
    ]

frame-Served :
    (k : Kernel) (i frame : ℕ) (t : TaskDescriptor)
    → slot k.registry.slots i ≡ some t
    → Served k
    → Served (update_task k i (with_frame frame))
unfolding update_task
frame-Served k i frame t at s = record { served = λ j r. go j r }
  where
    kept :
        (j : ℕ)
        → effective_of (slot (update_slot k.registry.slots i (with_frame frame)) j)
          ≡ effective_of (slot k.registry.slots j)
    kept j =
        effective_kept k.registry.slots i (with_frame frame) t at
          (unfold effective_priority in refl) j

    was :
        (j : ℕ)
        → is_ready (slot (update_slot k.registry.slots i (with_frame frame)) j) ≡ true
        → is_ready (slot k.registry.slots j) ≡ true
    was j r = elim (Bool-cases (i == j)) [
      | inl q ↦
          let same : i ≡ j = ground arith in
          let at' : slot k.registry.slots j ≡ some t = rw same at at in
          let r' : is_ready (some (with_frame frame t)) ≡ true =
            rw (slot-update_slot k.registry.slots i j (with_frame frame), q, at') at r in
          rw at' (unfold is_ready in r')
      | inr q ↦ rw (slot-update_slot k.registry.slots i j (with_frame frame), q) at r
    ]

    go :
        (j : ℕ)
        → is_ready (slot (update_slot k.registry.slots i (with_frame frame)) j) ≡ true
        → effective_of (slot (update_slot k.registry.slots i (with_frame frame)) j)
          ≤ effective_of
              (slot (update_slot k.registry.slots i (with_frame frame)) k.current_task_idx)
    go j r = rw (kept j, kept k.current_task_idx) (s.served j (was j r))

-- The first frame of a task.
pub record FirstFrame (image : Image) (t : TaskDescriptor) (f : TrapFrame) : Type 0 where
  pub starts : f.mepc ≡ t.entry
  pub mode : f.mstatus ≡ bit_or (mpp_of t.mode) mstatus_mpie
  pub stack : get_elem? f.regs reg_sp ≡ some (wrapping_add t.stack_base t.stack_size)
  pub returns : get_elem? f.regs reg_ra ≡ some image.task_returned
  pub globals : get_elem? f.regs reg_gp ≡ some image.gp

-- The slots from `low` to below `high` have their frame on their kernel stack.
pub record Framed (image : Image) (low high : ℕ) (slots : Slots) (frames : Frames) : Type 0 where
  pub framed :
      (i : ℕ) (t : TaskDescriptor)
      → low ≤ i
      → i < high
      → slot slots i ≡ some t
      → (t.stack_ptr ≡ home image.kernel_stacks i)
        × FirstFrame image t (frames (home image.kernel_stacks i))

module _ (image : Image) (fits : image.kernel_stacks + 1024 * max_tasks < 2 ^ 32) where
  homes_differ :
      (i j : ℕ)
      → i < max_tasks
      → j < i
      → (home image.kernel_stacks j == home image.kernel_stacks i) ≡ false
  homes_differ i j hi hj =
      let apart = homes_apart image.kernel_stacks i j hi (omega arith) fits (λ e. omega arith) in
      ground arith

  -- What `init_frame` writes for a task.
  abbrev built : TaskDescriptor → ℕ → TrapFrame
  built t top =
      (init_frame top (wrapping_add t.stack_base t.stack_size) t.entry image.task_returned image.gp
        (bit_or (mpp_of t.mode) mstatus_mpie)).1

  built-FirstFrame :
      (t : TaskDescriptor) (top frame : ℕ) → FirstFrame image (with_frame frame t) (built t top)
  unfolding init_frame
  built-FirstFrame t top frame = record {
    starts = refl;
    mode = refl;
    stack = refl;
    returns = refl;
    globals = refl;
  }

  Framed-next :
      (i : ℕ) (slots : Slots) (frames : Frames) (t : TaskDescriptor) (top : ℕ)
      → i < max_tasks
      → slot slots i ≡ some t
      → Framed image 0 i slots frames
      → Framed image 0
          (i + 1)
          (update_slot slots i (with_frame (home image.kernel_stacks i)))
          (write_at frames (home image.kernel_stacks i) (built t top))
  unfolding write_at
  Framed-next i slots frames t top lt at f = record { framed = λ j u ge le here. go j u le here }
    where
      go :
          (j : ℕ) (u : TaskDescriptor)
          → j < i + 1
          → slot (update_slot slots i (with_frame (home image.kernel_stacks i))) j ≡ some u
          → (u.stack_ptr ≡ home image.kernel_stacks j)
            × FirstFrame image u (
                write_at frames
                  (home image.kernel_stacks i)
                  (built t top)
                  (home image.kernel_stacks j))
      go j u le here =
          let read =
            sym (slot-update_slot slots i j (with_frame (home image.kernel_stacks i))) ∙ here in
          elim (Bool-cases (i == j)) [
            | inl q ↦
                let same : i ≡ j = ground arith in
                let at' : slot slots j ≡ some t = rw same at at in
                let own : ◌≡◌ {A = Option TaskDescriptor}
                    (some (with_frame (home image.kernel_stacks i) t)) (some u) =
                  rw (q, at') at read in
                let e : with_frame (home image.kernel_stacks i) t ≡ u = cc in
                let r : (home image.kernel_stacks j == home image.kernel_stacks j) ≡ true =
                  ==_refl (home image.kernel_stacks j) in
                rw (← e, same, r) (refl, built-FirstFrame t top (home image.kernel_stacks j))
            | inr q ↦
                let old : slot slots j ≡ some u = rw q at read in
                let other = homes_differ i j lt (ground arith) in
                rw other (f.framed j u (omega arith) (ground arith) old)
          ]

module _ (image : Image) (fits : image.kernel_stacks + 1024 * max_tasks < 2 ^ 32) where
  Framed-skip :
      (i : ℕ) (slots : Slots) (frames : Frames)
      → slot slots i ≡ none
      → Framed image 0 i slots frames
      → Framed image 0 (i + 1) slots frames
  Framed-skip i slots frames gone f = record {
    framed = λ j u ge le here. elim (Bool-cases (i == j)) [
      | inl q ↦
          let same : i ≡ j = ground arith in
          let gone' : slot slots j ≡ none = rw same at gone in absurd (cc)
      | inr q ↦ f.framed j u ge (ground arith) here
    ];
  }

  pub prepare_loop-Steady :
      (left i n : ℕ) (k : Kernel) (frames : Frames)
      → i + left ≤ max_tasks
      → Steady n k
      → Served k
      → Framed image 0 i k.registry.slots frames
      → (k' : Kernel) × (frames' : Frames) × (prepare_loop image left i (k, frames)
          ≡ ok (k', frames'))
        × Steady n k'
        × Served k'
        × (k'.current_task_idx ≡ k.current_task_idx)
        × (k'.registry.count ≡ k.registry.count)
        × Framed image 0 (i + left) k'.registry.slots frames'
  unfolding prepare_loop update_task init_frame
  prepare_loop-Steady zero i n k frames low st served f =
      let same : i ≡ i + 0 = omega arith in (k, frames, refl, st, served, refl, refl, rw same at f)
  prepare_loop-Steady (suc left) i n k frames low st served f =
      let same : i + 1 + left ≡ i + suc left = omega arith in
      let top = kernel_stack_top-runs image.kernel_stacks i (omega arith) in
      elim (Option-cases (task_ptr k i)) [
        | inl gone ↦
            let (k', frames', runs, st', served', cur, count, f') =
              prepare_loop-Steady left (i + 1) n k frames (omega arith) st served (
                Framed-skip i k.registry.slots frames (sym (task_ptr-slot k i st.sound.size) ∙ gone)
                  f) in
            (k', frames', rw (gone, prepare_loop) runs, st', served', cur, count, rw same at f')
        | inr (t, at) ↦
            let here : slot k.registry.slots i ≡ some t =
              sym (task_ptr-slot k i st.sound.size) ∙ at in
            let addr = home image.kernel_stacks i in
            let top_addr = wrapping_add (wrapping_add image.kernel_stacks (1024 * i)) 1024 in
            let k₁ = update_task k i (with_frame addr) in
            let (k', frames', runs, st', served', cur, count, f') =
              prepare_loop-Steady left (i + 1) n k₁
                (write_at frames addr (built image fits t top_addr)) (omega arith)
                (record {
                  waiters = st.waiters;
                  sound =
                      frame-Sound n (only k.current_task_idx) k st.waiters i addr t here st.sound;
                })
                (frame-Served k i addr t here served)
                (Framed-next image fits i k.registry.slots frames t top_addr (omega arith) here
                  f) in
            (k', frames', rw (at, prepare_loop, top) runs, st', served', cur, count, rw same at f')
      ]
