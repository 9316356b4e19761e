-- ===== src/Boot/Ready.antt =====
-- `kernel_main`: the state in which the first task starts.
use ferret_os.Common.{
  ℕ, zero, suc, ◌+◌, ◌*◌, ◌^◌, ◌%◌, ◌≤◌, ◌<◌, ◌≡◌, ◌≢◌, refl, sym, ap, ◌∙◌, true, false, Option,
  none, some, List, [], ◌∷◌, length, replicate, get_elem?, Run, ok, halted, ◌>>=◌, arith,
  Bool-cases, inl, inr, ◌⊎◌, dec_lt,
}
use ferret_os.Task.{
  TaskDescriptor, TaskMode, user, machine, Registry, Slots, max_tasks, max_channels,
  max_peripherals,
}
use ferret_os.Allocator.{check_capability_conflicts, check_channel_conflicts}
use ferret_os.Allocator.Caps.{holders, check_capability_conflicts-exact}
use ferret_os.Allocator.Ends.{Misheld, senders_of, receivers_of, check_channel_conflicts-exact}
use ferret_os.Pmp.{Pmp, configure_pmp}
use ferret_os.Queue.Refine.{new-Models}
use ferret_os.Channel.{Channel, Message, channel, new, channel_capacity, no_messages}
use ferret_os.Channel.Contents.{Holds, new-Holds}
use ferret_os.Clint.{set_mtimecmp, tick_cycles, Clint, get_mtime, start_ticks}
use ferret_os.Context.Frames.{home}
use ferret_os.Scheduler.{init, Kernel, frame_of}
use ferret_os.Scheduler.Lookup.{task_ptr-slot}
use ferret_os.Scheduler.Steps.{current_running}
use ferret_os.Scheduler.Dispatch.{Served}
use ferret_os.Scheduler.Calls.{Steady}
use ferret_os.Syscall.{System}
use ferret_os.Syscall.Invariant.{ChannelsHold}
use ferret_os.Scheduler.Homes.{Homed}
use ferret_os.Trap.Handler.{InCharge}
use ferret_os.Boot.Vacant.{Vacant, init-Vacant, prepare_loop-Vacant}
use ferret_os.Boot.{
  prepare_loop, Image, Frames, is_inside, check_region_placement, register_tasks, static_kernel,
  prepare_frames, first_frame, kernel_main,
}
use ferret_os.Boot.Registered.{AllReady, register_tasks-AllReady}
use ferret_os.Boot.Start.{Framed, init-Steady, prepare_loop-Steady}

-- The stack of the user task in some slot is not inside its region.
abbrev pub Misplaced : Slots → Type 0
Misplaced slots =
    (i : ℕ) × (t : TaskDescriptor) × (get_elem? slots i ≡ some (some t))
    × (t.mode ≡ user)
    × (is_inside t ≡ false)

abbrev pub AllPlaced : Slots → Type 0
AllPlaced slots =
    (i : ℕ) (t : TaskDescriptor)
    → get_elem? slots i ≡ some (some t)
    → t.mode ≡ user
    → is_inside t ≡ true

Misplaced-cons :
    (o : Option TaskDescriptor) (slots : Slots) → Misplaced slots → Misplaced (o ∷ slots)
Misplaced-cons o slots (i, t, at, u, out) = (suc i, t, at, u, out)

AllPlaced-none : (slots : Slots) → AllPlaced slots → AllPlaced (none ∷ slots)
AllPlaced-none slots all zero t at u = cc
AllPlaced-none slots all (suc i) t at u = all i t at u

AllPlaced-some :
    (t : TaskDescriptor) (slots : Slots)
    → (t.mode ≡ user → is_inside t ≡ true)
    → AllPlaced slots
    → AllPlaced (some t ∷ slots)
AllPlaced-some t slots own all zero u at h =
    let e : some t ≡ some u = cc in let e' : u ≡ t = cc in rw e' (own (rw e' at h))
AllPlaced-some t slots own all (suc i) u at h = all i u at h

TaskMode-cases : (m : TaskMode) → (m ≡ user) ⊎ (m ≡ machine)
TaskMode-cases user = inl refl
TaskMode-cases machine = inr refl

user_not_machine : user ≢ machine
user_not_machine h = cc

-- The check of the regions halts exactly if the stack of a user task is not inside its region.
pub check_region_placement-exact :
    (slots : Slots)
    → ((check_region_placement slots ≡ halted) × Misplaced slots)
      ⊎ ((check_region_placement slots ≡ ok tt) × AllPlaced slots)
unfolding check_region_placement
check_region_placement-exact [] = inr (refl, λ i t at u. cc)
check_region_placement-exact (none ∷ slots) = elim (check_region_placement-exact slots) [
  | inl (stops, why) ↦ inl (stops, Misplaced-cons none slots why)
  | inr (runs, all) ↦ inr (runs, AllPlaced-none slots all)
]
check_region_placement-exact (some t ∷ slots) = elim (TaskMode-cases t.mode) [
  | inr m ↦ elim (check_region_placement-exact slots) [
    | inl (stops, why) ↦
        inl (rw (m, check_region_placement) stops, Misplaced-cons (some t) slots why)
    | inr (runs, all) ↦ inr (
      rw (m, check_region_placement) runs,
      AllPlaced-some t slots (λ u. absurd (user_not_machine (sym u ∙ m))) all,
    )
  ]
  | inl u ↦ elim (Bool-cases (is_inside t)) [
    | inr out ↦ inl (rw (u, check_region_placement, out) refl, (zero, t, refl, u, out))
    | inl inside ↦ elim (check_region_placement-exact slots) [
      | inl (stops, why) ↦
          inl (rw (u, check_region_placement, inside) stops, Misplaced-cons (some t) slots why)
      | inr (runs, all) ↦
          inr
            (rw (u, check_region_placement, inside) runs, AllPlaced-some t slots (λ _. inside) all)
    ]
  ]
]

new_channels-Holds :
    (left : ℕ) (ch : ℕ) (chan : Channel Message)
    → get_elem? (replicate left (new channel_capacity)) ch ≡ some chan
    → (q : List Message) × Holds channel_capacity chan q
new_channels-Holds zero ch chan h = cc
new_channels-Holds (suc left) zero chan h =
    let e : ◌≡◌ {A = Option (Channel Message)} (some (new channel_capacity)) (some chan) = h in
    let e' : new channel_capacity ≡ chan = cc in
    ([], rw e' at (new-Holds {A = Message} channel_capacity (omega arith) (omega arith)))
new_channels-Holds (suc left) (suc ch) chan h = new_channels-Holds left ch chan h

no_messages-ChannelsHold : ChannelsHold no_messages
unfolding no_messages channel
no_messages-ChannelsHold ch chan at = new_channels-Holds max_channels ch chan at

-- The frame of the current task is where its slot has it.
current-home :
    (image : Image) (n count : ℕ) (k : Kernel) (frames : Frames)
    → Steady n k
    → k.current_task_idx < count
    → Framed image 0 count k.registry.slots frames
    → first_frame k ≡ home image.kernel_stacks k.current_task_idx
unfolding first_frame frame_of
current-home image n count k frames s low f =
    let (t, at, run) = current_running n k s.waiters s.sound in
    let (same, first) = f.framed k.current_task_idx t (omega arith) low at in
    rw (task_ptr-slot k k.current_task_idx s.sound.size, at, frame_of) same

Framed-Homed :
    (image : Image) (count : ℕ) (k : Kernel) (frames : Frames)
    → Vacant count k
    → Framed image 0 count k.registry.slots frames
    → Homed (home image.kernel_stacks) count k
Framed-Homed image count k frames v f = record {
  size = v.size;
  home = λ i t at. elim (dec_lt i count) [
    | yes lt ↦ (f.framed i t (omega arith) lt at).0
    | no ge ↦ absurd (let gone = v.free i (omega arith) in cc)
  ];
}

-- Why the boot stops: the stack of a user task is not inside its region, a peripheral has two exclusive
-- holders, or an end of a channel is misheld.
pub data Refused (slots : Slots) : Type 0 where
  misplaced : Misplaced slots → Refused slots
  shared : (cap_id : ℕ) → cap_id < max_peripherals → 2 ≤ holders cap_id slots → Refused slots
  crossed :
      (ch : ℕ)
      → ch < 32
      → Misheld ch (senders_of ch slots) ⊎ Misheld ch (receivers_of ch slots)
      → Refused slots

-- What the checks of the boot establish.
pub record Accepted (slots : Slots) : Type 0 where
  pub placed : AllPlaced slots
  pub single : (cap_id : ℕ) → cap_id < max_peripherals → holders cap_id slots ≤ 1
  pub ends : (ch : ℕ) → ch < max_channels → (senders_of ch slots ≤ 1) × (receivers_of ch slots ≤ 1)

-- The three checks, and then the rest of the boot.
module _ {ℓ} {B : Type ℓ} (slots : Slots) (rest : Run B) where
  abbrev checked : Run B
  checked = check_region_placement slots >>= λ placed.
      check_capability_conflicts slots >>= λ claimed. check_channel_conflicts slots >>= λ ends. rest

  checked-cases : ((checked ≡ halted) × Refused slots) ⊎ ((checked ≡ rest) × Accepted slots)
  checked-cases = elim (check_region_placement-exact slots) [
    | inl (stops, why) ↦ inl (rw stops refl, misplaced why)
    | inr (goes, placed) ↦ elim (check_capability_conflicts-exact slots) [
      | inl (stops, c, lt, two) ↦ inl (rw (goes, stops) refl, shared c lt two)
      | inr (owners, goes', single) ↦ elim (check_channel_conflicts-exact slots) [
        | inl (stops, ch, lt, why) ↦ inl (rw (goes, goes', stops) refl, crossed ch lt why)
        | inr (ends, goes'', held, absent) ↦ inr (
          rw (goes, goes', goes'') refl,
          record { placed = placed; single = single; ends = held },
        )
      ]
    ]
  ]

-- `kernel_main` after the checks.
abbrev launch :
    Image → (ℕ → ℕ) → ℕ → (ℕ → ℕ) → Frames → Pmp → Clint → Registry → Run (ℕ × System × Clint)
launch image mtime at memory frames pmp clint r = do
  k ← init image.mip_table (static_kernel r (configure_pmp pmp))
  (k', frames') ← prepare_frames image (k, frames)
  clint' ← start_ticks 2 mtime at clint
  let s : System = record {
    kernel = k';
    channels = no_messages;
    frames = frames';
    memory = memory;
    console = [];
    clock = clint'.tick_count;
  }
  ok (first_frame k', s, clint')

module _ (image : Image) (mtime : ℕ → ℕ) (at now later : ℕ) (frames : Frames) (pmp : Pmp)
    (clint : Clint) (fits : image.kernel_stacks + 1024 * max_tasks < 2 ^ 32)
    (reads : get_mtime 2 mtime at ≡ ok (now, later)) where
  abbrev clock_set : Clint
  clock_set =
      set_mtimecmp ((now + tick_cycles) % 2 ^ 64)
        (record clint { next_deadline = (now + tick_cycles) % 2 ^ 64 })

  abbrev started : (ℕ → ℕ) → Kernel → Frames → System
  started memory k' frames' = record {
    kernel = k';
    channels = no_messages;
    frames = frames';
    memory = memory;
    console = [];
    clock = clock_set.tick_count;
  }

  launch-runs :
      (memory : ℕ → ℕ) (r : Registry) (k k' : Kernel) (frames' : Frames) (addr : ℕ)
      → init image.mip_table (static_kernel r (configure_pmp pmp)) ≡ ok k
      → k.registry.count ≡ r.count
      → prepare_loop image r.count 0 (k, frames) ≡ ok (k', frames')
      → first_frame k' ≡ addr
      → launch image mtime at memory frames pmp clint r
        ≡ ok (addr, started memory k' frames', clock_set)
  unfolding prepare_frames start_ticks
  launch-runs memory r k k' frames' addr inits count prepares first =
      let prepares' : prepare_loop image k.registry.count 0 (k, frames) ≡ ok (k', frames') =
        ap (λ (c : ℕ). prepare_loop image c 0 (k, frames)) count ∙ prepares in
      rw (inits, prepares', reads, first) refl

  -- A task that no ready task outranks is started, in its first frame.
  launch-InCharge :
      (memory : ℕ → ℕ) (r : Registry)
      → AllReady r
      → 0 < r.count
      → (frame : ℕ) × (s : System) × (c : Clint) × (launch image mtime at memory frames pmp clint r
          ≡ ok (frame, s, c))
        × InCharge (home image.kernel_stacks) r.count r.count frame s
        × Served s.kernel
        × Framed image 0 r.count s.kernel.registry.slots s.frames
  unfolding static_kernel
  launch-InCharge memory r ready some_task =
      let k₀ = static_kernel r (configure_pmp pmp) in
      let (k, inits, s₁, served₁, count₁, low) =
        init-Steady image.mip_table k₀ ready some_task (new-Models max_tasks) in
      let v₁ : Vacant r.count k = rw inits at (
        init-Vacant r.count image.mip_table k₀ (record { size = refl; free = ready.dense.free })) in
      let same : 0 + r.count ≡ r.count = omega arith in
      let (k', frames', prepares, s₂, served₂, cur, count₂, framed₀) =
        prepare_loop-Steady image fits r.count 0 r.count k frames (rw same ready.dense.small) s₁
          served₁ (record { framed = λ i t ge lt here. absurd (omega arith) }) in
      let v₂ : Vacant r.count k' =
        rw prepares at (prepare_loop-Vacant r.count image r.count 0 k frames v₁) in
      let framed = rw same at framed₀ in
      let low' : k'.current_task_idx < r.count = rw cur low in
      let first = current-home image r.count r.count k' frames' s₂ low' framed in
      (
        home image.kernel_stacks k'.current_task_idx,
        started memory k' frames',
        clock_set,
        launch-runs memory r k k' frames' (home image.kernel_stacks k'.current_task_idx) inits
            count₁ prepares first,
        record {
          order = record { steady = s₂; hold = no_messages-ChannelsHold };
          homed = Framed-Homed image r.count k' frames' v₂ framed;
          own = refl;
        },
        served₂,
        framed,
      )

-- With room in the registry and for the kernel stacks, and if `mtime` is read, the boot stops if the
-- task set is refused. Otherwise it starts, in its first frame, a task that no ready task outranks.
pub kernel_main-InCharge :
    (image : Image) (mtime : ℕ → ℕ) (at now later : ℕ) (memory : ℕ → ℕ) (frames : Frames)
    (pmp : Pmp) (clint : Clint)
    → length image.tasks < max_tasks
    → image.kernel_stacks + 1024 * max_tasks < 2 ^ 32
    → get_mtime 2 mtime at ≡ ok (now, later)
    → (r : Registry) × (memory' : ℕ → ℕ) × (register_tasks image memory ≡ ok (r, memory'))
      × (((kernel_main image mtime at memory frames pmp clint ≡ halted) × Refused r.slots)
          ⊎ (Accepted r.slots
              × (frame : ℕ) × (s : System) × (c : Clint) × (kernel_main image mtime at memory frames
                    pmp clint
                  ≡ ok (frame, s, c))
              × InCharge
                  (home image.kernel_stacks)
                  (length image.tasks + 1)
                  (length image.tasks + 1)
                  frame
                  s
              × Served s.kernel
              × Framed image 0 (length image.tasks + 1) s.kernel.registry.slots s.frames))
unfolding kernel_main
kernel_main-InCharge image mtime at now later memory frames pmp clint room fits reads =
    let (r, memory', runs, ready, count) = register_tasks-AllReady image memory room in
    (
      r,
      memory',
      runs,
      elim (checked-cases r.slots (launch image mtime at memory' frames pmp clint r)) [
        | inl (stops, why) ↦ inl (rw runs stops, why)
        | inr (goes, accepted) ↦
            let (frame, s, c, starts, charge, served, framed) =
              launch-InCharge image mtime at now later frames pmp clint fits reads memory' r ready
                (omega arith) in
            inr (
              accepted,
              frame,
              s,
              c,
              rw runs (goes ∙ starts),
              rw count at charge,
              served,
              rw count at framed,
            )
      ],
    )
