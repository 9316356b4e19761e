-- ===== src/Boot/Reached.antt =====
-- What holds in every state that the kernel reaches: the boot, and then any traps.
use ferret_os.Common.{ℕ, ◌+◌, ◌*◌, ◌^◌, ◌<◌, ◌≡◌, sym, ◌∙◌, length, Run, ok, inl, inr}
use ferret_os.Task.{max_tasks}
use ferret_os.Context.Frames.{home}
use ferret_os.Pmp.{Pmp}
use ferret_os.Clint.{Clint, get_mtime}
use ferret_os.Syscall.{System}
use ferret_os.Trap.{Machine}
use ferret_os.Trap.Handler.{InCharge}
use ferret_os.Trap.Reach.{Reach, Reach-InCharge}
use ferret_os.Boot.{Image, Frames, kernel_main}
use ferret_os.Boot.Ready.{kernel_main-InCharge}

-- The machine that the boot leaves.
abbrev pub booted : System → Clint → Machine
booted s c = record { system = s; clint = c; syscall_seen = 0 }

same_boot :
    (frame frame' : ℕ) (s s' : System) (c c' : Clint)
    → ◌≡◌ {A = Run (ℕ × System × Clint)} (ok (frame, s, c)) (ok (frame', s', c'))
    → (frame ≡ frame') × (s ≡ s') × (c ≡ c')
same_boot frame frame' s s' c c' h = (cc, cc, cc)

module _ (image : Image) (mtime : ℕ → ℕ) (at now later : ℕ) (memory : ℕ → ℕ) (frames : Frames)
    (pmp : Pmp) (clint : Clint) (room : length image.tasks < max_tasks)
    (fits : image.kernel_stacks + 1024 * max_tasks < 2 ^ 32)
    (reads : get_mtime 2 mtime at ≡ ok (now, later)) where
  -- After the boot, each trap finds and leaves a machine in charge, until 2^31 inserts may have been made.
  pub kernel_main-Reach :
      (frame : ℕ) (s : System) (c : Clint) {steps frame' : ℕ} {m' : Machine}
      → kernel_main image mtime at memory frames pmp clint ≡ ok (frame, s, c)
      → Reach frame (booted s c) steps frame' m'
      → length image.tasks + 1 + steps * (length image.tasks + 1 + 2) < 2 ^ 31
      → InCharge
          (home image.kernel_stacks)
          (length image.tasks + 1)
          (length image.tasks + 1 + steps * (length image.tasks + 1 + 2))
          frame'
          m'.system
  kernel_main-Reach frame s c {steps = steps} runs r few =
      let (reg, memory', registers, ends) =
        kernel_main-InCharge image mtime at now later memory frames pmp clint room fits reads in
      elim ends [
        | inl (stops, why) ↦ absurd (let clash = sym runs ∙ stops in cc)
        | inr (accepted, frame₁, s₁, c₁, runs₁, charge, served, framed) ↦
            let (f, e, g) = same_boot frame₁ frame s₁ s c₁ c (sym runs₁ ∙ runs) in
            let charge' : InCharge (home image.kernel_stacks) (length image.tasks + 1)
                (length image.tasks + 1) frame s =
              rw (f, e) at charge in
            Reach-InCharge (home image.kernel_stacks) (length image.tasks + 1)
              (length image.tasks + 1) frame (booted s c) charge' r few
      ]
