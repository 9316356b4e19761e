-- ===== src/Context/Frames.antt =====
-- Where the frames of the tasks lie.
use ferret_os.Common.{
  ℕ, ◌+◌, ◌*◌, ◌^◌, ◌≤◌, ◌<◌, ◌≡◌, ◌≢◌, refl, true, ok, arith, wrapping_add, wrapping_sub, ◌⊎◌, ltb,
}
use ferret_os.Task.{max_tasks}
use ferret_os.Context.{kernel_stack_top, kernel_stack_size, trap_frame_size}

-- The address of the frame on the kernel stack of a slot.
abbrev pub home : ℕ → ℕ → ℕ
home stacks slot =
    wrapping_sub (wrapping_add (wrapping_add stacks (kernel_stack_size * slot)) kernel_stack_size)
      trap_frame_size

pub kernel_stack_top-runs :
    (stacks slot : ℕ)
    → slot < max_tasks
    → kernel_stack_top stacks slot
      ≡ ok (wrapping_add (wrapping_add stacks (kernel_stack_size * slot)) kernel_stack_size)
unfolding kernel_stack_top
kernel_stack_top-runs stacks slot h =
    let low : ltb slot max_tasks ≡ true = ground arith in rw low refl

-- The frame of a slot lies within its kernel stack.
pub home_in_stack :
    (stacks slot : ℕ)
    → slot < max_tasks
    → stacks + kernel_stack_size * max_tasks < 2 ^ 32
    → (stacks + kernel_stack_size * slot ≤ home stacks slot)
      × (home stacks slot + trap_frame_size ≡ stacks + kernel_stack_size * (slot + 1))
home_in_stack stacks slot h fits = (ground arith, ground arith)

-- The frames of two slots do not overlap.
pub homes_apart :
    (stacks i j : ℕ)
    → i < max_tasks
    → j < max_tasks
    → stacks + kernel_stack_size * max_tasks < 2 ^ 32
    → i ≢ j
    → (home stacks i + trap_frame_size ≤ home stacks j)
      ⊎ (home stacks j + trap_frame_size ≤ home stacks i)
homes_apart stacks i j hi hj fits differ = ground arith
