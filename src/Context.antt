-- ===== src/Context.antt =====
-- kernel/src/context/mod.rs: trap frames, kernel stacks, and the first frame of a task. `stacks` is the
-- address at which the linker puts `KERNEL_STACKS`.
pub mod Frames
use ferret_os.Common.{
  ℕ, ◌+◌, ◌-◌, ◌*◌, ◌^◌, List, set, replicate, ltb, Run, ok, assert_then, wrapping_add,
  wrapping_sub,
}
use ferret_os.Task.{max_tasks}

pub record TrapFrame : Type 0 where
  pub regs : List ℕ
  pub mepc : ℕ
  pub mstatus : ℕ
  pub mcause : ℕ
  pub mtval : ℕ

abbrev pub reg_a0 : ℕ
reg_a0 = 10

abbrev pub reg_a1 : ℕ
reg_a1 = 11

abbrev pub reg_a2 : ℕ
reg_a2 = 12

abbrev pub reg_a3 : ℕ
reg_a3 = 13

abbrev pub reg_a7 : ℕ
reg_a7 = 17

abbrev pub reg_ra : ℕ
reg_ra = 1

abbrev pub reg_sp : ℕ
reg_sp = 2

abbrev pub reg_gp : ℕ
reg_gp = 3

abbrev pub trap_frame_size : ℕ
trap_frame_size = 144

abbrev pub mstatus_mpp_machine : ℕ
mstatus_mpp_machine = 6144

abbrev pub mstatus_mpp_user : ℕ
mstatus_mpp_user = 0

abbrev pub mstatus_mpie : ℕ
mstatus_mpie = 128

abbrev pub kernel_stack_size : ℕ
kernel_stack_size = 1024

unfoldable pub kernel_stack_top : ℕ → ℕ → Run ℕ
kernel_stack_top stacks slot =
    assert_then (ltb slot max_tasks)
      (ok (wrapping_add (wrapping_add stacks (kernel_stack_size * slot)) kernel_stack_size))

unfoldable pub boot_trap_stack_top : ℕ → ℕ
boot_trap_stack_top boot_trap_stack = wrapping_add boot_trap_stack kernel_stack_size

-- The address of the frame, and what is written there.
unfoldable pub init_frame : ℕ → ℕ → ℕ → ℕ → ℕ → ℕ → ℕ × TrapFrame
init_frame kernel_stack_top user_stack_top entry exit_trap gp mstatus =
    let regs = set (set (set (replicate 32 0) reg_ra exit_trap) reg_sp user_stack_top) reg_gp gp in
    (
      wrapping_sub kernel_stack_top trap_frame_size,
      record { regs = regs; mepc = entry; mstatus = mstatus; mcause = 0; mtval = 0 },
    )
