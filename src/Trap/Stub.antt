-- ===== src/Trap/Stub.antt =====
-- The assembly of kernel/src/context/trap.rs: `__trap_entry` up to the call of `trap_handler`, and
-- `__restore_context`, as lists of instructions with what each does to the registers, the control and
-- status registers and the words of memory. `mret` itself, which jumps to `mepc`, is left out.
pub mod Blocks
pub mod Entry
pub mod Exit
mod Tests
use ferret_os.Common.{
  ℕ, ◌+◌, ◌-◌, ◌^◌, Bool, true, false, not, ◌&&◌, List, [], ◌∷◌, ◌++◌, map, ◌==◌, if◌then◌else◌,
  wrapping_add,
}

pub data Csr : Type 0 where
  mscratch mepc mstatus mcause mtval : Csr

unfoldable pub same_csr : Csr → Csr → Bool
same_csr mscratch mscratch = true
same_csr mepc mepc = true
same_csr mstatus mstatus = true
same_csr mcause mcause = true
same_csr mtval mtval = true
same_csr mscratch c = false
same_csr mepc c = false
same_csr mstatus c = false
same_csr mcause c = false
same_csr mtval c = false

pub record Cpu : Type 0 where
  pub regs : ℕ → ℕ
  pub csrs : Csr → ℕ
  pub memory : ℕ → ℕ

-- Registers are numbers: `sp` is 2, `t0` is 5 and `a0` is 10. An immediate is its word.
pub data Instr : Type 0 where
  csrrw : ℕ → Csr → ℕ → Instr
  csrr : ℕ → Csr → Instr
  csrw : Csr → ℕ → Instr
  addi : ℕ → ℕ → ℕ → Instr
  mv : ℕ → ℕ → Instr
  sw : ℕ → ℕ → ℕ → Instr
  lw : ℕ → ℕ → ℕ → Instr

-- A write to `x0` has no effect.
unfoldable pub set_reg : ℕ → ℕ → Cpu → Cpu
set_reg rd v c = record c { regs = λ r. if r == rd && not (rd == 0) then v else c.regs r }

unfoldable pub set_csr : Csr → ℕ → Cpu → Cpu
set_csr s v c = record c { csrs = λ s'. if same_csr s' s then v else c.csrs s' }

unfoldable pub set_word : ℕ → ℕ → Cpu → Cpu
set_word addr v c = record c { memory = λ a. if a == addr then v else c.memory a }

unfoldable pub step : Instr → Cpu → Cpu
step (csrrw rd s rs) c = set_reg rd (c.csrs s) (set_csr s (c.regs rs) c)
step (csrr rd s) c = set_reg rd (c.csrs s) c
step (csrw s rs) c = set_csr s (c.regs rs) c
step (addi rd rs imm) c = set_reg rd (wrapping_add (c.regs rs) imm) c
step (mv rd rs) c = set_reg rd (c.regs rs) c
step (sw rs off base) c = set_word (wrapping_add (c.regs base) off) (c.regs rs) c
step (lw rd off base) c = set_reg rd (c.memory (wrapping_add (c.regs base) off)) c

unfoldable pub run : List Instr → Cpu → Cpu
run [] c = c
run (i ∷ is) c = run is (step i c)

abbrev pub sp : ℕ
sp = 2

abbrev pub t0 : ℕ
t0 = 5

abbrev pub a0 : ℕ
a0 = 10

-- The registers that are saved and restored with `sp` as the base, each with its offset.
abbrev pub saved_regs : List (ℕ × ℕ)
saved_regs =
    (0, 0)
    ∷ (1, 4)
    ∷ (3, 12)
    ∷ (4, 16)
    ∷ (5, 20)
    ∷ (6, 24)
    ∷ (7, 28)
    ∷ (8, 32)
    ∷ (9, 36)
    ∷ (10, 40)
    ∷ (11, 44)
    ∷ (12, 48)
    ∷ (13, 52)
    ∷ (14, 56)
    ∷ (15, 60)
    ∷ (16, 64)
    ∷ (17, 68)
    ∷ (18, 72)
    ∷ (19, 76)
    ∷ (20, 80)
    ∷ (21, 84)
    ∷ (22, 88)
    ∷ (23, 92)
    ∷ (24, 96)
    ∷ (25, 100)
    ∷ (26, 104)
    ∷ (27, 108)
    ∷ (28, 112)
    ∷ (29, 116)
    ∷ (30, 120)
    ∷ (31, 124)
    ∷ []

abbrev pub restored_regs : List (ℕ × ℕ)
restored_regs =
    (1, 4)
    ∷ (3, 12)
    ∷ (4, 16)
    ∷ (5, 20)
    ∷ (6, 24)
    ∷ (7, 28)
    ∷ (8, 32)
    ∷ (9, 36)
    ∷ (10, 40)
    ∷ (11, 44)
    ∷ (12, 48)
    ∷ (13, 52)
    ∷ (14, 56)
    ∷ (15, 60)
    ∷ (16, 64)
    ∷ (17, 68)
    ∷ (18, 72)
    ∷ (19, 76)
    ∷ (20, 80)
    ∷ (21, 84)
    ∷ (22, 88)
    ∷ (23, 92)
    ∷ (24, 96)
    ∷ (25, 100)
    ∷ (26, 104)
    ∷ (27, 108)
    ∷ (28, 112)
    ∷ (29, 116)
    ∷ (30, 120)
    ∷ (31, 124)
    ∷ []

abbrev pub save : ℕ × ℕ → Instr
save (r, off) = sw r off sp

abbrev pub restore : ℕ × ℕ → Instr
restore (r, off) = lw r off sp

-- `__trap_entry`, up to the call of `trap_handler`.
abbrev pub switch_stack : List Instr
switch_stack = csrrw sp mscratch sp ∷ addi sp sp (2 ^ 32 - 144) ∷ []

abbrev pub save_csrs : List Instr
save_csrs =
    csrr t0 mscratch
    ∷ sw t0 8 sp
    ∷ csrr t0 mepc
    ∷ sw t0 128 sp
    ∷ csrr t0 mstatus
    ∷ sw t0 132 sp
    ∷ csrr t0 mcause
    ∷ sw t0 136 sp
    ∷ csrr t0 mtval
    ∷ sw t0 140 sp
    ∷ mv a0 sp
    ∷ []

unfoldable pub trap_entry : List Instr
trap_entry = switch_stack ++ (map save saved_regs ++ save_csrs)

-- `__restore_context`
abbrev pub restore_csrs : List Instr
restore_csrs =
    mv sp a0
    ∷ addi t0 sp 144
    ∷ csrw mscratch t0
    ∷ lw t0 128 sp
    ∷ csrw mepc t0
    ∷ lw t0 132 sp
    ∷ csrw mstatus t0
    ∷ []

unfoldable pub restore_context : List Instr
restore_context = restore_csrs ++ (map restore restored_regs ++ (lw sp 8 sp ∷ []))
