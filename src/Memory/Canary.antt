-- ===== src/Memory/Canary.antt =====
-- A canary that was written reads as intact until one of its bytes is written.
use ferret_os.Common.{ℕ, ◌+◌, ◌^◌, ◌≤◌, ◌<◌, ◌≡◌, refl, true, arith}
use ferret_os.Memory.{write_u32, read_u32, write_canary, canary_intact, stack_canary}

pub read_u32-write_u32 :
    (memory : ℕ → ℕ) (addr value : ℕ)
    → value < 2 ^ 32
    → read_u32 (write_u32 memory addr value) addr ≡ value
unfolding read_u32 write_u32
read_u32-write_u32 memory addr value h = ground arith

pub canary_intact-write_canary :
    (memory : ℕ → ℕ) (stack_base : ℕ)
    → canary_intact (write_canary memory stack_base) stack_base ≡ true
unfolding canary_intact write_canary
canary_intact-write_canary memory stack_base =
    rw (read_u32-write_u32 memory stack_base stack_canary (omega arith)) refl

-- Memory that agrees on the four bytes.
pub canary_intact-ext :
    (m m' : ℕ → ℕ) (base : ℕ)
    → ((a : ℕ) → base ≤ a → a < base + 4 → m' a ≡ m a)
    → canary_intact m base ≡ true
    → canary_intact m' base ≡ true
unfolding canary_intact read_u32
canary_intact-ext m m' base same h = ground (
  arith,
  same base (omega arith) (omega arith),
  same (base + 1) (omega arith) (omega arith),
  same (base + 2) (omega arith) (omega arith),
  same (base + 3) (omega arith) (omega arith),
)
