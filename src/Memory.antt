-- ===== src/Memory.antt =====
-- kernel/src/memory/stack.rs and kernel/src/memory/region.rs: stack canaries and static regions.
-- Memory is a function from addresses to bytes; a 32-bit word is little-endian.
use ferret_os.Common.{
  ℕ, ◌+◌, ◌-◌, ◌*◌, ◌/◌, ◌%◌, ◌^◌, ◌≤◌, ◌<◌, Bool, ◌&&◌, ◌||◌, List, [], ◌∷◌, ◌++◌, replicate, ltb,
  leb, ◌==◌, Run, ok, assert_then, if◌then◌else◌,
}
pub mod Canary

abbrev pub stack_canary : ℕ
stack_canary = 3735929054

-- `ptr::write_volatile(addr as *mut u32, value)`
unfoldable pub write_u32 : (ℕ → ℕ) → ℕ → ℕ → ℕ → ℕ
write_u32 memory addr value a =
    if a == addr
    then value % 256
    else (if a == addr + 1
        then value / 2 ^ 8 % 256
        else (if a == addr + 2
            then value / 2 ^ 16 % 256
            else (if a == addr + 3 then value / 2 ^ 24 % 256 else memory a)))

unfoldable pub read_u32 : (ℕ → ℕ) → ℕ → ℕ
read_u32 memory addr =
    memory addr
    + 2 ^ 8 * memory (addr + 1)
    + 2 ^ 16 * memory (addr + 2)
    + 2 ^ 24 * memory (addr + 3)

unfoldable pub write_canary : (ℕ → ℕ) → ℕ → ℕ → ℕ
write_canary memory stack_base = write_u32 memory stack_base stack_canary

unfoldable pub canary_intact : (ℕ → ℕ) → ℕ → Bool
canary_intact memory stack_base = read_u32 memory stack_base == stack_canary

-- `Stack::<N>::new()`: the canary and zeros.
unfoldable pub new_stack : ℕ → Run (List ℕ)
new_stack n = assert_then (n % 16 == 0) (
    assert_then (leb 16 n) (
      ok (
        stack_canary % 256
        ∷ stack_canary / 2 ^ 8 % 256
        ∷ stack_canary / 2 ^ 16 % 256
        ∷ stack_canary / 2 ^ 24 % 256
        ∷ replicate (n - 4) 0)))

unfoldable pub contains : ℕ → ℕ → ℕ → Bool
contains start end addr = leb start addr && ltb addr end

-- The assertion of `assert_no_overlap`.
unfoldable pub no_overlap : ℕ → ℕ → ℕ → ℕ → Bool
no_overlap a_start a_end b_start b_end = leb a_end b_start || leb b_end a_start
