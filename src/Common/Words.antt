-- ===== src/Common/Words.antt =====
-- The machine words of the kernel: `u8`, `u32` and, on RV32, a `usize` of 32 bits.
use Prim.Native.Nat.{ℕ, ◌+◌, ◌-◌, ◌%◌, ◌^◌}
use mathlib.Core.Bool.{Bool, ◌&&◌}
use ferret_os.Common.Tests.{ltb}

abbrev pub u32_mod : ℕ
u32_mod = 2 ^ 32

-- `a.wrapping_sub(b)` and `a.wrapping_add(b)` on `u32`
abbrev pub wrapping_sub : ℕ → ℕ → ℕ
wrapping_sub a b = (a + u32_mod - b) % u32_mod

abbrev pub wrapping_add : ℕ → ℕ → ℕ
wrapping_add a b = (a + b) % u32_mod

-- `(d as i32) > 0` and `(d as i32) >= 0`
abbrev pub is_positive_i32 : ℕ → Bool
is_positive_i32 d = ltb 0 d && ltb d (2 ^ 31)

abbrev pub is_nonnegative_i32 : ℕ → Bool
is_nonnegative_i32 d = ltb d (2 ^ 31)
