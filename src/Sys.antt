-- ===== src/Sys.antt =====
-- kernel/src/sys.rs: the wrappers that tasks call, and the line buffer. `Call` stands for the `ecall`
-- instruction: the state that the caller shares with the kernel is a parameter, and the kernel may stop
-- instead of coming back.
pub mod Line
pub mod Digits
pub mod Ecall
pub mod Reply
mod Tests
use ferret_os.Common.{
  ℕ, zero, suc, ◌+◌, ◌-◌, ◌*◌, ◌/◌, ◌%◌, ◌^◌, Bool, true, false, List, [], ◌∷◌, ◌++◌, length, set,
  take, replicate, get_or, ◌==◌, if◌then◌else◌, Run, ok, panic, ◌>>=◌,
}
use ferret_os.Syscall.{enosys, eperm, efault, eagain, einval, flag_nonblock}

pub data SysError : Type 0 where
  no_sys permission fault would_block invalid : SysError

-- `Result<A, SysError>`
pub data SysResult {ℓ} (A : Type ℓ) : Type ℓ where
  done : A → SysResult A
  failed : SysError → SysResult A

-- `.map(|_| ())`
unfoldable pub map_unit : SysResult ℕ → SysResult (Unit {0})
map_unit (done n) = done tt
map_unit (failed e) = failed e

unfoldable pub decode : ℕ → SysResult ℕ
decode r =
    if r == enosys
    then failed no_sys
    else (if r == eperm
        then failed permission
        else (if r == efault
            then failed fault
            else (if r == eagain
                then failed would_block
                else (if r == einval then failed invalid else done r))))

-- The registers of an `ecall`: `a7`, then `a0` to `a3`.
pub record Request : Type 0 where
  pub number : ℕ
  pub arg0 : ℕ
  pub arg1 : ℕ
  pub arg2 : ℕ
  pub arg3 : ℕ

abbrev pub request : ℕ → ℕ → ℕ → ℕ → ℕ → Request
request n a0 a1 a2 a3 = record { number = n; arg0 = a0; arg1 = a1; arg2 = a2; arg3 = a3 }

-- The value of `a0` after the `ecall`, and what is then shared, if the kernel comes back to the caller.
abbrev pub Call : Type 0 → Type 0
Call S = Request → S → Run (ℕ × S)

module _ {S : Type 0} (ecall4 : Call S) where
  unfoldable pub ecall : ℕ → ℕ → ℕ → S → Run (ℕ × S)
  ecall n a0 a1 s = ecall4 (request n a0 a1 0 0) s

  unfoldable pub yield_now : S → Run S
  yield_now s = do (r, s') ← ecall 0 0 0 s; ok s'

  unfoldable pub sleep : ℕ → S → Run S
  sleep ticks s = do (r, s') ← ecall 1 ticks 0 s; ok s'

  unfoldable pub log_raw : ℕ → ℕ → S → Run (SysResult ℕ × S)
  log_raw addr len s = do (r, s') ← ecall 2 addr len s; ok (decode r, s')

  unfoldable pub now : S → Run (ℕ × S)
  now s = do (r, s') ← ecall 3 0 0 s; ok (r % 2 ^ 32, s')

  -- A slice is its address and its length.
  unfoldable pub send : ℕ → ℕ → ℕ → S → Run (SysResult (Unit {0}) × S)
  send id addr len s = do (r, s') ← ecall4 (request 4 id addr len 0) s; ok (map_unit (decode r), s')

  unfoldable pub try_send : ℕ → ℕ → ℕ → S → Run (SysResult (Unit {0}) × S)
  try_send id addr len s = do
    (r, s') ← ecall4 (request 4 id addr len flag_nonblock) s
    ok (map_unit (decode r), s')

  unfoldable pub receive : ℕ → ℕ → ℕ → S → Run (SysResult ℕ × S)
  receive id addr len s = do (r, s') ← ecall4 (request 5 id addr len 0) s; ok (decode r, s')

  unfoldable pub try_receive : ℕ → ℕ → ℕ → S → Run (SysResult ℕ × S)
  try_receive id addr len s = do
    (r, s') ← ecall4 (request 5 id addr len flag_nonblock) s
    ok (decode r, s')

-- `LineBuf<N>`, where `N` is the length of `buf`.
pub record LineBuf : Type 0 where
  pub buf : List ℕ
  pub len : ℕ

unfoldable pub new_line : ℕ → LineBuf
new_line n = record { buf = replicate n 0; len = 0 }

-- `self.buf[self.len] = b; self.len += 1`
unfoldable pub push : LineBuf → ℕ → LineBuf
push l b = record { buf = set l.buf l.len b; len = l.len + 1 }

-- The loop over bytes, which stops when the buffer is full.
unfoldable pub str : LineBuf → List ℕ → LineBuf
str l [] = l
str l (b ∷ bytes) = let rest = str (push l b) bytes in if l.len == length l.buf then l else rest

-- The digits from the last on: at the head of the result is `digits[n - 1]`. The array has ten places.
unfoldable pub digits_loop : ℕ → ℕ → List ℕ → Run (List ℕ)
digits_loop zero v digits = panic
digits_loop (suc room) v digits =
    let digits' = (48 + v % 10) ∷ digits in
    let rest = digits_loop room (v / 10) digits' in if v / 10 == 0 then ok digits' else rest

unfoldable pub u32 : LineBuf → ℕ → Run LineBuf
u32 l v = do digits ← digits_loop 10 v []; ok (str l digits)

abbrev pub hex_digits : List ℕ
hex_digits = 48 ∷ 49 ∷ 50 ∷ 51 ∷ 52 ∷ 53 ∷ 54 ∷ 55 ∷ 56 ∷ 57 ∷ 97 ∷ 98 ∷ 99 ∷ 100 ∷ 101 ∷ 102 ∷ []

-- `for shift in (0..8).rev()`, with `shift` nibbles to go.
unfoldable pub nibbles : ℕ → ℕ → List ℕ
nibbles zero v = []
nibbles (suc shift) v = get_or hex_digits (v / 2 ^ (shift * 4) % 16) 0 ∷ nibbles shift v

unfoldable pub hex : LineBuf → ℕ → LineBuf
hex l v = str (str l (48 ∷ 120 ∷ [])) (nibbles 8 v)

unfoldable pub as_bytes : LineBuf → List ℕ
as_bytes l = take l.len l.buf
