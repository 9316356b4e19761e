-- ===== src/Syscall/Buffers.antt =====
-- Which buffers a task may name, and what copying into one changes.
use ferret_os.Common.{
  ℕ, zero, suc, ◌+◌, ◌≤◌, ◌<◌, ◌≡◌, refl, ap, ◌∙◌, true, false, ◌&&◌, some, List, [], ◌∷◌, length,
  get_elem?, ltb, leb, ◌==◌, arith, ==_refl, Bool-cases, inl, inr, ◌⊎◌, u32_mod,
}
use ferret_os.Syscall.{Ranges, any_contains, buffer_readable, read_bytes, write_byte, write_bytes}

any_contains-cases :
    (ptr end : ℕ) (ranges : Ranges)
    → ((any_contains ptr end ranges ≡ true)
        × (i start stop : ℕ) × (get_elem? ranges i ≡ some (start, stop))
        × (start ≤ ptr)
        × (end ≤ stop))
      ⊎ ((any_contains ptr end ranges ≡ false)
          × ((i start stop : ℕ)
              → get_elem? ranges i ≡ some (start, stop)
              → start ≤ ptr
              → stop < end))
unfolding any_contains
any_contains-cases ptr end [] = inr (refl, λ i start stop at h. cc)
any_contains-cases ptr end ((start, stop) ∷ ranges) =
    elim (Bool-cases (leb start ptr && leb end stop)) [
      | inl here ↦ inl (rw here refl, 0, start, stop, refl, ground arith, ground arith)
      | inr away ↦ elim (any_contains-cases ptr end ranges) [
        | inl (yes_later, i, start', stop', at, low, high) ↦
            inl (rw away yes_later, suc i, start', stop', at, low, high)
        | inr (no_later, none_fits) ↦ inr (
          rw away no_later,
          λ i start' stop' at low. outside i start' stop' at low none_fits away,
        )
      ]
    ]
  where
    outside :
        (i start' stop' : ℕ)
        → get_elem? ((start, stop) ∷ ranges) i ≡ some (start', stop')
        → start' ≤ ptr
        → ((i start stop : ℕ) → get_elem? ranges i ≡ some (start, stop) → start ≤ ptr → stop < end)
        → (leb start ptr && leb end stop) ≡ false
        → stop' < end
    outside zero start' stop' at low none_fits away =
        let e : start ≡ start' = cc in let e' : stop ≡ stop' = cc in ground arith
    outside (suc i) start' stop' at low none_fits away = none_fits i start' stop' at low

-- A buffer that is not empty is accepted exactly if it does not wrap around and lies within one of the
-- ranges.
pub buffer_readable-exact :
    (ptr len : ℕ) (ranges : Ranges)
    → 0 < len
    → ((buffer_readable ptr len ranges ≡ true)
        × (ptr + len < u32_mod)
        × (i start stop : ℕ) × (get_elem? ranges i ≡ some (start, stop))
        × (start ≤ ptr)
        × (ptr + len ≤ stop))
      ⊎ ((buffer_readable ptr len ranges ≡ false)
          × ((u32_mod ≤ ptr + len)
              ⊎ ((i start stop : ℕ)
                  → get_elem? ranges i ≡ some (start, stop)
                  → start ≤ ptr
                  → stop < ptr + len)))
unfolding buffer_readable
buffer_readable-exact ptr len ranges pos =
    let some_bytes : (len == 0) ≡ false = ground arith in
    elim (Bool-cases (ltb (ptr + len) u32_mod)) [
      | inr wraps ↦ inr (rw (some_bytes, wraps) refl, inl (ground arith))
      | inl fits ↦ elim (any_contains-cases ptr (ptr + len) ranges) [
        | inl (found, i, start, stop, at, low, high) ↦
            inl (rw (some_bytes, fits) found, ground arith, i, start, stop, at, low, high)
        | inr (missing, none_fits) ↦ inr (rw (some_bytes, fits) missing, inr none_fits)
      ]
    ]

pub length-read_bytes : (memory : ℕ → ℕ) (ptr len : ℕ) → length (read_bytes memory ptr len) ≡ len
unfolding read_bytes
length-read_bytes memory ptr zero = refl
length-read_bytes memory ptr (suc len) = ap suc (length-read_bytes memory (ptr + 1) len)

-- Bytes below and behind the buffer stay as they are.
pub write_bytes-outside :
    (memory : ℕ → ℕ) (ptr : ℕ) (data_left : List ℕ) (a : ℕ)
    → (a < ptr) ⊎ (ptr + length data_left ≤ a)
    → write_bytes memory ptr data_left a ≡ memory a
unfolding write_bytes write_byte
write_bytes-outside memory ptr [] a h = refl
write_bytes-outside memory ptr (b ∷ data_left) a h =
    let other : (a == ptr) ≡ false = ground arith in
    write_bytes-outside (write_byte memory ptr b) (ptr + 1) data_left a (ground arith)
    ∙ rw other refl

-- What was written can be read back.
pub read_bytes-write_bytes :
    (memory : ℕ → ℕ) (ptr : ℕ) (data_left : List ℕ)
    → read_bytes (write_bytes memory ptr data_left) ptr (length data_left) ≡ data_left
unfolding read_bytes write_bytes write_byte
read_bytes-write_bytes memory ptr [] = refl
read_bytes-write_bytes memory ptr (b ∷ data_left) =
    let here : (ptr == ptr) ≡ true = ==_refl ptr in
    let kept =
      write_bytes-outside (write_byte memory ptr b) (ptr + 1) data_left ptr (inl (omega arith)) in
    let first : write_bytes (write_byte memory ptr b) (ptr + 1) data_left ptr ≡ b =
      kept ∙ rw here refl in
    let later = read_bytes-write_bytes (write_byte memory ptr b) (ptr + 1) data_left in
    λ i. first i ∷ later i
