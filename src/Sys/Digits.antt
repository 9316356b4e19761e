-- ===== src/Sys/Digits.antt =====
-- The numbers that a line buffer prints read back.
use ferret_os.Common.{
  ℕ, zero, suc, ◌+◌, ◌-◌, ◌*◌, ◌/◌, ◌%◌, ◌^◌, ◌≤◌, ◌<◌, ◌≡◌, ◌≢◌, refl, sym, ap, ◌∙◌, Bool, true,
  false, ◌&&◌, List, [], ◌∷◌, ◌++◌, length, length-append, take, get_or, leb, ltb, ◌==◌,
  if◌then◌else◌, ok, arith, Bool-cases, inl, inr,
}
use mathlib.Core.List.{append-nil, append_assoc}
use ferret_os.Sys.{LineBuf, str, digits_loop, u32, hex_digits, nibbles, hex, as_bytes}
use ferret_os.Sys.Line.{IsLine, str-as_bytes}

-- The number that decimal digits stand for, after `acc`.
unfoldable pub decimal : ℕ → List ℕ → ℕ
decimal acc [] = acc
decimal acc (d ∷ digits) = decimal (10 * acc + (d - 48)) digits

unfoldable pub all_decimal : List ℕ → Bool
all_decimal [] = true
all_decimal (d ∷ digits) = (leb 48 d && leb d 57) && all_decimal digits

decimal-append :
    (acc : ℕ) (ds : List ℕ) (d : ℕ) → decimal acc (ds ++ d ∷ []) ≡ 10 * decimal acc ds + (d - 48)
unfolding decimal
decimal-append acc [] d = refl
decimal-append acc (e ∷ ds) d = decimal-append (10 * acc + (e - 48)) ds d

all_decimal-append :
    (ds : List ℕ) (d : ℕ) → all_decimal (ds ++ d ∷ []) ≡ (all_decimal ds && (leb 48 d && leb d 57))
unfolding all_decimal
all_decimal-append [] d = ground arith
all_decimal-append (e ∷ ds) d = let rest = all_decimal-append ds d in ground arith

-- The decimal digits of a number, without zeros in front.
pub record IsDecimal (v : ℕ) (ds : List ℕ) : Type 0 where
  pub number : decimal 0 ds ≡ v
  pub digits : all_decimal ds ≡ true
  pub some_digit : 0 < length ds
  pub leading : 0 < v → get_or ds 0 0 ≢ 48

get_or-append : (ds : List ℕ) (d : ℕ) → 0 < length ds → get_or (ds ++ d ∷ []) 0 0 ≡ get_or ds 0 0
get_or-append [] d h = absurd (omega arith)
get_or-append (e ∷ ds) d h = refl

one_digit : (v : ℕ) → (v / 10 == 0) ≡ true → IsDecimal v ((48 + v % 10) ∷ [])
one_digit v small = record {
  number = unfold decimal in ground arith;
  digits = unfold all_decimal in ground arith;
  some_digit = omega arith;
  leading = λ pos e. ground arith;
}

one_more :
    (v : ℕ) (ds : List ℕ)
    → (v / 10 == 0) ≡ false
    → IsDecimal (v / 10) ds
    → IsDecimal v (ds ++ (48 + v % 10) ∷ [])
one_more v ds large is =
    let number = is.number in
    let digits = is.digits in
    let some_digit = is.some_digit in
    record {
      number = decimal-append 0 ds (48 + v % 10) ∙ omega arith;
      digits = all_decimal-append ds (48 + v % 10) ∙ ground arith;
      some_digit = omega (arith, length-append ds ((48 + v % 10) ∷ []));
      leading =
          λ pos e. is.leading (ground arith) (sym (get_or-append ds (48 + v % 10) some_digit) ∙ e);
    }

digits_loop-IsDecimal :
    (room v : ℕ) (acc : List ℕ)
    → v < 10 ^ (suc room)
    → (ds : List ℕ) × (digits_loop (suc room) v acc ≡ ok (ds ++ acc))
      × IsDecimal v ds
      × (length ds ≤ suc room)
unfolding digits_loop
digits_loop-IsDecimal zero v acc h =
    let last : (v / 10 == 0) ≡ true = ground arith in
    ((48 + v % 10) ∷ [], rw last refl, one_digit v last, omega arith)
digits_loop-IsDecimal (suc room) v acc h =
    let power : 10 ^ suc (suc room) ≡ 10 * 10 ^ suc room = ground arith in
    let (ds, runs, is, len) =
      digits_loop-IsDecimal room (v / 10) ((48 + v % 10) ∷ acc) (omega (arith, power)) in
    elim (Bool-cases (v / 10 == 0)) [
      | inl last ↦ ((48 + v % 10) ∷ [], rw last refl, one_digit v last, omega arith)
      | inr more ↦ (
        ds ++ (48 + v % 10) ∷ [],
        rw more (runs ∙ ap ok (sym (append_assoc ds ((48 + v % 10) ∷ []) acc))),
        one_more v ds more is,
        omega (arith, length-append ds ((48 + v % 10) ∷ [])),
      )
    ]

-- More room changes nothing.
digits_loop-more :
    (n more v : ℕ) (acc ds : List ℕ)
    → digits_loop n v acc ≡ ok ds
    → digits_loop (n + more) v acc ≡ ok ds
unfolding digits_loop
digits_loop-more zero more v acc ds runs = ground arith
digits_loop-more (suc n) more v acc ds runs =
    let same : suc n + more ≡ suc (n + more) = omega arith in
    elim (Bool-cases (v / 10 == 0)) [
      | inl last ↦ rw (same, last) (rw last at runs)
      | inr next ↦
          rw (same, next)
            (digits_loop-more n more (v / 10) ((48 + v % 10) ∷ acc) ds (rw next at runs))
    ]

-- A number below a power of ten takes no more digits than the power.
pub u32-width :
    (n width v : ℕ) (l : LineBuf)
    → IsLine n l
    → width < 10
    → v < 10 ^ suc width
    → (ds : List ℕ) × (l' : LineBuf) × (u32 l v ≡ ok l')
      × IsDecimal v ds
      × (length ds ≤ suc width)
      × (as_bytes l' ≡ take n (as_bytes l ++ ds))
      × IsLine n l'
unfolding u32
u32-width n width v l is narrow h =
    let (ds, runs, dec, len) = digits_loop-IsDecimal width v [] h in
    let (is', same) = str-as_bytes n l ds is in
    let all : suc width + (9 - width) ≡ 10 = omega arith in
    let runs' = digits_loop-more (suc width) (9 - width) v [] (ds ++ []) runs in
    let whole = append-nil ds in
    (ds, str l ds, rw (rw all at runs', whole) refl, dec, len, same, is')

-- `u32` never overruns its ten digits, and appends, as far as there is room, the decimal digits of the
-- number.
pub u32-as_bytes :
    (n v : ℕ) (l : LineBuf)
    → IsLine n l
    → v < 2 ^ 32
    → (ds : List ℕ) × (l' : LineBuf) × (u32 l v ≡ ok l')
      × IsDecimal v ds
      × (length ds ≤ 10)
      × (as_bytes l' ≡ take n (as_bytes l ++ ds))
      × IsLine n l'
u32-as_bytes n v l is h = u32-width n 9 v l is (omega arith) (omega arith)

-- What a hexadecimal digit stands for, and digits after `acc`.
unfoldable pub hex_digit_value : ℕ → ℕ
hex_digit_value c = if ltb c 58 then c - 48 else c - 87

unfoldable pub hexadecimal : ℕ → List ℕ → ℕ
hexadecimal acc [] = acc
hexadecimal acc (c ∷ cs) = hexadecimal (16 * acc + hex_digit_value c) cs

hex_digit_value-get_or : (d : ℕ) → d < 16 → hex_digit_value (get_or hex_digits d 0) ≡ d
unfolding hex_digit_value
hex_digit_value-get_or d h = ground arith

-- The eight digits stand for the number.
nibbles-hexadecimal : (v : ℕ) → v < 2 ^ 32 → hexadecimal 0 (nibbles 8 v) ≡ v
unfolding hexadecimal nibbles
nibbles-hexadecimal v h = omega (arith, at 7, at 6, at 5, at 4, at 3, at 2, at 1, at 0)
  where
    at :
        (k : ℕ)
        → hex_digit_value (get_or hex_digits (v / 2 ^ (k * 4) % 16) 0) ≡ v / 2 ^ (k * 4) % 16
    at k = hex_digit_value-get_or (v / 2 ^ (k * 4) % 16) (omega arith)

-- `hex` appends, as far as there is room, `0x` and eight digits that stand for the number.
pub hex-as_bytes :
    (n v : ℕ) (l : LineBuf)
    → IsLine n l
    → v < 2 ^ 32
    → (ds : List ℕ) × (length ds ≡ 8)
      × (hexadecimal 0 ds ≡ v)
      × (as_bytes (hex l v) ≡ take n (take n (as_bytes l ++ 48 ∷ 120 ∷ []) ++ ds))
      × IsLine n (hex l v)
unfolding hex
hex-as_bytes n v l is h =
    let (is', same) = str-as_bytes n l (48 ∷ 120 ∷ []) is in
    let (is'', same') = str-as_bytes n (str l (48 ∷ 120 ∷ [])) (nibbles 8 v) is' in
    (
      nibbles 8 v,
      unfold nibbles in refl,
      nibbles-hexadecimal v h,
      same' ∙ ap (λ bytes. take n (bytes ++ nibbles 8 v)) same,
      is'',
    )
