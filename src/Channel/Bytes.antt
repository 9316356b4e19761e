-- ===== src/Channel/Bytes.antt =====
-- A message carries its bytes, and is refused if it is too long.
use ferret_os.Common.{
  ℕ, ◌-◌, ◌<◌, ◌≤◌, ◌≡◌, refl, ap, true, false, none, some, List, [], ◌∷◌, ◌++◌, length, take,
  replicate, ltb, arith, length-append, length-replicate,
}
use ferret_os.Channel.{Message, from_bytes, bytes, msg_max}

take-append : {A : Type 0} (xs ys : List A) → take (length xs) (xs ++ ys) ≡ xs
take-append [] ys = refl
take-append (x ∷ xs) ys = ap (◌∷◌ x) (take-append xs ys)

-- A message of at most MSG_MAX bytes gives them back, in an array of MSG_MAX bytes.
pub bytes-from_bytes :
    (xs : List ℕ)
    → length xs ≤ msg_max
    → (m : Message) × (from_bytes xs ≡ some m) × (bytes m ≡ xs) × (length m.array ≡ msg_max)
unfolding from_bytes bytes
bytes-from_bytes xs h =
    let fits : ltb msg_max (length xs) ≡ false = ground arith in
    (
      record { len = length xs; array = xs ++ replicate (msg_max - length xs) 0 },
      rw fits refl,
      take-append xs (replicate (msg_max - length xs) 0),
      omega (
        arith,
        length-append xs (replicate (msg_max - length xs) 0),
        length-replicate {A = ℕ} (msg_max - length xs) 0,
      ),
    )

pub from_bytes-too_long : (xs : List ℕ) → msg_max < length xs → from_bytes xs ≡ none
unfolding from_bytes
from_bytes-too_long xs h = let over : ltb msg_max (length xs) ≡ true = ground arith in rw over refl
