-- ===== src/Sys/Line.antt =====
-- What a line buffer holds.
use ferret_os.Common.{
  ℕ, zero, suc, ◌+◌, ◌≤◌, ◌<◌, ◌≡◌, refl, sym, ap, ◌∙◌, List, [], ◌∷◌, ◌++◌, length, set, take,
  length-set, length-replicate, length-take, ◌==◌, arith, Bool-cases, inl, inr,
}
use mathlib.Core.List.{append-nil, append_assoc}
use ferret_os.Sys.{LineBuf, new_line, push, str, as_bytes}

take-set : (xs : List ℕ) (n b : ℕ) → n < length xs → take (n + 1) (set xs n b) ≡ take n xs ++ b ∷ []
take-set [] n b h = absurd (omega arith)
take-set (x ∷ xs) zero b h = refl
take-set (x ∷ xs) (suc n) b h =
    let same : suc n + 1 ≡ suc (n + 1) = omega arith in
    rw same (ap (λ ys. x ∷ ys) (take-set xs n b (omega arith)))

pub take_all : (n : ℕ) (xs : List ℕ) → length xs ≤ n → take n xs ≡ xs
take_all zero [] h = refl
take_all zero (x ∷ xs) h = absurd (omega arith)
take_all (suc n) [] h = refl
take_all (suc n) (x ∷ xs) h = ap (λ ys. x ∷ ys) (take_all n xs (omega arith))

take-append : (n : ℕ) (xs ys : List ℕ) → length xs ≡ n → take n (xs ++ ys) ≡ xs
take-append zero [] ys h = refl
take-append zero (x ∷ xs) ys h = absurd (omega arith)
take-append (suc n) [] ys h = absurd (omega arith)
take-append (suc n) (x ∷ xs) ys h = ap (λ zs. x ∷ zs) (take-append n xs ys (omega arith))

-- The buffer is not over its capacity.
pub record IsLine (n : ℕ) (l : LineBuf) : Type 0 where
  pub size : length l.buf ≡ n
  pub fits : l.len ≤ n

pub new_line-IsLine : (n : ℕ) → IsLine n (new_line n)
unfolding new_line
new_line-IsLine n = record { size = length-replicate n 0; fits = omega arith }

length-as_bytes : (n : ℕ) (l : LineBuf) → IsLine n l → length (as_bytes l) ≡ l.len
unfolding as_bytes
length-as_bytes n l v =
    let size = v.size in let fits = v.fits in length-take l.len l.buf (omega arith)

-- A string is appended as far as there is room.
pub str-as_bytes :
    (n : ℕ) (l : LineBuf) (bytes : List ℕ)
    → IsLine n l
    → IsLine n (str l bytes) × (as_bytes (str l bytes) ≡ take n (as_bytes l ++ bytes))
unfolding str push
str-as_bytes n l [] v =
    let len = length-as_bytes n l v in
    let fits = v.fits in
    (v, rw (append-nil (as_bytes l)) (sym (take_all n (as_bytes l) (omega arith))))
str-as_bytes n l (b ∷ bytes) v =
    let len = length-as_bytes n l v in
    let size = v.size in
    let fits = v.fits in
    elim (Bool-cases (l.len == length l.buf)) [
      | inl full ↦ rw full (v, sym (take-append n (as_bytes l) (b ∷ bytes) (ground arith)))
      | inr room ↦
          let next : IsLine n (push l b) = record {
            size = length-set l.buf l.len b ∙ size;
            fits = ground arith;
          } in
          let (v', same) = str-as_bytes n (push l b) bytes next in
          let added : as_bytes (push l b) ≡ as_bytes l ++ b ∷ [] =
            unfold as_bytes in take-set l.buf l.len b (ground arith) in
          rw room (v', same ∙ rw added (ap (take n) (append_assoc (as_bytes l) (b ∷ []) bytes)))
    ]
