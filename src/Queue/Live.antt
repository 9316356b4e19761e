-- ===== src/Queue/Live.antt =====
-- The live part of the heap array: on the slots below `len` the fallible operations of the queue
-- succeed, and act as operations on a plain list of entries.
use ferret_os.Common.{
  ℕ, zero, suc, ◌+◌, ◌*◌, ◌<◌, ◌≤◌, ◌≡◌, refl, ap, ◌∙◌, Bool, true, false, ◌&&◌, Option, none, some,
  List, [], ◌∷◌, ◌++◌, map, length, get_elem?, get_or, set, replicate, ltb, ◌==◌, if◌then◌else◌, ok,
  arith, length-append, length-map, length-replicate, length-set, get_elem?-append_left,
  set-append_left, length-swap, Bool-cases, inl, inr,
}
use ferret_os.Common.{swap as swap_list}
use ferret_os.Queue.{
  HeapEntry, entry, outranks, load, swap, outranks_at, parent, sift_up_loop, larger, sift_down_loop,
}

abbrev pub blank : HeapEntry
blank = entry 0 0 0

abbrev pub at : List HeapEntry → ℕ → HeapEntry
at a i = get_or a i blank

-- The array that holds the entries `a`, with `pad` free slots behind them.
unfoldable pub slots : List HeapEntry → ℕ → List (Option HeapEntry)
slots a pad = map some a ++ replicate pad none

pub length-slots : (a : List HeapEntry) (pad : ℕ) → length (slots a pad) ≡ length a + pad
unfolding slots
length-slots a pad = omega (
  arith,
  length-append (map some a) (replicate pad none),
  length-map some a,
  length-replicate {A = Option HeapEntry} pad none,
)

get_elem?-map-some :
    (a : List HeapEntry) (i : ℕ) → i < length a → get_elem? (map some a) i ≡ some (some (at a i))
get_elem?-map-some [] i h = absurd (omega arith)
get_elem?-map-some (x ∷ a) zero h = refl
get_elem?-map-some (x ∷ a) (suc i) h = get_elem?-map-some a i (omega arith)

set-map-some :
    (a : List HeapEntry) (i : ℕ) (v : HeapEntry)
    → set (map some a) i (some v) ≡ map some (set a i v)
set-map-some [] i v = refl
set-map-some (x ∷ a) zero v = refl
set-map-some (x ∷ a) (suc i) v = ap (◌∷◌ (some x)) (set-map-some a i v)

pub load-slots :
    (a : List HeapEntry) (pad i : ℕ) → i < length a → load (slots a pad) i ≡ ok (some (at a i))
unfolding slots load
load-slots a pad i h = rw (
  get_elem?-append_left (map some a) (replicate pad none) i (rw (length-map some a) h),
  get_elem?-map-some a i h,
)

pub set-slots :
    (a : List HeapEntry) (pad i : ℕ) (v : HeapEntry)
    → i < length a
    → set (slots a pad) i (some v) ≡ slots (set a i v) pad
unfolding slots
set-slots a pad i v h =
    set-append_left (map some a) (replicate pad none) i (some v) (rw (length-map some a) h)
    ∙ ap (λ s. s ++ replicate pad none) (set-map-some a i v)

pub swap-slots :
    (a : List HeapEntry) (pad i j : ℕ)
    → i < length a
    → j < length a
    → swap (slots a pad) i j ≡ ok (slots (swap_list blank a i j) pad)
unfolding swap swap_list
swap-slots a pad i j hi hj = rw (
  load-slots a pad i hi,
  load-slots a pad j hj,
  set-slots a pad i (at a j) hi,
  set-slots (set a i (at a j)) pad j (at a i) (rw length-set hj),
)

pub outranks_at-slots :
    (a : List HeapEntry) (pad i j : ℕ)
    → i < length a
    → j < length a
    → outranks_at (slots a pad) i j ≡ ok (outranks (at a i) (at a j))
unfolding outranks_at
outranks_at-slots a pad i j hi hj = rw (load-slots a pad i hi, load-slots a pad j hj)

-- The loops on the plain list.
unfoldable pub up : ℕ → List HeapEntry → ℕ → List HeapEntry
up zero a i = a
up (suc k) a i =
    let rest = up k (swap_list blank a i (parent i)) (parent i) in
    if ltb 0 i && outranks (at a i) (at a (parent i)) then rest else a

unfoldable pub best : List HeapEntry → ℕ → ℕ → ℕ
best a c largest = if ltb c (length a) && outranks (at a c) (at a largest) then c else largest

-- The child of `i` that `sift_down` picks, or `i`.
unfoldable pub pick : List HeapEntry → ℕ → ℕ
pick a i = best a (2 * i + 2) (best a (2 * i + 1) i)

unfoldable pub down : ℕ → List HeapEntry → ℕ → List HeapEntry
down zero a i = a
down (suc k) a i =
    let rest = down k (swap_list blank a i (pick a i)) (pick a i) in
    if pick a i == i then a else rest

pub best-lt : (a : List HeapEntry) (c i : ℕ) → i < length a → best a c i < length a
unfolding best
best-lt a c i h = ground arith

pub pick-lt : (a : List HeapEntry) (i : ℕ) → i < length a → pick a i < length a
unfolding pick
pick-lt a i h = best-lt a (2 * i + 2) _ (best-lt a (2 * i + 1) i h)

pub pick-ge : (a : List HeapEntry) (i : ℕ) → i ≤ pick a i
unfolding pick best
pick-ge a i = ground arith

larger-slots :
    (a : List HeapEntry) (pad c i : ℕ)
    → i < length a
    → larger (length a) (slots a pad) c i ≡ ok (best a c i)
unfolding larger best
larger-slots a pad c i h = elim (Bool-cases (ltb c (length a))) [
  | inl e ↦ rw (e, outranks_at-slots a pad c i (ground arith) h)
  | inr e ↦ rw e
]

larger-pick :
    (a : List HeapEntry) (pad i : ℕ)
    → i < length a
    → larger (length a) (slots a pad) (2 * i + 2) (best a (2 * i + 1) i) ≡ ok (pick a i)
unfolding pick
larger-pick a pad i h = larger-slots a pad (2 * i + 2) _ (best-lt a (2 * i + 1) i h)

-- With enough fuel `sift_up` is `up`, and does not panic.
pub sift_up_loop-slots :
    (k : ℕ) (a : List HeapEntry) (pad i : ℕ)
    → i < k
    → i < length a
    → sift_up_loop k (slots a pad) i ≡ ok (slots (up k a i) pad)
unfolding sift_up_loop up
sift_up_loop-slots zero a pad i f h = absurd (omega arith)
sift_up_loop-slots (suc k) a pad i f h = elim (Bool-cases (ltb 0 i)) [
  | inl pos ↦
      let above : parent i < length a = omega arith in
      let lower : parent i < k = ground arith in
      rw
        (
          pos,
          outranks_at-slots a pad i (parent i) h above,
          swap-slots a pad i (parent i) h above,
          sift_up_loop-slots k (swap_list blank a i (parent i)) pad (parent i) lower
              (rw length-swap above),
        )
        (branch (outranks (at a i) (at a (parent i))) _ _)
  | inr root ↦ rw root
]
  where
    branch :
        (b : Bool) (x y : List HeapEntry)
        → (if b then ok (slots x pad) else ok (slots y pad)) ≡ ok (slots (if b then x else y) pad)
    branch true x y = refl
    branch false x y = refl

-- With enough fuel `sift_down` is `down`, and does not panic.
pub sift_down_loop-slots :
    (k n : ℕ) (a : List HeapEntry) (pad i : ℕ)
    → n ≡ length a
    → n < k + i
    → i < n
    → sift_down_loop k n (slots a pad) i ≡ ok (slots (down k a i) pad)
unfolding sift_down_loop down
sift_down_loop-slots zero n a pad i e f h = absurd (omega arith)
sift_down_loop-slots (suc k) n a pad i e f h =
    let hi : i < length a = omega arith in
    rw (e, larger-slots a pad (2 * i + 1) i hi, larger-pick a pad i hi)
      (elim (Bool-cases (pick a i == i)) [
        | inl same ↦ rw same
        | inr other ↦
            rw (other, swap-slots a pad i (pick a i) hi (pick-lt a i hi))
              (sift_down_loop-slots k (length a) (swap_list blank a i (pick a i)) pad (pick a i)
                (omega (arith, length-swap {0} blank a i (pick a i))) (ground (arith, pick-ge a i))
                (pick-lt a i hi))
      ])
