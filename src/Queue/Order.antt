-- ===== src/Queue/Order.antt =====
-- The order of the heap. `HeapEntry::outranks` compares sequence numbers by wrapping distance;
-- among entries that are at most 2^31 inserts old it is the order of one number, the rank.
use ferret_os.Common.{
  ℕ, ◌+◌, ◌*◌, ◌<◌, ◌≤◌, ◌^◌, ◌≡◌, ◌≢◌, List, length, ltb, ◌==◌, arith, wrapping_sub, length-swap,
  get_or-swap, Bool-cases, inl, inr,
}
use ferret_os.Common.{swap as swap_list}
use ferret_os.Queue.{HeapEntry, outranks, parent}
use ferret_os.Queue.Live.{blank, at}

-- How many inserts ago `e` entered, when the next insert gets the number `now`.
abbrev pub age : ℕ → HeapEntry → ℕ
age now e = wrapping_sub now e.seq

pub record Fits (now : ℕ) (e : HeapEntry) : Type 0 where
  pub word : e.seq < 2 ^ 32
  pub entered : 1 ≤ age now e
  pub recent : age now e ≤ 2 ^ 31

-- Higher priority first, then the older entry.
abbrev pub rank : ℕ → HeapEntry → ℕ
rank now e = e.effective_priority * 2 ^ 32 + age now e

-- Among recent entries the wrapping comparison is the order of the rank.
pub outranks-rank :
    (now : ℕ) (x y : HeapEntry)
    → now < 2 ^ 32
    → Fits now x
    → Fits now y
    → outranks x y ≡ ltb (rank now y) (rank now x)
unfolding outranks
outranks-rank now x y h fx fy = ground arith

module _ (now : ℕ) where
  -- Every parent ranks at least as high as its children.
  abbrev pub IsHeap : List HeapEntry → Type 0
  IsHeap a = (c : ℕ) → 0 < c → c < length a → rank now (at a c) ≤ rank now (at a (parent c))

  abbrev pub AllFit : List HeapEntry → Type 0
  AllFit a = (i : ℕ) → i < length a → Fits now (at a i)

  -- The children of `i` rank no higher than its parent.
  abbrev pub IsBridged : List HeapEntry → ℕ → Type 0
  IsBridged a i =
      (c : ℕ)
      → 0 < c
      → c < length a
      → parent c ≡ i
      → 0 < i
      → rank now (at a c) ≤ rank now (at a (parent i))

  -- Only the edge above `i` may be out of order.
  pub record UpInv (a : List HeapEntry) (i : ℕ) : Type 0 where
    pub bridged : IsBridged a i
    pub inside : i < length a
    pub edges :
        (c : ℕ) → 0 < c → c < length a → c ≢ i → rank now (at a c) ≤ rank now (at a (parent c))

  -- Only the edge above `s`, where the loop began, and those below `i` may be out of order.
  pub record DownInv (s : ℕ) (a : List HeapEntry) (i : ℕ) : Type 0 where
    pub edges :
        (c : ℕ)
        → 0 < c
        → c < length a
        → c ≢ s
        → parent c ≢ i
        → rank now (at a c) ≤ rank now (at a (parent c))
    pub bridged : IsBridged a i
    pub after : s ≤ i
    pub start_bridged : IsBridged a s
    pub inside : i < length a
    pub settled : i ≢ s → 0 < s → rank now (at a s) ≤ rank now (at a (parent s))

  pub AllFit-swap :
      (a : List HeapEntry) (i j : ℕ)
      → i < length a
      → j < length a
      → AllFit a
      → AllFit (swap_list blank a i j)
  AllFit-swap a i j hi hj fits k hk =
      let size = length-swap blank a i j in
      rw (get_or-swap blank a i j hi hj k) (elim (Bool-cases (j == k)) [
        | inl e ↦ rw e (fits i hi)
        | inr e ↦ rw e (elim (Bool-cases (i == k)) [
          | inl e' ↦ rw e' (fits j hj)
          | inr e' ↦ rw e' (fits k (omega (arith, size)))
        ])
      ])

  pub swap-UpInv :
      (a : List HeapEntry) (i : ℕ)
      → UpInv a i
      → 0 < i
      → rank now (at a (parent i)) < rank now (at a i)
      → UpInv (swap_list blank a i (parent i)) (parent i)
  swap-UpInv a i v pos above =
      let hp : parent i < length a = omega (arith, v.inside) in
      let size = length-swap blank a i (parent i) in
      let was = get_or-swap blank a i (parent i) v.inside hp in
      record {
        inside = omega (arith, size);
        edges = λ c p q r. ground (arith, size, was c, was (parent c), v.edges c, v.bridged c);
        bridged = λ c p q r s.
            ground (arith, size, was c, was (parent (parent i)), v.edges c, v.edges (parent i));
      }
