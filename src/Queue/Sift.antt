-- ===== src/Queue/Sift.antt =====
-- `sift_up` and `sift_down` restore the heap order.
use mathlib.Core.List.Perm
use ferret_os.Common.{
  ℕ, zero, suc, ◌+◌, ◌*◌, ◌<◌, ◌≤◌, ◌^◌, ◌≡◌, ◌≢◌, ◌⊎◌, List, length, ltb, ◌==◌, arith, length-swap,
  get_or-swap, swap-perm, Bool-cases, inl, inr, Perm, ◌&&◌, if◌then◌else◌,
}
use ferret_os.Common.{swap as swap_list}
use ferret_os.Queue.{HeapEntry, outranks, parent}
use ferret_os.Queue.Live.{blank, at, up, down, pick, best, pick-lt, pick-ge}
use ferret_os.Queue.Order.{
  rank, outranks-rank, IsHeap, AllFit, UpInv, DownInv, AllFit-swap, swap-UpInv,
}

module _ (now : ℕ) (word : now < 2 ^ 32) where
  -- `b` holds the entries of `a`, all of them recent, in heap order.
  abbrev pub Sifted : List HeapEntry → List HeapEntry → Type 0
  Sifted a b = IsHeap now b × AllFit now b × Perm b a

  Sifted-swap :
      (a b : List HeapEntry) (i j : ℕ)
      → i < length a
      → j < length a
      → Sifted (swap_list blank a i j) b
      → Sifted a b
  Sifted-swap a b i j hi hj (h, f, p) = (h, f, Perm.trans p (swap-perm blank a i j hi hj))

  pub up_restores :
      (k : ℕ) (a : List HeapEntry) (i : ℕ)
      → i < k
      → AllFit now a
      → UpInv now a i
      → Sifted a (up k a i)
  unfolding up
  up_restores zero a i f fits v = absurd (omega arith)
  up_restores (suc k) a i f fits v =
      let hp : parent i < length a = omega (arith, v.inside) in
      let test =
        outranks-rank now (at a i) (at a (parent i)) word (fits i v.inside) (fits (parent i) hp) in
      elim (Bool-cases (ltb 0 i && outranks (at a i) (at a (parent i)))) [
        | inl e ↦
            let pos : 0 < i = ground arith in
            let above : rank now (at a (parent i)) < rank now (at a i) = ground (arith, test) in
            rw e (
              Sifted-swap a _ i (parent i) v.inside hp (
                up_restores k _ (parent i) (omega arith)
                  (AllFit-swap now a i (parent i) v.inside hp fits)
                  (swap-UpInv now a i v pos above)))
        | inr e ↦ rw e ((λ c p q. ground (arith, test, v.edges c)), fits, Perm.rfl)
      ]

  -- `m` is the highest of `i` and its children.
  record IsBest (a : List HeapEntry) (i m : ℕ) : Type 0 where
    inside : m < length a
    place : (m ≡ i) ⊎ ((0 < m) × (parent m ≡ i))
    highest : (c : ℕ) → 0 < c → c < length a → parent c ≡ i → rank now (at a c) ≤ rank now (at a m)
    self : rank now (at a i) ≤ rank now (at a m)
    strict : m ≢ i → rank now (at a i) < rank now (at a m)

  best-rank :
      (a : List HeapEntry) (c i : ℕ)
      → AllFit now a
      → i < length a
      → best a c i
        ≡ (if ltb c (length a) && ltb (rank now (at a i)) (rank now (at a c)) then c else i)
  unfolding best
  best-rank a c i fits h = elim (Bool-cases (ltb c (length a))) [
    | inl e ↦ rw (e, outranks-rank now (at a c) (at a i) word (fits c (ground arith)) (fits i h))
    | inr e ↦ rw e
  ]

  pick-IsBest : (a : List HeapEntry) (i : ℕ) → AllFit now a → i < length a → IsBest a i (pick a i)
  unfolding pick
  pick-IsBest a i fits h =
      let first = best-rank a (2 * i + 1) i fits h in
      let hl : best a (2 * i + 1) i < length a = ground (arith, first) in
      let second = best-rank a (2 * i + 2) (best a (2 * i + 1) i) fits hl in
      record {
        inside = ground (arith, first, second);
        place = ground (arith, first, second);
        highest = λ c p q r. elim (child c p r) [
          | inl e ↦ rw e (ground (arith, first, second))
          | inr e ↦ rw e (ground (arith, first, second))
        ];
        self = ground (arith, first, second);
        strict = λ n. ground (arith, first, second);
      }
    where
      child : (c : ℕ) → 0 < c → parent c ≡ i → (c ≡ 2 * i + 1) ⊎ (c ≡ 2 * i + 2)
      child c p r = ground arith

  swap-DownInv :
      (s : ℕ) (a : List HeapEntry) (i m : ℕ)
      → DownInv now s a i
      → IsBest a i m
      → m ≢ i
      → DownInv now s (swap_list blank a i m) m
  swap-DownInv s a i m v b ne =
      let size = length-swap blank a i m in
      let was = get_or-swap blank a i m v.inside b.inside in
      let falls = b.strict ne in
      record {
        inside = omega (arith, size, b.inside);
        edges = λ c p q r t.
            ground
              (arith, size, b.place, was c, was (parent c), v.edges c, b.highest c, v.bridged m);
        bridged = λ c p q r t. ground (arith, size, b.place, was c, was (parent m), v.edges c);
        after = ground (arith, v.after, b.place);
        start_bridged = λ c p q r t. ground (
          arith,
          size,
          v.after,
          b.place,
          b.inside,
          was c,
          was (parent s),
          v.settled,
          v.start_bridged c,
          v.start_bridged m,
          v.bridged m,
        );
        settled = λ n t. ground (
          arith,
          v.after,
          b.place,
          b.inside,
          was s,
          was (parent s),
          v.settled,
          v.start_bridged m,
        );
      }

  -- From the loop's start on only the edge above it may be left out of order.
  abbrev Sunk : ℕ → List HeapEntry → List HeapEntry → Type 0
  Sunk s a b = UpInv now b s × AllFit now b × Perm b a

  pub down_restores :
      (k s : ℕ) (a : List HeapEntry) (i : ℕ)
      → length a < k + i
      → AllFit now a
      → DownInv now s a i
      → Sunk s a (down k a i)
  unfolding down
  down_restores zero s a i f fits v = absurd (omega (arith, v.inside))
  down_restores (suc k) s a i f fits v =
      let b = pick-IsBest a i fits v.inside in
      elim (Bool-cases (pick a i == i)) [
        | inl e ↦ rw e (
          record {
            inside = omega (arith, v.inside, v.after);
            edges = λ c p q n. ground (arith, v.edges c, b.highest c);
            bridged = v.start_bridged;
          },
          fits,
          Perm.rfl,
        )
        | inr e ↦
            let ne : pick a i ≢ i = ground arith in
            let hm = pick-lt a i v.inside in
            let (u, g, p) =
              down_restores k s (swap_list blank a i (pick a i)) (pick a i)
                (omega (arith, length-swap {0} blank a i (pick a i), pick-ge a i, ne))
                (AllFit-swap now a i (pick a i) v.inside hm fits)
                (swap-DownInv s a i (pick a i) v b ne) in
            rw e (u, g, Perm.trans p (swap-perm blank a i (pick a i) v.inside hm))
      ]
