-- ===== src/Queue/Valid.antt =====
-- The representation invariant of `PriorityQueue`.
use mathlib.Core.List.Perm
use ferret_os.Common.{
  ℕ, zero, suc, ◌+◌, ◌-◌, ◌<◌, ◌≤◌, ◌^◌, ◌≡◌, refl, sym, ap, ◌∙◌, List, [], ◌∷◌, ◌++◌, map, length,
  set, take, replicate, ◌==◌, arith, Perm, Option, none, some, ok, get_or-set, get_or-take,
  length-set, length-take, set-append_middle, take-append-last, length-map, perm-append_last,
  set-perm, if◌then◌else◌, Bool-cases, inl, inr,
}
use mathlib.Core.List.{map-append, append_assoc}
use ferret_os.Queue.{HeapEntry, PriorityQueue, parent, store, fill_from_last, new}
use ferret_os.Queue.Live.{blank, at, slots, length-slots, load-slots, set-slots}
use ferret_os.Queue.Order.{rank, IsHeap, AllFit, DownInv}

-- The first `len` of the `n` slots hold the entries `a` in heap order, the others are free, and
-- every entry entered at most 2^31 inserts ago.
pub record Holds (n : ℕ) (q : PriorityQueue) (a : List HeapEntry) : Type 0 where
  pub array : q.heap ≡ slots a (n - length a)
  pub len : q.len ≡ length a
  pub room : length a ≤ n
  pub word : q.next_seq < 2 ^ 32
  pub fit : AllFit q.next_seq a
  pub heap : IsHeap q.next_seq a

pub Holds-length :
    {n : ℕ} {q : PriorityQueue} {a : List HeapEntry} → Holds n q a → length q.heap ≡ n
Holds-length {n} {q} {a} v = rw v.array (omega (arith, length-slots a (n - length a), v.room))

pub new-Holds : (n : ℕ) → Holds n (new n) []
unfolding new slots
new-Holds n = record {
  array = let e : n - 0 ≡ n = omega arith in rw e;
  len = refl;
  room = omega arith;
  word = omega arith;
  fit = λ i h. absurd (omega arith);
  heap = λ c p h. absurd (omega arith);
}

-- The root ranks at least as high as every entry.
root_below :
    (now k : ℕ) (a : List HeapEntry) (i : ℕ)
    → IsHeap now a
    → i < k
    → i < length a
    → rank now (at a i) ≤ rank now (at a 0)
root_below now zero a i h f p = absurd (omega arith)
root_below now (suc k) a i h f p = ground (arith, h i, root_below now k a (parent i) h)

pub root_highest :
    (now : ℕ) (a : List HeapEntry) (i : ℕ)
    → IsHeap now a
    → i < length a
    → rank now (at a i) ≤ rank now (at a 0)
root_highest now a i h p = root_below now (suc i) a i h (omega arith) p

-- Entry `i` is overwritten by the last one, and the last slot is given up.
pub fill : List HeapEntry → ℕ → ℕ → List HeapEntry
fill a i m = take m (set a i (at a m))

pub store-slots :
    (b : List HeapEntry) (pad m : ℕ) (v : Option HeapEntry)
    → m < length b + pad
    → store (slots b pad) m v ≡ ok (set (slots b pad) m v)
unfolding store
store-slots b pad m v h = rw (length-slots b pad) (ground arith)

-- The first free slot takes an entry.
pub append_slot :
    (b : List HeapEntry) (pad m : ℕ) (e : HeapEntry)
    → m ≡ length b
    → set (slots b (suc pad)) m (some e) ≡ slots (b ++ e ∷ []) pad
unfolding slots
append_slot b pad m e h =
    set-append_middle (map some b) (replicate pad none) none (some e) m
      (omega (arith, length-map {A = HeapEntry} some b))
    ∙ rw (map-append, append_assoc) refl

clear_last :
    (b : List HeapEntry) (pad m : ℕ)
    → length b ≡ suc m
    → set (slots b pad) m none ≡ slots (take m b) (suc pad)
unfolding slots
clear_last b pad m e =
    ap (λ l. set (map some l ++ replicate pad none) m none) (sym (take-append-last m b blank e))
    ∙ rw (map-append, append_assoc)
        (set-append_middle (map some (take m b)) (replicate pad none) (some (at b m)) none m
          (omega (arith, length-map some (take m b), length-take m b (omega arith))))

module _ (a : List HeapEntry) (i m : ℕ) (hi : i < length a) (size : length a ≡ suc m) where
  pub fill-slots : (pad : ℕ) → fill_from_last (slots a pad) i m ≡ ok (slots (fill a i m) (suc pad))
  unfolding fill_from_last fill
  fill-slots pad = rw (
    load-slots a pad m (omega arith),
    store-slots a pad i (some (at a m)) (omega arith),
    set-slots a pad i (at a m) hi,
    store-slots (set a i (at a m)) pad m none (omega (arith, length-set a i (at a m))),
    clear_last (set a i (at a m)) pad m (length-set a i (at a m) ∙ size),
  )

  pub length-fill : length (fill a i m) ≡ m
  unfolding fill
  length-fill = length-take m (set a i (at a m)) (omega (arith, length-set a i (at a m)))

  pub at-fill : (c : ℕ) → c < m → at (fill a i m) c ≡ (if i == c then at a m else at a c)
  unfolding fill
  at-fill c h = get_or-take m (set a i (at a m)) c blank h ∙ get_or-set a i c (at a m) blank hi

  pub fill-perm : Perm (at a i ∷ fill a i m) a
  unfolding fill
  fill-perm =
      let b = set a i (at a m) in
      let last : at b m ≡ at a m = ground (arith, get_or-set a i m (at a m) blank hi) in
      let whole = rw last at (take-append-last m b blank (length-set a i (at a m) ∙ size)) in
      let split : Perm (at a m ∷ take m b) b =
        rw whole at (Perm.symm (perm-append_last (take m b) (at a m))) in
      Perm.cons_inv (
        Perm.trans (Perm.swap _ _ _)
          (Perm.trans (Perm.cons (at a i) split) (set-perm a i (at a m) blank hi)))

  pub fill-AllFit : (now : ℕ) → AllFit now a → AllFit now (fill a i m)
  fill-AllFit now fits c h =
      let hc : c < m = omega (arith, length-fill) in
      rw (at-fill c hc) (elim (Bool-cases (i == c)) [
        | inl e ↦ rw e (fits m (omega arith))
        | inr e ↦ rw e (fits c (omega arith))
      ])

  pub fill-DownInv : (now : ℕ) → IsHeap now a → i < m → DownInv now i (fill a i m) i
  fill-DownInv now h him = record {
    inside = omega (arith, length-fill);
    edges = λ c p q r s. ground (arith, length-fill, at-fill c, at-fill (parent c), h c);
    bridged = λ c p q r s. ground (arith, length-fill, at-fill c, at-fill (parent i), h c, h i);
    after = omega arith;
    start_bridged =
        λ c p q r s. ground (arith, length-fill, at-fill c, at-fill (parent i), h c, h i);
    settled = λ ne p. absurd (ne refl);
  }
