-- ===== src/Channel/Contents.antt =====
-- What a channel holds: a first-in first-out queue of at most CAP values, read off the ring.
use native.Mathlib.Nat.{mod-eq_of_lt, mod-eq-sub-mod}
use ferret_os.Common.{
  ℕ, suc, ◌+◌, ◌-◌, ◌%◌, ◌^◌, ◌<◌, ◌≤◌, ◌≡◌, refl, ◌∙◌, true, false, none, some, List, [], ◌∷◌,
  ◌++◌, length, get_elem?, set, ltb, ◌==◌, if◌then◌else◌, ok, wrapping_add, wrapping_sub, arith,
  length-set, length-append, length-replicate, get_elem?-set, lt_of_get_elem?,
  get_elem?-append_last, inl, inr, dec_lt,
}
use ferret_os.Channel.{Channel, accepted, rejected, new, capacity, try_send, try_receive}

-- The cell of the `i`-th value.
abbrev pub cell : ℕ → ℕ → ℕ → ℕ
cell cap head i = if ltb (head + i) cap then head + i else head + i - cap

mod-cell : (cap head i : ℕ) → head < cap → i ≤ cap → (head + i) % cap ≡ cell cap head i
mod-cell cap head i h w = elim (dec_lt (head + i) cap) [
  | yes lt ↦ let e : ltb (head + i) cap ≡ true = ground arith in rw e (mod-eq_of_lt lt)
  | no ge ↦
      let e : ltb (head + i) cap ≡ false = ground arith in
      rw e (
        mod-eq-sub-mod {n = head + i} (omega arith)
        ∙ mod-eq_of_lt {n = head + i - cap} (omega arith))
]

module _ {ℓ} {A : Type ℓ} where
  pub record Holds (cap : ℕ) (c : Channel A) (q : List A) : Type ℓ where
    pub size : length c.buffer ≡ cap
    pub small : cap ≤ 2 ^ 31
    pub head_lt : c.head < cap
    pub count : c.len ≡ length q
    pub fits : length q ≤ cap
    pub cells :
        (i : ℕ) (a : A)
        → get_elem? q i ≡ some a
        → get_elem? c.buffer (cell cap c.head i) ≡ some (some a)

  pub new-Holds : (cap : ℕ) → 0 < cap → cap ≤ 2 ^ 31 → Holds cap (new cap) []
  unfolding new
  new-Holds cap pos small = record {
    size = length-replicate cap none;
    small = small;
    head_lt = pos;
    count = refl;
    fits = omega arith;
    cells = λ i a h. cc;
  }

  module _ (cap : ℕ) (c : Channel A) where
    pub try_send-full :
        (q : List A) (v : A) → Holds cap c q → length q ≡ cap → try_send c v ≡ (rejected v, c)
    unfolding try_send capacity
    try_send-full q v h full =
        let size = h.size in
        let count = h.count in
        let stop : (c.len == length c.buffer) ≡ true = ground arith in rw stop refl

    pub try_send-room :
        (q : List A) (v : A)
        → Holds cap c q
        → length q < cap
        → (c' : Channel A) × (try_send c v ≡ (accepted, c')) × Holds cap c' (q ++ v ∷ [])
    unfolding try_send capacity
    try_send-room q v h room =
        let size = h.size in
        let count = h.count in
        let small = h.small in
        let head_lt = h.head_lt in
        let go : (c.len == length c.buffer) ≡ false = ground arith in
        let tail : wrapping_add c.head c.len % length c.buffer ≡ cell cap c.head (length q) =
          (let plain : wrapping_add c.head c.len ≡ c.head + length q = omega arith in
            rw (plain, size) (mod-cell cap c.head (length q) head_lt (omega arith))) in
        let next : wrapping_add c.len 1 ≡ length q + 1 = omega arith in
        let longer = length-append q (v ∷ []) in
        (
          record {
            buffer = set c.buffer (cell cap c.head (length q)) (some v);
            head = c.head;
            len = length q + 1;
          },
          rw (go, tail, next) refl,
          record {
            size = omega (arith, length-set c.buffer (cell cap c.head (length q)) (some v));
            small = small;
            head_lt = head_lt;
            count = omega arith;
            fits = omega arith;
            cells = λ i a at.
                rw
                  (get_elem?-set c.buffer (cell cap c.head (length q)) (cell cap c.head i) (some v)
                    (ground arith))
                  (elim (get_elem?-append_last q v i a at) [
                    | inl (lt, old) ↦
                        let other : (cell cap c.head (length q) == cell cap c.head i) ≡ false =
                          ground arith in
                        rw other (h.cells i a old)
                    | inr (e, same) ↦
                        let here : (cell cap c.head (length q) == cell cap c.head i) ≡ true =
                          ground arith in
                        rw (here, same) refl
                  ]);
          },
        )

    pub try_receive-empty : Holds cap c [] → try_receive c ≡ ok (none, c)
    unfolding try_receive
    try_receive-empty h =
        let count = h.count in let stop : (c.len == 0) ≡ true = ground arith in rw stop refl

    pub try_receive-first :
        (a : A) (q : List A)
        → Holds cap c (a ∷ q)
        → (c' : Channel A) × (try_receive c ≡ ok (some a, c')) × Holds cap c' q
    unfolding try_receive capacity
    try_receive-first a q h =
        let size = h.size in
        let count = h.count in
        let small = h.small in
        let head_lt = h.head_lt in
        let fits = h.fits in
        let go : (c.len == 0) ≡ false = ground arith in
        let at : get_elem? c.buffer c.head ≡ some (some a) =
          (let e : cell cap c.head 0 ≡ c.head = ground arith in rw e at (h.cells 0 a refl)) in
        let head : wrapping_add c.head 1 % length c.buffer ≡ cell cap c.head 1 =
          (let plain : wrapping_add c.head 1 ≡ c.head + 1 = omega arith in
            rw (plain, size) (mod-cell cap c.head 1 head_lt (omega arith))) in
        let len : wrapping_sub c.len 1 ≡ length q = omega arith in
        (
          record { buffer = c.buffer; head = cell cap c.head 1; len = length q },
          rw (go, at, head, len) refl,
          record {
            size = size;
            small = small;
            head_lt = ground arith;
            count = refl;
            fits = omega arith;
            cells = λ i b q_at.
                let e : cell cap (cell cap c.head 1) i ≡ cell cap c.head (suc i) =
                  shift i (lt_of_get_elem? q i q_at) fits head_lt in
                rw e (h.cells (suc i) b q_at);
          },
        )
      where
        shift :
            (i : ℕ)
            → i < length q
            → suc (length q) ≤ cap
            → c.head < cap
            → cell cap (cell cap c.head 1) i ≡ cell cap c.head (suc i)
        shift i lt fits head_lt = ground arith
