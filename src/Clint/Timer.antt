-- ===== src/Clint/Timer.antt =====
-- Reading the 64-bit timer in halves, and setting it again at each tick.
use ferret_os.Common.{
  ℕ, zero, suc, ◌+◌, ◌*◌, ◌-◌, ◌%◌, ◌^◌, ◌≤◌, ◌<◌, ◌≡◌, refl, sym, ap, ◌∙◌, true, false, some,
  get_elem?, leb, ◌==◌, ok, wrapping_add, u32_mod, arith, Bool-cases, inl, inr, ◌⊎◌,
}
use ferret_os.Clint.{
  Clint, Words, value, hi_word, tick_cycles, get_mtime, mtimecmp_writes, last_write, set_mtimecmp,
  timer_isr,
}

halves :
    (a b c : ℕ)
    → a ≤ b
    → b ≤ c
    → c < 2 ^ 64
    → (hi_word a == hi_word c) ≡ true
    → hi_word a * u32_mod + b % u32_mod ≡ b
halves a b c ab bc small same = ground arith

-- A second carry cannot follow so soon.
next_round :
    (a b c d : ℕ)
    → a ≤ b
    → b ≤ c
    → c ≤ d
    → d < a + 2 ^ 32
    → d < 2 ^ 64
    → (hi_word a == hi_word b) ≡ false
    → (hi_word c == hi_word d) ≡ true
next_round a b c d ab bc cd slow small differ = ground arith

module _ (fuel : ℕ) (mtime : ℕ → ℕ) (at : ℕ) where
  round-same :
      mtime at ≤ mtime (at + 1)
      → mtime (at + 1) ≤ mtime (at + 2)
      → mtime (at + 2) < 2 ^ 64
      → (hi_word (mtime at) == hi_word (mtime (at + 2))) ≡ true
      → get_mtime (suc fuel) mtime at ≡ ok (mtime (at + 1), at + 3)
  unfolding get_mtime
  round-same m0 m1 small same =
      let read = halves (mtime at) (mtime (at + 1)) (mtime (at + 2)) m0 m1 small same in
      rw same (ap (λ v. ok (v, at + 3)) read)

  round-differs :
      (hi_word (mtime at) == hi_word (mtime (at + 2))) ≡ false
      → get_mtime (suc fuel) mtime at ≡ get_mtime fuel mtime (at + 3)
  unfolding get_mtime
  round-differs differ = rw differ refl

-- If `mtime` does not run backwards and advances by less than 2^32 in six reads, without an overflow,
-- then two rounds are enough, and the result is the value that `mtime` had at the second instant, or if
-- the high words read before and after it differ, at the fifth.
pub get_mtime-exact :
    (mtime : ℕ → ℕ) (at : ℕ)
    → ((i j : ℕ) → i ≤ j → mtime i ≤ mtime j)
    → mtime (at + 5) < mtime at + 2 ^ 32
    → mtime (at + 5) < 2 ^ 64
    → (get_mtime 2 mtime at ≡ ok (mtime (at + 1), at + 3))
      ⊎ ((hi_word (mtime at) < hi_word (mtime (at + 2)))
          × (get_mtime 2 mtime at ≡ ok (mtime (at + 4), at + 6)))
get_mtime-exact mtime at mono slow small =
    let low = mono at (at + 2) (omega arith) in
    let middle = mono (at + 2) (at + 3) (omega arith) in
    let high = mono (at + 3) (at + 5) (omega arith) in
    elim (Bool-cases (hi_word (mtime at) == hi_word (mtime (at + 2)))) [
      | inl same ↦ inl (
          round-same 1 mtime at (mono at (at + 1) (omega arith))
            (mono (at + 1) (at + 2) (omega arith)) (omega arith) same)
      | inr differ ↦
          let q4 : at + 3 + 1 ≡ at + 4 = omega arith in
          let q5 : at + 3 + 2 ≡ at + 5 = omega arith in
          let q6 : at + 3 + 3 ≡ at + 6 = omega arith in
          let same =
            next_round (mtime at) (mtime (at + 2)) (mtime (at + 3)) (mtime (at + 5)) low middle high
              slow small differ in
          let second : get_mtime 1 mtime (at + 3) ≡ ok (mtime (at + 4), at + 6) =
            rw (q4, q6) at
              (round-same 0 mtime (at + 3) (mono (at + 3) (at + 3 + 1) (omega arith))
                (mono (at + 3 + 1) (at + 3 + 2) (omega arith)) (rw q5 small) (rw q5 same)) in
          inr (ground arith, round-differs 1 mtime at differ ∙ second)
    ]

-- While `mtime` is below both the new deadline and 2^64 - 2^32, none of the three writes makes the
-- comparator fire, whatever it held, and the last one leaves the deadline in it.
pub mtimecmp_writes-quiet :
    (val now : ℕ) (w : Words)
    → val < 2 ^ 64
    → now < val
    → now < 2 ^ 64 - 2 ^ 32
    → ((i : ℕ) (w' : Words) → get_elem? (mtimecmp_writes val w) i ≡ some w' → now < value w')
      × (value (last_write w (mtimecmp_writes val w)) ≡ val)
unfolding mtimecmp_writes last_write
mtimecmp_writes-quiet val now w small later early = (λ i w' h. each i w' h, ground arith)
  where
    each : (i : ℕ) (w' : Words) → get_elem? (mtimecmp_writes val w) i ≡ some w' → now < value w'
    each zero w' h =
        let e : record { hi = u32_mod - 1; lo = w.lo } ≡ w' = cc in rw (sym e) (omega arith)
    each (suc zero) w' h =
        let e : record { hi = u32_mod - 1; lo = val % u32_mod } ≡ w' = cc in
        rw (sym e) (omega arith)
    each (suc (suc zero)) w' h =
        let e : record { hi = hi_word val; lo = val % u32_mod } ≡ w' = cc in
        rw (sym e) (omega arith)
    each (suc (suc (suc i))) w' h = cc

-- If the timer is read as `now`, the handler counts one tick with wrap-around and sets a deadline after
-- `now`: one tick after the previous one if that is still to come, so that no drift adds up, and else
-- one tick after `now`. The comparator holds that deadline.
pub timer_isr-rearms :
    (fuel : ℕ) (mtime : ℕ → ℕ) (at now later : ℕ) (c : Clint)
    → get_mtime fuel mtime at ≡ ok (now, later)
    → now + tick_cycles < 2 ^ 64
    → c.next_deadline + tick_cycles < 2 ^ 64
    → (c' : Clint) × (timer_isr fuel mtime at c ≡ ok (wrapping_add c.tick_count 1, c'))
      × (c'.tick_count ≡ wrapping_add c.tick_count 1)
      × (now < c'.next_deadline)
      × (value c'.mtimecmp ≡ c'.next_deadline)
      × (((now < c.next_deadline + tick_cycles)
            × (c'.next_deadline ≡ c.next_deadline + tick_cycles))
          ⊎ ((c.next_deadline + tick_cycles ≤ now) × (c'.next_deadline ≡ now + tick_cycles)))
unfolding timer_isr set_mtimecmp mtimecmp_writes last_write
timer_isr-rearms fuel mtime at now later c read room room' =
    let full : (c.next_deadline + tick_cycles) % 2 ^ 64 ≡ c.next_deadline + tick_cycles =
      omega arith in
    let full' : (now + tick_cycles) % 2 ^ 64 ≡ now + tick_cycles = omega arith in
    let armed = λ (deadline : ℕ).
      set_mtimecmp deadline
        (record c { tick_count = wrapping_add c.tick_count 1; next_deadline = deadline }) in
    elim (Bool-cases (leb (c.next_deadline + tick_cycles) now)) [
      | inl behind ↦ (
        armed (now + tick_cycles),
        rw (timer_isr, read, full, behind, full') refl,
        refl,
        omega arith,
        ground arith,
        inr (ground arith, refl),
      )
      | inr ahead ↦ (
        armed (c.next_deadline + tick_cycles),
        rw (timer_isr, read, full, ahead) refl,
        refl,
        ground arith,
        ground arith,
        inl (ground arith, refl),
      )
    ]
