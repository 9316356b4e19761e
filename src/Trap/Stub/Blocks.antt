-- ===== src/Trap/Stub/Blocks.antt =====
-- Blocks of stores and of loads at offsets from `sp`.
use ferret_os.Common.{
  ℕ, ◌+◌, ◌*◌, ◌^◌, ◌≤◌, ◌<◌, ◌≡◌, refl, ◌∙◌, Bool, true, false, ◌&&◌, ◌||◌, List, [], ◌∷◌, ◌++◌,
  map, ltb, ◌==◌, if◌then◌else◌, arith, Bool-cases, inl, inr, ◌⊎◌, wrapping_add,
}
use ferret_os.Trap.Stub.{Cpu, Instr, set_reg, set_word, step, run, save, restore, sp}

pub run-append : (is js : List Instr) (c : Cpu) → run (is ++ js) c ≡ run js (run is c)
unfolding run
run-append [] js c = refl
run-append (i ∷ is) js c = run-append is js (step i c)

-- The register has an offset in the list.
unfoldable pub has : ℕ → List (ℕ × ℕ) → Bool
has i [] = false
has i ((r, off) ∷ ps) = (i == r) || has i ps

-- Each offset is the register's place in a frame.
unfoldable pub placed : List (ℕ × ℕ) → Bool
placed [] = true
placed ((r, off) ∷ ps) = (off == 4 * r) && (ltb r 32 && placed ps)

-- A block of stores: the registers in the list are in the frame, and the rest of memory is as before.
pub record Stored (ps : List (ℕ × ℕ)) (base : ℕ) (c c' : Cpu) : Type 0 where
  pub regs : c'.regs ≡ c.regs
  pub csrs : c'.csrs ≡ c.csrs
  pub in_frame :
      (i : ℕ) → c'.memory (base + 4 * i) ≡ (if has i ps then c.regs i else c.memory (base + 4 * i))
  pub elsewhere : (a : ℕ) → (a < base) ⊎ (base + 128 ≤ a) → c'.memory a ≡ c.memory a

pub saves-Stored :
    (ps : List (ℕ × ℕ)) (base : ℕ) (c : Cpu)
    → placed ps ≡ true
    → c.regs sp ≡ base
    → base + 128 < 2 ^ 32
    → Stored ps base c (run (map save ps) c)
unfolding run step set_word placed has
saves-Stored [] base c p b room = record {
  regs = refl;
  csrs = refl;
  in_frame = λ i. refl;
  elsewhere = λ a h. refl;
}
saves-Stored ((r, off) ∷ ps) base c p b room =
    let at : off ≡ 4 * r = ground arith in
    let low : r < 32 = ground arith in
    let rest : placed ps ≡ true = ground arith in
    let c₁ = set_word (wrapping_add (c.regs sp) off) (c.regs r) c in
    let s = saves-Stored ps base c₁ rest b room in
    record {
      regs = s.regs;
      csrs = s.csrs;
      in_frame = λ i. s.in_frame i ∙ elim (Bool-cases (has i ps)) [
        | inl later ↦ rw later (ground arith)
        | inr gone ↦ rw gone (elim (Bool-cases (i == r)) [
          | inl here ↦ let same : i ≡ r = ground arith in rw (b, same) (ground arith)
          | inr other ↦ rw (b, at) (ground arith)
        ])
      ];
      elsewhere = λ a h. s.elsewhere a h ∙ rw (b, at) (ground arith);
    }

-- A block of loads: the registers in the list come from the frame, and the others are as before.
pub record Loaded (ps : List (ℕ × ℕ)) (base : ℕ) (c c' : Cpu) : Type 0 where
  pub memory : c'.memory ≡ c.memory
  pub csrs : c'.csrs ≡ c.csrs
  pub regs : (i : ℕ) → 0 < i → c'.regs i ≡ (if has i ps then c.memory (base + 4 * i) else c.regs i)

pub restores-Loaded :
    (ps : List (ℕ × ℕ)) (base : ℕ) (c : Cpu)
    → placed ps ≡ true
    → has sp ps ≡ false
    → c.regs sp ≡ base
    → base + 128 < 2 ^ 32
    → Loaded ps base c (run (map restore ps) c)
unfolding run step set_reg placed has
restores-Loaded [] base c p q b room = record { memory = refl; csrs = refl; regs = λ i h. refl }
restores-Loaded ((r, off) ∷ ps) base c p q b room =
    let at : off ≡ 4 * r = ground arith in
    let low : r < 32 = ground arith in
    let rest : placed ps ≡ true = ground arith in
    let apart : (sp == r) ≡ false = ground arith in
    let rest' : has sp ps ≡ false = ground arith in
    let c₁ = set_reg r (c.memory (wrapping_add (c.regs sp) off)) c in
    let l = restores-Loaded ps base c₁ rest rest' (rw apart b) room in
    let addr : wrapping_add base (4 * r) ≡ base + 4 * r = ground arith in
    record {
      memory = l.memory;
      csrs = l.csrs;
      regs = λ i h. l.regs i h ∙ elim (Bool-cases (has i ps)) [
        | inl later ↦ rw later (ground arith)
        | inr gone ↦ rw gone (elim (Bool-cases (i == r)) [
          | inl here ↦
              let same : i ≡ r = ground arith in
              let some_reg : (r == 0) ≡ false = ground arith in
              rw (here, b, at, addr, same, some_reg) refl
          | inr other ↦ rw other refl
        ])
      ];
    }
