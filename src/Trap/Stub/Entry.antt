-- ===== src/Trap/Stub/Entry.antt =====
-- What the entry stub saves, and where.
use ferret_os.Common.{
  ℕ, ◌+◌, ◌*◌, ◌^◌, ◌≤◌, ◌<◌, ◌≡◌, ◌≢◌, refl, ap, ◌∙◌, true, false, ◌++◌, map, ◌==◌, arith,
  Bool-cases, inl, inr, ◌⊎◌,
}
use ferret_os.Trap.Stub.{
  Csr, mscratch, mepc, mstatus, mcause, mtval, same_csr, Cpu, set_reg, set_csr, set_word, step, run,
  save, saved_regs, sp, a0, switch_stack, save_csrs, trap_entry,
}
use ferret_os.Trap.Stub.Blocks.{run-append, has, placed, Stored, saves-Stored}

-- The frame of the interrupted task `c`, at `base` in memory.
pub record Saved (base : ℕ) (c : Cpu) (memory : ℕ → ℕ) : Type 0 where
  pub regs : (i : ℕ) → i < 32 → memory (base + 4 * i) ≡ c.regs i
  pub pc : memory (base + 128) ≡ c.csrs mepc
  pub status : memory (base + 132) ≡ c.csrs mstatus
  pub cause : memory (base + 136) ≡ c.csrs mcause
  pub trap_value : memory (base + 140) ≡ c.csrs mtval

-- After the switch to the kernel stack.
record Switched (base : ℕ) (c c' : Cpu) : Type 0 where
  stack : c'.regs sp ≡ base
  others : (i : ℕ) → (i == sp) ≡ false → c'.regs i ≡ c.regs i
  parked : c'.csrs mscratch ≡ c.regs sp
  pc : c'.csrs mepc ≡ c.csrs mepc
  status : c'.csrs mstatus ≡ c.csrs mstatus
  cause : c'.csrs mcause ≡ c.csrs mcause
  trap_value : c'.csrs mtval ≡ c.csrs mtval
  memory : c'.memory ≡ c.memory

switch_stack-Switched :
    (c : Cpu) (base : ℕ)
    → c.csrs mscratch ≡ base + 144
    → base + 144 < 2 ^ 32
    → Switched base c (run switch_stack c)
unfolding run step set_reg set_csr same_csr
switch_stack-Switched c base top room = record {
  stack = rw top (ground arith);
  others = λ i h. rw h refl;
  parked = refl;
  pc = refl;
  status = refl;
  cause = refl;
  trap_value = refl;
  memory = refl;
}

-- After the stores of `mscratch` and of the trap's status.
record Noted (base : ℕ) (c c' : Cpu) : Type 0 where
  frame : c'.regs a0 ≡ base
  stack : c'.memory (base + 8) ≡ c.csrs mscratch
  pc : c'.memory (base + 128) ≡ c.csrs mepc
  status : c'.memory (base + 132) ≡ c.csrs mstatus
  cause : c'.memory (base + 136) ≡ c.csrs mcause
  trap_value : c'.memory (base + 140) ≡ c.csrs mtval
  kept : (a : ℕ) → a ≢ base + 8 → (a < base + 128) ⊎ (base + 144 ≤ a) → c'.memory a ≡ c.memory a

save_csrs-Noted :
    (c : Cpu) (base : ℕ) → c.regs sp ≡ base → base + 144 < 2 ^ 32 → Noted base c (run save_csrs c)
unfolding run step set_reg set_word
save_csrs-Noted c base at room = record {
  frame = at;
  stack = rw at (ground arith);
  pc = rw at (ground arith);
  status = rw at (ground arith);
  cause = rw at (ground arith);
  trap_value = rw at (ground arith);
  kept = λ a off out. rw at (ground arith);
}

saved_all : (i : ℕ) → i < 32 → (i == 2) ≡ false → has i saved_regs ≡ true
unfolding has
saved_all i lt other = ground arith

composed :
    (base : ℕ) (c c₁ c₂ c₃ : Cpu)
    → Switched base c c₁
    → Stored saved_regs base c₁ c₂
    → Noted base c₂ c₃
    → Saved base c c₃.memory
      × (c₃.regs a0 ≡ base)
      × ((a : ℕ) → (a < base) ⊎ (base + 144 ≤ a) → c₃.memory a ≡ c.memory a)
composed base c c₁ c₂ c₃ s t n = (
  record {
    regs = λ i lt. elim (Bool-cases (i == 2)) [
      | inl q ↦ let same : i ≡ 2 = ground arith in rw same (n.stack ∙ from mscratch ∙ s.parked)
      | inr q ↦
          let kept = n.kept (base + 4 * i) (λ e. ground arith) (inl (omega arith)) in
          let all = saved_all i lt q in
          let stored : c₂.memory (base + 4 * i) ≡ c₁.regs i = rw all at (t.in_frame i) in
          kept ∙ stored ∙ s.others i q
    ];
    pc = n.pc ∙ from mepc ∙ s.pc;
    status = n.status ∙ from mstatus ∙ s.status;
    cause = n.cause ∙ from mcause ∙ s.cause;
    trap_value = n.trap_value ∙ from mtval ∙ s.trap_value;
  },
  n.frame,
  λ a h.
      n.kept a (λ e. off a h e) (inr_of a h)
      ∙ t.elsewhere a (out a h)
      ∙ ap (λ (m : ℕ → ℕ). m a) s.memory,
)
  where
    from : (x : Csr) → c₂.csrs x ≡ c₁.csrs x
    from x = ap (λ (f : Csr → ℕ). f x) t.csrs

    off : (a : ℕ) → (a < base) ⊎ (base + 144 ≤ a) → a ≡ base + 8 → ⊥
    off a h e = ground arith

    inr_of : (a : ℕ) → (a < base) ⊎ (base + 144 ≤ a) → (a < base + 128) ⊎ (base + 144 ≤ a)
    inr_of a (inl h) = inl (omega arith)
    inr_of a (inr h) = inr h

    out : (a : ℕ) → (a < base) ⊎ (base + 144 ≤ a) → (a < base) ⊎ (base + 128 ≤ a)
    out a (inl h) = inl h
    out a (inr h) = inr (omega arith)

-- The stub stores the interrupted registers and the trap's status in the frame below the top of the
-- kernel stack, gives its address to the handler, and writes nothing else.
pub trap_entry-Saved :
    (c : Cpu) (base : ℕ)
    → c.csrs mscratch ≡ base + 144
    → base + 144 < 2 ^ 32
    → Saved base c (run trap_entry c).memory
      × ((run trap_entry c).regs a0 ≡ base)
      × ((a : ℕ) → (a < base) ⊎ (base + 144 ≤ a) → (run trap_entry c).memory a ≡ c.memory a)
unfolding trap_entry
trap_entry-Saved c base top room =
    let c₁ = run switch_stack c in
    let c₂ = run (map save saved_regs) c₁ in
    let c₃ = run save_csrs c₂ in
    let s = switch_stack-Switched c base top room in
    let t = saves-Stored saved_regs base c₁ (unfold placed in refl) s.stack (omega arith) in
    let n = save_csrs-Noted c₂ base (ap (λ (r : ℕ → ℕ). r sp) t.regs ∙ s.stack) room in
    let whole : run trap_entry c ≡ c₃ =
      run-append switch_stack (map save saved_regs ++ save_csrs) c
      ∙ run-append (map save saved_regs) save_csrs c₁ in
    rw whole (composed base c c₁ c₂ c₃ s t n)
