-- ===== src/Trap/Stub/Exit.antt =====
-- What the exit stub restores, and that it undoes the entry stub.
use ferret_os.Common.{
  ℕ, ◌+◌, ◌*◌, ◌^◌, ◌≤◌, ◌<◌, ◌≡◌, refl, sym, ap, ◌∙◌, true, false, [], ◌∷◌, ◌++◌, map, ◌==◌, arith,
  Bool-cases, inl, inr, wrapping_add,
}
use ferret_os.Trap.Stub.{
  Csr, mscratch, mepc, mstatus, same_csr, Cpu, lw, set_reg, set_csr, step, run, restore,
  restored_regs, sp, a0, restore_csrs, restore_context, trap_entry,
}
use ferret_os.Trap.Stub.Blocks.{run-append, has, placed, Loaded, restores-Loaded}
use ferret_os.Trap.Stub.Entry.{trap_entry-Saved}

-- The task whose frame is at `base` in `memory`.
pub record Resumed (base : ℕ) (memory : ℕ → ℕ) (c : Cpu) : Type 0 where
  pub regs : (i : ℕ) → 0 < i → i < 32 → c.regs i ≡ memory (base + 4 * i)
  pub pc : c.csrs mepc ≡ memory (base + 128)
  pub status : c.csrs mstatus ≡ memory (base + 132)
  pub top : c.csrs mscratch ≡ base + 144
  pub memory_same : c.memory ≡ memory

-- After `restore_csrs`.
record Pointed (base : ℕ) (c c' : Cpu) : Type 0 where
  stack : c'.regs sp ≡ base
  pc : c'.csrs mepc ≡ c.memory (base + 128)
  status : c'.csrs mstatus ≡ c.memory (base + 132)
  top : c'.csrs mscratch ≡ base + 144
  memory_same : c'.memory ≡ c.memory

restore_csrs-Pointed :
    (c : Cpu) (base : ℕ)
    → c.regs a0 ≡ base
    → base + 144 < 2 ^ 32
    → Pointed base c (run restore_csrs c)
unfolding run step set_reg set_csr same_csr
restore_csrs-Pointed c base at room =
    let far : wrapping_add base 128 ≡ base + 128 = ground arith in
    let far' : wrapping_add base 132 ≡ base + 132 = ground arith in
    record {
      stack = at;
      pc = rw (at, far) refl;
      status = rw (at, far') refl;
      top = rw at (ground arith);
      memory_same = refl;
    }

restored_all : (i : ℕ) → 0 < i → i < 32 → (i == 2) ≡ false → has i restored_regs ≡ true
unfolding has
restored_all i pos lt other = ground arith

-- The last load, of `sp`.
last_load :
    (c c₁ c₂ : Cpu) (base : ℕ)
    → base + 144 < 2 ^ 32
    → Pointed base c c₁
    → Loaded restored_regs base c₁ c₂
    → Resumed base c.memory (run (lw sp 8 sp ∷ []) c₂)
unfolding run step set_reg
last_load c c₁ c₂ base room p l = record {
  regs = λ i pos lt. elim (Bool-cases (i == 2)) [
    | inl q ↦
        let same : i ≡ 2 = ground arith in
        rw (same, stack, far) (ap (λ (m : ℕ → ℕ). m (base + 8)) memory_kept)
    | inr q ↦
        let all = restored_all i pos lt q in
        let loaded : c₂.regs i ≡ c₁.memory (base + 4 * i) = rw all at (l.regs i pos) in
        rw q (loaded ∙ ap (λ (m : ℕ → ℕ). m (base + 4 * i)) p.memory_same)
  ];
  pc = csr mepc ∙ p.pc;
  status = csr mstatus ∙ p.status;
  top = csr mscratch ∙ p.top;
  memory_same = memory_kept;
}
  where
    csr : (x : Csr) → c₂.csrs x ≡ c₁.csrs x
    csr x = ap (λ (f : Csr → ℕ). f x) l.csrs

    memory_kept : c₂.memory ≡ c.memory
    memory_kept = l.memory ∙ p.memory_same

    stack : c₂.regs 2 ≡ base
    stack =
        let none_loaded : has 2 restored_regs ≡ false = unfold has in refl in
        (rw none_loaded at (l.regs 2 (omega arith))) ∙ p.stack

    far : wrapping_add base 8 ≡ base + 8
    far = ground arith

-- The exit stub resumes the task whose frame it is given.
pub restore_context-Resumed :
    (c : Cpu) (base : ℕ)
    → c.regs a0 ≡ base
    → base + 144 < 2 ^ 32
    → Resumed base c.memory (run restore_context c)
unfolding restore_context
restore_context-Resumed c base at room =
    let c₁ = run restore_csrs c in
    let c₂ = run (map restore restored_regs) c₁ in
    let p = restore_csrs-Pointed c base at room in
    let l =
      restores-Loaded restored_regs base c₁ (unfold placed in refl) (unfold has in refl) p.stack
        (omega arith) in
    let whole : run restore_context c ≡ run (lw sp 8 sp ∷ []) c₂ =
      run-append restore_csrs (map restore restored_regs ++ (lw sp 8 sp ∷ [])) c
      ∙ run-append (map restore restored_regs) (lw sp 8 sp ∷ []) c₁ in
    rw whole (last_load c c₁ c₂ base room p l)

-- If the handler returns the frame it was given, unchanged, the interrupted task goes on with its
-- registers, its program counter, its status, and its kernel stack.
pub restore_context-trap_entry :
    (c h : Cpu) (base : ℕ)
    → c.csrs mscratch ≡ base + 144
    → base + 144 < 2 ^ 32
    → h.regs a0 ≡ base
    → ((a : ℕ) → base ≤ a → a < base + 144 → h.memory a ≡ (run trap_entry c).memory a)
    → ((i : ℕ) → 0 < i → i < 32 → (run restore_context h).regs i ≡ c.regs i)
      × ((run restore_context h).csrs mepc ≡ c.csrs mepc)
      × ((run restore_context h).csrs mstatus ≡ c.csrs mstatus)
      × ((run restore_context h).csrs mscratch ≡ c.csrs mscratch)
restore_context-trap_entry c h base top room at kept =
    let (s, a0_at, elsewhere) = trap_entry-Saved c base top room in
    let r = restore_context-Resumed h base at room in
    (
      λ i pos lt. r.regs i pos lt ∙ kept (base + 4 * i) (omega arith) (omega arith) ∙ s.regs i lt,
      r.pc ∙ kept (base + 128) (omega arith) (omega arith) ∙ s.pc,
      r.status ∙ kept (base + 132) (omega arith) (omega arith) ∙ s.status,
      r.top ∙ sym top,
    )
