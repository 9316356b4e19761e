-- ===== src/Trap/Reach.antt =====
-- The machine between traps: the running task changes registers and memory at will, the entry stub saves
-- its frame where the kernel resumed it, and the handler runs.
use ferret_os.Common.{ℕ, suc, ◌+◌, ◌*◌, ◌^◌, ◌<◌, ◌≡◌, sym, ◌∙◌, Run, ok, arith, inl, inr}
use ferret_os.Context.{TrapFrame}
use ferret_os.Clint.{get_mtime}
use ferret_os.Syscall.{write_frame}
use ferret_os.Trap.{Machine, Readings, trap_handler}
use ferret_os.Trap.Handler.{InCharge, trap_handler-Ends}

-- `frame` is where the task was resumed, `f` what the stub saves of it.
unfoldable pub interrupted : ℕ → TrapFrame → (ℕ → ℕ) → Machine → Machine
interrupted frame f memory m = record m {
  system = record (write_frame m.system frame f) { memory = memory };
}

-- The machines after a number of traps, with the frame that is resumed.
pub data Reach (frame : ℕ) (m : Machine) : ℕ → ℕ → Machine → Type 0 where
  start : Reach frame m 0 frame m
  trap :
      {steps frame' frame'' : ℕ} {m' m'' : Machine}
      → Reach frame m steps frame' m'
      → (w : Readings) (f : TrapFrame) (memory : ℕ → ℕ) (now later : ℕ)
      → get_mtime 2 w.mtime w.at ≡ ok (now, later)
      → trap_handler w frame' (interrupted frame' f memory m') ≡ ok (frame'', m'')
      → Reach frame m (suc steps) frame'' m''

interrupted-InCharge :
    (homes : ℕ → ℕ) (count n frame : ℕ) (f : TrapFrame) (memory : ℕ → ℕ) (m : Machine)
    → InCharge homes count n frame m.system
    → InCharge homes count n frame (interrupted frame f memory m).system
unfolding interrupted write_frame
interrupted-InCharge homes count n frame f memory m c = record {
  order = record { steady = c.order.steady; hold = c.order.hold };
  homed = c.homed;
  own = c.own;
}

ended :
    (frame frame' : ℕ) (m m' : Machine)
    → ◌≡◌ {A = Run (ℕ × Machine)} (ok (frame, m)) (ok (frame', m'))
    → (frame ≡ frame') × (m ≡ m')
ended frame frame' m m' h = (cc, cc)

-- From a machine in charge, every machine that traps lead to is in charge, while the inserts stay below
-- 2^31.
pub Reach-InCharge :
    (homes : ℕ → ℕ) (count n frame : ℕ) (m : Machine) {steps frame' : ℕ} {m' : Machine}
    → InCharge homes count n frame m.system
    → Reach frame m steps frame' m'
    → n + steps * (count + 2) < 2 ^ 31
    → InCharge homes count (n + steps * (count + 2)) frame' m'.system
Reach-InCharge homes count n frame m c start few =
    let same : n ≡ n + 0 * (count + 2) = ground arith in rw same at c
Reach-InCharge homes count n frame m {frame' = after} {m' = last} c
      (trap {steps = steps} {frame' = at} {m' = m₁} r w f memory now later reads runs) few =
    let step : (suc steps) * (count + 2) ≡ steps * (count + 2) + count + 2 = ground arith in
    let before = n + steps * (count + 2) in
    let c₁ = Reach-InCharge homes count n frame m c r (omega (arith, step)) in
    let c₂ = interrupted-InCharge homes count before at f memory m₁ c₁ in
    elim (trap_handler-Ends homes count w before at now later (interrupted at f memory m₁) c₂
      (omega (arith, step)) reads) [
        | inl (stops, why) ↦ absurd (let clash = sym runs ∙ stops in cc)
        | inr (frame₂, m₂, goes, c₃) ↦
            let (same_frame, same_machine) = ended frame₂ after m₂ last (sym goes ∙ runs) in
            let count_up : before + count + 2 ≡ n + suc steps * (count + 2) = omega (arith, step) in
            rw count_up at (rw (same_frame, same_machine) at c₃)
      ]
