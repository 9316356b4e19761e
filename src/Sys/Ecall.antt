-- ===== src/Sys/Ecall.antt =====
-- The `ecall` of a task, with the kernel's `dispatch` behind it.
use ferret_os.Common.{
  ℕ, ◌<◌, ◌≡◌, refl, ◌∙◌, ◌>>=◌, length, length-set, set, get_or, get_or-set, ==_refl, ok, arith,
}
use ferret_os.Context.{TrapFrame, reg_a0, reg_a1, reg_a2, reg_a3, reg_a7}
use ferret_os.Syscall.{System, reg, set_a0, write_frame, dispatch}
use ferret_os.Sys.{Request, Call}

-- The frame of a task that executes the `ecall` of a request.
abbrev pub with_request : Request → TrapFrame → TrapFrame
with_request r f = record f {
  regs =
      set (set (set (set (set f.regs reg_a0 r.arg0) reg_a1 r.arg1) reg_a2 r.arg2) reg_a3 r.arg3)
        reg_a7 r.number;
}

-- The kernel finds the request in the caller's frame. When the caller goes on, its `a0` is what is there
-- after the call; if the kernel stops or panics, so does the call. Of the trap handler only `dispatch`
-- counts here: the rest advances `mepc`.
unfoldable pub handled : ℕ × ℕ → ℕ → Call System
handled flash_image frame r s = do
  (frame', s') ← dispatch flash_image frame (write_frame s frame (with_request r (s.frames frame)))
  ok (reg s' frame reg_a0, s')

pub reg-write_frame :
    (s : System) (frame i : ℕ) (f : TrapFrame)
    → reg (write_frame s frame f) frame i ≡ get_or f.regs i 0
unfolding write_frame
reg-write_frame s frame i f = let same = ==_refl frame in rw same refl

pub reg-set_a0 :
    (s : System) (frame value : ℕ)
    → 10 < length (s.frames frame).regs
    → reg (set_a0 s frame value) frame reg_a0 ≡ value
unfolding set_a0
reg-set_a0 s frame value h =
    reg-write_frame s frame reg_a0
      (record (s.frames frame) { regs = set (s.frames frame).regs reg_a0 value })
    ∙ get_or-set (s.frames frame).regs reg_a0 reg_a0 value 0 h

pub handled-ok :
    (flash_image : ℕ × ℕ) (frame : ℕ) (r : Request) (s : System) (frame' : ℕ) (s' : System)
    → dispatch flash_image frame (write_frame s frame (with_request r (s.frames frame)))
      ≡ ok (frame', s')
    → handled flash_image frame r s ≡ ok (reg s' frame reg_a0, s')
unfolding handled
handled-ok flash_image frame r s frame' s' h = rw h refl

pub written : (s : System) (frame : ℕ) (f : TrapFrame) → (write_frame s frame f).frames frame ≡ f
unfolding write_frame
written s frame f = let same = ==_refl frame in rw same refl

-- The registers of a request.
pub request_regs :
    (r : Request) (f : TrapFrame)
    → length f.regs ≡ 32
    → (get_or (with_request r f).regs reg_a0 0 ≡ r.arg0)
      × (get_or (with_request r f).regs reg_a1 0 ≡ r.arg1)
      × (get_or (with_request r f).regs reg_a2 0 ≡ r.arg2)
      × (get_or (with_request r f).regs reg_a3 0 ≡ r.arg3)
      × (get_or (with_request r f).regs reg_a7 0 ≡ r.number)
      × (length (with_request r f).regs ≡ 32)
request_regs r f size =
    let xs₀ = set f.regs reg_a0 r.arg0 in
    let xs₁ = set xs₀ reg_a1 r.arg1 in
    let xs₂ = set xs₁ reg_a2 r.arg2 in
    let xs₃ = set xs₂ reg_a3 r.arg3 in
    let l₀ = length-set f.regs reg_a0 r.arg0 ∙ size in
    let l₁ = length-set xs₀ reg_a1 r.arg1 ∙ l₀ in
    let l₂ = length-set xs₁ reg_a2 r.arg2 ∙ l₁ in
    let l₃ = length-set xs₂ reg_a3 r.arg3 ∙ l₂ in
    let last = λ (i : ℕ). get_or-set xs₃ reg_a7 i r.number 0 (omega arith) in
    let third = λ (i : ℕ). get_or-set xs₂ reg_a3 i r.arg3 0 (omega arith) in
    let second = λ (i : ℕ). get_or-set xs₁ reg_a2 i r.arg2 0 (omega arith) in
    let first = λ (i : ℕ). get_or-set xs₀ reg_a1 i r.arg1 0 (omega arith) in
    (
      last reg_a0
          ∙ third reg_a0
          ∙ second reg_a0
          ∙ first reg_a0
          ∙ get_or-set f.regs reg_a0 reg_a0 r.arg0 0 (omega arith),
      last reg_a1 ∙ third reg_a1 ∙ second reg_a1 ∙ first reg_a1,
      last reg_a2 ∙ third reg_a2 ∙ second reg_a2,
      last reg_a3 ∙ third reg_a3,
      last reg_a7,
      length-set xs₃ reg_a7 r.number ∙ l₃,
    )
