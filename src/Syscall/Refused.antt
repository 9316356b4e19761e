-- ===== src/Syscall/Refused.antt =====
-- What the channel calls do when they are not allowed, or their buffer is not the caller's.
use ferret_os.Common.{
  ℕ, ◌≤◌, ◌≡◌, refl, false, some, ltb, ok, arith, inl, inr, Bool-cases, ◌&&◌, leb,
}
use ferret_os.Task.{TaskDescriptor}
use ferret_os.Channel.{Channel, Message, msg_max, channel}
use ferret_os.Scheduler.{current_task}
use ferret_os.Syscall.{
  System, set_a0, sys_send, sys_receive, holds_endpoint, buffer_readable, readable_ranges,
  writable_ranges, ret, eperm, einval, efault,
}

module _ (frame ch ptr flags : ℕ) (task : TaskDescriptor) (chan : Channel Message) (s : System)
    (caller : current_task s.kernel ≡ some task) (at_ch : channel s.channels ch ≡ some chan) where
  -- A send that is not allowed, too long, or from memory that is not the caller's changes nothing but
  -- the caller's a0, which gets an error code.
  pub sys_send-refused :
      (flash_image : ℕ × ℕ) (len : ℕ)
      → (holds_endpoint task.sends_mask ch
          && (leb len msg_max && buffer_readable ptr len (readable_ranges flash_image task)))
        ≡ false
      → (code : ℕ) × (sys_send flash_image frame ch ptr len flags s
          ≡ ok (frame, set_a0 s frame code))
        × (einval ≤ code)
  unfolding sys_send ret
  sys_send-refused flash_image len bad = elim (Bool-cases (holds_endpoint task.sends_mask ch)) [
    | inr off ↦ (eperm, rw (caller, sys_send, at_ch, off) refl, omega arith)
    | inl may ↦ elim (Bool-cases (ltb msg_max len)) [
      | inl long ↦ (einval, rw (caller, sys_send, at_ch, may, long) refl, omega arith)
      | inr short ↦
          let hidden : buffer_readable ptr len (readable_ranges flash_image task) ≡ false =
            ground arith in
          (efault, rw (caller, sys_send, at_ch, may, short, hidden) refl, omega arith)
    ]
  ]

  -- A receive that is not allowed, or into memory that is not the caller's, changes nothing but the
  -- caller's a0, which gets an error code.
  pub sys_receive-refused :
      (size : ℕ)
      → (holds_endpoint task.receives_mask ch && buffer_readable ptr size (writable_ranges task))
        ≡ false
      → (code : ℕ) × (sys_receive frame ch ptr size flags s ≡ ok (frame, set_a0 s frame code))
        × (einval ≤ code)
  unfolding sys_receive ret
  sys_receive-refused size bad = elim (Bool-cases (holds_endpoint task.receives_mask ch)) [
    | inr off ↦ (eperm, rw (caller, sys_receive, at_ch, off) refl, omega arith)
    | inl may ↦
        let hidden : buffer_readable ptr size (writable_ranges task) ≡ false = ground arith in
        (efault, rw (caller, sys_receive, at_ch, may, hidden) refl, omega arith)
  ]
