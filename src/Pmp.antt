-- ===== src/Pmp.antt =====
-- kernel/src/memory/pmp.rs with the feature `pmp`: the entries of the physical memory protection.
-- `pmpcfg0` and `pmpcfg3` hold one byte for each entry; clearing and setting the bits of one byte
-- replaces it. The other `pmpcfg` registers and `pmpaddr3` to `pmpaddr14` are never written.
use Prim.Native.Nat.{bit_or, bit_and}
use ferret_os.Common.{
  ℕ, ◌+◌, ◌-◌, ◌/◌, ◌%◌, Bool, ◌&&◌, ◌||◌, List, set, ltb, leb, ◌==◌, if◌then◌else◌,
}
use ferret_os.Task.{TaskDescriptor, user, machine}

abbrev pub pmp_r : ℕ
pmp_r = 1

abbrev pub pmp_w : ℕ
pmp_w = 2

abbrev pub pmp_x : ℕ
pmp_x = 4

abbrev pub pmp_tor : ℕ
pmp_tor = 8

abbrev pub pmp_napot : ℕ
pmp_napot = 24

abbrev pub flash_entry : ℕ
flash_entry = 0

abbrev pub task_entry_lo : ℕ
task_entry_lo = 1

abbrev pub task_entry_hi : ℕ
task_entry_hi = 2

pub record EntryPair : Type 0 where
  pub addr_lo : ℕ
  pub addr_hi : ℕ
  pub cfg_lo : ℕ
  pub cfg_hi : ℕ

abbrev pub entry_pair : ℕ → ℕ → ℕ → ℕ → EntryPair
entry_pair addr_lo addr_hi cfg_lo cfg_hi = record {
  addr_lo = addr_lo;
  addr_hi = addr_hi;
  cfg_lo = cfg_lo;
  cfg_hi = cfg_hi;
}

-- `size.is_power_of_two()` for a positive `u32`: it shares no bit with its predecessor.
unfoldable pub is_power_of_two : ℕ → Bool
is_power_of_two size = ltb 0 size && (bit_and size (size - 1) == 0)

unfoldable pub is_napot : ℕ → ℕ → Bool
is_napot start end =
    let size = end - start in
    leb start end && (leb 8 size && (is_power_of_two size && (start % size == 0)))

unfoldable pub napot_addr : ℕ → ℕ → ℕ
napot_addr start end = bit_or start ((end - start) / 2 - 1) / 4

unfoldable pub encode_region : ℕ → ℕ → ℕ → EntryPair
encode_region start end perms =
    if leb end start
    then entry_pair 0 0 0 0
    else (if is_napot start end
        then entry_pair 0 (napot_addr start end) 0 (bit_or pmp_napot perms)
        else entry_pair (start / 4) (end / 4) 0 (bit_or pmp_tor perms))

unfoldable pub task_entries : TaskDescriptor → EntryPair
task_entries task = elim task.mode [
  | user ↦ encode_region task.memory_start task.memory_end (bit_or pmp_r pmp_w)
  | machine ↦ encode_region 0 0 0
]

-- The address registers and configuration bytes of the sixteen entries.
pub record Pmp : Type 0 where
  pub addr : List ℕ
  pub cfg : List ℕ

unfoldable pub write_pmpaddr : Pmp → ℕ → ℕ → Pmp
write_pmpaddr p idx val =
    if leb idx 2 || (idx == 15) then record p { addr = set p.addr idx val } else p

unfoldable pub write_cfg_byte : Pmp → ℕ → ℕ → Pmp
write_cfg_byte p idx byte =
    if (idx / 4 == 0) || (idx / 4 == 3) then record p { cfg = set p.cfg idx byte } else p

unfoldable pub activate_task_region : Pmp → TaskDescriptor → Pmp
activate_task_region p task =
    let e = task_entries task in
    let p₁ = write_cfg_byte p task_entry_hi 0 in
    let p₂ = write_pmpaddr p₁ task_entry_lo e.addr_lo in
    let p₃ = write_pmpaddr p₂ task_entry_hi e.addr_hi in
    let p₄ = write_cfg_byte p₃ task_entry_lo e.cfg_lo in write_cfg_byte p₄ task_entry_hi e.cfg_hi

abbrev pub flash_origin : ℕ
flash_origin = 2147483648

abbrev pub flash_size : ℕ
flash_size = 524288

-- `pmpcfg0` holds the bytes of entries 0 to 3.
unfoldable pub write_pmpcfg0 : Pmp → ℕ → Pmp
write_pmpcfg0 p val =
    let c₀ = set p.cfg 0 (val % 256) in
    let c₁ = set c₀ 1 (val / 256 % 256) in
    let c₂ = set c₁ 2 (val / 65536 % 256) in record p { cfg = set c₂ 3 (val / 16777216 % 256) }

unfoldable pub configure_pmp : Pmp → Pmp
configure_pmp p =
    let p₁ = write_pmpcfg0 p 0 in
    let p₂ = write_pmpaddr p₁ flash_entry (napot_addr flash_origin (flash_origin + flash_size)) in
    write_cfg_byte p₂ flash_entry (bit_or pmp_napot (bit_or pmp_r pmp_x))
