-- ===== src/Allocator/Scan.antt =====
-- What scanning one mask against the owners so far does: the body that both checks share.
use ferret_os.Common.{
  Run, ◌>>=◌, dec_lt, ℕ, zero, suc, ◌+◌, ◌≤◌, ◌<◌, ◌≡◌, refl, sym, ◌∙◌, Bool, true, false, ◌&&◌,
  ◌||◌, Option, none, some, [], ◌∷◌, length, get_or, set, replicate, leb, ltb, ◌==◌, if◌then◌else◌,
  ok, halted, arith, Bool-cases, Option-cases, inl, inr, ◌⊎◌, length-set, length-replicate,
  get_or-set, get_or-replicate, get_elem?-eq-get_or,
}
use ferret_os.Task.{TaskDescriptor, Slots, has_bit}
use ferret_os.Mip.{is_some}
use ferret_os.Allocator.{Owners, claim}

-- Whether bit `cap` is claimed.
abbrev pub is_claimed : Owners → ℕ → Bool
is_claimed owners cap = is_some (get_or owners cap none)

-- The bits of a mask from `id` on, with `left` bits to go.
unfoldable pub scan : ℕ → ℕ → ℕ → ℕ → ℕ → Owners → Run Owners
scan limit mask owner zero id owners = ok owners
scan limit mask owner (suc left) id owners =
    claim limit mask id owner owners >>= scan limit mask owner left (id + 1)

-- What a claim of one bit does.
pub claim-cases :
    (limit mask id owner : ℕ) (owners : Owners)
    → length owners ≡ limit
    → ((has_bit mask id ≡ false) × (claim limit mask id owner owners ≡ ok owners))
      ⊎ ((has_bit mask id ≡ true)
          × (claim limit mask id owner owners ≡ halted)
          × ((limit ≤ id) ⊎ (is_claimed owners id ≡ true)))
      ⊎ ((has_bit mask id ≡ true)
          × (id < limit)
          × (is_claimed owners id ≡ false)
          × (claim limit mask id owner owners ≡ ok (set owners id (some owner))))
unfolding claim
claim-cases limit mask id owner owners size = elim (Bool-cases (has_bit mask id)) [
  | inr off ↦ inl (off, rw off refl)
  | inl on ↦ elim (Bool-cases (leb limit id)) [
    | inl beyond ↦ inr (inl (on, rw (on, beyond) refl, inl (ground arith)))
    | inr within ↦
        let read = get_elem?-eq-get_or owners id none (ground arith) in
        elim (Option-cases (get_or owners id none)) [
          | inl free ↦ inr (inr (on, ground arith, rw free refl, rw (on, within, read, free) refl))
          | inr (prior, taken) ↦
              inr (inl (on, rw (on, within, read, taken) refl, inr (rw taken refl)))
        ]
  ]
]

-- A claim halts or returns as many owners.
pub claim_returns :
    (limit mask id owner : ℕ) (owners : Owners)
    → length owners ≡ limit
    → (claim limit mask id owner owners ≡ halted)
      ⊎ ((owners' : Owners) × (claim limit mask id owner owners ≡ ok owners')
          × (length owners' ≡ limit))
claim_returns limit mask id owner owners size = elim (claim-cases limit mask id owner owners size) [
  | inl (off, runs) ↦ inr (owners, runs, size)
  | inr (inl (on, runs, why)) ↦ inl runs
  | inr (inr (on, within, vacant, runs)) ↦
      inr (set owners id (some owner), runs, length-set owners id (some owner) ∙ size)
]

skip_bit :
    (mask : ℕ) (id cap : ℕ) (b : Bool)
    → has_bit mask id ≡ false
    → (b || (leb (id + 1) cap && has_bit mask cap)) ≡ (b || (leb id cap && has_bit mask cap))
skip_bit mask id cap b off = elim (Bool-cases (id == cap)) [
  | inl q ↦
      let same : id ≡ cap = ground arith in
      let off' : has_bit mask cap ≡ false = rw same at off in ground arith
  | inr q ↦ ground arith
]

skip_free :
    (mask : ℕ) (id cap : ℕ) (b : Bool)
    → has_bit mask id ≡ false
    → (b && (leb (id + 1) cap && has_bit mask cap)) ≡ false
    → (b && (leb id cap && has_bit mask cap)) ≡ false
skip_free mask id cap b off h = elim (Bool-cases (id == cap)) [
  | inl q ↦
      let same : id ≡ cap = ground arith in
      let off' : has_bit mask cap ≡ false = rw same at off in ground arith
  | inr q ↦ ground arith
]

module _ (id cap owner : ℕ) (claimed : Owners) where
  abbrev claimed_now : Bool
  claimed_now = is_claimed (set claimed id (some owner)) cap

  module _
      (now : get_or (set claimed id (some owner)) cap none
        ≡ (if id == cap then some owner else get_or claimed cap none)) where
    now-other : (id == cap) ≡ false → claimed_now ≡ is_claimed claimed cap
    now-other h = rw (now, h) refl

    now-same : (id == cap) ≡ true → claimed_now ≡ true
    now-same h = rw (now, h) refl

before_set :
    (id cap owner : ℕ) (claimed : Owners)
    → (id == cap) ≡ false
    → get_or (set claimed id (some owner)) cap none
      ≡ (if id == cap then some owner else get_or claimed cap none)
    → is_claimed (set claimed id (some owner)) cap ≡ true
    → is_claimed claimed cap ≡ true
before_set id cap owner claimed other now h = sym (now-other id cap owner claimed now other) ∙ h

set_bit :
    (mask : ℕ) (id cap owner : ℕ) (claimed : Owners)
    → has_bit mask id ≡ true
    → get_or (set claimed id (some owner)) cap none
      ≡ (if id == cap then some owner else get_or claimed cap none)
    → (is_claimed (set claimed id (some owner)) cap || (leb (id + 1) cap && has_bit mask cap))
      ≡ (is_claimed claimed cap || (leb id cap && has_bit mask cap))
set_bit mask id cap owner claimed on now = elim (Bool-cases (id == cap)) [
  | inl q ↦
      let same : id ≡ cap = ground arith in
      let on' : has_bit mask cap ≡ true = rw same at on in
      let low : leb id cap ≡ true = ground arith in
      rw (now-same id cap owner claimed now q, low, on') (ground arith)
  | inr q ↦
      let step : leb (id + 1) cap ≡ leb id cap = ground arith in
      rw (now-other id cap owner claimed now q, step) refl
]

set_free :
    (mask : ℕ) (id cap owner : ℕ) (claimed : Owners)
    → has_bit mask id ≡ true
    → is_claimed claimed id ≡ false
    → get_or (set claimed id (some owner)) cap none
      ≡ (if id == cap then some owner else get_or claimed cap none)
    → (is_claimed (set claimed id (some owner)) cap && (leb (id + 1) cap && has_bit mask cap))
      ≡ false
    → (is_claimed claimed cap && (leb id cap && has_bit mask cap)) ≡ false
set_free mask id cap owner claimed on vacant now h = elim (Bool-cases (id == cap)) [
  | inl q ↦
      let same : id ≡ cap = ground arith in
      let vacant' : is_claimed claimed cap ≡ false = rw same at vacant in rw vacant' refl
  | inr q ↦
      let step : leb (id + 1) cap ≡ leb id cap = ground arith in
      rw (now-other id cap owner claimed now q, step) at h
]

-- The mask clashes with an earlier claim or has a bit out of range, or its bits from `id` on are claimed.
pub data Scanned (limit mask id : ℕ) (owners : Owners) (r : Run Owners) : Type 0 where
  clash :
      r ≡ halted
      → (cap : ℕ) → cap < 32
      → id ≤ cap
      → has_bit mask cap ≡ true
      → (limit ≤ cap) ⊎ (is_claimed owners cap ≡ true)
      → Scanned limit mask id owners r
  claimed :
      (owners' : Owners)
      → r ≡ ok owners'
      → length owners' ≡ limit
      → ((cap : ℕ)
          → cap < limit
          → is_claimed owners' cap ≡ (is_claimed owners cap || (leb id cap && has_bit mask cap)))
      → ((cap : ℕ)
          → cap < limit
          → (is_claimed owners cap && (leb id cap && has_bit mask cap)) ≡ false)
      → ((cap : ℕ) → id ≤ cap → cap < 32 → limit ≤ cap → has_bit mask cap ≡ false)
      → Scanned limit mask id owners r

skip_beyond :
    (limit mask id : ℕ)
    → ((limit ≤ id) → has_bit mask id ≡ false)
    → ((cap : ℕ) → id + 1 ≤ cap → cap < 32 → limit ≤ cap → has_bit mask cap ≡ false)
    → (cap : ℕ) → id ≤ cap
    → cap < 32
    → limit ≤ cap
    → has_bit mask cap ≡ false
skip_beyond limit mask id off rest cap ge lt beyond = elim (Bool-cases (id == cap)) [
  | inl q ↦
      let same : id ≡ cap = ground arith in
      let off' : has_bit mask id ≡ false = off (omega arith) in rw same at off'
  | inr q ↦ rest cap (ground arith) lt beyond
]

pub scan-Scanned :
    (limit mask owner left id : ℕ) (owners : Owners)
    → limit ≤ 32
    → id + left ≡ 32
    → length owners ≡ limit
    → Scanned limit mask id owners (scan limit mask owner left id owners)
unfolding scan
scan-Scanned limit mask owner zero id owners low e size =
    claimed owners refl size (λ cap lt. ground arith) (λ cap lt. ground arith)
      (λ cap ge lt b. absurd (omega arith))
scan-Scanned limit mask owner (suc left) id owners low e size =
    elim (claim-cases limit mask id owner owners size) [
      | inl (off, runs) ↦
          skipped off runs
            (scan-Scanned limit mask owner left (id + 1) owners low (omega arith) size)
      | inr (inl (on, runs, why)) ↦ clash (rw runs refl) id (omega arith) (omega arith) on why
      | inr (inr (on, within, vacant, runs)) ↦ taken on within vacant runs (
          scan-Scanned limit mask owner left (id + 1) (set owners id (some owner)) low (omega arith)
            (omega (arith, length-set owners id (some owner), size)))
    ]
  where
    skipped :
        has_bit mask id ≡ false
        → claim limit mask id owner owners ≡ ok owners
        → Scanned limit mask (id + 1) owners (scan limit mask owner left (id + 1) owners)
        → Scanned limit mask id owners
            (claim limit mask id owner owners >>= scan limit mask owner left (id + 1))
    skipped off runs (clash stops cap lt ge held why) =
        clash (rw runs stops) cap lt (omega arith) held why
    skipped off runs (claimed owners' goes size' all free beyond) =
        claimed owners' (rw runs goes) size'
          (λ cap lt. all cap lt ∙ skip_bit mask id cap (is_claimed owners cap) off)
          (λ cap lt. skip_free mask id cap (is_claimed owners cap) off (free cap lt))
          (λ cap ge lt b. skip_beyond limit mask id (λ h. off) beyond cap ge lt b)

    taken :
        has_bit mask id ≡ true
        → id < limit
        → is_claimed owners id ≡ false
        → claim limit mask id owner owners ≡ ok (set owners id (some owner))
        → Scanned limit mask
            (id + 1)
            (set owners id (some owner))
            (scan limit mask owner left (id + 1) (set owners id (some owner)))
        → Scanned limit mask id owners
            (claim limit mask id owner owners >>= scan limit mask owner left (id + 1))
    taken on within vacant runs (clash stops cap lt ge held (inl b)) =
        clash (rw runs stops) cap lt (omega arith) held (inl b)
    taken on within vacant runs (clash stops cap lt ge held (inr old)) =
        let other : (id == cap) ≡ false = ground arith in
        clash (rw runs stops) cap lt (omega arith) held (
          inr (
            before_set id cap owner owners other
              (get_or-set owners id cap (some owner) none (omega arith)) old))
    taken on within vacant runs (claimed owners' goes size' all free beyond) =
        let now = λ (cap : ℕ). get_or-set owners id cap (some owner) none (omega arith) in
        claimed owners' (rw runs goes) size'
          (λ cap lt. all cap lt ∙ set_bit mask id cap owner owners on (now cap))
          (λ cap lt. set_free mask id cap owner owners on vacant (now cap) (free cap lt))
          (λ cap ge lt b. skip_beyond limit mask id (λ h. absurd (omega arith)) beyond cap ge lt b)

-- How many tasks have bit `cap` in the mask that `mask_of` selects.
unfoldable pub holders_of : (TaskDescriptor → ℕ) → ℕ → Slots → ℕ
holders_of mask_of cap [] = 0
holders_of mask_of cap (none ∷ slots) = holders_of mask_of cap slots
holders_of mask_of cap (some task ∷ slots) =
    (if has_bit (mask_of task) cap then 1 else 0) + holders_of mask_of cap slots

-- The masks of all tasks, one after the other.
unfoldable pub scan_all : ℕ → (TaskDescriptor → ℕ) → Slots → Owners → Run Owners
scan_all limit mask_of [] owners = ok owners
scan_all limit mask_of (none ∷ slots) owners = scan_all limit mask_of slots owners
scan_all limit mask_of (some task ∷ slots) owners =
    scan limit (mask_of task) task.id 32 0 owners >>= scan_all limit mask_of slots

-- `owners` are the bits with an earlier holder.
abbrev pub Counts : ℕ → (ℕ → ℕ) → Owners → Type 0
Counts limit before owners =
    (cap : ℕ) → cap < limit → before cap ≡ (if is_claimed owners cap then 1 else 0)

count_step :
    (count : ℕ) (was now held : Bool)
    → count ≡ (if was then 1 else 0)
    → now ≡ (was || held)
    → (was && held) ≡ false
    → count + (if held then 1 else 0) ≡ (if now then 1 else 0)
count_step count was now held c all free = ground arith

-- How the scan of all masks ends: some bit has two holders or is out of range, or none.
abbrev pub Unique : ℕ → (TaskDescriptor → ℕ) → (ℕ → ℕ) → Slots → Run Owners → Type 0
Unique limit mask_of before slots r =
    ((r ≡ halted)
      × (cap : ℕ) × (cap < 32)
      × (1 ≤ holders_of mask_of cap slots)
      × ((limit ≤ cap) ⊎ (2 ≤ before cap + holders_of mask_of cap slots)))
    ⊎ ((owners : Owners) × (r ≡ ok owners)
        × ((cap : ℕ) → cap < limit → before cap + holders_of mask_of cap slots ≤ 1)
        × ((cap : ℕ) → limit ≤ cap → cap < 32 → holders_of mask_of cap slots ≡ 0))

module _ (limit : ℕ) (mask_of : TaskDescriptor → ℕ) (low : limit ≤ 32) where
  pub scan_all-Unique :
      (slots : Slots) (owners : Owners) (before : ℕ → ℕ)
      → length owners ≡ limit
      → Counts limit before owners
      → Unique limit mask_of before slots (scan_all limit mask_of slots owners)
  unfolding scan_all holders_of
  scan_all-Unique [] owners before size counts =
      inr (owners, refl, (λ cap lt. let c = counts cap lt in ground arith), λ cap b lt. refl)
  scan_all-Unique (none ∷ slots) owners before size counts =
      scan_all-Unique slots owners before size counts
  scan_all-Unique (some task ∷ slots) owners before size counts =
      let after = λ (cap : ℕ). before cap + (if has_bit (mask_of task) cap then 1 else 0) in
      elim (scan-Scanned limit (mask_of task) task.id 32 0 owners low refl size) [
        | clash stops cap lt ge held (inl b) ↦
            inl (rw stops refl, cap, lt, rw held (omega arith), inl b)
        | clash stops cap lt ge held (inr old) ↦
            inl (rw stops refl, cap, lt, rw held (omega arith), (again cap old held counts))
        | claimed owners' goes size' all free beyond ↦
            elim (scan_all-Unique slots owners' after size'
              (λ cap lt. one_more owners' cap (counts cap lt) (all cap lt) (free cap lt))) [
                | inl (stops, cap, lt, one, inl b) ↦
                    inl (rw goes stops, cap, lt, omega arith, inl b)
                | inl (stops, cap, lt, one, inr two) ↦
                    inl (rw goes stops, cap, lt, omega arith, inr (omega arith))
                | inr (last, runs, single, absent) ↦ inr (
                  last,
                  rw goes runs,
                  (λ cap lt. omega (arith, single cap lt)),
                  λ cap b lt. rw (beyond cap (omega arith) lt b) (omega (arith, absent cap b lt)),
                )
              ]
      ]
    where
      again :
          (cap : ℕ)
          → is_claimed owners cap ≡ true
          → has_bit (mask_of task) cap ≡ true
          → Counts limit before owners
          → (limit ≤ cap)
            ⊎ (2
                ≤ before cap
                  + ((if has_bit (mask_of task) cap then 1 else 0) + holders_of mask_of cap slots))
      again cap old held counts = elim (dec_lt cap limit) [
        | yes within ↦ inr (let c = counts cap within in rw (held, c, old) (omega arith))
        | no beyond ↦ inl (omega arith)
      ]

      one_more :
          (owners' : Owners) (cap : ℕ)
          → before cap ≡ (if is_claimed owners cap then 1 else 0)
          → is_claimed owners' cap
            ≡ (is_claimed owners cap || (leb 0 cap && has_bit (mask_of task) cap))
          → (is_claimed owners cap && (leb 0 cap && has_bit (mask_of task) cap)) ≡ false
          → before cap + (if has_bit (mask_of task) cap then 1 else 0)
            ≡ (if is_claimed owners' cap then 1 else 0)
      one_more owners' cap c all free =
          let start : leb 0 cap ≡ true = ground arith in
          let all' : is_claimed owners' cap
              ≡ (is_claimed owners cap || has_bit (mask_of task) cap) =
            rw start at all in
          let free' : (is_claimed owners cap && has_bit (mask_of task) cap) ≡ false =
            rw start at free in
          count_step (before cap) (is_claimed owners cap) (is_claimed owners' cap)
            (has_bit (mask_of task) cap) c all' free'

  -- From no owners: every bit in range has at most one holder, and the others none.
  pub scan_all-new :
      (slots : Slots)
      → Unique limit mask_of (λ cap. 0) slots (scan_all limit mask_of slots (replicate limit none))
  scan_all-new slots =
      scan_all-Unique slots (replicate limit none) (λ cap. 0)
        (length-replicate {A = Option ℕ} limit none) (λ cap lt. rw (unclaimed cap) refl)
    where
      unclaimed : (cap : ℕ) → is_claimed (replicate limit none) cap ≡ false
      unclaimed cap =
          rw (get_or-replicate {A = Option ℕ} limit cap none none)
            (elim (Bool-cases (ltb cap limit)) [ inl q ↦ rw q refl | inr q ↦ rw q refl ])
