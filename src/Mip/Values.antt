-- ===== src/Mip/Values.antt =====
-- `compute_mip_values` over the whole registry, and what the stored values guarantee.
use mathlib.Core.Path.{subst, fun_ext}
use ferret_os.Common.{
  ℕ, zero, suc, ◌+◌, ◌≤◌, ◌<◌, ◌≡◌, refl, ◌∙◌, Bool, none, some, List, length, get_or, set, ◌==◌,
  if◌then◌else◌, ok, ◌>>=◌, arith, length-set, replicate, get_or-set, get_or-replicate, Bool-cases,
  Option-cases, inl, inr, dec_lt,
}
use ferret_os.Task.{TaskDescriptor, Slots, max_tasks}
use ferret_os.Ccg.{CapabilityContentionGraph, build, has_edge}
use ferret_os.Ccg.Build.{IsSquare, build-has_edge}
use ferret_os.Ccg.Populated.{slot, contended, contended_tasks}
use ferret_os.Reach.{IsHighest}
use ferret_os.Mip.{mip_of, mip_loop, compute_mip_values}
use ferret_os.Mip.Array.{follows, read_slot}
use ferret_os.Mip.Correct.{priority_of, mip_of_ok}

-- The values that belong to the slots from `low` on.
pub record Values (e : ℕ → ℕ → Bool) (reg : Slots) (low : ℕ) (mip : List ℕ) : Type 0 where
  pub size : length mip ≡ max_tasks
  pub task :
      (i : ℕ) (t : TaskDescriptor)
      → low ≤ i
      → i < max_tasks
      → slot reg i ≡ some t
      → IsHighest e (priority_of reg) i (get_or mip i 0)
  pub free : (i : ℕ) → slot reg i ≡ none → get_or mip i 0 ≡ 0

-- What `compute_mip_values` is to return.
abbrev pub AreMip : Slots → List ℕ → Type 0
AreMip reg mip = Values (contended reg) reg 0 mip

module _ (ccg : CapabilityContentionGraph) (reg : Slots) (square : IsSquare ccg.edges)
    (size : length reg ≡ max_tasks) where
  other_slot :
      (src i : ℕ) (t : TaskDescriptor) (m : ℕ) (mip : List ℕ)
      → slot reg src ≡ some t
      → slot reg i ≡ none
      → get_or (set mip src m) i 0 ≡ (if src == i then m else get_or mip i 0)
      → get_or mip i 0 ≡ 0
      → get_or (set mip src m) i 0 ≡ 0
  other_slot src i t m mip e q at was = elim (Bool-cases (src == i)) [
    | inl same ↦ let q' : src ≡ i = ground arith in let q'' : slot reg i ≡ some t = rw q' at e in cc
    | inr other ↦ rw (at, other) was
  ]

  write :
      (src : ℕ) (mip : List ℕ)
      → src < max_tasks
      → length mip ≡ max_tasks
      → ((i : ℕ) → slot reg i ≡ none → get_or mip i 0 ≡ 0)
      → (mip' : List ℕ) × (elim (slot reg src) [
        | none ↦ ok mip
        | some t ↦ mip_of ccg reg src t >>= λ m. ok (set mip src m)
      ]
          ≡ ok mip')
        × (length mip' ≡ max_tasks)
        × ((i : ℕ) → slot reg i ≡ none → get_or mip' i 0 ≡ 0)
        × ((i : ℕ) → i < src → get_or mip' i 0 ≡ get_or mip i 0)
        × ((t : TaskDescriptor)
            → slot reg src ≡ some t
            → IsHighest (follows ccg reg) (priority_of reg) src (get_or mip' src 0))
  write src mip h s free = elim (Option-cases (slot reg src)) [
    | inl e ↦ (mip, rw e refl, s, free, (λ i q. refl), λ t q. cc)
    | inr (t, e) ↦
        let (m, runs, best) = mip_of_ok ccg reg square size src t e h in
        let at = λ (i : ℕ). get_or-set mip src i m 0 (omega arith) in
        (
          set mip src m,
          rw (e, runs) refl,
          omega (arith, length-set mip src m, s),
          (λ i q. other_slot src i t m mip e q (at i) (free i q)),
          (λ i q. ground (arith, at i)),
          λ t' q.
              let here : get_or (set mip src m) src 0 ≡ m = ground (arith, at src) in rw here best,
        )
  ]

  mip_loop_ok :
      (left src : ℕ) (mip : List ℕ)
      → src + left ≡ max_tasks
      → length mip ≡ max_tasks
      → ((i : ℕ) → slot reg i ≡ none → get_or mip i 0 ≡ 0)
      → (mip' : List ℕ) × (mip_loop ccg reg left src mip ≡ ok mip')
        × Values (follows ccg reg) reg src mip'
        × ((i : ℕ) → i < src → get_or mip' i 0 ≡ get_or mip i 0)
  unfolding mip_loop
  mip_loop_ok zero src mip e s free = (
    mip,
    refl,
    record { size = s; task = λ i t ge lt q. absurd (omega arith); free = free },
    λ i q. refl,
  )
  mip_loop_ok (suc left) src mip e s free =
      let h : src < max_tasks = omega arith in
      let (mip₁, runs₁, s₁, free₁, same₁, best) = write src mip h s free in
      let (mip₂, runs₂, v, same₂) = mip_loop_ok left (src + 1) mip₁ (omega arith) s₁ free₁ in
      (
        mip₂,
        rw (read_slot ccg reg square size src h, runs₁) runs₂,
        record {
          size = v.size;
          task = λ i t ge lt q. elim (dec_lt src i) [
            | yes later ↦ v.task i t (omega arith) lt q
            | no first ↦
                let at : src ≡ i = omega arith in
                let kept : get_or mip₂ i 0 ≡ get_or mip₁ i 0 = same₂ i (omega arith) in
                rw kept (
                  subst (λ k. IsHighest (follows ccg reg) (priority_of reg) k (get_or mip₁ k 0)) at
                    (best t (rw at q)))
          ];
          free = v.free;
        },
        λ i q. same₂ i (omega arith) ∙ same₁ i q,
      )

follows-contended :
    (ccg : CapabilityContentionGraph) (reg : Slots)
    → ((i j : ℕ) → has_edge ccg i j ≡ contended reg i j)
    → follows ccg reg ≡ contended reg
unfolding slot
follows-contended ccg reg same = fun_ext λ i. fun_ext λ j. elim (Bool-cases (contended reg i j)) [
  | inl c ↦
      let (l, h, at_i, at_j, con, ne) = contended_tasks reg i j c in
      let there : slot reg j ≡ some h = rw (at_j, slot) refl in rw (same i j, there, c) refl
  | inr c ↦ rw (same i j, c) refl
]

pub compute_mip_values_correct :
    (reg : Slots)
    → length reg ≡ max_tasks
    → (ccg : CapabilityContentionGraph) × (mip : List ℕ) × (build reg ≡ ok ccg)
      × (compute_mip_values ccg reg ≡ ok mip)
      × AreMip reg mip
unfolding compute_mip_values
compute_mip_values_correct reg size =
    let (ccg, builds, same, tasks, square) = build-has_edge reg size in
    let (mip, runs, v, kept) =
      mip_loop_ok ccg reg square size max_tasks 0 (replicate max_tasks 0) refl refl
        (λ i q. ground (arith, get_or-replicate {A = ℕ} max_tasks i 0 0)) in
    (ccg, mip, builds, runs, subst (λ e. Values e reg 0 mip) (follows-contended ccg reg same) v)
