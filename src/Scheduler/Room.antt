-- ===== src/Scheduler/Room.antt =====
-- There is room in the ready queue for a task that does not wait in it.
use ferret_os.Common.{
  ℕ, zero, suc, ◌+◌, ◌≤◌, ◌<◌, ◌≡◌, refl, ◌∙◌, Bool, false, List, [], ◌∷◌, length, ◌==◌,
  if◌then◌else◌, arith, dec_lt,
}
use ferret_os.Task.{Slots, max_tasks}
use ferret_os.Ccg.Populated.{slot}
use ferret_os.Queue.Fifo.{Waiter}
use ferret_os.Scheduler.Lookup.{is_ready, slot_beyond}
use ferret_os.Scheduler.Agrees.{waiting, Agrees}

total : ℕ → (ℕ → ℕ) → ℕ
total zero f = 0
total (suc n) f = f n + total n f

total-add : (n : ℕ) (f g : ℕ → ℕ) → total n (λ i. f i + g i) ≡ total n f + total n g
unfolding total
total-add zero f g = omega arith
total-add (suc n) f g = omega (arith, total-add n f g)

total-none : (n j : ℕ) → n ≤ j → total n (λ i. if j == i then 1 else 0) ≡ 0
unfolding total
total-none zero j h = refl
total-none (suc n) j h = ground (arith, total-none n j)

total-one : (n j : ℕ) → j < n → total n (λ i. if j == i then 1 else 0) ≡ 1
unfolding total
total-one zero j h = absurd (omega arith)
total-one (suc n) j h = elim (dec_lt j n) [
  | yes lt ↦ ground (arith, total-one n j lt)
  | no ge ↦ ground (arith, total-none n j)
]

total-zero : (n : ℕ) → total n (λ i. 0) ≡ 0
unfolding total
total-zero zero = refl
total-zero (suc n) = omega (arith, total-zero n)

total-waiting :
    (n : ℕ) (ws : List Waiter)
    → ((i : ℕ) → n ≤ i → waiting i ws ≡ 0)
    → total n (λ i. waiting i ws) ≡ length ws
unfolding waiting
total-waiting n [] h = total-zero n
total-waiting n (w ∷ ws) h =
    let low : w.task < n = elim (dec_lt w.task n) [
      | yes lt ↦ lt
      | no ge ↦ let g = h w.task (omega arith) in absurd (ground arith)
    ] in
    total-add n (λ i. if w.task == i then 1 else 0) (λ i. waiting i ws)
    ∙ omega
        (arith, total-one n w.task low, total-waiting n ws (λ i q. let g = h i q in omega arith))

total-le : (n : ℕ) (f : ℕ → ℕ) → ((i : ℕ) → f i ≤ 1) → total n f ≤ n
unfolding total
total-le zero f h = omega arith
total-le (suc n) f h = omega (arith, h n, total-le n f h)

total-lt : (n : ℕ) (f : ℕ → ℕ) (j : ℕ) → ((i : ℕ) → f i ≤ 1) → f j ≡ 0 → j < n → total n f < n
unfolding total
total-lt zero f j h e lt = absurd (omega arith)
total-lt (suc n) f j h e lt = elim (dec_lt j n) [
  | yes below ↦ omega (arith, h n, total-lt n f j h e below)
  | no last ↦
      let same : j ≡ n = omega arith in
      let e' : f n ≡ 0 = rw same at e in omega (arith, total-le n f h)
]

pub waiting_room :
    (slots : Slots) (ws : List Waiter) (active : ℕ → Bool) (i : ℕ)
    → Agrees slots ws active
    → length slots ≡ max_tasks
    → i < max_tasks
    → is_ready (slot slots i) ≡ false
    → length ws < max_tasks
waiting_room slots ws active i a size lt not_ready = omega (
  arith,
  total-waiting max_tasks ws (λ j q. a.waits j ∙ absent j q),
  total-lt max_tasks (λ j. waiting j ws) i (λ j. small j (a.waits j))
      (a.waits i ∙ rw not_ready refl) lt,
)
  where
    absent : (j : ℕ) → max_tasks ≤ j → ◌≡◌ {A = ℕ} (if is_ready (slot slots j) then 1 else 0) 0
    absent j q = rw (slot_beyond slots j (omega arith)) (unfold is_ready in refl)

    small : (j : ℕ) → waiting j ws ≡ (if is_ready (slot slots j) then 1 else 0) → waiting j ws ≤ 1
    small j h = ground arith
