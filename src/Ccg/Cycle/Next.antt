-- ===== src/Ccg/Cycle/Next.antt =====
-- The next successor of a node.
use ferret_os.Common.{
  ℕ, zero, suc, ◌+◌, ◌≤◌, ◌<◌, ◌≡◌, sym, true, false, Option, none, some, ◌==◌, arith, Bool-cases,
  inl, inr,
}
use ferret_os.Ccg.{Edges, edge}
use ferret_os.Ccg.Cycle.{next_edge}

-- What `next_edge` returns.
pub data Next (edges : Edges) (node left succ : ℕ) : Option ℕ → Type 0 where
  no_more :
      ((s : ℕ) → succ ≤ s → s < succ + left → edge edges node s ≡ false)
      → Next edges node left succ none
  first :
      (s : ℕ)
      → succ ≤ s
      → s < succ + left
      → edge edges node s ≡ true
      → ((t : ℕ) → succ ≤ t → t < s → edge edges node t ≡ false)
      → Next edges node left succ (some s)

pub next_edge-Next :
    (edges : Edges) (node left succ : ℕ)
    → Next edges node left succ (next_edge edges node left succ)
unfolding next_edge
next_edge-Next edges node zero succ = no_more (λ s lo hi. absurd (omega arith))
next_edge-Next edges node (suc left) succ = elim (Bool-cases (edge edges node succ)) [
  | inl h ↦ rw h (first succ (omega arith) (omega arith) h (λ t lo hi. absurd (omega arith)))
  | inr h ↦ rw h (later h (next_edge-Next edges node left (succ + 1)))
]
  where
    here_not :
        edge edges node succ ≡ false
        → (s : ℕ) → succ ≤ s
        → (succ + 1 ≤ s → edge edges node s ≡ false)
        → edge edges node s ≡ false
    here_not h s lo after = elim (Bool-cases (succ == s)) [
      | inl q ↦ let same : succ ≡ s = ground arith in rw (sym same) h
      | inr q ↦ after (ground arith)
    ]

    later :
        {o : Option ℕ}
        → edge edges node succ ≡ false
        → Next edges node left (succ + 1) o
        → Next edges node (suc left) succ o
    later h (no_more none_left) =
        no_more (λ s lo hi. here_not h s lo (λ lo'. none_left s lo' (omega arith)))
    later h (first s lo hi e before) =
        first s (omega arith) (omega arith) e
          (λ t lo' hi'. here_not h t lo' (λ lo''. before t lo'' hi'))
