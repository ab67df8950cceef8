-- ===== src/Process/Pids/Moved.antt =====
-- kern/process/proc.c, `get_pid`: the numbers that a search passes over.
use hard_core.Prelude.{
  ℕ, ◌+◌, ◌≤◌, ◌<◌, ◌≡◌, refl, ◌⊎◌, inl, inr, ◌&&◌, List, [], ◌∷◌, arith, ltb, leb, ◌==◌,
  Bool-cases, ◌∈◌,
}
use hard_core.Process.Pids.{PidState, scan_proc, scan, On, On-map, On-go}

-- The search went from one number to another, and every number on the way is in use.
pub record Moved (pids : List ℕ) (n m : ℕ) : Type 0 where
  pub up : n ≤ m
  pub taken : (q : ℕ) → n ≤ q → q < m → q ∈ pids

pub record Skipped (pids : List ℕ) (n m : ℕ) : Type 0 where
  pub moved : Moved pids n m
  pub on : n < m

-- One process moves the search by a number at most, its own.
Step : ℕ → ℕ → ℕ → Type 0
Step p n m = (m ≡ n) ⊎ ((m ≡ n + 1) × (p ≡ n))

StepOn : ℕ → ℕ → ℕ → Type 0
StepOn p n m = (m ≡ n + 1) × (p ≡ n)

scan_proc-Step :
    (p : ℕ) (s : PidState)
    → On (λ r. Step p s.last_pid r.last_pid) (StepOn p s.last_pid) (scan_proc p s)
unfolding scan_proc On Step StepOn
scan_proc-Step p s = elim (Bool-cases (p == s.last_pid)) [
  | inl t ↦
      let same : p ≡ s.last_pid = ground arith in
      rw (t) (elim (Bool-cases (leb s.next_safe (s.last_pid + 1))) [
        | inl u ↦ rw (u) (refl, same)
        | inr u ↦ rw (u) (inr (refl, same))
      ])
  | inr n ↦ rw (n) (elim (Bool-cases (ltb s.last_pid p && ltb p s.next_safe)) [
    | inl u ↦ rw (u) (inl refl)
    | inr u ↦ rw (u) (inl refl)
  ])
]

Moved-Step : (p n m k : ℕ) (pids : List ℕ) → Step p n m → Moved pids m k → Moved (p ∷ pids) n k
unfolding Step
Moved-Step p n m k pids (inl e) h =
    let u = h.up in record { up = omega arith; taken = λ q l o. ground (arith, h.taken q) }
Moved-Step p n m k pids (inr (e, f)) h =
    let u = h.up in
    record {
      up = omega arith;
      taken = λ q l o. elim (Bool-cases (q == p)) [
        | inl t ↦ rw (t) refl
        | inr t ↦ ground (arith, h.taken q)
      ];
    }

Step-up : (p n m : ℕ) → Step p n m → n ≤ m
unfolding Step
Step-up p n m (inl e) = omega arith
Step-up p n m (inr (e, f)) = omega arith

Skipped-here : (p n m : ℕ) (pids : List ℕ) → StepOn p n m → Skipped (p ∷ pids) n m
unfolding Step StepOn
Skipped-here p n m pids h =
    let e = h.0 in
    record {
      moved =
          Moved-Step p n m m pids (inr h)
            (record { up = omega arith; taken = λ q l u. absurd (omega arith) });
      on = omega arith;
    }

Skipped-Step :
    (p n m k : ℕ) (pids : List ℕ) → Step p n m → Skipped pids m k → Skipped (p ∷ pids) n k
Skipped-Step p n m k pids h s =
    let u = Step-up p n m h in
    let o = s.on in record { moved = Moved-Step p n m k pids h s.moved; on = omega arith }

pub scan-Moved :
    (pids : List ℕ) (s : PidState)
    → On (λ r. Moved pids s.last_pid r.last_pid) (Skipped pids s.last_pid) (scan pids s)
unfolding scan On
scan-Moved [] s = record { up = omega arith; taken = λ q l u. absurd (omega arith) }
scan-Moved (p ∷ pids) s =
    On-go (λ r. Step p s.last_pid r.last_pid) (StepOn p s.last_pid)
      (λ r. Moved (p ∷ pids) s.last_pid r.last_pid) (Skipped (p ∷ pids) s.last_pid) (scan_proc p s)
      (λ r. scan pids r) (scan_proc-Step p s) (λ n h. Skipped-here p s.last_pid n pids h)
      (λ r h.
        On-map (scan pids r) (λ n k. Skipped-Step p s.last_pid r.last_pid n pids h k)
          (λ r' k. Moved-Step p s.last_pid r.last_pid r'.last_pid pids h k) (scan-Moved pids r))
