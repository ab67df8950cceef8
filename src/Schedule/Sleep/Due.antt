-- ===== src/Schedule/Sleep/Due.antt =====
-- When the process of a timer is due: kern/schedule/sched.c, the list of timers.
use hard_core.Prelude.{
  ℕ, ◌+◌, ◌-◌, ◌≤◌, ◌≡◌, refl, sym, ap, subst, ◌⊎◌, inl, inr, false, not, ◌&&◌, Option, none, some,
  List, [], ◌∷◌, arith, ltb, ◌==◌, Bool-cases, ◌>>◌, assert, past_assert,
}
use hard_core.Schedule.Timers.{Timer, place, add_timer, linked, count_down}

-- Process `p` has a timer that is due in `n` ticks.
unfoldable pub DueIn : ℕ → ℕ → List Timer → Type 0
DueIn p n [] = ⊥
DueIn p n (t ∷ ts) =
    ((t.proc ≡ p) × (t.expires ≡ n)) ⊎ ((t.expires ≤ n) × DueIn p (n - t.expires) ts)

DueIn-place : (t : Timer) (ts : List Timer) → DueIn t.proc t.expires (place t ts)
unfolding DueIn place
DueIn-place t [] = inl (refl, refl)
DueIn-place t (n ∷ ns) = elim (Bool-cases (ltb t.expires n.expires)) [
  | inl h ↦ rw (h) (inl (refl, refl))
  | inr h ↦
      rw (h) (inr (ground arith, DueIn-place (record t { expires = t.expires - n.expires }) ns))
]

DueIn-kept : (p n : ℕ) (t : Timer) (ts : List Timer) → DueIn p n ts → DueIn p n (place t ts)
unfolding DueIn place
DueIn-kept p n t [] d = absurd d
DueIn-kept p n t (x ∷ xs) d = elim (Bool-cases (ltb t.expires x.expires)) [
  | inl h ↦
      let same : x.expires ≤ n → n - t.expires - (x.expires - t.expires) ≡ n - x.expires =
        λ l. ground arith in
      rw (h) (elim d [
        | inl (a, b) ↦ inr (ground arith, inl (a, omega arith))
        | inr (l, r) ↦
            inr (ground arith, inr (ground arith, subst (λ k. DueIn p k xs) (sym (same l)) r))
      ])
  | inr h ↦ rw (h) (elim d [
    | inl e ↦ inl e
    | inr (l, r) ↦
        inr (l, DueIn-kept p (n - x.expires) (record t { expires = t.expires - x.expires }) xs r)
  ])
]

-- `add_timer`: its process is due in the ticks of the timer, and all others when they were.
pub DueIn-add_timer :
    (t : Timer) (ts new : List Timer)
    → add_timer t ts ≡ some new
    → DueIn t.proc t.expires new × ((p n : ℕ) → DueIn p n ts → DueIn p n new)
unfolding add_timer
DueIn-add_timer t ts new e =
    let e1 = past_assert (ltb 0 t.expires && not (t.proc == 0)) _ e in
    let e2 = past_assert (not (linked t.ptr ts)) _ e1 in
    let same : place t ts ≡ new =
      ap (λ (o : Option (List Timer)). elim o [ none ↦ new | some x ↦ x ]) e2 in
    subst (λ (l : List Timer). DueIn t.proc t.expires l × ((p n : ℕ) → DueIn p n ts → DueIn p n l))
      same (DueIn-place t ts, λ p n d. DueIn-kept p n t ts d)

-- A tick brings every process one tick nearer.
pub DueIn-count_down :
    (p n : ℕ) (ts new : List Timer) → count_down ts ≡ some new → DueIn p (n + 1) ts → DueIn p n new
unfolding DueIn count_down
DueIn-count_down p n [] new e d = absurd d
DueIn-count_down p n (t ∷ ts) new e d =
    let counted = record t { expires = t.expires - 1 } ∷ ts in
    elim (Bool-cases (t.expires == 0)) [
      | inl z ↦
          let stuck : (assert false >> some counted) ≡ some new =
            subst (λ b. (assert (not b) >> some counted) ≡ some new) z e in
          absurd (cc)
      | inr z ↦
          let e1 = past_assert (not (t.expires == 0)) (some counted) e in
          let same : counted ≡ new =
            ap (λ (o : Option (List Timer)). elim o [ none ↦ new | some x ↦ x ]) e1 in
          subst (DueIn p n) same (elim d [
            | inl (a, b) ↦ inl (a, omega arith)
            | inr (l, r) ↦
                let k : n + 1 - t.expires ≡ n - (t.expires - 1) = ground arith in
                inr (ground arith, subst (λ m. DueIn p m ts) k r)
          ])
    ]
