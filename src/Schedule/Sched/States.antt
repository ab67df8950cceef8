-- ===== src/Schedule/Sched/States.antt =====
-- kern/schedule/sched.c: which states `schedule` leaves.
use hard_core.Prelude.{ℕ, ◌+◌, ◌≡◌, refl, ap, ◌∙◌, inl, inr, false, Option-cases, if-both}
use hard_core.Schedule.Sched.{
  Proc, is_runnable, SchedClass, Sched, set_proc, sched_class_dequeue, requeue, pick, run_next,
  schedule,
}
use hard_core.Schedule.Sched.Balance.{ClassLaws, enqueue-Frame, state_kept}

module _ {Q : Type 0} {c : SchedClass Q} (laws : ClassLaws c) where
  requeued : (s : Sched Q) (r : ℕ) → ((requeue c s).procs r).state ≡ (s.procs r).state
  unfolding requeue
  requeued s r =
      let v = s.procs s.current in
      let s1 = set_proc s.current (record v { need_resched = false }) s in
      let kept = state_kept s.procs s.current v.wait_state false v.runs r in
      if-both (λ (z : Sched Q). (z.procs r).state ≡ (s.procs r).state) (is_runnable v.state)
        (ap (λ (f : ℕ → Proc). (f r).state) (enqueue-Frame laws s.current s1).procs ∙ kept) kept

  picked_procs : (s : Sched Q) → (pick c s).1.procs ≡ s.procs
  unfolding pick sched_class_dequeue
  picked_procs s = elim (Option-cases (c.pick_next s.queue).0) [
    | inl e ↦ rw (e, pick) refl
    | inr (n, e) ↦ rw (e, pick) refl
  ]

  ran : (n : ℕ) (s : Sched Q) (r : ℕ) → ((run_next c (n, s)).procs r).state ≡ (s.procs r).state
  unfolding run_next
  ran n s r = let v = s.procs n in state_kept s.procs n v.wait_state v.need_resched (v.runs + 1) r

  -- `schedule` changes no state.
  pub schedule-state : (s : Sched Q) (r : ℕ) → ((schedule c s).procs r).state ≡ (s.procs r).state
  unfolding schedule
  schedule-state s r =
      let q = pick c (requeue c s) in
      ran q.0 q.1 r ∙ ap (λ (f : ℕ → Proc). (f r).state) (picked_procs (requeue c s)) ∙ requeued s r
