-- ===== src/Schedule/Sched/Clock.antt =====
-- `run_timer_list` and the run queue.
use hard_core.Prelude.{
  arith, refl, false, if-both, not, ℕ, ◌≡◌, sym, ap, ◌∙◌, subst, inl, inr, Bool, true, not, ◌&&◌,
  ◌||◌, Option, none, some, List, [], ◌∷◌, ◌==◌, if◌then◌else◌, Bool-cases, ◌>>=◌, past_assert,
  past_bind,
}
use hard_core.Schedule.Timers.{Timer, count_down}
use hard_core.Schedule.Sched.{
  SchedClass, Sched, set_proc, sched_class_proc_tick, wake_due, fire, run_timer_list, interruptible,
  make_runnable, wakeup_proc, sched_class_enqueue, is_zombie, is_runnable,
}
use hard_core.Schedule.Sched.Balance.{
  ClassLaws, IsBalanced, waits, state_kept, wakeup_proc-IsBalanced,
}

module _ {Q : Type 0} {c : SchedClass Q} (laws : ClassLaws c) where
  made_current : (p : ℕ) (s : Sched Q) → (make_runnable c p s).current ≡ s.current
  unfolding make_runnable sched_class_enqueue
  made_current p s =
      let Same : Sched Q → Type 0 = λ z. z.current ≡ s.current in
      if-both Same (p == s.current) refl (if-both Same (p == s.idleproc) refl refl)

  -- Waking a process does not change which one runs.
  woken_current :
      (p : ℕ) (s : Sched Q) {s' : Sched Q} → wakeup_proc c p s ≡ some s' → s'.current ≡ s.current
  unfolding wakeup_proc
  woken_current p s {s' = s'} e =
      let e1 = past_assert (not (is_zombie (s.procs p).state)) _ e in
      let same : (if is_runnable (s.procs p).state then s else make_runnable c p s) ≡ s' =
        ap (λ (o : Option (Sched Q)). elim o [ none ↦ s' | some x ↦ x ]) e1 in
      let Same : Sched Q → Type 0 = λ z. z.current ≡ s.current in
      subst Same same (if-both Same (is_runnable (s.procs p).state) refl (made_current p s))

  fire-IsBalanced :
      (ts : List Timer) (s : Sched Q) {r : List Timer × Sched Q}
      → fire c ts s ≡ some r
      → IsBalanced laws s
      → IsBalanced laws r.1 × (r.1.current ≡ s.current)
  unfolding fire wake_due
  fire-IsBalanced [] s {r = r} e b =
      let same : s ≡ r.1 =
        ap (λ (o : Option (List Timer × Sched Q)). elim o [ none ↦ s | some x ↦ x.1 ]) e in
      subst (λ (z : Sched Q). IsBalanced laws z × (z.current ≡ s.current)) same (b, refl)
  fire-IsBalanced (t ∷ ts) s {r = r} e b =
      let choose : Bool → Option (List Timer × Sched Q) =
        λ z. if z then (wake_due c t.proc s >>= λ s'. fire c ts s') else some (t ∷ ts, s) in
      elim (Bool-cases (t.expires == 0)) [
        | inl z ↦
            let step =
              past_bind (wake_due c t.proc s) (λ s'. fire c ts s') (sym (ap choose z) ∙ e) in
            let woken = past_assert (interruptible (s.procs t.proc).wait_state) _ step.1 in
            let rest =
              fire-IsBalanced ts step.0 step.2 (wakeup_proc-IsBalanced laws t.proc s woken b) in
            (rest.0, rest.1 ∙ woken_current t.proc s woken)
        | inr n ↦
            let same : s ≡ r.1 =
              ap (λ (o : Option (List Timer × Sched Q)). elim o [ none ↦ s | some x ↦ x.1 ])
                (sym (ap choose n) ∙ e) in
            subst (λ (z : Sched Q). IsBalanced laws z × (z.current ≡ s.current)) same (b, refl)
      ]

  with_timers :
      (l : List Timer) (s : Sched Q) → IsBalanced laws s → IsBalanced laws (record s { timers = l })
  unfolding IsBalanced
  with_timers l s b = b

  proc_tick-IsBalanced :
      (p : ℕ) (s : Sched Q)
      → p ≡ s.current
      → IsBalanced laws s
      → IsBalanced laws (sched_class_proc_tick c p s)
  unfolding sched_class_proc_tick IsBalanced
  proc_tick-IsBalanced p s runs b =
      let v = s.procs p in
      let tick = c.proc_tick p s.queue in
      let again : Bool → Sched Q = λ n. set_proc p (record v { need_resched = n }) s in
      let choose : Bool → Sched Q = λ z.
        if z then again true else record (again (v.need_resched || tick.0)) { queue = tick.1 } in
      let kept : (n : Bool) (r : ℕ) → waits (again n) r ≡ waits s r = λ n r.
        ap (λ x. is_runnable x && not (r == s.idleproc))
          (state_kept s.procs p v.wait_state n v.runs r) in
      let Fine : Sched Q → Type 0 = λ k.
        laws.valid k.queue
        × ((r : ℕ) → laws.queued r k.queue ≡ (waits k r && not (r == k.current))) in
      let free : laws.queued p s.queue ≡ false = b.1 p ∙ ground arith in
      let after = laws.charged p s.queue b.0 free in
      elim (Bool-cases (p == s.idleproc)) [
        | inl t ↦
            subst Fine (sym (ap choose t))
              (b.0, λ r. b.1 r ∙ ap (λ x. x && not (r == s.current)) (sym (kept true r)))
        | inr f ↦ subst Fine (sym (ap choose f)) (
          after.0,
          λ r.
              after.1 r
              ∙ b.1 r
              ∙ ap (λ x. x && not (r == s.current)) (sym (kept (v.need_resched || tick.0) r)),
        )
      ]

  -- With a scheduling class that keeps its laws, a tick of the clock that fails no assertion keeps
  -- the run queue balanced.
  pub run_timer_list-IsBalanced :
      (s : Sched Q) {s' : Sched Q}
      → run_timer_list c s ≡ some s'
      → IsBalanced laws s
      → IsBalanced laws s'
  unfolding run_timer_list
  run_timer_list-IsBalanced s {s' = s'} e b =
      let counted = past_bind (count_down s.timers) _ e in
      let fired = past_bind (fire c counted.0 s) _ counted.2 in
      let all = fire-IsBalanced counted.0 s fired.1 b in
      let same : sched_class_proc_tick c s.current (record fired.0.1 { timers = fired.0.0 }) ≡ s' =
        ap (λ (o : Option (Sched Q)). elim o [ none ↦ s' | some x ↦ x ]) fired.2 in
      subst (IsBalanced laws) same
        (proc_tick-IsBalanced s.current _ (sym all.1) (with_timers fired.0.0 fired.0.1 all.0))
