-- ===== src/Schedule/Sleep/Runs.antt =====
-- kern/process/proc.c, `do_sleep`: a run of the system up to the tick that ends the sleep.
use hard_core.Prelude.{
  ℕ, ◌+◌, ◌≡◌, sym, ap, ◌∙◌, subst, inl, inr, Bool, false, Option, none, some, List, [], ◌∷◌, arith,
  ◌==◌, if◌then◌else◌, Bool-cases, ◌>>=◌, past_bind,
}
use hard_core.Schedule.Timers.{Timer, add_timer}
use hard_core.Schedule.Sched.{
  proc_sleeping, SchedClass, Sched, set_proc, wakeup_proc, schedule, run_timer_list,
}
use hard_core.Schedule.Sleep.{
  wt_timer, Event, tick, switch, wake, sleep, ticks, do_sleep, step, run,
}
use hard_core.Schedule.Sleep.Due.{DueIn, DueIn-add_timer}
use hard_core.Schedule.Sleep.Awake.{
  IsAwake, wakeup_proc-Woken, run_timer_list-DueIn, schedule_timers,
}

module _ {Q : Type 0} (c : SchedClass Q) where
  -- Whoever goes to sleep is due in its ticks, and all others when they were.
  do_sleep-DueIn :
      (a time : ℕ) (s : Sched Q) {s' : Sched Q}
      → do_sleep c a time s ≡ some s'
      → ((time == 0) ≡ false → DueIn s.current time s'.timers)
        × ((p n : ℕ) → DueIn p n s.timers → DueIn p n s'.timers)
  unfolding do_sleep
  do_sleep-DueIn a time s {s' = s'} e =
      let v = s.procs s.current in
      let asleep =
        set_proc s.current (record v { state = proc_sleeping; wait_state = wt_timer }) s in
      let t : Timer = record { ptr = a; expires = time; proc = s.current } in
      let rest : List Timer → Option (Sched Q) =
        λ ts. some (schedule c (record asleep { timers = ts })) in
      let choose : Bool → Option (Sched Q) =
        λ b. if b then some s else (add_timer t s.timers >>= rest) in
      let value : Option (Sched Q) → Sched Q = λ o. elim o [ none ↦ s' | some x ↦ x ] in
      elim (Bool-cases (time == 0)) [
        | inl z ↦
            let same : s ≡ s' = ap value (sym (ap choose z) ∙ e) in
            (λ n. absurd (cc), λ p n d. subst (λ (x : Sched Q). DueIn p n x.timers) same d)
        | inr z ↦
            let (ts, e1, e2) = past_bind (add_timer t s.timers) rest (sym (ap choose z) ∙ e) in
            let d = DueIn-add_timer t s.timers ts e1 in
            let same : ts ≡ s'.timers =
              sym (schedule_timers c (record asleep { timers = ts }))
              ∙ ap (λ (x : Sched Q). x.timers) (ap value e2) in
            (
              λ n. subst (DueIn s.current time) same d.0,
              λ p n h. subst (DueIn p n) same (d.1 p n h),
            )
      ]

  -- Up to the tick at which it is due, a process is due at the same tick after any run.
  run-DueIn :
      (p : ℕ) (es : List Event) (s : Sched Q) {s' : Sched Q}
      → run c es s ≡ some s'
      → DueIn p (ticks es + 1) s.timers
      → DueIn p 1 s'.timers
  unfolding run ticks step
  run-DueIn p [] s {s' = s'} e d =
      let same : s ≡ s' = ap (λ (o : Option (Sched Q)). elim o [ none ↦ s' | some x ↦ x ]) e in
      subst (λ (x : Sched Q). DueIn p 1 x.timers) same d
  run-DueIn p (tick ∷ es) s e d =
      let (s1, e1, e2) = past_bind (run_timer_list c s) (λ x. run c es x) e in
      let two : ticks es + 1 + 1 ≡ ticks es + 2 = omega arith in
      run-DueIn p es s1 e2
        ((run_timer_list-DueIn c p s e1).1 (ticks es) (subst (λ k. DueIn p k s.timers) two d))
  run-DueIn p (switch ∷ es) s e d =
      run-DueIn p es (schedule c s) e (subst (DueIn p (ticks es + 1)) (sym (schedule_timers c s)) d)
  run-DueIn p (wake q ∷ es) s e d =
      let (s1, e1, e2) = past_bind (wakeup_proc c q s) (λ x. run c es x) e in
      run-DueIn p es s1 e2
        (subst (DueIn p (ticks es + 1)) (sym (wakeup_proc-Woken c q s e1).timers) d)
  run-DueIn p (sleep a time ∷ es) s e d =
      let (s1, e1, e2) = past_bind (do_sleep c a time s) (λ x. run c es x) e in
      run-DueIn p es s1 e2 ((do_sleep-DueIn a time s e1).1 p (ticks es + 1) d)

  -- A process calls `do_sleep` for some ticks, and a run follows that returns and has one tick
  -- fewer than those, with switches, wakings and other calls of `do_sleep` up to their `schedule`
  -- at any place, and with no timer taken out early. The next tick, when it returns, leaves the
  -- process runnable.
  pub do_sleep_lem :
      (a time : ℕ) (es : List Event) (s s1 s2 s3 : Sched Q)
      → do_sleep c a time s ≡ some s1
      → run c es s1 ≡ some s2
      → ticks es + 1 ≡ time
      → run_timer_list c s2 ≡ some s3
      → IsAwake s.current s3
  do_sleep_lem a time es s s1 s2 s3 slept ran last ticked =
      let some_ticks : (time == 0) ≡ false = ground arith in
      let d = (do_sleep-DueIn a time s slept).0 some_ticks in
      (run_timer_list-DueIn c s.current s2 ticked).0
        (run-DueIn s.current es s1 ran (subst (λ k. DueIn s.current k s1.timers) (sym last) d))
