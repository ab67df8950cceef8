-- ===== src/Schedule/Sleep/Awake.antt =====
-- kern/schedule/sched.c: whom the ticks of the clock make runnable.
use hard_core.Prelude.{
  ℕ, ◌+◌, ◌-◌, ◌≡◌, refl, sym, ap, ◌∙◌, subst, ◌⊎◌, inl, inr, Bool, true, not, ◌||◌, Option, none,
  some, List, [], ◌∷◌, arith, ◌==◌, if◌then◌else◌, Bool-cases, Option-cases, ◌>>=◌, past_assert,
  if-both, past_bind,
}
use hard_core.Schedule.Timers.{Timer, count_down}
use hard_core.Schedule.Sched.{
  SchedClass, Sched, set_proc, is_zombie, is_runnable, proc_runnable, interruptible,
  sched_class_enqueue, sched_class_dequeue, sched_class_proc_tick, make_runnable, wakeup_proc,
  requeue, pick, run_next, schedule, wake_due, fire, run_timer_list,
}
use hard_core.Schedule.Sched.Balance.{state_kept}
use hard_core.Schedule.Sleep.Due.{DueIn, DueIn-count_down}

module _ {Q : Type 0} where
  abbrev pub IsAwake : ℕ → Sched Q → Type 0
  IsAwake p s = is_runnable (s.procs p).state ≡ true

module _ {Q : Type 0} (c : SchedClass Q) where
  made-IsAwake :
      (p q : ℕ) (s : Sched Q) → ((p == q) ≡ true) ⊎ IsAwake q s → IsAwake q (make_runnable c p s)
  unfolding make_runnable sched_class_enqueue
  made-IsAwake p q s h =
      let s' = set_proc p (record (s.procs p) { state = proc_runnable; wait_state = 0 }) s in
      let up : IsAwake q s' = elim (Bool-cases (p == q)) [
        | inl t ↦ rw (t) refl
        | inr n ↦ rw (n) (elim h [ inl t ↦ absurd (cc) | inr a ↦ a ])
      ] in
      if-both (IsAwake q) (p == s.current) up (if-both (IsAwake q) (p == s.idleproc) up up)

  made_timers : (p : ℕ) (s : Sched Q) → (make_runnable c p s).timers ≡ s.timers
  unfolding make_runnable sched_class_enqueue
  made_timers p s =
      let Same : Sched Q → Type 0 = λ z. z.timers ≡ s.timers in
      if-both Same (p == s.current) refl (if-both Same (p == s.idleproc) refl refl)

  -- What a step that wakes process `p` makes of the others.
  pub record Woken (p : ℕ) (s s' : Sched Q) : Type 0 where
    pub timers : s'.timers ≡ s.timers
    pub self : IsAwake p s'
    pub others : (q : ℕ) → IsAwake q s → IsAwake q s'

  pub wakeup_proc-Woken :
      (p : ℕ) (s : Sched Q) {s' : Sched Q} → wakeup_proc c p s ≡ some s' → Woken p s s'
  unfolding wakeup_proc
  wakeup_proc-Woken p s {s' = s'} e =
      let e1 = past_assert (not (is_zombie (s.procs p).state)) _ e in
      let same : (if is_runnable (s.procs p).state then s else make_runnable c p s) ≡ s' =
        ap (λ (o : Option (Sched Q)). elim o [ none ↦ s' | some x ↦ x ]) e1 in
      subst (Woken p s) same (elim (Bool-cases (is_runnable (s.procs p).state)) [
        | inl t ↦ rw (t) (record { timers = refl; self = t; others = λ q a. a })
        | inr n ↦
            let self : (p == p) ≡ true = ground arith in
            rw (n) (record {
              timers = made_timers p s;
              self = made-IsAwake p p s (inl self);
              others = λ q a. made-IsAwake p q s (inr a);
            })
      ])

  wake_due-Woken : (p : ℕ) (s : Sched Q) {s' : Sched Q} → wake_due c p s ≡ some s' → Woken p s s'
  unfolding wake_due
  wake_due-Woken p s e =
      wakeup_proc-Woken p s (past_assert (interruptible (s.procs p).wait_state) _ e)

  -- What the loop over the timers makes of the processes.
  record Fired (p : ℕ) (ts : List Timer) (s : Sched Q) (r : List Timer × Sched Q) : Type 0 where
    pub kept : IsAwake p s → IsAwake p r.1
    pub now : DueIn p 0 ts → IsAwake p r.1
    pub later : (n : ℕ) → DueIn p (n + 1) ts → DueIn p (n + 1) r.0

  fire-Fired :
      (p : ℕ) (ts : List Timer) (s : Sched Q) {r : List Timer × Sched Q}
      → fire c ts s ≡ some r
      → Fired p ts s r
  unfolding fire DueIn
  fire-Fired p [] s {r = r} e =
      let same : ([], s) ≡ r =
        ap (λ (o : Option (List Timer × Sched Q)). elim o [ none ↦ r | some x ↦ x ]) e in
      subst (Fired p [] s) same
        (record { kept = λ a. a; now = λ d. absurd d; later = λ n d. absurd d })
  fire-Fired p (t ∷ ts) s {r = r} e =
      let choose : Bool → Option (List Timer × Sched Q) =
        λ z. if z then (wake_due c t.proc s >>= λ s'. fire c ts s') else some (t ∷ ts, s) in
      elim (Bool-cases (t.expires == 0)) [
        | inl z ↦
            let z' : t.expires ≡ 0 = ground arith in
            let (s1, e1, e2) =
              past_bind (wake_due c t.proc s) (λ s'. fire c ts s') (sym (ap choose z) ∙ e) in
            let w = wake_due-Woken t.proc s e1 in
            let f = fire-Fired p ts s1 e2 in
            record {
              kept = λ a. f.kept (w.others p a);
              now = λ d. elim d [
                | inl (a, b) ↦ f.kept (subst (λ q. IsAwake q s1) a w.self)
                | inr (l, d') ↦
                    let m : 0 - t.expires ≡ 0 = omega arith in
                    f.now (subst (λ k. DueIn p k ts) m d')
              ];
              later = λ n d. elim d [
                | inl (a, b) ↦ absurd (omega arith)
                | inr (l, d') ↦
                    let m : n + 1 - t.expires ≡ n + 1 = omega arith in
                    f.later n (subst (λ k. DueIn p k ts) m d')
              ];
            }
        | inr n ↦
            let same : (t ∷ ts, s) ≡ r =
              ap (λ (o : Option (List Timer × Sched Q)). elim o [ none ↦ r | some x ↦ x ])
                (sym (ap choose n) ∙ e) in
            subst (Fired p (t ∷ ts) s) same (record {
              kept = λ a. a;
              now = λ d. elim d [
                | inl (a, b) ↦ absurd (ground arith)
                | inr (l, d') ↦ absurd (ground arith)
              ];
              later = λ n d. d;
            })
      ]

  ticked : (p q : ℕ) (s : Sched Q) → IsAwake q s → IsAwake q (sched_class_proc_tick c p s)
  unfolding sched_class_proc_tick
  ticked p q s a =
      let v = s.procs p in
      let r = c.proc_tick p s.queue in
      let again : Bool → Sched Q = λ n. set_proc p (record v { need_resched = n }) s in
      let kept : (n : Bool) → IsAwake q (again n) =
        λ n. ap is_runnable (state_kept s.procs p v.wait_state n v.runs q) ∙ a in
      if-both (IsAwake q) (p == s.idleproc) (kept true) (kept (v.need_resched || r.0))

  ticked_timers : (p : ℕ) (s : Sched Q) → (sched_class_proc_tick c p s).timers ≡ s.timers
  unfolding sched_class_proc_tick
  ticked_timers p s = if-both (λ (z : Sched Q). z.timers ≡ s.timers) (p == s.idleproc) refl refl

  -- A tick wakes the processes that are due in one tick, and brings the others nearer.
  pub run_timer_list-DueIn :
      (p : ℕ) (s : Sched Q) {s' : Sched Q}
      → run_timer_list c s ≡ some s'
      → (DueIn p 1 s.timers → IsAwake p s')
        × ((n : ℕ) → DueIn p (n + 2) s.timers → DueIn p (n + 1) s'.timers)
  unfolding run_timer_list
  run_timer_list-DueIn p s {s' = s'} e =
      let (counted, e1, e2) = past_bind (count_down s.timers) _ e in
      let (r, e3, e4) = past_bind (fire c counted s) _ e2 in
      let f = fire-Fired p counted s e3 in
      let z = record r.1 { timers = r.0 } in
      let same : sched_class_proc_tick c s.current z ≡ s' =
        ap (λ (o : Option (Sched Q)). elim o [ none ↦ s' | some x ↦ x ]) e4 in
      (
        λ d.
            subst (IsAwake p) same
              (ticked s.current p z (f.now (DueIn-count_down p 0 s.timers counted e1 d))),
        λ n d.
            subst (λ (x : Sched Q). DueIn p (n + 1) x.timers) same
              (subst (DueIn p (n + 1)) (sym (ticked_timers s.current z)) (
                f.later n (
                  DueIn-count_down p (n + 1) s.timers counted e1
                    (subst (λ k. DueIn p k s.timers) (omega arith) d)))),
      )

  requeued_timers : (s : Sched Q) → (requeue c s).timers ≡ s.timers
  unfolding requeue sched_class_enqueue
  requeued_timers s =
      let Same : Sched Q → Type 0 = λ z. z.timers ≡ s.timers in
      if-both Same (is_runnable (s.procs s.current).state)
        (if-both Same (s.current == s.idleproc) refl refl) refl

  picked_timers : (s : Sched Q) → (pick c s).1.timers ≡ s.timers
  unfolding pick sched_class_dequeue
  picked_timers s = elim (Option-cases (c.pick_next s.queue).0) [
    | inl e ↦ rw (e, pick) refl
    | inr (n, e) ↦ rw (e, pick) refl
  ]

  pub schedule_timers : (s : Sched Q) → (schedule c s).timers ≡ s.timers
  unfolding schedule run_next
  schedule_timers s = picked_timers (requeue c s) ∙ requeued_timers s
