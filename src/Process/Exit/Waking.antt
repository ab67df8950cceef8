-- ===== src/Process/Exit/Waking.antt =====
-- kern/process/proc.c, `do_exit`: waking a process that waits for a child.
use hard_core.Prelude.{
  ℕ, ◌≡◌, refl, sym, ap, ◌∙◌, subst, inl, inr, false, Option, some, arith, ◌==◌, Bool-cases,
  bind-some, if-both,
}
use hard_core.Process.State.{Kernel}
use hard_core.Process.Exit.{wt_child, wake_waiting}
use hard_core.Schedule.Sched.{
  proc_runnable, is_runnable, is_zombie, Proc, SchedClass, Sched, write, set_proc, make_runnable,
  wakeup_proc,
}
use hard_core.Schedule.Sched.Balance.{ClassLaws, IsBalanced, enqueue-Frame, wakeup_proc-IsBalanced}

module _ {Q : Type 0} {c : SchedClass Q} (laws : ClassLaws c) where
  -- What a wake-up may change.
  pub record Woken (s s' : Sched Q) : Type 0 where
    pub live : (x : ℕ) → is_zombie (s'.procs x).state ≡ is_zombie (s.procs x).state
    pub current : s'.current ≡ s.current
    pub idleproc : s'.idleproc ≡ s.idleproc
    pub balanced : IsBalanced laws s → IsBalanced laws s'

  pub woken_refl : (s : Sched Q) → Woken s s
  woken_refl s = record { live = λ x. refl; current = refl; idleproc = refl; balanced = λ b. b }

  pub woken_trans : (s t u : Sched Q) → Woken s t → Woken t u → Woken s u
  woken_trans s t u a b = record {
    live = λ x. b.live x ∙ a.live x;
    current = b.current ∙ a.current;
    idleproc = b.idleproc ∙ a.idleproc;
    balanced = λ z. b.balanced (a.balanced z);
  }

  now_live :
      (p x : ℕ) (f : ℕ → Proc) (v : Proc)
      → is_zombie (f p).state ≡ false
      → is_zombie v.state ≡ false
      → is_zombie (write f p v x).state ≡ is_zombie (f x).state
  now_live p x f v e n = elim (Bool-cases (p == x)) [
    | inl t ↦
        let same : p ≡ x = ground arith in
        rw (t) (n ∙ sym (subst (λ z. is_zombie (f z).state ≡ false) same e))
    | inr o ↦ rw (o) refl
  ]

  runnable_live :
      (p : ℕ) (s : Sched Q)
      → is_zombie (s.procs p).state ≡ false
      → (x : ℕ) → is_zombie ((make_runnable c p s).procs x).state ≡ is_zombie (s.procs x).state
  unfolding make_runnable
  runnable_live p s e x =
      let v : Proc = record (s.procs p) { state = proc_runnable; wait_state = 0 } in
      let s1 = set_proc p v s in
      let fr = enqueue-Frame laws p s1 in
      let here = now_live p x s.procs v e refl in
      if-both (λ (z : Sched Q). is_zombie (z.procs x).state ≡ is_zombie (s.procs x).state)
        (p == s.current) here (ap (λ (g : ℕ → Proc). is_zombie (g x).state) fr.procs ∙ here)

  runnable_frame :
      (p : ℕ) (s : Sched Q)
      → ((make_runnable c p s).current ≡ s.current) × ((make_runnable c p s).idleproc ≡ s.idleproc)
  unfolding make_runnable
  runnable_frame p s =
      let v : Proc = record (s.procs p) { state = proc_runnable; wait_state = 0 } in
      let fr = enqueue-Frame laws p (set_proc p v s) in
      if-both (λ (z : Sched Q). (z.current ≡ s.current) × (z.idleproc ≡ s.idleproc))
        (p == s.current) (refl, refl) (fr.current, fr.idleproc)

  -- A process that is no zombie can be woken.
  pub wakeup-Woken :
      (p : ℕ) (s : Sched Q)
      → is_zombie (s.procs p).state ≡ false
      → (s' : Sched Q) × (wakeup_proc c p s ≡ some s') × Woken s s'
  unfolding wakeup_proc
  wakeup-Woken p s e = elim (Bool-cases (is_runnable (s.procs p).state)) [
    | inl t ↦ (s, rw (e) (rw (t) refl), woken_refl s)
    | inr n ↦
        let s' = make_runnable c p s in
        let gives : wakeup_proc c p s ≡ some s' = rw (e) (rw (n) refl) in
        let (cu, id) = runnable_frame p s in
        (
          s',
          gives,
          record {
            live = runnable_live p s e;
            current = cu;
            idleproc = id;
            balanced = wakeup_proc-IsBalanced laws p s gives;
          },
        )
  ]

  pub wakes_waiting :
      {W : Type 0} (p : ℕ) (k : Kernel Q W)
      → is_zombie (k.sched.procs p).state ≡ false
      → (s' : Sched Q) × (wake_waiting c p k ≡ some (record k { sched = s' })) × Woken k.sched s'
  unfolding wake_waiting
  wakes_waiting {W = W} p k e = elim (Bool-cases ((k.sched.procs p).wait_state == wt_child)) [
    | inl t ↦
        let (s', g, w) = wakeup-Woken p k.sched e in
        let next : Sched Q → Option (Kernel Q W) = λ s. some (record k { sched = s }) in
        (s', rw (t) (bind-some (wakeup_proc c p k.sched) next g), w)
    | inr n ↦ (k.sched, rw (n) refl, woken_refl k.sched)
  ]
