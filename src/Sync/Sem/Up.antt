-- ===== src/Sync/Sem/Up.antt =====
-- `up` on a valid semaphore.
use hard_core.Prelude.{
  ℕ, ◌+◌, ◌≡◌, refl, sym, ap, ◌∙◌, subst, inl, inr, true, ◌||◌, Option, some, List, [], ◌∷◌, arith,
  ◌==◌, if◌then◌else◌, has, Distinct, ◌>>=◌, ◌>>◌, assert, bind-some,
}
use hard_core.Schedule.Sched.{
  Proc, proc_sleeping, proc_runnable, SchedClass, Sched, write, make_runnable,
}
use hard_core.Sync.Wait.{
  Wait, Waits, wt_ksem, erase, wait_queue_del, wait_queue_first, wake, wakeup_wait,
}
use hard_core.Sync.Sem.{Sem, up}
use hard_core.Sync.Sem.Asleep.{
  waiting, AllAsleep, IsValid, write_self, AllAsleep-write, waiting-write, procs-make_runnable,
  wakes,
}

module _ {Q : Type 0} (c : SchedClass Q) where
  -- What `up` comes to.
  pub data Upped (s : Sem Q) (run : Option (Sem Q)) : Type 0 where
    gave :
        s.wait_queue.queue ≡ []
        → run ≡ some (record s { value = s.value + 1 })
        → IsValid (record s { value = s.value + 1 })
        → Upped s run
    woke :
        (w : ℕ) (ws : List ℕ) (s' : Sem Q)
        → s.wait_queue.queue ≡ w ∷ ws
        → run ≡ some s'
        → s'.value ≡ s.value
        → s'.wait_queue.queue ≡ ws
        → (s'.wait_queue.waits w).wakeup_flags ≡ wt_ksem
        → (s'.wait_queue.sched.procs (s.wait_queue.waits w).proc).state ≡ proc_runnable
        → IsValid s'
        → Upped s run

  -- The semaphore behind the wait that is woken.
  unfoldable woken : ℕ → Sched Q → (ℕ → Wait) → ℕ → List ℕ → Sem Q
  woken value a g w ws = record {
    value = value;
    wait_queue = record {
      sched = make_runnable c (g w).proc a;
      waits = write g w (record (g w) { wakeup_flags = wt_ksem });
      queue = ws;
    };
  }

  unfoldable at : ℕ → Sched Q → (ℕ → Wait) → List ℕ → Sem Q
  at value a g q = record { value = value; wait_queue = record { sched = a; waits = g; queue = q } }

  woken-IsValid :
      (value : ℕ) (a : Sched Q) (g : ℕ → Wait) (w : ℕ) (ws : List ℕ)
      → IsValid (at value a g (w ∷ ws))
      → IsValid (woken value a g w ws)
  unfolding woken at waiting AllAsleep
  woken-IsValid value a g w ws v =
      let kept = waiting-write g w (record (g w) { wakeup_flags = wt_ksem }) ws v.once.0 in
      let runs : Proc = record (a.procs (g w).proc) { state = proc_runnable; wait_state = 0 } in
      let asleep =
        AllAsleep-write a.procs (g w).proc runs (waiting g ws) v.processes.0 v.asleep.2 in
      let g' = write g w (record (g w) { wakeup_flags = wt_ksem }) in
      record {
        units = elim v.units [ inl e ↦ inl e | inr e ↦ absurd (cc) ];
        asleep =
            subst (λ f. AllAsleep f (waiting g' ws)) (sym (procs-make_runnable c (g w).proc a))
              (subst (λ l. AllAsleep (write a.procs (g w).proc runs) l) (sym kept) asleep);
        once = v.once.1;
        processes = subst Distinct (sym kept) v.processes.1;
      }

  -- The first wait of a queue is taken out and woken.
  wakes_first :
      (a : Sched Q) (g : ℕ → Wait) (w : ℕ) (ws : List ℕ)
      → (a.procs (g w).proc).state ≡ proc_sleeping
      → wakeup_wait c w wt_ksem true (record { sched = a; waits = g; queue = w ∷ ws })
        ≡ some (record {
          sched = make_runnable c (g w).proc a;
          waits = write g w (record (g w) { wakeup_flags = wt_ksem });
          queue = ws;
        })
  unfolding wakeup_wait wait_queue_del wake erase
  wakes_first a g w ws h =
      let self : (w == w) ≡ true = ground arith in
      let out : List ℕ → Option (Waits Q) =
        λ l. some (record { sched = a; waits = g; queue = l }) in
      let go : Option (Waits Q) → Option (Waits Q) = λ m. m >>= λ k'. wake c w wt_ksem k' in
      ap (λ b. go (assert (b || has w ws) >> out (if b then ws else w ∷ erase w ws))) self
      ∙ bind-some _ _ (wakes c (g w).proc a h)

  up_at :
      (value : ℕ) (a : Sched Q) (g : ℕ → Wait) (q : List ℕ)
      → IsValid (at value a g q)
      → Upped (at value a g q) (up c (at value a g q))
  unfolding at up wait_queue_first AllAsleep waiting woken
  up_at value a g [] v =
      gave refl refl
        (record { units = inr refl; asleep = v.asleep; once = v.once; processes = v.processes })
  up_at value a g (w ∷ ws) v =
      let ready : ((a.procs (g w).proc).wait_state == wt_ksem) ≡ true =
        ground (arith, v.asleep.1) in
      let give : Waits Q → Option (Sem Q) = λ k. some (record { value = value; wait_queue = k }) in
      let k : Waits Q = record { sched = a; waits = g; queue = w ∷ ws } in
      woke w ws (woken value a g w ws) refl
        (ap (λ b. assert b >> (wakeup_wait c w wt_ksem true k >>= give)) ready
          ∙ bind-some _ give (wakes_first a g w ws v.asleep.0))
        refl refl (ap (λ k. k.wakeup_flags) (write_self g w _))
        (ap (λ f. (f (g w).proc).state) (procs-make_runnable c (g w).proc a)
          ∙ ap (λ x. x.state) (write_self a.procs (g w).proc _))
        (woken-IsValid value a g w ws v)

  -- `up` of a valid semaphore fails no assertion and keeps it valid: with no process in its
  -- queue its value grows by one; otherwise the value stays, and the first process of the queue
  -- leaves it, is runnable, and finds WT_KSEM in its flags.
  pub up_lem : (s : Sem Q) → IsValid s → Upped s (up c s)
  unfolding at
  up_lem s v = up_at s.value s.wait_queue.sched s.wait_queue.waits s.wait_queue.queue v
