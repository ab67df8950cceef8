-- ===== src/Sync/Sem/Down.antt =====
-- `down` and `try_down`: a unit is taken, or the process waits behind the others.
use hard_core.Prelude.{
  ℕ, ◌-◌, ◌<◌, ◌≡◌, refl, sym, ap, ap₂, ◌∙◌, subst, inl, inr, Bool, true, false, not, ◌&&◌, Option,
  some, List, [], ◌∷◌, ◌++◌, arith, ltb, ◌==◌, if◌then◌else◌, ltb→lt, Bool-cases, has, ◌∉◌,
  Distinct, ◌>>=◌, assert, bind-some, Distinct-snoc,
}
use hard_core.Schedule.Sched.{Proc, proc_sleeping, is_runnable, write}
use hard_core.Sync.Wait.{
  Wait, Waits, wt_ksem, wt_interrupted, wait_init, wait_queue_add, wait_current_set,
}
use hard_core.Sync.Sem.{Sem, down_enter}
use hard_core.Sync.Sem.Asleep.{
  waiting, AllAsleep, IsValid, write_self, AllAsleep-write, waiting-write,
}

-- A process that runs does not sleep.
AllAsleep-out :
    (f : ℕ → Proc) (p : ℕ) (ps : List ℕ) → AllAsleep f ps → is_runnable (f p).state ≡ true → p ∉ ps
unfolding AllAsleep
AllAsleep-out f p [] a r = refl
AllAsleep-out f p (x ∷ xs) a r = elim (Bool-cases (p == x)) [
  | inl t ↦
      let same : p ≡ x = ground arith in
      let asleep : is_runnable (f p).state ≡ false =
        ap (λ q. is_runnable (f q).state) same ∙ ap is_runnable a.0 in
      absurd (cc)
  | inr n ↦ ground (arith, AllAsleep-out f p xs a.2 r)
]

AllAsleep-snoc :
    (f : ℕ → Proc) (ps : List ℕ) (p : ℕ)
    → AllAsleep f ps
    → (f p).state ≡ proc_sleeping
    → (f p).wait_state ≡ wt_ksem
    → AllAsleep f (ps ++ (p ∷ []))
unfolding AllAsleep
AllAsleep-snoc f [] p a s w = (s, w, tt)
AllAsleep-snoc f (x ∷ xs) p a s w = (a.0, a.1, AllAsleep-snoc f xs p a.2 s w)

waiting-snoc :
    (g : ℕ → Wait) (ws : List ℕ) (w : ℕ)
    → waiting g (ws ++ (w ∷ [])) ≡ waiting g ws ++ ((g w).proc ∷ [])
unfolding waiting
waiting-snoc g [] w = refl
waiting-snoc g (x ∷ xs) w = ap (λ (l : List ℕ). (g x).proc ∷ l) (waiting-snoc g xs w)

module _ {Q : Type 0} where
  -- The running process asleep in the queue.
  unfoldable sleeping : ℕ → Sem Q → Sem Q
  sleeping w s =
      let k = s.wait_queue in
      let p = k.sched.current in
      let v : Proc = record (k.sched.procs p) { state = proc_sleeping; wait_state = wt_ksem } in
      record s {
        wait_queue = record {
          sched = record k.sched { procs = write k.sched.procs p v };
          waits = write k.waits w (record { proc = p; wakeup_flags = wt_interrupted });
          queue = k.queue ++ (w ∷ []);
        };
      }

  -- What `down` does before it gives up the processor.
  pub data Entered (w : ℕ) (s : Sem Q) (run : Option (Bool × Sem Q)) : Type 0 where
    took :
        0 < s.value
        → run ≡ some (true, record s { value = s.value - 1 })
        → IsValid (record s { value = s.value - 1 })
        → Entered w s run
    slept :
        (s' : Sem Q)
        → s.value ≡ 0
        → run ≡ some (false, s')
        → s'.wait_queue.queue ≡ s.wait_queue.queue ++ (w ∷ [])
        → (s'.wait_queue.sched.procs s.wait_queue.sched.current).state ≡ proc_sleeping
        → IsValid s'
        → Entered w s run

  taken-IsValid : (s : Sem Q) → IsValid s → 0 < s.value → IsValid (record s { value = s.value - 1 })
  taken-IsValid s v h = record {
    units = elim v.units [ inl e ↦ absurd (omega arith) | inr e ↦ inr e ];
    asleep = v.asleep;
    once = v.once;
    processes = v.processes;
  }

  sleeping-IsValid :
      (w : ℕ) (s : Sem Q)
      → IsValid s
      → s.value ≡ 0
      → w ∉ s.wait_queue.queue
      → is_runnable (s.wait_queue.sched.procs s.wait_queue.sched.current).state ≡ true
      → IsValid (sleeping w s)
  unfolding sleeping
  sleeping-IsValid w s v z h r =
      let k = s.wait_queue in
      let p = k.sched.current in
      let n : Proc = record (k.sched.procs p) { state = proc_sleeping; wait_state = wt_ksem } in
      let f = write k.sched.procs p n in
      let g = write k.waits w (record { proc = p; wakeup_flags = wt_interrupted }) in
      let out = AllAsleep-out k.sched.procs p _ v.asleep r in
      let list : waiting g (k.queue ++ (w ∷ [])) ≡ waiting k.waits k.queue ++ (p ∷ []) =
        waiting-snoc g k.queue w
        ∙ ap₂ (λ (l : List ℕ) (q : ℕ). l ++ (q ∷ [])) (waiting-write k.waits w _ k.queue h)
            (ap (λ x. x.proc) (write_self k.waits w _)) in
      let old = AllAsleep-write k.sched.procs p n _ out v.asleep in
      let all =
        AllAsleep-snoc f _ p old (ap (λ x. x.state) (write_self k.sched.procs p n))
          (ap (λ x. x.wait_state) (write_self k.sched.procs p n)) in
      record {
        units = inl z;
        asleep = subst (AllAsleep f) (sym list) all;
        once = Distinct-snoc k.queue w v.once h;
        processes = subst Distinct (sym list) (Distinct-snoc _ p v.processes out);
      }

  goes_to_sleep :
      (w : ℕ) (s : Sem Q)
      → w ∉ s.wait_queue.queue
      → 0 < s.wait_queue.sched.current
      → wait_current_set w wt_ksem s.wait_queue ≡ some (sleeping w s).wait_queue
  unfolding wait_current_set wait_queue_add wait_init sleeping
  goes_to_sleep w s h c =
      let k = s.wait_queue in
      let p = k.sched.current in
      let there : (p == 0) ≡ false = ground arith in
      let owner : (write k.waits w (record { proc = p; wakeup_flags = wt_interrupted }) w).proc
          ≡ p =
        ap (λ x. x.proc) (write_self k.waits w _) in
      let free : (not (has w k.queue)
            && not (
                (write k.waits w (record { proc = p; wakeup_flags = wt_interrupted }) w).proc == 0))
          ≡ true =
        ap₂ (λ a b. not a && not b) h (ap (λ x. x == 0) owner ∙ there) in
      bind-some _ _ (ap (λ b. assert (not b)) there) ∙ bind-some _ _ (ap assert free)

  -- `down` of a valid semaphore by the running process, with a wait that is not in the queue:
  -- with a unit left it takes the unit; with none the process is put to sleep behind those
  -- that wait already. No assertion fails, and the semaphore stays valid.
  pub down_enter_lem :
      (w : ℕ) (s : Sem Q)
      → IsValid s
      → w ∉ s.wait_queue.queue
      → 0 < s.wait_queue.sched.current
      → is_runnable (s.wait_queue.sched.procs s.wait_queue.sched.current).state ≡ true
      → Entered w s (down_enter w s)
  unfolding down_enter sleeping
  down_enter_lem w s v h c r =
      let join : Waits Q → Option (Bool × Sem Q) = λ k. some (false, record s { wait_queue = k }) in
      let choose : Bool → Option (Bool × Sem Q) = λ b.
        if b
        then some (true, record s { value = s.value - 1 })
        else (wait_current_set w wt_ksem s.wait_queue >>= join) in
      elim (Bool-cases (ltb 0 s.value)) [
        | inl t ↦ took (ltb→lt _ _ t) (ap choose t) (taken-IsValid s v (ltb→lt _ _ t))
        | inr f ↦
            let zero_left : s.value ≡ 0 = ground arith in
            slept (sleeping w s) zero_left (ap choose f ∙ bind-some _ join (goes_to_sleep w s h c))
              refl
              (ap (λ x. x.state) (write_self s.wait_queue.sched.procs s.wait_queue.sched.current _))
              (sleeping-IsValid w s v zero_left h r)
      ]
