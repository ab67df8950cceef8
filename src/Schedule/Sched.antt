-- ===== src/Schedule/Sched.antt =====
-- kern/schedule/sched.c: waking a process, choosing the next one, and the tick of the clock.
pub mod Balance
pub mod States
pub mod Tick
pub mod Clock
pub mod Sample
mod Tests
use hard_core.Prelude.{
  ℕ, zero, suc, ◌+◌, ◌-◌, ◌*◌, ◌/◌, ◌%◌, ◌^◌, ◌≤◌, ◌<◌, min, max, ◌≡◌, refl, sym, ap, ap₂, ◌∙◌,
  subst, ◌≢◌, ◌↔◌, ◌⊎◌, inl, inr, Bool, true, false, not, ◌&&◌, ◌||◌, Option, none, some, List, [],
  ◌∷◌, ◌++◌, map, arith, ltb, leb, ◌==◌, if◌then◌else◌, ltb→lt, lt→ltb, leb→le, ==_iff, tests,
  Bool-cases, Option-cases, length, get_elem?, set, length-append, length-set, get_elem?-set_self,
  get_elem?-set_ne, get_or, take, drop, replicate, take-append-drop, length-take, length-drop,
  length-replicate, length-map, lt_of_get, set-set, set_self, has, ◌∈◌, ◌∉◌, has-append, Distinct,
  Apart, Distinct-split, Distinct-join, snoc_view, Distinct-insert, Distinct-remove,
  Distinct-remove_after, has-ne, ◌>>=◌, ◌>>◌, assert, bind-some, past_assert,
}
use hard_core.Schedule.Timers.{Timer, count_down}

-- `enum proc_state`
pub data ProcState : Type 0 where
  proc_uninit proc_sleeping proc_runnable proc_zombie : ProcState

abbrev pub is_runnable : ProcState → Bool
is_runnable proc_runnable = true
is_runnable _ = false

abbrev pub is_zombie : ProcState → Bool
is_zombie proc_zombie = true
is_zombie _ = false

-- The fields of `struct proc_struct` that the scheduler and the wait queues use.
pub record Proc : Type 0 where
  pub state : ProcState
  pub wait_state : ℕ
  pub need_resched : Bool
  pub runs : ℕ

-- `struct sched_class` on run queues `Q`, which hold the fields that only a class uses. The tick
-- says whether the process is to be scheduled again.
pub record SchedClass (Q : Type 0) : Type 0 where
  pub enqueue : ℕ → Q → Q
  pub dequeue : ℕ → Q → Q
  pub pick_next : Q → Option ℕ × Q
  pub proc_tick : ℕ → Q → Bool × Q

-- The processes by their addresses, the one that runs, the idle one, and the run queue.
pub record Sched (Q : Type 0) : Type 0 where
  pub procs : ℕ → Proc
  pub current : ℕ
  pub idleproc : ℕ
  pub queue : Q
  pub timers : List Timer

abbrev pub write {ℓ} : {A : Type ℓ} → (ℕ → A) → ℕ → A → ℕ → A
write f p a q = if p == q then a else f q

abbrev pub set_proc : {Q : Type 0} → ℕ → Proc → Sched Q → Sched Q
set_proc p v s = record s { procs = write s.procs p v }

-- WT_INTERRUPTED is the highest bit of the wait state; a process with none only gets a warning.
unfoldable pub interruptible : ℕ → Bool
interruptible w = (w == 0) || leb (2 ^ 31) (w % 2 ^ 32)

module _ {Q : Type 0} (sched_class : SchedClass Q) where
  unfoldable pub sched_class_enqueue : ℕ → Sched Q → Sched Q
  sched_class_enqueue p s =
      if p == s.idleproc then s else record s { queue = sched_class.enqueue p s.queue }

  unfoldable pub sched_class_dequeue : ℕ → Sched Q → Sched Q
  sched_class_dequeue p s = record s { queue = sched_class.dequeue p s.queue }

  unfoldable pub sched_class_proc_tick : ℕ → Sched Q → Sched Q
  sched_class_proc_tick p s =
      let v = s.procs p in
      if p == s.idleproc
      then set_proc p (record v { need_resched = true }) s
      else let r = sched_class.proc_tick p s.queue in
        record (set_proc p (record v { need_resched = v.need_resched || r.0 }) s) { queue = r.1 }

  -- The process is made runnable, and waits in the run queue unless it runs already.
  unfoldable pub make_runnable : ℕ → Sched Q → Sched Q
  make_runnable p s =
      let s' = set_proc p (record (s.procs p) { state = proc_runnable; wait_state = 0 }) s in
      if p == s.current then s' else sched_class_enqueue p s'

  unfoldable pub wakeup_proc : ℕ → Sched Q → Option (Sched Q)
  wakeup_proc p s =
      assert (not (is_zombie (s.procs p).state))
      >> some (if is_runnable (s.procs p).state then s else make_runnable p s)

  -- `schedule` before the choice: the running process waits again when it is runnable.
  unfoldable pub requeue : Sched Q → Sched Q
  requeue s =
      let v = s.procs s.current in
      let s' = set_proc s.current (record v { need_resched = false }) s in
      if is_runnable v.state then sched_class_enqueue s.current s' else s'

  -- The process that the class picks leaves the run queue; with none the idle one is next.
  unfoldable pub pick : Sched Q → ℕ × Sched Q
  pick s =
      let r = sched_class.pick_next s.queue in
      elim r.0 [
        | none ↦ (s.idleproc, record s { queue = r.1 })
        | some n ↦ (n, sched_class_dequeue n (record s { queue = r.1 }))
      ]

  -- `proc_run`, of which only that the process runs is seen here.
  unfoldable pub run_next : ℕ × Sched Q → Sched Q
  run_next (n, s) =
      let v = s.procs n in record (set_proc n (record v { runs = v.runs + 1 }) s) { current = n }

  unfoldable pub schedule : Sched Q → Sched Q
  schedule s = run_next (pick (requeue s))

  -- What `run_timer_list` does for a timer that is due.
  unfoldable pub wake_due : ℕ → Sched Q → Option (Sched Q)
  wake_due p s = assert (interruptible (s.procs p).wait_state) >> wakeup_proc p s

  -- The loop of `run_timer_list` over timers whose number is 0; `del_timer` then only unlinks.
  unfoldable pub fire : List Timer → Sched Q → Option (List Timer × Sched Q)
  fire [] s = some ([], s)
  fire (t ∷ ts) s =
      if t.expires == 0 then (wake_due t.proc s >>= λ s'. fire ts s') else some (t ∷ ts, s)

  unfoldable pub run_timer_list : Sched Q → Option (Sched Q)
  run_timer_list s = do
    counted ← count_down s.timers
    r ← fire counted s
    some (sched_class_proc_tick s.current (record r.1 { timers = r.0 }))
