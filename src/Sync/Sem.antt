-- ===== src/Sync/Sem.antt =====
-- kern/sync/sem.c: semaphores.
pub mod Asleep
pub mod Up
pub mod Down
mod Tests
use hard_core.Prelude.{
  ℕ, zero, suc, ◌+◌, ◌-◌, ◌*◌, ◌/◌, ◌%◌, ◌^◌, ◌≤◌, ◌<◌, min, max, ◌≡◌, refl, sym, ap, ap₂, ◌∙◌,
  subst, ◌≢◌, ◌↔◌, ◌⊎◌, inl, inr, Bool, true, false, not, ◌&&◌, ◌||◌, Option, none, some, List, [],
  ◌∷◌, ◌++◌, map, arith, ltb, leb, ◌==◌, if◌then◌else◌, ltb→lt, lt→ltb, leb→le, ==_iff, tests,
  Bool-cases, Option-cases, length, get_elem?, set, length-append, length-set, get_elem?-set_self,
  get_elem?-set_ne, get_or, take, drop, replicate, take-append-drop, length-take, length-drop,
  length-replicate, length-map, lt_of_get, set-set, set_self, has, ◌∈◌, ◌∉◌, has-append, Distinct,
  Apart, Distinct-split, Distinct-join, snoc_view, Distinct-insert, Distinct-remove,
  Distinct-remove_after, has-ne, ◌>>=◌, ◌>>◌, assert, bind-some, past_assert, bind_assoc,
  bind_congr, if-both,
}
use hard_core.Schedule.Sched.{Proc, SchedClass, Sched}
use hard_core.Sync.Wait.{
  Wait, Waits, wt_ksem, wait_queue_first, wakeup_wait, wait_current_set, wait_current_del,
}

-- `semaphore_t`: its value, and its wait queue with what the queue works on.
pub record Sem (Q : Type 0) : Type 0 where
  pub value : ℕ
  pub wait_queue : Waits Q

module _ {Q : Type 0} where
  unfoldable pub sem_init : ℕ → Waits Q → Sem Q
  sem_init value k = record { value = value; wait_queue = record k { queue = [] } }

  unfoldable pub try_down : Sem Q → Bool × Sem Q
  try_down s = if ltb 0 s.value then (true, record s { value = s.value - 1 }) else (false, s)

  -- `__down` up to `schedule`: a unit is taken, or the running process goes to sleep.
  unfoldable pub down_enter : ℕ → Sem Q → Option (Bool × Sem Q)
  down_enter w s =
      if ltb 0 s.value
      then some (true, record s { value = s.value - 1 })
      else (wait_current_set w wt_ksem s.wait_queue >>= λ k.
          some (false, record s { wait_queue = k }))

  -- `__down` behind `schedule`, when the process runs again: what it returns.
  unfoldable pub down_resume : ℕ → Sem Q → Option (ℕ × Sem Q)
  down_resume w s = wait_current_del w s.wait_queue >>= λ k.
      let flags = (k.waits w).wakeup_flags in
      some (if flags == wt_ksem then 0 else flags, record s { wait_queue = k })

module _ {Q : Type 0} (sched_class : SchedClass Q) where
  -- `up`, with WT_KSEM for the wait state.
  unfoldable pub up : Sem Q → Option (Sem Q)
  up s = elim (wait_queue_first s.wait_queue) [
    | none ↦ some (record s { value = s.value + 1 })
    | some w ↦
        let p = (s.wait_queue.waits w).proc in
        assert ((s.wait_queue.sched.procs p).wait_state == wt_ksem)
        >> (wakeup_wait sched_class w wt_ksem true s.wait_queue >>= λ k.
            some (record s { wait_queue = k }))
  ]
