-- ===== src/Sync/Wait.antt =====
-- kern/sync/wait.c: queues of waiting processes.
use hard_core.Prelude.{
  ℕ, zero, suc, Bool, true, false, not, ◌&&◌, Option, none, some, List, [], ◌∷◌, ◌++◌, ◌==◌,
  if◌then◌else◌, length, get_elem?, has, ◌>>=◌, ◌>>◌, assert,
}
use hard_core.Schedule.Sched.{proc_sleeping, SchedClass, Sched, write, set_proc, wakeup_proc}

-- The values of `wait_state` and `wakeup_flags` that are used here.
abbrev pub wt_interrupted : ℕ
wt_interrupted = 0x80000000

abbrev pub wt_ksem : ℕ
wt_ksem = 0x100

-- `wait_t`; whether it is linked is seen in the queue.
pub record Wait : Type 0 where
  pub proc : ℕ
  pub wakeup_flags : ℕ

-- One wait queue, from its head on, with the waits by their addresses and the scheduler.
pub record Waits (Q : Type 0) : Type 0 where
  pub sched : Sched Q
  pub waits : ℕ → Wait
  pub queue : List ℕ

unfoldable pub erase : ℕ → List ℕ → List ℕ
erase w [] = []
erase w (x ∷ xs) = if x == w then xs else x ∷ erase w xs

-- The wait behind another one in a queue.
unfoldable pub next_in : ℕ → List ℕ → Option ℕ
next_in w [] = none
next_in w (x ∷ xs) = if x == w then get_elem? xs 0 else next_in w xs

module _ {Q : Type 0} where
  unfoldable pub wait_init : ℕ → ℕ → Waits Q → Waits Q
  wait_init w p k = record k {
    waits = write k.waits w (record { proc = p; wakeup_flags = wt_interrupted });
  }

  unfoldable pub wait_queue_add : ℕ → Waits Q → Option (Waits Q)
  wait_queue_add w k = do
    assert (not (has w k.queue) && not ((k.waits w).proc == 0))
    some (record k { queue = k.queue ++ (w ∷ []) })

  unfoldable pub wait_queue_del : ℕ → Waits Q → Option (Waits Q)
  wait_queue_del w k = assert (has w k.queue) >> some (record k { queue = erase w k.queue })

  unfoldable pub wait_queue_first : Waits Q → Option ℕ
  wait_queue_first k = elim k.queue [ [] ↦ none | w ∷ ws ↦ some w ]

  unfoldable pub wait_queue_next : ℕ → Waits Q → Option (Option ℕ)
  wait_queue_next w k = assert (has w k.queue) >> some (next_in w k.queue)

  unfoldable pub wait_queue_empty : Waits Q → Bool
  wait_queue_empty k = elim k.queue [ [] ↦ true | w ∷ ws ↦ false ]

  -- `wait_current_del`: a wait that is not in the queue is let alone.
  unfoldable pub wait_current_del : ℕ → Waits Q → Option (Waits Q)
  wait_current_del w k = if has w k.queue then wait_queue_del w k else some k

  -- The process that runs goes to sleep in the queue.
  unfoldable pub wait_current_set : ℕ → ℕ → Waits Q → Option (Waits Q)
  wait_current_set w wait_state k =
      let p = k.sched.current in
      let v = k.sched.procs p in
      let s = set_proc p (record v { state = proc_sleeping; wait_state = wait_state }) k.sched in
      assert (not (p == 0)) >> wait_queue_add w (record (wait_init w p k) { sched = s })

-- What wakes processes.
module _ {Q : Type 0} (sched_class : SchedClass Q) where
  -- The flags are set and the process is woken.
  unfoldable pub wake : ℕ → ℕ → Waits Q → Option (Waits Q)
  wake w flags k = wakeup_proc sched_class (k.waits w).proc k.sched >>= λ s. some (record k {
    sched = s;
    waits = write k.waits w (record (k.waits w) { wakeup_flags = flags });
  })

  unfoldable pub wakeup_wait : ℕ → ℕ → Bool → Waits Q → Option (Waits Q)
  wakeup_wait w flags del k =
      if del then (wait_queue_del w k >>= λ k'. wake w flags k') else wake w flags k

  unfoldable pub wakeup_first : ℕ → Bool → Waits Q → Option (Waits Q)
  wakeup_first flags del k = elim (wait_queue_first k) [
    | none ↦ some k
    | some w ↦ wakeup_wait w flags del k
  ]

  -- The loop of `wakeup_queue` that deletes; it gives up when the fuel ends.
  unfoldable pub drain : ℕ → ℕ → Waits Q → Option (Waits Q)
  drain zero flags k = elim (wait_queue_first k) [ none ↦ some k | some w ↦ none ]
  drain (suc n) flags k = elim (wait_queue_first k) [
    | none ↦ some k
    | some w ↦ wakeup_wait w flags true k >>= λ k'. drain n flags k'
  ]

  -- The loop of `wakeup_queue` that only wakes, over the rest of the queue.
  unfoldable pub wake_rest : List ℕ → ℕ → Waits Q → Option (Waits Q)
  wake_rest [] flags k = some k
  wake_rest (w ∷ ws) flags k = wakeup_wait w flags false k >>= λ k'. wake_rest ws flags k'

  unfoldable pub wakeup_queue : ℕ → Bool → Waits Q → Option (Waits Q)
  wakeup_queue flags del k =
      if del then drain (length k.queue) flags k else wake_rest k.queue flags k
