-- ===== src/Process/Wait.antt =====
-- kern/process/proc.c: `do_wait`, `do_kill` and the small calls beside them.
pub mod Choosing
pub mod Reaped
use hard_core.Prelude.{
  ℕ, zero, suc, ◌+◌, ◌-◌, ◌*◌, ◌/◌, ◌%◌, ◌^◌, ◌≤◌, ◌<◌, min, max, ◌≡◌, refl, sym, ap, ap₂, ◌∙◌,
  subst, ◌≢◌, ◌↔◌, ◌⊎◌, inl, inr, Bool, true, false, not, ◌&&◌, ◌||◌, Option, none, some, List, [],
  ◌∷◌, ◌++◌, map, arith, ltb, leb, ◌==◌, if◌then◌else◌, ltb→lt, lt→ltb, leb→le, ==_iff, tests,
  Bool-cases, Option-cases, length, get_elem?, set, length-append, length-set, get_elem?-set_self,
  get_elem?-set_ne, get_or, take, drop, replicate, take-append-drop, length-take, length-drop,
  length-replicate, length-map, lt_of_get, set-set, set_self, has, ◌∈◌, ◌∉◌, has-append, Distinct,
  Apart, Distinct-split, Distinct-join, snoc_view, Distinct-insert, Distinct-remove,
  Distinct-remove_after, has-ne, ◌>>=◌, ◌>>◌, assert, bind-some, past_assert, bind_assoc,
  bind_congr, if-both, Distinct-snoc, past_bind, without, length-without, has-without,
  has-without_ne, has-without_le, Distinct-without, has-map, of_has-map, has-map-without, map_congr,
}
use hard_core.Process.State.{
  Result, ok, err, e_bad_proc, e_inval, e_killed, Pcb, Kernel, set_pcb, max_thread,
}
use hard_core.Process.Table.{find_proc, remove}
use hard_core.Process.Resources.{Resources}
use hard_core.Process.Fork.{with_world, put_kstack}
use hard_core.Process.Exit.{wt_child, main_thread, do_exit}
use hard_core.Schedule.Sched.{
  ProcState, proc_sleeping, is_zombie, Proc, SchedClass, Sched, write, set_proc, wakeup_proc,
  schedule,
}

-- What a round of `do_wait` finds: a zombie, children that live, or no such child.
pub data Choice : Type 0 where
  found : ℕ → Choice
  keep_waiting : Choice
  nobody : Choice

abbrev pub is_some {ℓ} : {A : Type ℓ} → Option A → Bool
is_some none = false
is_some (some a) = true

-- A stack slot behind the first that is taken.
unfoldable pub has_threads : List ℕ → Bool
has_threads [] = false
has_threads (n ∷ ns) = not (n == 0) || has_threads ns

unfoldable pub any_zombie : Bool → Option ℕ → Choice
any_zombie haskid (some p) = found p
any_zombie haskid none = if haskid then keep_waiting else nobody

unfoldable pub is_parent : Option ℕ → ℕ → Bool
is_parent none r = false
is_parent (some q) r = q == r

module _ {Q W : Type 0} where
  -- The loop over the children of the running process; `none` is a lack of fuel.
  unfoldable pub find_zombie : ℕ → Option ℕ → Kernel Q W → Option (Option ℕ)
  find_zombie fuel none k = some none
  find_zombie zero (some p) k = none
  find_zombie (suc fuel) (some p) k = elim (is_zombie (k.sched.procs p).state) [
    | true ↦ some (some p)
    | false ↦ find_zombie fuel (k.links.optr p) k
  ]

  unfoldable pub one_child : Kernel Q W → Option ℕ → Choice
  one_child k none = nobody
  one_child k (some p) =
      if is_parent (k.links.parent p) k.sched.current
      then (if is_zombie (k.sched.procs p).state then found p else keep_waiting)
      else nobody

  -- From the label `repeat` on; the number 0 stands for any child.
  unfoldable pub wait_choice : ℕ → Kernel Q W → Option Choice
  wait_choice pid k =
      if pid == 0
      then (let first = k.links.cptr k.sched.current in
          find_zombie k.nr_process first k >>= λ o. some (any_zombie (is_some first) o))
      else some (one_child k (find_proc pid k))

module _ {Q W : Type 0} (c : Resources W) where
  -- From the label `found` on: the exit code is stored and the process is gone.
  unfoldable pub reap : ℕ → Kernel Q W → Option (Option (Result ℕ) × Kernel Q W)
  reap p k =
      assert (not (p == k.sched.idleproc) && not (p == k.initproc))
      >> (remove p k >>= λ k1.
          let k2 = put_kstack c p k1 in
          some (some (ok (k.pcbs p).exit_code), with_world (c.kfree p k2.world) k2))

  module _ (sched_class : SchedClass Q) where
    -- The running process sleeps until a child ends.
    unfoldable pub sleep_for_child : Kernel Q W → Kernel Q W
    sleep_for_child k =
        let cur = k.sched.current in
        let v = k.sched.procs cur in
        let s = set_proc cur (record v { state = proc_sleeping; wait_state = wt_child }) k.sched in
        record k { sched = schedule sched_class s }

    unfoldable pub wait_on : Choice → Kernel Q W → Option (Option (Result ℕ) × Kernel Q W)
    wait_on (found p) k = reap p k
    wait_on keep_waiting k = some (none, sleep_for_child k)
    wait_on nobody k = some (some (err e_bad_proc), k)

    -- `do_wait` up to its return, or to the call of `schedule`, where there is no result yet. The
    -- flag says that the code may be stored, or need not.
    unfoldable pub do_wait : Bool → ℕ → Kernel Q W → Option (Option (Result ℕ) × Kernel Q W)
    do_wait storable pid k =
        if storable then (wait_choice pid k >>= λ x. wait_on x k) else some (some (err e_inval), k)

    -- `kill_all_zombie_ch_process`. The link to the next child is read from the block that was
    -- freed, which is taken to be as it was.
    unfoldable pub kill_zombies : ℕ → Option ℕ → Kernel Q W → Option (Kernel Q W)
    kill_zombies fuel none k = some k
    kill_zombies zero (some p) k = none
    kill_zombies (suc fuel) (some p) k = elim (is_zombie (k.sched.procs p).state) [
      | true ↦ do_wait true (k.pcbs p).pid k >>= λ r. kill_zombies fuel (r.1.links.optr p) r.1
      | false ↦ kill_zombies fuel (k.links.optr p) k
    ]

    -- `do_wait` behind `schedule`, when the process runs again.
    unfoldable pub wait_resume : ℕ → Kernel Q W → Option (Option (Result ℕ) × Kernel Q W)
    wait_resume pid k = kill_zombies k.nr_process (k.links.cptr k.sched.current) k >>= λ k'.
        if (k'.pcbs k'.sched.current).exiting
        then (do_exit sched_class c (2 ^ 32 - e_killed) k' >>= λ z. some (none, z))
        else do_wait true pid k'

module _ {Q W : Type 0} where
  unfoldable pub do_yield : Kernel Q W → Kernel Q W
  do_yield k =
      let cur = k.sched.current in
      record k { sched = set_proc cur (record (k.sched.procs cur) { need_resched = true }) k.sched }

  -- `is_ancestral_thread`: a process with threads, that is no thread itself.
  unfoldable pub is_ancestral_thread : ℕ → Kernel Q W → Bool
  is_ancestral_thread p k = let b = k.pcbs p in not b.is_thread && has_threads (drop 1 b.stack)

  unfoldable pub current_have_kid : Kernel Q W → Bool
  current_have_kid k = is_some (k.links.cptr k.sched.current)

module _ {Q W : Type 0} (sched_class : SchedClass Q) where
  -- `do_kill` of the process that was found; a wait that can be interrupted ends.
  unfoldable pub kill : ℕ → Kernel Q W → Option (Result ℕ × Kernel Q W)
  kill p k =
      let b = k.pcbs p in
      if b.exiting
      then some (err e_killed, k)
      else (let k' = set_pcb p (record b { exiting = true }) k in
          if leb (2 ^ 31) ((k'.sched.procs p).wait_state % 2 ^ 32)
          then (wakeup_proc sched_class p k'.sched >>= λ s. some (ok 0, record k' { sched = s }))
          else some (ok 0, k'))

  unfoldable pub kill_found : Option ℕ → Kernel Q W → Option (Result ℕ × Kernel Q W)
  kill_found none k = some (err e_inval, k)
  kill_found (some p) k = kill p k

  unfoldable pub do_kill : ℕ → Kernel Q W → Option (Result ℕ × Kernel Q W)
  do_kill pid k = kill_found (find_proc pid k) k

  -- The loop over the stack slots: the threads become processes of their own and are killed.
  unfoldable pub kill_slots : List ℕ → Kernel Q W → Option (Kernel Q W)
  kill_slots [] k = some k
  kill_slots (pid ∷ pids) k =
      let next : Option (Kernel Q W) =
        if pid == 0
        then some k
        else (find_proc pid k >>= λ p.
            do_kill pid (set_pcb p (record (k.pcbs p) { is_thread = false }) k) >>= λ r.
            some r.1) in
      next >>= λ k'. kill_slots pids k'

  unfoldable pub kill_threads : ℕ → Kernel Q W → Option (Result ℕ × Kernel Q W)
  kill_threads p k = main_thread (k.nr_process + 1) p k >>= λ m.
      kill_slots (drop 1 (k.pcbs m).stack) k >>= λ k'.
      do_kill (k'.pcbs m).pid k' >>= λ r. some (ok 0, r.1)

  unfoldable pub kill_all_of : ℕ → Option ℕ → Kernel Q W → Option (Result ℕ × Kernel Q W)
  kill_all_of pid none k = some (err e_inval, k)
  kill_all_of pid (some p) k =
      let b = k.pcbs p in
      if b.is_thread || has_threads (drop 1 b.stack) then kill_threads p k else do_kill pid k

  unfoldable pub do_kill_all_thread : ℕ → Kernel Q W → Option (Result ℕ × Kernel Q W)
  do_kill_all_thread pid k = kill_all_of pid (find_proc pid k) k
