-- ===== src/Process/Exit.antt =====
-- kern/process/proc.c: `do_exit`.
pub mod Waking
pub mod Adopted
pub mod Quiet
pub mod Exited
use hard_core.Prelude.{
  ℕ, zero, suc, ◌+◌, ◌-◌, ◌*◌, ◌/◌, ◌%◌, ◌^◌, ◌≤◌, ◌<◌, min, max, ◌≡◌, refl, sym, ap, ap₂, ◌∙◌,
  subst, ◌≢◌, ◌↔◌, ◌⊎◌, inl, inr, Bool, true, false, not, ◌&&◌, ◌||◌, Option, none, some, List, [],
  ◌∷◌, ◌++◌, map, arith, ltb, leb, ◌==◌, if◌then◌else◌, ltb→lt, lt→ltb, leb→le, ==_iff, tests,
  Bool-cases, Option-cases, length, get_elem?, set, length-append, length-set, get_elem?-set_self,
  get_elem?-set_ne, get_or, take, drop, replicate, take-append-drop, length-take, length-drop,
  length-replicate, length-map, lt_of_get, set-set, set_self, has, ◌∈◌, ◌∉◌, has-append, Distinct,
  Apart, Distinct-split, Distinct-join, snoc_view, Distinct-insert, Distinct-remove,
  Distinct-remove_after, has-ne, ◌>>=◌, ◌>>◌, assert, bind-some, past_assert, bind_assoc,
  bind_congr, if-both, Distinct-snoc, past_bind, without, length-without, has-without,
  has-without_ne, has-without_le, Distinct-without, has-map, of_has-map, has-map-without, map_congr,
}
use hard_core.Process.Family.{Links, adopt}
use hard_core.Process.State.{Pcb, Kernel, set_pcb}
use hard_core.Process.Resources.{Resources}
use hard_core.Process.Fork.{with_world, put_fs}
use hard_core.Schedule.Sched.{
  ProcState, proc_zombie, is_zombie, Proc, SchedClass, Sched, write, set_proc, wakeup_proc,
  schedule,
}

-- WT_CHILD
abbrev pub wt_child : ℕ
wt_child = 1 + 2 ^ 31

module _ {Q W : Type 0} (c : Resources W) where
  -- The running process leaves its address space, which goes with the last process that has it.
  unfoldable pub leave_mm : Option ℕ → Kernel Q W → Kernel Q W
  leave_mm none k = k
  leave_mm (some m) k =
      let n = k.mm_count m - 1 in
      let cur = k.sched.current in
      record (set_pcb cur (record (k.pcbs cur) { mm = none }) k) {
        mm_count = write k.mm_count m n;
        world = if n == 0 then c.mm_destroy m (c.put_pgdir m (c.exit_mmap m k.world)) else k.world;
      }

  unfoldable pub release : Kernel Q W → Kernel Q W
  release k = let k' = leave_mm (k.pcbs k.sched.current).mm k in put_fs c k'.sched.current k'

module _ {Q W : Type 0} where
  -- The walk from a thread up to the process that is none; `none` is a null parent, or no fuel.
  unfoldable pub main_thread : ℕ → ℕ → Kernel Q W → Option ℕ
  main_thread zero p k = none
  main_thread (suc fuel) p k = elim (k.pcbs p).is_thread [
    | false ↦ some p
    | true ↦ elim (k.links.parent p) [ none ↦ none | some q ↦ main_thread fuel q k ]
  ]

  unfoldable pub set_slot : ℕ → ℕ → ℕ → Kernel Q W → Kernel Q W
  set_slot p i v k = let b = k.pcbs p in set_pcb p (record b { stack = set b.stack i v }) k

  -- A thread that ends gives its stack slot back to the main thread.
  unfoldable pub give_slot : Kernel Q W → Option (Kernel Q W)
  give_slot k =
      let cur = k.sched.current in
      if (k.pcbs cur).is_thread
      then (main_thread (k.nr_process + 1) cur k >>= λ m.
          some (set_slot m (k.pcbs cur).stack_num 0 k))
      else some k

  -- The process is a zombie with its exit code.
  unfoldable pub become_zombie : ℕ → Kernel Q W → Kernel Q W
  become_zombie code k =
      let cur = k.sched.current in
      record (set_pcb cur (record (k.pcbs cur) { exit_code = code }) k) {
        sched = set_proc cur (record (k.sched.procs cur) { state = proc_zombie }) k.sched;
      }

module _ {Q W : Type 0} (sched_class : SchedClass Q) where
  -- A process that waits for a child is woken.
  unfoldable pub wake_waiting : ℕ → Kernel Q W → Option (Kernel Q W)
  wake_waiting p k =
      if (k.sched.procs p).wait_state == wt_child
      then (wakeup_proc sched_class p k.sched >>= λ s. some (record k { sched = s }))
      else some k

  unfoldable pub wake_parent : Option ℕ → Kernel Q W → Option (Kernel Q W)
  wake_parent none k = none
  wake_parent (some p) k = wake_waiting p k

  -- One turn of the loop over the children, and the loop.
  unfoldable pub adopt_next : ℕ → Kernel Q W → Option (Kernel Q W)
  adopt_next child k =
      let k' = record k { links = adopt k.sched.current k.initproc child k.links } in
      if is_zombie (k'.sched.procs child).state then wake_waiting k'.initproc k' else some k'

  unfoldable pub adopt_all : ℕ → Kernel Q W → Option (Kernel Q W)
  adopt_all zero k = none
  adopt_all (suc fuel) k = elim (k.links.cptr k.sched.current) [
    | none ↦ some k
    | some child ↦ adopt_next child k >>= λ k'. adopt_all fuel k'
  ]

  -- `do_exit` up to the call of `schedule`, and with it. A process has fewer children than there
  -- are processes.
  unfoldable pub exit_enter : Resources W → ℕ → Kernel Q W → Option (Kernel Q W)
  exit_enter c code k = do
    assert (not (k.sched.current == k.sched.idleproc) && not (k.sched.current == k.initproc))
    k1 ← give_slot (release c k)
    let k2 = become_zombie code k1
    k3 ← wake_parent (k2.links.parent k2.sched.current) k2
    adopt_all k3.nr_process k3

  unfoldable pub do_exit : Resources W → ℕ → Kernel Q W → Option (Kernel Q W)
  do_exit c code k =
      exit_enter c code k >>= λ k'. some (record k' { sched = schedule sched_class k'.sched })
