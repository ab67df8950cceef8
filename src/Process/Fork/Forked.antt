-- ===== src/Process/Fork/Forked.antt =====
-- kern/process/proc.c, `do_fork`: what it does.
use hard_core.Prelude.{
  ℕ, ◌≤◌, ◌≡◌, refl, ◌≢◌, true, Option, some, List, [], ◌∷◌, arith, ◌==◌, ◌∈◌, ◌∉◌, if-both,
}
use hard_core.Process.Family.Chain.{IsFamily}
use hard_core.Process.State.{Result, ok, err, Kernel}
use hard_core.Process.Table.{pids}
use hard_core.Process.Table.Find.{IsTable}
use hard_core.Process.Resources.{Resources, Kind, block, mm, pages, files, ResourceLaws}
use hard_core.Process.Fork.Held.{Frozen, SameAt, Held, nothing}
use hard_core.Schedule.Sched.{
  proc_uninit, proc_runnable, SchedClass, Sched, write, set_proc, make_runnable, wakeup_proc,
  sched_class_enqueue,
}

abbrev pub no_extra : Kind → ℕ → ℕ
no_extra j x = 0

module _ {Q W : Type 0} {c : Resources W} (laws : ResourceLaws c) where
  -- The table agrees, the families are chains, their processes are blocks in use, and only
  -- address spaces have pages mapped.
  pub record IsSystem (k : Kernel Q W) (kids : ℕ → List ℕ) : Type 0 where
    pub table : IsTable k
    pub family : IsFamily k.links kids
    pub listed : (p : ℕ) → p ∈ k.proc_list → laws.owned block p k.world ≢ 0
    pub kids_owned : (r p : ℕ) → p ∈ kids r → laws.owned block p k.world ≢ 0
    pub unmapped : (m : ℕ) → laws.owned mm m k.world ≡ 0 → laws.owned pages m k.world ≡ 0
    pub parents_owned : (r : ℕ) → laws.owned block r k.world ≡ 0 → kids r ≡ []

  -- The running process is a block in use, waits for nothing and has a table of files.
  pub record CanFork (k : Kernel Q W) (f : ℕ) : Type 0 where
    pub block : laws.owned block k.sched.current k.world ≢ 0
    pub awake : (k.sched.procs k.sched.current).wait_state ≡ 0
    pub filesp : (k.pcbs k.sched.current).filesp ≡ some f
    pub in_use : laws.owned files f k.world ≢ 0
    pub counted : 1 ≤ k.files_count f

  -- Nothing that was in use is another, and nothing more is in use.
  pub record Unchanged (k k' : Kernel Q W) : Type 0 where
    pub frozen : Frozen k k'
    pub at : (x : ℕ) → laws.owned block x k.world ≢ 0 → SameAt k k' x
    pub held : Held laws k k' no_extra nothing

  -- The process `p` is the youngest child of the running one, runnable and with a new number.
  pub record Child (p : ℕ) (kids : ℕ → List ℕ) (k k' : Kernel Q W) : Type 0 where
    pub table : IsTable k'
    pub family : IsFamily k'.links (write kids k.sched.current (p ∷ kids k.sched.current))
    pub listed : k'.proc_list ≡ p ∷ k.proc_list
    pub fresh : (k'.pcbs p).pid ∉ pids k
    pub runnable : (k'.sched.procs p).state ≡ proc_runnable

  pub data Forked (kids : ℕ → List ℕ) (k : Kernel Q W) (o : Option (Result ℕ × Kernel Q W))
      : Type 0 where
    refused : (e : ℕ) (k' : Kernel Q W) → o ≡ some (err e, k') → Unchanged k k' → Forked kids k o
    forked :
        (p : ℕ) (k' : Kernel Q W)
        → o ≡ some (ok (k'.pcbs p).pid, k')
        → Child p kids k k'
        → Forked kids k o

module _ {Q : Type 0} (sched_class : SchedClass Q) where
  pub wakes_new :
      (p : ℕ) (s : Sched Q)
      → (s.procs p).state ≡ proc_uninit
      → wakeup_proc sched_class p s ≡ some (make_runnable sched_class p s)
  unfolding wakeup_proc
  wakes_new p s e = rw (e) refl

  pub made_runnable :
      (p : ℕ) (s : Sched Q) → ((make_runnable sched_class p s).procs p).state ≡ proc_runnable
  unfolding make_runnable sched_class_enqueue
  made_runnable p s =
      let self : (p == p) ≡ true = ground arith in
      let s' = set_proc p (record (s.procs p) { state = proc_runnable; wait_state = 0 }) s in
      let here : ((s'.procs p).state ≡ proc_runnable) = rw (self) refl in
      if-both (λ (z : Sched Q). (z.procs p).state ≡ proc_runnable) (p == s.current) here
        (if-both (λ (z : Sched Q). (z.procs p).state ≡ proc_runnable) (p == s'.idleproc) here here)

pub with_sched-IsTable :
    {Q W : Type 0} (k : Kernel Q W) (s : Sched Q) → IsTable k → IsTable (record k { sched = s })
unfolding pids
with_sched-IsTable k s t = record {
  bucket = t.bucket;
  hashed_once = t.hashed_once;
  unique = t.unique;
  range = t.range;
  once = t.once;
  numbers = t.numbers;
  counted = t.counted;
}
