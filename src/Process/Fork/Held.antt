-- ===== src/Process/Fork/Held.antt =====
-- kern/process/proc.c, `do_fork`: what a new process holds while it is built, and how the steps
-- of its clean-up give it back.
use hard_core.Prelude.{ℕ, ◌+◌, ◌-◌, ◌≡◌, refl, ◌∙◌, ◌⊎◌, false, Option, none, some, arith, ◌==◌}
use hard_core.Process.State.{Pcb, Kernel}
use hard_core.Process.Resources.{Resources, Kind, mm, files, one, Acquires, ResourceLaws}
use hard_core.Process.Fork.{with_world}

module _ {Q W : Type 0} where
  -- What no step before `enter` touches.
  pub record Frozen (k0 k : Kernel Q W) : Type 0 where
    pub proc_list : k.proc_list ≡ k0.proc_list
    pub hash_list : k.hash_list ≡ k0.hash_list
    pub nr_process : k.nr_process ≡ k0.nr_process
    pub initproc : k.initproc ≡ k0.initproc
    pub pid_state : k.pid_state ≡ k0.pid_state
    pub current : k.sched.current ≡ k0.sched.current
    pub idleproc : k.sched.idleproc ≡ k0.sched.idleproc
    pub queue : k.sched.queue ≡ k0.sched.queue
    pub timers : k.sched.timers ≡ k0.sched.timers

  pub Frozen-by :
      (k : Kernel Q W) (pcbs : ℕ → Pcb) (mms tables : ℕ → ℕ) (w : W)
      → Frozen k (record k { pcbs = pcbs; mm_count = mms; files_count = tables; world = w })
  Frozen-by k pcbs mms tables w = record {
    proc_list = refl;
    hash_list = refl;
    nr_process = refl;
    initproc = refl;
    pid_state = refl;
    current = refl;
    idleproc = refl;
    queue = refl;
    timers = refl;
  }

  -- A process that the new one is not.
  pub record SameAt (k0 k : Kernel Q W) (x : ℕ) : Type 0 where
    pub proc : k.sched.procs x ≡ k0.sched.procs x
    pub pcb : k.pcbs x ≡ k0.pcbs x
    pub parent : k.links.parent x ≡ k0.links.parent x
    pub cptr : k.links.cptr x ≡ k0.links.cptr x
    pub optr : k.links.optr x ≡ k0.links.optr x
    pub yptr : k.links.yptr x ≡ k0.links.yptr x

  pub record Kept (k0 k : Kernel Q W) (p : ℕ) : Type 0 where
    pub frozen : Frozen k0 k
    pub at : (x : ℕ) → (p == x) ≡ false → SameAt k0 k x

abbrev pub nothing : ℕ → ℕ
nothing x = 0

module _ {Q W : Type 0} {c : Resources W} (laws : ResourceLaws c) (k0 : Kernel Q W) where
  -- With `extra` in use beside what was, and `shares` more processes for the tables of files.
  pub record Held (k : Kernel Q W) (extra : Kind → ℕ → ℕ) (shares : ℕ → ℕ) : Type 0 where
    pub ledger : (j : Kind) (x : ℕ) → laws.owned j x k.world ≡ laws.owned j x k0.world + extra j x
    pub tables :
        (x : ℕ)
        → (laws.owned files x k0.world ≡ 0) ⊎ (k.files_count x ≡ k0.files_count x + shares x)
    pub spaces : (x : ℕ) → (laws.owned mm x k0.world ≡ 0) ⊎ (k.mm_count x ≡ k0.mm_count x)

  -- One thing more, one thing less.
  pub got :
      (k : Kernel Q W) (j : Kind) (extra : Kind → ℕ → ℕ) (shares : ℕ → ℕ) (a : ℕ) (r : Option ℕ × W)
      → Held k extra shares
      → Acquires laws.owned j k.world r
      → r.0 ≡ some a
      → Held (with_world r.1 k) (λ i x. one j a i x + extra i x) shares
  got k j extra shares a r h q e = record {
    ledger = λ i x. let l = h.ledger i x in let m = (q.got a e).1 i x in omega arith;
    tables = h.tables;
    spaces = h.spaces;
  }

  pub got_none :
      (k : Kernel Q W) (j : Kind) (extra : Kind → ℕ → ℕ) (shares : ℕ → ℕ) (r : Option ℕ × W)
      → Held k extra shares
      → Acquires laws.owned j k.world r
      → r.0 ≡ none
      → Held (with_world r.1 k) extra shares
  got_none k j extra shares r h q e = record {
    ledger = λ i x. q.failed e i x ∙ h.ledger i x;
    tables = h.tables;
    spaces = h.spaces;
  }

  pub gave_back :
      (k : Kernel Q W) (j : Kind) (extra : Kind → ℕ → ℕ) (shares : ℕ → ℕ) (a : ℕ) (w : W)
      → Held k (λ i x. one j a i x + extra i x) shares
      → ((i : Kind) (x : ℕ) → laws.owned i x w ≡ laws.owned i x k.world - one j a i x)
      → Held (with_world w k) extra shares
  gave_back k j extra shares a w h q = record {
    ledger = λ i x. let l = h.ledger i x in let m = q i x in omega arith;
    tables = h.tables;
    spaces = h.spaces;
  }
