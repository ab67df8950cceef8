-- ===== src/Process/Exit/Quiet.antt =====
-- kern/process/proc.c, `do_exit`: the steps that touch neither the scheduler nor the table.
use hard_core.Prelude.{
  ℕ, ◌+◌, ◌-◌, ◌≡◌, refl, ap, ◌∙◌, ◌⊎◌, inl, inr, false, Option, none, some, arith, ◌==◌,
  if◌then◌else◌, Bool-cases, set, bind-some,
}
use hard_core.Process.State.{Pcb, Kernel}
use hard_core.Process.Resources.{Resources}
use hard_core.Process.Fork.{put_fs, put_files}
use hard_core.Process.Exit.{leave_mm, release, main_thread, set_slot, give_slot}
use hard_core.Schedule.Sched.{write}

pub pid_kept :
    (f : ℕ → Pcb) (p : ℕ) (v : Pcb) (x : ℕ) → v.pid ≡ (f p).pid → (write f p v x).pid ≡ (f x).pid
pid_kept f p v x e = elim (Bool-cases (p == x)) [
  | inl t ↦ let same : p ≡ x = ground arith in rw (t) (e ∙ ap (λ z. (f z).pid) same)
  | inr n ↦ rw (n) refl
]

module _ {Q W : Type 0} where
  pub record Quiet (k k' : Kernel Q W) : Type 0 where
    pub sched : k'.sched ≡ k.sched
    pub links : k'.links ≡ k.links
    pub proc_list : k'.proc_list ≡ k.proc_list
    pub hash_list : k'.hash_list ≡ k.hash_list
    pub nr_process : k'.nr_process ≡ k.nr_process
    pub initproc : k'.initproc ≡ k.initproc
    pub pid_state : k'.pid_state ≡ k.pid_state
    pub pid : (x : ℕ) → (k'.pcbs x).pid ≡ (k.pcbs x).pid

  pub Quiet-trans : (a b d : Kernel Q W) → Quiet a b → Quiet b d → Quiet a d
  Quiet-trans a b d p q = record {
    sched = q.sched ∙ p.sched;
    links = q.links ∙ p.links;
    proc_list = q.proc_list ∙ p.proc_list;
    hash_list = q.hash_list ∙ p.hash_list;
    nr_process = q.nr_process ∙ p.nr_process;
    initproc = q.initproc ∙ p.initproc;
    pid_state = q.pid_state ∙ p.pid_state;
    pid = λ x. q.pid x ∙ p.pid x;
  }

  -- Other control blocks with the same numbers, other counts and another world.
  pub Quiet-by :
      (k : Kernel Q W) (f : ℕ → Pcb) (mms tables : ℕ → ℕ) (w : W)
      → ((x : ℕ) → (f x).pid ≡ (k.pcbs x).pid)
      → Quiet k (record k { pcbs = f; mm_count = mms; files_count = tables; world = w })
  Quiet-by k f mms tables w e = record {
    sched = refl;
    links = refl;
    proc_list = refl;
    hash_list = refl;
    nr_process = refl;
    initproc = refl;
    pid_state = refl;
    pid = e;
  }

  put_files-Quiet : (c : Resources W) (o : Option ℕ) (k : Kernel Q W) → Quiet k (put_files c o k)
  unfolding put_files
  put_files-Quiet c none k = Quiet-by k k.pcbs k.mm_count k.files_count k.world (λ x. refl)
  put_files-Quiet c (some f) k =
      let n = k.files_count f - 1 in
      Quiet-by k k.pcbs k.mm_count (write k.files_count f n)
        (if n == 0 then c.files_destroy f k.world else k.world) (λ x. refl)

  leave_mm-Quiet : (c : Resources W) (o : Option ℕ) (k : Kernel Q W) → Quiet k (leave_mm c o k)
  unfolding leave_mm
  leave_mm-Quiet c none k = Quiet-by k k.pcbs k.mm_count k.files_count k.world (λ x. refl)
  leave_mm-Quiet c (some m) k =
      let n = k.mm_count m - 1 in
      let cur = k.sched.current in
      Quiet-by k (write k.pcbs cur (record (k.pcbs cur) { mm = none })) (write k.mm_count m n)
        k.files_count
        (if n == 0 then c.mm_destroy m (c.put_pgdir m (c.exit_mmap m k.world)) else k.world)
        (λ x. pid_kept k.pcbs cur (record (k.pcbs cur) { mm = none }) x refl)

  pub release-Quiet : (c : Resources W) (k : Kernel Q W) → Quiet k (release c k)
  unfolding release put_fs
  release-Quiet c k =
      let k' = leave_mm c (k.pcbs k.sched.current).mm k in
      Quiet-trans k k' (put_fs c k'.sched.current k')
        (leave_mm-Quiet c (k.pcbs k.sched.current).mm k)
        (put_files-Quiet c (k'.pcbs k'.sched.current).filesp k')

  -- The running process is no thread, or its main thread is found.
  abbrev pub HasMain : Kernel Q W → Type 0
  HasMain k =
      ((k.pcbs k.sched.current).is_thread ≡ false)
      ⊎ ((m : ℕ) × (main_thread (k.nr_process + 1) k.sched.current k ≡ some m))

  pub give_slot-Quiet :
      (k : Kernel Q W) → HasMain k → (k' : Kernel Q W) × (give_slot k ≡ some k') × Quiet k k'
  unfolding give_slot set_slot
  give_slot-Quiet k (inl n) =
      (k, rw (n) refl, Quiet-by k k.pcbs k.mm_count k.files_count k.world (λ x. refl))
  give_slot-Quiet k (inr (m, e)) = elim (Bool-cases (k.pcbs k.sched.current).is_thread) [
    | inl t ↦
        let i = (k.pcbs k.sched.current).stack_num in
        let b = k.pcbs m in
        let next : ℕ → Option (Kernel Q W) = λ z. some (set_slot z i 0 k) in
        (
          set_slot m i 0 k,
          rw (t) (bind-some (main_thread (k.nr_process + 1) k.sched.current k) next e),
          Quiet-by k (write k.pcbs m (record b { stack = set b.stack i 0 })) k.mm_count
              k.files_count k.world
              (λ x. pid_kept k.pcbs m (record b { stack = set b.stack i 0 }) x refl),
        )
    | inr n ↦ (k, rw (n) refl, Quiet-by k k.pcbs k.mm_count k.files_count k.world (λ x. refl))
  ]
