-- ===== src/Process/Fork/Tests.antt =====
-- A small system, on which the results about `do_fork` are tried.
use hard_core.Prelude.{
  ℕ, ◌+◌, ◌≡◌, refl, sym, subst, ◌≢◌, inl, inr, false, none, some, List, [], ◌∷◌, arith, ◌==◌,
  if◌then◌else◌, Bool-cases, ◌∈◌, Distinct, if-both,
}
use hard_core.Process.Pids.{max_pid}
use hard_core.Process.Pids.Fresh.{IsPidState, Free}
use hard_core.Process.Family.Chain.{Chain}
use hard_core.Process.State.{Frame, Kernel, new_pcb}
use hard_core.Process.Table.{pid_hashfn, pids}
use hard_core.Process.Table.Find.{IsTable}
use hard_core.Process.Resources.{mm, pages, block, files, one}
use hard_core.Process.Fork.{CloneFlags, do_fork}
use hard_core.Process.Fork.Forked.{IsSystem, CanFork, Forked}
use hard_core.Process.Fork.Call.{do_fork_lem}
use hard_core.Process.Sample.{Counts, small, small_laws}
use hard_core.Schedule.Sched.Sample.{in_order}
use hard_core.Schedule.Sched.{proc_runnable}

-- The process 10 runs, and has the number 1, the table of files 500 and the address space 600,
-- where a page is mapped.
abbrev init_bucket : ℕ → List ℕ
init_bucket b = if pid_hashfn 1 == b then 10 ∷ [] else []

abbrev init_only : Kernel (List ℕ) Counts
init_only = record {
  sched = record {
    procs = λ p. record { state = proc_runnable; wait_state = 0; need_resched = false; runs = 0 };
    current = 10;
    idleproc = 9;
    queue = [];
    timers = [];
  };
  pcbs = λ p. record new_pcb { pid = 1; filesp = some 500; mm = some 600 };
  links = record { parent = λ p. none; cptr = λ p. none; optr = λ p. none; yptr = λ p. none };
  proc_list = 10 ∷ [];
  hash_list = init_bucket;
  nr_process = 2;
  initproc = 10;
  pid_state = record { last_pid = 1; next_safe = max_pid };
  mm_count = λ m. 0;
  files_count = λ f. if f == 500 then 1 else 0;
  world = λ k x. one block 10 k x + one files 500 k x + one mm 600 k x + one pages 600 k x;
}

abbrev no_kids : ℕ → List ℕ
no_kids r = []

init_only-IsTable : IsTable init_only
unfolding pids IsPidState Free
init_only-IsTable = record {
  bucket = λ p b. elim (Bool-cases (pid_hashfn 1 == b)) [
    | inl t ↦ rw (t) (ground arith)
    | inr n ↦ rw (n) (ground arith)
  ];
  hashed_once = λ b. if-both Distinct (pid_hashfn 1 == b) (refl, tt) tt;
  unique = λ p q i j e. ground arith;
  range = λ p i. (omega arith, omega arith);
  once = (refl, tt);
  numbers = (λ p l u. ground arith, omega arith);
  counted = refl;
}

ten : small_laws.owned block 10 init_only.world ≢ 0
ten = let no : 1 ≢ 0 = ground arith in no

not_ten : (p : ℕ) → p ∈ (10 ∷ []) → small_laws.owned block p init_only.world ≢ 0
not_ten p m =
    let e : p ≡ 10 = ground arith in
    subst (λ y. small_laws.owned block y init_only.world ≢ 0) (sym e) ten

init_only-IsSystem : IsSystem small_laws init_only no_kids
unfolding Chain
init_only-IsSystem = record {
  table = init_only-IsTable;
  family = record { chain = λ r. refl; distinct = λ r. tt };
  listed = not_ten;
  kids_owned = λ r p m. absurd (cc);
  unmapped = λ m e. ground arith;
  parents_owned = λ r e. refl;
}

init_only-CanFork : CanFork small_laws init_only 500
init_only-CanFork = record {
  block = ten;
  awake = refl;
  filesp = refl;
  in_use = λ z. let z' : 1 ≡ 0 = z in absurd (omega arith);
  counted = omega arith;
}

abbrev no_clone : CloneFlags
no_clone = record { clone_vm = false; clone_fs = false }

abbrev user_frame : Frame
user_frame = record { reg_eax = 2; tf_esp = 0; interrupts = false; others = [] }

do_fork_lem_example :
    Forked small_laws no_kids init_only
      (do_fork in_order small 7 no_clone 0x1000 user_frame init_only)
do_fork_lem_example =
    do_fork_lem small_laws init_only no_kids init_only-IsSystem 500 init_only-CanFork in_order 7
      no_clone 0x1000 user_frame
