-- ===== src/Process/State.antt =====
-- kern/process/proc.h, kern/process/proc.c: the process control blocks and what holds them.
use hard_core.Prelude.{ℕ, ◌-◌, ◌^◌, Bool, false, Option, none, List, [], ◌∷◌, replicate}
use hard_core.Process.Pids.{PidState}
use hard_core.Process.Family.{Links}
use hard_core.Schedule.Sched.{proc_uninit, Sched, write, set_proc}

-- MAX_THREAD
abbrev pub max_thread : ℕ
max_thread = 16

-- The errors of libs/error.h that these calls return, negated.
abbrev pub e_bad_proc : ℕ
e_bad_proc = 2

abbrev pub e_inval : ℕ
e_inval = 3

abbrev pub e_no_mem : ℕ
e_no_mem = 4

abbrev pub e_no_free_proc : ℕ
e_no_free_proc = 5

abbrev pub e_killed : ℕ
e_killed = 9

-- A non-negative result, or the error number that is returned negated.
pub data Result (A : Type 0) : Type 0 where
  ok : A → Result A
  err : ℕ → Result A

-- The registers of `struct trapframe` that are written one by one; the rest as it is copied.
pub record Frame : Type 0 where
  pub reg_eax : ℕ
  pub tf_esp : ℕ
  pub interrupts : Bool
  pub others : List ℕ

-- The fields of `struct proc_struct` that the scheduler and the family links do not hold. Of the
-- flags there is PF_EXITING alone.
pub record Pcb : Type 0 where
  pub pid : ℕ
  pub kstack : ℕ
  pub mm : Option ℕ
  pub filesp : Option ℕ
  pub exit_code : ℕ
  pub exiting : Bool
  pub is_thread : Bool
  pub stack_num : ℕ
  pub stack : List ℕ
  pub tf : ℕ
  pub frame : Frame
  pub context_eip : ℕ
  pub context_esp : ℕ

-- The kernel's processes: the scheduler, the control blocks and family links by their addresses,
-- the list and the hash table of all processes but the idle one, and how many processes share
-- each `mm_struct` and `files_struct`.
pub record Kernel (Q W : Type 0) : Type 0 where
  pub sched : Sched Q
  pub pcbs : ℕ → Pcb
  pub links : Links
  pub proc_list : List ℕ
  pub hash_list : ℕ → List ℕ
  pub nr_process : ℕ
  pub initproc : ℕ
  pub pid_state : PidState
  pub mm_count : ℕ → ℕ
  pub files_count : ℕ → ℕ
  pub world : W

abbrev pub set_pcb : {Q W : Type 0} → ℕ → Pcb → Kernel Q W → Kernel Q W
set_pcb p v k = record k { pcbs = write k.pcbs p v }

abbrev no_frame : Frame
no_frame = record { reg_eax = 0; tf_esp = 0; interrupts = false; others = [] }

-- The control block that `alloc_proc` fills in; its number is -1 as a 32-bit word, and the stack
-- slot 0 is taken.
abbrev pub new_pcb : Pcb
new_pcb = record {
  pid = 2 ^ 32 - 1;
  kstack = 0;
  mm = none;
  filesp = none;
  exit_code = 0;
  exiting = false;
  is_thread = false;
  stack_num = 0;
  stack = 1 ∷ replicate (max_thread - 1) 0;
  tf = 0;
  frame = no_frame;
  context_eip = 0;
  context_esp = 0;
}

-- `alloc_proc` on the block that the heap gave.
unfoldable pub alloc_proc : {Q W : Type 0} → ℕ → Kernel Q W → Kernel Q W
alloc_proc p k =
    let l = k.links in
    record k {
      sched =
          set_proc p
            (record { state = proc_uninit; wait_state = 0; need_resched = false; runs = 0 })
            k.sched;
      pcbs = write k.pcbs p new_pcb;
      links = record {
        parent = write l.parent p none;
        cptr = write l.cptr p none;
        optr = write l.optr p none;
        yptr = write l.yptr p none;
      };
    }
