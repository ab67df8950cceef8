-- ===== src/Process/Fork.antt =====
-- kern/process/proc.c: `do_fork` and what it calls.
pub mod Held
pub mod Filed
pub mod Files
pub mod Spaces
pub mod Built
pub mod Forked
pub mod Outcome
pub mod Call
mod Tests
use hard_core.Prelude.{
  ℕ, zero, suc, ◌+◌, ◌-◌, ◌*◌, ◌/◌, ◌%◌, ◌^◌, ◌≤◌, ◌<◌, min, max, ◌≡◌, refl, sym, ap, ap₂, ◌∙◌,
  subst, ◌≢◌, ◌↔◌, ◌⊎◌, inl, inr, Bool, true, false, not, ◌&&◌, ◌||◌, Option, none, some, List, [],
  ◌∷◌, ◌++◌, map, arith, ltb, leb, ◌==◌, if◌then◌else◌, ltb→lt, lt→ltb, leb→le, ==_iff, tests,
  Bool-cases, Option-cases, length, get_elem?, set, length-append, length-set, get_elem?-set_self,
  get_elem?-set_ne, get_or, take, drop, replicate, take-append-drop, length-take, length-drop,
  length-replicate, length-map, lt_of_get, set-set, set_self, has, ◌∈◌, ◌∉◌, has-append, Distinct,
  Apart, Distinct-split, Distinct-join, snoc_view, Distinct-insert, Distinct-remove,
  Distinct-remove_after, has-ne, ◌>>=◌, ◌>>◌, assert, bind-some, past_assert, bind_assoc,
  bind_congr, if-both, Distinct-snoc, past_bind, without, length-without, has-without,
  has-without_ne, has-without_le, Distinct-without, has-map, of_has-map, has-map-without, map_congr,
}
use hard_core.Process.Pids.{max_process}
use hard_core.Process.Family.{Links}
use hard_core.Process.State.{
  Result, ok, err, e_no_mem, e_no_free_proc, Frame, Pcb, Kernel, set_pcb, alloc_proc,
}
use hard_core.Process.Table.{enter}
use hard_core.Process.Resources.{Resources}
use hard_core.Schedule.Sched.{SchedClass, Sched, write, wakeup_proc}

-- KSTACKSIZE, and the size of a `struct trapframe`.
abbrev pub kstacksize : ℕ
kstacksize = 2 * 4096

abbrev pub trapframe_size : ℕ
trapframe_size = 76

-- CLONE_VM and CLONE_FS of the flags.
pub record CloneFlags : Type 0 where
  pub clone_vm : Bool
  pub clone_fs : Bool

-- The old address space is locked while it is copied.
unfoldable pub dup_locked : {W : Type 0} → Resources W → (old m by : ℕ) → W → ℕ × W
dup_locked c old m by w =
    let r = c.dup_mmap m old (c.lock_mm old by w) in (r.0, c.unlock_mm old r.1)

module _ {Q W : Type 0} where
  abbrev pub with_world : W → Kernel Q W → Kernel Q W
  with_world w k = record k { world = w }

  -- `good_mm`: the process shares the address space.
  unfoldable pub share_mm : ℕ → ℕ → Kernel Q W → Kernel Q W
  share_mm p m k = record (set_pcb p (record (k.pcbs p) { mm = some m }) k) {
    mm_count = write k.mm_count m (k.mm_count m + 1);
  }

  -- `good_files_struct`
  unfoldable pub share_files : ℕ → ℕ → Kernel Q W → Kernel Q W
  share_files p f k = record (set_pcb p (record (k.pcbs p) { filesp = some f }) k) {
    files_count = write k.files_count f (k.files_count f + 1);
  }

module _ {Q W : Type 0} (c : Resources W) where
  -- `setup_kstack` on what the page allocator returns.
  unfoldable pub kstack_given : ℕ → Option ℕ × W → Kernel Q W → ℕ × Kernel Q W
  kstack_given p (none, w) k = (e_no_mem, with_world w k)
  kstack_given p (some a, w) k = (0, with_world w (set_pcb p (record (k.pcbs p) { kstack = a }) k))

  unfoldable pub setup_kstack : ℕ → Kernel Q W → ℕ × Kernel Q W
  setup_kstack p k = kstack_given p (c.alloc_kstack k.world) k

  unfoldable pub put_kstack : ℕ → Kernel Q W → Kernel Q W
  put_kstack p k = with_world (c.free_kstack (k.pcbs p).kstack k.world) k

  -- `copy_mm` behind `dup_mmap`: a failed copy is undone.
  unfoldable pub mm_copied : ℕ → ℕ → ℕ × W → Kernel Q W → ℕ × Kernel Q W
  mm_copied p m (r, w) k =
      if r == 0
      then (0, share_mm p m (with_world w k))
      else (r, with_world (c.mm_destroy m (c.put_pgdir m (c.exit_mmap m w))) k)

  unfoldable pub pgdir_given : ℕ → (old m : ℕ) → ℕ × W → Kernel Q W → ℕ × Kernel Q W
  pgdir_given p old m (r, w) k =
      if r == 0
      then mm_copied p m (dup_locked c old m (k.pcbs k.sched.current).pid w) k
      else (e_no_mem, with_world (c.mm_destroy m w) k)

  -- A new address space is shared by nobody yet.
  unfoldable pub mm_given : ℕ → ℕ → Option ℕ × W → Kernel Q W → ℕ × Kernel Q W
  mm_given p old (none, w) k = (e_no_mem, with_world w k)
  mm_given p old (some m, w) k =
      pgdir_given p old m (c.setup_pgdir m w) (record k { mm_count = write k.mm_count m 0 })

  -- `copy_mm` of the running process's address space; a kernel thread has none.
  unfoldable pub copy_mm_of : Option ℕ → Bool → ℕ → Kernel Q W → ℕ × Kernel Q W
  copy_mm_of none shared p k = (0, k)
  copy_mm_of (some old) shared p k =
      if shared then (0, share_mm p old k) else mm_given p old (c.mm_create k.world) k

  unfoldable pub copy_mm : Bool → ℕ → Kernel Q W → ℕ × Kernel Q W
  copy_mm shared p k = copy_mm_of (k.pcbs k.sched.current).mm shared p k

  unfoldable pub files_copied : ℕ → ℕ → ℕ × W → Kernel Q W → ℕ × Kernel Q W
  files_copied p f (r, w) k =
      if r == 0
      then (0, share_files p f (with_world w k))
      else (r, with_world (c.files_destroy f w) k)

  unfoldable pub files_given : ℕ → ℕ → Option ℕ × W → Kernel Q W → ℕ × Kernel Q W
  files_given p old (none, w) k = (e_no_mem, with_world w k)
  files_given p old (some f, w) k =
      files_copied p f (c.dup_files f old w) (record k { files_count = write k.files_count f 0 })

  -- `copy_fs`; a running process with no table of files fails the assertion.
  unfoldable pub copy_fs_of : Option ℕ → Bool → ℕ → Kernel Q W → Option (ℕ × Kernel Q W)
  copy_fs_of none shared p k = none
  copy_fs_of (some old) shared p k =
      some
        (if shared then (0, share_files p old k) else files_given p old (c.files_create k.world) k)

  unfoldable pub copy_fs : Bool → ℕ → Kernel Q W → Option (ℕ × Kernel Q W)
  copy_fs shared p k = copy_fs_of (k.pcbs k.sched.current).filesp shared p k

  -- `put_fs`: the last process that shares the table destroys it.
  unfoldable pub put_files : Option ℕ → Kernel Q W → Kernel Q W
  put_files none k = k
  put_files (some f) k =
      let n = k.files_count f - 1 in
      record k {
        files_count = write k.files_count f n;
        world = if n == 0 then c.files_destroy f k.world else k.world;
      }

  unfoldable pub put_fs : ℕ → Kernel Q W → Kernel Q W
  put_fs p k = put_files (k.pcbs p).filesp k

  -- The labels `bad_fork_cleanup_proc`, `bad_fork_cleanup_kstack` and `bad_fork_cleanup_fs`.
  unfoldable pub cleanup_proc : ℕ → Kernel Q W → Option (Result ℕ × Kernel Q W)
  cleanup_proc p k = some (err e_no_mem, with_world (c.kfree p k.world) k)

  unfoldable pub cleanup_kstack : ℕ → Kernel Q W → Option (Result ℕ × Kernel Q W)
  cleanup_kstack p k = cleanup_proc p (put_kstack p k)

  unfoldable pub cleanup_fs : ℕ → Kernel Q W → Option (Result ℕ × Kernel Q W)
  cleanup_fs p k = cleanup_kstack p (put_fs p k)

module _ {Q W : Type 0} where
  -- `copy_thread`, with the address of `forkret`.
  unfoldable pub copy_thread : ℕ → ℕ → ℕ → Frame → Kernel Q W → Kernel Q W
  copy_thread forkret p esp frame k =
      let v = k.pcbs p in
      let tf = v.kstack + kstacksize - trapframe_size in
      set_pcb p
        (record v {
          tf = tf;
          frame = record frame { reg_eax = 0; tf_esp = esp; interrupts = true };
          context_eip = forkret;
          context_esp = tf;
        })
        k

  -- The new process with the running one for its parent.
  unfoldable pub new_child : ℕ → Kernel Q W → Kernel Q W
  new_child p k =
      let k' = alloc_proc p k in
      record k' {
        links = record k'.links { parent = write k'.links.parent p (some k.sched.current) };
      }

module _ {Q W : Type 0} (sched_class : SchedClass Q) (c : Resources W) (forkret : ℕ) where
  -- `do_fork` when nothing can fail any more.
  unfoldable pub start : ℕ → ℕ → Frame → Kernel Q W → Option (Result ℕ × Kernel Q W)
  start p esp frame k = do
    k' ← enter p (copy_thread forkret p esp frame k)
    s ← wakeup_proc sched_class p k'.sched
    some (ok (k'.pcbs p).pid, record k' { sched = s })

  unfoldable pub with_mm : ℕ → ℕ → Frame → ℕ × Kernel Q W → Option (Result ℕ × Kernel Q W)
  with_mm p esp frame (r, k) = if r == 0 then start p esp frame k else cleanup_fs c p k

  unfoldable pub with_fs : Bool → ℕ → ℕ → Frame → ℕ × Kernel Q W → Option (Result ℕ × Kernel Q W)
  with_fs vm p esp frame (r, k) =
      if r == 0 then with_mm p esp frame (copy_mm c vm p k) else cleanup_kstack c p k

  unfoldable pub with_kstack :
      CloneFlags → ℕ → ℕ → Frame → ℕ × Kernel Q W → Option (Result ℕ × Kernel Q W)
  with_kstack flags p esp frame (r, k) =
      if r == 0
      then (copy_fs c flags.clone_fs p k >>= λ s. with_fs flags.clone_vm p esp frame s)
      else cleanup_proc c p k

  -- `do_fork` behind `alloc_proc`.
  unfoldable pub fork_given :
      CloneFlags → ℕ → Frame → Option ℕ × W → Kernel Q W → Option (Result ℕ × Kernel Q W)
  fork_given flags esp frame (none, w) k = some (err e_no_mem, with_world w k)
  fork_given flags esp frame (some p, w) k =
      let k' = new_child p (with_world w k) in
      assert ((k'.sched.procs k'.sched.current).wait_state == 0)
      >> with_kstack flags p esp frame (setup_kstack c p k')

  unfoldable pub do_fork : CloneFlags → ℕ → Frame → Kernel Q W → Option (Result ℕ × Kernel Q W)
  do_fork flags esp frame k =
      if leb max_process k.nr_process
      then some (err e_no_free_proc, k)
      else fork_given flags esp frame (c.kmalloc k.world) k
