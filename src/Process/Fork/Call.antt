-- ===== src/Process/Fork/Call.antt =====
-- kern/process/proc.c, `do_fork`: the call as a whole.
use hard_core.Prelude.{
  ℕ, ◌<◌, ◌≡◌, refl, sym, subst, inl, inr, true, Option, none, some, List, arith, leb, ◌==◌,
  Bool-cases, ◌>>◌, assert,
}
use hard_core.Process.Pids.{max_process}
use hard_core.Process.State.{e_no_mem, e_no_free_proc, Frame, Kernel, alloc_proc}
use hard_core.Process.Resources.{Resources, Kind, block, Acquires, ResourceLaws}
use hard_core.Process.Fork.{
  CloneFlags, with_world, setup_kstack, with_kstack, new_child, fork_given, do_fork,
}
use hard_core.Process.Fork.Held.{Held, nothing, Frozen-by}
use hard_core.Process.Fork.Built.{new_child-Kept}
use hard_core.Process.Fork.Forked.{IsSystem, CanFork, Unchanged, Forked, refused}
use hard_core.Process.Fork.Outcome.{Unborn, given_extra, other, stacked}
use hard_core.Schedule.Sched.{SchedClass}

module _ {Q W : Type 0} {c : Resources W} (laws : ResourceLaws c) (k0 : Kernel Q W)
    (kids : ℕ → List ℕ) (v : IsSystem laws k0 kids) (f : ℕ) (r : CanFork laws k0 f)
    (sched_class : SchedClass Q) (forkret : ℕ) where
  -- A call that does nothing, or changes only what is not in use.
  only_world :
      (w : W)
      → ((j : Kind) (x : ℕ) → laws.owned j x w ≡ laws.owned j x k0.world)
      → Unchanged laws k0 (with_world w k0)
  only_world w l = record {
    frozen = Frozen-by k0 k0.pcbs k0.mm_count k0.files_count w;
    at = λ x o. record {
      proc = refl;
      pcb = refl;
      parent = refl;
      cptr = refl;
      optr = refl;
      yptr = refl;
    };
    held = record {
      ledger = λ j x. let e = l j x in omega arith;
      tables = λ x. inr (omega arith);
      spaces = λ x. inr refl;
    };
  }

  module _ (room : k0.nr_process < max_process) (p : ℕ) (w : W)
      (q : Acquires laws.owned block k0.world (some p, w)) where
    new : laws.owned block p k0.world ≡ 0
    new = (q.got p refl).0

    k1 : Kernel Q W
    k1 = new_child p (with_world w k0)

    unborn : Unborn laws k0 kids v p new sched_class forkret room k1
    unfolding k1 new_child alloc_proc
    unborn =
        let self : (p == p) ≡ true = ground arith in
        record {
          kept = new_child-Kept p w k0;
          state = rw (self) refl;
          parent = rw (self) refl;
          childless = rw (self) refl;
        }

    held : Held laws k0 k1 (given_extra laws k0 kids v p new) nothing
    unfolding k1 new_child alloc_proc
    held = record {
      ledger = λ j x. let e = (q.got p refl).1 j x in omega arith;
      tables = λ x. inr (omega arith);
      spaces = λ x. inr refl;
    }

    awake : (k1.sched.procs k1.sched.current).wait_state ≡ 0
    unfolding k1 new_child alloc_proc
    awake = let n = other laws k0 kids v p new sched_class forkret room f r in rw (n) r.awake

    given :
        (flags : CloneFlags) (esp : ℕ) (frame : Frame)
        → Forked laws kids k0 (fork_given sched_class c forkret flags esp frame (some p, w) k0)
    unfolding fork_given k1 setup_kstack
    given flags esp frame =
        let k = k1 in
        let out =
          stacked laws k0 kids v p new sched_class forkret room f r flags esp frame k
            (c.alloc_kstack k.world) unborn held (laws.alloc_kstack_lem k.world) in
        subst
          (λ n. Forked laws kids k0 (
            assert (n == 0)
            >> with_kstack sched_class c forkret flags p esp frame (setup_kstack c p k)))
          (sym awake) out

  fork_given_lem :
      (room : k0.nr_process < max_process) (flags : CloneFlags) (esp : ℕ) (frame : Frame)
      (q : Option ℕ × W)
      → Acquires laws.owned block k0.world q
      → Forked laws kids k0 (fork_given sched_class c forkret flags esp frame q k0)
  unfolding fork_given
  fork_given_lem room flags esp frame (none, w) q =
      refused e_no_mem (with_world w k0) refl (only_world w (q.failed refl))
  fork_given_lem room flags esp frame (some p, w) q = given room p w q flags esp frame

  -- When the tables and families agree, what they hold is in use, only address spaces have pages
  -- mapped, and the running process waits for nothing and has a table of files, `do_fork` does not
  -- fault. Either it returns an error, and every control block, link, table and count of what was
  -- in use, mapped pages included, is as before and nothing more is in use; or it returns the
  -- number of a new process, no other's, which is the youngest child of the running one and
  -- runnable, and the tables and families agree still.
  pub do_fork_lem :
      (flags : CloneFlags) (esp : ℕ) (frame : Frame)
      → Forked laws kids k0 (do_fork sched_class c forkret flags esp frame k0)
  unfolding do_fork
  do_fork_lem flags esp frame = elim (Bool-cases (leb max_process k0.nr_process)) [
    | inl t ↦ rw (t) (refused e_no_free_proc k0 refl (only_world k0.world (λ j x. refl)))
    | inr n ↦ rw (n) (
        fork_given_lem (ground arith) flags esp frame (c.kmalloc k0.world)
          (laws.kmalloc_lem k0.world))
  ]
