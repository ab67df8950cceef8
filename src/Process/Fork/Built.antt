-- ===== src/Process/Fork/Built.antt =====
-- kern/process/proc.c, `do_fork`: what stays while a new process is built.
use hard_core.Prelude.{
  ℕ, ◌≡◌, refl, sym, ap, ◌∙◌, subst, inl, inr, false, none, List, [], arith, ◌==◌, Bool-cases, ◌∉◌,
}
use hard_core.Process.Family.{Links}
use hard_core.Process.Family.Chain.{Chain, IsFamily, chain_frame}
use hard_core.Process.State.{Pcb, Kernel, alloc_proc}
use hard_core.Process.Table.{pids}
use hard_core.Process.Table.Find.{IsTable}
use hard_core.Process.Table.Same.{pids_same, IsTable-same}
use hard_core.Process.Fork.{with_world, new_child}
use hard_core.Process.Fork.Held.{Frozen, Kept}
use hard_core.Schedule.Sched.{Sched}

module _ {Q W : Type 0} where
  pub Frozen-trans : (k0 k k' : Kernel Q W) → Frozen k0 k → Frozen k k' → Frozen k0 k'
  Frozen-trans k0 k k' a b = record {
    proc_list = b.proc_list ∙ a.proc_list;
    hash_list = b.hash_list ∙ a.hash_list;
    nr_process = b.nr_process ∙ a.nr_process;
    initproc = b.initproc ∙ a.initproc;
    pid_state = b.pid_state ∙ a.pid_state;
    current = b.current ∙ a.current;
    idleproc = b.idleproc ∙ a.idleproc;
    queue = b.queue ∙ a.queue;
    timers = b.timers ∙ a.timers;
  }

  -- A step on the control block of the new process alone.
  pub kept_step :
      (k0 k k' : Kernel Q W) (p : ℕ)
      → Kept k0 k p
      → k'.sched ≡ k.sched
      → k'.links ≡ k.links
      → Frozen k k'
      → ((x : ℕ) → (p == x) ≡ false → k'.pcbs x ≡ k.pcbs x)
      → Kept k0 k' p
  kept_step k0 k k' p h s l f o = record {
    frozen = Frozen-trans k0 k k' h.frozen f;
    at = λ x n.
        let a = h.at x n in
        record {
          proc = ap (λ (z : Sched Q). z.procs x) s ∙ a.proc;
          pcb = o x n ∙ a.pcb;
          parent = ap (λ (z : Links). z.parent x) l ∙ a.parent;
          cptr = ap (λ (z : Links). z.cptr x) l ∙ a.cptr;
          optr = ap (λ (z : Links). z.optr x) l ∙ a.optr;
          yptr = ap (λ (z : Links). z.yptr x) l ∙ a.yptr;
        };
  }

  pub new_child-Kept : (p : ℕ) (w : W) (k : Kernel Q W) → Kept k (new_child p (with_world w k)) p
  unfolding new_child alloc_proc
  new_child-Kept p w k = record {
    frozen = record {
      proc_list = refl;
      hash_list = refl;
      nr_process = refl;
      initproc = refl;
      pid_state = refl;
      current = refl;
      idleproc = refl;
      queue = refl;
      timers = refl;
    };
    at = λ x n. record {
      proc = rw (n) refl;
      pcb = rw (n) refl;
      parent = rw (n) refl;
      cptr = rw (n) refl;
      optr = rw (n) refl;
      yptr = rw (n) refl;
    };
  }

  -- The table agrees still, since the new process is not in it.
  pub IsTable-kept :
      (k0 k : Kernel Q W) (p : ℕ) → Kept k0 k p → p ∉ k0.proc_list → IsTable k0 → IsTable k
  IsTable-kept k0 k p h out t =
      let fr = h.frozen in
      IsTable-same k0 k t fr.proc_list fr.hash_list fr.nr_process fr.pid_state
        (λ x m. ap (λ (v : Pcb). v.pid) (h.at x (ground arith)).pcb)

  pub pids_kept : (k0 k : Kernel Q W) (p : ℕ) → Kept k0 k p → p ∉ k0.proc_list → pids k ≡ pids k0
  pids_kept k0 k p h out =
      pids_same k0 k h.frozen.proc_list (λ x m. ap (λ (v : Pcb). v.pid) (h.at x (ground arith)).pcb)

  -- The families stay, with a new process that has no children.
  pub family_kept :
      (k0 k : Kernel Q W) (p : ℕ) (kids : ℕ → List ℕ)
      → Kept k0 k p
      → ((x : ℕ) → p ∉ kids x)
      → kids p ≡ []
      → k.links.cptr p ≡ none
      → IsFamily k0.links kids
      → IsFamily k.links kids
  unfolding Chain
  family_kept k0 k p kids h out none_own e f = record {
    chain = λ r. elim (Bool-cases (p == r)) [
      | inl t ↦
          let same : p ≡ r = ground arith in
          subst (λ z. Chain k.links z none (k.links.cptr z) (kids z)) same
            (subst (Chain k.links p none (k.links.cptr p)) (sym none_own) e)
      | inr n ↦
          subst (λ o. Chain k.links r none o (kids r)) (sym (h.at r n).cptr)
            (chain_frame k0.links k.links r none (k0.links.cptr r) (kids r)
              (λ x m.
                let o = out r in
                let a = h.at x (ground arith) in
                record { parent = a.parent; optr = a.optr; yptr = a.yptr })
              (f.chain r))
    ];
    distinct = f.distinct;
  }
