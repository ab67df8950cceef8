-- ===== src/Process/Table/Same.antt =====
-- kern/process/proc.c: tables of the same processes.
use hard_core.Prelude.{
  ℕ, ◌+◌, ◌≤◌, ◌<◌, ◌≡◌, refl, sym, ap, ◌∙◌, subst, inl, inr, ◌&&◌, map, ◌==◌, Bool-cases, length,
  has, ◌∈◌, Distinct, map_congr,
}
use hard_core.Process.Pids.{max_pid}
use hard_core.Process.Pids.Fresh.{IsPidState}
use hard_core.Process.State.{Kernel}
use hard_core.Process.Table.{pid_hashfn, pids}
use hard_core.Process.Table.Find.{IsTable}

module _ {Q W : Type 0} where
  pub pids_same :
      (k0 k : Kernel Q W)
      → k.proc_list ≡ k0.proc_list
      → ((x : ℕ) → x ∈ k0.proc_list → (k.pcbs x).pid ≡ (k0.pcbs x).pid)
      → pids k ≡ pids k0
  unfolding pids
  pids_same k0 k l pid =
      ap (map (λ z. (k.pcbs z).pid)) l
      ∙ map_congr (λ z. (k.pcbs z).pid) (λ z. (k0.pcbs z).pid) k0.proc_list pid

  -- The table agrees still when its processes have the same numbers.
  pub IsTable-same :
      (k0 k : Kernel Q W)
      → IsTable k0
      → k.proc_list ≡ k0.proc_list
      → k.hash_list ≡ k0.hash_list
      → k.nr_process ≡ k0.nr_process
      → k.pid_state ≡ k0.pid_state
      → ((x : ℕ) → x ∈ k0.proc_list → (k.pcbs x).pid ≡ (k0.pcbs x).pid)
      → IsTable k
  IsTable-same k0 k t l hl nr st pid =
      let was : (x : ℕ) → x ∈ k.proc_list → x ∈ k0.proc_list = λ x m. subst (λ z. x ∈ z) l m in
      record {
        bucket = λ q b.
            ap (λ f. has q (f b)) hl
            ∙ t.bucket q b
            ∙ elim (Bool-cases (has q k0.proc_list)) [
              | inl m ↦ ap (λ n. has q k0.proc_list && (pid_hashfn n == b)) (sym (pid q m))
              | inr m ↦ rw (m) refl
            ]
            ∙ ap (λ z. has q z && (pid_hashfn (k.pcbs q).pid == b)) (sym l);
        hashed_once = λ b. subst (λ f. Distinct (f b)) (sym hl) (t.hashed_once b);
        unique = λ q r i j e.
            t.unique q r (was q i) (was r j) (sym (pid q (was q i)) ∙ e ∙ pid r (was r j));
        range = λ q i.
            subst (λ n. (1 ≤ n) × (n < max_pid)) (sym (pid q (was q i))) (t.range q (was q i));
        once = subst Distinct (sym l) t.once;
        numbers =
            subst (IsPidState (pids k)) (sym st)
              (subst (λ ns. IsPidState ns k0.pid_state) (sym (pids_same k0 k l pid)) t.numbers);
        counted = nr ∙ t.counted ∙ ap (λ z. length z + 1) (sym l);
      }
