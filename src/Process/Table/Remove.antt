-- ===== src/Process/Table/Remove.antt =====
-- kern/process/proc.c: a process that was waited for leaves the table.
use hard_core.Prelude.{
  ℕ, ◌-◌, ◌≡◌, refl, sym, ap, ◌∙◌, subst, inl, inr, true, false, not, ◌&&◌, Option, none, some,
  List, map, arith, ◌==◌, Bool-cases, has, ◌∈◌, ◌∉◌, Distinct, without, length-without,
  has-without_ne, Distinct-without, has-map-without,
}
use hard_core.Process.Pids.Fresh.{pids_fewer}
use hard_core.Process.Family.{leave}
use hard_core.Process.Family.Chain.{IsFamily, chain-parent}
use hard_core.Process.Family.Leave.{leave-IsFamily}
use hard_core.Process.State.{Kernel}
use hard_core.Process.Table.{
  pid_hashfn, unhash_proc, remove_links, remove_links_under, pids, remove,
}
use hard_core.Process.Table.Find.{IsTable}
use hard_core.Schedule.Sched.{write}

listed : (p q : ℕ) (xs : List ℕ) → Distinct xs → has q (without p xs) ≡ (not (p == q) && has q xs)
listed p q xs d = elim (Bool-cases (q == p)) [
  | inl t ↦
      let same : q ≡ p = ground arith in
      let o = (Distinct-without p xs d).1 in
      let e = subst (λ z. z ∉ without p xs) (sym same) o in
      let here : (p == q) ≡ true = ground arith in rw (here) e
  | inr n ↦ let other : (p == q) ≡ false = ground arith in rw (other) (has-without_ne q p xs n)
]

module _ {Q W : Type 0} where
  unfoldable removed : ℕ → ℕ → Kernel Q W → Kernel Q W
  removed p r k = record k {
    hash_list = λ b. without p (k.hash_list b);
    links = leave p r k.links;
    proc_list = without p k.proc_list;
    nr_process = k.nr_process - 1;
  }

  remove_at :
      (p r : ℕ) (k : Kernel Q W) → k.links.parent p ≡ some r → remove p k ≡ some (removed p r k)
  unfolding remove remove_links remove_links_under unhash_proc removed
  remove_at p r k e = rw (e) refl

  still : (p q : ℕ) (k : Kernel Q W) → IsTable k → q ∈ without p k.proc_list → q ∈ k.proc_list
  still p q k t m = let l = listed p q k.proc_list t.once in ground arith

  removed-bucket :
      (p r q b : ℕ) (k : Kernel Q W) (t : IsTable k)
      → has q ((removed p r k).hash_list b)
        ≡ (has q (removed p r k).proc_list && (pid_hashfn ((removed p r k).pcbs q).pid == b))
  unfolding removed
  removed-bucket p r q b k t =
      listed p q (k.hash_list b) (t.hashed_once b)
      ∙ ap (λ x. not (p == q) && x) (t.bucket q b)
      ∙ ground arith
      ∙ ap (λ x. x && (pid_hashfn (k.pcbs q).pid == b)) (sym (listed p q k.proc_list t.once))

  removed-IsTable :
      (p r : ℕ) (k : Kernel Q W) → IsTable k → p ∈ k.proc_list → IsTable (removed p r k)
  unfolding removed pids
  removed-IsTable p r k t m =
      let c = t.counted in
      let l = length-without p k.proc_list m in
      record {
        bucket = λ q b. removed-bucket p r q b k t;
        hashed_once = λ b. (Distinct-without p (k.hash_list b) (t.hashed_once b)).0;
        unique = λ x q i j e. t.unique x q (still p x k t i) (still p q k t j) e;
        range = λ q i. t.range q (still p q k t i);
        once = (Distinct-without p k.proc_list t.once).0;
        numbers =
            pids_fewer (pids k) (map (λ z. (k.pcbs z).pid) (without p k.proc_list)) k.pid_state
              (λ v. has-map-without (λ z. (k.pcbs z).pid) p k.proc_list v) t.numbers;
        counted = omega arith;
      }

  pub record Removed (p r : ℕ) (kids : ℕ → List ℕ) (k : Kernel Q W) (o : Option (Kernel Q W))
      : Type 0 where
    pub after : Kernel Q W
    pub gives : o ≡ some after
    pub table : IsTable after
    pub family : IsFamily after.links (write kids r (without p (kids r)))
    pub pcbs : after.pcbs ≡ k.pcbs
    pub world : after.world ≡ k.world
    pub unlisted : p ∉ after.proc_list

  -- A child `p` of `r` in the agreeing table leaves it without a fault: the table still agrees
  -- and does not hold the process, and `r` has its other children in their order.
  pub remove_lem :
      (p r : ℕ) (kids : ℕ → List ℕ) (k : Kernel Q W)
      → IsTable k
      → IsFamily k.links kids
      → p ∈ k.proc_list
      → p ∈ kids r
      → Removed p r kids k (remove p k)
  unfolding removed
  remove_lem p r kids k t f m c = record {
    after = removed p r k;
    gives = remove_at p r k (chain-parent k.links r none (k.links.cptr r) (kids r) p (f.chain r) c);
    table = removed-IsTable p r k t m;
    family = leave-IsFamily k.links kids p r f c;
    pcbs = refl;
    world = refl;
    unlisted = (Distinct-without p k.proc_list t.once).1;
  }
