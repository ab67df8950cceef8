-- ===== src/Process/Table/Enter.antt =====
-- kern/process/proc.c: a new process gets its number and enters the table.
use hard_core.Prelude.{
  ℕ, ◌+◌, ◌≤◌, ◌<◌, ◌≡◌, refl, sym, ap, ap₂, ◌∙◌, subst, ◌≢◌, inl, inr, true, false, ◌&&◌, Option,
  some, List, ◌∷◌, arith, ◌==◌, Bool-cases, length, length-map, has, ◌∈◌, ◌∉◌, Distinct, bind-some,
  if-both, has-map, map_congr,
}
use hard_core.Process.Pids.{max_process, max_pid, PidState, get_pid}
use hard_core.Process.Pids.Fresh.{IsPidState, IsFound}
use hard_core.Process.Pids.Returns.{get_pid_lem}
use hard_core.Process.Family.{join}
use hard_core.Process.Family.Chain.{IsFamily, write_other, write_same}
use hard_core.Process.Family.Join.{join-IsFamily}
use hard_core.Process.State.{Kernel}
use hard_core.Process.Table.{
  pid_hashfn, hash_proc, set_links, set_links_under, pids, set_pid, enter,
}
use hard_core.Process.Table.Find.{IsTable}
use hard_core.Schedule.Sched.{write}

module _ {Q W : Type 0} where
  -- The table with the process `p`, a child of `r`.
  unfoldable pub entered : ℕ → ℕ → PidState → Kernel Q W → Kernel Q W
  entered p r s k = record k {
    pcbs = write k.pcbs p (record (k.pcbs p) { pid = s.last_pid });
    hash_list = write k.hash_list (pid_hashfn s.last_pid) (p ∷ k.hash_list (pid_hashfn s.last_pid));
    links = join p r k.links;
    proc_list = p ∷ k.proc_list;
    nr_process = k.nr_process + 1;
    pid_state = s;
  }

  enter_at :
      (p r : ℕ) (s : PidState) (k : Kernel Q W)
      → k.links.parent p ≡ some r
      → set_links p (hash_proc p (set_pid p s k)) ≡ some (entered p r s k)
  unfolding set_links set_links_under hash_proc set_pid entered
  enter_at p r s k e = let self : (p == p) ≡ true = ground arith in rw (e) (rw (self) refl)

module _ {Q W : Type 0} (p r : ℕ) (s : PidState) (k : Kernel Q W) (t : IsTable k)
    (out : p ∉ k.proc_list) (f : IsFound (pids k) s) (positive : 1 ≤ s.last_pid) where
  k' : Kernel Q W
  k' = entered p r s k

  pid_self : (k'.pcbs p).pid ≡ s.last_pid
  unfolding k' entered
  pid_self = ap (λ v. v.pid) (write_same k.pcbs p (record (k.pcbs p) { pid = s.last_pid }))

  pid_other : (q : ℕ) → (p == q) ≡ false → (k'.pcbs q).pid ≡ (k.pcbs q).pid
  unfolding k' entered
  pid_other q n =
      ap (λ v. v.pid) (write_other k.pcbs p (record (k.pcbs p) { pid = s.last_pid }) q n)

  pid_of : (q : ℕ) → (p == q) ≡ true → (k'.pcbs q).pid ≡ s.last_pid
  pid_of q e = let same : p ≡ q = ground arith in ap (λ z. (k'.pcbs z).pid) (sym same) ∙ pid_self

  new_pid : (q : ℕ) → q ∈ k.proc_list → (k.pcbs q).pid ≢ s.last_pid
  unfolding pids
  new_pid q m e =
      let i = has-map (λ z. (k.pcbs z).pid) k.proc_list q m in
      let u = f.unused in absurd (ground arith)

  unhashed : (b : ℕ) → p ∉ k.hash_list b
  unhashed b = let h = t.bucket p b in ground arith

  in_new : (q b : ℕ) → (p == q) ≡ true → has q (k'.hash_list b) ≡ (pid_hashfn s.last_pid == b)
  unfolding k' entered
  in_new q b y =
      let same : p ≡ q = ground arith in
      let o = subst (λ z. z ∉ k.hash_list b) same (unhashed b) in
      elim (Bool-cases (pid_hashfn s.last_pid == b)) [
        | inl z ↦ rw (z) (ground arith)
        | inr z ↦ rw (z) o
      ]

  in_old : (q b : ℕ) → (p == q) ≡ false → has q (k'.hash_list b) ≡ has q (k.hash_list b)
  unfolding k' entered
  in_old q b n = elim (Bool-cases (pid_hashfn s.last_pid == b)) [
    | inl z ↦
        let at : pid_hashfn s.last_pid ≡ b = ground arith in
        let other : (q == p) ≡ false = ground arith in
        rw (z) (rw (other) (ap (λ c. has q (k.hash_list c)) at))
    | inr z ↦ rw (z) refl
  ]

  entered-bucket :
      (q b : ℕ) → has q (k'.hash_list b) ≡ (has q k'.proc_list && (pid_hashfn (k'.pcbs q).pid == b))
  unfolding k' entered
  entered-bucket q b = elim (Bool-cases (p == q)) [
    | inl y ↦
        let here : (q == p) ≡ true = ground arith in
        in_new q b y ∙ ap (λ n. pid_hashfn n == b) (sym (pid_of q y)) ∙ rw (here) refl
    | inr n ↦
        let other : (q == p) ≡ false = ground arith in
        in_old q b n
        ∙ t.bucket q b
        ∙ ap (λ m. has q k.proc_list && (pid_hashfn m == b)) (sym (pid_other q n))
        ∙ rw (other) refl
  ]

  entered_unique :
      (x q : ℕ) → x ∈ k'.proc_list → q ∈ k'.proc_list → (k'.pcbs x).pid ≡ (k'.pcbs q).pid → x ≡ q
  unfolding k' entered
  entered_unique x q i j e = elim (Bool-cases (p == x)) [
    | inl t1 ↦ elim (Bool-cases (p == q)) [
      | inl t2 ↦ ground arith
      | inr n2 ↦ absurd (new_pid q (ground arith) (sym (pid_other q n2) ∙ sym e ∙ pid_of x t1))
    ]
    | inr n1 ↦ elim (Bool-cases (p == q)) [
      | inl t2 ↦ absurd (new_pid x (ground arith) (sym (pid_other x n1) ∙ e ∙ pid_of q t2))
      | inr n2 ↦
          t.unique x q (ground arith) (ground arith) (sym (pid_other x n1) ∙ e ∙ pid_other q n2)
    ]
  ]

  entered-range : (x : ℕ) → x ∈ k'.proc_list → (1 ≤ (k'.pcbs x).pid) × ((k'.pcbs x).pid < max_pid)
  unfolding k' entered
  entered-range x i = elim (Bool-cases (p == x)) [
    | inl y ↦ subst (λ n. (1 ≤ n) × (n < max_pid)) (sym (pid_of x y)) (positive, f.below)
    | inr n ↦ subst (λ n. (1 ≤ n) × (n < max_pid)) (sym (pid_other x n)) (t.range x (ground arith))
  ]

  entered-pids : pids k' ≡ s.last_pid ∷ pids k
  unfolding k' entered pids
  entered-pids =
      ap₂ (λ (n : ℕ) (ns : List ℕ). n ∷ ns) pid_self
        (map_congr (λ z. (k'.pcbs z).pid) (λ z. (k.pcbs z).pid) k.proc_list
          (λ x m. pid_other x (ground arith)))

  pub entered-IsTable : IsTable (entered p r s k)
  unfolding k' entered
  entered-IsTable = record {
    bucket = entered-bucket;
    hashed_once = λ b.
        if-both Distinct (pid_hashfn s.last_pid == b)
          (unhashed (pid_hashfn s.last_pid), t.hashed_once (pid_hashfn s.last_pid))
          (t.hashed_once b);
    unique = entered_unique;
    range = entered-range;
    once = (out, t.once);
    numbers = subst (λ ns. IsPidState ns s) (sym entered-pids) f.kept;
    counted = let c = t.counted in omega arith;
  }

module _ {Q W : Type 0} where
  pids_room :
      (k : Kernel Q W) → IsTable k → k.nr_process < max_process → length (pids k) + 1 < max_pid
  unfolding pids
  pids_room k t h =
      let c = t.counted in let l = length-map k.proc_list (λ p. (k.pcbs p).pid) in omega arith

  -- What the entry of a new process `p` with parent `r` gives.
  pub record Entered (p r : ℕ) (kids : ℕ → List ℕ) (k : Kernel Q W) (o : Option (Kernel Q W))
      : Type 0 where
    pub after : Kernel Q W
    pub gives : o ≡ some after
    pub table : IsTable after
    pub family : IsFamily after.links (write kids r (p ∷ kids r))
    pub listed : after.proc_list ≡ p ∷ k.proc_list
    pub sched : after.sched ≡ k.sched
    pub fresh : (after.pcbs p).pid ∉ pids k

  -- With fewer than MAX_PROCESS processes, a process that is not in the agreeing table and is
  -- no child of any process, but has a parent `r`, is entered without a fault: the table still
  -- agrees, the number of the process was no other's, and it is the youngest child of `r`.
  pub enter_lem :
      (p r : ℕ) (kids : ℕ → List ℕ) (k : Kernel Q W)
      → IsTable k
      → IsFamily k.links kids
      → k.nr_process < max_process
      → p ∉ k.proc_list
      → ((x : ℕ) → p ∉ kids x)
      → k.links.parent p ≡ some r
      → Entered p r kids k (enter p k)
  unfolding enter entered k'
  enter_lem p r kids k t f room out alone e =
      let g = get_pid_lem (pids k) k.pid_state t.numbers (pids_room k t room) in
      let next : PidState → Option (Kernel Q W) = λ s. set_links p (hash_proc p (set_pid p s k)) in
      record {
        after = entered p r g.state k;
        gives = bind-some (get_pid (pids k) k.pid_state) next g.gives ∙ enter_at p r g.state k e;
        table = entered-IsTable p r g.state k t out g.found g.positive;
        family = join-IsFamily k.links kids p r f alone e;
        listed = refl;
        sched = refl;
        fresh =
            subst (λ n. n ∉ pids k) (sym (pid_self p r g.state k t out g.found g.positive))
              g.found.unused;
      }
