-- ===== src/Process/Exit/Exited.antt =====
-- kern/process/proc.c, `do_exit`: the call as a whole.
use hard_core.Prelude.{
  held_le, ℕ, ◌<◌, ◌≡◌, refl, sym, ap, ap₂, ◌∙◌, subst, inl, inr, true, false, not, ◌&&◌, Option,
  none, some, List, [], arith, ◌==◌, Bool-cases, length, ◌∈◌, Distinct, ◌>>=◌, ◌>>◌, assert,
  bind-some, if-both,
}
use hard_core.Process.Family.{Links}
use hard_core.Process.Family.Chain.{Chain, IsFamily, write_other, write_same}
use hard_core.Process.Family.Adopt.{Orphans}
use hard_core.Process.State.{Pcb, Kernel}
use hard_core.Process.Table.Find.{IsTable}
use hard_core.Process.Table.Same.{IsTable-same}
use hard_core.Process.Resources.{Resources}
use hard_core.Process.Exit.{
  release, give_slot, become_zombie, wake_parent, adopt_all, exit_enter, do_exit,
}
use hard_core.Process.Exit.Waking.{Woken, woken_trans, wakes_waiting}
use hard_core.Process.Exit.Adopted.{onto, adopt_all-Adopted}
use hard_core.Process.Exit.Quiet.{
  Quiet, Quiet-trans, pid_kept, release-Quiet, HasMain, give_slot-Quiet,
}
use hard_core.Schedule.Sched.{
  ProcState, proc_uninit, proc_sleeping, proc_runnable, proc_zombie, is_runnable, is_zombie,
  SchedClass, Sched, write, set_proc, schedule,
}
use hard_core.Schedule.Sched.Balance.{ClassLaws, IsBalanced, waits, schedule-Picked}
use hard_core.Schedule.Sched.States.{schedule-state}

-- A process that ends for the state it is in.
pub record CanExit {Q W : Type 0} (c : Resources W) (k : Kernel Q W) (kids : ℕ → List ℕ) (q : ℕ)
    : Type 0 where
  pub table : IsTable k
  pub family : IsFamily k.links kids
  pub kids_listed : (r x : ℕ) → x ∈ kids r → x ∈ k.proc_list
  pub not_idle : (k.sched.current == k.sched.idleproc) ≡ false
  pub not_init : (k.sched.current == k.initproc) ≡ false
  pub parent : k.links.parent k.sched.current ≡ some q
  pub parent_live : is_zombie (k.sched.procs q).state ≡ false
  pub init_live : is_zombie (k.sched.procs k.initproc).state ≡ false
  pub not_own : (k.sched.current == q) ≡ false
  pub main : HasMain (release c k)

-- With no children left the others' children are as the loop left them.
orphaned :
    (cur : ℕ) (l : Links) (y : Option ℕ) (kids : ℕ → List ℕ)
    → Orphans cur l y [] kids
    → IsFamily l (write kids cur [])
unfolding Chain
orphaned cur l y kids o = record {
  chain = λ r. elim (Bool-cases (cur == r)) [
    | inl t ↦
        let same : cur ≡ r = ground arith in
        subst (λ z. Chain l z none (l.cptr z) (write kids cur [] z)) same
          (subst (Chain l cur none (l.cptr cur)) (sym (write_same kids cur [])) o.rest)
    | inr n ↦ subst (Chain l r none (l.cptr r)) (sym (write_other kids cur [] r n)) (o.others r n)
  ];
  distinct = λ r. if-both Distinct (cur == r) tt (o.distinct r);
}

module _ {Q W : Type 0} {sc : SchedClass Q} (laws : ClassLaws sc) where
  -- What `do_exit` of the running process of `k` gives.
  pub record Exited (k : Kernel Q W) (kids : ℕ → List ℕ) (code : ℕ) (o : Option (Kernel Q W))
      : Type 0 where
    pub after : Kernel Q W
    pub gives : o ≡ some after
    pub table : IsTable after
    pub family : IsFamily after.links (
        write
          (write kids k.initproc (onto (kids k.sched.current) (kids k.initproc)))
          k.sched.current
          [])
    pub zombie : is_zombie (after.sched.procs k.sched.current).state ≡ true
    pub exit_code : (after.pcbs k.sched.current).exit_code ≡ code
    pub left : (after.sched.current == k.sched.current) ≡ false
    pub balanced : IsBalanced laws after.sched

  -- The kernel with the zombie.
  record Dead (k k2 : Kernel Q W) (code : ℕ) : Type 0 where
    sched :
        k2.sched
        ≡ set_proc k.sched.current
            (record (k.sched.procs k.sched.current) { state = proc_zombie })
            k.sched
    links : k2.links ≡ k.links
    proc_list : k2.proc_list ≡ k.proc_list
    hash_list : k2.hash_list ≡ k.hash_list
    nr_process : k2.nr_process ≡ k.nr_process
    initproc : k2.initproc ≡ k.initproc
    pid_state : k2.pid_state ≡ k.pid_state
    pid : (x : ℕ) → (k2.pcbs x).pid ≡ (k.pcbs x).pid
    exit_code : (k2.pcbs k.sched.current).exit_code ≡ code

  zombie-Dead : (k k1 : Kernel Q W) (code : ℕ) → Quiet k k1 → Dead k (become_zombie code k1) code
  unfolding become_zombie
  zombie-Dead k k1 code q =
      let v = record (k1.pcbs k1.sched.current) { exit_code = code } in
      record {
        sched =
            ap
              (λ (s : Sched Q).
                set_proc s.current (record (s.procs s.current) { state = proc_zombie }) s)
              q.sched;
        links = q.links;
        proc_list = q.proc_list;
        hash_list = q.hash_list;
        nr_process = q.nr_process;
        initproc = q.initproc;
        pid_state = q.pid_state;
        pid = λ x. pid_kept k1.pcbs k1.sched.current v x refl ∙ q.pid x;
        exit_code =
            subst (λ (s : Sched Q). (write k1.pcbs k1.sched.current v s.current).exit_code ≡ code)
              q.sched (ap (λ (b : Pcb). b.exit_code) (write_same k1.pcbs k1.sched.current v));
      }

rests : (st : ProcState) → is_zombie st ≡ true → is_runnable st ≡ false
rests proc_uninit z = refl
rests proc_sleeping z = refl
rests proc_runnable z = absurd (cc)
rests proc_zombie z = refl

module _ {Q : Type 0} {sc : SchedClass Q} (laws : ClassLaws sc) where
  -- A zombie that runs was in no queue.
  dead-IsBalanced :
      (s : Sched Q)
      → IsBalanced laws s
      → IsBalanced laws (set_proc s.current (record (s.procs s.current) { state = proc_zombie }) s)
  unfolding IsBalanced
  dead-IsBalanced s b = (
    b.0,
    λ r. elim (Bool-cases (s.current == r)) [
      | inl t ↦
          let here : (r == s.current) ≡ true = ground arith in b.1 r ∙ rw (here) (ground arith)
      | inr n ↦ rw (n) (b.1 r)
    ],
  )

  -- A process that waits for the processor is no zombie.
  not_zombie :
      (s : Sched Q) (n x : ℕ)
      → waits s n ≡ true
      → is_zombie (s.procs x).state ≡ true
      → (n == x) ≡ false
  not_zombie s n x h z = elim (Bool-cases (n == x)) [
    | inl t ↦
        let same : n ≡ x = ground arith in
        let r : is_runnable (s.procs n).state ≡ false =
          ap (λ y. is_runnable (s.procs y).state) same ∙ rests (s.procs x).state z in
        absurd (ground arith)
    | inr o ↦ o
  ]

module _ {Q W : Type 0} {sc : SchedClass Q} (laws : ClassLaws sc) (c : Resources W) (k : Kernel Q W)
    (kids : ℕ → List ℕ) (q : ℕ) (v : CanExit c k kids q) (code : ℕ) where
  few : length (kids k.sched.current) < k.nr_process
  few =
      let t = v.table.counted in
      let l =
        held_le (kids k.sched.current) k.proc_list (v.family.distinct k.sched.current)
          (v.kids_listed k.sched.current) in
      omega arith

  dead_proc : ℕ → Sched Q
  dead_proc cur = set_proc cur (record (k.sched.procs cur) { state = proc_zombie }) k.sched

  -- Other processes are as alive as before.
  dead_other :
      (x : ℕ)
      → (k.sched.current == x) ≡ false
      → is_zombie ((dead_proc k.sched.current).procs x).state ≡ is_zombie (k.sched.procs x).state
  unfolding dead_proc
  dead_other x n = rw (n) refl

  dead_self : is_zombie ((dead_proc k.sched.current).procs k.sched.current).state ≡ true
  unfolding dead_proc
  dead_self =
      let self : (k.sched.current == k.sched.current) ≡ true = ground arith in rw (self) refl

  orphans :
      (k3 : Kernel Q W)
      → k3.links ≡ k.links
      → k3.sched.current ≡ k.sched.current
      → Orphans k3.sched.current k3.links none (kids k.sched.current) kids
  orphans k3 l cu =
      subst (λ z. Orphans z k3.links none (kids k.sched.current) kids) (sym cu)
        (subst (λ z. Orphans k.sched.current z none (kids k.sched.current) kids) (sym l)
          (record {
            rest = v.family.chain k.sched.current;
            others = λ s n. v.family.chain s;
            distinct = v.family.distinct;
            once = v.family.distinct k.sched.current;
          }))

  -- Up to the call of `schedule`.
  record Entered (o : Option (Kernel Q W)) : Type 0 where
    after : Kernel Q W
    gives : o ≡ some after
    table : IsTable after
    family : IsFamily after.links (
        write
          (write kids k.initproc (onto (kids k.sched.current) (kids k.initproc)))
          k.sched.current
          [])
    exit_code : (after.pcbs k.sched.current).exit_code ≡ code
    woken : Woken laws (dead_proc k.sched.current) after.sched

  entered : Entered (exit_enter sc c code k)
  unfolding exit_enter dead_proc wake_parent
  entered =
      let (k1, g1, q1) = give_slot-Quiet (release c k) v.main in
      let d = zombie-Dead laws k k1 code (Quiet-trans k (release c k) k1 (release-Quiet c k) q1) in
      let k2 = become_zombie code k1 in
      let cur2 : k2.sched.current ≡ k.sched.current = ap (λ (z : Sched Q). z.current) d.sched in
      let above : k2.links.parent k2.sched.current ≡ some q =
        ap (λ x. k2.links.parent x) cur2
        ∙ ap (λ (z : Links). z.parent k.sched.current) d.links
        ∙ v.parent in
      let alive : (x : ℕ)
          → (k.sched.current == x) ≡ false
          → is_zombie (k2.sched.procs x).state ≡ is_zombie (k.sched.procs x).state =
        λ x n. ap (λ (z : Sched Q). is_zombie (z.procs x).state) d.sched ∙ dead_other x n in
      let (s3, g3, w3) = wakes_waiting laws q k2 (alive q v.not_own ∙ v.parent_live) in
      let k3 : Kernel Q W = record k2 { sched = s3 } in
      let cur3 : k3.sched.current ≡ k.sched.current = w3.current ∙ cur2 in
      let a =
        adopt_all-Adopted laws (kids k.sched.current) k3.nr_process none kids k3
          (subst (λ n. length (kids k.sched.current) < n) (sym d.nr_process) few)
          (ap₂ (λ x y. x == y) cur3 d.initproc ∙ v.not_init)
          (ap (λ x. is_zombie (s3.procs x).state) d.initproc
            ∙ w3.live k.initproc
            ∙ alive k.initproc v.not_init
            ∙ v.init_live)
          (orphans k3 d.links cur3) in
      let step3 : Kernel Q W → Option (Kernel Q W) = λ z. adopt_all sc z.nr_process z in
      let step2 : Kernel Q W → Option (Kernel Q W) = λ z.
        let z2 = become_zombie code z in
        wake_parent sc (z2.links.parent z2.sched.current) z2 >>= step3 in
      record {
        after = record k3 { links = a.links; sched = a.sched };
        gives =
            subst
              (λ b.
                (assert (not b && not (k.sched.current == k.initproc))
                  >> (give_slot (release c k) >>= step2))
                ≡ some (record k3 { links = a.links; sched = a.sched }))
              (sym v.not_idle)
              (subst
                (λ b.
                  (assert (true && not b) >> (give_slot (release c k) >>= step2))
                  ≡ some (record k3 { links = a.links; sched = a.sched }))
                (sym v.not_init)
                (bind-some (give_slot (release c k)) step2 g1
                  ∙ bind-some (wake_parent sc (k2.links.parent k2.sched.current) k2) step3
                      (ap (λ o. wake_parent sc o k2) above ∙ g3)
                  ∙ a.gives));
        table =
            IsTable-same k (record k3 { links = a.links; sched = a.sched }) v.table d.proc_list
              d.hash_list d.nr_process d.pid_state (λ x m. d.pid x);
        family =
            let (y, o) = a.left in
            subst
              (λ i.
                IsFamily a.links
                  (write (write kids i (onto (kids k.sched.current) (kids i))) k.sched.current []))
              d.initproc
              (subst
                (λ z. IsFamily a.links (
                  write (write kids k3.initproc (onto (kids k.sched.current) (kids k3.initproc))) z
                    []))
                cur3
                (orphaned k3.sched.current a.links y
                  (write kids k3.initproc (onto (kids k.sched.current) (kids k3.initproc))) o));
        exit_code = d.exit_code;
        woken =
            subst (λ z. Woken laws z a.sched) d.sched
              (woken_trans laws k2.sched s3 a.sched w3 a.woken);
      }

  -- `do_exit`, with a scheduling class that keeps its laws and a balanced run queue, of a running
  -- process that is neither the idle nor the init process, whose parent `q` and the init process
  -- are no zombies and whose main thread is found, does not fault: the process is a zombie with
  -- its exit code and does not run; its children, in turn, have become the first children of the
  -- init process; the table agrees and the run queue is balanced.
  pub do_exit_lem : IsBalanced laws k.sched → Exited laws k kids code (do_exit sc c code k)
  unfolding do_exit dead_proc
  do_exit_lem b =
      let e = entered in
      let w = e.woken in
      let s = e.after.sched in
      let p = schedule-Picked laws s (w.balanced (dead-IsBalanced laws k.sched b)) in
      let next : Kernel Q W → Option (Kernel Q W) =
        λ z. some (record z { sched = schedule sc z.sched }) in
      let dead : is_zombie (s.procs k.sched.current).state ≡ true =
        w.live k.sched.current ∙ dead_self in
      record {
        after = record e.after { sched = schedule sc s };
        gives = bind-some (exit_enter sc c code k) next e.gives;
        table =
            IsTable-same e.after (record e.after { sched = schedule sc s }) e.table refl refl refl
              refl (λ x m. refl);
        family = e.family;
        zombie = ap is_zombie (schedule-state laws s k.sched.current) ∙ dead;
        exit_code = e.exit_code;
        left = elim p.next [
          | inl h ↦ not_zombie laws s (schedule sc s).current k.sched.current h dead
          | inr h ↦
              let idle : (schedule sc s).current ≡ k.sched.idleproc = h.0 ∙ w.idleproc in
              ground (arith, v.not_idle)
        ];
        balanced = p.balanced;
      }
