-- ===== src/Process/Tests.antt =====
-- A small system, on which the results about kern/process/proc.c are tried.
use hard_core.Prelude.{
  ℕ, ◌+◌, ◌-◌, ◌≡◌, refl, ap, subst, ◌↔◌, inl, inr, Bool, true, false, ◌&&◌, none, some, List, [],
  ◌∷◌, arith, ◌==◌, if◌then◌else◌, Bool-cases, has, ◌∈◌, Distinct, if-both,
}
use hard_core.Process.Pids.{max_pid, PidState, first_pid_state, repeat, scan, get_pid}
use hard_core.Process.Pids.Fresh.{IsPidState, Free}
use hard_core.Process.Pids.Returns.{Found, get_pid_lem}
use hard_core.Process.Family.{Links}
use hard_core.Process.Family.Chain.{Chain, IsFamily}
use hard_core.Process.State.{Kernel, new_pcb}
use hard_core.Process.Table.{pid_hashfn, find_proc, pids}
use hard_core.Process.Table.Find.{IsTable, find_proc_lem}
use hard_core.Process.Resources.{block, kstack, one}
use hard_core.Process.Sample.{Counts, small, small_laws}
use hard_core.Process.Exit.{wt_child, release, leave_mm, do_exit}
use hard_core.Process.Exit.Exited.{CanExit, Exited, do_exit_lem}
use hard_core.Process.Wait.{do_wait}
use hard_core.Process.Wait.Choosing.{first_of}
use hard_core.Process.Wait.Reaped.{Reaped, do_wait-Reaped}
use hard_core.Process.Fork.{put_fs, put_files}
use hard_core.Schedule.Sched.Balance.{IsBalanced}
use hard_core.Schedule.Trees.{leaf, nodes}
use hard_core.Schedule.Cfs.{CfsQueue}
use hard_core.Schedule.Cfs.Sample.{fair, fair_laws, fair_queue, nobody-CfsValid}
use hard_core.Schedule.Sched.{ProcState, proc_sleeping, proc_runnable, proc_zombie}

-- `get_pid` of an empty list, at first and behind a gap.
first_pid : get_pid [] first_pid_state ≡ some (record { last_pid = 1; next_safe = max_pid })
unfolding get_pid repeat scan
first_pid = refl

abbrev gap_state : PidState
gap_state = record { last_pid = 3; next_safe = 5 }

gap_state-IsPidState : IsPidState (1 ∷ 2 ∷ 3 ∷ 5 ∷ []) gap_state
unfolding IsPidState Free
gap_state-IsPidState = (λ p l u. ground arith, omega arith)

get_pid_lem_example : Found (1 ∷ 2 ∷ 3 ∷ 5 ∷ []) (get_pid (1 ∷ 2 ∷ 3 ∷ 5 ∷ []) gap_state)
get_pid_lem_example = get_pid_lem (1 ∷ 2 ∷ 3 ∷ 5 ∷ []) gap_state gap_state-IsPidState (omega arith)

-- The init process 8 waits for its child 10, which runs; 10 has the children 12, a zombie, and 11.
abbrev keep : (ℕ → Bool) → List ℕ → List ℕ
keep f [] = []
keep f (x ∷ xs) = if f x then x ∷ keep f xs else keep f xs

has-keep : (f : ℕ → Bool) (q : ℕ) (xs : List ℕ) → has q (keep f xs) ≡ (has q xs && f q)
has-keep f q [] = refl
has-keep f q (x ∷ xs) = elim (Bool-cases (q == x)) [
  | inl t ↦
      let same : q ≡ x = ground arith in
      let e = ap f same in
      elim (Bool-cases (f x)) [
        | inl u ↦ rw (u) (ground arith)
        | inr u ↦ rw (u) (ground (arith, has-keep f q xs))
      ]
  | inr n ↦ elim (Bool-cases (f x)) [
    | inl u ↦ rw (u) (ground (arith, has-keep f q xs))
    | inr u ↦ rw (u) (ground (arith, has-keep f q xs))
  ]
]

Distinct-keep : (f : ℕ → Bool) (xs : List ℕ) → Distinct xs → Distinct (keep f xs)
Distinct-keep f [] d = d
Distinct-keep f (x ∷ xs) d =
    if-both Distinct (f x) (ground (arith, has-keep f x xs), Distinct-keep f xs d.1)
      (Distinct-keep f xs d.1)

abbrev all_procs : List ℕ
all_procs = 12 ∷ 11 ∷ 10 ∷ 8 ∷ []

abbrev state_of : ℕ → ProcState
state_of p = if p == 12 then proc_zombie else if p == 10 then proc_runnable else proc_sleeping

abbrev bucket_of : ℕ → List ℕ
bucket_of b = keep (λ p. pid_hashfn (p - 7) == b) all_procs

abbrev family : Links
family = record {
  parent = λ p.
      if p == 10 then some 8 else if p == 11 then some 10 else if p == 12 then some 10 else none;
  cptr = λ p. if p == 8 then some 10 else if p == 10 then some 12 else none;
  optr = λ p. if p == 12 then some 11 else none;
  yptr = λ p. if p == 11 then some 12 else none;
}

abbrev system : Kernel CfsQueue Counts
system = record {
  sched = record {
    procs = λ p. record {
      state = state_of p;
      wait_state = if p == 8 then wt_child else 0;
      need_resched = false;
      runs = 0;
    };
    current = 10;
    idleproc = 7;
    queue = fair_queue leaf;
    timers = [];
  };
  pcbs = λ p. record new_pcb { pid = p - 7; exit_code = p };
  links = family;
  proc_list = all_procs;
  hash_list = bucket_of;
  nr_process = 5;
  initproc = 8;
  pid_state = record { last_pid = 5; next_safe = max_pid };
  mm_count = λ m. 0;
  files_count = λ f. 0;
  world = λ k x. if has x all_procs then one block x k x + one kstack 0 k x else 0;
}

abbrev children : ℕ → List ℕ
children r = if r == 8 then 10 ∷ [] else if r == 10 then 12 ∷ 11 ∷ [] else []

system-IsTable : IsTable system
unfolding pids IsPidState Free
system-IsTable = record {
  bucket = λ p b. has-keep (λ q. pid_hashfn (q - 7) == b) p all_procs;
  hashed_once = λ b. Distinct-keep (λ q. pid_hashfn (q - 7) == b) all_procs (ground arith);
  unique = λ p q i j e. ground arith;
  range = λ p i. ground arith;
  once = ground arith;
  numbers = (λ p l u. ground arith, omega arith);
  counted = refl;
}

family-IsFamily : IsFamily family children
unfolding Chain
family-IsFamily = record {
  chain = λ r. elim (Bool-cases (r == 8)) [
    | inl t ↦
        let same : 8 ≡ r = ground arith in
        subst (λ z. Chain family z none (family.cptr z) (children z)) same (refl, refl, refl, refl)
    | inr n ↦ elim (Bool-cases (r == 10)) [
      | inl t ↦
          let same : 10 ≡ r = ground arith in
          subst (λ z. Chain family z none (family.cptr z) (children z)) same
            (refl, refl, refl, (refl, refl, refl, refl))
      | inr m ↦ rw (n) (rw (m) refl)
    ]
  ];
  distinct =
      λ r. if-both Distinct (r == 8) (refl, tt) (if-both Distinct (r == 10) (refl, (refl, tt)) tt);
}

find_proc_lem_example :
    (find_proc 4 system ≡ some 11) ↔ ((11 ∈ all_procs) × ((system.pcbs 11).pid ≡ 4))
find_proc_lem_example = find_proc_lem system system-IsTable 11 4

kids_listed : (r x : ℕ) → x ∈ children r → x ∈ all_procs
kids_listed r x =
    if-both (λ l. x ∈ l → x ∈ all_procs) (r == 8) (λ m. ground arith)
      (if-both (λ l. x ∈ l → x ∈ all_procs) (r == 10) (λ m. ground arith) (λ m. absurd (cc)))

system-CanExit : CanExit small system children 8
unfolding release put_fs put_files leave_mm
system-CanExit = record {
  table = system-IsTable;
  family = family-IsFamily;
  kids_listed = kids_listed;
  not_idle = refl;
  not_init = refl;
  parent = refl;
  parent_live = refl;
  init_live = refl;
  not_own = refl;
  main = inl refl;
}

system-IsBalanced : IsBalanced fair_laws system.sched
unfolding IsBalanced nodes
system-IsBalanced = (
  nobody-CfsValid,
  λ r. elim (Bool-cases (r == 12)) [
    | inl t ↦ rw (t) refl
    | inr n ↦
        rw (n) (elim (Bool-cases (r == 10)) [ inl t ↦ rw (t) (ground arith) | inr m ↦ rw (m) refl ])
  ],
)

do_exit_lem_example : Exited fair_laws system children 3 (do_exit fair small 3 system)
do_exit_lem_example =
    do_exit_lem fair_laws small system children 8 system-CanExit 3 system-IsBalanced

kids_of_running : (x : ℕ) → x ∈ all_procs → family.parent x ≡ some 10 → x ∈ children 10
kids_of_running x m e = ground arith

do_wait-Reaped_example : Reaped small_laws 12 children system (do_wait small fair true 0 system)
unfolding first_of
do_wait-Reaped_example =
    do_wait-Reaped small_laws fair system children 0 12 system-IsTable family-IsFamily
      (kids_listed 10) kids_of_running refl refl refl
