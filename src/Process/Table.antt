-- ===== src/Process/Table.antt =====
-- kern/process/proc.c: the hash table of the processes, and how a process is entered and removed.
pub mod Find
pub mod Same
pub mod Enter
pub mod Remove
use hard_core.Prelude.{
  ℕ, zero, suc, ◌+◌, ◌-◌, ◌*◌, ◌/◌, ◌%◌, ◌^◌, ◌≤◌, ◌<◌, min, max, ◌≡◌, refl, sym, ap, ap₂, ◌∙◌,
  subst, ◌≢◌, ◌↔◌, ◌⊎◌, inl, inr, Bool, true, false, not, ◌&&◌, ◌||◌, Option, none, some, List, [],
  ◌∷◌, ◌++◌, map, arith, ltb, leb, ◌==◌, if◌then◌else◌, ltb→lt, lt→ltb, leb→le, ==_iff, tests,
  Bool-cases, Option-cases, length, get_elem?, set, length-append, length-set, get_elem?-set_self,
  get_elem?-set_ne, get_or, take, drop, replicate, take-append-drop, length-take, length-drop,
  length-replicate, length-map, lt_of_get, set-set, set_self, has, ◌∈◌, ◌∉◌, has-append, Distinct,
  Apart, Distinct-split, Distinct-join, snoc_view, Distinct-insert, Distinct-remove,
  Distinct-remove_after, has-ne, ◌>>=◌, ◌>>◌, assert, bind-some, past_assert, bind_assoc,
  bind_congr, if-both, Distinct-snoc, past_bind, without, length-without, has-without,
  has-without_ne, has-without_le, Distinct-without,
}
use hard_core.Libs.Hash.{hash32}
use hard_core.Process.Pids.{max_pid, PidState, get_pid}
use hard_core.Process.Family.{Links, join, leave}
use hard_core.Process.State.{Pcb, Kernel, set_pcb}
use hard_core.Schedule.Sched.{write}

-- HASH_SHIFT is 10.
unfoldable pub pid_hashfn : ℕ → ℕ
pid_hashfn pid = hash32 pid 10

-- The loop of `find_proc` over one bucket.
unfoldable pub find_in : (ℕ → Pcb) → ℕ → List ℕ → Option ℕ
find_in f pid [] = none
find_in f pid (p ∷ ps) = if (f p).pid == pid then some p else find_in f pid ps

module _ {Q W : Type 0} where
  unfoldable pub hash_proc : ℕ → Kernel Q W → Kernel Q W
  hash_proc p k =
      let b = pid_hashfn (k.pcbs p).pid in
      record k { hash_list = write k.hash_list b (p ∷ k.hash_list b) }

  -- `list_del` takes the process out of the bucket it is in.
  unfoldable pub unhash_proc : ℕ → Kernel Q W → Kernel Q W
  unhash_proc p k = record k { hash_list = λ b. without p (k.hash_list b) }

  unfoldable pub find_proc : ℕ → Kernel Q W → Option ℕ
  find_proc pid k =
      if ltb 0 pid && ltb pid max_pid
      then find_in k.pcbs pid (k.hash_list (pid_hashfn pid))
      else none

  -- `set_links` of a process with parent `r`.
  unfoldable pub set_links_under : ℕ → Option ℕ → Kernel Q W → Option (Kernel Q W)
  set_links_under p none k = none
  set_links_under p (some r) k = some (record k {
    links = join p r k.links;
    proc_list = p ∷ k.proc_list;
    nr_process = k.nr_process + 1;
  })

  -- A process with no parent makes the code follow a null pointer, `none` here.
  unfoldable pub set_links : ℕ → Kernel Q W → Option (Kernel Q W)
  set_links p k = set_links_under p (k.links.parent p) k

  unfoldable pub remove_links_under : ℕ → Option ℕ → Kernel Q W → Option (Kernel Q W)
  remove_links_under p none k = none
  remove_links_under p (some r) k = some (record k {
    links = leave p r k.links;
    proc_list = without p k.proc_list;
    nr_process = k.nr_process - 1;
  })

  -- A child that is removed has a parent.
  unfoldable pub remove_links : ℕ → Kernel Q W → Option (Kernel Q W)
  remove_links p k = remove_links_under p (k.links.parent p) k

  unfoldable pub pids : Kernel Q W → List ℕ
  pids k = map (λ p. (k.pcbs p).pid) k.proc_list

  unfoldable pub set_pid : ℕ → PidState → Kernel Q W → Kernel Q W
  set_pid p s k = record k {
    pcbs = write k.pcbs p (record (k.pcbs p) { pid = s.last_pid });
    pid_state = s;
  }

  -- The part of `do_fork` and `do_clone` with interrupts off.
  unfoldable pub enter : ℕ → Kernel Q W → Option (Kernel Q W)
  enter p k = get_pid (pids k) k.pid_state >>= λ s. set_links p (hash_proc p (set_pid p s k))

  -- The part of `do_wait` with interrupts off.
  unfoldable pub remove : ℕ → Kernel Q W → Option (Kernel Q W)
  remove p k = remove_links p (unhash_proc p k)
