-- ===== src/Process/Pids.antt =====
-- kern/process/proc.c, `get_pid`: the numbers of processes.
pub mod Fresh
pub mod Moved
pub mod Returns
use hard_core.Prelude.{
  ℕ, zero, suc, ◌+◌, ◌-◌, ◌*◌, ◌/◌, ◌%◌, ◌^◌, ◌≤◌, ◌<◌, min, max, ◌≡◌, refl, sym, ap, ap₂, ◌∙◌,
  subst, ◌≢◌, ◌↔◌, ◌⊎◌, inl, inr, Bool, true, false, not, ◌&&◌, ◌||◌, Option, none, some, List, [],
  ◌∷◌, ◌++◌, map, arith, ltb, leb, ◌==◌, if◌then◌else◌, ltb→lt, lt→ltb, leb→le, ==_iff, tests,
  Bool-cases, Option-cases, length, get_elem?, set, length-append, length-set, get_elem?-set_self,
  get_elem?-set_ne, get_or, take, drop, replicate, take-append-drop, length-take, length-drop,
  length-replicate, length-map, lt_of_get, set-set, set_self, has, ◌∈◌, ◌∉◌, has-append, Distinct,
  Apart, Distinct-split, Distinct-join, snoc_view, Distinct-insert, Distinct-remove,
  Distinct-remove_after, has-ne, ◌>>=◌, ◌>>◌, assert, bind-some, past_assert, bind_assoc,
  bind_congr, if-both, Distinct-snoc, past_bind,
}

abbrev pub max_process : ℕ
max_process = 4096

-- MAX_PID
abbrev pub max_pid : ℕ
max_pid = 2 * max_process

-- The static variables of `get_pid`. No process has a number between the two.
pub record PidState : Type 0 where
  pub last_pid : ℕ
  pub next_safe : ℕ

abbrev pub first_pid_state : PidState
first_pid_state = record { last_pid = max_pid; next_safe = max_pid }

-- What one process of the list does to the search: it goes on, or starts again at the head of the
-- list (`goto repeat`) from the given number.
pub data Scan : Type 0 where
  go : PidState → Scan
  again : ℕ → Scan

unfoldable pub scan_proc : ℕ → PidState → Scan
scan_proc pid s =
    if pid == s.last_pid
    then (if leb s.next_safe (s.last_pid + 1)
        then again (s.last_pid + 1)
        else go (record s { last_pid = s.last_pid + 1 }))
    else (if ltb s.last_pid pid && ltb pid s.next_safe
        then go (record s { next_safe = pid })
        else go s)

-- The while loop, over the numbers of the processes in the order of `proc_list`.
unfoldable pub scan : List ℕ → PidState → Scan
scan [] s = go s
scan (pid ∷ pids) s = elim (scan_proc pid s) [ go s' ↦ scan pids s' | again n ↦ again n ]

-- What holds of either outcome of a step.
unfoldable pub On : (PidState → Type 0) → (ℕ → Type 0) → Scan → Type 0
On P R (go s) = P s
On P R (again n) = R n

pub On-map :
    {P P' : PidState → Type 0} {R R' : ℕ → Type 0} (m : Scan)
    → ((n : ℕ) → R n → R' n)
    → ((s : PidState) → P s → P' s)
    → On P R m
    → On P' R' m
unfolding On
On-map (go s) g f h = f s h
On-map (again n) g f h = g n h

pub On-go :
    (P : PidState → Type 0) (R : ℕ → Type 0) (P' : PidState → Type 0) (R' : ℕ → Type 0) (m : Scan)
    (k : PidState → Scan)
    → On P R m
    → ((n : ℕ) → R n → R' n)
    → ((s : PidState) → P s → On P' R' (k s))
    → On P' R' (elim m [ go s' ↦ k s' | again n ↦ again n ])
unfolding On
On-go P R P' R' (go s) k h g f = f s h
On-go P R P' R' (again n) k h g f = g n h

abbrev pub wrap : ℕ → ℕ
wrap n = if leb max_pid n then 1 else n

-- From the label `repeat` on.
unfoldable pub repeat : ℕ → List ℕ → ℕ → Option PidState
repeat zero pids last = none
repeat (suc fuel) pids last = elim (scan pids (record { last_pid = last; next_safe = max_pid })) [
  | go s ↦ some s
  | again n ↦ repeat fuel pids (wrap n)
]

abbrev pub pid_fuel : ℕ
pid_fuel = 2 * max_pid

-- The new number is the last one of the new state.
unfoldable pub get_pid : List ℕ → PidState → Option PidState
get_pid pids s =
    if leb max_pid (s.last_pid + 1)
    then repeat pid_fuel pids 1
    else (if leb s.next_safe (s.last_pid + 1)
        then repeat pid_fuel pids (s.last_pid + 1)
        else some (record s { last_pid = s.last_pid + 1 }))
