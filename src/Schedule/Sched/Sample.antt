-- ===== src/Schedule/Sched/Sample.antt =====
-- kern/schedule/sched.c: a scheduling class that keeps its processes in a list, for the examples.
use hard_core.Prelude.{ℕ, true, Option, none, some, List, [], ◌∷◌, ◌==◌, if◌then◌else◌}
use hard_core.Schedule.Sched.{SchedClass}

abbrev pub drop_proc : ℕ → List ℕ → List ℕ
drop_proc p [] = []
drop_proc p (x ∷ xs) = if x == p then drop_proc p xs else x ∷ drop_proc p xs

abbrev pub first_proc : List ℕ → Option ℕ
first_proc [] = none
first_proc (x ∷ xs) = some x

abbrev pub in_order : SchedClass (List ℕ)
in_order = record {
  enqueue = λ p q. p ∷ q;
  dequeue = drop_proc;
  pick_next = λ q. (first_proc q, q);
  proc_tick = λ p q. (true, q);
}
