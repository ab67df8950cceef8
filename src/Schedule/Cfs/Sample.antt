-- ===== src/Schedule/Cfs/Sample.antt =====
-- kern/schedule/cfs_sched.c: queues of processes of one priority, for the examples.
use hard_core.Prelude.{ℕ, refl, ◌==◌, if◌then◌else◌}
use hard_core.Schedule.Trees.{Tree, leaf, node, nodes}
use hard_core.Schedule.Trees.Sorted.{IsOrdered}
use hard_core.Schedule.Trees.Sample.{combs, combs-RbLaws}
use hard_core.Schedule.Sched.{SchedClass}
use hard_core.Schedule.Sched.Balance.{ClassLaws}
use hard_core.Schedule.Cfs.{CfsQueue}
use hard_core.Schedule.Cfs.Laws.{cfs_sched_class, CfsValid, cfs_laws}

abbrev pub fair : SchedClass CfsQueue
fair = cfs_sched_class combs

abbrev pub fair_laws : ClassLaws fair
fair_laws = cfs_laws combs combs-RbLaws

abbrev pub fair_queue : Tree → CfsQueue
fair_queue t = record {
  tree = t;
  proc_num = 1;
  max_time_slice = 20;
  vruntime = λ p. if p == 4 then 38 else 19;
  cfs_prior = λ p. 19;
  time_slice = λ p. 5;
  pid = λ p. p;
}

pub nobody-CfsValid : CfsValid (fair_queue leaf)
unfolding nodes IsOrdered
nobody-CfsValid = record {
  cfs = record { ordered = tt; unique = λ x y i j e. e };
  numbers = λ x y e. e;
  prior = λ x. refl;
}

pub one-CfsValid : (p : ℕ) → CfsValid (fair_queue (node leaf p leaf))
unfolding nodes IsOrdered
one-CfsValid p = record {
  cfs = record { ordered = (λ y m. absurd (cc), tt); unique = λ x y i j e. e };
  numbers = λ x y e. e;
  prior = λ x. refl;
}
