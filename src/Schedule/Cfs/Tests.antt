-- ===== src/Schedule/Cfs/Tests.antt =====
-- A run of kern/schedule/cfs_sched.c on a tree of one process.
use hard_core.Prelude.{arith, ◌==◌, if◌then◌else◌}
use hard_core.Schedule.Trees.{leaf, node, nodes}
use hard_core.Schedule.Trees.Sorted.{IsOrdered}
use hard_core.Schedule.Trees.Sample.{combs, combs-RbLaws}
use hard_core.Schedule.Cfs.{CfsQueue, cfs_enqueue}
use hard_core.Schedule.Cfs.Queue.{IsCfs, Served, cfs_enqueue_lem}

abbrev alone : CfsQueue
alone = record {
  tree = node leaf 4 leaf;
  proc_num = 1;
  max_time_slice = 20;
  vruntime = λ p. if p == 4 then 38 else 19;
  cfs_prior = λ p. 19;
  time_slice = λ p. 0;
  pid = λ p. p;
}

alone-IsCfs : IsCfs alone
unfolding nodes IsOrdered
alone-IsCfs = record { ordered = (λ y m. absurd (cc), tt); unique = λ x y i j e. e }

cfs_enqueue_lem_example : Served combs combs-RbLaws 6 alone (cfs_enqueue combs 6 alone)
unfolding nodes
cfs_enqueue_lem_example =
    cfs_enqueue_lem combs combs-RbLaws 6 alone alone-IsCfs (λ x m e. absurd (ground arith))
