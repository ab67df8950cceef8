-- ===== src/Schedule/Cfs.antt =====
-- kern/schedule/cfs_sched.c: the scheduler that shares by virtual run times.
pub mod Queue
pub mod Laws
pub mod Sample
mod Tests
use hard_core.Prelude.{
  ℕ, zero, suc, ◌+◌, ◌-◌, ◌*◌, ◌/◌, ◌%◌, ◌^◌, ◌≤◌, ◌<◌, min, max, ◌≡◌, refl, sym, ap, ap₂, ◌∙◌,
  subst, ◌≢◌, ◌↔◌, ◌⊎◌, inl, inr, Bool, true, false, not, ◌&&◌, ◌||◌, Option, none, some, List, [],
  ◌∷◌, ◌++◌, map, arith, ltb, leb, ◌==◌, if◌then◌else◌, ltb→lt, lt→ltb, leb→le, ==_iff, tests,
  Bool-cases, Option-cases, length, get_elem?, set, length-append, length-set, get_elem?-set_self,
  get_elem?-set_ne, get_or, take, drop, replicate, take-append-drop, length-take, length-drop,
  length-replicate, length-map, lt_of_get, set-set, set_self, has, ◌∈◌, ◌∉◌, has-append, Distinct,
  Apart, Distinct-split, Distinct-join, snoc_view, Distinct-insert, Distinct-remove,
  Distinct-remove_after, has-ne, ◌>>=◌, ◌>>◌, assert, bind-some, past_assert, bind_assoc,
  bind_congr, if-both, Distinct-snoc, past_bind, without, length-without, has-without,
  has-without_ne, has-without_le, Distinct-without, has-map, of_has-map, has-map-without, map_congr,
  held_le,
}
use hard_core.Schedule.Trees.{
  Tree, leaf, node, Sign, RbTree, compare_cfs_node, search, insert, find_min,
}
use hard_core.Schedule.Sched.{write}
use hard_core.Schedule.Stride.{refill}

-- The fields of `struct run_queue` and of the processes that the class uses.
pub record CfsQueue : Type 0 where
  pub tree : Tree
  pub proc_num : ℕ
  pub max_time_slice : ℕ
  pub vruntime : ℕ → ℕ
  pub cfs_prior : ℕ → ℕ
  pub time_slice : ℕ → ℕ
  pub pid : ℕ → ℕ

unfoldable pub cfs_init : CfsQueue → CfsQueue
cfs_init q = record q { tree = leaf; proc_num = 0 }

abbrev pub compare_by : CfsQueue → ℕ → ℕ → Sign
compare_by q = compare_cfs_node q.vruntime q.pid

unfoldable pub cfs_enqueue : RbTree → ℕ → CfsQueue → CfsQueue
cfs_enqueue rb p q = record q {
  tree = insert (compare_by q) rb p q.tree;
  time_slice = write q.time_slice p (refill q.max_time_slice (q.time_slice p));
  proc_num = q.proc_num + 1;
}

unfoldable pub remove_found : RbTree → Option ℕ → CfsQueue → CfsQueue
remove_found rb none q = q
remove_found rb (some p) q = record q { tree = rb.erase p q.tree; proc_num = q.proc_num - 1 }

unfoldable pub cfs_dequeue : RbTree → ℕ → CfsQueue → CfsQueue
cfs_dequeue rb p q = remove_found rb (search (compare_by q) q.pid p q.tree) q

unfoldable pub cfs_pick_next : CfsQueue → Option ℕ × CfsQueue
cfs_pick_next q = (find_min q.tree, q)

-- The virtual run time grows by the priority; `none` is the failed assertion.
unfoldable pub cfs_proc_tick : ℕ → CfsQueue → Option (Bool × CfsQueue)
cfs_proc_tick p q =
    let n = q.time_slice p - 1 in
    assert (not (q.cfs_prior p == 0))
    >> some (
      n == 0,
      record q {
        vruntime = write q.vruntime p ((q.vruntime p + q.cfs_prior p) % 2 ^ 32);
        time_slice = write q.time_slice p n;
      },
    )
