-- ===== src/Schedule/Stride.antt =====
-- kern/schedule/default_sched.c: the stride scheduler.
pub mod Queue
mod Tests
use hard_core.Prelude.{
  ℕ, zero, suc, ◌+◌, ◌-◌, ◌*◌, ◌/◌, ◌%◌, ◌^◌, ◌≤◌, ◌<◌, min, max, ◌≡◌, refl, sym, ap, ap₂, ◌∙◌,
  subst, ◌≢◌, ◌↔◌, ◌⊎◌, inl, inr, Bool, true, false, not, ◌&&◌, ◌||◌, Option, none, some, List, [],
  ◌∷◌, ◌++◌, map, arith, ltb, leb, ◌==◌, if◌then◌else◌, ltb→lt, lt→ltb, leb→le, ==_iff, tests,
  Bool-cases, Option-cases, length, get_elem?, set, length-append, length-set, get_elem?-set_self,
  get_elem?-set_ne, get_or, take, drop, replicate, take-append-drop, length-take, length-drop,
  length-replicate, length-map, lt_of_get, set-set, set_self, has, ◌∈◌, ◌∉◌, has-append, Distinct,
  Apart, Distinct-split, Distinct-join, snoc_view, Distinct-insert, Distinct-remove,
  Distinct-remove_after, has-ne, ◌>>=◌, ◌>>◌, assert, bind-some, past_assert, bind_assoc,
  bind_congr, if-both, Distinct-snoc, past_bind, without, length-without, has-without,
  has-without_ne, has-without_le, Distinct-without, has-map, of_has-map, has-map-without, map_congr,
  held_le,
}
use hard_core.Schedule.Trees.{
  Tree, leaf, node, Sign, RbTree, compare_stride_node, search, insert, find_min,
}
use hard_core.Schedule.Sched.{write}

-- The fields of `struct run_queue` and of the processes that the class uses; words are below
-- 2 ^ 32. The nodes of the tree are taken from the heap, which is not seen here.
pub record StrideQueue : Type 0 where
  pub tree : Tree
  pub proc_num : ℕ
  pub max_time_slice : ℕ
  pub stride : ℕ → ℕ
  pub stride_prior : ℕ → ℕ
  pub time_slice : ℕ → ℕ
  pub pid : ℕ → ℕ

-- BIG_STRIDE
abbrev pub big_stride : ℕ
big_stride = 0x7FFFFFFF

unfoldable pub stride_init : StrideQueue → StrideQueue
stride_init q = record q { tree = leaf; proc_num = 0 }

abbrev pub compare_in : StrideQueue → ℕ → ℕ → Sign
compare_in q = compare_stride_node q.stride q.pid

-- A time slice that is spent, or too long, is a whole one.
unfoldable pub refill : ℕ → ℕ → ℕ
refill most slice = if (slice == 0) || ltb most slice then most else slice

unfoldable pub stride_enqueue : RbTree → ℕ → StrideQueue → StrideQueue
stride_enqueue rb p q = record q {
  tree = insert (compare_in q) rb p q.tree;
  time_slice = write q.time_slice p (refill q.max_time_slice (q.time_slice p));
  proc_num = q.proc_num + 1;
}

unfoldable pub take_out : RbTree → Option ℕ → StrideQueue → StrideQueue
take_out rb none q = q
take_out rb (some p) q = record q { tree = rb.erase p q.tree; proc_num = q.proc_num - 1 }

unfoldable pub stride_dequeue : RbTree → ℕ → StrideQueue → StrideQueue
stride_dequeue rb p q = take_out rb (search (compare_in q) q.pid p q.tree) q

-- The stride of the chosen process grows; a priority of 20 is a division by 0, `none` here.
unfoldable pub charge : Option ℕ → StrideQueue → Option (Option ℕ × StrideQueue)
charge none q = some (none, q)
charge (some p) q =
    let by = (20 + 2 ^ 32 - q.stride_prior p) % 2 ^ 32 in
    if by == 0
    then none
    else some
        (some p, record q { stride = write q.stride p ((q.stride p + big_stride / by) % 2 ^ 32) })

unfoldable pub stride_pick_next : StrideQueue → Option (Option ℕ × StrideQueue)
stride_pick_next q = charge (find_min q.tree) q

-- Whether the process is to be scheduled again, and the queue.
unfoldable pub stride_proc_tick : ℕ → StrideQueue → Bool × StrideQueue
stride_proc_tick p q =
    let n = q.time_slice p - 1 in (n == 0, record q { time_slice = write q.time_slice p n })
