-- ===== src/Schedule/Cfs/Queue.antt =====
-- kern/schedule/cfs_sched.c: which process is chosen.
use hard_core.Prelude.{
  ℕ, ◌≤◌, ◌≡◌, refl, sym, ap, ◌∙◌, subst, ◌≢◌, Bool, true, ◌||◌, some, List, ◌∷◌, arith, ◌==◌,
  get_elem?, has, ◌∈◌, without,
}
use hard_core.Schedule.Trees.{nodes, RbTree, RbLaws, put_node, insert, find_min}
use hard_core.Schedule.Trees.Order.{before, compare_cfs_lem}
use hard_core.Schedule.Trees.Sorted.{
  IsOrdered, Agrees, has-put_node, put_node-IsOrdered, joined_unique, find_min_lem,
}
use hard_core.Schedule.Trees.Spine.{search-find_min}
use hard_core.Schedule.Cfs.{
  CfsQueue, compare_by, cfs_enqueue, remove_found, cfs_dequeue, cfs_pick_next,
}

abbrev pub by_time : CfsQueue → ℕ → ℕ → Bool
by_time q = before q.vruntime q.pid

pub record IsCfs (q : CfsQueue) : Type 0 where
  pub ordered : IsOrdered (by_time q) (nodes q.tree)
  pub unique : (x y : ℕ) → x ∈ nodes q.tree → y ∈ nodes q.tree → q.pid x ≡ q.pid y → x ≡ y

time_trans :
    (q : CfsQueue) (a b d : ℕ) → by_time q a b ≡ true → by_time q b d ≡ true → by_time q a d ≡ true
time_trans q a b d h k = ground arith

module _ (rb : RbTree) (laws : RbLaws rb) where
  taken :
      (q : CfsQueue) (n : ℕ)
      → n ∈ nodes q.tree
      → nodes (remove_found rb (some n) q).tree ≡ without n (nodes q.tree)
  unfolding remove_found
  taken q n m = laws.erase_lem n q.tree m

  pub serves :
      (q : CfsQueue) (n : ℕ) (xs : List ℕ)
      → IsCfs q
      → nodes q.tree ≡ n ∷ xs
      → ((cfs_pick_next q).0 ≡ some n)
        × ((x : ℕ) → x ∈ xs → q.vruntime n ≤ q.vruntime x)
        × (nodes (cfs_dequeue rb n q).tree ≡ xs)
  unfolding cfs_pick_next cfs_dequeue IsOrdered
  serves q n xs s e =
      let first : find_min q.tree ≡ some n =
        find_min_lem q.tree ∙ ap (λ (l : List ℕ). get_elem? l 0) e in
      let o : IsOrdered (by_time q) (n ∷ xs) = subst (IsOrdered (by_time q)) e s.ordered in
      let here : n ∈ nodes q.tree = subst (λ (l : List ℕ). n ∈ l) (sym e) (ground arith) in
      let self : (n == n) ≡ true = ground arith in
      let found =
        search-find_min (compare_by q) q.pid n q.tree (λ x m. s.unique x n m here) first in
      (
        first,
        λ x m. let b = o.0 x m in ground arith,
        ap (λ z. nodes (remove_found rb z q).tree) found
            ∙ taken q n here
            ∙ ap (without n) e
            ∙ rw (self) refl,
      )

  pub record Served (p : ℕ) (q q' : CfsQueue) : Type 0 where
    pub members : (x : ℕ) → has x (nodes q'.tree) ≡ ((x == p) || has x (nodes q.tree))
    pub valid : IsCfs q'
    pub chosen :
        (n : ℕ) (xs : List ℕ)
        → nodes q'.tree ≡ n ∷ xs
        → ((cfs_pick_next q').0 ≡ some n)
          × ((x : ℕ) → x ∈ xs → q'.vruntime n ≤ q'.vruntime x)
          × (nodes (cfs_dequeue rb n q').tree ≡ xs)

  -- A process whose number is no other's joins the queue beside the others, and the tree is in the
  -- order of the virtual run times still. The first process in it is then the one that is
  -- chosen, no other has run less, and taking it out finds it and leaves the others.
  pub cfs_enqueue_lem :
      (p : ℕ) (q : CfsQueue)
      → IsCfs q
      → ((x : ℕ) → x ∈ nodes q.tree → q.pid p ≢ q.pid x)
      → Served p q (cfs_enqueue rb p q)
  unfolding cfs_enqueue insert
  cfs_enqueue_lem p q s other =
      let q' = cfs_enqueue rb p q in
      let e = laws.insert_color_lem (put_node (compare_by q) p q.tree) in
      let members : (x : ℕ) → has x (nodes q'.tree) ≡ ((x == p) || has x (nodes q.tree)) =
        λ x. ap (has x) e ∙ has-put_node (compare_by q) p x q.tree in
      let agrees : Agrees (by_time q) (compare_by q) p q.tree = record {
        agree = λ x m. compare_cfs_lem q.vruntime q.pid p x (other x m);
        total = λ x m n. let o = other x m in ground arith;
      } in
      let valid : IsCfs q' = record {
        ordered = subst (IsOrdered (by_time q)) (sym e) (
            put_node-IsOrdered (by_time q) (time_trans q) (compare_by q) p q.tree agrees s.ordered);
        unique = joined_unique q.pid p (nodes q.tree) (nodes q'.tree) members other s.unique;
      } in
      record { members = members; valid = valid; chosen = λ n xs f. serves q' n xs valid f }
