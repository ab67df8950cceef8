-- ===== src/Schedule/Cfs/Laws.antt =====
-- kern/schedule/cfs_sched.c: `cfs_sched_class` for the scheduler, and that it keeps what the
-- scheduler asks of a class.
use hard_core.Prelude.{
  ℕ, ◌+◌, ◌-◌, ◌%◌, ◌^◌, ◌≡◌, refl, sym, ap, ◌∙◌, subst, ◌≢◌, inl, inr, Bool, true, false, not,
  ◌&&◌, ◌||◌, Option, none, some, List, [], ◌∷◌, arith, ◌==◌, Bool-cases, get_elem?, has, ◌∈◌, ◌∉◌,
}
use hard_core.Schedule.Trees.{nodes, RbTree, RbLaws, find_min}
use hard_core.Schedule.Trees.Sorted.{IsOrdered, IsOrdered-congr, find_min_lem}
use hard_core.Schedule.Trees.Spine.{search-find_min}
use hard_core.Schedule.Sched.{SchedClass, write}
use hard_core.Schedule.Sched.Balance.{ClassLaws}
use hard_core.Schedule.Cfs.{
  CfsQueue, compare_by, cfs_enqueue, remove_found, cfs_dequeue, cfs_pick_next, cfs_proc_tick,
}
use hard_core.Schedule.Cfs.Queue.{by_time, IsCfs, cfs_enqueue_lem, serves}

-- A tick whose assertion fails stops the kernel; on a valid queue none does.
abbrev pub ticked : CfsQueue → Option (Bool × CfsQueue) → Bool × CfsQueue
ticked q none = (false, q)
ticked q (some r) = r

abbrev pub cfs_sched_class : RbTree → SchedClass CfsQueue
cfs_sched_class rb = record {
  enqueue = cfs_enqueue rb;
  dequeue = cfs_dequeue rb;
  pick_next = cfs_pick_next;
  proc_tick = λ p q. ticked q (cfs_proc_tick p q);
}

-- The tree is in order, no two processes have one number, and all have a priority.
pub record CfsValid (q : CfsQueue) : Type 0 where
  pub cfs : IsCfs q
  pub numbers : (x y : ℕ) → q.pid x ≡ q.pid y → x ≡ y
  pub prior : (x : ℕ) → (q.cfs_prior x == 0) ≡ false

abbrev pub queued_in : ℕ → CfsQueue → Bool
queued_in p q = has p (nodes q.tree)

first_of : (l : List ℕ) (n : ℕ) → get_elem? l 0 ≡ some n → (xs : List ℕ) × (l ≡ n ∷ xs)
first_of [] n e = absurd (cc)
first_of (x ∷ xs) n e = let same : x ≡ n = cc in (xs, ap (λ (y : ℕ). y ∷ xs) same)

none_of : (l : List ℕ) → get_elem? l 0 ≡ none → l ≡ []
none_of [] e = refl
none_of (x ∷ xs) e = absurd (cc)

-- The tick of a process that is not queued leaves the keys of the queue alone.
charge_time : ℕ → CfsQueue → CfsQueue
charge_time p q = record q {
  vruntime = write q.vruntime p ((q.vruntime p + q.cfs_prior p) % 2 ^ 32);
  time_slice = write q.time_slice p (q.time_slice p - 1);
}

charge_time_lem :
    (p : ℕ) (q : CfsQueue) → CfsValid q → (ticked q (cfs_proc_tick p q)).1 ≡ charge_time p q
unfolding cfs_proc_tick charge_time
charge_time_lem p q v = rw (v.prior p) refl

charged_order :
    (p : ℕ) (q : CfsQueue) (a b : ℕ)
    → (p == a) ≡ false
    → (p == b) ≡ false
    → by_time (charge_time p q) a b ≡ by_time q a b
unfolding charge_time
charged_order p q a b h k = rw (h, k) refl

without_first : (n r : ℕ) (xs : List ℕ) → n ∉ xs → (not (n == r) && has r (n ∷ xs)) ≡ has r xs
without_first n r xs out = elim (Bool-cases (n == r)) [
  | inl t ↦ let same : n ≡ r = ground arith in rw (t) (sym (subst (λ y. has y xs ≡ false) same out))
  | inr f ↦ ground arith
]

module _ (rb : RbTree) (laws : RbLaws rb) where
  pub cfs_joined :
      (p : ℕ) (q : CfsQueue)
      → CfsValid q
      → queued_in p q ≡ false
      → CfsValid (cfs_enqueue rb p q)
        × ((r : ℕ) → queued_in r (cfs_enqueue rb p q) ≡ ((p == r) || queued_in r q))
  unfolding cfs_enqueue
  cfs_joined p q v out =
      let other : (x : ℕ) → x ∈ nodes q.tree → q.pid p ≢ q.pid x = λ x m e.
        let same = v.numbers p x e in
        absurd (cc (subst (λ y. has y (nodes q.tree) ≡ false) same out, m)) in
      let s = cfs_enqueue_lem rb laws p q v.cfs other in
      (
        record { cfs = s.valid; numbers = v.numbers; prior = v.prior },
        λ r. s.members r ∙ ground arith,
      )

  -- What is left of a queue whose first process is taken out.
  left : ℕ → CfsQueue → CfsQueue
  left n q = record q { tree = rb.erase n q.tree; proc_num = q.proc_num - 1 }

  takes :
      (n : ℕ) (q : CfsQueue) → CfsValid q → find_min q.tree ≡ some n → cfs_dequeue rb n q ≡ left n q
  unfolding cfs_dequeue remove_found left
  takes n q v e = rw (search-find_min (compare_by q) q.pid n q.tree (λ x m. v.numbers x n) e) refl

  left-CfsValid :
      (n : ℕ) (xs : List ℕ) (q : CfsQueue)
      → CfsValid q
      → nodes q.tree ≡ n ∷ xs
      → nodes (left n q).tree ≡ xs
      → CfsValid (left n q)
  unfolding left IsOrdered
  left-CfsValid n xs q v e rest = record {
    cfs = record {
      ordered =
          subst (IsOrdered (by_time q)) (sym rest)
            (subst (IsOrdered (by_time q)) e v.cfs.ordered).1;
      unique = λ x y i j. v.numbers x y;
    };
    numbers = v.numbers;
    prior = v.prior;
  }

  pub cfs_picked :
      (q : CfsQueue) (n : ℕ)
      → CfsValid q
      → (cfs_pick_next q).0 ≡ some n
      → (queued_in n q ≡ true)
        × CfsValid (cfs_dequeue rb n (cfs_pick_next q).1)
        × ((r : ℕ)
            → queued_in r (cfs_dequeue rb n (cfs_pick_next q).1) ≡ (not (n == r) && queued_in r q))
  unfolding cfs_pick_next IsOrdered
  cfs_picked q n v first =
      let (xs, e) = first_of (nodes q.tree) n (sym (find_min_lem q.tree) ∙ first) in
      let t = takes n q v first in
      let rest : nodes (left n q).tree ≡ xs =
        ap (λ (z : CfsQueue). nodes z.tree) (sym t) ∙ (serves rb laws q n xs v.cfs e).2 in
      let o = (subst (IsOrdered (by_time q)) e v.cfs.ordered).0 in
      let out : n ∉ xs = elim (Bool-cases (has n xs)) [
        | inl m ↦ let b = o n m in absurd (ground arith)
        | inr f ↦ f
      ] in
      (
        ap (has n) e ∙ ground arith,
        subst CfsValid (sym t) (left-CfsValid n xs q v e rest),
        λ r.
            ap (λ (z : CfsQueue). has r (nodes z.tree)) t
            ∙ ap (has r) rest
            ∙ sym (ap (λ l. not (n == r) && has r l) e ∙ without_first n r xs out),
      )

  pub cfs_empty :
      (q : CfsQueue)
      → CfsValid q
      → (cfs_pick_next q).0 ≡ none
      → CfsValid (cfs_pick_next q).1
        × ((r : ℕ) → (queued_in r q ≡ false) × (queued_in r (cfs_pick_next q).1 ≡ false))
  unfolding cfs_pick_next
  cfs_empty q v e =
      let z = none_of (nodes q.tree) (sym (find_min_lem q.tree) ∙ e) in
      (v, λ r. (ap (has r) z, ap (has r) z))

  pub cfs_charged :
      (p : ℕ) (q : CfsQueue)
      → CfsValid q
      → queued_in p q ≡ false
      → CfsValid (ticked q (cfs_proc_tick p q)).1
        × ((r : ℕ) → queued_in r (ticked q (cfs_proc_tick p q)).1 ≡ queued_in r q)
  cfs_charged p q v out =
      let t = charge_time_lem p q v in
      let other : (x : ℕ) → x ∈ nodes q.tree → (p == x) ≡ false = λ x m.
        elim (Bool-cases (p == x)) [
          | inl s ↦
              let same : p ≡ x = ground arith in
              absurd (cc (subst (λ y. has y (nodes q.tree) ≡ false) same out, m))
          | inr n ↦ n
        ] in
      (
        subst CfsValid (sym t) (
            unfold charge_time in
            record {
              cfs = record {
                ordered =
                    IsOrdered-congr (by_time q) (by_time (charge_time p q)) (nodes q.tree)
                      (λ a b i j. charged_order p q a b (other a i) (other b j)) v.cfs.ordered;
                unique = λ x y i j. v.numbers x y;
              };
              numbers = v.numbers;
              prior = v.prior;
            }),
        λ r. ap (λ (z : CfsQueue). has r (nodes z.tree)) t ∙ unfold charge_time in refl,
      )

  abbrev pub cfs_laws : ClassLaws (cfs_sched_class rb)
  cfs_laws = record {
    valid = CfsValid;
    queued = queued_in;
    joined = cfs_joined;
    picked = cfs_picked;
    empty = cfs_empty;
    charged = cfs_charged;
  }
