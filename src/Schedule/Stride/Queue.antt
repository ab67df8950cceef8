-- ===== src/Schedule/Stride/Queue.antt =====
-- kern/schedule/default_sched.c: which process the stride scheduler chooses.
use hard_core.Prelude.{
  ℕ, ◌+◌, ◌-◌, ◌/◌, ◌%◌, ◌^◌, ◌≤◌, ◌<◌, ◌≡◌, refl, sym, ap, ap₂, ◌∙◌, subst, ◌≢◌, inl, inr, Bool,
  true, false, ◌&&◌, ◌||◌, some, List, ◌∷◌, arith, ltb, ◌==◌, Bool-cases, length, get_elem?, has,
  ◌∈◌, ◌∉◌, without,
}
use hard_core.Schedule.Trees.{nodes, RbTree, RbLaws, search, put_node, insert, find_min}
use hard_core.Schedule.Trees.Order.{ahead, before, compare_stride_lem}
use hard_core.Schedule.Trees.Sorted.{
  IsOrdered, IsOrdered-congr, Agrees, has-put_node, length-put_node, put_node-IsOrdered,
  joined_unique, find_min_lem,
}
use hard_core.Schedule.Trees.Spine.{search-find_min}
use hard_core.Schedule.Stride.{
  StrideQueue, big_stride, compare_in, stride_enqueue, take_out, stride_dequeue, charge,
  stride_pick_next,
}
use hard_core.Schedule.Sched.{write}

abbrev pub order : ℕ → StrideQueue → ℕ → ℕ → Bool
order base q = before (λ x. ahead base (q.stride x)) q.pid

-- The strides lie less than 2 ^ 31 behind a base, and the tree is in their order.
pub record IsStride (base : ℕ) (q : StrideQueue) : Type 0 where
  pub ordered : IsOrdered (order base q) (nodes q.tree)
  pub words :
      (x : ℕ) → x ∈ nodes q.tree → (q.stride x < 2 ^ 32) × (ahead base (q.stride x) < 2 ^ 31)
  pub unique : (x y : ℕ) → x ∈ nodes q.tree → y ∈ nodes q.tree → q.pid x ≡ q.pid y → x ≡ y
  pub counted : q.proc_num ≡ length (nodes q.tree)

order_trans :
    (base : ℕ) (q : StrideQueue) (a b d : ℕ)
    → order base q a b ≡ true
    → order base q b d ≡ true
    → order base q a d ≡ true
order_trans base q a b d h k = ground arith

-- The order on two strides and two numbers.
abbrev before_keys : ℕ → ℕ → ℕ → ℕ → ℕ → Bool
before_keys base m n a b =
    ltb (ahead base m) (ahead base n) || ((ahead base m == ahead base n) && ltb a b)

-- The first in the order does not come again.
not_again :
    (base p : ℕ) (q : StrideQueue) (xs : List ℕ)
    → ((x : ℕ) → x ∈ xs → order base q p x ≡ true)
    → p ∉ xs
not_again base p q xs h = elim (Bool-cases (has p xs)) [
  | inl m ↦ let b = h p m in absurd (ground arith)
  | inr n ↦ n
]

-- A process that can join the queue: its number is no other's, and its stride fits.
pub record CanJoin (base p : ℕ) (q : StrideQueue) : Type 0 where
  pub base_word : base < 2 ^ 32
  pub word : q.stride p < 2 ^ 32
  pub window : ahead base (q.stride p) < 2 ^ 31
  pub other : (x : ℕ) → x ∈ nodes q.tree → q.pid p ≢ q.pid x

agrees :
    (base p : ℕ) (q : StrideQueue)
    → IsStride base q
    → CanJoin base p q
    → Agrees (order base q) (compare_in q) p q.tree
agrees base p q s c = record {
  agree = λ x m.
      let w = s.words x m in
      compare_stride_lem q.stride q.pid base p x c.base_word c.word w.0 c.window w.1 (c.other x m);
  total = λ x m n. let o = c.other x m in ground arith;
}

module _ (rb : RbTree) (laws : RbLaws rb) where
  pub record Joined (base p : ℕ) (q q' : StrideQueue) : Type 0 where
    pub valid : IsStride base q'
    pub members : (x : ℕ) → has x (nodes q'.tree) ≡ ((x == p) || has x (nodes q.tree))

  -- A process whose number is no other's, and whose stride lies less than 2 ^ 31 behind the base
  -- as the others do, joins the queue: the queue has it beside the others, and its tree is in the
  -- order of the strides still.
  pub stride_enqueue_lem :
      (base p : ℕ) (q : StrideQueue)
      → IsStride base q
      → CanJoin base p q
      → Joined base p q (stride_enqueue rb p q)
  unfolding stride_enqueue insert
  stride_enqueue_lem base p q s c =
      let e = laws.insert_color_lem (put_node (compare_in q) p q.tree) in
      let members : (x : ℕ)
          → has x (nodes (insert (compare_in q) rb p q.tree)) ≡ ((x == p) || has x (nodes q.tree)) =
        λ x. ap (has x) e ∙ has-put_node (compare_in q) p x q.tree in
      record {
        valid = record {
          ordered = subst (IsOrdered (order base q)) (sym e) (
              put_node-IsOrdered (order base q) (order_trans base q) (compare_in q) p q.tree
                (agrees base p q s c) s.ordered);
          words = λ x m. elim (Bool-cases (x == p)) [
            | inl t ↦
                let same : p ≡ x = ground arith in
                subst (λ z. (q.stride z < 2 ^ 32) × (ahead base (q.stride z) < 2 ^ 31)) same
                  (c.word, c.window)
            | inr n ↦ s.words x (let k = members x in ground arith)
          ];
          unique =
              joined_unique q.pid p (nodes q.tree) (nodes (insert (compare_in q) rb p q.tree))
                members c.other s.unique;
          counted =
              let k = s.counted in
              let l = length-put_node (compare_in q) p q.tree in
              ap (λ n. n + 1) k ∙ sym (ap length e ∙ l ∙ omega arith);
        };
        members = members;
      }

  -- What choosing the process `p` from a queue with `p` and `xs` gives, and taking it out.
  pub record Chosen (base p : ℕ) (xs : List ℕ) (q : StrideQueue) : Type 0 where
    pub grown : StrideQueue
    pub picks : stride_pick_next q ≡ some (some p, grown)
    pub least : (x : ℕ) → x ∈ xs → ahead base (q.stride p) ≤ ahead base (q.stride x)
    pub rest : nodes (stride_dequeue rb p grown).tree ≡ xs
    pub valid : IsStride base (stride_dequeue rb p grown)
    pub stride :
        (stride_dequeue rb p grown).stride p
        ≡ (q.stride p + big_stride / (20 - q.stride_prior p)) % 2 ^ 32

  grow : ℕ → StrideQueue → StrideQueue
  grow p q = record q {
    stride = write q.stride p ((q.stride p + big_stride / (20 - q.stride_prior p)) % 2 ^ 32);
  }

  charges :
      (p : ℕ) (q : StrideQueue)
      → q.stride_prior p < 20
      → charge (some p) q ≡ some (some p, grow p q)
  unfolding charge grow
  charges p q h =
      let by : (20 + 2 ^ 32 - q.stride_prior p) % 2 ^ 32 ≡ 20 - q.stride_prior p = omega arith in
      let pos : (20 - q.stride_prior p == 0) ≡ false = ground arith in rw (by) (rw (pos) refl)

  grown_other :
      (p : ℕ) (q : StrideQueue) (x : ℕ) → (p == x) ≡ false → (grow p q).stride x ≡ q.stride x
  unfolding grow
  grown_other p q x n = rw (n) refl

  takes :
      (p : ℕ) (q : StrideQueue)
      → search (compare_in q) q.pid p q.tree ≡ some p
      → stride_dequeue rb p q ≡ record q { tree = rb.erase p q.tree; proc_num = q.proc_num - 1 }
  unfolding stride_dequeue take_out
  takes p q e = rw (e) refl

  -- With processes in the queue, whose priorities are below 20, the first in the order is chosen:
  -- no other has run less since the base. Its stride grows by its share, and taking it out of the
  -- queue finds it, leaves the others, and leaves the queue in order.
  pub stride_pick_next_lem :
      (base p : ℕ) (xs : List ℕ) (q : StrideQueue)
      → IsStride base q
      → nodes q.tree ≡ p ∷ xs
      → q.stride_prior p < 20
      → Chosen base p xs q
  unfolding stride_pick_next grow IsOrdered
  stride_pick_next_lem base p xs q s e h =
      let first : find_min q.tree ≡ some p =
        find_min_lem q.tree ∙ ap (λ (l : List ℕ). get_elem? l 0) e in
      let o : IsOrdered (order base q) (p ∷ xs) = subst (IsOrdered (order base q)) e s.ordered in
      let self : (p == p) ≡ true = ground arith in
      let here : p ∈ nodes q.tree = subst (λ (l : List ℕ). p ∈ l) (sym e) (ground arith) in
      let g = grow p q in
      let t =
        takes p g
          (search-find_min (compare_in g) g.pid p g.tree (λ x m. s.unique x p m here) first) in
      let rest : nodes (rb.erase p q.tree) ≡ xs =
        laws.erase_lem p q.tree here ∙ ap (without p) e ∙ rw (self) refl in
      let out : p ∉ xs = not_again base p q xs o.0 in
      let old : (x : ℕ) → x ∈ xs → g.stride x ≡ q.stride x =
        λ x m. grown_other p q x (ground arith) in
      let was : (x : ℕ) → x ∈ xs → x ∈ nodes q.tree =
        λ x m. subst (λ (l : List ℕ). x ∈ l) (sym e) (ground arith) in
      let sub : (x : ℕ) → x ∈ nodes (rb.erase p q.tree) → x ∈ xs =
        λ x m. subst (λ (l : List ℕ). x ∈ l) rest m in
      let left : StrideQueue = record g { tree = rb.erase p q.tree; proc_num = q.proc_num - 1 } in
      let valid : IsStride base left = record {
        ordered = subst (IsOrdered (order base g)) (sym rest) (
            IsOrdered-congr (order base q) (order base g) xs
              (λ a b i j. ap₂ (λ m n. before_keys base m n (q.pid a) (q.pid b)) (old a i) (old b j))
              o.1);
        words = λ x m.
            subst (λ n. (n < 2 ^ 32) × (ahead base n < 2 ^ 31)) (sym (old x (sub x m)))
              (s.words x (was x (sub x m)));
        unique = λ x y i j k. s.unique x y (was x (sub x i)) (was y (sub y j)) k;
        counted = let n = s.counted in let l = ap length e in let m = ap length rest in omega arith;
      } in
      record {
        grown = g;
        picks = ap (λ z. charge z q) first ∙ charges p q h;
        least = λ x m. let b = o.0 x m in ground arith;
        rest = ap (λ (z : StrideQueue). nodes z.tree) t ∙ rest;
        valid = subst (IsStride base) (sym t) valid;
        stride = ap (λ (z : StrideQueue). z.stride p) t ∙ rw (self) refl;
      }
