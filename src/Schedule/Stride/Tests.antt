-- ===== src/Schedule/Stride/Tests.antt =====
-- Runs of the stride scheduler on a tree of two processes.
use hard_core.Prelude.{
  ℕ, ◌-◌, ◌^◌, ◌<◌, ◌≡◌, refl, subst, inl, inr, true, [], ◌∷◌, arith, ◌==◌, if◌then◌else◌,
  Bool-cases,
}
use hard_core.Schedule.Trees.{leaf, node, nodes, search}
use hard_core.Schedule.Trees.Order.{ahead}
use hard_core.Schedule.Trees.Sorted.{IsOrdered}
use hard_core.Schedule.Trees.Spine.{spine, first_with, search-spine}
use hard_core.Schedule.Trees.Sample.{combs, combs-RbLaws}
use hard_core.Schedule.Stride.{StrideQueue, compare_in, stride_enqueue}
use hard_core.Schedule.Stride.Queue.{
  order, IsStride, CanJoin, Joined, Chosen, stride_enqueue_lem, stride_pick_next_lem,
}

-- The strides have passed the largest word: 1 is behind 2, which is behind 3.
abbrev strides : ℕ → ℕ
strides p = if p == 1 then 2 ^ 32 - 3 else if p == 2 then 5 else 9

abbrev two : StrideQueue
two = record {
  tree = node (node leaf 1 leaf) 2 leaf;
  proc_num = 2;
  max_time_slice = 20;
  stride = strides;
  stride_prior = λ p. 19;
  time_slice = λ p. 0;
  pid = λ p. p;
}

two-IsStride : IsStride (2 ^ 32 - 10) two
unfolding nodes IsOrdered
two-IsStride = record {
  ordered = (
    λ y m. let e : 2 ≡ y = ground arith in subst (λ z. order (2 ^ 32 - 10) two 1 z ≡ true) e refl,
    (λ y m. absurd (cc), tt),
  );
  words = λ x m. elim (Bool-cases (x == 1)) [
    | inl t ↦
        let e : 1 ≡ x = ground arith in
        subst (λ z. (strides z < 2 ^ 32) × (ahead (2 ^ 32 - 10) (strides z) < 2 ^ 31)) e
          (omega arith, omega arith)
    | inr n ↦
        let e : 2 ≡ x = ground arith in
        subst (λ z. (strides z < 2 ^ 32) × (ahead (2 ^ 32 - 10) (strides z) < 2 ^ 31)) e
          (omega arith, omega arith)
  ];
  unique = λ x y i j e. e;
  counted = refl;
}

three-CanJoin : CanJoin (2 ^ 32 - 10) 3 two
unfolding nodes
three-CanJoin = record {
  base_word = omega arith;
  word = omega arith;
  window = omega arith;
  other = λ x m e. absurd (ground arith);
}

stride_enqueue_lem_example :
    Joined combs combs-RbLaws (2 ^ 32 - 10) 3 two (stride_enqueue combs 3 two)
stride_enqueue_lem_example =
    stride_enqueue_lem combs combs-RbLaws (2 ^ 32 - 10) 3 two two-IsStride three-CanJoin

stride_pick_next_lem_example : Chosen combs combs-RbLaws (2 ^ 32 - 10) 1 (2 ∷ []) two
unfolding nodes
stride_pick_next_lem_example =
    stride_pick_next_lem combs combs-RbLaws (2 ^ 32 - 10) 1 (2 ∷ []) two two-IsStride refl
      (omega arith)

-- A process on the right is not found.
search-spine_example :
    search (compare_in two) (λ p. p) 3 (node leaf 2 (node leaf 3 leaf))
    ≡ first_with (λ p. p) 3 (2 ∷ [])
unfolding spine
search-spine_example = search-spine (compare_in two) (λ p. p) 3 (node leaf 2 (node leaf 3 leaf))
