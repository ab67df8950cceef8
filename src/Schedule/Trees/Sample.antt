-- ===== src/Schedule/Trees/Sample.antt =====
-- kern/schedule: trees that are never balanced, for the examples.
use hard_core.Prelude.{ℕ, ◌≡◌, refl, ap, List, [], ◌∷◌, without}
use hard_core.Schedule.Trees.{Tree, leaf, node, nodes, RbTree, RbLaws}

abbrev pub comb : List ℕ → Tree
comb [] = leaf
comb (x ∷ xs) = node leaf x (comb xs)

pub nodes-comb : (xs : List ℕ) → nodes (comb xs) ≡ xs
unfolding nodes
nodes-comb [] = refl
nodes-comb (x ∷ xs) = ap (λ (l : List ℕ). x ∷ l) (nodes-comb xs)

abbrev pub combs : RbTree
combs = record { insert_color = λ t. t; erase = λ p t. comb (without p (nodes t)) }

pub combs-RbLaws : RbLaws combs
combs-RbLaws = record {
  insert_color_lem = λ t. refl;
  erase_lem = λ p t m. nodes-comb (without p (nodes t));
}
