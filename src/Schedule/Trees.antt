-- ===== src/Schedule/Trees.antt =====
-- kern/schedule/stride_rb_tree.c, kern/schedule/cfs_rb_tree.c: the trees of the scheduling classes.
pub mod Order
pub mod Sorted
pub mod Spine
pub mod Sample
use hard_core.Prelude.{
  ℕ, zero, suc, ◌+◌, ◌-◌, ◌*◌, ◌/◌, ◌%◌, ◌^◌, ◌≤◌, ◌<◌, min, max, ◌≡◌, refl, sym, ap, ap₂, ◌∙◌,
  subst, ◌≢◌, ◌↔◌, ◌⊎◌, inl, inr, Bool, true, false, not, ◌&&◌, ◌||◌, Option, none, some, List, [],
  ◌∷◌, ◌++◌, map, arith, ltb, leb, ◌==◌, if◌then◌else◌, ltb→lt, lt→ltb, leb→le, ==_iff, tests,
  Bool-cases, Option-cases, length, get_elem?, set, length-append, length-set, get_elem?-set_self,
  get_elem?-set_ne, get_or, take, drop, replicate, take-append-drop, length-take, length-drop,
  length-replicate, length-map, lt_of_get, set-set, set_self, has, ◌∈◌, ◌∉◌, has-append, Distinct,
  Apart, Distinct-split, Distinct-join, snoc_view, Distinct-insert, Distinct-remove,
  Distinct-remove_after, has-ne, ◌>>=◌, ◌>>◌, assert, bind-some, past_assert, bind_assoc,
  bind_congr, if-both, Distinct-snoc, past_bind, without, length-without, has-without,
  has-without_ne, has-without_le, Distinct-without, has-map, of_has-map, has-map-without, map_congr,
  held_le,
}

-- A tree of processes. The colours belong to libs/rbtree.c.
pub data Tree : Type 0 where
  leaf : Tree
  node : Tree → ℕ → Tree → Tree

-- A result of a comparison, 1 or -1: two processes never compare as equal.
pub data Sign : Type 0 where
  pos neg : Sign

abbrev pub nonzero : Sign → Bool
nonzero pos = true
nonzero neg = true

abbrev pub is_neg : Sign → Bool
is_neg pos = false
is_neg neg = true

-- The processes from the leftmost on.
unfoldable pub nodes : Tree → List ℕ
nodes leaf = []
nodes (node l p r) = nodes l ++ (p ∷ nodes r)

-- What libs/rbtree.c does with a tree: `rb_insert_color` behind an insertion, and `rb_erase`.
pub record RbTree : Type 0 where
  pub insert_color : Tree → Tree
  pub erase : ℕ → Tree → Tree

-- Both keep the order of the other nodes.
pub record RbLaws (rb : RbTree) : Type 0 where
  pub insert_color_lem : (t : Tree) → nodes (rb.insert_color t) ≡ nodes t
  pub erase_lem : (p : ℕ) (t : Tree) → p ∈ nodes t → nodes (rb.erase p t) ≡ without p (nodes t)

-- `compare_stride_node` on the words `stride` and the numbers `pid`.
unfoldable pub compare_stride_node : (stride pid : ℕ → ℕ) → ℕ → ℕ → Sign
compare_stride_node stride pid a b =
    let c = (stride a + 2 ^ 32 - stride b) % 2 ^ 32 in
    if not (c == 0)
    then (if ltb c (2 ^ 31) then pos else neg)
    else (if ltb (pid b) (pid a) then pos else neg)

unfoldable pub compare_cfs_node : (vruntime pid : ℕ → ℕ) → ℕ → ℕ → Sign
compare_cfs_node vruntime pid a b =
    if not (vruntime a == vruntime b)
    then (if ltb (vruntime b) (vruntime a) then pos else neg)
    else (if ltb (pid b) (pid a) then pos else neg)

module _ (compare : ℕ → ℕ → Sign) where
  -- The search of `stride_search` and `cfs_search`.
  unfoldable pub search : (ℕ → ℕ) → ℕ → Tree → Option ℕ
  search pid p leaf = none
  search pid p (node l q r) =
      let left = search pid p l in
      let right = search pid p r in
      if pid q == pid p then some q else if nonzero (compare q p) then left else right

  -- The place of a new leaf in `stride_insert` and `cfs_insert`.
  unfoldable pub put_node : ℕ → Tree → Tree
  put_node p leaf = node leaf p leaf
  put_node p (node l q r) =
      let l' = put_node p l in
      let r' = put_node p r in if is_neg (compare p q) then node l' q r else node l q r'

  -- `stride_insert` and `cfs_insert`.
  unfoldable pub insert : RbTree → ℕ → Tree → Tree
  insert rb p t = rb.insert_color (put_node p t)

-- `stride_find_min` and `cfs_find_min`.
unfoldable pub find_min : Tree → Option ℕ
find_min leaf = none
find_min (node leaf p r) = some p
find_min (node (node l q m) p r) = find_min (node l q m)
