-- ===== src/Schedule/Trees/Sorted.antt =====
-- kern/schedule/stride_rb_tree.c, kern/schedule/cfs_rb_tree.c: search trees stay in order.
use hard_core.Prelude.{
  ℕ, suc, ◌≡◌, refl, sym, ap, ◌∙◌, subst, ◌≢◌, inl, inr, Bool, true, false, ◌||◌, List, [], ◌∷◌,
  ◌++◌, arith, ◌==◌, Bool-cases, length, get_elem?, length-append, has, ◌∈◌, has-append, if-both,
}
use hard_core.Schedule.Trees.{Tree, leaf, node, Sign, is_neg, nodes, put_node, find_min}

-- Every element comes before all that follow it.
unfoldable pub IsOrdered : (ℕ → ℕ → Bool) → List ℕ → Type 0
IsOrdered lt [] = Unit
IsOrdered lt (x ∷ xs) = ((y : ℕ) → y ∈ xs → lt x y ≡ true) × IsOrdered lt xs

record Parts (lt : ℕ → ℕ → Bool) (xs : List ℕ) (q : ℕ) (ys : List ℕ) : Type 0 where
  left : IsOrdered lt xs
  right : IsOrdered lt ys
  below : (x : ℕ) → x ∈ xs → lt x q ≡ true
  above : (y : ℕ) → y ∈ ys → lt q y ≡ true

module _ (lt : ℕ → ℕ → Bool) where
  split : (xs : List ℕ) (q : ℕ) (ys : List ℕ) → IsOrdered lt (xs ++ (q ∷ ys)) → Parts lt xs q ys
  unfolding IsOrdered
  split [] q ys o = record { left = tt; right = o.1; below = λ x m. absurd (cc); above = o.0 }
  split (z ∷ zs) q ys o =
      let p = split zs q ys o.1 in
      record {
        left = (λ y m. o.0 y (ground (arith, has-append y zs (q ∷ ys))), p.left);
        right = p.right;
        below = λ x m. elim (Bool-cases (x == z)) [
          | inl t ↦
              let same : z ≡ x = ground arith in
              subst (λ w. lt w q ≡ true) same (o.0 q (ground (arith, has-append q zs (q ∷ ys))))
          | inr n ↦ p.below x (ground arith)
        ];
        above = p.above;
      }

  module _ (trans : (a b d : ℕ) → lt a b ≡ true → lt b d ≡ true → lt a d ≡ true) where
    join-Parts :
        (xs : List ℕ) (q : ℕ) (ys : List ℕ) → Parts lt xs q ys → IsOrdered lt (xs ++ (q ∷ ys))
    unfolding IsOrdered
    join-Parts [] q ys p = (p.above, p.right)
    join-Parts (z ∷ zs) q ys p =
        let zq = p.below z (ground arith) in
        (
          λ y m. elim (Bool-cases (has y zs)) [
            | inl i ↦ p.left.0 y i
            | inr n ↦ elim (Bool-cases (y == q)) [
              | inl t ↦ let same : q ≡ y = ground arith in subst (λ w. lt z w ≡ true) same zq
              | inr o ↦ trans z q y zq (p.above y (ground (arith, has-append y zs (q ∷ ys))))
            ]
          ],
          join-Parts zs q ys (record {
            left = p.left.1;
            right = p.right;
            below = λ x m. p.below x (ground arith);
            above = p.above;
          }),
        )

  -- A comparison that agrees with the order on the nodes of a tree, none of which is `p`.
  pub record Agrees (compare : ℕ → ℕ → Sign) (p : ℕ) (t : Tree) : Type 0 where
    pub agree : (q : ℕ) → q ∈ nodes t → is_neg (compare p q) ≡ lt p q
    pub total : (q : ℕ) → q ∈ nodes t → lt p q ≡ false → lt q p ≡ true

pub has-put_node :
    (compare : ℕ → ℕ → Sign) (p x : ℕ) (t : Tree)
    → has x (nodes (put_node compare p t)) ≡ ((x == p) || has x (nodes t))
unfolding put_node nodes
has-put_node compare p x leaf = ground arith
has-put_node compare p x (node l q r) =
    let a = has-put_node compare p x l in
    let b = has-put_node compare p x r in
    if-both (λ t. has x (nodes t) ≡ ((x == p) || has x (nodes l ++ (q ∷ nodes r))))
      (is_neg (compare p q))
      (ground (
        arith,
        has-append x (nodes (put_node compare p l)) (q ∷ nodes r),
        has-append x (nodes l) (q ∷ nodes r),
        a,
      ))
      (ground (
        arith,
        has-append x (nodes l) (q ∷ nodes (put_node compare p r)),
        has-append x (nodes l) (q ∷ nodes r),
        b,
      ))

pub length-put_node :
    (compare : ℕ → ℕ → Sign) (p : ℕ) (t : Tree)
    → length (nodes (put_node compare p t)) ≡ suc (length (nodes t))
unfolding put_node nodes
length-put_node compare p leaf = refl
length-put_node compare p (node l q r) =
    let a = length-put_node compare p l in
    let b = length-put_node compare p r in
    if-both (λ t. length (nodes t) ≡ suc (length (nodes l ++ (q ∷ nodes r)))) (is_neg (compare p q))
      (omega (
        arith,
        length-append (nodes (put_node compare p l)) (q ∷ nodes r),
        length-append (nodes l) (q ∷ nodes r),
      ))
      (omega (
        arith,
        length-append (nodes l) (q ∷ nodes (put_node compare p r)),
        length-append (nodes l) (q ∷ nodes r),
      ))

-- What holds of the old nodes and of the new one.
of_put :
    (lt : ℕ → ℕ → Bool) (compare : ℕ → ℕ → Sign) (p x : ℕ) (t : Tree) (f : ℕ → Bool)
    → f p ≡ true
    → ((z : ℕ) → z ∈ nodes t → f z ≡ true)
    → x ∈ nodes (put_node compare p t)
    → f x ≡ true
of_put lt compare p x t f e h m = elim (Bool-cases (x == p)) [
  | inl i ↦ let same : p ≡ x = ground arith in subst (λ z. f z ≡ true) same e
  | inr n ↦ h x (let k = has-put_node compare p x t in ground arith)
]

-- The tree that an insertion gives is in order.
pub put_node-IsOrdered :
    (lt : ℕ → ℕ → Bool)
    → ((a b d : ℕ) → lt a b ≡ true → lt b d ≡ true → lt a d ≡ true)
    → (compare : ℕ → ℕ → Sign) (p : ℕ) (t : Tree) → Agrees lt compare p t
    → IsOrdered lt (nodes t)
    → IsOrdered lt (nodes (put_node compare p t))
unfolding put_node nodes IsOrdered
put_node-IsOrdered lt trans compare p leaf g o = (λ y m. absurd (cc), tt)
put_node-IsOrdered lt trans compare p (node l q r) g o =
    let s = split lt (nodes l) q (nodes r) o in
    let gl : Agrees lt compare p l = record {
      agree = λ x m. g.agree x (ground (arith, has-append x (nodes l) (q ∷ nodes r)));
      total = λ x m. g.total x (ground (arith, has-append x (nodes l) (q ∷ nodes r)));
    } in
    let gr : Agrees lt compare p r = record {
      agree = λ x m. g.agree x (ground (arith, has-append x (nodes l) (q ∷ nodes r)));
      total = λ x m. g.total x (ground (arith, has-append x (nodes l) (q ∷ nodes r)));
    } in
    let here : q ∈ (nodes l ++ (q ∷ nodes r)) =
      ground (arith, has-append q (nodes l) (q ∷ nodes r)) in
    elim (Bool-cases (is_neg (compare p q))) [
      | inl t ↦
          let e : lt p q ≡ true = sym (g.agree q here) ∙ t in
          rw (t) (
            join-Parts lt trans (nodes (put_node compare p l)) q (nodes r) (record {
              left = put_node-IsOrdered lt trans compare p l gl s.left;
              right = s.right;
              below = λ x m. of_put lt compare p x l (λ z. lt z q) e s.below m;
              above = s.above;
            }))
      | inr n ↦
          let e : lt q p ≡ true = g.total q here (sym (g.agree q here) ∙ n) in
          rw (n) (
            join-Parts lt trans (nodes l) q (nodes (put_node compare p r)) (record {
              left = s.left;
              right = put_node-IsOrdered lt trans compare p r gr s.right;
              below = s.below;
              above = λ x m. of_put lt compare p x r (λ z. lt q z) e s.above m;
            }))
    ]

first_kept :
    (xs : List ℕ) (q : ℕ) (ys zs : List ℕ)
    → get_elem? (xs ++ (q ∷ ys)) 0 ≡ get_elem? ((xs ++ (q ∷ ys)) ++ zs) 0
first_kept [] q ys zs = refl
first_kept (x ∷ xs) q ys zs = refl

-- The leftmost node.
pub find_min_lem : (t : Tree) → find_min t ≡ get_elem? (nodes t) 0
unfolding find_min nodes
find_min_lem leaf = refl
find_min_lem (node leaf p r) = refl
find_min_lem (node (node l q m) p r) =
    find_min_lem (node l q m) ∙ first_kept (nodes l) q (nodes m) (p ∷ nodes r)

-- A process whose number is no other's joins processes with different numbers.
pub joined_unique :
    (pid : ℕ → ℕ) (p : ℕ) (xs ys : List ℕ)
    → ((x : ℕ) → has x ys ≡ ((x == p) || has x xs))
    → ((x : ℕ) → x ∈ xs → pid p ≢ pid x)
    → ((x y : ℕ) → x ∈ xs → y ∈ xs → pid x ≡ pid y → x ≡ y)
    → (x y : ℕ) → x ∈ ys
    → y ∈ ys
    → pid x ≡ pid y
    → x ≡ y
joined_unique pid p xs ys members other unique x y i j g =
    let k = members x in
    let l = members y in
    elim (Bool-cases (x == p)) [
      | inl t ↦ elim (Bool-cases (y == p)) [
        | inl u ↦ ground arith
        | inr u ↦
            let o = other y (ground arith) in
            let same : x ≡ p = ground arith in absurd (o (ap pid (sym same) ∙ g))
      ]
      | inr t ↦ elim (Bool-cases (y == p)) [
        | inl u ↦
            let o = other x (ground arith) in
            let same : y ≡ p = ground arith in absurd (o (ap pid (sym same) ∙ sym g))
        | inr u ↦ unique x y (ground arith) (ground arith) g
      ]
    ]

-- Another order that agrees on the elements.
pub IsOrdered-congr :
    (lt lt' : ℕ → ℕ → Bool) (xs : List ℕ)
    → ((a b : ℕ) → a ∈ xs → b ∈ xs → lt' a b ≡ lt a b)
    → IsOrdered lt xs
    → IsOrdered lt' xs
unfolding IsOrdered
IsOrdered-congr lt lt' [] h o = tt
IsOrdered-congr lt lt' (x ∷ xs) h o = (
  λ y m. h x y (ground arith) (ground arith) ∙ o.0 y m,
  IsOrdered-congr lt lt' xs (λ a b i j. h a b (ground arith) (ground arith)) o.1,
)
