-- ===== src/Schedule/Trees/Spine.antt =====
-- kern/schedule/stride_rb_tree.c, kern/schedule/cfs_rb_tree.c: what the search reaches.
use hard_core.Prelude.{
  ℕ, ◌≡◌, refl, ap, ◌∙◌, inl, inr, Bool, true, false, Option, none, some, List, [], ◌∷◌, arith,
  ◌==◌, if◌then◌else◌, Bool-cases, ◌∈◌, has-append,
}
use hard_core.Schedule.Trees.{Tree, leaf, node, Sign, pos, neg, nonzero, nodes, search, find_min}

-- The nodes on the way that goes left from the root.
unfoldable pub spine : Tree → List ℕ
spine leaf = []
spine (node l p r) = p ∷ spine l

always : (s : Sign) → nonzero s ≡ true
always pos = refl
always neg = refl

unfoldable pub first_with : (ℕ → ℕ) → ℕ → List ℕ → Option ℕ
first_with pid n [] = none
first_with pid n (q ∷ qs) = if pid q == n then some q else first_with pid n qs

-- The comparison is never 0, so the search goes left at every node: it finds the first process
-- with the number that it looks for on the way that goes left from the root, and no process that
-- is elsewhere in the tree.
pub search-spine :
    (compare : ℕ → ℕ → Sign) (pid : ℕ → ℕ) (p : ℕ) (t : Tree)
    → search compare pid p t ≡ first_with pid (pid p) (spine t)
unfolding search spine first_with
search-spine compare pid p leaf = refl
search-spine compare pid p (node l q r) =
    let choose : Bool → Option ℕ = λ b.
      if pid q == pid p
      then some q
      else if b
      then search compare pid p l
      else search compare pid p r in
    ap choose (always (compare q p))
    ∙ ap (λ o. if pid q == pid p then some q else o) (search-spine compare pid p l)

spine_sub : (t : Tree) (x : ℕ) → x ∈ spine t → x ∈ nodes t
unfolding spine nodes
spine_sub leaf x m = m
spine_sub (node l p r) x m = ground (arith, has-append x (nodes l) (p ∷ nodes r), spine_sub l x)

min_in : (t : Tree) (p : ℕ) → find_min t ≡ some p → p ∈ spine t
unfolding find_min spine
min_in leaf p e = absurd (cc)
min_in (node leaf q r) p e = let same : q ≡ p = cc in ground arith
min_in (node (node l q m) z r) p e = let i = min_in (node l q m) p e in ground arith

unlike : (pid : ℕ → ℕ) (x p : ℕ) → (pid x == pid p) ≡ false → (p == x) ≡ false
unlike pid x p n = elim (Bool-cases (p == x)) [
  | inl t ↦ let same : x ≡ p = ground arith in let e = ap pid same in absurd (ground arith)
  | inr o ↦ o
]

first_lem :
    (pid : ℕ → ℕ) (p : ℕ) (xs : List ℕ)
    → ((q : ℕ) → q ∈ xs → pid q ≡ pid p → q ≡ p)
    → p ∈ xs
    → first_with pid (pid p) xs ≡ some p
unfolding first_with
first_lem pid p [] h m = absurd (cc)
first_lem pid p (x ∷ xs) h m = elim (Bool-cases (pid x == pid p)) [
  | inl t ↦ rw (t) (ap some (h x (ground arith) (ground arith)))
  | inr n ↦
      let other : (p == x) ≡ false = unlike pid x p n in
      rw (n) (first_lem pid p xs (λ q i. h q (ground arith)) (ground arith))
]

-- The search finds the process that `find_min` gives.
pub search-find_min :
    (compare : ℕ → ℕ → Sign) (pid : ℕ → ℕ) (p : ℕ) (t : Tree)
    → ((q : ℕ) → q ∈ nodes t → pid q ≡ pid p → q ≡ p)
    → find_min t ≡ some p
    → search compare pid p t ≡ some p
search-find_min compare pid p t h e =
    search-spine compare pid p t
    ∙ first_lem pid p (spine t) (λ q m. h q (spine_sub t q m)) (min_in t p e)
