-- ===== src/Mm/Pmm/Merge.antt =====
-- The merging of `default_free_pages` over pairs, and that it is `coalesce`.
use mathlib.Core.Option
use hard_core.Prelude.{
  ℕ, ◌+◌, ◌≤◌, ◌<◌, ◌≡◌, refl, subst, ◌≢◌, inl, inr, Bool, true, false, Option, none, some, List,
  [], ◌∷◌, arith, leb, ◌==◌, if◌then◌else◌, leb→le, ==_iff, Bool-cases,
}
use hard_core.Mm.Pmm.Blocks.{Block, Sorted, Clear, absorb, coalesce, Clear-Sorted, Sorted-raise}

-- The block after one round, and whether the block of the list stays.
abbrev pub step : ℕ → ℕ → ℕ → ℕ → ℕ × ℕ × Bool
step b n x m =
    if b + n == x then (b, n + m, false) else if x + m == b then (x, m + n, false) else (b, n, true)

unfoldable pub merge_blocks : ℕ → ℕ → List Block → ℕ × ℕ × List Block
merge_blocks b n [] = (b, n, [])
merge_blocks b n ((x, m) ∷ r) =
    let (b', n', keep) = step b n x m in
    let (b'', n'', kept) = merge_blocks b' n' r in (b'', n'', if keep then (x, m) ∷ kept else kept)

unfoldable pub insert_blocks : ℕ → ℕ → List Block → Option (List Block)
insert_blocks b n [] = some ((b, n) ∷ [])
insert_blocks b n ((x, m) ∷ r) =
    let later = insert_blocks b n r in
    if leb (b + n) x
    then (if b + n == x then none else some ((b, n) ∷ (x, m) ∷ r))
    else Option.map (λ l. (x, m) ∷ l) later

abbrev pub insert_merged : ℕ × ℕ × List Block → Option (List Block)
insert_merged (b, n, l) = insert_blocks b n l

Sorted-mono : (lo hi : ℕ) (l : List Block) → hi ≤ lo → Sorted lo l → Sorted hi l
Sorted-mono lo hi [] h s = tt
Sorted-mono lo hi ((x, m) ∷ r) h s = ground arith

module _ (b n : ℕ) where
  merge_touching :
      (x m : ℕ) (r : List Block)
      → b + n ≡ x
      → merge_blocks b n ((x, m) ∷ r) ≡ merge_blocks b (n + m) r
  unfolding merge_blocks
  merge_touching x m r e = rw ((==_iff (b + n) x).1 e)

  merge_before :
      (x m : ℕ) (r : List Block)
      → b + n ≢ x
      → x + m ≡ b
      → merge_blocks b n ((x, m) ∷ r) ≡ merge_blocks x (m + n) r
  unfolding merge_blocks
  merge_before x m r d e =
      let f : (b + n == x) ≡ false = ground arith in rw (f, (==_iff (x + m) b).1 e)

  merge_apart :
      (x m : ℕ) (r : List Block)
      → b + n ≢ x
      → x + m ≢ b
      → merge_blocks b n ((x, m) ∷ r)
        ≡ (let (b', n', kept) = merge_blocks b n r in (b', n', (x, m) ∷ kept))
  unfolding merge_blocks
  merge_apart x m r d e =
      let f : (b + n == x) ≡ false = ground arith in
      let g : (x + m == b) ≡ false = ground arith in rw (f, g)

-- A block that touches nothing behind it is left alone.
merge_far :
    (b n : ℕ) (l : List Block) → 0 < n → Sorted (b + n + 1) l → merge_blocks b n l ≡ (b, n, l)
unfolding merge_blocks
merge_far b n [] p s = refl
merge_far b n ((x, m) ∷ r) p s = rw (
  merge_apart b n x m r (λ e. omega arith) (λ e. omega arith),
  merge_far b n r p (Sorted-mono (x + m + 1) (b + n + 1) r (omega arith) s.2),
)

insert_front :
    (b n : ℕ) (l : List Block) → Sorted (b + n + 1) l → insert_blocks b n l ≡ some ((b, n) ∷ l)
unfolding insert_blocks
insert_front b n [] s = refl
insert_front b n ((x, m) ∷ r) s =
    let t : leb (b + n) x ≡ true = ground arith in
    let f : (b + n == x) ≡ false = ground arith in rw (t, f)

insert-absorb :
    (b n : ℕ) (l : List Block)
    → 0 < n
    → Sorted (b + n) l
    → insert_merged (merge_blocks b n l) ≡ some (absorb b n l)
unfolding absorb
insert-absorb b n [] p s = rw (merge_far b n [] p tt, insert_front b n [] tt)
insert-absorb b n ((x, m) ∷ r) p s = elim (Bool-cases (b + n == x)) [
  | inl t ↦
      let e = (==_iff (b + n) x).0 t in
      let s' : Sorted (b + (n + m) + 1) r = subst (λ (k : ℕ). Sorted k r) (omega (arith, e)) s.2 in
      rw (
        t,
        merge_touching b n x m r e,
        merge_far b (n + m) r (omega arith) s',
        insert_front b (n + m) r s',
      )
  | inr f ↦
      let s' : Sorted (b + n + 1) ((x, m) ∷ r) = (ground arith, s.1, s.2) in
      rw (f, merge_far b n ((x, m) ∷ r) p s', insert_front b n ((x, m) ∷ r) s')
]

-- Merging never moves the block below what the list starts at.
merge-le : (lo b n : ℕ) (l : List Block) → lo ≤ b → Sorted lo l → lo ≤ (merge_blocks b n l).0
unfolding merge_blocks
merge-le lo b n [] h s = h
merge-le lo b n ((x, m) ∷ r) h s =
    let s' = Sorted-mono (x + m + 1) lo r (omega arith) s.2 in
    let (b', n', keep) = step b n x m in merge-le lo b' n' r (ground arith) s'

insert-skip :
    (x m : ℕ) (t : ℕ × ℕ × List Block)
    → x < t.0
    → insert_merged (t.0, t.1, (x, m) ∷ t.2) ≡ Option.map (λ l. (x, m) ∷ l) (insert_merged t)
unfolding insert_blocks
insert-skip x m (b, n, l) h = let f : leb (b + n) x ≡ false = ground arith in rw f

-- The two loops of `default_free_pages` put the block in its place and join it with the
-- neighbours that it touches, and the assertion of the second holds.
pub merge-coalesce :
    (lo b n : ℕ) (l : List Block)
    → lo ≤ b
    → 0 < n
    → Sorted lo l
    → Clear b n l
    → insert_merged (merge_blocks b n l) ≡ some (coalesce b n l)
unfolding coalesce
merge-coalesce lo b n [] h p s c = rw (merge_far b n [] p tt, insert_front b n [] tt)
merge-coalesce lo b n ((x, m) ∷ r) h p s c = elim (Bool-cases (leb (b + n) x)) [
  | inl t ↦ rw t (insert-absorb b n ((x, m) ∷ r) p (Sorted-raise lo (b + n) x m r (leb→le _ _ t) s))
  | inr f ↦ rw f (elim (Bool-cases (x + m == b)) [
    | inl t ↦
        let e = (==_iff (x + m) b).0 t in
        rw (t, merge_before b n x m r (λ d. ground arith) e)
          (insert-absorb x (m + n) r (omega arith) (
            subst (λ (k : ℕ). Sorted k r) (omega (arith, e))
              (Clear-Sorted (x + m + 1) b n r (omega (arith, e)) p s.2 c.1)))
    | inr g ↦
        let lt : x + m + 1 ≤ b = ground arith in
        rw (
          g,
          merge_apart b n x m r (λ d. ground arith) (λ d. omega arith),
          insert-skip x m (merge_blocks b n r)
              (let k = merge-le (x + m + 1) b n r lt s.2 in omega arith),
          merge-coalesce (x + m + 1) b n r lt p s.2 c.1,
        )
  ])
]
