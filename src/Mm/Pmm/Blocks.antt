-- ===== src/Mm/Pmm/Blocks.antt =====
-- Free blocks as pairs of a first page and a number of pages, and what merging them means.
use hard_core.Prelude.{
  ℕ, ◌+◌, ◌≤◌, ◌<◌, ◌≡◌, refl, subst, ◌⊎◌, inl, inr, Bool, false, ◌&&◌, ◌||◌, List, [], ◌∷◌, arith,
  ltb, leb, ◌==◌, if◌then◌else◌, leb→le, ==_iff, Bool-cases,
}

abbrev pub Block : Type 0
Block = ℕ × ℕ

-- Blocks in ascending order from `lo` on, none empty, and between any two at least one page.
abbrev pub Sorted : ℕ → List Block → Type 0
Sorted lo [] = Unit
Sorted lo ((x, m) ∷ r) = (lo ≤ x) × (0 < m) × Sorted (x + m + 1) r

abbrev pub in_range : ℕ → ℕ → ℕ → Bool
in_range b n q = leb b q && ltb q (b + n)

-- Whether the page `q` lies in one of the blocks.
abbrev pub covers : List Block → ℕ → Bool
covers [] q = false
covers ((x, m) ∷ r) q = in_range x m q || covers r q

abbrev pub total : List Block → ℕ
total [] = 0
total ((x, m) ∷ r) = m + total r

-- No page of the block lies in a block of the list.
abbrev pub Clear : ℕ → ℕ → List Block → Type 0
Clear b n [] = Unit
Clear b n ((x, m) ∷ r) = ((b + n ≤ x) ⊎ (x + m ≤ b)) × Clear b n r

-- A block joined with the one behind it if the two touch.
unfoldable pub absorb : ℕ → ℕ → List Block → List Block
absorb b n [] = (b, n) ∷ []
absorb b n ((x, m) ∷ r) = if b + n == x then (b, n + m) ∷ r else (b, n) ∷ (x, m) ∷ r

-- The block in its place, joined with the neighbours that it touches.
unfoldable pub coalesce : ℕ → ℕ → List Block → List Block
coalesce b n [] = (b, n) ∷ []
coalesce b n ((x, m) ∷ r) =
    if leb (b + n) x
    then absorb b n ((x, m) ∷ r)
    else if x + m == b
    then absorb x (m + n) r
    else (x, m) ∷ coalesce b n r

absorb-Sorted :
    (lo b n : ℕ) (l : List Block) → lo ≤ b → 0 < n → Sorted (b + n) l → Sorted lo (absorb b n l)
unfolding absorb
absorb-Sorted lo b n [] p q s = ground arith
absorb-Sorted lo b n ((x, m) ∷ []) p q s = ground arith
absorb-Sorted lo b n ((x, m) ∷ (y, k) ∷ r) p q s = ground arith

-- Raising the bound below the first block.
pub Sorted-raise :
    (lo hi x m : ℕ) (r : List Block) → hi ≤ x → Sorted lo ((x, m) ∷ r) → Sorted hi ((x, m) ∷ r)
Sorted-raise lo hi x m r h s = (h, s.1, s.2)

-- A clear block ends before all that starts behind it.
pub Clear-Sorted :
    (lo b n : ℕ) (r : List Block) → b < lo → 0 < n → Sorted lo r → Clear b n r → Sorted (b + n) r
Clear-Sorted lo b n [] h p s c = tt
Clear-Sorted lo b n ((x, m) ∷ r) h p s c = ground arith

pub coalesce-Sorted :
    (lo b n : ℕ) (l : List Block)
    → lo ≤ b
    → 0 < n
    → Sorted lo l
    → Clear b n l
    → Sorted lo (coalesce b n l)
unfolding coalesce
coalesce-Sorted lo b n [] p q s c = ground arith
coalesce-Sorted lo b n ((x, m) ∷ r) p q s c = elim (Bool-cases (leb (b + n) x)) [
  | inl t ↦
      rw t (absorb-Sorted lo b n ((x, m) ∷ r) p q (Sorted-raise lo (b + n) x m r (leb→le _ _ t) s))
  | inr f ↦ rw f (elim (Bool-cases (x + m == b)) [
    | inl t ↦ rw t (
        absorb-Sorted lo x (m + n) r s.0 (omega arith) (
          subst (λ (k : ℕ). Sorted k r) (omega (arith, (==_iff (x + m) b).0 t))
            (Clear-Sorted (x + m + 1) b n r (omega (arith, (==_iff (x + m) b).0 t)) q s.2 c.1)))
    | inr g ↦ rw g (s.0, s.1, coalesce-Sorted (x + m + 1) b n r (ground arith) q s.2 c.1)
  ])
]

absorb-covers :
    (b n : ℕ) (l : List Block) (q : ℕ) → covers (absorb b n l) q ≡ (in_range b n q || covers l q)
unfolding absorb
absorb-covers b n [] q = refl
absorb-covers b n ((x, m) ∷ r) q = elim (Bool-cases (b + n == x)) [
  | inl t ↦ rw t (ground arith)
  | inr f ↦ rw f
]

-- Exactly the pages of the block are added.
pub coalesce-covers :
    (b n : ℕ) (l : List Block) (q : ℕ) → covers (coalesce b n l) q ≡ (in_range b n q || covers l q)
unfolding coalesce
coalesce-covers b n [] q = refl
coalesce-covers b n ((x, m) ∷ r) q = elim (Bool-cases (leb (b + n) x)) [
  | inl t ↦ rw t (absorb-covers b n ((x, m) ∷ r) q)
  | inr f ↦ rw f (elim (Bool-cases (x + m == b)) [
    | inl t ↦ rw (t, absorb-covers x (m + n) r q) (ground arith)
    | inr g ↦ rw (g, coalesce-covers b n r q) (ground arith)
  ])
]

absorb-total : (b n : ℕ) (l : List Block) → total (absorb b n l) ≡ n + total l
unfolding absorb
absorb-total b n [] = refl
absorb-total b n ((x, m) ∷ r) = elim (Bool-cases (b + n == x)) [
  | inl t ↦ rw t (omega arith)
  | inr f ↦ rw f
]

pub coalesce-total : (b n : ℕ) (l : List Block) → total (coalesce b n l) ≡ n + total l
unfolding coalesce
coalesce-total b n [] = refl
coalesce-total b n ((x, m) ∷ r) = elim (Bool-cases (leb (b + n) x)) [
  | inl t ↦ rw t (absorb-total b n ((x, m) ∷ r))
  | inr f ↦ rw f (elim (Bool-cases (x + m == b)) [
    | inl t ↦ rw t (omega (arith, absorb-total x (m + n) r))
    | inr g ↦ rw g (omega (arith, coalesce-total b n r))
  ])
]
