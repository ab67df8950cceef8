-- ===== src/Mm/Pmm/Take.antt =====
-- The common end of the three allocators, over pairs and over the page table.
use hard_core.Prelude.{
  ℕ, ◌+◌, ◌-◌, ◌≤◌, ◌<◌, ◌≡◌, refl, inl, inr, true, false, not, ◌&&◌, List, [], ◌∷◌, arith, ltb,
  ◌==◌, if◌then◌else◌, Bool-cases,
}
use hard_core.Mm.Pmm.Blocks.{Block, Sorted, covers, total, in_range}

-- The size of the block that starts at `page`, 0 if there is none.
abbrev pub size_at : ℕ → List Block → ℕ
size_at page [] = 0
size_at page ((x, m) ∷ r) = if x == page then m else size_at page r

-- The first `num` pages of the block leave it.
unfoldable pub take_front : ℕ → ℕ → List Block → List Block
take_front page num [] = []
take_front page num ((x, m) ∷ r) =
    let rest = take_front page num r in
    if x == page then (if ltb num m then (page + num, m - num) ∷ r else r) else (x, m) ∷ rest

Sorted-up : (lo hi : ℕ) (l : List Block) → hi ≤ lo → Sorted lo l → Sorted hi l
Sorted-up lo hi [] h s = tt
Sorted-up lo hi ((x, m) ∷ r) h s = ground arith

pub size_at-lower : (lo page : ℕ) (l : List Block) → Sorted lo l → 0 < size_at page l → lo ≤ page
size_at-lower lo page [] s h = absurd (omega arith)
size_at-lower lo page ((x, m) ∷ r) s h = ground (arith, size_at-lower (x + m + 1) page r s.2)

-- Nothing below the first block is covered.
covers-lower : (lo : ℕ) (l : List Block) (q : ℕ) → Sorted lo l → q < lo → covers l q ≡ false
covers-lower lo [] q s h = refl
covers-lower lo ((x, m) ∷ r) q s h = ground (arith, covers-lower (x + m + 1) r q s.2)

pub take_front-Sorted :
    (lo page num : ℕ) (l : List Block)
    → Sorted lo l
    → num ≤ size_at page l
    → 0 < num
    → Sorted lo (take_front page num l)
unfolding take_front
take_front-Sorted lo page num [] s h p = tt
take_front-Sorted lo page num ((x, m) ∷ r) s h p = elim (Bool-cases (x == page)) [
  | inl t ↦ rw t (elim (Bool-cases (ltb num m)) [
    | inl u ↦ rw u (
      ground arith,
      ground arith,
      Sorted-up (x + m + 1) (page + num + (m - num) + 1) r (ground arith) s.2,
    )
    | inr u ↦ rw u (Sorted-up (x + m + 1) lo r (omega arith) s.2)
  ])
  | inr f ↦ rw f (s.0, s.1, take_front-Sorted (x + m + 1) page num r s.2 (rw f at h) p)
]

-- The pages of the block that is taken were free, and no other page changes.
pub take_front-covers :
    (lo page num : ℕ) (l : List Block) (q : ℕ)
    → Sorted lo l
    → num ≤ size_at page l
    → 0 < num
    → (covers (take_front page num l) q ≡ (covers l q && not (in_range page num q)))
      × (in_range page num q ≡ true → covers l q ≡ true)
unfolding take_front
take_front-covers lo page num [] q s h p = (refl, λ m. absurd (omega arith))
take_front-covers lo page num ((x, m) ∷ r) q s h p = elim (Bool-cases (x == page)) [
  | inl t ↦ rw t (elim (Bool-cases (ltb num m)) [
    | inl u ↦ rw u (ground (arith, covers-lower (x + m + 1) r q s.2), ground arith)
    | inr u ↦ rw u (ground (arith, covers-lower (x + m + 1) r q s.2), ground arith)
  ])
  | inr f ↦
      let ih = take_front-covers (x + m + 1) page num r q s.2 (rw f at h) p in
      let low =
        size_at-lower (x + m + 1) page r s.2
          (let k : num ≤ size_at page r = rw f at h in omega arith) in
      rw f (ground (arith, ih.0, ih.1), ground (arith, ih.1))
]

pub take_front-total :
    (page num : ℕ) (l : List Block)
    → num ≤ size_at page l
    → 0 < num
    → total (take_front page num l) + num ≡ total l
unfolding take_front
take_front-total page num [] h p = absurd (omega arith)
take_front-total page num ((x, m) ∷ r) h p = elim (Bool-cases (x == page)) [
  | inl t ↦
      rw t (elim (Bool-cases (ltb num m)) [
        | inl u ↦ rw u (ground arith)
        | inr u ↦ rw u (ground arith)
      ])
  | inr f ↦ rw f (let ih = take_front-total page num r (rw f at h) p in omega arith)
]
