-- ===== src/Mm/Pmm/View.antt =====
-- The free list of a page table as blocks, and which writes leave it alone.
use hard_core.Prelude.{
  ℕ, ◌+◌, ◌≡◌, refl, sym, ap, ap₂, ◌∙◌, subst, ◌⊎◌, inl, inr, Bool, true, false, List, [], ◌∷◌,
  arith, ◌==◌, if◌then◌else◌, Bool-cases, ◌∈◌, ◌∉◌, Distinct, has-ne,
}
use hard_core.Mm.Pmm.{Page, Pages, merge_step, merge}
use hard_core.Mm.Pmm.Blocks.{Block}
use hard_core.Mm.Pmm.Merge.{merge_blocks, step}

abbrev pub blocks : Pages → List ℕ → List Block
blocks ps [] = []
blocks ps (x ∷ xs) = (x, (ps x).property) ∷ blocks ps xs

-- Two tables give the entries of a list the same sizes.
pub blocks-same :
    (ps qs : Pages) (xs : List ℕ)
    → ((x : ℕ) → x ∈ xs → (qs x).property ≡ (ps x).property)
    → blocks qs xs ≡ blocks ps xs
blocks-same ps qs [] h = refl
blocks-same ps qs (x ∷ xs) h =
    ap₂ (λ (n : ℕ) (l : List Block). (x, n) ∷ l) (h x (ground arith))
      (blocks-same ps qs xs (λ y m. h y (ground arith)))

-- What the state of the loop that merges stands for: the block and the list.
abbrev pub view : Pages × ℕ × List ℕ → ℕ × ℕ × List Block
view (ps, b, l) = (b, (ps b).property, blocks ps l)

-- One round writes at the block and at the entry that it meets.
step-frame :
    (ps : Pages) (base ptr q : ℕ)
    → q ∉ (base ∷ ptr ∷ [])
    → ((merge_step ps base ptr).0 q ≡ ps q) × ((q == (merge_step ps base ptr).1) ≡ false)
unfolding merge_step
step-frame ps base ptr q h = elim (Bool-cases (base + (ps base).property == ptr)) [
  | inl t ↦ rw t (ground arith, ground arith)
  | inr f ↦ rw f (elim (Bool-cases (ptr + (ps ptr).property == base)) [
    | inl t ↦ rw t (ground arith, ground arith)
    | inr g ↦ rw g (refl, ground arith)
  ])
]

-- The tables of `merge` differ only at the block and at the entries of the list.
pub merge-frame :
    (ps : Pages) (base : ℕ) (xs : List ℕ) (q : ℕ) → q ∉ (base ∷ xs) → (merge ps base xs).0 q ≡ ps q
unfolding merge
merge-frame ps base [] q h = refl
merge-frame ps base (x ∷ xs) q h =
    let s = step-frame ps base x q (ground arith) in
    let (ps', base', keep) = merge_step ps base x in merge-frame ps' base' xs q (ground arith) ∙ s.0

-- What one round is over pairs.
step-view :
    (ps : Pages) (base ptr : ℕ)
    → (base == ptr) ≡ false
    → let (ps', base', keep) = merge_step ps base ptr in
      (base', (ps' base').property, keep) ≡ step base (ps base).property ptr (ps ptr).property
unfolding merge_step
step-view ps base ptr h = elim (Bool-cases (base + (ps base).property == ptr)) [
  | inl t ↦ rw (t, h) (ground arith)
  | inr f ↦ rw f (elim (Bool-cases (ptr + (ps ptr).property == base)) [
    | inl t ↦ rw t (ground arith)
    | inr g ↦ rw g
  ])
]

abbrev after : List Block → ℕ → ℕ → ℕ × ℕ × Bool → ℕ × ℕ × List Block
after r x m (b, n, keep) =
    let (b', n', kept) = merge_blocks b n r in (b', n', if keep then (x, m) ∷ kept else kept)

merge_blocks-after :
    (b n x m : ℕ) (r : List Block) (t : ℕ × ℕ × Bool)
    → t ≡ step b n x m
    → merge_blocks b n ((x, m) ∷ r) ≡ after r x m t
unfolding merge_blocks
merge_blocks-after b n x m r t e =
    subst (λ (u : ℕ × ℕ × Bool). merge_blocks b n ((x, m) ∷ r) ≡ after r x m u) (sym e) refl

-- The entry stays only where nothing is written.
pub step-keep :
    (ps : Pages) (base ptr : ℕ)
    → (merge_step ps base ptr).2 ≡ true
    → ((merge_step ps base ptr).0 ≡ ps) × ((merge_step ps base ptr).1 ≡ base)
unfolding merge_step
step-keep ps base ptr h = elim (Bool-cases (base + (ps base).property == ptr)) [
  | inl t ↦ absurd (let k : false ≡ true = rw t at h in cc)
  | inr f ↦ elim (Bool-cases (ptr + (ps ptr).property == base)) [
    | inl t ↦ absurd (let k : false ≡ true = rw (f, t) at h in cc)
    | inr g ↦ rw (f, g) (refl, refl)
  ]
]

pub step-base :
    (ps : Pages) (base ptr : ℕ)
    → ((merge_step ps base ptr).1 ≡ base) ⊎ ((merge_step ps base ptr).1 ≡ ptr)
unfolding merge_step
step-base ps base ptr = elim (Bool-cases (base + (ps base).property == ptr)) [
  | inl t ↦ rw t (inl refl)
  | inr f ↦ rw f (elim (Bool-cases (ptr + (ps ptr).property == base)) [
    | inl t ↦ rw t (inr refl)
    | inr g ↦ rw g (inl refl)
  ])
]

pub Distinct-step :
    (base x : ℕ) (xs : List ℕ) (b : ℕ)
    → Distinct (base ∷ x ∷ xs)
    → (b ≡ base) ⊎ (b ≡ x)
    → Distinct (b ∷ xs)
Distinct-step base x xs b d (inl e) = (rw e (ground arith), d.1.1)
Distinct-step base x xs b d (inr e) = (rw e d.1.0, d.1.1)

view-after :
    (r : Pages × ℕ × List ℕ) (b n : ℕ) (l : List Block) (x m : ℕ) (keep : Bool)
    → view r ≡ merge_blocks b n l
    → (keep ≡ true → (r.0 x).property ≡ m)
    → view (r.0, r.1, if keep then x ∷ r.2 else r.2) ≡ after l x m (b, n, keep)
view-after r b n l x m true h k =
    rw (k refl) (ap (λ (t : ℕ × ℕ × List Block). (t.0, t.1, (x, m) ∷ t.2)) h)
view-after r b n l x m false h k = h

-- `merge` is `merge_blocks` over the view of the table.
pub merge-view :
    (ps : Pages) (base : ℕ) (xs : List ℕ)
    → Distinct (base ∷ xs)
    → view (merge ps base xs) ≡ merge_blocks base (ps base).property (blocks ps xs)
unfolding merge
merge-view ps base [] d = unfold merge_blocks in refl
merge-view ps base (x ∷ xs) d =
    let v = step-view ps base x (ground arith) in
    let keeps = step-keep ps base x in
    let ih =
      merge-view (merge_step ps base x).0 (merge_step ps base x).1 xs
        (Distinct-step base x xs (merge_step ps base x).1 d (step-base ps base x)) in
    let same : blocks (merge_step ps base x).0 xs ≡ blocks ps xs =
      blocks-same ps (merge_step ps base x).0 xs (λ y m.
        ap Page.property
          (step-frame ps base x y (ground (arith, has-ne y base xs, has-ne y x xs))).0) in
    let t = merge_step ps base x in
    view-after (merge t.0 t.1 xs) t.1 (t.0 t.1).property (blocks ps xs) x (ps x).property t.2
      (rw same at ih)
      (λ k. ap Page.property (
        merge-frame t.0 t.1 xs x (rw (keeps k).1 (ground arith))
        ∙ ap (λ (f : Pages). f x) (keeps k).0))
    ∙ sym (
        merge_blocks-after base (ps base).property x (ps x).property (blocks ps xs)
          (t.1, (t.0 t.1).property, t.2) v)
