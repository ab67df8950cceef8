-- ===== src/Mm/Pmm/Relink.antt =====
-- The same over the page table: what the list and the table become.
use hard_core.Prelude.{
  ℕ, ◌+◌, ◌-◌, ◌≤◌, ◌<◌, ◌≡◌, refl, ap₂, ◌≢◌, inl, inr, true, false, not, ◌&&◌, ◌||◌, none, some,
  List, [], ◌∷◌, arith, ltb, ◌==◌, ltb→lt, lt→ltb, ==_iff, Bool-cases, has, ◌∈◌, ◌∉◌, Distinct,
}
use hard_core.Mm.Pmm.{Pages, Area, set_property, set_heads, relink, take_block}
use hard_core.Mm.Pmm.Blocks.{Block, Sorted}
use hard_core.Mm.Pmm.View.{blocks, blocks-same}
use hard_core.Mm.Pmm.Valid.{Sorted-lower, Sorted-Distinct}
use hard_core.Mm.Pmm.Take.{size_at, take_front}

pub size_at-blocks :
    (ps : Pages) (page : ℕ) (xs : List ℕ)
    → page ∈ xs
    → size_at page (blocks ps xs) ≡ (ps page).property
size_at-blocks ps page [] m = absurd (cc)
size_at-blocks ps page (x ∷ xs) m = elim (Bool-cases (x == page)) [
  | inl t ↦ rw t (ground arith)
  | inr f ↦ rw f (size_at-blocks ps page xs (ground arith))
]

-- The rest of a block that is split starts where no block starts.
rest-not-mem :
    (ps : Pages) (lo page num : ℕ) (xs : List ℕ)
    → Sorted lo (blocks ps xs)
    → page ∈ xs
    → 0 < num
    → num < (ps page).property
    → (page + num) ∉ xs
rest-not-mem ps lo page num [] s m p h = refl
rest-not-mem ps lo page num (x ∷ xs) s m p h = elim (Bool-cases (x == page)) [
  | inl t ↦ ground (arith, Sorted-lower ps (x + (ps x).property + 1) xs (page + num) s.2)
  | inr f ↦
      let m' : page ∈ xs = ground arith in
      let low = Sorted-lower ps (x + (ps x).property + 1) xs page s.2 in
      ground (arith, low, rest-not-mem ps (x + (ps x).property + 1) page num xs s.2 m' p h)
]

relink-split :
    (ps qs : Pages) (page num : ℕ) (xs : List ℕ)
    → num < (ps page).property
    → (page + num) ∉ xs
    → ((qs (page + num)).property ≡ (ps page).property - num)
    → ((x : ℕ) → x ≢ page + num → (qs x).property ≡ (ps x).property)
    → blocks qs (relink page (some (page + num)) xs) ≡ take_front page num (blocks ps xs)
unfolding relink take_front
relink-split ps qs page num [] h out new same = refl
relink-split ps qs page num (x ∷ xs) h out new same = elim (Bool-cases (x == page)) [
  | inl t ↦
      let e = (==_iff x page).0 t in
      let u : ltb num (ps x).property ≡ true = rw e (lt→ltb _ _ h) in
      rw (t, u)
        (ap₂ (λ (n : ℕ) (l : List Block). (page + num, n) ∷ l) (rw e new)
          (blocks-same ps qs xs (λ y m. same y (λ e'. ground arith))))
  | inr f ↦ rw f (
      ap₂ (λ (n : ℕ) (l : List Block). (x, n) ∷ l) (same x (λ e'. ground arith))
        (relink-split ps qs page num xs h (ground arith) new same))
]

relink-whole :
    (ps qs : Pages) (page num : ℕ) (xs : List ℕ)
    → (ps page).property ≡ num
    → ((x : ℕ) → (qs x).property ≡ (ps x).property)
    → blocks qs (relink page none xs) ≡ take_front page num (blocks ps xs)
unfolding relink take_front
relink-whole ps qs page num [] h same = refl
relink-whole ps qs page num (x ∷ xs) h same = elim (Bool-cases (x == page)) [
  | inl t ↦
      let e = (==_iff x page).0 t in
      let u : ltb num (ps x).property ≡ false = rw e (ground arith) in
      rw (t, u) (blocks-same ps qs xs (λ y m. same y))
  | inr f ↦ rw f (
      ap₂ (λ (n : ℕ) (l : List Block). (x, n) ∷ l) (same x) (relink-whole ps qs page num xs h same))
]

relink-none-has :
    (page q : ℕ) (xs : List ℕ)
    → Distinct xs
    → has q (relink page none xs) ≡ (has q xs && not (q == page))
unfolding relink
relink-none-has page q [] d = refl
relink-none-has page q (x ∷ xs) d = elim (Bool-cases (x == page)) [
  | inl t ↦ rw t (ground arith)
  | inr f ↦ rw f (ground (arith, relink-none-has page q xs d.1))
]

relink-some-has :
    (page r q : ℕ) (xs : List ℕ)
    → Distinct xs
    → page ∈ xs
    → has q (relink page (some r) xs) ≡ ((has q xs && not (q == page)) || (q == r))
unfolding relink
relink-some-has page r q [] d m = absurd (cc)
relink-some-has page r q (x ∷ xs) d m = elim (Bool-cases (x == page)) [
  | inl t ↦ rw t (ground arith)
  | inr f ↦ rw f (ground (arith, relink-some-has page r q xs d.1))
]

-- `take_block` over the view: the first `num` pages leave the block at `page`.
module _ (a : Area) (page num : ℕ) (sorted : Sorted 0 (blocks a.pages a.free_list))
    (listed : page ∈ a.free_list) (some_pages : 0 < num)
    (fits : num ≤ (a.pages page).property) where
  pub take_block-view :
      blocks (take_block page num a).pages (take_block page num a).free_list
      ≡ take_front page num (blocks a.pages a.free_list)
  unfolding take_block
  take_block-view = elim (Bool-cases (ltb num (a.pages page).property)) [
    | inl t ↦ rw t (
        relink-split a.pages
          (set_heads page false (
            set_heads (page + num) true
              (set_property (page + num) ((a.pages page).property - num) a.pages)))
          page num a.free_list (ltb→lt _ _ t)
          (rest-not-mem a.pages 0 page num a.free_list sorted listed some_pages (ltb→lt _ _ t))
          (ground arith) (λ x d. ground arith))
    | inr f ↦ rw f (
        relink-whole a.pages (set_heads page false a.pages) page num a.free_list (ground arith)
          (λ x. ground arith))
  ]

  pub take_block-heads :
      (q : ℕ)
      → (a.pages q).heads ≡ has q a.free_list
      → ((take_block page num a).pages q).heads ≡ has q (take_block page num a).free_list
  unfolding take_block
  take_block-heads q h = elim (Bool-cases (ltb num (a.pages page).property)) [
    | inl t ↦ rw t (
        ground (
          arith,
          relink-some-has page (page + num) q a.free_list
              (Sorted-Distinct a.pages 0 a.free_list sorted) listed,
        ))
    | inr f ↦ rw f (
        ground (
          arith,
          relink-none-has page q a.free_list (Sorted-Distinct a.pages 0 a.free_list sorted),
        ))
  ]

  pub take_block-reserved :
      (q : ℕ) → ((take_block page num a).pages q).reserved ≡ (a.pages q).reserved
  unfolding take_block
  take_block-reserved q = elim (Bool-cases (ltb num (a.pages page).property)) [
    | inl t ↦ rw t (ground arith)
    | inr f ↦ rw f (ground arith)
  ]

  pub take_block-nr_free : (take_block page num a).nr_free ≡ a.nr_free - num
  unfolding take_block
  take_block-nr_free = elim (Bool-cases (ltb num (a.pages page).property)) [
    | inl t ↦ rw t
    | inr f ↦ rw f
  ]
