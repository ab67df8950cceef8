-- ===== src/Mm/Pmm/Alloc.antt =====
-- `default_alloc_pages` and its variants over any policy, and that free undoes alloc.
use hard_core.Prelude.{
  subst, ℕ, ◌+◌, ◌≤◌, ◌<◌, ◌≡◌, ap, ◌∙◌, inl, inr, true, false, not, ◌&&◌, Option, none, some, List,
  [], ◌∷◌, arith, ltb, ◌==◌, ltb→lt, Bool-cases, Option-cases, ◌∈◌,
}
use hard_core.Mm.Pmm.{Pages, Area, Policy, alloc_pages, take_block, default_free_pages}
use hard_core.Mm.Pmm.Blocks.{Block, Sorted, Clear, covers, total, in_range}
use hard_core.Mm.Pmm.View.{blocks}
use hard_core.Mm.Pmm.Valid.{free_blocks, is_free, IsValid}
use hard_core.Mm.Pmm.Policy.{IsPolicy, Small}
use hard_core.Mm.Pmm.Take.{size_at, take_front-Sorted, take_front-covers, take_front-total}
use hard_core.Mm.Pmm.Relink.{
  size_at-blocks, take_block-view, take_block-heads, take_block-reserved, take_block-nr_free,
}
use hard_core.Mm.Pmm.Free.{default_free_pages_lem}

-- The area after `num` pages from `page` on are handed out: they were free, they are no longer,
-- no other page changes sides, they are counted, and none of them is reserved.
pub record Taken (a : Area) (page num : ℕ) (a' : Area) : Type 0 where
  pub valid : IsValid a'
  pub was_free : (q : ℕ) → in_range page num q ≡ true → is_free a q ≡ true
  pub pages : (q : ℕ) → is_free a' q ≡ (is_free a q && not (in_range page num q))
  pub counted : a'.nr_free + num ≡ a.nr_free
  pub usable : (q : ℕ) → in_range page num q ≡ true → (a'.pages q).reserved ≡ false

module _ (a : Area) (page num : ℕ) (v : IsValid a) (listed : page ∈ a.free_list)
    (some_pages : 0 < num) (fits : num ≤ (a.pages page).property) where
  fits_view : num ≤ size_at page (free_blocks a)
  fits_view = rw (size_at-blocks a.pages page a.free_list listed) fits

  pub take_block-Taken : Taken a page num (take_block page num a)
  take_block-Taken =
      let w = take_block-view a page num v.sorted listed some_pages fits in
      let c =
        λ (q : ℕ). take_front-covers 0 page num (free_blocks a) q v.sorted fits_view some_pages in
      let n = take_block-nr_free a page num v.sorted listed some_pages fits in
      let t = take_front-total page num (free_blocks a) fits_view some_pages in
      let pages : (q : ℕ)
          → is_free (take_block page num a) q ≡ (is_free a q && not (in_range page num q)) =
        λ q. rw w (c q).0 in
      record {
        valid = record {
          sorted =
              rw w (take_front-Sorted 0 page num (free_blocks a) v.sorted fits_view some_pages);
          counted = omega (arith, v.counted, ap total w);
          heads = λ q. take_block-heads a page num v.sorted listed some_pages fits q (v.heads q);
          usable = λ q m.
              take_block-reserved a page num v.sorted listed some_pages fits q
              ∙ v.usable q (ground (arith, pages q));
        };
        was_free = λ q. (c q).1;
        pages = pages;
        counted = omega (arith, v.counted);
        usable = λ q m.
            take_block-reserved a page num v.sorted listed some_pages fits q
            ∙ v.usable q ((c q).1 m);
      }

-- What a call of an allocator gives: a block that is taken, or `NULL` in an area that is left
-- alone and has no block that is large enough.
pub data Allocated (a : Area) (num : ℕ) : Option (Option ℕ × Area) → Type 0 where
  taken : {page : ℕ} {a' : Area} → Taken a page num a' → Allocated a num (some (some page, a'))
  refused :
      ((x : ℕ) → x ∈ a.free_list → (a.pages x).property < num) → Allocated a num (some (none, a))

size-le-total : (ps : Pages) (xs : List ℕ) (x : ℕ) → x ∈ xs → (ps x).property ≤ total (blocks ps xs)
size-le-total ps [] x m = absurd (cc)
size-le-total ps (y ∷ xs) x m = ground (arith, size-le-total ps xs x)

module _ (policy : Policy) (is_policy : IsPolicy policy) (a : Area) (num : ℕ) (v : IsValid a)
    (small : Small a.pages a.free_list) (some_pages : 0 < num) where
  -- An allocator under any of the policies never fails an assertion on a valid area: it hands out
  -- `num` pages that were free and keeps the invariant, and it returns `NULL` only where no free
  -- block is large enough.
  pub alloc_pages-Allocated : Allocated a num (alloc_pages policy num a)
  unfolding alloc_pages
  alloc_pages-Allocated =
      let f : (num == 0) ≡ false = ground arith in
      rw f (elim (Bool-cases (ltb a.nr_free num)) [
        | inl t ↦ rw t (
            refused (λ x m.
              let k = size-le-total a.pages a.free_list x m in
              omega (arith, v.counted, ltb→lt a.nr_free num t)))
        | inr g ↦ rw g (elim (Option-cases (policy a.pages num a.free_list)) [
          | inl n ↦ rw n (refused (is_policy.complete a.pages num a.free_list small n))
          | inr (page, e) ↦ rw e (
              let s = is_policy.sound a.pages num a.free_list e in
              taken (take_block-Taken a page num v s.0 some_pages s.1))
        ])
      ])

-- A range none of whose pages is covered is clear of the blocks.
Clear-of_covers :
    (lo b n : ℕ) (l : List Block)
    → 0 < n
    → Sorted lo l
    → ((q : ℕ) → in_range b n q ≡ true → covers l q ≡ false)
    → Clear b n l
Clear-of_covers lo b n [] p s h = tt
Clear-of_covers lo b n ((x, m) ∷ r) p s h =
    (ground (arith, h b, h x), Clear-of_covers (x + m + 1) b n r p s.2 (λ q i. ground (arith, h q)))

Taken-of :
    (a : Area) (page num : ℕ) (a' : Area) {o : Option (Option ℕ × Area)}
    → Allocated a num o
    → o ≡ some (some page, a')
    → Taken a page num a'
Taken-of a page num a' (taken {page = p} {a' = b} t) e =
    let same_page : p ≡ page = cc in
    let same_area : b ≡ a' = cc in
    subst (λ x. Taken a x num a') same_page (subst (Taken a p num) same_area t)
Taken-of a page num a' (refused n) e = absurd (cc)

-- Giving back the pages that an allocator under any of the policies has handed out from a valid
-- area fails no assertion, and the free pages and their number are what they were.
pub free-alloc :
    (policy : Policy)
    → IsPolicy policy
    → (a : Area) (page num : ℕ) (a' : Area) → IsValid a
    → Small a.pages a.free_list
    → 0 < num
    → alloc_pages policy num a ≡ some (some page, a')
    → (a'' : Area) × (default_free_pages page num a' ≡ some a'')
      × ((q : ℕ) → is_free a'' q ≡ is_free a q)
      × (a''.nr_free ≡ a.nr_free)
      × IsValid a''
free-alloc policy is_policy a page num a' v small p got =
    let t = Taken-of a page num a' (alloc_pages-Allocated policy is_policy a num v small p) got in
    let clear =
      Clear-of_covers 0 page num (free_blocks a') p t.valid.sorted
        (λ q m. ground (arith, t.pages q)) in
    let (a'', e, f) = default_free_pages_lem a' page num t.valid p clear t.usable in
    (
      a'',
      e,
      λ q. ground (arith, f.pages q, t.pages q, t.was_free q),
      omega (arith, f.counted, t.counted),
      f.valid,
    )
