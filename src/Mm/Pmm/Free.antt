-- ===== src/Mm/Pmm/Free.antt =====
-- `default_free_pages`: the pages come back, merged with the free blocks that they touch.
use hard_core.Prelude.{
  ℕ, ◌+◌, ◌<◌, ◌≡◌, refl, sym, ap, ap₂, ◌∙◌, Bool, true, false, ◌||◌, some, ◌∷◌, arith, ◌==◌,
  if◌then◌else◌, has, ◌∉◌, Distinct, has-ne,
}
use hard_core.Mm.Pmm.{Pages, Area, set_property, set_heads, release, merge, default_free_pages}
use hard_core.Mm.Pmm.Blocks.{
  Clear, total, in_range, coalesce, coalesce-Sorted, coalesce-covers, coalesce-total,
}
use hard_core.Mm.Pmm.View.{blocks, blocks-same}
use hard_core.Mm.Pmm.Valid.{free_blocks, is_free, IsValid, Clear-not-mem, Sorted-Distinct}
use hard_core.Mm.Pmm.Loops.{
  cleared, release-some, insert-has, merge-reserved, merge-heads, marked, Placed, place,
}

-- The area after a successful call: the block is merged into the free list, exactly its pages
-- are added to the free ones, and they are counted.
pub record Freed (a : Area) (base num : ℕ) (a' : Area) : Type 0 where
  pub valid : IsValid a'
  pub merged : free_blocks a' ≡ coalesce base num (free_blocks a)
  pub pages : (q : ℕ) → is_free a' q ≡ (in_range base num q || is_free a q)
  pub counted : a'.nr_free ≡ a.nr_free + num

or_nil : {w : Bool} (b c : Bool) → w ≡ (b || (c || false)) → w ≡ (b || c)
or_nil b c h = ground arith

module _ (a : Area) (base num : ℕ) (v : IsValid a) (some_pages : 0 < num)
    (clear : Clear base num (free_blocks a))
    (usable : (q : ℕ) → in_range base num q ≡ true → (a.pages q).reserved ≡ false) where
  base_out : base ∉ a.free_list
  base_out = Clear-not-mem a.pages 0 base num a.free_list base v.sorted clear (ground arith)

  -- The table after the first loop, as `Released` says.
  record Released (qs : Pages) : Type 0 where
    done : release a.pages base num ≡ some qs
    table : (q : ℕ) → qs q ≡ (if in_range base num q then cleared (a.pages q) else a.pages q)

  released : (qs : Pages) × Released qs
  released =
      let (qs, e, w) = release-some a.pages base num (λ q m. (
        usable q m,
        v.heads q ∙ Clear-not-mem a.pages 0 base num a.free_list q v.sorted clear m,
      )) in
      (qs, record { done = e; table = w })

  module _ (qs : Pages) (r : Released qs) where
    marked_size : ((marked qs base num) base).property ≡ num
    unfolding set_property set_heads
    marked_size = ground arith

    blocks-marked : blocks (marked qs base num) a.free_list ≡ free_blocks a
    unfolding set_property set_heads
    blocks-marked =
        blocks-same a.pages (marked qs base num) a.free_list
          (λ x m. let b = base_out in ground (arith, r.table x, has-ne x base a.free_list))

    marked_heads :
        (q : ℕ) → ((marked qs base num) q).heads ≡ ((q == base) || (has q a.free_list || false))
    unfolding set_property set_heads
    marked_heads q =
        ground (
          arith,
          r.table q,
          v.heads q,
          Clear-not-mem a.pages 0 base num a.free_list q v.sorted clear,
        )

    marked_reserved : (q : ℕ) → ((marked qs base num) q).reserved ≡ (qs q).reserved
    unfolding set_property set_heads
    marked_reserved q = ground arith

    placed : Placed (marked qs base num) base ((marked qs base num) base).property a.free_list
    placed =
        place (marked qs base num) base a.free_list base_out (rw marked_size some_pages)
          (rw blocks-marked v.sorted) (rw (blocks-marked, marked_size) clear)

    -- The area that the call returns.
    result : Area
    result = record {
      pages = (merge (marked qs base num) base a.free_list).0;
      free_list = placed.list;
      nr_free = a.nr_free + num;
    }

    result_lem : default_free_pages base num a ≡ some result
    unfolding default_free_pages result
    result_lem = let f : (num == 0) ≡ false = ground arith in rw (f, r.done, placed.inserted)

    result_blocks : free_blocks result ≡ coalesce base num (free_blocks a)
    unfolding result
    result_blocks = placed.placed ∙ ap₂ (coalesce base) marked_size blocks-marked

    result_pages : (q : ℕ) → is_free result q ≡ (in_range base num q || is_free a q)
    result_pages q = rw (result_blocks) (coalesce-covers base num (free_blocks a) q)

    result_heads : (q : ℕ) → (result.pages q).heads ≡ has q result.free_list
    unfolding result
    result_heads q =
        let ps = marked qs base num in
        let d : Distinct (base ∷ a.free_list) =
          (base_out, Sorted-Distinct a.pages 0 a.free_list v.sorted) in
        let t = merge ps base a.free_list in
        or_nil (q == t.1) (has q t.2)
          (merge-heads ps base a.free_list q false d (marked_heads q) (λ m. refl))
        ∙ sym (insert-has t.0 t.1 t.2 placed.list q placed.inserted)

    result_usable : (q : ℕ) → is_free result q ≡ true → (result.pages q).reserved ≡ false
    unfolding result
    result_usable q m =
        let ps = marked qs base num in
        let k = result_pages q in
        let u : (qs q).reserved ≡ false = ground (arith, r.table q, v.usable q) in
        merge-reserved ps base a.free_list q ∙ marked_reserved q ∙ u

    result-IsValid : IsValid result
    unfolding result
    result-IsValid = record {
      sorted =
          rw result_blocks
            (coalesce-Sorted 0 base num (free_blocks a) (omega arith) some_pages v.sorted clear);
      counted =
          omega (arith, v.counted, coalesce-total base num (free_blocks a), ap total result_blocks);
      heads = λ q. result_heads q;
      usable = λ q m. result_usable q m;
    }

  -- `default_free_pages` of a range of unreserved pages, none of them free, succeeds: no
  -- assertion fails, exactly these pages are added to the free ones, the block is merged with the
  -- free blocks that it touches, the pages are counted, and the invariant holds again.
  pub default_free_pages_lem :
      (a' : Area) × (default_free_pages base num a ≡ some a') × Freed a base num a'
  default_free_pages_lem =
      let (qs, r) = released in
      (
        result qs r,
        result_lem qs r,
        record {
          valid = result-IsValid qs r;
          merged = result_blocks qs r;
          pages = result_pages qs r;
          counted = unfold result in refl;
        },
      )
