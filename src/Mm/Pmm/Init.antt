-- ===== src/Mm/Pmm/Init.antt =====
-- `default_init` and `default_init_memmap`.
use hard_core.Prelude.{
  ℕ, zero, suc, ◌+◌, ◌<◌, ◌≡◌, refl, ◌∙◌, true, false, some, [], ◌∷◌, arith, ◌==◌, if◌then◌else◌,
}
use hard_core.Mm.Pmm.{
  Page, Pages, Area, update, set_property, set_heads, claim, default_init, default_init_memmap,
}
use hard_core.Mm.Pmm.Blocks.{in_range}
use hard_core.Mm.Pmm.Valid.{is_free, IsValid}

abbrev fresh : Page
fresh = record { reserved = false; heads = false; property = 0; ref = 0 }

claim-some :
    (ps : Pages) (ptr k : ℕ)
    → ((q : ℕ) → in_range ptr k q ≡ true → (ps q).reserved ≡ true)
    → (qs : Pages) × (claim ps ptr k ≡ some qs)
      × ((q : ℕ) → qs q ≡ (if in_range ptr k q then fresh else ps q))
unfolding claim
claim-some ps ptr zero h = (ps, refl, λ q. ground arith)
claim-some ps ptr (suc k) h =
    let now = h ptr (ground arith) in
    let (qs, e, v) = claim-some (update ps ptr fresh) (ptr + 1) k (λ q m. ground (arith, h q)) in
    (qs, rw now e, λ q. v q ∙ ground arith)

-- On a page table without block heads, `default_init` and `default_init_memmap` of a range of
-- reserved pages succeed: the area is valid, and exactly the pages of the range are free and
-- counted.
pub init_memmap-IsValid :
    (a : Area) (base n : ℕ)
    → 0 < n
    → ((q : ℕ) → (a.pages q).heads ≡ false)
    → ((q : ℕ) → in_range base n q ≡ true → (a.pages q).reserved ≡ true)
    → (a' : Area) × (default_init_memmap base n (default_init a) ≡ some a')
      × IsValid a'
      × ((q : ℕ) → is_free a' q ≡ in_range base n q)
      × (a'.nr_free ≡ n)
unfolding default_init default_init_memmap
init_memmap-IsValid a base n p h r =
    let (qs, e, w) = claim-some a.pages base n r in
    let f : (n == 0) ≡ false = ground arith in
    let a' : Area = record {
      pages = set_heads base true (set_property base n qs);
      free_list = base ∷ [];
      nr_free = 0 + n;
    } in
    (
      a',
      rw (f, e),
      record {
        sorted = ground arith;
        counted = ground arith;
        heads = λ q. ground (arith, w q, h q);
        usable = λ q m. ground (arith, w q);
      },
      λ q. ground arith,
      omega arith,
    )
