-- ===== src/Mm/Pmm.antt =====
-- kern/mm/default_pmm.c: the physical page allocator (first, best and worst fit).
-- A page is known by its index in `pages[]`; the free list is the sequence of the pages whose
-- `page_link` stands in `free_area.free_list`, in the order of the ring.
pub mod Blocks
pub mod Merge
pub mod View
pub mod Valid
pub mod Loops
pub mod Free
pub mod Take
pub mod Relink
pub mod Alloc
pub mod Init
mod Tests
pub mod Policy
use mathlib.Core.Option
use hard_core.Prelude.{
  ℕ, zero, suc, ◌+◌, ◌-◌, ◌*◌, ◌/◌, ◌%◌, ◌^◌, ◌≤◌, ◌<◌, min, max, ◌≡◌, refl, sym, ap, ap₂, ◌∙◌,
  subst, ◌≢◌, ◌↔◌, ◌⊎◌, inl, inr, Bool, true, false, not, ◌&&◌, ◌||◌, Option, none, some, List, [],
  ◌∷◌, ◌++◌, map, arith, ltb, leb, ◌==◌, if◌then◌else◌, ltb→lt, lt→ltb, leb→le, ==_iff, tests,
  Bool-cases, Option-cases, length, get_elem?, set, length-append, length-set, get_elem?-set_self,
  get_elem?-set_ne, get_or, take, drop, replicate, take-append-drop, length-take, length-drop,
  length-replicate, length-map, has, ◌∈◌, ◌∉◌, has-append, Distinct, Apart, Distinct-split,
  Distinct-join, snoc_view, Distinct-insert, Distinct-remove, Distinct-remove_after,
}

-- `struct Page`, its flag bits apart: `reserved` is PG_reserved, `heads` is PG_property.
pub record Page : Type 0 where
  pub reserved : Bool
  pub heads : Bool
  pub property : ℕ
  pub ref : ℕ

abbrev pub Pages : Type 0
Pages = ℕ → Page

abbrev pub update : Pages → ℕ → Page → Pages
update ps i v j = if j == i then v else ps j

-- `free_area` with the page table that it speaks of.
pub record Area : Type 0 where
  pub pages : Pages
  pub free_list : List ℕ
  pub nr_free : ℕ

unfoldable pub set_property : ℕ → ℕ → Pages → Pages
set_property i n ps = update ps i (record (ps i) { property = n })

-- `SetPageProperty` and `ClearPageProperty`
unfoldable pub set_heads : ℕ → Bool → Pages → Pages
set_heads i b ps = update ps i (record (ps i) { heads = b })

unfoldable pub default_init : Area → Area
default_init a = record a { free_list = []; nr_free = 0 }

-- The loop of `default_init_memmap`: `none` is a failed assertion.
unfoldable pub claim : Pages → ℕ → ℕ → Option Pages
claim ps ptr zero = some ps
claim ps ptr (suc k) =
    if (ps ptr).reserved
    then claim (update ps ptr (record { reserved = false; heads = false; property = 0; ref = 0 }))
        (ptr + 1) k
    else none

unfoldable pub default_init_memmap : ℕ → ℕ → Area → Option Area
unfolding claim set_property set_heads
default_init_memmap base n a = if n == 0 then none else elim (claim a.pages base n) [
  | none ↦ none
  | some ps ↦ some (record {
    pages = set_heads base true (set_property base n ps);
    free_list = a.free_list ++ (base ∷ []);
    nr_free = a.nr_free + n;
  })
]

-- The first block that is large enough.
unfoldable pub first_fit : Pages → ℕ → List ℕ → Option ℕ
first_fit ps num [] = none
first_fit ps num (ptr ∷ rest) =
    if leb num (ps ptr).property then some ptr else first_fit ps num rest

-- The loop of the best fit: `legal_page_min_size` is compared as an unsigned number.
unfoldable pub best_loop : Pages → ℕ → List ℕ → Option ℕ → ℕ → Option ℕ
best_loop ps num [] page least = page
best_loop ps num (ptr ∷ rest) page least =
    let size = (ps ptr).property in
    let hit = leb num size && ltb size least in
    best_loop ps num rest (if hit then some ptr else page) (if hit then size else least)

-- `int legal_page_min_size = 0x7ffffffff` is cut to 32 bits.
unfoldable pub best_fit : Pages → ℕ → List ℕ → Option ℕ
unfolding best_loop
best_fit ps num l = best_loop ps num l none (0x7_ffff_ffff % 2 ^ 32)

unfoldable pub worst_loop : Pages → ℕ → List ℕ → Option ℕ → ℕ → Option ℕ
worst_loop ps num [] page most = page
worst_loop ps num (ptr ∷ rest) page most =
    let size = (ps ptr).property in
    let hit = leb num size && leb most size in
    worst_loop ps num rest (if hit then some ptr else page) (if hit then size else most)

unfoldable pub worst_fit : Pages → ℕ → List ℕ → Option ℕ
unfolding worst_loop
worst_fit ps num l = worst_loop ps num l none 0

-- The entry of `page` leaves the list, and that of the rest `p` takes its place if there is one.
unfoldable pub relink : ℕ → Option ℕ → List ℕ → List ℕ
relink page p [] = []
relink page p (x ∷ xs) =
    if x == page then elim p [ none ↦ xs | some q ↦ q ∷ xs ] else x ∷ relink page p xs

-- What the three allocators do with the block that they choose.
unfoldable pub take_block : ℕ → ℕ → Area → Area
unfolding relink set_property set_heads
take_block page num a =
    let size = (a.pages page).property in
    let p = page + num in
    if ltb num size
    then record {
      pages = set_heads page false (set_heads p true (set_property p (size - num) a.pages));
      free_list = relink page (some p) a.free_list;
      nr_free = a.nr_free - num;
    }
    else record {
      pages = set_heads page false a.pages;
      free_list = relink page none a.free_list;
      nr_free = a.nr_free - num;
    }

-- A policy chooses a block of the free list.
abbrev pub Policy : Type 0
Policy = Pages → ℕ → List ℕ → Option ℕ

-- `default_alloc_pages` and its two variants: the outer `none` is a failed assertion, the inner
-- one is `NULL`.
unfoldable pub alloc_pages : Policy → ℕ → Area → Option (Option ℕ × Area)
unfolding take_block
alloc_pages policy num a =
    if num == 0
    then none
    else if ltb a.nr_free num
    then some (none, a)
    else elim (policy a.pages num a.free_list) [
      | none ↦ some (none, a)
      | some page ↦ some (some page, take_block page num a)
    ]

-- The first loop of `default_free_pages`.
unfoldable pub release : Pages → ℕ → ℕ → Option Pages
release ps ptr zero = some ps
release ps ptr (suc k) =
    if (ps ptr).reserved || (ps ptr).heads
    then none
    else release (update ps ptr (record (ps ptr) { reserved = false; heads = false; ref = 0 }))
        (ptr + 1) k

-- One round of the loop that merges: the table, the block, and whether `ptr` stays in the list.
unfoldable pub merge_step : Pages → ℕ → ℕ → Pages × ℕ × Bool
unfolding set_property set_heads
merge_step ps base ptr =
    if base + (ps base).property == ptr
    then (
      set_heads ptr false (set_property base ((ps base).property + (ps ptr).property) ps),
      base,
      false,
    )
    else if ptr + (ps ptr).property == base
    then (
      set_heads base false (set_property ptr ((ps ptr).property + (ps base).property) ps),
      ptr,
      false,
    )
    else (ps, base, true)

unfoldable pub merge : Pages → ℕ → List ℕ → Pages × ℕ × List ℕ
unfolding merge_step
merge ps base [] = (ps, base, [])
merge ps base (ptr ∷ rest) =
    let (ps', base', keep) = merge_step ps base ptr in
    let (ps'', base'', kept) = merge ps' base' rest in
    (ps'', base'', if keep then ptr ∷ kept else kept)

-- The loop that finds the place of the block, and `list_add_before`.
unfoldable pub insert_block : Pages → ℕ → List ℕ → Option (List ℕ)
insert_block ps base [] = some (base ∷ [])
insert_block ps base (ptr ∷ rest) =
    let end = base + (ps base).property in
    let later = insert_block ps base rest in
    if leb end ptr
    then (if end == ptr then none else some (base ∷ ptr ∷ rest))
    else Option.map (λ l. ptr ∷ l) later

unfoldable pub default_free_pages : ℕ → ℕ → Area → Option Area
default_free_pages base num a = if num == 0 then none else elim (release a.pages base num) [
  | none ↦ none
  | some ps ↦
      let (ps', base', kept) =
        merge (set_heads base true (set_property base num ps)) base a.free_list in
      Option.map (λ l. record { pages = ps'; free_list = l; nr_free = a.nr_free + num })
        (insert_block ps' base' kept)
]

unfoldable pub default_nr_free_pages : Area → ℕ
default_nr_free_pages a = a.nr_free
