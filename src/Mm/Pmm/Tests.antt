-- ===== src/Mm/Pmm/Tests.antt =====
-- Runs of the page allocator, and its theorems at concrete areas.
use hard_core.Prelude.{
  ℕ, ◌≤◌, ◌≡◌, refl, inl, inr, Bool, true, false, some, [], ◌∷◌, arith, ◌==◌, if◌then◌else◌,
}
use hard_core.Mm.Pmm.{
  Page, Area, default_init, default_init_memmap, first_fit, best_fit, worst_fit, alloc_pages,
  take_block, default_free_pages,
}
use hard_core.Mm.Pmm.Blocks.{in_range}
use hard_core.Mm.Pmm.Valid.{is_free, IsValid}
use hard_core.Mm.Pmm.Policy.{Suits, first_fit-IsPolicy, best_fit-IsPolicy, policies_choose}
use hard_core.Mm.Pmm.Alloc.{Allocated, alloc_pages-Allocated, free-alloc}
use hard_core.Mm.Pmm.Free.{Freed, default_free_pages_lem}
use hard_core.Mm.Pmm.Init.{init_memmap-IsValid}

abbrev page_of : Bool → Bool → ℕ → Page
page_of r h n = record { reserved = r; heads = h; property = n; ref = 0 }

-- Ten reserved pages.
abbrev booted : Area
booted = record { pages = λ q. page_of true false 0; free_list = []; nr_free = 0 }

-- Pages 0 to 3 and 6 to 9 are free.
abbrev two_blocks : Area
two_blocks = record {
  pages = λ q.
      if q == 0
      then page_of false true 4
      else if q == 6
      then page_of false true 3
      else page_of false false 0;
  free_list = 0 ∷ 6 ∷ [];
  nr_free = 7;
}

two_blocks-IsValid : IsValid two_blocks
two_blocks-IsValid = record {
  sorted = omega arith;
  counted = refl;
  heads = λ q. ground arith;
  usable = λ q m. ground arith;
}

init_memmap-IsValid_example :
    (a' : Area) × (default_init_memmap 2 10 (default_init booted) ≡ some a')
    × IsValid a'
    × ((q : ℕ) → is_free a' q ≡ in_range 2 10 q)
    × (a'.nr_free ≡ 10)
init_memmap-IsValid_example =
    init_memmap-IsValid booted 2 10 (omega arith) (λ q. refl) (λ q m. refl)

policies_choose_example :
    (first_fit two_blocks.pages 3 (0 ∷ 6 ∷ []) ≡ some 6
      → Suits two_blocks.pages 3 (0 ∷ 6 ∷ []) 6 (λ x. 6 ≤ x))
    × (best_fit two_blocks.pages 3 (0 ∷ 6 ∷ []) ≡ some 6
        → Suits two_blocks.pages 3 (0 ∷ 6 ∷ []) 6 (λ x. 3 ≤ (two_blocks.pages x).property))
    × (worst_fit two_blocks.pages 3 (0 ∷ 6 ∷ []) ≡ some 6
        → Suits two_blocks.pages 3 (0 ∷ 6 ∷ []) 6 (λ x. (two_blocks.pages x).property ≤ 3))
policies_choose_example =
    policies_choose two_blocks.pages 3 (0 ∷ 6 ∷ []) 6 two_blocks-IsValid.sorted

-- The three policies on the same area.
policies_run :
    (first_fit two_blocks.pages 3 (0 ∷ 6 ∷ []) ≡ some 0)
    × (best_fit two_blocks.pages 3 (0 ∷ 6 ∷ []) ≡ some 6)
    × (worst_fit two_blocks.pages 3 (0 ∷ 6 ∷ []) ≡ some 0)
unfolding first_fit best_fit worst_fit
policies_run = (refl, refl, refl)

alloc_pages-Allocated_example : Allocated two_blocks 2 (alloc_pages best_fit 2 two_blocks)
alloc_pages-Allocated_example =
    alloc_pages-Allocated best_fit best_fit-IsPolicy two_blocks 2 two_blocks-IsValid
      (λ x m. ground arith) (omega arith)

default_free_pages_lem_example :
    (a' : Area) × (default_free_pages 4 2 two_blocks ≡ some a') × Freed two_blocks 4 2 a'
default_free_pages_lem_example =
    default_free_pages_lem two_blocks 4 2 two_blocks-IsValid (omega arith)
      (inr (omega arith), (inl (omega arith), tt)) (λ q m. ground arith)

-- Two pages taken from the front of the first block.
abbrev taken_area : Area
taken_area = take_block 0 2 two_blocks

takes_two : alloc_pages first_fit 2 two_blocks ≡ some (some 0, taken_area)
unfolding alloc_pages first_fit
takes_two = refl

free-alloc_example :
    (a'' : Area) × (default_free_pages 0 2 taken_area ≡ some a'')
    × ((q : ℕ) → is_free a'' q ≡ is_free two_blocks q)
    × (a''.nr_free ≡ 7)
    × IsValid a''
free-alloc_example =
    free-alloc first_fit first_fit-IsPolicy two_blocks 0 2 taken_area two_blocks-IsValid
      (λ x m. ground arith) (omega arith) takes_two
