-- ===== src/Mm/Pmm/Valid.antt =====
-- The invariant of `free_area`, and facts about the lists that it speaks of.
use hard_core.Prelude.{
  ℕ, ◌+◌, ◌<◌, ◌≡◌, refl, Bool, true, false, List, [], ◌∷◌, arith, has, ◌∉◌, Distinct,
}
use hard_core.Mm.Pmm.{Pages, Area}
use hard_core.Mm.Pmm.Blocks.{Block, Sorted, Clear, covers, total, in_range}
use hard_core.Mm.Pmm.View.{blocks}

abbrev pub free_blocks : Area → List Block
free_blocks a = blocks a.pages a.free_list

-- Whether the page lies in a free block.
abbrev pub is_free : Area → ℕ → Bool
is_free a = covers (free_blocks a)

-- The free list is ascending and its blocks neither overlap nor touch, `nr_free` counts their
-- pages, PG_property marks their first pages and no other page, and no free page is reserved.
pub record IsValid (a : Area) : Type 0 where
  pub sorted : Sorted 0 (free_blocks a)
  pub counted : a.nr_free ≡ total (free_blocks a)
  pub heads : (q : ℕ) → (a.pages q).heads ≡ has q a.free_list
  pub usable : (q : ℕ) → is_free a q ≡ true → (a.pages q).reserved ≡ false

pub Sorted-lower :
    (ps : Pages) (lo : ℕ) (xs : List ℕ) (q : ℕ) → Sorted lo (blocks ps xs) → q < lo → q ∉ xs
Sorted-lower ps lo [] q s h = refl
Sorted-lower ps lo (x ∷ xs) q s h =
    ground (arith, Sorted-lower ps (x + (ps x).property + 1) xs q s.2)

pub Sorted-Distinct : (ps : Pages) (lo : ℕ) (xs : List ℕ) → Sorted lo (blocks ps xs) → Distinct xs
Sorted-Distinct ps lo [] s = tt
Sorted-Distinct ps lo (x ∷ xs) s =
    let next = x + (ps x).property + 1 in
    (Sorted-lower ps next xs x s.2 (omega arith), Sorted-Distinct ps next xs s.2)

-- No block starts in a range that is clear of them.
pub Clear-not-mem :
    (ps : Pages) (lo b n : ℕ) (xs : List ℕ) (q : ℕ)
    → Sorted lo (blocks ps xs)
    → Clear b n (blocks ps xs)
    → in_range b n q ≡ true
    → q ∉ xs
Clear-not-mem ps lo b n [] q s c h = refl
Clear-not-mem ps lo b n (x ∷ xs) q s c h =
    ground (arith, Clear-not-mem ps (x + (ps x).property + 1) b n xs q s.2 c.1)
