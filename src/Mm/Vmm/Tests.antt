-- ===== src/Mm/Vmm/Tests.antt =====
-- An address space of two areas at work.
use hard_core.Prelude.{
  ℕ, ◌+◌, ◌≡◌, refl, ◌↔◌, ◌⊎◌, Bool, true, false, none, some, List, [], ◌∷◌, ◌++◌, arith,
}
use hard_core.Mm.Vmm.{
  new_mm, Vma, Mm, Lower, deref, covers, find_from, find_slow, check_prev, check_vma_overlap,
  insert_walk, search_list, remember, find_vma, insert_vma_struct, round_down, round_up,
  user_access,
}
use hard_core.Mm.Vmm.Find.{Areas, Cached, IsValid, find_vma_lem}
use hard_core.Mm.Vmm.Walk.{all_apart}
use hard_core.Mm.Vmm.Insert.{with_area, insert_vma_struct_lem}
use hard_core.Mm.Vmm.Calls.{
  dup_mmap, add_word, mm_map, map_range, starts_below, map_made, vma_create, area_at,
  user_mem_check,
}
use hard_core.Mm.Vmm.Map.{Mapped, mm_map_lem}
use hard_core.Mm.Vmm.Access.{PermitsAll, user_mem_check_iff}
use hard_core.Mm.Vmm.Unmap.{mm_unmap, unmap_found}
use hard_core.Mm.Vmm.Dup.{ranges, dup_mmap_lem}

abbrev text_area : Vma
text_area = record { ptr = 100; vm_start = 0x200000; vm_end = 0x202000; vm_flags = 5 }

abbrev data_area : Vma
data_area = record { ptr = 200; vm_start = 0x202000; vm_end = 0x204000; vm_flags = 3 }

abbrev far_area : Vma
far_area = record { ptr = 300; vm_start = 0x300000; vm_end = 0x301000; vm_flags = 3 }

abbrev two_areas : Mm
two_areas = record { mmap_list = text_area ∷ data_area ∷ []; mmap_cache = some 200; map_count = 2 }

two_areas-IsValid : IsValid two_areas
unfolding Areas Cached deref
two_areas-IsValid = record {
  areas = (ground arith, ground arith, (ground arith, ground arith, tt));
  cached = (data_area, refl);
  count = refl;
}

-- Memory that is never short, and page tables that do nothing.
abbrev ample : Lower ℕ
ample = record {
  kmalloc = λ w. (some w, w + 1);
  kfree = λ p w. w;
  copy_range = λ a b w. (0, w);
  unmap_range = λ a b w. w;
  exit_range = λ a b w. w;
}

find_vma_lem_example :
    (find_vma two_areas 0x200010
      ≡ some (
        search_list two_areas.mmap_list 0x200010,
        remember (search_list two_areas.mmap_list 0x200010) two_areas,
      ))
    × IsValid (remember (search_list two_areas.mmap_list 0x200010) two_areas)
find_vma_lem_example = find_vma_lem two_areas 0x200010 two_areas-IsValid

insert_vma_struct_lem_example :
    ((all_apart far_area two_areas.mmap_list ≡ true)
      × ((xs : List Vma) × (ys : List Vma) × (two_areas.mmap_list ≡ xs ++ ys)
          × (insert_vma_struct two_areas far_area ≡ some (with_area xs far_area ys two_areas))
          × IsValid (with_area xs far_area ys two_areas)))
    ⊎ ((all_apart far_area two_areas.mmap_list ≡ false)
        × (insert_vma_struct two_areas far_area ≡ none))
insert_vma_struct_lem_example =
    insert_vma_struct_lem two_areas far_area two_areas-IsValid (ground arith)

mm_map_lem_example :
    Mapped ample two_areas
      (round_down 0x300010)
      (round_up (add_word 0x300010 100))
      3
      500
      (mm_map ample two_areas 0x300010 100 3 500)
mm_map_lem_example = mm_map_lem ample two_areas 0x300010 100 3 500 two_areas-IsValid

user_mem_check_iff_example :
    (answer : Bool) × (after : Mm) × (user_mem_check (some two_areas) 0x201000 0x2000 false
      ≡ some (answer, some after))
    × IsValid after
    × (after.mmap_list ≡ two_areas.mmap_list)
    × ((answer ≡ true) ↔ (
        (user_access 0x201000 (add_word 0x201000 0x2000) ≡ true)
        × PermitsAll two_areas.mmap_list false 0x201000 (add_word 0x201000 0x2000)))
user_mem_check_iff_example = user_mem_check_iff two_areas 0x201000 0x2000 false two_areas-IsValid

abbrev three_areas : Mm
three_areas = record {
  mmap_list = text_area ∷ data_area ∷ far_area ∷ [];
  mmap_cache = none;
  map_count = 3;
}

-- A range that starts in a hole and reaches into an area makes an assertion fail.
map_into_area : mm_map ample three_areas 0x2ff000 0x2000 3 500 ≡ none
unfolding mm_map map_range find_vma find_from deref covers starts_below find_slow search_list
    map_made vma_create area_at insert_vma_struct insert_walk remember check_prev check_vma_overlap
    user_access round_down round_up with_area
map_into_area = refl

three_areas-IsValid : IsValid three_areas
unfolding Areas Cached
three_areas-IsValid = record {
  areas =
      (ground arith, ground arith, (ground arith, ground arith, (ground arith, ground arith, tt)));
  cached = tt;
  count = refl;
}

-- A range whose first address is in a hole is not unmapped, though it reaches into an area.
hole_in_front : mm_unmap ample three_areas 0x2ff000 0x2000 500 ≡ some (0, three_areas, 500)
unfolding mm_unmap unmap_found user_access round_down round_up find_vma find_from find_slow
    search_list covers remember
hole_in_front = refl

dup_mmap_lem_example :
    (to : Mm) × (w' : ℕ) × (dup_mmap ample new_mm three_areas 500 ≡ some (0, to, w'))
    × (ranges to.mmap_list ≡ ranges three_areas.mmap_list)
    × IsValid to
dup_mmap_lem_example =
    dup_mmap_lem ample (λ w. (w, refl)) (λ a b w. refl) three_areas 500 three_areas-IsValid
