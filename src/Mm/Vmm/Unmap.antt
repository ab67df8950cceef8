-- ===== src/Mm/Vmm/Unmap.antt =====
-- kern/mm/vmm.c: `mm_unmap` and `mm_brk`.
use hard_core.Prelude.{
  ℕ, ◌-◌, ◌%◌, Bool, false, ◌&&◌, Option, none, some, List, [], ◌∷◌, ltb, leb, ◌==◌, if◌then◌else◌,
  ◌>>=◌, ◌>>◌, assert,
}
use hard_core.Mm.Vmm.{
  Vma, Mm, Lower, find_vma, insert_vma_struct, page_size, round_down, round_up, user_access,
}
use hard_core.Mm.Vmm.Calls.{e_inval, e_no_mem, add_word, vma_create}

unfoldable pub vma_resize : Vma → ℕ → ℕ → Option Vma
vma_resize v start end = do
  assert ((start % page_size == 0) && (end % page_size == 0))
  assert (leb v.vm_start start && (ltb start end && leb end v.vm_end))
  some (record v { vm_start = start; vm_end = end })

-- A write to the area at an address of memory.
unfoldable pub put_area : Vma → List Vma → List Vma
put_area v [] = []
put_area v (x ∷ xs) = if x.ptr == v.ptr then v ∷ xs else x ∷ put_area v xs

unfoldable pub drop_area : ℕ → List Vma → List Vma
drop_area p [] = []
drop_area p (x ∷ xs) = if x.ptr == p then xs else x ∷ drop_area p xs

unfoldable pub points_to : Option ℕ → ℕ → Bool
points_to none p = false
points_to (some q) p = q == p

-- The area is one of this space, as its field `vm_mm` says.
unfoldable pub remove_vma_struct : Vma → Mm → Mm
remove_vma_struct v m = record {
  mmap_list = drop_area v.ptr m.mmap_list;
  mmap_cache = if points_to m.mmap_cache v.ptr then none else m.mmap_cache;
  map_count = m.map_count - 1;
}

-- The areas from one on.
unfoldable pub from_area : ℕ → List Vma → List Vma
from_area p [] = []
from_area p (x ∷ xs) = if x.ptr == p then x ∷ xs else from_area p xs

-- The first loop of `mm_unmap`: areas that start below `end` go to the front of `free_list`.
unfoldable pub take_over : ℕ → List Vma → Mm → List Vma → Mm × List Vma
take_over end [] m free_list = (m, free_list)
take_over end (x ∷ xs) m free_list =
    if ltb x.vm_start end
    then take_over end xs (remove_vma_struct x m) (x ∷ free_list)
    else (m, free_list)

module _ {W : Type 0} (lower : Lower W) where
  -- The second loop: what is left of an area goes back, and the rest is unmapped.
  unfoldable pub put_back : ℕ → ℕ → List Vma → Mm → W → Option (Mm × W)
  put_back start end [] m w = some (m, w)
  put_back start end (x ∷ xs) m w =
      if ltb x.vm_start start
      then (vma_resize x x.vm_start start >>= λ r. insert_vma_struct m r >>= λ m'.
          put_back start end xs m' (lower.unmap_range start x.vm_end w))
      else if ltb end x.vm_end
      then (vma_resize x end x.vm_end >>= λ r. insert_vma_struct m r >>= λ m'.
          put_back start end xs m' (lower.unmap_range x.vm_start end w))
      else put_back start end xs m (lower.unmap_range x.vm_start x.vm_end (lower.kfree x.ptr w))

  -- The part of an area in its middle is unmapped.
  unfoldable pub unmap_middle : ℕ → ℕ → Vma → Mm → W → Option (ℕ × Mm × W)
  unmap_middle start end v m w =
      let made = vma_create lower v.vm_start start v.vm_flags w in
      elim made.0 [
        | none ↦ some (e_no_mem, m, made.1)
        | some n ↦ vma_resize v end v.vm_end >>= λ r.
            insert_vma_struct (record m { mmap_list = put_area r m.mmap_list }) n >>= λ m'.
            some (0, m', lower.unmap_range start end made.1)
      ]

  unfoldable pub unmap_over : ℕ → ℕ → Vma → Mm → W → Option (ℕ × Mm × W)
  unmap_over start end v m w =
      let taken = take_over end (from_area v.ptr m.mmap_list) m [] in
      put_back start end taken.1 taken.0 w >>= λ r. some (0, r.0, r.1)

  -- What `mm_unmap` does with the area that `find_vma` has found at the first address.
  unfoldable pub unmap_found : ℕ → ℕ → Option Vma × Mm → W → Option (ℕ × Mm × W)
  unmap_found start end found w = elim found.0 [
    | none ↦ some (0, found.1, w)
    | some v ↦
        if leb end v.vm_start
        then some (0, found.1, w)
        else if ltb v.vm_start start && ltb end v.vm_end
        then unmap_middle start end v found.1 w
        else unmap_over start end v found.1 w
  ]

  unfoldable pub mm_unmap : Mm → ℕ → ℕ → W → Option (ℕ × Mm × W)
  mm_unmap m addr len w =
      let start = round_down addr in
      let end = round_up (add_word addr len) in
      if user_access start end
      then (find_vma m start >>= λ found. unmap_found start end found w)
      else some (e_inval, m, w)

  -- The area in front of the new heap is longer then, or a new area is made.
  unfoldable pub brk_found : ℕ → ℕ → Option Vma × Mm → W → Option (ℕ × Mm × W)
  brk_found start end found w =
      let fresh = vma_create lower start end 3 w in
      let insert_new : Option (ℕ × Mm × W) = elim fresh.0 [
        | none ↦ some (e_no_mem, found.1, fresh.1)
        | some n ↦ insert_vma_struct found.1 n >>= λ m'. some (0, m', fresh.1)
      ] in
      elim found.0 [
        | none ↦ insert_new
        | some v ↦
            if (v.vm_end == start) && (v.vm_flags == 3)
            then some (
              0,
              record found.1 { mmap_list = put_area (record v { vm_end = end }) found.1.mmap_list },
              w,
            )
            else insert_new
      ]

  unfoldable pub mm_brk : Mm → ℕ → ℕ → W → Option (ℕ × Mm × W)
  mm_brk m addr len w =
      let start = round_down addr in
      let end = round_up (add_word addr len) in
      if user_access start end
      then (mm_unmap m start (end - start) w >>= λ (ret, m', w').
          if ret == 0
          then (find_vma m' (start - 1) >>= λ found. brk_found start end found w')
          else some (ret, m', w'))
      else some (e_inval, m, w)
