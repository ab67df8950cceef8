-- ===== src/Mm/Vmm/Calls.antt =====
-- kern/mm/vmm.c: the calls that use the areas of an address space.
use hard_core.Prelude.{
  assert, ◌>>◌, ℕ, zero, suc, ◌+◌, ◌/◌, ◌%◌, ◌^◌, Bool, true, false, not, ◌&&◌, Option, none, some,
  List, [], reverse, ◌∷◌, ltb, ◌==◌, if◌then◌else◌, ◌>>=◌,
}
use hard_core.Mm.Vmm.{
  Vma, Mm, Lower, find_vma, insert_vma_struct, round_down, round_up, user_access, kern_access,
  page_size,
}

-- The error numbers of libs/error.h that are returned negated.
abbrev pub e_inval : ℕ
e_inval = 3

abbrev pub e_no_mem : ℕ
e_no_mem = 4

abbrev pub add_word : ℕ → ℕ → ℕ
add_word a b = (a + b) % 2 ^ 32

-- A flag of `vm_flags` by the number of its bit: VM_READ 0, VM_WRITE 1, VM_EXEC 2, VM_STACK 3.
unfoldable pub flag : ℕ → ℕ → Bool
flag f k = ltb 0 ((f / 2 ^ k) % 2)

-- The area at the address that `kmalloc` gives.
unfoldable pub area_at : ℕ → ℕ → ℕ → Option ℕ → Option Vma
area_at start end flags none = none
area_at start end flags (some p) =
    some (record { ptr = p; vm_start = start; vm_end = end; vm_flags = flags })

-- What `mm_map` does with the area that it has made, or not.
unfoldable pub map_made {ℓ} : {W : Type ℓ} → Mm → Option Vma × W → Option (ℕ × Mm × W)
map_made m (none, w) = some (e_no_mem, m, w)
map_made m (some v, w) = insert_vma_struct m v >>= λ m'. some (0, m', w)

-- An area that reaches below the end of the request.
unfoldable pub starts_below : ℕ → Option Vma → Bool
starts_below end none = false
starts_below end (some v) = ltb v.vm_start end

module _ {W : Type 0} (lower : Lower W) where
  unfoldable pub vma_create : ℕ → ℕ → ℕ → W → Option Vma × W
  vma_create start end flags w = (area_at start end flags (lower.kmalloc w).0, (lower.kmalloc w).1)

  unfoldable pub map_range : Mm → ℕ → ℕ → ℕ → W → Option (ℕ × Mm × W)
  map_range m start end flags w = do
    (v, m') ← find_vma m start
    if starts_below end v then some (e_inval, m', w) else map_made m' (vma_create start end flags w)

  -- `mm_map` with no place to store the new area in.
  unfoldable pub mm_map : Mm → ℕ → ℕ → ℕ → W → Option (ℕ × Mm × W)
  mm_map m addr len flags w =
      let start = round_down addr in
      let end = round_up (add_word addr len) in
      if user_access start end then map_range m start end flags w else some (e_inval, m, w)

  -- `dup_mmap` walks the areas of `from` backwards; this is the walk over the rest of them.
  unfoldable pub dup_walk : Mm → List Vma → W → Option (ℕ × Mm × W)
  dup_walk to [] w = some (0, to, w)
  dup_walk to (v ∷ vs) w =
      let made = vma_create v.vm_start v.vm_end v.vm_flags w in
      elim made.0 [
        | none ↦ some (e_no_mem, to, made.1)
        | some n ↦ insert_vma_struct to n >>= λ to'.
            let copied = lower.copy_range v.vm_start v.vm_end made.1 in
            if copied.0 == 0 then dup_walk to' vs copied.1 else some (e_no_mem, to', copied.1)
      ]

  unfoldable pub dup_mmap : Mm → Mm → W → Option (ℕ × Mm × W)
  dup_mmap to from w = dup_walk to (reverse from.mmap_list) w

  unfoldable pub unmap_areas : List Vma → W → W
  unmap_areas [] w = w
  unmap_areas (v ∷ vs) w = unmap_areas vs (lower.unmap_range v.vm_start v.vm_end w)

  unfoldable pub exit_areas : List Vma → W → W
  exit_areas [] w = w
  exit_areas (v ∷ vs) w = exit_areas vs (lower.exit_range v.vm_start v.vm_end w)

  -- With the number of users of the space, which is to be 0.
  unfoldable pub exit_mmap : (mm_count : ℕ) → Mm → W → Option W
  exit_mmap mm_count m w =
      assert (mm_count == 0) >> some (exit_areas m.mmap_list (unmap_areas m.mmap_list w))

  -- The areas are freed from the first on.
  unfoldable pub free_areas : List Vma → W → W
  free_areas [] w = w
  free_areas (v ∷ vs) w = free_areas vs (lower.kfree v.ptr w)

-- The answer of `user_mem_check` for the area that is found at `start`.
unfoldable pub allowed : Bool → ℕ → Vma → Bool
allowed write start v =
    flag v.vm_flags (if write then 1 else 0)
    && not (write && (flag v.vm_flags 3 && ltb start (add_word v.vm_start page_size)))

-- Where the next step of `user_mem_check` starts, or none when the check fails.
unfoldable pub next_start : ℕ → Bool → Option Vma → Option ℕ
next_start start write none = none
next_start start write (some v) =
    if ltb start v.vm_start then none else if allowed write start v then some v.vm_end else none

-- The loop of `user_mem_check`; it gives up when the fuel ends.
unfoldable pub check_loop : ℕ → Mm → ℕ → ℕ → Bool → Option (Bool × Mm)
check_loop zero m start end write = none
check_loop (suc fuel) m start end write =
    if ltb start end
    then (find_vma m start >>= λ found. elim (next_start start write found.0) [
      | none ↦ some (false, found.1)
      | some next ↦ check_loop fuel found.1 next end write
    ])
    else some (true, m)

-- `user_mem_check`, without an address space for the kernel's own memory.
unfoldable pub user_mem_check : Option Mm → ℕ → ℕ → Bool → Option (Bool × Option Mm)
user_mem_check none addr len write = some (kern_access addr (add_word addr len), none)
user_mem_check (some m) addr len write =
    if user_access addr (add_word addr len)
    then (check_loop (suc len) m addr (add_word addr len) write >>= λ r. some (r.0, some r.1))
    else some (false, some m)
