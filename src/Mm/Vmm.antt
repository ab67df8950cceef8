-- ===== src/Mm/Vmm.antt =====
-- kern/mm/vmm.c: the areas of an address space (`mm_struct`), looked up through a cache.
pub mod Find
pub mod Walk
pub mod Insert
pub mod Calls
pub mod Map
pub mod Access
pub mod Unmap
pub mod Dup
mod Tests
use hard_core.Prelude.{
  ℕ, zero, suc, ◌+◌, ◌-◌, ◌*◌, ◌/◌, ◌%◌, ◌^◌, ◌≤◌, ◌<◌, min, max, ◌≡◌, refl, sym, ap, ap₂, ◌∙◌,
  subst, ◌≢◌, ◌↔◌, ◌⊎◌, inl, inr, Bool, true, false, not, ◌&&◌, ◌||◌, Option, none, some, List, [],
  ◌∷◌, ◌++◌, map, arith, ltb, leb, ◌==◌, if◌then◌else◌, ltb→lt, lt→ltb, leb→le, ==_iff, tests,
  Bool-cases, Option-cases, length, get_elem?, set, length-append, length-set, get_elem?-set_self,
  get_elem?-set_ne, get_or, take, drop, replicate, take-append-drop, length-take, length-drop,
  length-replicate, length-map, lt_of_get, set-set, set_self, has, ◌∈◌, ◌∉◌, has-append, Distinct,
  Apart, Distinct-split, Distinct-join, snoc_view, Distinct-insert, Distinct-remove,
  Distinct-remove_after, has-ne, ◌>>=◌, ◌>>◌, assert, bind-some,
}

-- `struct vma_struct`, with the address it stands at; addresses are 32-bit words.
pub record Vma : Type 0 where
  pub ptr : ℕ
  pub vm_start : ℕ
  pub vm_end : ℕ
  pub vm_flags : ℕ

-- `struct mm_struct`: the areas in the order of `mmap_list`, and the address in `mmap_cache`.
pub record Mm : Type 0 where
  pub mmap_list : List Vma
  pub mmap_cache : Option ℕ
  pub map_count : ℕ

-- `mm_create`: the fields of a new address space.
unfoldable pub new_mm : Mm
new_mm = record { mmap_list = []; mmap_cache = none; map_count = 0 }

-- The layers below: `kmalloc` of an area, `kfree`, and the page tables.
pub record Lower (W : Type 0) : Type 0 where
  pub kmalloc : W → Option ℕ × W
  pub kfree : ℕ → W → W
  pub copy_range : ℕ → ℕ → W → ℕ × W
  pub unmap_range : ℕ → ℕ → W → W
  pub exit_range : ℕ → ℕ → W → W

-- The areas at an address of memory; there is none at a dangling pointer.
unfoldable pub deref : ℕ → List Vma → Option Vma
deref p [] = none
deref p (v ∷ vs) = if v.ptr == p then some v else deref p vs

unfoldable pub covers : Vma → ℕ → Bool
covers v a = leb v.vm_start a && ltb a v.vm_end

unfoldable pub search_list : List Vma → ℕ → Option Vma
search_list [] a = none
search_list (v ∷ vs) a = if covers v a then some v else search_list vs a

unfoldable pub remember : Option Vma → Mm → Mm
remember none m = m
remember (some v) m = record m { mmap_cache = some v.ptr }

-- The search without the help of the cache.
unfoldable pub find_slow : Mm → ℕ → Option Vma × Mm
find_slow m a = (search_list m.mmap_list a, remember (search_list m.mmap_list a) m)

-- The cache is tried first.
unfoldable pub find_from : Option ℕ → Mm → ℕ → Option (Option Vma × Mm)
find_from none m a = some (find_slow m a)
find_from (some p) m a = deref p m.mmap_list >>= λ v.
    if covers v a then some (some v, remember (some v) m) else some (find_slow m a)

unfoldable pub find_vma : Mm → ℕ → Option (Option Vma × Mm)
find_vma m a = find_from m.mmap_cache m a

-- The three assertions of `check_vma_overlap`.
unfoldable pub check_vma_overlap : Vma → Vma → Option (Unit {0})
check_vma_overlap p n = do
  assert (ltb p.vm_start p.vm_end)
  assert (leb p.vm_end n.vm_start)
  assert (ltb n.vm_start n.vm_end)

unfoldable pub check_prev : Option Vma → Vma → Option (Unit {0})
check_prev none v = some tt
check_prev (some p) v = check_vma_overlap p v

-- The walk of `insert_vma_struct`, which knows the area it has passed last.
unfoldable pub insert_walk : Option Vma → List Vma → Vma → Option (List Vma)
insert_walk p [] v = check_prev p v >> some (v ∷ [])
insert_walk p (w ∷ ws) v =
    if ltb v.vm_start w.vm_start
    then check_prev p v >> (check_vma_overlap v w >> some (v ∷ w ∷ ws))
    else (insert_walk (some w) ws v >>= λ r. some (w ∷ r))

unfoldable pub insert_vma_struct : Mm → Vma → Option Mm
insert_vma_struct m v = do
  assert (ltb v.vm_start v.vm_end)
  l ← insert_walk none m.mmap_list v
  some (record m { mmap_list = l; map_count = m.map_count + 1 })

-- The words of `ROUNDDOWN`, `ROUNDUP` and `USER_ACCESS`.
abbrev pub page_size : ℕ
page_size = 4096

unfoldable pub round_down : ℕ → ℕ
round_down a = a - a % page_size

unfoldable pub round_up : ℕ → ℕ
round_up a = round_down ((a + page_size - 1) % 2 ^ 32)

unfoldable pub user_access : ℕ → ℕ → Bool
user_access start end = leb 0x200000 start && (ltb start end && leb end 0xB0000000)

unfoldable pub kern_access : ℕ → ℕ → Bool
kern_access start end = leb 0xC0000000 start && (ltb start end && leb end 0xF8000000)
