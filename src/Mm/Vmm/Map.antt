-- ===== src/Mm/Vmm/Map.antt =====
-- What `mm_map` comes to.
use hard_core.Prelude.{
  ℕ, ◌<◌, ◌≡◌, refl, sym, ap, ◌∙◌, subst, inl, inr, Bool, true, false, Option, none, some, List, [],
  ◌∷◌, ◌++◌, arith, if◌then◌else◌, Bool-cases, Option-cases, ◌>>=◌, bind-some,
}
use hard_core.Mm.Vmm.{
  Vma, Mm, Lower, covers, search_list, remember, insert_vma_struct, round_down, round_up,
  user_access,
}
use hard_core.Mm.Vmm.Find.{IsValid, find_vma_lem}
use hard_core.Mm.Vmm.Walk.{all_apart}
use hard_core.Mm.Vmm.Insert.{with_area, insert_vma_struct_lem}
use hard_core.Mm.Vmm.Calls.{
  e_inval, e_no_mem, add_word, area_at, vma_create, map_made, starts_below, map_range, mm_map,
}

-- What is found covers the address.
pub search_list-covers :
    (vs : List Vma) (a : ℕ) {v : Vma} → search_list vs a ≡ some v → covers v a ≡ true
unfolding search_list
search_list-covers [] a e = absurd (cc)
search_list-covers (w ∷ vs) a {v = v} e =
    let test = λ (b : Bool). if b then some w else search_list vs a in
    elim (Bool-cases (covers w a)) [
      | inl t ↦ let same : some w ≡ some v = sym (ap test t) ∙ e in cc
      | inr f ↦ search_list-covers vs a (sym (ap test f) ∙ e)
    ]

-- The search depends on the list alone.
pub remember-mmap_list : (r : Option Vma) (m : Mm) → (remember r m).mmap_list ≡ m.mmap_list
unfolding remember
remember-mmap_list none m = refl
remember-mmap_list (some v) m = refl

user_access-lt : (start end : ℕ) → user_access start end ≡ true → start < end
unfolding user_access
user_access-lt start end h = ground arith

starts_below-covers :
    (v : Vma) (start end : ℕ)
    → covers v start ≡ true
    → start < end
    → starts_below end (some v) ≡ true
unfolding covers starts_below
starts_below-covers v start end c h = ground arith

module _ {W : Type 0} (lower : Lower W) where
  -- The ways in which mapping the words `start` to `end` can end: the area is no user memory; its
  -- first address is mapped; there is no memory for the area; it is inserted; it overlaps an
  -- area behind its first address, and an assertion fails.
  pub data Mapped (m : Mm) (start end flags : ℕ) (w : W) (run : Option (ℕ × Mm × W)) : Type 0 where
    no_user :
        user_access start end ≡ false → run ≡ some (e_inval, m, w) → Mapped m start end flags w run
    taken :
        (v : Vma)
        → user_access start end ≡ true
        → search_list m.mmap_list start ≡ some v
        → run ≡ some (e_inval, remember (some v) m, w)
        → Mapped m start end flags w run
    no_memory :
        user_access start end ≡ true
        → search_list m.mmap_list start ≡ none
        → (lower.kmalloc w).0 ≡ none
        → run ≡ some (e_no_mem, m, (lower.kmalloc w).1)
        → Mapped m start end flags w run
    mapped :
        (v : Vma) (xs ys : List Vma)
        → area_at start end flags (lower.kmalloc w).0 ≡ some v
        → all_apart v m.mmap_list ≡ true
        → m.mmap_list ≡ xs ++ ys
        → run ≡ some (0, with_area xs v ys m, (lower.kmalloc w).1)
        → IsValid (with_area xs v ys m)
        → Mapped m start end flags w run
    panics :
        (v : Vma)
        → area_at start end flags (lower.kmalloc w).0 ≡ some v
        → search_list m.mmap_list start ≡ none
        → all_apart v m.mmap_list ≡ false
        → run ≡ none
        → Mapped m start end flags w run

  map_free :
      (m : Mm) (start end flags : ℕ) (w : W)
      → IsValid m
      → user_access start end ≡ true
      → search_list m.mmap_list start ≡ none
      → Mapped m start end flags w (map_made m (vma_create lower start end flags w))
  unfolding map_made vma_create area_at
  map_free m start end flags w i u e =
      let link : Option Mm → Option (ℕ × Mm × W) =
        λ o. o >>= λ m'. some (0, m', (lower.kmalloc w).1) in
      elim (Option-cases (lower.kmalloc w).0) [
        | inl n ↦ no_memory u e n (rw (n) refl)
        | inr (p, n) ↦
            let v : Vma = record { ptr = p; vm_start = start; vm_end = end; vm_flags = flags } in
            let made : area_at start end flags (lower.kmalloc w).0 ≡ some v =
              ap (area_at start end flags) n in
            let run : map_made m (vma_create lower start end flags w)
                ≡ link (insert_vma_struct m v) =
              ap (λ (o : Option Vma). map_made m (o, (lower.kmalloc w).1)) made in
            elim (insert_vma_struct_lem m v i (user_access-lt start end u)) [
              | inl (a, (xs, ys, splits, r, valid)) ↦
                  mapped v xs ys made a splits (run ∙ ap link r) valid
              | inr (a, r) ↦ panics v made e a (run ∙ ap link r)
            ]
      ]

  at_run :
      {m : Mm} {start end flags : ℕ} {w : W} {run run' : Option (ℕ × Mm × W)}
      → run ≡ run'
      → Mapped m start end flags w run
      → Mapped m start end flags w run'
  at_run {m = m} {start = start} {end = end} {flags = flags} {w = w} e h =
      subst (λ r. Mapped m start end flags w r) e h

  -- `mm_map` on a valid address space: it refuses what is no user memory or starts in an area
  -- that is mapped, fails without memory, and otherwise inserts the rounded area in order when it
  -- overlaps none, so that the space stays valid. Where the area overlaps one that starts
  -- behind its own first address an assertion fails.
  pub mm_map_lem :
      (m : Mm) (addr len flags : ℕ) (w : W)
      → IsValid m
      → Mapped m
          (round_down addr)
          (round_up (add_word addr len))
          flags
          w
          (mm_map lower m addr len flags w)
  unfolding mm_map map_range map_made starts_below remember
  mm_map_lem m addr len flags w i =
      let start = round_down addr in
      let end = round_up (add_word addr len) in
      let test : Bool → Option (ℕ × Mm × W) =
        λ b. if b then map_range lower m start end flags w else some (e_inval, m, w) in
      let below : Option Vma → Bool → Option (ℕ × Mm × W) = λ r b.
        if b
        then some (e_inval, remember r m, w)
        else map_made (remember r m) (vma_create lower start end flags w) in
      elim (Bool-cases (user_access start end)) [
        | inl u ↦
            let search : map_range lower m start end flags w
                ≡ below (search_list m.mmap_list start)
                    (starts_below end (search_list m.mmap_list start)) =
              bind-some _ _ (find_vma_lem m start i).0 in
            elim (Option-cases (search_list m.mmap_list start)) [
              | inl e ↦
                  let free : below (search_list m.mmap_list start)
                        (starts_below end (search_list m.mmap_list start))
                      ≡ below none false =
                    ap (λ r. below r (starts_below end r)) e in
                  at_run (sym (ap test u ∙ search ∙ free)) (map_free m start end flags w i u e)
              | inr (v, e) ↦
                  let b =
                    starts_below-covers v start end (search_list-covers m.mmap_list start e)
                      (user_access-lt start end u) in
                  taken v u e (
                    ap test u
                    ∙ search
                    ∙ ap (λ r. below r (starts_below end r)) e
                    ∙ ap (below (some v)) b)
            ]
        | inr n ↦ no_user n (ap test n)
      ]
