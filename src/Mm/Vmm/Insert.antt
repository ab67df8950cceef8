-- ===== src/Mm/Vmm/Insert.antt =====
-- `insert_vma_struct` on a valid address space.
use hard_core.Prelude.{
  ℕ, ◌+◌, ◌<◌, ◌≡◌, sym, ap, ◌∙◌, subst, ◌⊎◌, inl, inr, Bool, true, false, Option, none, some, List,
  [], ◌∷◌, ◌++◌, arith, ◌==◌, if◌then◌else◌, lt→ltb, Bool-cases, length, length-append, ◌>>=◌,
  assert, bind-some,
}
use hard_core.Mm.Vmm.{Vma, Mm, insert_walk, insert_vma_struct, deref}
use hard_core.Mm.Vmm.Find.{Cached, IsValid}
use hard_core.Mm.Vmm.Walk.{end_of, fits, Passed, all_apart, walk_lem}

deref-inserted :
    (p : ℕ) (xs : List Vma) (v : Vma) (ys : List Vma) {w : Vma}
    → deref p (xs ++ ys) ≡ some w
    → (u : Vma) × (deref p (xs ++ (v ∷ ys)) ≡ some u)
unfolding deref
deref-inserted p [] v ys {w = w} e = elim (Bool-cases (v.ptr == p)) [
  | inl t ↦ (v, ap (λ (b : Bool). if b then some v else deref p ys) t)
  | inr f ↦ (w, ap (λ (b : Bool). if b then some v else deref p ys) f ∙ e)
]
deref-inserted p (x ∷ xs) v ys e =
    let pick : List Vma → Bool → Option Vma = λ l b. if b then some x else deref p l in
    elim (Bool-cases (x.ptr == p)) [
      | inl t ↦ (x, ap (pick (xs ++ (v ∷ ys))) t)
      | inr f ↦
          let r = deref-inserted p xs v ys (sym (ap (pick (xs ++ ys)) f) ∙ e) in
          (r.0, ap (pick (xs ++ (v ∷ ys))) f ∙ r.1)
    ]

Cached-inserted :
    (c : Option ℕ) (xs : List Vma) (v : Vma) (ys : List Vma)
    → Cached c (xs ++ ys)
    → Cached c (xs ++ (v ∷ ys))
unfolding Cached
Cached-inserted none xs v ys c = tt
Cached-inserted (some p) xs v ys c = deref-inserted p xs v ys c.1

-- The address space with one more area.
unfoldable pub with_area : List Vma → Vma → List Vma → Mm → Mm
with_area xs v ys m = record m { mmap_list = xs ++ (v ∷ ys); map_count = m.map_count + 1 }

-- `insert_vma_struct` puts an area that is not empty into a valid address space in order when it
-- overlaps no other, and keeps the space valid; when it overlaps one, an assertion fails.
pub insert_vma_struct_lem :
    (m : Mm) (v : Vma)
    → IsValid m
    → v.vm_start < v.vm_end
    → ((all_apart v m.mmap_list ≡ true)
        × ((xs : List Vma) × (ys : List Vma) × (m.mmap_list ≡ xs ++ ys)
            × (insert_vma_struct m v ≡ some (with_area xs v ys m))
            × IsValid (with_area xs v ys m)))
      ⊎ ((all_apart v m.mmap_list ≡ false) × (insert_vma_struct m v ≡ none))
unfolding insert_vma_struct with_area fits end_of Passed
insert_vma_struct_lem m v i h =
    let link : List Vma → Option Mm =
      λ l. some (record m { mmap_list = l; map_count = m.map_count + 1 }) in
    let start =
      bind-some _ (λ u. insert_walk none m.mmap_list v >>= link)
        (ap assert (lt→ltb v.vm_start v.vm_end h)) in
    elim (walk_lem none m.mmap_list v h tt i.areas) [
      | inl (a, r) ↦ inl (
        a,
        (
          r.front,
          r.back,
          r.splits,
          start ∙ bind-some _ link r.walks,
          record {
            areas = r.areas;
            cached =
                Cached-inserted m.mmap_cache r.front v r.back
                  (subst (λ l. Cached m.mmap_cache l) r.splits i.cached);
            count = omega (
              arith,
              i.count,
              ap length r.splits,
              length-append r.front r.back,
              length-append r.front (v ∷ r.back),
            );
          },
        ),
      )
      | inr (a, r) ↦ inr (a, start ∙ ap (λ (o : Option (List Vma)). o >>= link) r)
    ]
