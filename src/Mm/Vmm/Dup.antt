-- ===== src/Mm/Vmm/Dup.antt =====
-- `dup_mmap` into a new address space.
use hard_core.Prelude.{
  ℕ, ◌+◌, ◌≤◌, ◌<◌, ◌≡◌, refl, sym, ap, ◌∙◌, subst, Bool, true, Option, none, some, List, [], ◌∷◌,
  ◌++◌, arith, ltb, ◌==◌, if◌then◌else◌, lt→ltb, length, ◌>>=◌, ◌>>◌, assert, bind-some,
}
use mathlib.Core.List.{reverse, reverse-cons}
use hard_core.Mm.Vmm.{
  Vma, Mm, Lower, new_mm, check_prev, check_vma_overlap, insert_walk, insert_vma_struct,
}
use hard_core.Mm.Vmm.Find.{Areas, Cached, IsValid}
use hard_core.Mm.Vmm.Calls.{e_no_mem, area_at, vma_create, dup_walk, dup_mmap}

-- An area without the address at which it stands.
pub record Range : Type 0 where
  pub start : ℕ
  pub end : ℕ
  pub flags : ℕ

unfoldable pub ranges : List Vma → List Range
ranges [] = []
ranges (v ∷ vs) = record { start = v.vm_start; end = v.vm_end; flags = v.vm_flags } ∷ ranges vs

-- Areas in descending order below an address.
unfoldable Descending : ℕ → List Vma → Type 0
Descending hi [] = Unit
Descending hi (v ∷ vs) = (v.vm_end ≤ hi) × (v.vm_start < v.vm_end) × Descending v.vm_start vs

unfoldable rev_onto : List Vma → List Range → List Range
rev_onto [] l = l
rev_onto (v ∷ vs) l =
    rev_onto vs (record { start = v.vm_start; end = v.vm_end; flags = v.vm_flags } ∷ l)

Areas-lower : (lo hi : ℕ) (vs : List Vma) → lo ≤ hi → Areas hi vs → Areas lo vs
unfolding Areas
Areas-lower lo hi [] l a = tt
Areas-lower lo hi (v ∷ vs) l a = (omega (arith, a.0), a.1, a.2)

rev_onto-snoc :
    (xs : List Vma) (v : Vma) (l : List Range)
    → rev_onto (xs ++ (v ∷ [])) l
      ≡ record { start = v.vm_start; end = v.vm_end; flags = v.vm_flags } ∷ rev_onto xs l
unfolding rev_onto
rev_onto-snoc [] v l = refl
rev_onto-snoc (x ∷ xs) v l =
    rev_onto-snoc xs v (record { start = x.vm_start; end = x.vm_end; flags = x.vm_flags } ∷ l)

rev_onto-reverse : (vs : List Vma) → rev_onto (reverse vs) [] ≡ ranges vs
unfolding rev_onto ranges
rev_onto-reverse [] = refl
rev_onto-reverse (v ∷ vs) =
    ap (λ l. rev_onto l []) (reverse-cons v vs)
    ∙ rev_onto-snoc (reverse vs) v []
    ∙ ap (λ (l : List Range). record { start = v.vm_start; end = v.vm_end; flags = v.vm_flags } ∷ l)
        (rev_onto-reverse vs)

unfoldable AllStart : ℕ → List Vma → Type 0
AllStart lo [] = Unit
AllStart lo (v ∷ vs) = (lo ≤ v.vm_start) × AllStart lo vs

AllStart-snoc :
    (lo : ℕ) (xs : List Vma) (v : Vma)
    → AllStart lo xs
    → lo ≤ v.vm_start
    → AllStart lo (xs ++ (v ∷ []))
unfolding AllStart
AllStart-snoc lo [] v a h = (h, tt)
AllStart-snoc lo (x ∷ xs) v a h = (a.0, AllStart-snoc lo xs v a.1 h)

AllStart-reverse : (lo : ℕ) (vs : List Vma) → Areas lo vs → AllStart lo (reverse vs)
unfolding AllStart Areas
AllStart-reverse lo [] a = tt
AllStart-reverse lo (v ∷ vs) a =
    let later = AllStart-reverse lo vs (Areas-lower lo v.vm_end vs (omega (arith, a.0, a.1)) a.2) in
    subst (AllStart lo) (sym (reverse-cons v vs)) (AllStart-snoc lo (reverse vs) v later a.0)

Descending-snoc :
    (lo hi : ℕ) (xs : List Vma) (v : Vma)
    → Descending hi xs
    → AllStart lo xs
    → lo ≤ hi
    → v.vm_end ≤ lo
    → v.vm_start < v.vm_end
    → Descending hi (xs ++ (v ∷ []))
unfolding Descending AllStart
Descending-snoc lo hi [] v d a l k h = (omega arith, h, tt)
Descending-snoc lo hi (x ∷ xs) v d a l k h =
    (d.0, d.1, Descending-snoc lo x.vm_start xs v d.2 a.1 a.0 k h)

Descending-raise : (hi top : ℕ) (vs : List Vma) → hi ≤ top → Descending hi vs → Descending top vs
unfolding Descending
Descending-raise hi top [] l d = tt
Descending-raise hi top (v ∷ vs) l d = (omega (arith, d.0), d.1, d.2)

-- An address above all the areas.
unfoldable above : List Vma → ℕ
above [] = 0
above (v ∷ vs) = v.vm_end + above vs

Descending-reverse : (lo : ℕ) (vs : List Vma) → Areas lo vs → Descending (above vs) (reverse vs)
unfolding above Areas Descending
Descending-reverse lo [] a = tt
Descending-reverse lo (v ∷ vs) a =
    let old =
      Descending-raise (above vs) (v.vm_end + above vs) (reverse vs) (omega arith)
        (Descending-reverse v.vm_end vs a.2) in
    subst (Descending (v.vm_end + above vs)) (sym (reverse-cons v vs)) (
      Descending-snoc v.vm_end (v.vm_end + above vs) (reverse vs) v old
        (AllStart-reverse v.vm_end vs a.2) (omega arith) (omega arith) a.1)

front_clear :
    (v w : Vma)
    → v.vm_start < v.vm_end
    → v.vm_end ≤ w.vm_start
    → w.vm_start < w.vm_end
    → check_vma_overlap v w ≡ some tt
unfolding check_vma_overlap
front_clear v w h k l = ground arith

walk_front :
    (v : Vma) (hi : ℕ) (l : List Vma)
    → Areas hi l
    → v.vm_start < v.vm_end
    → v.vm_end ≤ hi
    → insert_walk none l v ≡ some (v ∷ l)
unfolding insert_walk Areas check_prev
walk_front v hi [] a h k = refl
walk_front v hi (w ∷ ws) a h k =
    let first : ltb v.vm_start w.vm_start ≡ true = ground (arith, a.0) in
    let clear = front_clear v w h (omega (arith, a.0)) a.1 in
    ap
      (λ (b : Bool).
        if b
        then (check_vma_overlap v w >> some (v ∷ w ∷ ws))
        else (insert_walk (some w) ws v >>= λ r. some (w ∷ r)))
      first
    ∙ bind-some _ _ clear

-- An area in front of all the others goes to the front.
insert_front :
    (m : Mm) (v : Vma) (hi : ℕ) (l : List Vma)
    → m.mmap_list ≡ l
    → Areas hi l
    → v.vm_start < v.vm_end
    → v.vm_end ≤ hi
    → insert_vma_struct m v ≡ some (record m { mmap_list = v ∷ l; map_count = m.map_count + 1 })
unfolding insert_vma_struct
insert_front m v hi l e a h k =
    let link : List Vma → Option Mm =
      λ r. some (record m { mmap_list = r; map_count = m.map_count + 1 }) in
    bind-some _ (λ u. insert_walk none m.mmap_list v >>= link)
      (ap assert (lt→ltb v.vm_start v.vm_end h))
    ∙ ap (λ r. insert_walk none r v >>= link) e
    ∙ bind-some _ link (walk_front v hi l a h k)

module _ {W : Type 0} (lower : Lower W)
    (has_memory : (w : W) → (p : ℕ) × ((lower.kmalloc w).0 ≡ some p))
    (copies : (a b : ℕ) (w : W) → (lower.copy_range a b w).0 ≡ 0) where
  record Walked (vs : List Vma) (to : Mm) (run : Option (ℕ × Mm × W)) : Type 0 where
    after : Mm
    world : W
    returns : run ≡ some (0, after, world)
    copied : ranges after.mmap_list ≡ rev_onto vs (ranges to.mmap_list)
    areas : Areas 0 after.mmap_list
    count : after.map_count + length to.mmap_list ≡ length after.mmap_list + to.map_count
    cache : after.mmap_cache ≡ to.mmap_cache

  dup_walk_lem :
      (vs : List Vma) (to : Mm) (w : W) (hi : ℕ)
      → Areas hi to.mmap_list
      → Descending hi vs
      → Walked vs to (dup_walk lower to vs w)
  unfolding dup_walk vma_create area_at ranges rev_onto Descending Areas
  dup_walk_lem [] to w hi a d = record {
    after = to;
    world = w;
    returns = refl;
    copied = refl;
    areas = Areas-lower 0 hi to.mmap_list (omega arith) a;
    count = omega arith;
    cache = refl;
  }
  dup_walk_lem (v ∷ vs) to w hi a d =
      let got = has_memory w in
      let n : Vma = record {
        ptr = got.0;
        vm_start = v.vm_start;
        vm_end = v.vm_end;
        vm_flags = v.vm_flags;
      } in
      let to' : Mm = record to { mmap_list = n ∷ to.mmap_list; map_count = to.map_count + 1 } in
      let w1 = (lower.kmalloc w).1 in
      let w2 = (lower.copy_range v.vm_start v.vm_end w1).1 in
      let go : Mm → ℕ → Option (ℕ × Mm × W) =
        λ m c. if c == 0 then dup_walk lower m vs w2 else some (e_no_mem, m, w2) in
      let next : Mm → Option (ℕ × Mm × W) = λ m. go m (lower.copy_range v.vm_start v.vm_end w1).0 in
      let choose : Option Vma → Option (ℕ × Mm × W) =
        λ o. elim o [ none ↦ some (e_no_mem, to, w1) | some x ↦ insert_vma_struct to x >>= next ] in
      let run : dup_walk lower to (v ∷ vs) w ≡ dup_walk lower to' vs w2 =
        ap choose (ap (area_at v.vm_start v.vm_end v.vm_flags) got.1)
        ∙ bind-some _ next (insert_front to n hi to.mmap_list refl a d.1 d.0)
        ∙ ap (go to') (copies v.vm_start v.vm_end w1) in
      let r =
        dup_walk_lem vs to' w2 v.vm_start
          (omega arith, d.1, Areas-lower v.vm_end hi to.mmap_list d.0 a) d.2 in
      record {
        after = r.after;
        world = r.world;
        returns = run ∙ r.returns;
        copied = r.copied;
        areas = r.areas;
        count = omega (arith, r.count);
        cache = r.cache;
      }

  -- `dup_mmap` of a valid address space into a new one, with memory for every area and page, gives
  -- a valid space with the same areas, in the same order and with the same flags.
  pub dup_mmap_lem :
      (from : Mm) (w : W)
      → IsValid from
      → (to : Mm) × (w' : W) × (dup_mmap lower new_mm from w ≡ some (0, to, w'))
        × (ranges to.mmap_list ≡ ranges from.mmap_list)
        × IsValid to
  unfolding dup_mmap new_mm ranges Areas Cached
  dup_mmap_lem from w i =
      let d = Descending-reverse 0 from.mmap_list i.areas in
      let r = dup_walk_lem (reverse from.mmap_list) new_mm w (above from.mmap_list) tt d in
      (
        r.after,
        r.world,
        r.returns,
        r.copied ∙ rev_onto-reverse from.mmap_list,
        record {
          areas = r.areas;
          cached = subst (λ c. Cached c r.after.mmap_list) (sym r.cache) tt;
          count = omega (arith, r.count);
        },
      )
