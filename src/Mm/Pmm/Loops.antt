-- ===== src/Mm/Pmm/Loops.antt =====
-- The loops of `default_free_pages`: releasing the pages, merging, and finding the place.
use mathlib.Core.Option
use hard_core.Prelude.{
  ℕ, zero, suc, ◌+◌, ◌<◌, ◌≡◌, refl, ap, ◌∙◌, inl, inr, Bool, true, false, ◌&&◌, ◌||◌, Option, none,
  some, List, [], ◌∷◌, arith, leb, ◌==◌, if◌then◌else◌, Bool-cases, Option-cases, has, ◌∈◌, ◌∉◌,
  Distinct,
}
use hard_core.Mm.Pmm.{
  Page, Pages, update, set_property, set_heads, release, merge_step, merge, insert_block,
}
use hard_core.Mm.Pmm.Blocks.{Block, Sorted, Clear, in_range, coalesce}
use hard_core.Mm.Pmm.Merge.{insert_blocks, insert_merged, merge-coalesce}
use hard_core.Mm.Pmm.View.{blocks, merge-view, step-keep, step-base, Distinct-step}
use hard_core.Mm.Pmm.Valid.{Sorted-Distinct}

abbrev pub cleared : Page → Page
cleared p = record p { reserved = false; heads = false; ref = 0 }

-- The first loop clears the flags of the range when no page of it is reserved or heads a block.
pub release-some :
    (ps : Pages) (ptr k : ℕ)
    → ((q : ℕ) → in_range ptr k q ≡ true → ((ps q).reserved ≡ false) × ((ps q).heads ≡ false))
    → (qs : Pages) × (release ps ptr k ≡ some qs)
      × ((q : ℕ) → qs q ≡ (if in_range ptr k q then cleared (ps q) else ps q))
unfolding release
release-some ps ptr zero h = (ps, refl, λ q. ground arith)
release-some ps ptr (suc k) h =
    let now = h ptr (ground arith) in
    let next : Pages = update ps ptr (cleared (ps ptr)) in
    let (qs, e, v) = release-some next (ptr + 1) k (λ q m. ground (arith, h q)) in
    (qs, rw (now.0, now.1) e, λ q. v q ∙ ground arith)

map-map_cons :
    (ps : Pages) (x : ℕ) (o : Option (List ℕ))
    → Option.map (blocks ps) (Option.map (λ l. x ∷ l) o)
      ≡ Option.map (λ l. (x, (ps x).property) ∷ l) (Option.map (blocks ps) o)
map-map_cons ps x none = refl
map-map_cons ps x (some l) = refl

insert-view :
    (ps : Pages) (b : ℕ) (xs : List ℕ)
    → Option.map (blocks ps) (insert_block ps b xs) ≡ insert_blocks b (ps b).property (blocks ps xs)
unfolding insert_block insert_blocks
insert-view ps b [] = refl
insert-view ps b (x ∷ xs) = elim (Bool-cases (leb (b + (ps b).property) x)) [
  | inl t ↦ rw t (elim (Bool-cases (b + (ps b).property == x)) [ inl u ↦ rw u | inr v ↦ rw v ])
  | inr f ↦ rw (f, ← insert-view ps b xs) (map-map_cons ps x (insert_block ps b xs))
]

-- Membership after the insertion.
pub insert-has :
    (ps : Pages) (b : ℕ) (xs ys : List ℕ) (q : ℕ)
    → insert_block ps b xs ≡ some ys
    → has q ys ≡ ((q == b) || has q xs)
unfolding insert_block
insert-has ps b [] ys q e = ground arith
insert-has ps b (x ∷ xs) ys q e = elim (Bool-cases (leb (b + (ps b).property) x)) [
  | inl t ↦ elim (Bool-cases (b + (ps b).property == x)) [
    | inl u ↦ absurd (let k : none ≡ some ys = rw (t, u) at e in cc)
    | inr v ↦ let k : some (b ∷ x ∷ xs) ≡ some ys = rw (t, v) at e in ground arith
  ]
  | inr f ↦ elim (Option-cases (insert_block ps b xs)) [
    | inl n ↦ absurd (let k : none ≡ some ys = rw (f, n) at e in cc)
    | inr (l, i) ↦
        let k : some (x ∷ l) ≡ some ys = rw (f, i) at e in ground (arith, insert-has ps b xs l q i)
  ]
]

-- One round of the loop that merges, at a page `q`: what is dropped no longer heads a block.
step-heads :
    (ps : Pages) (base ptr q : ℕ) (z : Bool)
    → (base == ptr) ≡ false
    → (ps q).heads ≡ ((q == base) || ((q == ptr) || z))
    → (((q == base) || (q == ptr)) ≡ true → z ≡ false)
    → ((merge_step ps base ptr).0 q).heads
      ≡ ((q == (merge_step ps base ptr).1) || (((merge_step ps base ptr).2 && (q == ptr)) || z))
unfolding merge_step
step-heads ps base ptr q z d h k = elim (Bool-cases (base + (ps base).property == ptr)) [
  | inl t ↦ rw t (ground arith)
  | inr f ↦ rw f (elim (Bool-cases (ptr + (ps ptr).property == base)) [
    | inl t ↦ rw t (ground arith)
    | inr g ↦ rw g h
  ])
]

step-same :
    (ps : Pages) (base ptr q : ℕ) → ((merge_step ps base ptr).0 q).reserved ≡ (ps q).reserved
unfolding merge_step
step-same ps base ptr q = elim (Bool-cases (base + (ps base).property == ptr)) [
  | inl t ↦ rw t (ground arith)
  | inr f ↦ rw f (elim (Bool-cases (ptr + (ps ptr).property == base)) [
    | inl t ↦ rw t (ground arith)
    | inr g ↦ rw g
  ])
]

pub merge-reserved :
    (ps : Pages) (base : ℕ) (xs : List ℕ) (q : ℕ)
    → ((merge ps base xs).0 q).reserved ≡ (ps q).reserved
unfolding merge
merge-reserved ps base [] q = refl
merge-reserved ps base (x ∷ xs) q =
    merge-reserved (merge_step ps base x).0 (merge_step ps base x).1 xs q ∙ step-same ps base x q

-- The entry that stays is another than the block and than what is left of the list.
step-excl :
    (ps : Pages) (base x q : ℕ) (xs : List ℕ) (z : Bool)
    → Distinct (base ∷ x ∷ xs)
    → (q ∈ (base ∷ x ∷ xs) → z ≡ false)
    → q ∈ ((merge_step ps base x).1 ∷ xs)
    → (((merge_step ps base x).2 && (q == x)) || z) ≡ false
step-excl ps base x q xs z d k m = elim (Bool-cases (merge_step ps base x).2) [
  | inl t ↦
      let e = (step-keep ps base x t).1 in
      let m' : q ∈ (base ∷ xs) = rw e at m in rw t (ground arith)
  | inr f ↦ elim (step-base ps base x) [
    | inl e ↦ let m' : q ∈ (base ∷ xs) = rw e at m in rw f (ground arith)
    | inr e ↦ let m' : q ∈ (x ∷ xs) = rw e at m in rw f (ground arith)
  ]
]

has-if :
    (q x : ℕ) (keep : Bool) (l : List ℕ) (w b z : Bool)
    → w ≡ (b || (has q l || ((keep && (q == x)) || z)))
    → w ≡ (b || (has q (if keep then x ∷ l else l) || z))
has-if q x true l w b z h = ground arith
has-if q x false l w b z h = h

or_swap : (w a b c z : Bool) → w ≡ (a || (b || (c || z))) → w ≡ (a || (c || (b || z)))
or_swap w a b c z h = ground arith

pub merge-heads :
    (ps : Pages) (base : ℕ) (xs : List ℕ) (q : ℕ) (z : Bool)
    → Distinct (base ∷ xs)
    → (ps q).heads ≡ ((q == base) || (has q xs || z))
    → (q ∈ (base ∷ xs) → z ≡ false)
    → ((merge ps base xs).0 q).heads
      ≡ ((q == (merge ps base xs).1) || (has q (merge ps base xs).2 || z))
unfolding merge
merge-heads ps base [] q z d h k = h
merge-heads ps base (x ∷ xs) q z d h k =
    let t = merge_step ps base x in
    let sh =
      step-heads ps base x q (has q xs || z) (ground arith) (ground arith) (λ m. ground arith) in
    let ih =
      merge-heads t.0 t.1 xs q ((t.2 && (q == x)) || z)
        (Distinct-step base x xs t.1 d (step-base ps base x))
        (or_swap (t.0 q).heads (q == t.1) (t.2 && (q == x)) (has q xs) z sh)
        (step-excl ps base x q xs z d k) in
    has-if q x t.2 (merge t.0 t.1 xs).2 _ _ z ih

map-eq-some :
    (f : List ℕ → List Block) (o : Option (List ℕ)) {l : List Block}
    → Option.map f o ≡ some l
    → (xs : List ℕ) × (o ≡ some xs) × (f xs ≡ l)
map-eq-some f none e = absurd (cc)
map-eq-some f (some xs) e = (xs, refl, ground arith)

-- The table with the block set up, before the loops over the free list.
abbrev pub marked : Pages → ℕ → ℕ → Pages
marked qs base num = set_heads base true (set_property base num qs)

-- What the second and third loop make of a valid free list and a block clear of it.
pub record Placed (ps : Pages) (base num : ℕ) (xs : List ℕ) : Type 0 where
  pub list : List ℕ
  pub inserted :
      insert_block (merge ps base xs).0 (merge ps base xs).1 (merge ps base xs).2 ≡ some list
  pub placed : blocks (merge ps base xs).0 list ≡ coalesce base num (blocks ps xs)

pub place :
    (ps : Pages) (base : ℕ) (xs : List ℕ)
    → base ∉ xs
    → 0 < (ps base).property
    → Sorted 0 (blocks ps xs)
    → Clear base (ps base).property (blocks ps xs)
    → Placed ps base (ps base).property xs
place ps base xs out p s c =
    let d : Distinct (base ∷ xs) = (out, Sorted-Distinct ps 0 xs s) in
    let num = (ps base).property in
    let t = merge ps base xs in
    let e : Option.map (blocks t.0) (insert_block t.0 t.1 t.2)
        ≡ some (coalesce base num (blocks ps xs)) =
      insert-view t.0 t.1 t.2
      ∙ ap insert_merged (merge-view ps base xs d)
      ∙ merge-coalesce 0 base num (blocks ps xs) (omega arith) p s c in
    let (l, i, v) = map-eq-some (blocks t.0) (insert_block t.0 t.1 t.2) e in
    record { list = l; inserted = i; placed = v }
