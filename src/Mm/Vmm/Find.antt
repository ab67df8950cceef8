-- ===== src/Mm/Vmm/Find.antt =====
-- The invariant of an address space, and `find_vma` with its cache.
use hard_core.Prelude.{
  ℕ, ◌≤◌, ◌<◌, ◌≡◌, refl, sym, ap, ◌∙◌, inl, inr, Bool, true, Option, none, some, List, [], ◌∷◌,
  arith, ◌==◌, if◌then◌else◌, Bool-cases, Option-cases, length, bind-some,
}
use hard_core.Mm.Vmm.{Vma, Mm, deref, covers, search_list, remember, find_slow, find_from, find_vma}

-- Areas that are not empty, in ascending order and apart, from an address on.
unfoldable pub Areas : ℕ → List Vma → Type 0
Areas lo [] = Unit
Areas lo (v ∷ vs) = (lo ≤ v.vm_start) × (v.vm_start < v.vm_end) × Areas v.vm_end vs

-- The cache points to an area of the list.
unfoldable pub Cached : Option ℕ → List Vma → Type 0
Cached none vs = Unit
Cached (some p) vs = (v : Vma) × (deref p vs ≡ some v)

pub record IsValid (m : Mm) : Type 0 where
  pub areas : Areas 0 m.mmap_list
  pub cached : Cached m.mmap_cache m.mmap_list
  pub count : m.map_count ≡ length m.mmap_list

-- Nothing below the first area is covered.
pub search_list_below :
    (lo : ℕ) (vs : List Vma) (a : ℕ) → Areas lo vs → a < lo → search_list vs a ≡ none
unfolding Areas search_list covers
search_list_below lo [] a s h = refl
search_list_below lo (v ∷ vs) a s h =
    let rest = search_list_below v.vm_end vs a s.2 (omega arith) in ground arith

-- Two areas do not cover the same address.
pub separate :
    (w : Vma) (vs : List Vma) (a : ℕ) {v : Vma}
    → Areas w.vm_end vs
    → covers w a ≡ true
    → search_list vs a ≡ some v
    → ⊥
unfolding covers
separate w vs a s t later = let none_here = search_list_below w.vm_end vs a s (ground arith) in cc

-- An area that covers an address is the one that the search finds.
pub search_list-deref :
    (lo : ℕ) (vs : List Vma) (a p : ℕ) {v : Vma}
    → Areas lo vs
    → deref p vs ≡ some v
    → covers v a ≡ true
    → search_list vs a ≡ some v
unfolding Areas search_list deref
search_list-deref lo [] a p s e c = absurd (cc)
search_list-deref lo (w ∷ vs) a p {v = v} s e c =
    let test = λ (b : Bool). if b then some w else deref p vs in
    elim (Bool-cases (w.ptr == p)) [
      | inl t ↦
          let same : some w ≡ some v = sym (ap test t) ∙ e in
          let hit : covers w a ≡ true = cc in
          ap (λ (b : Bool). if b then some w else search_list vs a) hit ∙ same
      | inr f ↦
          let later = search_list-deref w.vm_end vs a p s.2 (sym (ap test f) ∙ e) c in
          elim (Bool-cases (covers w a)) [
            | inl t ↦ absurd (separate w vs a s.2 t later)
            | inr n ↦ ap (λ (b : Bool). if b then some w else search_list vs a) n ∙ later
          ]
    ]

pub deref-search_list :
    (vs : List Vma) (a : ℕ) {v : Vma}
    → search_list vs a ≡ some v
    → (w : Vma) × (deref v.ptr vs ≡ some w)
unfolding search_list deref
deref-search_list [] a e = absurd (cc)
deref-search_list (x ∷ vs) a {v = v} e = elim (Bool-cases (x.ptr == v.ptr)) [
  | inl t ↦ (x, ap (λ (b : Bool). if b then some x else deref v.ptr vs) t)
  | inr f ↦ elim (Bool-cases (covers x a)) [
    | inl t ↦
        let same : some x ≡ some v =
          sym (ap (λ (b : Bool). if b then some x else search_list vs a) t) ∙ e in
        let p : x.ptr ≡ v.ptr = cc in absurd (ground arith)
    | inr n ↦
        let r =
          deref-search_list vs a
            (sym (ap (λ (b : Bool). if b then some x else search_list vs a) n) ∙ e) in
        (r.0, ap (λ (b : Bool). if b then some x else deref v.ptr vs) f ∙ r.1)
  ]
]

-- What the search has found is remembered, and the invariant is kept.
pub remember-IsValid :
    (m : Mm) (a : ℕ) → IsValid m → IsValid (remember (search_list m.mmap_list a) m)
unfolding Cached remember
remember-IsValid m a v = elim (Option-cases (search_list m.mmap_list a)) [
  | inl e ↦ rw e v
  | inr (w, e) ↦
      rw e record { areas = v.areas; cached = deref-search_list m.mmap_list a e; count = v.count }
]

-- Whatever area of the list the cache points to.
find_from_lem :
    (c : Option ℕ) (m : Mm) (a : ℕ)
    → Areas 0 m.mmap_list
    → Cached c m.mmap_list
    → find_from c m a ≡ some (find_slow m a)
unfolding find_from Cached find_slow
find_from_lem none m a s c = refl
find_from_lem (some p) m a s c =
    let use_cache = λ (v : Vma).
      if covers v a then some (some v, remember (some v) m) else some (find_slow m a) in
    elim (Bool-cases (covers c.0 a)) [
      | inl t ↦
          let found = search_list-deref 0 m.mmap_list a p s c.1 t in
          let answer : Option Vma → Option (Option Vma × Mm) = λ r. some (r, remember r m) in
          bind-some (deref p m.mmap_list) use_cache c.1
          ∙ ap (λ (b : Bool). if b then answer (some c.0) else some (find_slow m a)) t
          ∙ sym (ap answer found)
      | inr f ↦
          bind-some (deref p m.mmap_list) use_cache c.1
          ∙ ap
              (λ (b : Bool).
                if b then some (some c.0, remember (some c.0) m) else some (find_slow m a))
              f
    ]

-- On a valid address space `find_vma` answers as the search of the whole list does, whatever
-- its cache holds, and changes only the cache, so that the space stays valid.
pub find_vma_lem :
    (m : Mm) (a : ℕ)
    → IsValid m
    → (find_vma m a ≡ some (search_list m.mmap_list a, remember (search_list m.mmap_list a) m))
      × IsValid (remember (search_list m.mmap_list a) m)
unfolding find_vma find_slow
find_vma_lem m a v = (find_from_lem m.mmap_cache m a v.areas v.cached, remember-IsValid m a v)
