-- ===== src/Mm/Pmm/Policy.antt =====
-- The three ways to choose a free block, and what they have in common.
use hard_core.Prelude.{
  ℕ, ◌+◌, ◌≤◌, ◌<◌, ◌≡◌, ◌⊎◌, inl, inr, ◌&&◌, Option, none, some, List, [], ◌∷◌, arith, ltb, leb,
  Bool-cases, ◌∈◌,
}
use hard_core.Mm.Pmm.{Pages, Policy, first_fit, best_loop, best_fit, worst_loop, worst_fit}
use hard_core.Mm.Pmm.Blocks.{Sorted}
use hard_core.Mm.Pmm.View.{blocks}
use hard_core.Mm.Pmm.Valid.{Sorted-lower}

-- No size reaches the number that the best fit starts from.
abbrev pub Small : Pages → List ℕ → Type 0
Small ps xs = (x : ℕ) → x ∈ xs → (ps x).property < 0xffff_ffff

-- A choice is a block of the list that is large enough, and is made if there is one.
pub record IsPolicy (policy : Policy) : Type 0 where
  pub sound :
      (ps : Pages) (num : ℕ) (xs : List ℕ) {page : ℕ}
      → policy ps num xs ≡ some page
      → (page ∈ xs) × (num ≤ (ps page).property)
  pub complete :
      (ps : Pages) (num : ℕ) (xs : List ℕ)
      → Small ps xs
      → policy ps num xs ≡ none
      → (x : ℕ) → x ∈ xs
      → (ps x).property < num

first_sound :
    (ps : Pages) (num : ℕ) (xs : List ℕ) {page : ℕ}
    → first_fit ps num xs ≡ some page
    → (page ∈ xs) × (num ≤ (ps page).property)
unfolding first_fit
first_sound ps num [] e = absurd (cc)
first_sound ps num (x ∷ xs) {page} e = ground (arith, first_sound ps num xs {page = page})

first_complete :
    (ps : Pages) (num : ℕ) (xs : List ℕ)
    → first_fit ps num xs ≡ none
    → (x : ℕ) → x ∈ xs
    → (ps x).property < num
unfolding first_fit
first_complete ps num [] e x m = absurd (cc)
first_complete ps num (y ∷ xs) e x m =
    ground (arith, λ (h : first_fit ps num xs ≡ none). first_complete ps num xs h x)

-- The two loops that look for an extreme keep a block and its size.
abbrev Holds : Pages → ℕ → Option ℕ → ℕ → Type 0
Holds ps num page size = (p : ℕ) → page ≡ some p → ((ps p).property ≡ size) × (num ≤ size)

best_loop-some :
    (ps : Pages) (num : ℕ) (xs : List ℕ) (acc : Option ℕ) (least : ℕ) {page : ℕ}
    → Holds ps num acc least
    → best_loop ps num xs acc least ≡ some page
    → ((page ∈ xs) ⊎ (acc ≡ some page))
      × (num ≤ (ps page).property)
      × ((ps page).property ≤ least)
      × ((x : ℕ) → x ∈ xs → num ≤ (ps x).property → (ps page).property ≤ (ps x).property)
unfolding best_loop
best_loop-some ps num [] acc least {page} h e =
    let k = h page e in (inr e, omega arith, omega arith, λ x m. absurd (cc))
best_loop-some ps num (y ∷ xs) acc least {page} h e =
    elim (Bool-cases (leb num (ps y).property && ltb (ps y).property least)) [
      | inl t ↦
          let ih =
            best_loop-some ps num xs (some y) (ps y).property {page = page} (λ p q. ground arith)
              (rw t at e) in
          (ground (arith, ih.0), ih.1, ground (arith, ih.2), λ x m b. ground (arith, ih.2, ih.3 x))
      | inr f ↦
          let ih = best_loop-some ps num xs acc least {page = page} h (rw f at e) in
          (ground (arith, ih.0), ih.1, ih.2, λ x m b. ground (arith, ih.2, ih.3 x))
    ]

best_loop-none :
    (ps : Pages) (num : ℕ) (xs : List ℕ) (acc : Option ℕ) (least : ℕ)
    → best_loop ps num xs acc least ≡ none
    → (acc ≡ none) × ((x : ℕ) → x ∈ xs → num ≤ (ps x).property → least ≤ (ps x).property)
unfolding best_loop
best_loop-none ps num [] acc least e = (e, λ x m. absurd (cc))
best_loop-none ps num (y ∷ xs) acc least e =
    elim (Bool-cases (leb num (ps y).property && ltb (ps y).property least)) [
      | inl t ↦
          let ih = best_loop-none ps num xs (some y) (ps y).property (rw t at e) in absurd (cc ih.0)
      | inr f ↦
          let ih = best_loop-none ps num xs acc least (rw f at e) in
          (ih.0, λ x m b. ground (arith, ih.1 x))
    ]

worst_loop-some :
    (ps : Pages) (num : ℕ) (xs : List ℕ) (acc : Option ℕ) (most : ℕ) {page : ℕ}
    → Holds ps num acc most
    → worst_loop ps num xs acc most ≡ some page
    → ((page ∈ xs) ⊎ (acc ≡ some page))
      × (num ≤ (ps page).property)
      × (most ≤ (ps page).property)
      × ((x : ℕ) → x ∈ xs → num ≤ (ps x).property → (ps x).property ≤ (ps page).property)
unfolding worst_loop
worst_loop-some ps num [] acc most {page} h e =
    let k = h page e in (inr e, omega arith, omega arith, λ x m. absurd (cc))
worst_loop-some ps num (y ∷ xs) acc most {page} h e =
    elim (Bool-cases (leb num (ps y).property && leb most (ps y).property)) [
      | inl t ↦
          let ih =
            worst_loop-some ps num xs (some y) (ps y).property {page = page} (λ p q. ground arith)
              (rw t at e) in
          (ground (arith, ih.0), ih.1, ground (arith, ih.2), λ x m b. ground (arith, ih.2, ih.3 x))
      | inr f ↦
          let ih = worst_loop-some ps num xs acc most {page = page} h (rw f at e) in
          (ground (arith, ih.0), ih.1, ih.2, λ x m b. ground (arith, ih.2, ih.3 x))
    ]

worst_loop-none :
    (ps : Pages) (num : ℕ) (xs : List ℕ) (acc : Option ℕ) (most : ℕ)
    → worst_loop ps num xs acc most ≡ none
    → (acc ≡ none) × ((x : ℕ) → x ∈ xs → num ≤ (ps x).property → (ps x).property < most)
unfolding worst_loop
worst_loop-none ps num [] acc most e = (e, λ x m. absurd (cc))
worst_loop-none ps num (y ∷ xs) acc most e =
    elim (Bool-cases (leb num (ps y).property && leb most (ps y).property)) [
      | inl t ↦
          let ih = worst_loop-none ps num xs (some y) (ps y).property (rw t at e) in
          absurd (cc ih.0)
      | inr f ↦
          let ih = worst_loop-none ps num xs acc most (rw f at e) in
          (ih.0, λ x m b. ground (arith, ih.1 x))
    ]

pub first_fit-IsPolicy : IsPolicy first_fit
first_fit-IsPolicy = record {
  sound = λ ps num xs {page} e. first_sound ps num xs e;
  complete = λ ps num xs small e. first_complete ps num xs e;
}

pub best_fit-IsPolicy : IsPolicy best_fit
unfolding best_fit
best_fit-IsPolicy = record {
  sound = λ ps num xs {page} e.
      let r = best_loop-some ps num xs none 0xffff_ffff {page = page} (λ p q. absurd (cc)) e in
      (ground (arith, r.0), r.1);
  complete = λ ps num xs small e x m.
      let r = best_loop-none ps num xs none 0xffff_ffff e in ground (arith, r.1 x m, small x m);
}

pub worst_fit-IsPolicy : IsPolicy worst_fit
unfolding worst_fit
worst_fit-IsPolicy = record {
  sound = λ ps num xs {page} e.
      let r = worst_loop-some ps num xs none 0 {page = page} (λ p q. absurd (cc)) e in
      (ground (arith, r.0), r.1);
  complete = λ ps num xs small e x m.
      let r = worst_loop-none ps num xs none 0 e in ground (arith, r.1 x m);
}

first_before :
    (ps : Pages) (lo num : ℕ) (xs : List ℕ) (page : ℕ)
    → Sorted lo (blocks ps xs)
    → first_fit ps num xs ≡ some page
    → (x : ℕ) → x ∈ xs
    → x < page
    → (ps x).property < num
unfolding first_fit
first_before ps lo num [] page s e x m h = absurd (cc)
first_before ps lo num (y ∷ xs) page s e x m h = elim (Bool-cases (leb num (ps y).property)) [
  | inl t ↦
      let k : some y ≡ some page = rw t at e in
      absurd (ground (arith, Sorted-lower ps (y + (ps y).property + 1) xs x s.2))
  | inr f ↦ ground (
    arith,
    λ (i : x ∈ xs). first_before ps (y + (ps y).property + 1) num xs page s.2 (rw f at e) x i h,
  )
]

-- A block of the list that is large enough, and compares so with all of those.
abbrev pub Suits : Pages → ℕ → List ℕ → ℕ → (ℕ → Type 0) → Type 0
Suits ps num xs page Better =
    (page ∈ xs) × (num ≤ (ps page).property) × ((x : ℕ) → x ∈ xs → num ≤ (ps x).property → Better x)

-- Each policy chooses what its name says, among the blocks of the list that are large enough: on
-- an ascending list the first fit is the one at the lowest page, the best fit is one of the
-- smallest of them, and the worst fit one of the largest.
pub policies_choose :
    (ps : Pages) (num : ℕ) (xs : List ℕ) (page : ℕ)
    → Sorted 0 (blocks ps xs)
    → (first_fit ps num xs ≡ some page → Suits ps num xs page (λ x. page ≤ x))
      × (best_fit ps num xs ≡ some page
          → Suits ps num xs page (λ x. (ps page).property ≤ (ps x).property))
      × (worst_fit ps num xs ≡ some page
          → Suits ps num xs page (λ x. (ps x).property ≤ (ps page).property))
unfolding best_fit worst_fit
policies_choose ps num xs page s = (
  λ e.
      let r = first_sound ps num xs e in
      (r.0, r.1, λ x m b. let k = first_before ps 0 num xs page s e x m in ground (arith, k)),
  λ e.
      let r = best_loop-some ps num xs none 0xffff_ffff {page = page} (λ p q. absurd (cc)) e in
      (ground (arith, r.0), r.1, r.3),
  λ e.
      let r = worst_loop-some ps num xs none 0 {page = page} (λ p q. absurd (cc)) e in
      (ground (arith, r.0), r.1, r.3),
)
