-- ===== src/Prelude/Mem.antt =====
-- Boolean membership of addresses and numbers, and lists with no repetition.
use Prim.Native.Nat.{ℕ}
use Prim.Native.Nat.{suc, ◌≤◌}
use mathlib.Core.Path.{◌≡◌, refl, ap}
use mathlib.Core.Logic.{◌⊎◌, inl, inr}
use mathlib.Core.Bool.{Bool, true, false, ◌||◌}
use mathlib.Core.List.{List, [], ◌∷◌, ◌++◌}
use native.Mathlib.Omega.{arith}
use package.hard_core.Prelude.Tests.{◌==◌, if◌then◌else◌, Bool-cases}
use package.hard_core.Prelude.Lists.{length}

abbrev pub has : ℕ → List ℕ → Bool
has a [] = false
has a (x ∷ xs) = (a == x) || has a xs

infix 40 ◌∈◌ ◌∉◌
abbrev pub ◌∈◌ : ℕ → List ℕ → Type 0
a ∈ xs = has a xs ≡ true

abbrev pub ◌∉◌ : ℕ → List ℕ → Type 0
a ∉ xs = has a xs ≡ false

pub has-append : (a : ℕ) (xs ys : List ℕ) → has a (xs ++ ys) ≡ (has a xs || has a ys)
has-append a [] ys = refl
has-append a (x ∷ xs) ys = ground (arith, has-append a xs ys)

abbrev pub Distinct : List ℕ → Type 0
Distinct [] = Unit
Distinct (x ∷ xs) = (x ∉ xs) × Distinct xs

pub record Apart (xs ys : List ℕ) : Type 0 where
  pub left : Distinct xs
  pub right : Distinct ys
  pub disjoint : (a : ℕ) → a ∈ xs → a ∉ ys

pub Distinct-split : (xs ys : List ℕ) → Distinct (xs ++ ys) → Apart xs ys
Distinct-split [] ys d = record { left = tt; right = d; disjoint = λ a h. ground arith }
Distinct-split (x ∷ xs) ys d =
    let r = Distinct-split xs ys d.1 in
    record {
      left = (ground (arith, has-append x xs ys), r.left);
      right = r.right;
      disjoint = λ a h. ground (arith, has-append x xs ys, r.disjoint a);
    }

pub Distinct-join : (xs ys : List ℕ) → Apart xs ys → Distinct (xs ++ ys)
Distinct-join [] ys r = r.right
Distinct-join (x ∷ xs) ys r = (
  ground (arith, has-append x xs ys, r.disjoint x),
  Distinct-join xs ys
      (record { left = r.left.1; right = r.right; disjoint = λ a h. ground (arith, r.disjoint a) }),
)

-- A list is empty or ends in an element.
pub snoc_view : (xs : List ℕ) → (xs ≡ []) ⊎ ((ys : List ℕ) × (y : ℕ) × (xs ≡ ys ++ (y ∷ [])))
snoc_view [] = inl refl
snoc_view (x ∷ xs) = elim (snoc_view xs) [
  | inl e ↦ inr ([], x, ground arith)
  | inr (ys, y, e) ↦ inr (x ∷ ys, y, ground arith)
]

pub Distinct-insert :
    (xs : List ℕ) (b e : ℕ) (ys : List ℕ)
    → Distinct (xs ++ (b ∷ ys))
    → e ∉ (xs ++ (b ∷ ys))
    → Distinct (xs ++ (b ∷ e ∷ ys))
Distinct-insert [] b e ys d out = ground arith
Distinct-insert (x ∷ xs) b e ys d out = (
  ground (arith, has-append x xs (b ∷ ys), has-append x xs (b ∷ e ∷ ys)),
  Distinct-insert xs b e ys d.1 (ground arith),
)

pub Distinct-remove :
    (xs : List ℕ) (e : ℕ) (ys : List ℕ) → Distinct (xs ++ (e ∷ ys)) → Distinct (xs ++ ys)
Distinct-remove [] e ys d = d.1
Distinct-remove (x ∷ xs) e ys d =
    (ground (arith, has-append x xs (e ∷ ys), has-append x xs ys), Distinct-remove xs e ys d.1)

pub Distinct-remove_after :
    (xs : List ℕ) (b e : ℕ) (ys : List ℕ)
    → Distinct (xs ++ (b ∷ e ∷ ys))
    → Distinct (xs ++ (b ∷ ys))
Distinct-remove_after [] b e ys d = ground arith
Distinct-remove_after (x ∷ xs) b e ys d = (
  ground (arith, has-append x xs (b ∷ e ∷ ys), has-append x xs (b ∷ ys)),
  Distinct-remove_after xs b e ys d.1,
)

-- A member is another than what is no member.
pub has-ne : (y x : ℕ) (xs : List ℕ) → y ∈ xs → x ∉ xs → (y == x) ≡ false
has-ne y x xs m o = ground arith

pub Distinct-snoc : (xs : List ℕ) (e : ℕ) → Distinct xs → e ∉ xs → Distinct (xs ++ (e ∷ []))
Distinct-snoc [] e d h = (refl, tt)
Distinct-snoc (x ∷ xs) e d h =
    (ground (arith, has-append x xs (e ∷ [])), Distinct-snoc xs e d.1 (ground arith))

-- A list without the first copy of an element.
abbrev pub without : ℕ → List ℕ → List ℕ
without a [] = []
without a (x ∷ xs) = if a == x then xs else x ∷ without a xs

pub length-without : (a : ℕ) (xs : List ℕ) → a ∈ xs → length xs ≡ suc (length (without a xs))
length-without a [] h = absurd (cc)
length-without a (x ∷ xs) h = elim (Bool-cases (a == x)) [
  | inl t ↦ rw (t) refl
  | inr n ↦ rw (n) (ap suc (length-without a xs (ground arith)))
]

pub has-without : (q a : ℕ) (xs : List ℕ) → (q == a) ≡ false → q ∈ xs → q ∈ without a xs
has-without q a [] n h = h
has-without q a (x ∷ xs) n h = elim (Bool-cases (a == x)) [
  | inl t ↦ rw (t) (ground arith)
  | inr m ↦ rw (m) (ground (arith, has-without q a xs))
]

pub has-without_ne : (q a : ℕ) (xs : List ℕ) → (q == a) ≡ false → has q (without a xs) ≡ has q xs
has-without_ne q a [] n = refl
has-without_ne q a (x ∷ xs) n = elim (Bool-cases (a == x)) [
  | inl t ↦ rw (t) (ground arith)
  | inr m ↦ rw (m) (ground (arith, has-without_ne q a xs n))
]

pub has-without_le : (q a : ℕ) (xs : List ℕ) → q ∉ xs → q ∉ without a xs
has-without_le q a [] n = refl
has-without_le q a (x ∷ xs) n = elim (Bool-cases (a == x)) [
  | inl t ↦ rw (t) (ground arith)
  | inr m ↦ rw (m) (ground (arith, has-without_le q a xs))
]

pub Distinct-without :
    (a : ℕ) (xs : List ℕ) → Distinct xs → Distinct (without a xs) × (a ∉ without a xs)
Distinct-without a [] d = (tt, refl)
Distinct-without a (x ∷ xs) d = elim (Bool-cases (a == x)) [
  | inl t ↦ rw (t) (d.1, ground arith)
  | inr m ↦
      let r = Distinct-without a xs d.1 in rw (m) ((has-without_le x a xs d.0, r.0), ground arith)
]

-- A list with no repetition that another one holds is no longer.
pub held_le : (xs ys : List ℕ) → Distinct xs → ((x : ℕ) → x ∈ xs → x ∈ ys) → length xs ≤ length ys
held_le [] ys d h = omega arith
held_le (x ∷ xs) ys d h =
    let m = h x (ground arith) in
    let l = length-without x ys m in
    let r =
      held_le xs (without x ys) d.1
        (λ z i. has-without z x ys (has-ne z x xs i d.0) (h z (ground arith))) in
    omega arith
