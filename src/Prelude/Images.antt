-- ===== src/Prelude/Images.antt =====
-- Membership in the image of a list.
use Prim.Native.Nat.{ℕ}
use mathlib.Core.Path.{◌≡◌, refl, ap}
use mathlib.Core.Logic.{inl, inr}
use mathlib.Core.List.{List, [], ◌∷◌, map}
use native.Mathlib.Omega.{arith}
use package.hard_core.Prelude.Tests.{◌==◌, Bool-cases}
use package.hard_core.Prelude.Mem.{◌∈◌, ◌∉◌, without}

pub has-map : (f : ℕ → ℕ) (xs : List ℕ) (x : ℕ) → x ∈ xs → f x ∈ map f xs
has-map f [] x m = m
has-map f (y ∷ ys) x m = elim (Bool-cases (x == y)) [
  | inl t ↦ let same : x ≡ y = ground arith in let e = ap f same in ground arith
  | inr n ↦ let i = has-map f ys x (ground arith) in ground arith
]

pub of_has-map : (f : ℕ → ℕ) (xs : List ℕ) (v : ℕ) → v ∈ map f xs → (x : ℕ) × (x ∈ xs) × (v ≡ f x)
of_has-map f [] v m = absurd (cc)
of_has-map f (y ∷ ys) v m = elim (Bool-cases (v == f y)) [
  | inl t ↦ (y, ground arith, ground arith)
  | inr n ↦ let (x, i, e) = of_has-map f ys v (ground arith) in (x, ground arith, e)
]

-- An image without one of its elements has no more than before.
pub has-map-without :
    (f : ℕ → ℕ) (p : ℕ) (xs : List ℕ) (v : ℕ) → v ∉ map f xs → v ∉ map f (without p xs)
has-map-without f p [] v n = n
has-map-without f p (x ∷ xs) v n = elim (Bool-cases (p == x)) [
  | inl t ↦ rw (t) (ground arith)
  | inr m ↦ rw (m) (ground (arith, has-map-without f p xs v))
]

pub map_congr : (f g : ℕ → ℕ) (xs : List ℕ) → ((x : ℕ) → x ∈ xs → f x ≡ g x) → map f xs ≡ map g xs
map_congr f g [] h = refl
map_congr f g (x ∷ xs) h =
    let e = h x (ground arith) in let r = map_congr f g xs (λ y m. h y (ground arith)) in cc
