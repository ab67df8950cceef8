-- ===== src/Libs/Ring/Links.antt =====
-- What a ring of libs/list.h stands for: the entries from the head round to the head.
use hard_core.Prelude.{◌≡◌, true, ◌||◌, List, [], ◌∷◌, ◌++◌, arith, ◌==◌, has, ◌∈◌}
use hard_core.Libs.Ring.{Entry, Store}

-- From `a` the links lead through `xs` to `z`, and back.
abbrev pub Links : Store → Entry → List Entry → Entry → Type 0
Links s a [] z = (s.next a ≡ z) × (s.prev z ≡ a)
Links s a (x ∷ xs) z = (s.next a ≡ x) × (s.prev x ≡ a) × Links s x xs z

-- `t` has the links of `s` that a walk from `a` through `xs` to `z` reads.
pub record SameOn (s t : Store) (a : Entry) (xs : List Entry) (z : Entry) : Type 0 where
  pub next : (x : Entry) → x ∈ (a ∷ xs) → t.next x ≡ s.next x
  pub prev : (x : Entry) → ((x == z) || has x xs) ≡ true → t.prev x ≡ s.prev x

pub frame :
    (s t : Store) (a : Entry) (xs : List Entry) (z : Entry)
    → SameOn s t a xs z
    → Links s a xs z
    → Links t a xs z
frame s t a [] z same l = ground (arith, same.next a, same.prev z)
frame s t a (x ∷ xs) z same l = (
  ground (arith, same.next a),
  ground (arith, same.prev x),
  frame s t x xs z
      (record {
        next = λ y h. ground (arith, same.next y);
        prev = λ y h. ground (arith, same.prev y);
      })
      l.2,
)

pub split :
    (s : Store) (a : Entry) (xs : List Entry) (x : Entry) (ys : List Entry) (z : Entry)
    → Links s a (xs ++ (x ∷ ys)) z
    → Links s a xs x × Links s x ys z
split s a [] x ys z l = ((l.0, l.1), l.2)
split s a (w ∷ xs) x ys z l = let r = split s w xs x ys z l.2 in ((l.0, l.1, r.0), r.1)

pub join :
    (s : Store) (a : Entry) (xs : List Entry) (x : Entry) (ys : List Entry) (z : Entry)
    → Links s a xs x
    → Links s x ys z
    → Links s a (xs ++ (x ∷ ys)) z
join s a [] x ys z l r = (l.0, l.1, r)
join s a (w ∷ xs) x ys z l r = (l.0, l.1, join s w xs x ys z l.2 r)
