-- ===== src/Libs/Strings/Compare.antt =====
-- Strings that are measured and compared.
use hard_core.Prelude.{
  ℕ, suc, ◌<◌, ◌≡◌, refl, ap, ap₂, ◌∙◌, ◌↔◌, inl, inr, Bool, true, false, not, ◌&&◌, Option, some,
  List, [], ◌∷◌, ◌++◌, arith, ◌==◌, if◌then◌else◌, Bool-cases, length, ◌>>=◌, bind-some,
}
use hard_core.Libs.Strings.{strlen, strcmp, difference}

-- The characters of a string: bytes that are not 0.
unfoldable pub Chars : List ℕ → Type 0
Chars [] = Unit
Chars (c ∷ s) = (0 < c) × (c < 256) × Chars s

-- A string in memory, with what follows it.
abbrev pub terminated : List ℕ → List ℕ → List ℕ
terminated s rest = s ++ (0 ∷ rest)

pub strlen-terminated : (s rest : List ℕ) → Chars s → strlen (terminated s rest) ≡ some (length s)
unfolding strlen Chars
strlen-terminated [] rest h = refl
strlen-terminated (c ∷ s) rest h =
    let live : (c == 0) ≡ false = ground (arith, h.0) in
    ap (λ (b : Bool). if b then some 0 else (strlen (terminated s rest) >>= λ n. some (suc n))) live
    ∙ bind-some _ _ (strlen-terminated s rest h.2)

difference_zero : (a b : ℕ) → a < 256 → b < 256 → difference a b ≡ 0 → a ≡ b
difference_zero a b h k e = omega arith

-- `strcmp` of two strings in memory reads no further than their ends, and its result is 0 exactly
-- when they are the same.
pub strcmp_iff :
    (s t after_s after_t : List ℕ)
    → Chars s
    → Chars t
    → (r : ℕ) × (strcmp (terminated s after_s) (terminated t after_t) ≡ some r)
      × ((r ≡ 0) ↔ (s ≡ t))
unfolding strcmp Chars
strcmp_iff [] [] u v h k = (0, refl, (λ e. refl, λ e. refl))
strcmp_iff [] (b ∷ t) u v h k = (
  difference 0 b,
  refl,
  (
    λ e. let same = difference_zero 0 b (omega arith) k.1 e in absurd (omega (arith, k.0)),
    λ e. absurd (cc),
  ),
)
strcmp_iff (a ∷ s) [] u v h k =
    let stops : (not (a == 0) && (a == 0)) ≡ false = ground arith in
    (
      difference a 0,
      ap (λ (b : Bool). if b then strcmp (terminated s u) v else some (difference a 0)) stops,
      (
        λ e. let same = difference_zero a 0 h.1 (omega arith) e in absurd (omega (arith, h.0)),
        λ e. absurd (cc),
      ),
    )
strcmp_iff (a ∷ s) (b ∷ t) u v h k =
    let choose : Bool → Option ℕ =
      λ x. if x then strcmp (terminated s u) (terminated t v) else some (difference a b) in
    elim (Bool-cases (a == b)) [
      | inl e ↦
          let same : a ≡ b = ground arith in
          let on : (not (a == 0) && (a == b)) ≡ true = ground (arith, h.0) in
          let r = strcmp_iff s t u v h.2 k.2 in
          (
            r.0,
            ap choose on ∙ r.1,
            (λ z. ap₂ (λ (c : ℕ) (l : List ℕ). c ∷ l) same (r.2.0 z), λ l. r.2.1 (cc)),
          )
      | inr n ↦
          let off : (not (a == 0) && (a == b)) ≡ false = ground arith in
          (
            difference a b,
            ap choose off,
            (
              λ z. let same = difference_zero a b h.1 k.1 z in absurd (ground arith),
              λ l. let same : a ≡ b = cc in absurd (ground arith),
            ),
          )
    ]
