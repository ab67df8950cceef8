-- ===== src/Mm/Vmm/Walk.antt =====
-- The walk of `insert_vma_struct`.
use hard_core.Prelude.{
  ℕ, ◌≤◌, ◌<◌, ◌≡◌, refl, ap, ap₂, ◌∙◌, ◌⊎◌, inl, inr, Bool, true, false, ◌&&◌, ◌||◌, Option, none,
  some, List, [], ◌∷◌, ◌++◌, arith, ltb, leb, if◌then◌else◌, ltb→lt, leb→le, Bool-cases, ◌>>=◌,
  ◌>>◌, bind-some,
}
use hard_core.Mm.Vmm.{Vma, check_vma_overlap, check_prev, insert_walk}
use hard_core.Mm.Vmm.Find.{Areas}

unfoldable pub apart : Vma → Vma → Bool
apart v w = leb v.vm_end w.vm_start || leb w.vm_end v.vm_start

-- The area has no address in common with those of a list.
unfoldable pub all_apart : Vma → List Vma → Bool
all_apart v [] = true
all_apart v (w ∷ ws) = apart v w && all_apart v ws

-- What the walk knows of the area that it has passed last.
unfoldable pub end_of : Option Vma → ℕ
end_of none = 0
end_of (some p) = p.vm_end

unfoldable pub fits : Option Vma → Vma → Bool
fits none v = true
fits (some p) v = leb p.vm_end v.vm_start

unfoldable pub Passed : Option Vma → Vma → Type 0
Passed none v = Unit
Passed (some p) v = (p.vm_start < p.vm_end) × (p.vm_start ≤ v.vm_start)

check_vma_overlap_lem :
    (p v : Vma)
    → p.vm_start < p.vm_end
    → v.vm_start < v.vm_end
    → check_vma_overlap p v ≡ (if leb p.vm_end v.vm_start then some tt else none)
unfolding check_vma_overlap
check_vma_overlap_lem p v h k = ground arith

check_prev-fits :
    (p : Option Vma) (v : Vma)
    → v.vm_start < v.vm_end
    → Passed p v
    → check_prev p v ≡ (if fits p v then some tt else none)
unfolding check_prev fits Passed
check_prev-fits none v h k = refl
check_prev-fits (some p) v h k = check_vma_overlap_lem p v k.0 h

fits-le : (p : Option Vma) (v : Vma) → fits p v ≡ true → end_of p ≤ v.vm_start
unfolding fits end_of
fits-le none v e = omega arith
fits-le (some p) v e = ground arith

-- An area behind another that it has passed fits.
fits-Passed :
    (p : Option Vma) (v w : Vma)
    → Passed p v
    → end_of p ≤ w.vm_start
    → w.vm_start ≤ v.vm_start
    → fits p v ≡ true
unfolding fits end_of
fits-Passed none v w k h l = refl
fits-Passed (some p) v w k h l = ground arith

-- What comes of a check in front of a run.
after_check {ℓ} :
    {A : Type ℓ} (m : Option (Unit {0})) (k : Option A) (b : Bool)
    → m ≡ (if b then some tt else none)
    → (m >> k) ≡ (if b then k else none)
after_check m k true e = ap (λ n. n >> k) e
after_check m k false e = ap (λ n. n >> k) e

-- An area in front of all of a list is apart from them.
all_apart-front :
    (v : Vma) (lo : ℕ) (ws : List Vma) → Areas lo ws → v.vm_end ≤ lo → all_apart v ws ≡ true
unfolding all_apart apart Areas
all_apart-front v lo [] s h = refl
all_apart-front v lo (w ∷ ws) s h =
    let rest = all_apart-front v w.vm_end ws s.2 (omega arith) in ground arith

pub record Inserted (p : Option Vma) (vs : List Vma) (v : Vma) : Type 0 where
  pub front : List Vma
  pub back : List Vma
  pub splits : vs ≡ front ++ back
  pub walks : insert_walk p vs v ≡ some (front ++ (v ∷ back))
  pub areas : Areas (end_of p) (front ++ (v ∷ back))

passes : (w v : Vma) → w.vm_start < w.vm_end → w.vm_start ≤ v.vm_start → Passed (some w) v
unfolding Passed
passes w v h l = (h, l)

apart-fits :
    (v w : Vma)
    → v.vm_start < v.vm_end
    → w.vm_start < w.vm_end
    → w.vm_start ≤ v.vm_start
    → apart v w ≡ fits (some w) v
unfolding apart fits
apart-fits v w h k l = ground arith

stop_apart :
    (v w : Vma) (ws : List Vma)
    → v.vm_start < v.vm_end
    → w.vm_start < w.vm_end
    → Areas w.vm_end ws
    → v.vm_start < w.vm_start
    → all_apart v (w ∷ ws) ≡ leb v.vm_end w.vm_start
unfolding all_apart apart
stop_apart v w ws h k s l = elim (Bool-cases (leb v.vm_end w.vm_start)) [
  | inl u ↦
      let e = leb→le _ _ u in
      let rest = all_apart-front v w.vm_end ws s (omega arith) in ground (arith, rest)
  | inr n ↦ ground arith
]

-- The walk stops in front of the first area that starts behind the new one.
stop_lem :
    (p : Option Vma) (w : Vma) (ws : List Vma) (v : Vma)
    → v.vm_start < v.vm_end
    → Passed p v
    → Areas (end_of p) (w ∷ ws)
    → v.vm_start < w.vm_start
    → (((fits p v && all_apart v (w ∷ ws)) ≡ true)
        × ((check_prev p v >> (check_vma_overlap v w >> some (v ∷ w ∷ ws))) ≡ some (v ∷ w ∷ ws))
        × Areas (end_of p) (v ∷ w ∷ ws))
      ⊎ (((fits p v && all_apart v (w ∷ ws)) ≡ false)
          × ((check_prev p v >> (check_vma_overlap v w >> some (v ∷ w ∷ ws))) ≡ none))
unfolding Areas all_apart
stop_lem p w ws v h k s l =
    let inner =
      after_check (check_vma_overlap v w) (some (v ∷ w ∷ ws)) (leb v.vm_end w.vm_start)
        (check_vma_overlap_lem v w h s.1) in
    let outer = after_check (check_prev p v) _ (fits p v) (check_prev-fits p v h k) in
    let run = outer ∙ ap (λ (m : Option (List Vma)). if fits p v then m else none) inner in
    let result : Bool → Bool → Option (List Vma) =
      λ a b. if a then (if b then some (v ∷ w ∷ ws) else none) else none in
    let both = stop_apart v w ws h s.1 s.2 l in
    elim (Bool-cases (fits p v)) [
      | inl t ↦ elim (Bool-cases (leb v.vm_end w.vm_start)) [
        | inl u ↦ inl (
          ap₂ (λ a b. a && b) t (both ∙ u),
          run ∙ ap₂ result t u,
          (fits-le p v t, h, (leb→le _ _ u, s.1, s.2)),
        )
        | inr n ↦ inr (ap₂ (λ a b. a && b) t (both ∙ n), run ∙ ap₂ result t n)
      ]
      | inr f ↦ inr (
        ap (λ a. a && all_apart v (w ∷ ws)) f,
        run ∙ ap (λ a. result a (leb v.vm_end w.vm_start)) f,
      )
    ]

-- The walk inserts the area where it belongs, unless it meets another.
pub walk_lem :
    (p : Option Vma) (vs : List Vma) (v : Vma)
    → v.vm_start < v.vm_end
    → Passed p v
    → Areas (end_of p) vs
    → (((fits p v && all_apart v vs) ≡ true) × Inserted p vs v)
      ⊎ (((fits p v && all_apart v vs) ≡ false) × (insert_walk p vs v ≡ none))
unfolding insert_walk Areas end_of all_apart
walk_lem p [] v h k s =
    let run = after_check (check_prev p v) (some (v ∷ [])) (fits p v) (check_prev-fits p v h k) in
    elim (Bool-cases (fits p v)) [
      | inl t ↦ inl (
        ap (λ b. b && true) t,
        record {
          front = [];
          back = [];
          splits = refl;
          walks = run ∙ ap (λ (b : Bool). if b then some (v ∷ []) else none) t;
          areas = (fits-le p v t, h, tt);
        },
      )
      | inr f ↦
          inr (ap (λ b. b && true) f, run ∙ ap (λ (b : Bool). if b then some (v ∷ []) else none) f)
    ]
walk_lem p (w ∷ ws) v h k s =
    let choose : Bool → Option (List Vma) = λ b.
      if b
      then check_prev p v >> (check_vma_overlap v w >> some (v ∷ w ∷ ws))
      else (insert_walk (some w) ws v >>= λ r. some (w ∷ r)) in
    elim (Bool-cases (ltb v.vm_start w.vm_start)) [
      | inl t ↦ elim (stop_lem p w ws v h k s (ltb→lt _ _ t)) [
        | inl (a, r, ordered) ↦ inl (
          a,
          record {
            front = [];
            back = w ∷ ws;
            splits = refl;
            walks = ap choose t ∙ r;
            areas = ordered;
          },
        )
        | inr (a, r) ↦ inr (a, ap choose t ∙ r)
      ]
      | inr f ↦
          let passed = fits-Passed p v w k s.0 (ground arith) in
          let behind : apart v w ≡ fits (some w) v = apart-fits v w h s.1 (ground arith) in
          let same : (fits p v && (apart v w && all_apart v ws))
              ≡ (fits (some w) v && all_apart v ws) =
            ap₂ (λ a b. a && (b && all_apart v ws)) passed behind in
          elim (walk_lem (some w) ws v h (passes w v s.1 (ground arith)) s.2) [
            | inl (a, r) ↦ inl (
              same ∙ a,
              record {
                front = w ∷ r.front;
                back = r.back;
                splits = ap (λ (l : List Vma). w ∷ l) r.splits;
                walks = ap choose f ∙ bind-some _ (λ l. some (w ∷ l)) r.walks;
                areas = (s.0, s.1, r.areas);
              },
            )
            | inr (a, r) ↦
                inr (
                  same ∙ a,
                  ap choose f ∙ ap (λ (m : Option (List Vma)). m >>= λ l. some (w ∷ l)) r,
                )
          ]
    ]
