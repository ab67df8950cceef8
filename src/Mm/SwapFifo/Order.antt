-- ===== src/Mm/SwapFifo/Order.antt =====
-- The order in which `_fifo_swap_out_victim` takes the pages.
use hard_core.Prelude.{
  ℕ, zero, suc, ◌≡◌, refl, sym, ap, ◌∙◌, Bool, true, false, Option, some, List, [], ◌∷◌, ◌++◌,
  arith, ◌==◌, if◌then◌else◌, length, has, ◌∉◌, has-append, Distinct, ◌>>=◌, bind-some,
}
use mathlib.Core.List.{reverse, reverse-cons, append_assoc, append-nil}
use hard_core.Mm.SwapFifo.{
  Swap, fifo_init_mm, fifo_map_swappable, last, erase, swap_out, fifo_swap_out_victim,
}

-- The pages of a list become swappable one after the other.
unfoldable pub map_all : List ℕ → Swap → Swap
map_all [] s = s
map_all (p ∷ ps) s = map_all ps (fifo_map_swappable p s)

-- As many pages as the number says are swapped out.
unfoldable pub swap_out_all : ℕ → Swap → Option (List ℕ × Swap)
swap_out_all zero s = some ([], s)
swap_out_all (suc n) s =
    fifo_swap_out_victim s >>= λ r. swap_out_all n r.1 >>= λ q. some (r.0 ∷ q.0, q.1)

self_eq : (p : ℕ) → (p == p) ≡ true
self_eq p = ground arith

last-snoc : (ps : List ℕ) (p : ℕ) → last (ps ++ (p ∷ [])) ≡ some p
unfolding last
last-snoc [] p = refl
last-snoc (x ∷ []) p = refl
last-snoc (x ∷ y ∷ ps) p = last-snoc (y ∷ ps) p

erase-snoc : (ps : List ℕ) (p : ℕ) → p ∉ ps → erase p (ps ++ (p ∷ [])) ≡ ps
unfolding erase
erase-snoc [] p h = ap (λ (b : Bool). if b then [] else p ∷ []) (self_eq p)
erase-snoc (x ∷ xs) p h =
    let other : (x == p) ≡ false = ground arith in
    let rest = erase-snoc xs p (ground arith) in
    ap (λ (b : Bool). if b then xs ++ (p ∷ []) else x ∷ erase p (xs ++ (p ∷ []))) other
    ∙ ap (λ (l : List ℕ). x ∷ l) rest

has-reverse : (a : ℕ) (ps : List ℕ) → has a (reverse ps) ≡ has a ps
has-reverse a [] = refl
has-reverse a (p ∷ ps) =
    ap (has a) (reverse-cons p ps)
    ∙ has-append a (reverse ps) (p ∷ [])
    ∙ ground (arith, has-reverse a ps)

map_all_lem :
    (ps : List ℕ) (l : List ℕ) (t : ℕ → ℕ)
    → map_all ps (record { pra_list = l; ptes = t })
      ≡ record { pra_list = reverse ps ++ l; ptes = t }
unfolding map_all fifo_map_swappable
map_all_lem [] l t = refl
map_all_lem (p ∷ ps) l t =
    let turn : reverse ps ++ (p ∷ l) ≡ reverse (p ∷ ps) ++ l =
      sym (append_assoc (reverse ps) (p ∷ []) l) ∙ ap (λ k. k ++ l) (sym (reverse-cons p ps)) in
    map_all_lem ps (p ∷ l) t ∙ ap (λ (k : List ℕ). record { pra_list = k; ptes = t }) turn

swap_out_all_lem :
    (ps : List ℕ) (t : ℕ → ℕ)
    → Distinct ps
    → swap_out_all (length ps) (record { pra_list = reverse ps; ptes = t })
      ≡ some (ps, record { pra_list = []; ptes = t })
unfolding swap_out_all fifo_swap_out_victim
swap_out_all_lem [] t d = refl
swap_out_all_lem (p ∷ ps) t d =
    let state : List ℕ → Swap = λ l. record { pra_list = l; ptes = t } in
    let n = length ps in
    let first : Option (List ℕ × Swap) → Option (List ℕ × Swap) =
      λ m. m >>= λ q. some (p ∷ q.0, q.1) in
    let out : p ∉ reverse ps = has-reverse p ps ∙ d.0 in
    let picked : fifo_swap_out_victim (state (reverse ps ++ (p ∷ [])))
        ≡ some (swap_out p (state (reverse ps ++ (p ∷ [])))) =
      bind-some _ _ (last-snoc (reverse ps) p) in
    ap (λ l. swap_out_all (suc n) (state l)) (reverse-cons p ps)
    ∙ bind-some _ (λ r. swap_out_all n r.1 >>= λ q. some (r.0 ∷ q.0, q.1)) picked
    ∙ ap (λ l. first (swap_out_all n (state l))) (erase-snoc (reverse ps) p out)
    ∙ ap first (swap_out_all_lem ps t d.1)

-- Pages that become swappable after `_fifo_init_mm` are swapped out in the same order, each of
-- them once, when none of them becomes swappable twice.
pub swap_out_all-map_all :
    (ps : List ℕ) (s : Swap)
    → Distinct ps
    → swap_out_all (length ps) (map_all ps (fifo_init_mm s)) ≡ some (ps, fifo_init_mm s)
unfolding fifo_init_mm
swap_out_all-map_all ps s d =
    let listed : reverse ps ++ [] ≡ reverse ps = append-nil (reverse ps) in
    ap (swap_out_all (length ps)) (map_all_lem ps [] s.ptes)
    ∙ ap (λ (l : List ℕ). swap_out_all (length ps) (record { pra_list = l; ptes = s.ptes })) listed
    ∙ swap_out_all_lem ps s.ptes d
