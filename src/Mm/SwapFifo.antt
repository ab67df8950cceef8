-- ===== src/Mm/SwapFifo.antt =====
-- kern/mm/swap_fifo.c: which page is swapped out.
pub mod Victim
pub mod Order
mod Tests
use hard_core.Prelude.{
  ℕ, zero, suc, ◌+◌, ◌-◌, ◌*◌, ◌/◌, ◌%◌, ◌^◌, ◌≤◌, ◌<◌, min, max, ◌≡◌, refl, sym, ap, ap₂, ◌∙◌,
  subst, ◌≢◌, ◌↔◌, ◌⊎◌, inl, inr, Bool, true, false, not, ◌&&◌, ◌||◌, Option, none, some, List, [],
  ◌∷◌, ◌++◌, map, arith, ltb, leb, ◌==◌, if◌then◌else◌, ltb→lt, lt→ltb, leb→le, ==_iff, tests,
  Bool-cases, Option-cases, length, get_elem?, set, length-append, length-set, get_elem?-set_self,
  get_elem?-set_ne, get_or, take, drop, replicate, take-append-drop, length-take, length-drop,
  length-replicate, length-map, lt_of_get, set-set, set_self, has, ◌∈◌, ◌∉◌, has-append, Distinct,
  Apart, Distinct-split, Distinct-join, snoc_view, Distinct-insert, Distinct-remove,
  Distinct-remove_after, has-ne, ◌>>=◌, ◌>>◌, assert, bind-some, past_assert, bind_assoc,
  bind_congr,
}

-- The list of swappable pages from its head on, and the words of the page table entries.
pub record Swap : Type 0 where
  pub pra_list : List ℕ
  pub ptes : ℕ → ℕ

-- `_fifo_init_mm`
unfoldable pub fifo_init_mm : Swap → Swap
fifo_init_mm s = record s { pra_list = [] }

unfoldable pub fifo_map_swappable : ℕ → Swap → Swap
fifo_map_swappable page s = record s { pra_list = page ∷ s.pra_list }

-- The previous entry of the head, which is the last page.
unfoldable pub last : List ℕ → Option ℕ
last [] = none
last (p ∷ []) = some p
last (p ∷ q ∷ ps) = last (q ∷ ps)

-- `list_del` of the entry of a page.
unfoldable pub erase : ℕ → List ℕ → List ℕ
erase p [] = []
erase p (x ∷ xs) = if x == p then xs else x ∷ erase p xs

abbrev pub swap_out : ℕ → Swap → ℕ × Swap
swap_out p s = (p, record s { pra_list = erase p s.pra_list })

-- The argument `in_tick` is 0. The list must not be empty.
unfoldable pub fifo_swap_out_victim : Swap → Option (ℕ × Swap)
fifo_swap_out_victim s = last s.pra_list >>= λ p. some (swap_out p s)

-- PTE_A and PTE_D
unfoldable pub accessed : ℕ → Bool
accessed v = (v / 0x20) % 2 == 1

unfoldable pub dirty : ℕ → Bool
dirty v = (v / 0x40) % 2 == 1

-- `*ptep ^= PTE_A`
unfoldable pub flip_accessed : ℕ → ℕ
flip_accessed v = if accessed v then v - 0x20 else v + 0x20

-- `*ptep &= 0xffffffbf`
unfoldable pub clear_dirty : ℕ → ℕ
clear_dirty v = if dirty v then v - 0x40 else v

abbrev pub write : (ℕ → ℕ) → ℕ → ℕ → ℕ → ℕ
write f a v b = if a == b then v else f b

-- The first page of a stretch of the list whose entry passes a test.
unfoldable pub scan : (ℕ → Bool) → List ℕ → Option ℕ
scan test [] = none
scan test (p ∷ ps) = if test p then some p else scan test ps

-- `get_pte` gives the address of the entry of a page.
module _ (get_pte : ℕ → ℕ) where
  -- The second loop of `_enhanced_clock`, which flips the accessed bits that it passes.
  unfoldable pub second_scan : List ℕ → (ℕ → ℕ) → Option ℕ × (ℕ → ℕ)
  second_scan [] ptes = (none, ptes)
  second_scan (p ∷ ps) ptes =
      let v = ptes (get_pte p) in
      if not (accessed v) && dirty v
      then (some p, ptes)
      else second_scan ps (write ptes (get_pte p) (flip_accessed v))

  -- The third and the fourth loop; behind them the function ends with no result.
  unfoldable pub last_scans : Swap → Option (ℕ × Swap)
  last_scans s = elim (scan (λ p. not (dirty (s.ptes (get_pte p)))) s.pra_list) [
    | some p ↦ some (swap_out p s)
    | none ↦ scan (λ p. dirty (s.ptes (get_pte p))) s.pra_list >>= λ p. some (swap_out p s)
  ]

  unfoldable pub later_scans : Swap → Option (ℕ × Swap)
  later_scans s =
      let r = second_scan s.pra_list s.ptes in
      let s' = record s { ptes = r.1 } in
      elim r.0 [ some p ↦ some (swap_out p s') | none ↦ last_scans s' ]

  -- `_enhanced_clock`: the first loop starts at the last page, behind which is the head.
  unfoldable pub enhanced_clock : Swap → Option (ℕ × Swap)
  enhanced_clock s = last s.pra_list >>= λ l.
      elim (scan (λ p. not (accessed (s.ptes (get_pte p))) && not (dirty (s.ptes (get_pte p))))
        (l ∷ [])) [ some p ↦ some (swap_out p s) | none ↦ later_scans s ]

  -- The loop of `_extended_clock` over a stretch of the list.
  unfoldable pub extended_scan : List ℕ → (ℕ → ℕ) → Option ℕ × (ℕ → ℕ)
  extended_scan [] ptes = (none, ptes)
  extended_scan (p ∷ ps) ptes =
      let v = ptes (get_pte p) in
      if ltb v 0x1000
      then (none, ptes)
      else if not (dirty v)
      then (some p, ptes)
      else extended_scan ps (write ptes (get_pte p) (clear_dirty v))

  -- `_extended_clock`: its loop, too, starts at the last page, behind which is the head.
  unfoldable pub extended_clock : Swap → Option (ℕ × Swap)
  extended_clock s = last s.pra_list >>= λ l.
      let r = extended_scan (l ∷ []) s.ptes in
      let s' = record s { ptes = r.1 } in
      elim r.0 [
        | some p ↦ some (swap_out p s')
        | none ↦ last s'.pra_list >>= λ p. some (swap_out p s')
      ]
