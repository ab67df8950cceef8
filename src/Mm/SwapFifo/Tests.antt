-- ===== src/Mm/SwapFifo/Tests.antt =====
-- Three pages, of which the oldest is dirty.
use hard_core.Prelude.{ℕ, ◌/◌, ◌≡◌, refl, some, [], ◌∷◌, ◌==◌, if◌then◌else◌, ◌>>=◌}
use hard_core.Mm.SwapFifo.{Swap, fifo_init_mm, fifo_swap_out_victim, enhanced_clock, extended_clock}
use hard_core.Mm.SwapFifo.Victim.{Evicts, enhanced_clock-Evicts, extended_clock-fifo}
use hard_core.Mm.SwapFifo.Order.{map_all, swap_out_all, swap_out_all-map_all}

abbrev three_pages : Swap
three_pages = record {
  pra_list = 0x3000 ∷ 0x2000 ∷ 0x1000 ∷ [];
  ptes = λ a. if a == 4 then 0x1067 else 0x2007;
}

abbrev entry_of : ℕ → ℕ
entry_of p = p / 0x400

enhanced_clock-Evicts_example :
    Evicts (0x3000 ∷ 0x2000 ∷ 0x1000 ∷ []) (enhanced_clock entry_of three_pages)
enhanced_clock-Evicts_example =
    enhanced_clock-Evicts entry_of three_pages 0x3000 (0x2000 ∷ 0x1000 ∷ []) refl

extended_clock-fifo_example :
    (ptes' : ℕ → ℕ) × (extended_clock entry_of three_pages
      ≡ (fifo_swap_out_victim three_pages >>= λ r. some (r.0, record r.1 { ptes = ptes' })))
extended_clock-fifo_example =
    extended_clock-fifo entry_of three_pages 0x3000 (0x2000 ∷ 0x1000 ∷ []) refl

swap_out_all-map_all_example :
    swap_out_all 3 (map_all (5 ∷ 6 ∷ 7 ∷ []) (fifo_init_mm three_pages))
    ≡ some (5 ∷ 6 ∷ 7 ∷ [], fifo_init_mm three_pages)
swap_out_all-map_all_example =
    swap_out_all-map_all (5 ∷ 6 ∷ 7 ∷ []) three_pages (refl, (refl, (refl, tt)))
