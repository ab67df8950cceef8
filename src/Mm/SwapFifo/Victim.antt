-- ===== src/Mm/SwapFifo/Victim.antt =====
-- The victims of the three algorithms.
use hard_core.Prelude.{
  ℕ, ◌≡◌, refl, sym, ap, ◌∙◌, subst, inl, inr, Bool, true, not, ◌&&◌, Option, none, some, List, [],
  ◌∷◌, arith, ltb, if◌then◌else◌, Bool-cases, Option-cases, has, ◌∈◌, ◌>>=◌, bind-some, if-both,
}
use hard_core.Mm.SwapFifo.{
  Swap, last, erase, swap_out, fifo_swap_out_victim, accessed, dirty, flip_accessed, clear_dirty,
  scan, second_scan, last_scans, later_scans, enhanced_clock, extended_scan, extended_clock, write,
}

last-some : (p : ℕ) (ps : List ℕ) → (l : ℕ) × (last (p ∷ ps) ≡ some l) × (l ∈ (p ∷ ps))
unfolding last
last-some p [] = (p, refl, ground arith)
last-some p (q ∷ ps) = let r = last-some q ps in (r.0, r.1, ground (arith, r.2))

scan-finds :
    (test : ℕ → Bool) (ps : List ℕ) {v : ℕ} → scan test ps ≡ some v → (v ∈ ps) × (test v ≡ true)
unfolding scan
scan-finds test [] e = absurd (cc)
scan-finds test (p ∷ ps) {v = v} e =
    let choose : Bool → Option ℕ = λ b. if b then some p else scan test ps in
    elim (Bool-cases (test p)) [
      | inl t ↦
          let same : some p ≡ some v = sym (ap choose t) ∙ e in
          let q : p ≡ v = cc in (ground arith, cc)
      | inr f ↦ let r = scan-finds test ps (sym (ap choose f) ∙ e) in (ground (arith, r.0), r.1)
    ]

-- Of a test and its opposite one finds a page.
scan-either :
    (test : ℕ → Bool) {qs : List ℕ} (p : ℕ) (ps : List ℕ)
    → qs ≡ p ∷ ps
    → scan (λ q. not (test q)) qs ≡ none
    → (v : ℕ) × (scan test qs ≡ some v)
unfolding scan
scan-either test p ps l n =
    let n' = ap (scan (λ q. not (test q))) (sym l) ∙ n in
    elim (Bool-cases (test p)) [
      | inl t ↦ (p, ap (scan test) l ∙ ap (λ (b : Bool). if b then some p else scan test ps) t)
      | inr f ↦
          let hit : some p ≡ none =
            ap (λ (b : Bool). if not b then some p else scan (λ q. not (test q)) ps) (sym f) ∙ n' in
          absurd (cc)
    ]

-- A page of the list is taken out of it, and no other.
pub record Evicts (pages : List ℕ) (run : Option (ℕ × Swap)) : Type 0 where
  pub victim : ℕ
  pub after : Swap
  pub returns : run ≡ some (victim, after)
  pub listed : victim ∈ pages
  pub erased : after.pra_list ≡ erase victim pages

evicts :
    (s : Swap) (v : ℕ) {run : Option (ℕ × Swap)}
    → v ∈ s.pra_list
    → run ≡ some (swap_out v s)
    → Evicts s.pra_list run
evicts s v m e = record {
  victim = v;
  after = record s { pra_list = erase v s.pra_list };
  returns = e;
  listed = m;
  erased = refl;
}

module _ (get_pte : ℕ → ℕ) where
  second_scan-finds :
      (ps : List ℕ) (ptes : ℕ → ℕ) {v : ℕ} → (second_scan get_pte ps ptes).0 ≡ some v → v ∈ ps
  unfolding second_scan
  second_scan-finds [] ptes e = absurd (cc)
  second_scan-finds (p ∷ ps) ptes {v = v} e =
      let w = ptes (get_pte p) in
      let ptes' = write ptes (get_pte p) (flip_accessed w) in
      let choose : Bool → Option ℕ × (ℕ → ℕ) =
        λ b. if b then (some p, ptes) else second_scan get_pte ps ptes' in
      elim (Bool-cases (not (accessed w) && dirty w)) [
        | inl t ↦
            let same : some p ≡ some v = sym (ap (λ b. (choose b).0) t) ∙ e in
            let q : p ≡ v = cc in ground arith
        | inr f ↦
            let r = second_scan-finds ps ptes' (sym (ap (λ b. (choose b).0) f) ∙ e) in
            ground (arith, r)
      ]

  last_scans-Evicts :
      (s : Swap) (p : ℕ) (ps : List ℕ)
      → s.pra_list ≡ p ∷ ps
      → Evicts s.pra_list (last_scans get_pte s)
  unfolding last_scans
  last_scans-Evicts s p ps l =
      let is_dirty : ℕ → Bool = λ p. dirty (s.ptes (get_pte p)) in
      let choose : Option ℕ → Option (ℕ × Swap) = λ o. elim o [
        | some p ↦ some (swap_out p s)
        | none ↦ scan is_dirty s.pra_list >>= λ p. some (swap_out p s)
      ] in
      elim (Option-cases (scan (λ p. not (is_dirty p)) s.pra_list)) [
        | inr (v, f) ↦ evicts s v (scan-finds _ s.pra_list f).0 (ap choose f)
        | inl n ↦
            let r = scan-either is_dirty p ps l n in
            evicts s r.0 (scan-finds is_dirty s.pra_list r.1).0 (ap choose n ∙ bind-some _ _ r.1)
      ]

  later_scans-Evicts :
      (s : Swap) (p : ℕ) (ps : List ℕ)
      → s.pra_list ≡ p ∷ ps
      → Evicts s.pra_list (later_scans get_pte s)
  unfolding later_scans
  later_scans-Evicts s p ps l =
      let r = second_scan get_pte s.pra_list s.ptes in
      let s' : Swap = record s { ptes = r.1 } in
      let choose : Option ℕ → Option (ℕ × Swap) =
        λ o. elim o [ some p ↦ some (swap_out p s') | none ↦ last_scans get_pte s' ] in
      elim (Option-cases r.0) [
        | inr (v, f) ↦ evicts s' v (second_scan-finds s.pra_list s.ptes f) (ap choose f)
        | inl n ↦ subst (Evicts s.pra_list) (sym (ap choose n)) (last_scans-Evicts s' p ps l)
      ]

  -- `_enhanced_clock` on a list that is not empty never runs off its end: one of its four loops
  -- finds a page, which is taken out of the list.
  pub enhanced_clock-Evicts :
      (s : Swap) (p : ℕ) (ps : List ℕ)
      → s.pra_list ≡ p ∷ ps
      → Evicts s.pra_list (enhanced_clock get_pte s)
  unfolding enhanced_clock scan
  enhanced_clock-Evicts s p ps e =
      let l = last-some p ps in
      let ends : last s.pra_list ≡ some l.0 = ap last e ∙ l.1 in
      let fresh : ℕ → Bool =
        λ q. not (accessed (s.ptes (get_pte q))) && not (dirty (s.ptes (get_pte q))) in
      let choose : Bool → Option (ℕ × Swap) = λ b. elim (if b then some l.0 else none) [
        | some q ↦ some (swap_out q s)
        | none ↦ later_scans get_pte s
      ] in
      elim (Bool-cases (fresh l.0)) [
        | inl t ↦ evicts s l.0 (ap (has l.0) e ∙ l.2) (bind-some _ _ ends ∙ ap choose t)
        | inr f ↦
            subst (Evicts s.pra_list) (sym (bind-some _ _ ends ∙ ap choose f))
              (later_scans-Evicts s p ps e)
      ]

  -- `_extended_clock` picks the page that the first-in first-out algorithm picks and leaves the
  -- same list, whatever the entries say: its loop only ever looks at the last page.
  pub extended_clock-fifo :
      (s : Swap) (p : ℕ) (ps : List ℕ)
      → s.pra_list ≡ p ∷ ps
      → (ptes' : ℕ → ℕ) × (extended_clock get_pte s
          ≡ (fifo_swap_out_victim s >>= λ r. some (r.0, record r.1 { ptes = ptes' })))
  unfolding extended_clock extended_scan fifo_swap_out_victim
  extended_clock-fifo s p ps e =
      let l = last-some p ps in
      let ends : last s.pra_list ≡ some l.0 = ap last e ∙ l.1 in
      let w = s.ptes (get_pte l.0) in
      let Same : Option ℕ × (ℕ → ℕ) → Type 0 = λ r.
        elim r.0 [
          | some q ↦ some (swap_out q (record s { ptes = r.1 }))
          | none ↦ last s.pra_list >>= λ q. some (swap_out q (record s { ptes = r.1 }))
        ]
        ≡ some (swap_out l.0 (record s { ptes = r.1 })) in
      let at_last : (ptes : ℕ → ℕ) → Same (none, ptes) = λ ptes. bind-some _ _ ends in
      let cleared = write s.ptes (get_pte l.0) (clear_dirty w) in
      let picked =
        if-both Same (ltb w 0x1000) (at_last s.ptes)
          (if-both Same (not (dirty w)) refl (at_last cleared)) in
      let give : ℕ × Swap → Option (ℕ × Swap) =
        λ r. some (r.0, record r.1 { ptes = (extended_scan get_pte (l.0 ∷ []) s.ptes).1 }) in
      let fifo : fifo_swap_out_victim s ≡ some (swap_out l.0 s) = bind-some _ _ ends in
      (
        (extended_scan get_pte (l.0 ∷ []) s.ptes).1,
        bind-some _ _ ends ∙ picked ∙ sym (bind-some _ give fifo),
      )
