-- ===== src/Process/Family/Adopt.antt =====
-- kern/process/proc.c, `do_exit`: the children of a process that ends go to the init process.
use hard_core.Prelude.{
  ℕ, ◌≡◌, refl, sym, ◌∙◌, subst, inl, inr, false, Option, none, some, List, ◌∷◌, arith, ◌==◌,
  Bool-cases, has, ◌∈◌, ◌∉◌, Distinct, if-both,
}
use hard_core.Process.Family.{Links, join, adopt}
use hard_core.Process.Family.Chain.{
  Chain, chain_frame, chain_first, chain-parent, write_other, write_same,
}
use hard_core.Process.Family.Join.{join-frame, join_kids, cptr_other}
use hard_core.Schedule.Sched.{write}

-- In the loop: what is left of the children of `cur`, and the children of all others.
pub record Orphans (cur : ℕ) (l : Links) (y : Option ℕ) (xs : List ℕ) (kids : ℕ → List ℕ)
    : Type 0 where
  pub rest : Chain l cur y (l.cptr cur) xs
  pub others : (s : ℕ) → (cur == s) ≡ false → Chain l s none (l.cptr s) (kids s)
  pub distinct : (s : ℕ) → Distinct (kids s)
  pub once : Distinct xs

-- Chains of two parents have nothing in common.
apart_of :
    (l : Links) (r s : ℕ) (y h z k : Option ℕ) (xs ys : List ℕ) (x : ℕ)
    → (r == s) ≡ false
    → Chain l r y h xs
    → Chain l s z k ys
    → x ∈ xs
    → x ∉ ys
apart_of l r s y h z k xs ys x n c d m = elim (Bool-cases (has x ys)) [
  | inl t ↦
      let same : some r ≡ some s =
        sym (chain-parent l r y h xs x c m) ∙ chain-parent l s z k ys x d t in
      absurd (ground arith)
  | inr o ↦ o
]

taken_over : ℕ → ℕ → ℕ → Links → Links
taken_over cur init c l = record l {
  parent = write l.parent c (some init);
  cptr = write l.cptr cur (l.optr c);
}

taken_over-frame :
    (l : Links) (cur init c s : ℕ) (y h : Option ℕ) (xs : List ℕ)
    → c ∉ xs
    → Chain l s y h xs
    → Chain (taken_over cur init c l) s y h xs
unfolding taken_over
taken_over-frame l cur init c s y h xs out =
    chain_frame l (taken_over cur init c l) s y h xs (λ x m. record {
      parent = write_other l.parent c (some init) x (ground arith);
      optr = refl;
      yptr = refl;
    })

module _ (cur init c : ℕ) (l : Links) (y : Option ℕ) (xs : List ℕ) (kids : ℕ → List ℕ)
    (o : Orphans cur l y (c ∷ xs) kids) (n : (cur == init) ≡ false) where
  l1 : Links
  l1 = taken_over cur init c l

  tail : Chain l cur (some c) (l.optr c) xs
  unfolding Chain
  tail = let r = o.rest in r.3

  out : (s : ℕ) → (cur == s) ≡ false → (x : ℕ) → x ∈ (c ∷ xs) → x ∉ kids s
  out s m x i =
      apart_of l cur s y (l.cptr cur) none (l.cptr s) (c ∷ xs) (kids s) x m o.rest (o.others s m) i

  init_first : (q : ℕ) → l1.cptr init ≡ some q → q ∈ kids init
  unfolding l1 taken_over
  init_first q e =
      chain_first l init none (l.cptr init) (kids init) q (o.others init n)
        (sym (write_other l.cptr cur (l.optr c) init n) ∙ e)

  kept : (s : ℕ) → (cur == s) ≡ false → Chain l1 s none (l1.cptr s) (kids s)
  unfolding l1 taken_over
  kept s m =
      subst (λ h. Chain l1 s none h (kids s)) (sym (write_other l.cptr cur (l.optr c) s m))
        (taken_over-frame l cur init c s none (l.cptr s) (kids s) (out s m c (ground arith))
          (o.others s m))

  init_kids : Chain (join c init l1) init none ((join c init l1).cptr init) (c ∷ kids init)
  unfolding l1 taken_over
  init_kids =
      join_kids l1 c init (kids init) (write_same l.parent c (some init))
        (out init n c (ground arith), o.distinct init) (kept init n)

  other_kids :
      (s : ℕ)
      → (cur == s) ≡ false
      → (init == s) ≡ false
      → Chain (join c init l1) s none ((join c init l1).cptr s) (kids s)
  other_kids s m t =
      subst (λ h. Chain (join c init l1) s none h (kids s)) (sym (cptr_other l1 c init s t))
        (join-frame l1 c init s none (l1.cptr s) (kids s) (out s m c (ground arith))
          (λ q e.
            apart_of l init s none (l.cptr init) none (l.cptr s) (kids init) (kids s) q t
              (o.others init n) (o.others s m) (init_first q e))
          (kept s m))

  -- One turn of the loop.
  pub adopt-Orphans : Orphans cur (adopt cur init c l) (some c) xs (write kids init (c ∷ kids init))
  unfolding adopt l1 taken_over
  adopt-Orphans = record {
    rest =
        subst (λ h. Chain (join c init l1) cur (some c) h xs)
          (sym (cptr_other l1 c init cur (ground arith) ∙ write_same l.cptr cur (l.optr c)))
          (join-frame l1 c init cur (some c) (l.optr c) xs o.once.0
            (λ q e.
              apart_of l init cur none (l.cptr init) (some c) (l.optr c) (kids init) xs q
                (ground arith) (o.others init n) tail (init_first q e))
            (taken_over-frame l cur init c cur (some c) (l.optr c) xs o.once.0 tail));
    others = λ s m. elim (Bool-cases (init == s)) [
      | inl t ↦
          let same : init ≡ s = ground arith in
          subst
            (λ z.
              Chain (join c init l1) z none ((join c init l1).cptr z)
                (write kids init (c ∷ kids init) z))
            same
            (subst (Chain (join c init l1) init none ((join c init l1).cptr init))
              (sym (write_same kids init (c ∷ kids init))) init_kids)
      | inr t ↦
          subst (Chain (join c init l1) s none ((join c init l1).cptr s))
            (sym (write_other kids init (c ∷ kids init) s t)) (other_kids s m t)
    ];
    distinct = λ s.
        if-both Distinct (init == s) (out init n c (ground arith), o.distinct init) (o.distinct s);
    once = o.once.1;
  }
