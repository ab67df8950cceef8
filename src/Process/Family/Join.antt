-- ===== src/Process/Family/Join.antt =====
-- kern/process/proc.c, `set_links`: a new child.
use hard_core.Prelude.{
  ℕ, ◌≡◌, refl, sym, ap, ◌∙◌, subst, inl, inr, false, Option, none, some, List, [], ◌∷◌, arith,
  ◌==◌, Bool-cases, ◌∉◌, Distinct, has-ne, if-both,
}
use hard_core.Process.Family.{Links, mark, join}
use hard_core.Process.Family.Chain.{
  Chain, IsFamily, chain_first, chain_frame, kid_of_one, write_other, write_same,
}
use hard_core.Schedule.Sched.{write}

pub mark_other :
    (o v : Option ℕ) (f : ℕ → Option ℕ) (x : ℕ)
    → ((q : ℕ) → o ≡ some q → (q == x) ≡ false)
    → mark o v f x ≡ f x
unfolding mark
mark_other none v f x h = refl
mark_other (some q) v f x h = write_other f q v x (h q refl)

-- A chain that holds neither the new child nor the first child of its parent stays.
pub join-frame :
    (l : Links) (p r s : ℕ) (y h : Option ℕ) (xs : List ℕ)
    → p ∉ xs
    → ((q : ℕ) → l.cptr r ≡ some q → q ∉ xs)
    → Chain l s y h xs
    → Chain (join p r l) s y h xs
unfolding join
join-frame l p r s y h xs out first c =
    chain_frame l (join p r l) s y h xs
      (λ x m.
        let n : (p == x) ≡ false = ground arith in
        record {
          parent = refl;
          optr = write_other l.optr p (l.cptr r) x n;
          yptr =
              mark_other (l.cptr r) (some p) (write l.yptr p none) x
                (λ q e. let o = first q e in ground arith)
              ∙ write_other l.yptr p none x n;
        })
      c

-- The links of the new child and of the first child before it, from the fields written.
join_head :
    (l : Links) (p r : ℕ) (o : Option ℕ) (xs : List ℕ)
    → l.cptr r ≡ o
    → Distinct (p ∷ xs)
    → Chain l r none o xs
    → Chain (join p r l) r (some p) o xs
unfolding join Chain mark
join_head l p r o [] e d c = c
join_head l p r o (x ∷ xs) e d (f, a, b, c) =
    let n : (p == x) ≡ false = ground arith in
    (
      f,
      a,
      ap (λ h. mark h (some p) (write l.yptr p none) x) (e ∙ f)
          ∙ write_same (write l.yptr p none) x (some p),
      subst (λ h. Chain (join p r l) r (some x) h xs) (sym (write_other l.optr p (l.cptr r) x n))
          (join-frame l p r r (some x) (l.optr x) xs (ground arith)
            (λ q g. let same : some q ≡ some x = sym g ∙ e ∙ f in ground arith) c),
    )

pub join_kids :
    (l : Links) (p r : ℕ) (xs : List ℕ)
    → l.parent p ≡ some r
    → Distinct (p ∷ xs)
    → Chain l r none (l.cptr r) xs
    → Chain (join p r l) r none ((join p r l).cptr r) (p ∷ xs)
unfolding join Chain
join_kids l p r xs e d c = (
  write_same l.cptr r (some p),
  e,
  mark_other (l.cptr r) (some p) (write l.yptr p none) p
        (λ q g. has-ne q p xs (chain_first l r none (l.cptr r) xs q c g) d.0)
      ∙ write_same l.yptr p none,
  subst (λ h. Chain (join p r l) r (some p) h xs) (sym (write_same l.optr p (l.cptr r)))
      (join_head l p r (l.cptr r) xs refl d c),
)

pub cptr_other : (l : Links) (p r s : ℕ) → (r == s) ≡ false → (join p r l).cptr s ≡ l.cptr s
unfolding join
cptr_other l p r s n = write_other l.cptr r (some p) s n

-- `set_links` of a process that is no child yet, and whose parent is `r`, puts it before the
-- children of `r`; the children of every other process stay.
pub join-IsFamily :
    (l : Links) (kids : ℕ → List ℕ) (p r : ℕ)
    → IsFamily l kids
    → ((s : ℕ) → p ∉ kids s)
    → l.parent p ≡ some r
    → IsFamily (join p r l) (write kids r (p ∷ kids r))
join-IsFamily l kids p r f out e = record {
  chain = λ s. elim (Bool-cases (r == s)) [
    | inl t ↦
        let same : r ≡ s = ground arith in
        subst (λ z. Chain (join p r l) z none ((join p r l).cptr z) (write kids r (p ∷ kids r) z))
          same
          (subst (Chain (join p r l) r none ((join p r l).cptr r))
            (sym (write_same kids r (p ∷ kids r)))
            (join_kids l p r (kids r) e (out r, f.distinct r) (f.chain r)))
    | inr n ↦
        subst (Chain (join p r l) s none ((join p r l).cptr s))
          (sym (write_other kids r (p ∷ kids r) s n))
          (subst (λ h. Chain (join p r l) s none h (kids s)) (sym (cptr_other l p r s n))
            (join-frame l p r s none (l.cptr s) (kids s) (out s)
              (λ q g.
                kid_of_one l kids r s q f n
                  (chain_first l r none (l.cptr r) (kids r) q (f.chain r) g))
              (f.chain s)))
  ];
  distinct = λ s. if-both Distinct (r == s) (out r, f.distinct r) (f.distinct s);
}
