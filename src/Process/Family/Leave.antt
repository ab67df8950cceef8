-- ===== src/Process/Family/Leave.antt =====
-- kern/process/proc.c, `remove_links`: a child that is waited for.
use hard_core.Prelude.{
  Distinct-without, ℕ, ◌≡◌, refl, sym, ap, ◌∙◌, subst, inl, inr, true, false, Option, none, some,
  List, [], ◌∷◌, arith, ◌==◌, if◌then◌else◌, Bool-cases, ◌∈◌, ◌∉◌, Distinct, if-both, without,
  Distinct-without,
}
use hard_core.Process.Family.{Links, mark, unlead, leave}
use hard_core.Process.Family.Chain.{
  Chain, IsFamily, chain_frame, chain_first, kid_of_one, write_other, write_same,
}
use hard_core.Process.Family.Join.{mark_other}
use hard_core.Schedule.Sched.{write}

-- The next older sibling of a child stands behind it.
chain_optr :
    (l : Links) (r : ℕ) (y h : Option ℕ) (xs : List ℕ) (p q : ℕ)
    → Chain l r y h xs
    → p ∈ xs
    → l.optr p ≡ some q
    → q ∈ xs
unfolding Chain
chain_optr l r y h [] p q c m e = absurd (cc)
chain_optr l r y h (x ∷ xs) p q (f, a, b, c) m e = elim (Bool-cases (p == x)) [
  | inl t ↦
      let same : p ≡ x = ground arith in
      let i = chain_first l r (some x) (l.optr x) xs q c (ap l.optr (sym same) ∙ e) in ground arith
  | inr n ↦ let i = chain_optr l r (some x) (l.optr x) xs p q c (ground arith) e in ground arith
]

-- The next younger sibling of a child stands before it, unless it is the first.
chain_yptr :
    (l : Links) (r : ℕ) (y h : Option ℕ) (x : ℕ) (xs : List ℕ) (p : ℕ)
    → Chain l r y h (x ∷ xs)
    → p ∈ xs
    → (w : ℕ) × (l.yptr p ≡ some w) × (w ∈ (x ∷ xs))
unfolding Chain
chain_yptr l r y h x [] p c m = absurd (cc)
chain_yptr l r y h x (z ∷ zs) p (f, a, b, c) m = elim (Bool-cases (p == z)) [
  | inl t ↦ let same : p ≡ z = ground arith in (x, ap l.yptr same ∙ c.2, ground arith)
  | inr n ↦
      let (w, e, i) = chain_yptr l r (some x) (l.optr x) z zs p c (ground arith) in
      (w, e, ground arith)
]

-- A chain without the siblings of the child that leaves stays.
leave-frame :
    (l : Links) (p r s : ℕ) (y h : Option ℕ) (xs : List ℕ)
    → ((q : ℕ) → l.optr p ≡ some q → q ∉ xs)
    → ((w : ℕ) → l.yptr p ≡ some w → w ∉ xs)
    → Chain l s y h xs
    → Chain (leave p r l) s y h xs
unfolding leave
leave-frame l p r s y h xs older younger c =
    chain_frame l (leave p r l) s y h xs
      (λ x m. record {
        parent = refl;
        optr =
            mark_other (l.yptr p) (l.optr p) l.optr x (λ w e. let o = younger w e in ground arith);
        yptr = mark_other (l.optr p) (l.yptr p) l.yptr x (λ q e. let o = older q e in ground arith);
      })
      c

-- What follows the child, behind what comes before it.
leave_here :
    (l : Links) (p r : ℕ) (o : Option ℕ) (xs : List ℕ)
    → l.optr p ≡ o
    → Distinct (p ∷ xs)
    → ((w : ℕ) → l.yptr p ≡ some w → w ∉ xs)
    → Chain l r (some p) o xs
    → Chain (leave p r l) r (l.yptr p) o xs
unfolding leave Chain mark
leave_here l p r o [] e d h c = c
leave_here l p r o (x ∷ xs) e d h (f, a, b, c) =
    let first : l.optr p ≡ some x = e ∙ f in
    (
      f,
      a,
      ap (λ q. mark q (l.yptr p) l.yptr x) first ∙ write_same l.yptr x (l.yptr p),
      subst (λ q. Chain (leave p r l) r (some x) q xs)
          (sym (mark_other (l.yptr p) (l.optr p) l.optr x (λ w g. let o = h w g in ground arith)))
          (leave-frame l p r r (some x) (l.optr x) xs
            (λ q g. let same : some q ≡ some x = sym g ∙ first in ground arith)
            (λ w g. let o = h w g in ground arith) c),
    )

-- The head of a chain that a child leaves.
skip : ℕ → Option ℕ → Option ℕ → Option ℕ
skip p o none = none
skip p o (some x) = if x == p then o else some x

-- The link to a child that leaves goes on to the next one; other links stay.
optr_before :
    (l : Links) (p r x : ℕ) (xs : List ℕ)
    → p ∈ xs
    → x ∉ xs
    → Chain l r (some x) (l.optr x) xs
    → (leave p r l).optr x ≡ skip p (l.optr p) (l.optr x)
unfolding leave skip Chain mark
optr_before l p r x [] m d c = absurd (cc)
optr_before l p r x (z ∷ zs) m d (f, a, b, c) = elim (Bool-cases (z == p)) [
  | inl t ↦
      let same : z ≡ p = ground arith in
      ap (λ y. mark y (l.optr p) l.optr x) (ap l.yptr (sym same) ∙ b)
      ∙ write_same l.optr x (l.optr p)
      ∙ sym (ap (skip p (l.optr p)) f ∙ rw (t) refl)
  | inr n ↦
      let (w, e, i) = chain_yptr l r (some x) (some z) z zs p (refl, a, b, c) (ground arith) in
      mark_other (l.yptr p) (l.optr p) l.optr x
        (λ v g. let same : some v ≡ some w = sym g ∙ e in ground arith)
      ∙ sym (ap (skip p (l.optr p)) f ∙ rw (n) (sym f))
]

leave_chain :
    (l : Links) (p r : ℕ) (y h : Option ℕ) (xs : List ℕ)
    → p ∈ xs
    → Distinct xs
    → ((w : ℕ) → y ≡ some w → w ∉ xs)
    → Chain l r y h xs
    → Chain (leave p r l) r y (skip p (l.optr p) h) (without p xs)
unfolding Chain skip leave
leave_chain l p r y h [] m d out c = absurd (cc)
leave_chain l p r y h (x ∷ xs) m d out (f, a, b, c) = elim (Bool-cases (p == x)) [
  | inl t ↦
      let same : p ≡ x = ground arith in
      let self : (x == p) ≡ true = ground arith in
      let to : skip p (l.optr p) h ≡ l.optr p = ap (skip p (l.optr p)) f ∙ rw (self) refl in
      let back : l.yptr p ≡ y = ap l.yptr same ∙ b in
      rw (t) (
        subst (λ o. Chain (leave p r l) r y o xs) (sym to)
          (subst (λ v. Chain (leave p r l) r v (l.optr p) xs) back
            (leave_here l p r (l.optr p) xs refl (ground arith, d.1)
              (λ w e. let o = out w (sym back ∙ e) in ground arith)
              (subst (λ z. Chain l r (some z) (l.optr z) xs) (sym same) c))))
  | inr n ↦
      let m' : p ∈ xs = ground arith in
      let other : (x == p) ≡ false = ground arith in
      rw (n) (
        ap (skip p (l.optr p)) f ∙ rw (other) refl,
        a,
        mark_other (l.optr p) (l.yptr p) l.yptr x
              (λ q e. let i = chain_optr l r (some x) (l.optr x) xs p q c m' e in ground arith)
            ∙ b,
        subst (λ o. Chain (leave p r l) r (some x) o (without p xs))
            (sym (optr_before l p r x xs m' d.0 c))
            (leave_chain l p r (some x) (l.optr x) xs m' d.1
              (λ w e. let same : some x ≡ some w = e in ground arith) c),
      )
]

-- What `cptr` of the parent becomes.
cptr_left :
    (l : Links) (p r : ℕ) (xs : List ℕ)
    → p ∈ xs
    → Chain l r none (l.cptr r) xs
    → (leave p r l).cptr r ≡ skip p (l.optr p) (l.cptr r)
unfolding leave unlead skip Chain
cptr_left l p r [] m c = absurd (cc)
cptr_left l p r (x ∷ xs) m (f, a, b, c) = elim (Bool-cases (p == x)) [
  | inl t ↦
      let same : p ≡ x = ground arith in
      let self : (x == p) ≡ true = ground arith in
      ap (λ y. unlead y r (l.optr p) l.cptr r) (ap l.yptr same ∙ b)
      ∙ write_same l.cptr r (l.optr p)
      ∙ sym (ap (skip p (l.optr p)) f ∙ rw (self) refl)
  | inr n ↦
      let other : (x == p) ≡ false = ground arith in
      let (w, e, i) = chain_yptr l r none (l.cptr r) x xs p (f, a, b, c) (ground arith) in
      ap (λ y. unlead y r (l.optr p) l.cptr r) e
      ∙ sym (ap (skip p (l.optr p)) f ∙ rw (other) (sym f))
]

unlead_other :
    (y : Option ℕ) (r : ℕ) (o : Option ℕ) (f : ℕ → Option ℕ) (s : ℕ)
    → (r == s) ≡ false
    → unlead y r o f s ≡ f s
unfolding unlead
unlead_other none r o f s n = write_other f r o s n
unlead_other (some y) r o f s n = refl

younger_kid :
    (l : Links) (r : ℕ) (xs : List ℕ) (p w : ℕ)
    → Chain l r none (l.cptr r) xs
    → p ∈ xs
    → l.yptr p ≡ some w
    → w ∈ xs
unfolding Chain
younger_kid l r [] p w c m e = absurd (cc)
younger_kid l r (x ∷ xs) p w c m e = elim (Bool-cases (p == x)) [
  | inl t ↦
      let same : p ≡ x = ground arith in
      let no : none ≡ some w = sym c.2 ∙ ap l.yptr (sym same) ∙ e in absurd (cc)
  | inr n ↦
      let (v, g, i) = chain_yptr l r none (l.cptr r) x xs p c (ground arith) in
      let same : some v ≡ some w = sym g ∙ e in
      let eq : v ≡ w = ground arith in subst (λ z. z ∈ (x ∷ xs)) eq i
]

cptr_kept : (l : Links) (p r s : ℕ) → (r == s) ≡ false → (leave p r l).cptr s ≡ l.cptr s
unfolding leave
cptr_kept l p r s n = unlead_other (l.yptr p) r (l.optr p) l.cptr s n

-- `remove_links` of a child of `r` takes it out of the children of `r`; the children of every
-- other process stay.
pub leave-IsFamily :
    (l : Links) (kids : ℕ → List ℕ) (p r : ℕ)
    → IsFamily l kids
    → p ∈ kids r
    → IsFamily (leave p r l) (write kids r (without p (kids r)))
leave-IsFamily l kids p r f m = record {
  chain = λ s. elim (Bool-cases (r == s)) [
    | inl t ↦
        let same : r ≡ s = ground arith in
        subst
          (λ z.
            Chain (leave p r l) z none ((leave p r l).cptr z) (write kids r (without p (kids r)) z))
          same
          (subst (Chain (leave p r l) r none ((leave p r l).cptr r))
            (sym (write_same kids r (without p (kids r))))
            (subst (λ h. Chain (leave p r l) r none h (without p (kids r)))
              (sym (cptr_left l p r (kids r) m (f.chain r)))
              (leave_chain l p r none (l.cptr r) (kids r) m (f.distinct r) (λ w e. absurd (cc))
                (f.chain r))))
    | inr n ↦
        subst (Chain (leave p r l) s none ((leave p r l).cptr s))
          (sym (write_other kids r (without p (kids r)) s n))
          (subst (λ h. Chain (leave p r l) s none h (kids s)) (sym (cptr_kept l p r s n))
            (leave-frame l p r s none (l.cptr s) (kids s)
              (λ q e.
                kid_of_one l kids r s q f n
                  (chain_optr l r none (l.cptr r) (kids r) p q (f.chain r) m e))
              (λ w e. kid_of_one l kids r s w f n (younger_kid l r (kids r) p w (f.chain r) m e))
              (f.chain s)))
  ];
  distinct =
      λ s. if-both Distinct (r == s) (Distinct-without p (kids r) (f.distinct r)).0 (f.distinct s);
}
