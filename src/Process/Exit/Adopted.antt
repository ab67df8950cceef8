-- ===== src/Process/Exit/Adopted.antt =====
-- kern/process/proc.c, `do_exit`: the loop over the children.
use hard_core.Prelude.{
  ℕ, zero, suc, ◌<◌, ◌≡◌, refl, sym, ap, ◌∙◌, subst, inl, inr, false, Option, none, some, List, [],
  ◌∷◌, arith, ◌==◌, Bool-cases, length, get_elem?, Distinct, bind-some,
}
use hard_core.Process.Family.{Links, adopt}
use hard_core.Process.Family.Chain.{Chain, write_same}
use hard_core.Process.Family.Adopt.{Orphans, adopt-Orphans}
use hard_core.Process.State.{Kernel}
use hard_core.Process.Exit.{adopt_next, adopt_all}
use hard_core.Process.Exit.Waking.{Woken, woken_refl, woken_trans, wakes_waiting}
use hard_core.Schedule.Sched.{is_zombie, SchedClass, Sched, write}
use hard_core.Schedule.Sched.Balance.{ClassLaws}

-- One list put in front of another, the last element first.
unfoldable pub onto : List ℕ → List ℕ → List ℕ
onto [] ys = ys
onto (x ∷ xs) ys = onto xs (x ∷ ys)

Orphans-ext :
    (cur : ℕ) (l : Links) (y : Option ℕ) (xs : List ℕ) (kids kids' : ℕ → List ℕ)
    → ((s : ℕ) → kids' s ≡ kids s)
    → Orphans cur l y xs kids
    → Orphans cur l y xs kids'
Orphans-ext cur l y xs kids kids' e o = record {
  rest = o.rest;
  others = λ s n. subst (Chain l s none (l.cptr s)) (sym (e s)) (o.others s n);
  distinct = λ s. subst Distinct (sym (e s)) (o.distinct s);
  once = o.once;
}

-- The head of what is left.
first_left :
    (cur : ℕ) (l : Links) (y : Option ℕ) (xs : List ℕ) (kids : ℕ → List ℕ)
    → Orphans cur l y xs kids
    → l.cptr cur ≡ get_elem? xs 0
unfolding Chain
first_left cur l y [] kids o = o.rest
first_left cur l y (x ∷ xs) kids o = let r = o.rest in r.0

kept_write : (kids : ℕ → List ℕ) (i s : ℕ) → write kids i (kids i) s ≡ kids s
kept_write kids i s = elim (Bool-cases (i == s)) [
  | inl t ↦ let same : i ≡ s = ground arith in rw (t) (ap kids same)
  | inr n ↦ rw (n) refl
]

written :
    (kids : ℕ → List ℕ) (i x : ℕ) (xs : List ℕ) (s : ℕ)
    → write kids i (onto (x ∷ xs) (kids i)) s
      ≡ write (write kids i (x ∷ kids i)) i (onto xs (write kids i (x ∷ kids i) i)) s
unfolding onto
written kids i x xs s = elim (Bool-cases (i == s)) [
  | inl t ↦ rw (t) (ap (onto xs) (sym (write_same kids i (x ∷ kids i))))
  | inr n ↦ rw (n) refl
]

module _ {Q W : Type 0} {c : SchedClass Q} (laws : ClassLaws c) where
  -- What is left when the loop has moved the children `xs`.
  pub record Adopted (k : Kernel Q W) (kids : ℕ → List ℕ) (xs : List ℕ) (o : Option (Kernel Q W))
      : Type 0 where
    pub links : Links
    pub sched : Sched Q
    pub gives : o ≡ some (record k { links = links; sched = sched })
    pub left :
        (y : Option ℕ) × Orphans k.sched.current links y []
          (write kids k.initproc (onto xs (kids k.initproc)))
    pub woken : Woken laws k.sched sched

  -- One turn gives a kernel that differs in the links and the scheduler only.
  adopts :
      (child : ℕ) (k : Kernel Q W)
      → is_zombie (k.sched.procs k.initproc).state ≡ false
      → (s' : Sched Q) × (adopt_next c child k
          ≡ some (record k { links = adopt k.sched.current k.initproc child k.links; sched = s' }))
        × Woken laws k.sched s'
  unfolding adopt_next
  adopts child k e =
      let k' = record k { links = adopt k.sched.current k.initproc child k.links } in
      elim (Bool-cases (is_zombie (k.sched.procs child).state)) [
        | inl t ↦ let (s', g, w) = wakes_waiting laws k.initproc k' e in (s', rw (t) g, w)
        | inr n ↦ (k.sched, rw (n) refl, woken_refl laws k.sched)
      ]

  -- With more fuel than there are children the loop ends: the init process has them before its
  -- own, and the process that ends has none.
  pub adopt_all-Adopted :
      (xs : List ℕ) (fuel : ℕ) (y : Option ℕ) (kids : ℕ → List ℕ) (k : Kernel Q W)
      → length xs < fuel
      → (k.sched.current == k.initproc) ≡ false
      → is_zombie (k.sched.procs k.initproc).state ≡ false
      → Orphans k.sched.current k.links y xs kids
      → Adopted k kids xs (adopt_all c fuel k)
  unfolding adopt_all onto
  adopt_all-Adopted [] zero y kids k f n e o = absurd (omega arith)
  adopt_all-Adopted (x ∷ xs) zero y kids k f n e o = absurd (omega arith)
  adopt_all-Adopted [] (suc fuel) y kids k f n e o =
      rw (first_left k.sched.current k.links y [] kids o, adopt_all)
        (record {
          links = k.links;
          sched = k.sched;
          gives = refl;
          left = (
            y,
            Orphans-ext k.sched.current k.links y [] kids (write kids k.initproc (kids k.initproc))
                (kept_write kids k.initproc) o,
          );
          woken = woken_refl laws k.sched;
        })
  adopt_all-Adopted (x ∷ xs) (suc fuel) y kids k f n e o =
      let (s', g, w) = adopts x k e in
      let l' = adopt k.sched.current k.initproc x k.links in
      let k' = record k { links = l'; sched = s' } in
      let kids' = write kids k.initproc (x ∷ kids k.initproc) in
      let o' = adopt-Orphans k.sched.current k.initproc x k.links y xs kids o n in
      let next : Kernel Q W → Option (Kernel Q W) = λ z. adopt_all c fuel z in
      let r =
        adopt_all-Adopted xs fuel (some x) kids' k' (omega arith)
          (ap (λ q. q == k.initproc) w.current ∙ n) (w.live k.initproc ∙ e)
          (subst (λ cur. Orphans cur l' (some x) xs kids') (sym w.current) o') in
      rw (first_left k.sched.current k.links y (x ∷ xs) kids o, adopt_all)
        (record {
          links = r.links;
          sched = r.sched;
          gives = bind-some (adopt_next c x k) next g ∙ r.gives;
          left =
              let (z, q) = r.left in
              (
                z,
                Orphans-ext k.sched.current r.links z []
                    (write kids' k.initproc (onto xs (kids' k.initproc)))
                    (write kids k.initproc (onto (x ∷ xs) (kids k.initproc)))
                    (written kids k.initproc x xs)
                    (subst
                      (λ cur.
                        Orphans cur r.links z []
                          (write kids' k.initproc (onto xs (kids' k.initproc))))
                      w.current q),
              );
          woken = woken_trans laws k.sched s' r.sched w r.woken;
        })
