-- ===== src/Process/Family/Chain.antt =====
-- kern/process/proc.c: the children of a process as a list.
use hard_core.Prelude.{
  ℕ, ◌≡◌, refl, sym, ap, ◌∙◌, subst, inl, inr, true, false, Option, none, some, List, [], ◌∷◌,
  arith, ◌==◌, Bool-cases, has, ◌∈◌, ◌∉◌, Distinct,
}
use hard_core.Process.Family.{Links}
use hard_core.Schedule.Sched.{write}

-- From `h` on, the links `optr` lead through the processes of the list, whose parent is `r`; the
-- links `yptr` lead back, the first one to `y`.
unfoldable pub Chain : Links → ℕ → Option ℕ → Option ℕ → List ℕ → Type 0
Chain l r y h [] = h ≡ none
Chain l r y h (x ∷ xs) =
    (h ≡ some x) × (l.parent x ≡ some r) × (l.yptr x ≡ y) × Chain l r (some x) (l.optr x) xs

-- The children of every process, the youngest one first.
pub record IsFamily (l : Links) (kids : ℕ → List ℕ) : Type 0 where
  pub chain : (r : ℕ) → Chain l r none (l.cptr r) (kids r)
  pub distinct : (r : ℕ) → Distinct (kids r)

-- What a chain reads.
pub record Same (l l' : Links) (x : ℕ) : Type 0 where
  pub parent : l'.parent x ≡ l.parent x
  pub optr : l'.optr x ≡ l.optr x
  pub yptr : l'.yptr x ≡ l.yptr x

pub chain_frame :
    (l l' : Links) (r : ℕ) (y h : Option ℕ) (xs : List ℕ)
    → ((x : ℕ) → x ∈ xs → Same l l' x)
    → Chain l r y h xs
    → Chain l' r y h xs
unfolding Chain
chain_frame l l' r y h [] f c = c
chain_frame l l' r y h (x ∷ xs) f (e, p, b, c) =
    let s = f x (ground arith) in
    (
      e,
      s.parent ∙ p,
      s.yptr ∙ b,
      subst (λ o. Chain l' r (some x) o xs) (sym s.optr)
          (chain_frame l l' r (some x) (l.optr x) xs (λ z m. f z (ground arith)) c),
    )

pub chain-parent :
    (l : Links) (r : ℕ) (y h : Option ℕ) (xs : List ℕ) (x : ℕ)
    → Chain l r y h xs
    → x ∈ xs
    → l.parent x ≡ some r
unfolding Chain
chain-parent l r y h [] x c m = absurd (cc)
chain-parent l r y h (z ∷ xs) x (e, p, b, c) m = elim (Bool-cases (x == z)) [
  | inl t ↦ let same : x ≡ z = ground arith in ap l.parent same ∙ p
  | inr n ↦ chain-parent l r (some z) (l.optr z) xs x c (ground arith)
]

-- A process has one parent, so it is no child of another.
pub kid_of_one :
    (l : Links) (kids : ℕ → List ℕ) (r s x : ℕ)
    → IsFamily l kids
    → (r == s) ≡ false
    → x ∈ kids r
    → x ∉ kids s
kid_of_one l kids r s x f n m = elim (Bool-cases (has x (kids s))) [
  | inl t ↦
      let a = chain-parent l r none (l.cptr r) (kids r) x (f.chain r) m in
      let b = chain-parent l s none (l.cptr s) (kids s) x (f.chain s) t in absurd (ground arith)
  | inr o ↦ o
]

pub write_other :
    {A : Type 0} (f : ℕ → A) (p : ℕ) (a : A) (q : ℕ) → (p == q) ≡ false → write f p a q ≡ f q
write_other f p a q n = rw (n) refl

pub write_same : {A : Type 0} (f : ℕ → A) (p : ℕ) (a : A) → write f p a p ≡ a
write_same f p a = let self : (p == p) ≡ true = ground arith in rw (self) refl

pub chain_first :
    (l : Links) (r : ℕ) (y h : Option ℕ) (xs : List ℕ) (q : ℕ)
    → Chain l r y h xs
    → h ≡ some q
    → q ∈ xs
unfolding Chain
chain_first l r y h [] q c e = absurd (cc)
chain_first l r y h (x ∷ xs) q (f, a, b, c) e =
    let same : some q ≡ some x = sym e ∙ f in ground arith
