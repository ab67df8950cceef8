-- ===== src/Process/Wait/Choosing.antt =====
-- kern/process/proc.c, `do_wait`: which child it takes.
use hard_core.Prelude.{
  held_le, ℕ, zero, suc, ◌≤◌, ◌≡◌, refl, sym, ap, ap₂, ◌∙◌, subst, inl, inr, Bool, true, false,
  ◌&&◌, ◌||◌, Option, none, some, List, [], ◌∷◌, arith, ◌==◌, if◌then◌else◌, Bool-cases, length,
  has, ◌∈◌, ◌>>=◌, bind-some,
}
use hard_core.Process.Family.Chain.{Chain, IsFamily, chain-parent}
use hard_core.Process.State.{Kernel}
use hard_core.Process.Table.{find_proc}
use hard_core.Process.Table.Find.{IsTable, find_proc_lem}
use hard_core.Process.Wait.{
  Choice, found, keep_waiting, nobody, is_some, find_zombie, any_zombie, is_parent, one_child,
  wait_choice,
}
use hard_core.Schedule.Sched.{is_zombie}

-- The first element that a test accepts.
unfoldable pub first_of : (ℕ → Bool) → List ℕ → Option ℕ
first_of f [] = none
first_of f (x ∷ xs) = if f x then some x else first_of f xs

unfoldable pub any_of : (ℕ → Bool) → List ℕ → Bool
any_of f [] = false
any_of f (x ∷ xs) = f x || any_of f xs

any_congr :
    (f g : ℕ → Bool) (xs : List ℕ) → ((x : ℕ) → x ∈ xs → f x ≡ g x) → any_of f xs ≡ any_of g xs
unfolding any_of
any_congr f g [] h = refl
any_congr f g (x ∷ xs) h =
    let e = h x (ground arith) in
    let i = any_congr f g xs (λ z m. h z (ground arith)) in ap₂ (λ a b. a || b) e i

first_congr :
    (f g : ℕ → Bool) (xs : List ℕ) → ((x : ℕ) → x ∈ xs → f x ≡ g x) → first_of f xs ≡ first_of g xs
unfolding first_of
first_congr f g [] h = refl
first_congr f g (x ∷ xs) h =
    let e = h x (ground arith) in
    let i = first_congr f g xs (λ z m. h z (ground arith)) in
    ap₂ (λ (a : Bool) (b : Option ℕ). if a then some x else b) e i

any_none : (xs : List ℕ) → any_of (λ x. false) xs ≡ false
unfolding any_of
any_none [] = refl
any_none (x ∷ xs) = any_none xs

first_none : (xs : List ℕ) → first_of (λ x. false) xs ≡ none
unfolding first_of
first_none [] = refl
first_none (x ∷ xs) = first_none xs

any_one : (p : ℕ) (xs : List ℕ) → any_of (λ x. x == p) xs ≡ has p xs
unfolding any_of
any_one p [] = refl
any_one p (x ∷ xs) =
    let s : (x == p) ≡ (p == x) = ground arith in ap₂ (λ a b. a || b) s (any_one p xs)

no_one : (b : Bool) (p : ℕ) → (if b && false then some p else none) ≡ none
no_one true p = refl
no_one false p = refl

first_one :
    (p : ℕ) (g : ℕ → Bool) (xs : List ℕ)
    → first_of (λ x. (x == p) && g x) xs ≡ (if has p xs && g p then some p else none)
unfolding first_of
first_one p g [] = refl
first_one p g (x ∷ xs) = elim (Bool-cases (x == p)) [
  | inl t ↦
      let same : x ≡ p = ground arith in
      let back : (p == x) ≡ true = ground arith in
      rw (t) (
        rw (back) (elim (Bool-cases (g x)) [
          | inl u ↦ let u' : g p ≡ true = ap g (sym same) ∙ u in rw (u) (rw (u') (ap some same))
          | inr u ↦
              let u' : g p ≡ false = ap g (sym same) ∙ u in
              rw (u) (
                first_one p g xs
                ∙ ap (λ b. if has p xs && b then some p else none) u'
                ∙ no_one (has p xs) p
                ∙ sym (ap (λ b. if true && b then some p else none) u'))
        ]))
  | inr n ↦ let back : (p == x) ≡ false = ground arith in rw (n) (rw (back) (first_one p g xs))
]

choices :
    (b z : Bool) (p : ℕ)
    → (if b then (if z then found p else keep_waiting) else nobody)
      ≡ any_zombie b (if b && z then some p else none)
unfolding any_zombie
choices true true p = refl
choices true false p = refl
choices false z p = refl

parent_of : (o : Option ℕ) (r : ℕ) → is_parent o r ≡ true → o ≡ some r
unfolding is_parent
parent_of none r e = absurd (cc)
parent_of (some q) r e = let same : q ≡ r = ground arith in ap some same

module _ {Q W : Type 0} where
  abbrev pub zombie_at : Kernel Q W → ℕ → Bool
  zombie_at k p = is_zombie (k.sched.procs p).state

  -- The children that `do_wait` is asked for.
  abbrev pub asked : ℕ → Kernel Q W → ℕ → Bool
  asked pid k p = (pid == 0) || ((k.pcbs p).pid == pid)

  -- What a call should find among the children `xs`.
  abbrev pub expected : ℕ → Kernel Q W → List ℕ → Choice
  expected pid k xs =
      any_zombie (any_of (asked pid k) xs) (first_of (λ p. asked pid k p && zombie_at k p) xs)

  walks :
      (k : Kernel Q W) (fuel r : ℕ) (y h : Option ℕ) (xs : List ℕ)
      → Chain k.links r y h xs
      → length xs ≤ fuel
      → find_zombie fuel h k ≡ some (first_of (zombie_at k) xs)
  unfolding find_zombie first_of Chain
  walks k zero r y h [] c l = rw (c) refl
  walks k (suc fuel) r y h [] c l = rw (c) refl
  walks k zero r y h (x ∷ xs) c l = absurd (omega arith)
  walks k (suc fuel) r y h (x ∷ xs) (e, a, b, c) l =
      elim (Bool-cases (is_zombie (k.sched.procs x).state)) [
        | inl t ↦ rw (e, find_zombie) (rw (t, find_zombie) refl)
        | inr n ↦
            let i = walks k fuel r (some x) (k.links.optr x) xs c (omega arith) in
            rw (e, find_zombie) (rw (n, find_zombie) i)
      ]

  some_first :
      (k : Kernel Q W) (xs : List ℕ)
      → Chain k.links k.sched.current none (k.links.cptr k.sched.current) xs
      → is_some (k.links.cptr k.sched.current) ≡ any_of (asked 0 k) xs
  unfolding Chain any_of
  some_first k [] c = rw (c) refl
  some_first k (x ∷ xs) (e, a, b, c) = rw (e) refl

  any_child :
      (k : Kernel Q W) (xs : List ℕ)
      → Chain k.links k.sched.current none (k.links.cptr k.sched.current) xs
      → length xs ≤ k.nr_process
      → wait_choice 0 k ≡ some (expected 0 k xs)
  unfolding wait_choice
  any_child k xs c l =
      let first = k.links.cptr k.sched.current in
      let next : Option ℕ → Option Choice = λ o. some (any_zombie (is_some first) o) in
      bind-some (find_zombie k.nr_process first k) next
        (walks k k.nr_process k.sched.current none first xs c l)
      ∙ ap (λ b. some (any_zombie b (first_of (zombie_at k) xs))) (some_first k xs c)

  differs :
      (k : Kernel Q W) (x p pid : ℕ)
      → (k.pcbs p).pid ≡ pid
      → ((k.pcbs x).pid == pid) ≡ false
      → (x == p) ≡ false
  differs k x p pid e u = elim (Bool-cases (x == p)) [
    | inl t ↦
        let same : x ≡ p = ground arith in
        let i : (k.pcbs x).pid ≡ pid = ap (λ z. (k.pcbs z).pid) same ∙ e in absurd (ground arith)
    | inr o ↦ o
  ]

  parent_iff :
      (k : Kernel Q W) (xs : List ℕ) (p : ℕ)
      → Chain k.links k.sched.current none (k.links.cptr k.sched.current) xs
      → (k.links.parent p ≡ some k.sched.current → p ∈ xs)
      → is_parent (k.links.parent p) k.sched.current ≡ has p xs
  unfolding is_parent
  parent_iff k xs p c h = elim (Bool-cases (has p xs)) [
    | inl m ↦
        let cur = k.sched.current in
        let self : (cur == cur) ≡ true = ground arith in
        rw (chain-parent k.links cur none (k.links.cptr cur) xs p c m) (self ∙ sym m)
    | inr o ↦ elim (Bool-cases (is_parent (k.links.parent p) k.sched.current)) [
      | inl t ↦ let m = h (parent_of (k.links.parent p) k.sched.current t) in absurd (cc)
      | inr f ↦ f ∙ sym o
    ]
  ]

  by_number :
      (k : Kernel Q W) (xs : List ℕ) (pid : ℕ) (o : Option ℕ)
      → IsTable k
      → Chain k.links k.sched.current none (k.links.cptr k.sched.current) xs
      → ((x : ℕ) → x ∈ xs → x ∈ k.proc_list)
      → ((x : ℕ) → x ∈ k.proc_list → k.links.parent x ≡ some k.sched.current → x ∈ xs)
      → (pid == 0) ≡ false
      → find_proc pid k ≡ o
      → one_child k o ≡ expected pid k xs
  unfolding one_child any_zombie
  by_number k xs pid none t c sub all n e =
      let out : (x : ℕ) → x ∈ xs → asked pid k x ≡ false = λ x m.
        elim (Bool-cases ((k.pcbs x).pid == pid)) [
          | inl u ↦
              let g : find_proc pid k ≡ some x =
                (find_proc_lem k t x pid).1 (sub x m, ground arith) in
              absurd (cc)
          | inr u ↦ rw (n) u
        ] in
      ap₂ (λ b o. any_zombie b o) (sym (any_congr (asked pid k) (λ x. false) xs out ∙ any_none xs))
        (sym (
          first_congr (λ x. asked pid k x && zombie_at k x) (λ x. false) xs
            (λ x m. rw (out x m) refl)
          ∙ first_none xs))
  by_number k xs pid (some p) t c sub all n e =
      let (listed, number) = (find_proc_lem k t p pid).0 e in
      let is : (x : ℕ) → x ∈ xs → asked pid k x ≡ (x == p) = λ x m.
        elim (Bool-cases ((k.pcbs x).pid == pid)) [
          | inl u ↦
              let g : find_proc pid k ≡ some x =
                (find_proc_lem k t x pid).1 (sub x m, ground arith) in
              let same : some x ≡ some p = sym g ∙ e in
              let here : (x == p) ≡ true = ground arith in rw (n) (u ∙ sym here)
          | inr u ↦
              let other : (x == p) ≡ false = differs k x p pid number u in rw (n) (u ∙ sym other)
        ] in
      ap (λ b. if b then (if zombie_at k p then found p else keep_waiting) else nobody)
        (parent_iff k xs p c (all p listed))
      ∙ choices (has p xs) (zombie_at k p) p
      ∙ ap₂ (λ b o. any_zombie b o)
          (sym (any_congr (asked pid k) (λ x. x == p) xs is ∙ any_one p xs))
          (sym (
            first_congr (λ x. asked pid k x && zombie_at k x) (λ x. (x == p) && zombie_at k x) xs
              (λ x m. ap (λ b. b && zombie_at k x) (is x m))
            ∙ first_one p (zombie_at k) xs))

  -- A call takes the first zombie among the children of the running process that it asks for,
  -- in the order from the youngest on; with no such zombie it waits when there is such a child,
  -- and finds nobody else.
  pub wait_choice_lem :
      (k : Kernel Q W) (kids : ℕ → List ℕ) (pid : ℕ)
      → IsTable k
      → IsFamily k.links kids
      → ((x : ℕ) → x ∈ kids k.sched.current → x ∈ k.proc_list)
      → ((x : ℕ)
          → x ∈ k.proc_list
          → k.links.parent x ≡ some k.sched.current
          → x ∈ kids k.sched.current)
      → wait_choice pid k ≡ some (expected pid k (kids k.sched.current))
  unfolding wait_choice
  wait_choice_lem k kids pid t f sub all =
      let xs = kids k.sched.current in
      let c = f.chain k.sched.current in
      let n = t.counted in
      let l = held_le xs k.proc_list (f.distinct k.sched.current) sub in
      elim (Bool-cases (pid == 0)) [
        | inl z ↦
            let same : 0 ≡ pid = ground arith in
            subst (λ n. wait_choice n k ≡ some (expected n k xs)) same
              (any_child k xs c (omega arith))
        | inr n ↦
            let first = k.links.cptr k.sched.current in
            let any : Option Choice =
              find_zombie k.nr_process first k >>= λ o. some (any_zombie (is_some first) o) in
            let choose : Bool → Option Choice =
              λ b. if b then any else some (one_child k (find_proc pid k)) in
            ap choose n ∙ ap some (by_number k xs pid (find_proc pid k) t c sub all n refl)
      ]
