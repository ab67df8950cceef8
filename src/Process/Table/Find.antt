-- ===== src/Process/Table/Find.antt =====
-- kern/process/proc.c, `find_proc`: the process of a number.
use hard_core.Prelude.{
  ℕ, ◌+◌, ◌≤◌, ◌<◌, ◌≡◌, refl, ap, ap₂, ◌∙◌, subst, ◌↔◌, inl, inr, true, false, ◌&&◌, none, some,
  List, [], ◌∷◌, arith, ltb, ◌==◌, if◌then◌else◌, Bool-cases, length, has, ◌∈◌, Distinct,
}
use hard_core.Process.Pids.{max_pid}
use hard_core.Process.Pids.Fresh.{IsPidState}
use hard_core.Process.State.{Pcb, Kernel}
use hard_core.Process.Table.{pid_hashfn, find_in, find_proc, pids}

module _ {Q W : Type 0} where
  -- The list of processes, the hash table, the numbers and the count agree.
  pub record IsTable (k : Kernel Q W) : Type 0 where
    pub bucket :
        (p b : ℕ) → has p (k.hash_list b) ≡ (has p k.proc_list && (pid_hashfn (k.pcbs p).pid == b))
    pub hashed_once : (b : ℕ) → Distinct (k.hash_list b)
    pub unique :
        (p q : ℕ) → p ∈ k.proc_list → q ∈ k.proc_list → (k.pcbs p).pid ≡ (k.pcbs q).pid → p ≡ q
    pub range : (p : ℕ) → p ∈ k.proc_list → (1 ≤ (k.pcbs p).pid) × ((k.pcbs p).pid < max_pid)
    pub once : Distinct k.proc_list
    pub numbers : IsPidState (pids k) k.pid_state
    pub counted : k.nr_process ≡ length k.proc_list + 1

found_has :
    (f : ℕ → Pcb) (n : ℕ) (xs : List ℕ) (p : ℕ)
    → find_in f n xs ≡ some p
    → (p ∈ xs) × ((f p).pid ≡ n)
unfolding find_in
found_has f n [] p e = absurd (cc)
found_has f n (x ∷ xs) p e = elim (Bool-cases ((f x).pid == n)) [
  | inl t ↦
      let same : some x ≡ some p =
        subst (λ b. (if b then some x else find_in f n xs) ≡ some p) t e in
      let q : x ≡ p = ground arith in (ground arith, subst (λ z. (f z).pid ≡ n) q (ground arith))
  | inr m ↦
      let (i, g) =
        found_has f n xs p (subst (λ b. (if b then some x else find_in f n xs) ≡ some p) m e) in
      (ground arith, g)
]

not_same : (f : ℕ → Pcb) (n x p : ℕ) → (f p).pid ≡ n → ((f x).pid == n) ≡ false → (p == x) ≡ false
not_same f n x p e o = elim (Bool-cases (p == x)) [
  | inl t ↦
      let same : p ≡ x = ground arith in
      let i : (f x).pid ≡ n = subst (λ z. (f z).pid ≡ n) same e in absurd (ground arith)
  | inr m ↦ m
]

-- The search ends with the only member that has the number.
found_only :
    (f : ℕ → Pcb) (n : ℕ) (xs : List ℕ) (p : ℕ)
    → ((q : ℕ) → q ∈ xs → (f q).pid ≡ n → q ≡ p)
    → p ∈ xs
    → (f p).pid ≡ n
    → find_in f n xs ≡ some p
unfolding find_in
found_only f n [] p h m e = absurd (cc)
found_only f n (x ∷ xs) p h m e = elim (Bool-cases ((f x).pid == n)) [
  | inl t ↦ let q : x ≡ p = h x (ground arith) (ground arith) in rw (t) (ap some q)
  | inr o ↦
      let other : (p == x) ≡ false = not_same f n x p e o in
      rw (o) (found_only f n xs p (λ q i. h q (ground arith)) (ground arith) e)
]

module _ {Q W : Type 0} where
  finds :
      (k : Kernel Q W) (t : IsTable k) (p n : ℕ)
      → find_proc n k ≡ some p
      → (p ∈ k.proc_list) × ((k.pcbs p).pid ≡ n)
  unfolding find_proc
  finds k t p n e = elim (Bool-cases (ltb 0 n && ltb n max_pid)) [
    | inl g ↦
        let bucket = k.hash_list (pid_hashfn n) in
        let (i, f) =
          found_has k.pcbs n bucket p
            (subst (λ b. (if b then find_in k.pcbs n bucket else none) ≡ some p) g e) in
        let h = t.bucket p (pid_hashfn n) in (ground arith, f)
    | inr g ↦
        let no : none ≡ some p =
          subst (λ b. (if b then find_in k.pcbs n (k.hash_list (pid_hashfn n)) else none) ≡ some p)
            g e in
        absurd (cc)
  ]

  only :
      (k : Kernel Q W) (t : IsTable k) (p q : ℕ)
      → p ∈ k.proc_list
      → q ∈ k.hash_list (pid_hashfn (k.pcbs p).pid)
      → (k.pcbs q).pid ≡ (k.pcbs p).pid
      → q ≡ p
  only k t p q m i e =
      let h = t.bucket q (pid_hashfn (k.pcbs p).pid) in t.unique q p (ground arith) m e

  pub find-pid :
      (k : Kernel Q W) → IsTable k → (p : ℕ) → p ∈ k.proc_list → find_proc (k.pcbs p).pid k ≡ some p
  unfolding find_proc
  find-pid k t p m =
      let (a, b) = t.range p m in
      let g : (ltb 0 (k.pcbs p).pid && ltb (k.pcbs p).pid max_pid) ≡ true = ground arith in
      let h = t.bucket p (pid_hashfn (k.pcbs p).pid) in
      let self : (pid_hashfn (k.pcbs p).pid == pid_hashfn (k.pcbs p).pid) ≡ true = ground arith in
      rw (g) (
        found_only k.pcbs (k.pcbs p).pid (k.hash_list (pid_hashfn (k.pcbs p).pid)) p
          (λ q i. only k t p q m i) (h ∙ ap₂ (λ x y. x && y) m self) refl)

  -- In an agreeing table `find_proc` finds every process of the list by its number, and what it
  -- finds is a process of the list with the number that was asked for.
  pub find_proc_lem :
      (k : Kernel Q W)
      → IsTable k
      → (p n : ℕ) → (find_proc n k ≡ some p) ↔ ((p ∈ k.proc_list) × ((k.pcbs p).pid ≡ n))
  find_proc_lem k t p n =
      (finds k t p n, λ (m, e). subst (λ v. find_proc v k ≡ some p) e (find-pid k t p m))
