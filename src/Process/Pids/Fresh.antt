-- ===== src/Process/Pids/Fresh.antt =====
-- kern/process/proc.c, `get_pid`: which numbers it gives.
use hard_core.Prelude.{
  ℕ, ◌+◌, ◌≤◌, ◌<◌, ◌≡◌, refl, ◌⊎◌, inl, inr, false, ◌&&◌, List, [], ◌∷◌, arith, ltb, leb, ◌==◌,
  ltb→lt, Bool-cases, ◌∉◌,
}
use hard_core.Process.Pids.{max_pid, PidState, scan_proc, scan, On, On-map, On-go}

pub Any : ℕ → Type 0
Any n = Unit

-- No process of the list has a number from the first one up to below the second one.
unfoldable pub Free : ℕ → ℕ → List ℕ → Type 0
Free n m pids = (p : ℕ) → n ≤ p → p < m → p ∉ pids

-- Between two calls: no process has a number above the last one given and below the safe one.
unfoldable pub IsPidState : List ℕ → PidState → Type 0
IsPidState pids s = Free (s.last_pid + 1) s.next_safe pids × (s.next_safe ≤ max_pid)

-- How far a pass has come: the numbers that have been seen are free from the candidate on.
record Passed (seen : List ℕ) (s : PidState) : Type 0 where
  pub free : Free s.last_pid s.next_safe seen
  pub below : s.last_pid < s.next_safe
  pub bound : s.next_safe ≤ max_pid

Free-cons : (n m p : ℕ) (pids : List ℕ) → (p < n) ⊎ (m ≤ p) → Free n m pids → Free n m (p ∷ pids)
unfolding Free
Free-cons n m p pids (inl h) f q l u = ground (arith, f q l u)
Free-cons n m p pids (inr h) f q l u = ground (arith, f q l u)

Free-less : (n m n' m' : ℕ) (pids : List ℕ) → n ≤ n' → m' ≤ m → Free n m pids → Free n' m' pids
unfolding Free
Free-less n m n' m' pids h k f q l u = f q (omega arith) (omega arith)

outside : (p a b : ℕ) → (p == a) ≡ false → (ltb a p && ltb p b) ≡ false → (p < a) ⊎ (b ≤ p)
outside p a b n u = elim (Bool-cases (ltb p a)) [
  | inl l ↦ inl (ltb→lt p a l)
  | inr g ↦ inr (ground arith)
]

scan_proc-Passed :
    (p : ℕ) (seen : List ℕ) (s : PidState)
    → Passed seen s
    → On (Passed (p ∷ seen)) Any (scan_proc p s)
unfolding scan_proc On Any
scan_proc-Passed p seen s h = elim (Bool-cases (p == s.last_pid)) [
  | inl t ↦
      let same : p ≡ s.last_pid = ground arith in
      rw (t) (elim (Bool-cases (leb s.next_safe (s.last_pid + 1))) [
        | inl u ↦ rw (u) tt
        | inr u ↦ rw (u) (record {
          free = Free-cons (s.last_pid + 1) s.next_safe p seen (inl (omega arith)) (
              Free-less s.last_pid s.next_safe (s.last_pid + 1) s.next_safe seen (omega arith)
                (omega arith) h.free);
          below = ground arith;
          bound = h.bound;
        })
      ])
  | inr n ↦ rw (n) (elim (Bool-cases (ltb s.last_pid p && ltb p s.next_safe)) [
    | inl u ↦ rw (u) (record {
      free =
          Free-cons s.last_pid p p seen (inr (omega arith)) (
            Free-less s.last_pid s.next_safe s.last_pid p seen (omega arith) (ground arith) h.free);
      below = ground arith;
      bound = let b = h.bound in let k : p < s.next_safe = ground arith in omega arith;
    })
    | inr u ↦ rw (u) (record {
      free = Free-cons s.last_pid s.next_safe p seen (outside p s.last_pid s.next_safe n u) h.free;
      below = h.below;
      bound = h.bound;
    })
  ])
]

none_taken : (n m : ℕ) → Free n m []
unfolding Free
none_taken n m p l u = refl

Free-head : (n m p : ℕ) (xs ys : List ℕ) → Free n m (p ∷ xs) → Free n m ys → Free n m (p ∷ ys)
unfolding Free
Free-head n m p xs ys f g q l u = ground (arith, f q l u, g q l u)

Free-tail : (n m p : ℕ) (xs : List ℕ) → Free n m (p ∷ xs) → Free n m xs
unfolding Free
Free-tail n m p xs f q l u = ground (arith, f q l u)

Ended : List ℕ → List ℕ → PidState → Type 0
Ended pids seen r = Free r.last_pid r.next_safe pids × Passed seen r

join_seen :
    (pids seen : List ℕ) (p : ℕ) (r : PidState) → Ended pids (p ∷ seen) r → Ended (p ∷ pids) seen r
unfolding Ended
join_seen pids seen p r (f, h) = (
  Free-head r.last_pid r.next_safe p seen pids h.free f,
  record {
    free = Free-tail r.last_pid r.next_safe p seen h.free;
    below = h.below;
    bound = h.bound;
  },
)

scan-Passed :
    (pids seen : List ℕ) (s : PidState) → Passed seen s → On (Ended pids seen) Any (scan pids s)
unfolding scan On Any Ended
scan-Passed [] seen s h = (none_taken s.last_pid s.next_safe, h)
scan-Passed (p ∷ pids) seen s h =
    On-go (Passed (p ∷ seen)) Any (Ended (p ∷ pids) seen) Any (scan_proc p s) (λ r. scan pids r)
      (scan_proc-Passed p seen s h) (λ n t. t)
      (λ r k.
        On-map (scan pids r) (λ n t. t) (join_seen pids seen p) (scan-Passed pids (p ∷ seen) r k))

free_at : (n m p : ℕ) (pids : List ℕ) → Free n m pids → n ≤ p → p < m → p ∉ pids
unfolding Free
free_at n m p pids f l u = f p l u

-- What a found number is.
pub record IsFound (pids : List ℕ) (s : PidState) : Type 0 where
  pub unused : s.last_pid ∉ pids
  pub below : s.last_pid < max_pid
  pub kept : IsPidState (s.last_pid ∷ pids) s

found_of : (pids : List ℕ) (r : PidState) → Ended pids [] r → IsFound pids r
unfolding Ended IsPidState
found_of pids r (f, h) =
    let l = h.below in
    let b = h.bound in
    record {
      unused = free_at r.last_pid r.next_safe r.last_pid pids f (omega arith) l;
      below = omega arith;
      kept = (
        Free-cons (r.last_pid + 1) r.next_safe r.last_pid pids (inl (omega arith)) (
            Free-less r.last_pid r.next_safe (r.last_pid + 1) r.next_safe pids (omega arith)
              (omega arith) f),
        b,
      );
    }

-- A pass over the list that ends finds a number.
pub pass-IsFound :
    (pids : List ℕ) (last : ℕ)
    → last < max_pid
    → On (IsFound pids) Any (scan pids (record { last_pid = last; next_safe = max_pid }))
pass-IsFound pids last h =
    let s : PidState = record { last_pid = last; next_safe = max_pid } in
    On-map (scan pids s) (λ n t. t) (found_of pids)
      (scan-Passed pids [] s
        (record { free = none_taken last max_pid; below = h; bound = omega arith }))

-- Below the safe number the next one is free.
pub next-IsFound :
    (pids : List ℕ) (s : PidState)
    → IsPidState pids s
    → s.last_pid + 1 < s.next_safe
    → IsFound pids (record s { last_pid = s.last_pid + 1 })
unfolding IsPidState
next-IsFound pids s (f, b) h =
    let n = s.last_pid + 1 in
    record {
      unused = free_at n s.next_safe n pids f (omega arith) h;
      below = omega arith;
      kept = (
        Free-cons (n + 1) s.next_safe n pids (inl (omega arith))
            (Free-less n s.next_safe (n + 1) s.next_safe pids (omega arith) (omega arith) f),
        b,
      );
    }

-- The static variables agree with a list that has no more numbers.
pub pids_fewer :
    (ns ms : List ℕ) (s : PidState)
    → ((v : ℕ) → v ∉ ns → v ∉ ms)
    → IsPidState ns s
    → IsPidState ms s
unfolding IsPidState Free
pids_fewer ns ms s h (f, b) = (λ p l u. h p (f p l u), b)
