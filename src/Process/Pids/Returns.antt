-- ===== src/Process/Pids/Returns.antt =====
-- kern/process/proc.c, `get_pid`: the search ends, and what a call returns.
use hard_core.Prelude.{
  length-without, has-without, without, ℕ, zero, suc, ◌+◌, ◌-◌, ◌*◌, ◌≤◌, ◌<◌, ◌≡◌, refl, sym,
  subst, inl, inr, Option, some, List, arith, ltb, leb, ltb→lt, Bool-cases, length, ◌∈◌,
}
use hard_core.Process.Pids.{
  max_pid, PidState, Scan, go, again, scan, On, wrap, repeat, pid_fuel, get_pid,
}
use hard_core.Process.Pids.Fresh.{Any, IsPidState, IsFound, pass-IsFound, next-IsFound}
use hard_core.Process.Pids.Moved.{Moved, Skipped, scan-Moved}

-- A list with every number of an interval is as long as the interval.
interval_le : (k n : ℕ) (xs : List ℕ) → ((q : ℕ) → n ≤ q → q < n + k → q ∈ xs) → k ≤ length xs
interval_le zero n xs h = omega arith
interval_le (suc k) n xs h =
    let e = length-without (n + k) xs (h (n + k) (omega arith) (omega arith)) in
    let r =
      interval_le k n (without (n + k) xs)
        (λ q l u. has-without q (n + k) xs (ground arith) (h q l (omega arith))) in
    omega arith

no_room : (pids : List ℕ) (n : ℕ) → length pids + 1 < max_pid → Moved pids 1 n → n < max_pid
no_room pids n h m = elim (Bool-cases (ltb n max_pid)) [
  | inl t ↦ ltb→lt n max_pid t
  | inr t ↦
      let big : max_pid ≤ n = ground arith in
      let i = interval_le (max_pid - 1) 1 pids (λ q l u. m.taken q l (omega arith)) in
      absurd (omega arith)
]

-- What a call that finds a number returns.
pub record Found (pids : List ℕ) (o : Option PidState) : Type 0 where
  pub state : PidState
  pub gives : o ≡ some state
  pub found : IsFound pids state
  pub positive : 1 ≤ state.last_pid

Moved-trans : (pids : List ℕ) (n m k : ℕ) → Moved pids n m → Moved pids m k → Moved pids n k
Moved-trans pids n m k h g =
    let a = h.up in
    let b = g.up in
    record {
      up = omega arith;
      taken = λ q l u. elim (Bool-cases (ltb q m)) [
        | inl t ↦ h.taken q l (ltb→lt q m t)
        | inr t ↦ g.taken q (ground arith) u
      ];
    }

start : ℕ → PidState
start last = record { last_pid = last; next_safe = max_pid }

-- One pass of the search, which ends it or goes on from a larger number.
pass_on :
    (fuel last : ℕ) (pids : List ℕ) (m : Scan)
    → 1 ≤ last
    → On (IsFound pids) Any m
    → On (λ r. Moved pids last r.last_pid) (Skipped pids last) m
    → ((n : ℕ) → Skipped pids last n → Found pids (repeat fuel pids (wrap n)))
    → Found pids (elim m [ go s ↦ some s | again n ↦ repeat fuel pids (wrap n) ])
unfolding On
pass_on fuel last pids (go s) l f m k =
    let u = m.up in record { state = s; gives = refl; found = f; positive = omega arith }
pass_on fuel last pids (again n) l f m k = k n m

repeat_of :
    (fuel last : ℕ) (pids : List ℕ)
    → 1 ≤ last
    → last < max_pid
    → ((n : ℕ) → Skipped pids last n → Found pids (repeat fuel pids (wrap n)))
    → Found pids (repeat (suc fuel) pids last)
unfolding repeat start
repeat_of fuel last pids l u k =
    pass_on fuel last pids (scan pids (start last)) l (pass-IsFound pids last u)
      (scan-Moved pids (start last)) k

wrap_le : (n : ℕ) → n < max_pid → wrap n ≡ n
wrap_le n h = ground arith

wrap_ge : (n : ℕ) → max_pid ≤ n → wrap n ≡ 1
wrap_ge n h = ground arith

-- From a number below which all are in use, the search ends before it reaches MAX_PID.
repeat_wrapped :
    (fuel last : ℕ) (pids : List ℕ)
    → length pids + 1 < max_pid
    → last < max_pid
    → Moved pids 1 last
    → max_pid ≤ last + fuel
    → Found pids (repeat fuel pids last)
repeat_wrapped zero last pids room u m enough = absurd (omega arith)
repeat_wrapped (suc fuel) last pids room u m enough = repeat_of fuel last pids m.up u (λ n s.
    let on = s.on in
    let t = Moved-trans pids 1 last n m s.moved in
    let b = no_room pids n room t in
    subst (λ x. Found pids (repeat fuel pids x)) (sym (wrap_le n b))
      (repeat_wrapped fuel n pids room b t (omega arith)))

-- From any number, it may pass MAX_PID once.
repeat_any :
    (fuel last : ℕ) (pids : List ℕ)
    → length pids + 1 < max_pid
    → 1 ≤ last
    → last < max_pid
    → 2 * max_pid ≤ last + fuel
    → Found pids (repeat fuel pids last)
repeat_any zero last pids room l u enough = absurd (omega arith)
repeat_any (suc fuel) last pids room l u enough = repeat_of fuel last pids l u (λ n s.
    let on = s.on in
    elim (Bool-cases (ltb n max_pid)) [
      | inl t ↦
          let b = ltb→lt n max_pid t in
          subst (λ x. Found pids (repeat fuel pids x)) (sym (wrap_le n b))
            (repeat_any fuel n pids room (omega arith) b (omega arith))
      | inr t ↦
          subst (λ x. Found pids (repeat fuel pids x)) (sym (wrap_ge n (ground arith)))
            (repeat_wrapped fuel 1 pids room (omega arith)
              (record { up = omega arith; taken = λ q l u. absurd (omega arith) }) (omega arith))
    ])

-- With fewer than MAX_PID - 1 processes in the list, whose numbers agree with the static
-- variables, `get_pid` returns: the number is at least 1 and below MAX_PID, no process of the
-- list has it, and the static variables agree with the list that the new process has joined.
pub get_pid_lem :
    (pids : List ℕ) (s : PidState)
    → IsPidState pids s
    → length pids + 1 < max_pid
    → Found pids (get_pid pids s)
unfolding get_pid
get_pid_lem pids s v room = elim (Bool-cases (leb max_pid (s.last_pid + 1))) [
  | inl t ↦ rw (t) (repeat_any pid_fuel 1 pids room (omega arith) (omega arith) (omega arith))
  | inr t ↦ rw (t) (elim (Bool-cases (leb s.next_safe (s.last_pid + 1))) [
    | inl u ↦
        rw (u) (
          repeat_any pid_fuel (s.last_pid + 1) pids room (omega arith) (ground arith) (omega arith))
    | inr u ↦ rw (u) (record {
      state = record s { last_pid = s.last_pid + 1 };
      gives = refl;
      found = next-IsFound pids s v (ground arith);
      positive = omega arith;
    })
  ])
]
