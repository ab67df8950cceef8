-- ===== src/Schedule/Sched/Tick.antt =====
-- The tick of the clock: which timers are due, and what becomes of the others.
use hard_core.Prelude.{
  ℕ, ◌+◌, ◌-◌, ◌≤◌, ◌≡◌, refl, sym, ap, ◌∙◌, subst, inl, inr, Bool, false, not, Option, some, List,
  [], ◌∷◌, ◌++◌, arith, ◌==◌, if◌then◌else◌, Bool-cases, ◌>>=◌, ◌>>◌, assert, bind-some, bind_assoc,
  bind_congr,
}
use hard_core.Schedule.Timers.{Timer, count_down}
use hard_core.Schedule.Timers.Deadlines.{Due, deadlines, AllFrom, AllFrom-deadlines, AllFrom-weaken}
use hard_core.Schedule.Sched.{
  SchedClass, Sched, sched_class_proc_tick, wake_due, fire, run_timer_list,
}

-- The timers that have counted down to 0, at the front of the list, and the others.
unfoldable pub due : List Timer → List Timer
due [] = []
due (t ∷ ts) = if t.expires == 0 then t ∷ due ts else []

unfoldable pub pending : List Timer → List Timer
pending [] = []
pending (t ∷ ts) = if t.expires == 0 then pending ts else t ∷ ts

-- These timers are due at this tick.
unfoldable pub due_at : ℕ → List Timer → List Due
due_at now [] = []
due_at now (t ∷ ts) = record { timer = t.ptr; proc = t.proc; tick = now } ∷ due_at now ts

-- The due timers are the ones whose tick it is.
due-deadlines :
    (now : ℕ) (ts : List Timer)
    → (deadlines now ts ≡ due_at now (due ts) ++ deadlines now (pending ts))
      × AllFrom (now + 1) (deadlines now (pending ts))
unfolding due pending due_at deadlines AllFrom
due-deadlines now [] = (refl, tt)
due-deadlines now (t ∷ ts) =
    let first : Bool → List Timer = λ b. if b then t ∷ due ts else [] in
    let rest : Bool → List Timer = λ b. if b then pending ts else t ∷ ts in
    let Parts : Bool → Type 0 = λ b.
      (deadlines now (t ∷ ts) ≡ due_at now (first b) ++ deadlines now (rest b))
      × AllFrom (now + 1) (deadlines now (rest b)) in
    elim (Bool-cases (t.expires == 0)) [
      | inl z ↦
          let same : now + t.expires ≡ now = ground arith in
          let r = due-deadlines now ts in
          subst Parts (sym z) (
            ap (λ (k : ℕ). record { timer = t.ptr; proc = t.proc; tick = k } ∷ deadlines k ts) same
                ∙ ap (λ (l : List Due). record { timer = t.ptr; proc = t.proc; tick = now } ∷ l)
                    r.0,
            r.1,
          )
      | inr n ↦
          let later : now + 1 ≤ now + t.expires = ground arith in
          subst Parts (sym n) (
            refl,
            (
              later,
              AllFrom-weaken (now + 1) (now + t.expires) _ later
                  (AllFrom-deadlines (now + t.expires) ts),
            ),
          )
    ]

counted_down :
    (now : ℕ) (ts : List Timer)
    → AllFrom (now + 1) (deadlines now ts)
    → (counted : List Timer) × (count_down ts ≡ some counted)
      × (deadlines now ts ≡ deadlines (now + 1) counted)
unfolding count_down deadlines AllFrom
counted_down now [] h = ([], refl, refl)
counted_down now (t ∷ ts) h =
    let live : (t.expires == 0) ≡ false = ground (arith, h.0) in
    let same : now + t.expires ≡ now + 1 + (t.expires - 1) = omega (arith, h.0) in
    (
      record t { expires = t.expires - 1 } ∷ ts,
      ap (λ b. assert (not b) >> some (record t { expires = t.expires - 1 } ∷ ts)) live,
      ap (λ (k : ℕ). record { timer = t.ptr; proc = t.proc; tick = k } ∷ deadlines k ts) same,
    )

module _ {Q : Type 0} (c : SchedClass Q) where
  -- The processes of the timers are woken one after the other.
  unfoldable pub wake_all : List Timer → Sched Q → Option (Sched Q)
  wake_all [] s = some s
  wake_all (t ∷ ts) s = wake_due c t.proc s >>= λ s'. wake_all ts s'

  fire_lem :
      (ts : List Timer) (s : Sched Q)
      → fire c ts s ≡ (wake_all (due ts) s >>= λ s'. some (pending ts, s'))
  unfolding fire wake_all due pending
  fire_lem [] s = refl
  fire_lem (t ∷ ts) s =
      let first : Bool → List Timer = λ b. if b then t ∷ due ts else [] in
      let rest : Bool → List Timer = λ b. if b then pending ts else t ∷ ts in
      let Alike : Bool → Type 0 = λ b.
        (if b then (wake_due c t.proc s >>= λ s'. fire c ts s') else some (t ∷ ts, s))
        ≡ (wake_all (first b) s >>= λ s'. some (rest b, s')) in
      elim (Bool-cases (t.expires == 0)) [
        | inl z ↦ subst Alike (sym z) (
            bind_congr (wake_due c t.proc s) (fire_lem ts)
            ∙ sym (bind_assoc (wake_due c t.proc s) (λ s'. wake_all (due ts) s') _))
        | inr n ↦ subst Alike (sym n) refl
      ]

  -- What the clock makes of a list of timers whose first one is not due yet.
  pub record Ticked (now : ℕ) (s : Sched Q) (run : Option (Sched Q)) : Type 0 where
    pub fired : List Timer
    pub left : List Timer
    pub dues : deadlines now s.timers ≡ due_at (now + 1) fired ++ deadlines (now + 1) left
    pub later : AllFrom (now + 2) (deadlines (now + 1) left)
    pub runs : run ≡ (
        wake_all fired s >>= λ s'.
        some (sched_class_proc_tick c s.current (record s' { timers = left })))

  -- `run_timer_list` with no timer due at present wakes the processes of the timers that are due
  -- at the next tick, in their order, keeps the ticks of all the others, which are due later,
  -- and then lets the scheduling class count the tick of the process that runs.
  pub run_timer_list_lem :
      (now : ℕ) (s : Sched Q)
      → AllFrom (now + 1) (deadlines now s.timers)
      → Ticked now s (run_timer_list c s)
  unfolding run_timer_list
  run_timer_list_lem now s h =
      let (counted, e, same) = counted_down now s.timers h in
      let parts = due-deadlines (now + 1) counted in
      record {
        fired = due counted;
        left = pending counted;
        dues = same ∙ parts.0;
        later = AllFrom-weaken (now + 2) (now + 1 + 1) _ (omega arith) parts.1;
        runs =
            bind-some _ _ e
            ∙ ap
                (λ m.
                  m >>= λ r. some (sched_class_proc_tick c s.current (record r.1 { timers = r.0 })))
                (fire_lem counted s)
            ∙ bind_assoc (wake_all (due counted) s) _ _;
      }
