-- ===== src/Schedule/Timers/Add.antt =====
-- `add_timer`, seen from the ticks at which the timers are due.
use hard_core.Prelude.{
  ℕ, ◌+◌, ◌-◌, ◌<◌, ◌≡◌, refl, ap, ◌∙◌, subst, inl, inr, Bool, true, false, not, ◌&&◌, some, List,
  [], ◌∷◌, ◌++◌, arith, ltb, ◌==◌, if◌then◌else◌, Bool-cases, assert, bind-some,
}
use hard_core.Schedule.Timers.{Timer, place, add_timer, linked}
use hard_core.Schedule.Timers.Deadlines.{
  Due, deadlines, AllUpTo, AllFrom, AllFrom-weaken, AllFrom-deadlines,
}

-- A due timer among others: those up to its tick stand in front of it, the later ones behind.
pub record Placed (d : Due) (old new : List Due) : Type 0 where
  pub front : List Due
  pub back : List Due
  pub before : old ≡ front ++ back
  pub after : new ≡ front ++ (d ∷ back)
  pub up_to : AllUpTo d.tick front
  pub later : AllFrom (d.tick + 1) back

place_lem :
    (now : ℕ) (t : Timer) (ts : List Timer)
    → Placed
        (record { timer = t.ptr; proc = t.proc; tick = now + t.expires })
        (deadlines now ts)
        (deadlines now (place t ts))
unfolding place deadlines AllUpTo AllFrom
place_lem now t [] = record {
  front = [];
  back = [];
  before = refl;
  after = refl;
  up_to = tt;
  later = tt;
}
place_lem now t (n ∷ ns) =
    let choose : Bool → List Timer = λ b.
      if b
      then t ∷ record n { expires = n.expires - t.expires } ∷ ns
      else n ∷ place (record t { expires = t.expires - n.expires }) ns in
    elim (Bool-cases (ltb t.expires n.expires)) [
      | inl h ↦
          let same : now + t.expires + (n.expires - t.expires) ≡ now + n.expires = ground arith in
          record {
            front = [];
            back = deadlines now (n ∷ ns);
            before = refl;
            after =
                ap (λ b. deadlines now (choose b)) h
                ∙ ap
                    (λ (k : ℕ).
                      record { timer = t.ptr; proc = t.proc; tick = now + t.expires }
                      ∷ record { timer = n.ptr; proc = n.proc; tick = k }
                      ∷ deadlines k ns)
                    same;
            up_to = tt;
            later = (
              ground arith,
              AllFrom-weaken _ (now + n.expires) _ (ground arith)
                  (AllFrom-deadlines (now + n.expires) ns),
            );
          }
      | inr h ↦
          let r = place_lem (now + n.expires) (record t { expires = t.expires - n.expires }) ns in
          let same : now + n.expires + (t.expires - n.expires) ≡ now + t.expires = ground arith in
          let moved =
            subst
              (λ (k : ℕ).
                Placed (record { timer = t.ptr; proc = t.proc; tick = k })
                  (deadlines (now + n.expires) ns)
                  (deadlines (now + n.expires)
                    (place (record t { expires = t.expires - n.expires }) ns)))
              same r in
          let first : Due = record { timer = n.ptr; proc = n.proc; tick = now + n.expires } in
          record {
            front = first ∷ moved.front;
            back = moved.back;
            before = ap (λ (l : List Due). first ∷ l) moved.before;
            after =
                ap (λ b. deadlines now (choose b)) h ∙ ap (λ (l : List Due). first ∷ l) moved.after;
            up_to = (ground arith, moved.up_to);
            later = moved.later;
          }
    ]

-- `add_timer` takes a timer that is not linked, counts at least one tick and has a process. It is
-- then due in that many ticks, behind those due up to then and in front of the later ones, and
-- every other timer is due when it was before.
pub add_timer_lem :
    (now : ℕ) (t : Timer) (ts : List Timer)
    → 0 < t.expires
    → 0 < t.proc
    → linked t.ptr ts ≡ false
    → (new : List Timer) × (add_timer t ts ≡ some new)
      × Placed
          (record { timer = t.ptr; proc = t.proc; tick = now + t.expires })
          (deadlines now ts)
          (deadlines now new)
unfolding add_timer
add_timer_lem now t ts h p l =
    let fresh : (ltb 0 t.expires && not (t.proc == 0)) ≡ true = ground arith in
    (
      place t ts,
      bind-some _ _ (ap assert fresh) ∙ bind-some _ _ (ap (λ b. assert (not b)) l),
      place_lem now t ts,
    )
