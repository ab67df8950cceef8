-- ===== src/Schedule/Timers/Del.antt =====
-- `del_timer`, seen from the ticks at which the timers are due.
use hard_core.Prelude.{
  ℕ, ◌+◌, ◌-◌, ◌%◌, ◌^◌, ◌<◌, ◌≡◌, refl, sym, ap, ◌∙◌, inl, inr, Bool, true, false, not, ◌&&◌, ◌||◌,
  some, List, [], ◌∷◌, ◌++◌, arith, ltb, ◌==◌, if◌then◌else◌, ltb→lt, Bool-cases, past_assert,
}
use hard_core.Schedule.Timers.{Timer, is_timer, place, add_timer, linked, give_back, del_timer}
use hard_core.Schedule.Timers.Deadlines.{Due, deadlines, Words}

-- The ticks until the last timer.
unfoldable pub total : List Timer → ℕ
total [] = 0
total (t ∷ ts) = t.expires + total ts

give_back-deadlines :
    (now : ℕ) (t : Timer) (ts : List Timer)
    → total (t ∷ ts) < 2 ^ 32
    → deadlines now (give_back t ts) ≡ deadlines (now + t.expires) ts
unfolding give_back deadlines total
give_back-deadlines now t [] h = refl
give_back-deadlines now t (n ∷ ns) h =
    let due : ℕ → List Due =
      λ k. record { timer = n.ptr; proc = n.proc; tick = k } ∷ deadlines k ns in
    let choose : Bool → List Timer =
      λ b. if b then n ∷ ns else record n { expires = (n.expires + t.expires) % 2 ^ 32 } ∷ ns in
    elim (Bool-cases (t.expires == 0)) [
      | inl z ↦
          let same : now + n.expires ≡ now + t.expires + n.expires = ground arith in
          ap (λ b. deadlines now (choose b)) z ∙ ap due same
      | inr z ↦
          let same : now + (n.expires + t.expires) % 2 ^ 32 ≡ now + t.expires + n.expires =
            omega arith in
          ap (λ b. deadlines now (choose b)) z ∙ ap due same
    ]

pub record Removed (p : ℕ) (old new : List Due) : Type 0 where
  pub due : Due
  pub front : List Due
  pub back : List Due
  pub is_it : due.timer ≡ p
  pub before : old ≡ front ++ (due ∷ back)
  pub after : new ≡ front ++ back

-- `del_timer` of a timer that is linked takes its tick out of the ticks at which the timers are
-- due and moves none of the others, when all the ticks together make a 32-bit word.
pub del_timer_lem :
    (now p : ℕ) (ts : List Timer)
    → total ts < 2 ^ 32
    → linked p ts ≡ true
    → Removed p (deadlines now ts) (deadlines now (del_timer p ts))
unfolding del_timer linked deadlines total
del_timer_lem now p [] h l = absurd (cc)
del_timer_lem now p (t ∷ ts) h l =
    let first : Due = record { timer = t.ptr; proc = t.proc; tick = now + t.expires } in
    let choose : Bool → List Timer = λ b. if b then give_back t ts else t ∷ del_timer p ts in
    elim (Bool-cases (is_timer p t)) [
      | inl e ↦ record {
        due = first;
        front = [];
        back = deadlines (now + t.expires) ts;
        is_it = ground arith;
        before = refl;
        after = ap (λ b. deadlines now (choose b)) e ∙ give_back-deadlines now t ts h;
      }
      | inr e ↦
          let r =
            del_timer_lem (now + t.expires) p ts (omega arith)
              (sym (ap (λ b. b || linked p ts) e) ∙ l) in
          record {
            due = r.due;
            front = first ∷ r.front;
            back = r.back;
            is_it = r.is_it;
            before = ap (λ (k : List Due). first ∷ k) r.before;
            after = ap (λ b. deadlines now (choose b)) e ∙ ap (λ (k : List Due). first ∷ k) r.after;
          }
    ]

is_timer_self : (t : Timer) → is_timer t.ptr t ≡ true
is_timer_self t = ground arith

-- The next timer gets back what it gave.
give_back-shared :
    (t n : Timer) (ns : List Timer)
    → t.expires < n.expires
    → n.expires < 2 ^ 32
    → give_back t (record n { expires = n.expires - t.expires } ∷ ns) ≡ n ∷ ns
unfolding give_back
give_back-shared t n ns h k =
    let choose : Bool → List Timer = λ b.
      if b
      then record n { expires = n.expires - t.expires } ∷ ns
      else record n { expires = (n.expires - t.expires + t.expires) % 2 ^ 32 } ∷ ns in
    let with_ticks : ℕ → List Timer = λ e. record n { expires = e } ∷ ns in
    elim (Bool-cases (t.expires == 0)) [
      | inl z ↦
          let same : n.expires - t.expires ≡ n.expires = ground arith in
          ap choose z ∙ ap with_ticks same
      | inr z ↦
          let same : (n.expires - t.expires + t.expires) % 2 ^ 32 ≡ n.expires = omega arith in
          ap choose z ∙ ap with_ticks same
    ]

del_timer-place :
    (t : Timer) (ts : List Timer)
    → Words ts
    → linked t.ptr ts ≡ false
    → del_timer t.ptr (place t ts) ≡ ts
unfolding del_timer place linked Words give_back
del_timer-place t [] w l = ap (λ (b : Bool). if b then [] else t ∷ []) (is_timer_self t)
del_timer-place t (n ∷ ns) w l =
    let shared : Timer = record n { expires = n.expires - t.expires } in
    let choose : Bool → List Timer = λ b.
      if b then t ∷ shared ∷ ns else n ∷ place (record t { expires = t.expires - n.expires }) ns in
    let other : is_timer t.ptr n ≡ false = ground arith in
    let next : linked t.ptr ns ≡ false = ground arith in
    elim (Bool-cases (ltb t.expires n.expires)) [
      | inl h ↦
          ap (λ b. del_timer t.ptr (choose b)) h
          ∙ ap
              (λ (b : Bool).
                if b then give_back t (shared ∷ ns) else t ∷ del_timer t.ptr (shared ∷ ns))
              (is_timer_self t)
          ∙ give_back-shared t n ns (ltb→lt _ _ h) w.0
      | inr h ↦
          let later : Timer = record t { expires = t.expires - n.expires } in
          ap (λ b. del_timer t.ptr (choose b)) h
          ∙ ap
              (λ (b : Bool).
                if b then give_back n (place later ns) else n ∷ del_timer t.ptr (place later ns))
              other
          ∙ ap (λ (l : List Timer). n ∷ l) (del_timer-place later ns w.1 next)
    ]

-- Adding a timer and deleting it again restores the list of timers, down to the ticks that each
-- timer holds, when these are 32-bit words.
pub del-add :
    (t : Timer) (ts : List Timer) {new : List Timer}
    → Words ts
    → linked t.ptr ts ≡ false
    → add_timer t ts ≡ some new
    → del_timer t.ptr new ≡ ts
unfolding add_timer
del-add t ts {new = new} w l e =
    let placed : some (place t ts) ≡ some new =
      past_assert (not (linked t.ptr ts)) _
        (past_assert (ltb 0 t.expires && not (t.proc == 0)) _ e) in
    let same : place t ts ≡ new = cc in ap (del_timer t.ptr) (sym same) ∙ del_timer-place t ts w l
