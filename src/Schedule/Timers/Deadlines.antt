-- ===== src/Schedule/Timers/Deadlines.antt =====
-- What a list of timers stands for: the tick at which each of them is due.
use hard_core.Prelude.{ℕ, ◌+◌, ◌^◌, ◌≤◌, ◌<◌, List, [], ◌∷◌, arith}
use hard_core.Schedule.Timers.{Timer}

pub record Due : Type 0 where
  pub timer : ℕ
  pub proc : ℕ
  pub tick : ℕ

-- The ticks at which the timers are due, from the present tick on.
unfoldable pub deadlines : ℕ → List Timer → List Due
deadlines now [] = []
deadlines now (t ∷ ts) =
    record { timer = t.ptr; proc = t.proc; tick = now + t.expires } ∷ deadlines (now + t.expires) ts

unfoldable pub AllUpTo : ℕ → List Due → Type 0
AllUpTo n [] = Unit
AllUpTo n (d ∷ ds) = (d.tick ≤ n) × AllUpTo n ds

unfoldable pub AllFrom : ℕ → List Due → Type 0
AllFrom n [] = Unit
AllFrom n (d ∷ ds) = (n ≤ d.tick) × AllFrom n ds

pub AllFrom-weaken : (n m : ℕ) (ds : List Due) → n ≤ m → AllFrom m ds → AllFrom n ds
unfolding AllFrom
AllFrom-weaken n m [] l h = tt
AllFrom-weaken n m (d ∷ ds) l h = (omega (arith, h.0), AllFrom-weaken n m ds l h.1)

-- No timer is due before the present.
pub AllFrom-deadlines : (now : ℕ) (ts : List Timer) → AllFrom now (deadlines now ts)
unfolding deadlines AllFrom
AllFrom-deadlines now [] = tt
AllFrom-deadlines now (t ∷ ts) = (
  omega arith,
  AllFrom-weaken now (now + t.expires) _ (omega arith) (AllFrom-deadlines (now + t.expires) ts),
)

-- The numbers of the timers are words.
unfoldable pub Words : List Timer → Type 0
Words [] = Unit
Words (t ∷ ts) = (t.expires < 2 ^ 32) × Words ts
