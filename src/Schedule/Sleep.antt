-- ===== src/Schedule/Sleep.antt =====
-- kern/process/proc.c, `do_sleep`, among the events of a run: ticks of the clock, switches of the
-- process, and processes that go to sleep or are woken.
pub mod Due
pub mod Awake
pub mod Runs
mod Tests
use hard_core.Prelude.{
  ℕ, zero, suc, ◌+◌, ◌-◌, ◌*◌, ◌/◌, ◌%◌, ◌^◌, ◌≤◌, ◌<◌, min, max, ◌≡◌, refl, sym, ap, ap₂, ◌∙◌,
  subst, ◌≢◌, ◌↔◌, ◌⊎◌, inl, inr, Bool, true, false, not, ◌&&◌, ◌||◌, Option, none, some, List, [],
  ◌∷◌, ◌++◌, map, arith, ltb, leb, ◌==◌, if◌then◌else◌, ltb→lt, lt→ltb, leb→le, ==_iff, tests,
  Bool-cases, Option-cases, length, get_elem?, set, length-append, length-set, get_elem?-set_self,
  get_elem?-set_ne, get_or, take, drop, replicate, take-append-drop, length-take, length-drop,
  length-replicate, length-map, lt_of_get, set-set, set_self, has, ◌∈◌, ◌∉◌, has-append, Distinct,
  Apart, Distinct-split, Distinct-join, snoc_view, Distinct-insert, Distinct-remove,
  Distinct-remove_after, has-ne, ◌>>=◌, ◌>>◌, assert, bind-some, past_assert, bind_assoc,
  bind_congr, if-both, Distinct-snoc, past_bind, without, length-without, has-without,
  has-without_ne, has-without_le, Distinct-without, has-map, of_has-map, has-map-without, map_congr,
  held_le,
}
use hard_core.Schedule.Timers.{Timer, add_timer}
use hard_core.Schedule.Sched.{
  proc_sleeping, SchedClass, Sched, set_proc, wakeup_proc, schedule, run_timer_list,
}

abbrev pub wt_timer : ℕ
wt_timer = 0x80000002

pub data Event : Type 0 where
  tick switch : Event
  wake : ℕ → Event
  sleep : ℕ → ℕ → Event

unfoldable pub ticks : List Event → ℕ
ticks [] = 0
ticks (tick ∷ es) = ticks es + 1
ticks (switch ∷ es) = ticks es
ticks (wake p ∷ es) = ticks es
ticks (sleep a time ∷ es) = ticks es

module _ {Q : Type 0} (sched_class : SchedClass Q) where
  -- `do_sleep` up to `schedule`, with the address of the timer on its stack.
  unfoldable pub do_sleep : ℕ → ℕ → Sched Q → Option (Sched Q)
  do_sleep a time s =
      let v = s.procs s.current in
      let s' = set_proc s.current (record v { state = proc_sleeping; wait_state = wt_timer }) s in
      if time == 0
      then some s
      else (add_timer (record { ptr = a; expires = time; proc = s.current }) s'.timers >>= λ ts.
          some (schedule sched_class (record s' { timers = ts })))

  unfoldable pub step : Event → Sched Q → Option (Sched Q)
  step tick s = run_timer_list sched_class s
  step switch s = some (schedule sched_class s)
  step (wake p) s = wakeup_proc sched_class p s
  step (sleep a time) s = do_sleep a time s

  unfoldable pub run : List Event → Sched Q → Option (Sched Q)
  run [] s = some s
  run (e ∷ es) s = step e s >>= λ s'. run es s'
