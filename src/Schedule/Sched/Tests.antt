-- ===== src/Schedule/Sched/Tests.antt =====
-- The scheduler and the clock with the fair class, and with one that serves in order.
use hard_core.Prelude.{
  ℕ, none, Option, ◌+◌, ◌≡◌, refl, sym, ap, ◌∙◌, inl, inr, false, not, ◌&&◌, ◌||◌, some, List, [],
  ◌∷◌, arith, ◌==◌, if◌then◌else◌, Bool-cases, has,
}
use hard_core.Schedule.Timers.Deadlines.{deadlines, AllFrom}
use hard_core.Schedule.Timers.{count_down}
use hard_core.Schedule.Sched.{
  fire, wake_due, interruptible, proc_uninit, proc_sleeping, proc_runnable, is_runnable, Proc,
  Sched, wakeup_proc, schedule, run_timer_list,
}
use hard_core.Schedule.Sched.Balance.{IsBalanced, Picked, schedule-Picked}
use hard_core.Schedule.Sched.Sample.{in_order}
use hard_core.Schedule.Trees.{leaf, node, nodes}
use hard_core.Schedule.Cfs.{CfsQueue}
use hard_core.Schedule.Cfs.Sample.{fair, fair_laws, fair_queue, one-CfsValid}
use hard_core.Schedule.Sched.Clock.{run_timer_list-IsBalanced}
use hard_core.Schedule.Sched.Tick.{Ticked, run_timer_list_lem}

abbrev runnable : Proc
runnable = record { state = proc_runnable; wait_state = 0; need_resched = false; runs = 0 }

-- Process 7 runs, process 8 waits, and process 9 sleeps; process 1 is idle.
abbrev three_procs : ℕ → Proc
three_procs p =
    if p == 7
    then runnable
    else if p == 8
    then runnable
    else if p == 9
    then record runnable { state = proc_sleeping; wait_state = 0x80000002 }
    else record runnable { state = proc_uninit }

abbrev busy_with : {Q : Type 0} → Q → Sched Q
busy_with q = record {
  procs = three_procs;
  current = 7;
  idleproc = 1;
  queue = q;
  timers = record { ptr = 50; expires = 1; proc = 9 } ∷ [];
}

abbrev busy : Sched (List ℕ)
busy = busy_with (8 ∷ [])

abbrev busy_fair : Sched CfsQueue
busy_fair = busy_with (fair_queue (node leaf 8 leaf))

runnable_procs : (r : ℕ) → is_runnable (three_procs r).state ≡ ((r == 7) || (r == 8))
runnable_procs r = elim (Bool-cases (r == 7)) [
  | inl a ↦ rw (a) refl
  | inr a ↦ elim (Bool-cases (r == 8)) [
    | inl b ↦ rw (a, b) refl
    | inr b ↦ elim (Bool-cases (r == 9)) [ inl d ↦ rw (a, b, d) refl | inr d ↦ rw (a, b, d) refl ]
  ]
]

busy_fair-IsBalanced : IsBalanced fair_laws busy_fair
unfolding IsBalanced nodes
busy_fair-IsBalanced = (
  one-CfsValid 8,
  λ r.
      let waiting : (has r (8 ∷ [])) ≡ ((((r == 7) || (r == 8)) && not (r == 1)) && not (r == 7)) =
        ground arith in
      waiting ∙ ap (λ b. (b && not (r == 1)) && not (r == 7)) (sym (runnable_procs r)),
)

schedule-Picked_example : Picked fair_laws busy_fair (schedule fair busy_fair)
schedule-Picked_example = schedule-Picked fair_laws busy_fair busy_fair-IsBalanced

none_due : AllFrom (100 + 1) (deadlines 100 busy.timers)
unfolding AllFrom deadlines
none_due = (ground arith, tt)

run_timer_list_lem_example : Ticked in_order 100 busy (run_timer_list in_order busy)
run_timer_list_lem_example = run_timer_list_lem in_order 100 busy none_due

abbrev after_tick : Option (Sched CfsQueue) → Sched CfsQueue
after_tick none = busy_fair
after_tick (some s) = s

ticks : run_timer_list fair busy_fair ≡ some (after_tick (run_timer_list fair busy_fair))
unfolding run_timer_list fire count_down wake_due interruptible wakeup_proc
ticks = refl

run_timer_list-IsBalanced_example :
    IsBalanced fair_laws (after_tick (run_timer_list fair busy_fair))
run_timer_list-IsBalanced_example =
    run_timer_list-IsBalanced fair_laws busy_fair ticks busy_fair-IsBalanced
