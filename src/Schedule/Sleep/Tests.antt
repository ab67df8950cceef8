-- ===== src/Schedule/Sleep/Tests.antt =====
-- A process that sleeps for two ticks beside another one that is woken at the first.
use hard_core.Prelude.{
  ℕ, ◌+◌, ◌≡◌, refl, false, Option, none, some, List, [], ◌∷◌, ◌==◌, if◌then◌else◌,
}
use hard_core.Schedule.Timers.{place, add_timer, linked, count_down}
use hard_core.Schedule.Sched.{
  Sched, proc_sleeping, proc_runnable, is_runnable, interruptible, sched_class_enqueue,
  sched_class_dequeue, sched_class_proc_tick, make_runnable, wakeup_proc, requeue, pick, run_next,
  schedule, wake_due, fire, run_timer_list,
}
use hard_core.Schedule.Sched.Sample.{in_order}
use hard_core.Schedule.Sleep.{wt_timer, tick, switch, Event, ticks, do_sleep, step, run}
use hard_core.Schedule.Sleep.Awake.{IsAwake}
use hard_core.Schedule.Sleep.Runs.{do_sleep_lem}

-- Process 7 runs, process 8 waits, and process 9 sleeps for one more tick; process 1 is idle.
abbrev start : Sched (List ℕ)
start = record {
  procs = λ p.
      if p == 9
      then record { state = proc_sleeping; wait_state = wt_timer; need_resched = false; runs = 0 }
      else record { state = proc_runnable; wait_state = 0; need_resched = false; runs = 0 };
  current = 7;
  idleproc = 1;
  queue = 8 ∷ [];
  timers = record { ptr = 50; expires = 1; proc = 9 } ∷ [];
}

abbrev reached : Option (Sched (List ℕ)) → Sched (List ℕ)
reached none = start
reached (some s) = s

abbrev between : List Event
between = tick ∷ switch ∷ []

abbrev asleep : Sched (List ℕ)
asleep = reached (do_sleep in_order 60 2 start)

abbrev after_one : Sched (List ℕ)
after_one = reached (run in_order between asleep)

abbrev after_two : Sched (List ℕ)
after_two = reached (run_timer_list in_order after_one)

falls_asleep : do_sleep in_order 60 2 start ≡ some asleep
unfolding do_sleep add_timer linked place
falls_asleep = refl

sleeps : is_runnable (asleep.procs 7).state ≡ false
unfolding do_sleep add_timer linked place schedule requeue pick run_next sched_class_enqueue
    sched_class_dequeue
sleeps = refl

goes_on : run in_order between asleep ≡ some after_one
unfolding do_sleep add_timer linked place schedule requeue pick run_next sched_class_enqueue
    sched_class_dequeue run step run_timer_list count_down fire wake_due interruptible wakeup_proc
    make_runnable
goes_on = refl

two_ticks : ticks between + 1 ≡ 2
unfolding ticks
two_ticks = refl

ticks_again : run_timer_list in_order after_one ≡ some after_two
unfolding do_sleep add_timer linked place schedule requeue pick run_next sched_class_enqueue
    sched_class_dequeue run step run_timer_list count_down fire wake_due interruptible wakeup_proc
    make_runnable sched_class_proc_tick
ticks_again = refl

do_sleep_lem_example : IsAwake 7 after_two
do_sleep_lem_example =
    do_sleep_lem in_order 60 2 between start asleep after_one after_two falls_asleep goes_on
      two_ticks ticks_again
