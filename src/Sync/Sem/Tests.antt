-- ===== src/Sync/Sem/Tests.antt =====
-- A semaphore with no units, for which process 8 waits while process 7 runs.
use hard_core.Prelude.{ℕ, refl, inl, false, none, List, [], ◌∷◌, arith, ◌==◌, if◌then◌else◌}
use hard_core.Schedule.Sched.{proc_sleeping, proc_runnable, Proc, SchedClass}
use hard_core.Sync.Wait.{wt_interrupted}
use hard_core.Sync.Sem.{Sem, up, down_enter}
use hard_core.Sync.Sem.Asleep.{waiting, AllAsleep, IsValid}
use hard_core.Sync.Sem.Up.{Upped, up_lem}
use hard_core.Sync.Sem.Down.{Entered, down_enter_lem}

abbrev listed : SchedClass (List ℕ)
listed = record {
  enqueue = λ p q. p ∷ q;
  dequeue = λ p q. q;
  pick_next = λ q. (none, q);
  proc_tick = λ p q. (false, q);
}

abbrev proc_7 : Proc
proc_7 = record { state = proc_runnable; wait_state = 0; need_resched = false; runs = 1 }

abbrev sleeper : Proc
sleeper = record { state = proc_sleeping; wait_state = 0x100; need_resched = false; runs = 1 }

abbrev one_waits : Sem (List ℕ)
one_waits = record {
  value = 0;
  wait_queue = record {
    sched = record {
      procs = λ p. if p == 8 then sleeper else proc_7;
      current = 7;
      idleproc = 1;
      queue = [];
      timers = [];
    };
    waits = λ w. record { proc = 8; wakeup_flags = wt_interrupted };
    queue = 50 ∷ [];
  };
}

one_waits-IsValid : IsValid one_waits
unfolding AllAsleep waiting
one_waits-IsValid = record {
  units = inl refl;
  asleep = (refl, refl, tt);
  once = (refl, tt);
  processes = (refl, tt);
}

up_lem_example : Upped listed one_waits (up listed one_waits)
up_lem_example = up_lem listed one_waits one_waits-IsValid

down_enter_lem_example : Entered 60 one_waits (down_enter 60 one_waits)
down_enter_lem_example = down_enter_lem 60 one_waits one_waits-IsValid refl (ground arith) refl
