-- ===== src/Schedule/Timers/Tests.antt =====
-- Two timers, to which a third is added.
use hard_core.Prelude.{◌+◌, ◌^◌, ◌<◌, ◌≡◌, refl, true, false, some, List, [], ◌∷◌, arith}
use hard_core.Schedule.Timers.{Timer, linked, place, add_timer, del_timer}
use hard_core.Schedule.Timers.Deadlines.{deadlines, Words}
use hard_core.Schedule.Timers.Add.{Placed, add_timer_lem}
use hard_core.Schedule.Timers.Del.{total, Removed, del_timer_lem, del-add}

abbrev near : Timer
near = record { ptr = 10; expires = 3; proc = 1 }

abbrev far : Timer
far = record { ptr = 20; expires = 4; proc = 2 }

abbrev middle : Timer
middle = record { ptr = 30; expires = 5; proc = 3 }

abbrev two_timers : List Timer
two_timers = near ∷ far ∷ []

abbrev three_timers : List Timer
three_timers = near ∷ record middle { expires = 2 } ∷ record far { expires = 2 } ∷ []

add_middle : add_timer middle two_timers ≡ some three_timers
unfolding add_timer place linked
add_middle = refl

middle_unlinked : linked 30 two_timers ≡ false
unfolding linked
middle_unlinked = refl

add_timer_lem_example :
    (new : List Timer) × (add_timer middle two_timers ≡ some new)
    × Placed
        (record { timer = 30; proc = 3; tick = 100 + 5 })
        (deadlines 100 two_timers)
        (deadlines 100 new)
add_timer_lem_example =
    add_timer_lem 100 middle two_timers (ground arith) (ground arith) middle_unlinked

two_timers-linked : (total two_timers < 2 ^ 32) × (linked 10 two_timers ≡ true)
unfolding total linked
two_timers-linked = (ground arith, refl)

del_timer_lem_example :
    Removed 10 (deadlines 100 two_timers) (deadlines 100 (del_timer 10 two_timers))
del_timer_lem_example = del_timer_lem 100 10 two_timers two_timers-linked.0 two_timers-linked.1

two_timers-Words : Words two_timers
unfolding Words
two_timers-Words = (ground arith, (ground arith, tt))

del-add_example : del_timer 30 three_timers ≡ two_timers
del-add_example = del-add middle two_timers two_timers-Words middle_unlinked add_middle
