-- ===== src/Libs/Ring/Tests.antt =====
-- Runs of the ring operations, and their theorems at a concrete ring.
use hard_core.Prelude.{◌+◌, ◌-◌, ◌≡◌, refl, true, [], ◌∷◌, arith, ◌==◌, if◌then◌else◌}
use hard_core.Libs.Ring.{
  Store, list_init, list_add, list_add_before, list_add_after, list_del, list_empty,
}
use hard_core.Libs.Ring.Insert.{
  IsRing, list_add-IsRing, list_add_after-IsRing, list_add_before-IsRing, add_before_head-IsRing,
}
use hard_core.Libs.Ring.Delete.{list_del-IsRing, replace-IsRing}

-- The ring 1, 2, 3 with the head 0.
abbrev three : Store
three = record { prev = λ a. if a == 0 then 3 else a - 1; next = λ a. if a == 3 then 0 else a + 1 }

three-IsRing : IsRing three 0 (1 ∷ 2 ∷ 3 ∷ [])
three-IsRing = record { links = omega arith; distinct = ground arith }

list_add-IsRing_example : IsRing (list_add 0 7 three) 0 (7 ∷ 1 ∷ 2 ∷ 3 ∷ [])
list_add-IsRing_example = list_add-IsRing three 0 7 (1 ∷ 2 ∷ 3 ∷ []) three-IsRing refl

list_add_after-IsRing_example : IsRing (list_add_after 2 7 three) 0 (1 ∷ 2 ∷ 7 ∷ 3 ∷ [])
list_add_after-IsRing_example =
    list_add_after-IsRing three 0 7 (1 ∷ []) 2 (3 ∷ []) three-IsRing refl

list_add_before-IsRing_example : IsRing (list_add_before 2 7 three) 0 (1 ∷ 7 ∷ 2 ∷ 3 ∷ [])
list_add_before-IsRing_example =
    list_add_before-IsRing three 0 7 (1 ∷ []) 2 (3 ∷ []) three-IsRing refl

add_before_head-IsRing_example : IsRing (list_add_before 0 7 three) 0 (1 ∷ 2 ∷ 3 ∷ 7 ∷ [])
add_before_head-IsRing_example = add_before_head-IsRing three 0 7 (1 ∷ 2 ∷ 3 ∷ []) three-IsRing refl

list_del-IsRing_example : IsRing (list_del 2 three) 0 (1 ∷ 3 ∷ [])
list_del-IsRing_example = list_del-IsRing three 0 2 (1 ∷ []) (3 ∷ []) three-IsRing

replace-IsRing_example :
    IsRing (list_del 2 (list_add_after 2 7 (list_del 2 three))) 0 (1 ∷ 7 ∷ 3 ∷ [])
replace-IsRing_example = replace-IsRing three 0 2 (1 ∷ []) (3 ∷ []) 7 three-IsRing refl

emptied : list_empty 5 (list_del 6 (list_add 5 6 (list_init 5 three))) ≡ true
unfolding list_empty list_del list_add list_init
emptied = refl
