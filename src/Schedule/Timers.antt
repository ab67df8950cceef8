-- ===== src/Schedule/Timers.antt =====
-- kern/schedule/sched.c: the list of timers, in which each timer holds the ticks after the one in
-- front of it.
pub mod Deadlines
pub mod Add
pub mod Del
mod Tests
use hard_core.Prelude.{
  ℕ, zero, suc, ◌+◌, ◌-◌, ◌*◌, ◌/◌, ◌%◌, ◌^◌, ◌≤◌, ◌<◌, min, max, ◌≡◌, refl, sym, ap, ap₂, ◌∙◌,
  subst, ◌≢◌, ◌↔◌, ◌⊎◌, inl, inr, Bool, true, false, not, ◌&&◌, ◌||◌, Option, none, some, List, [],
  ◌∷◌, ◌++◌, map, arith, ltb, leb, ◌==◌, if◌then◌else◌, ltb→lt, lt→ltb, leb→le, ==_iff, tests,
  Bool-cases, Option-cases, length, get_elem?, set, length-append, length-set, get_elem?-set_self,
  get_elem?-set_ne, get_or, take, drop, replicate, take-append-drop, length-take, length-drop,
  length-replicate, length-map, lt_of_get, set-set, set_self, has, ◌∈◌, ◌∉◌, has-append, Distinct,
  Apart, Distinct-split, Distinct-join, snoc_view, Distinct-insert, Distinct-remove,
  Distinct-remove_after, has-ne, ◌>>=◌, ◌>>◌, assert, bind-some,
}

-- `timer_t`, with the address it stands at; `expires` is a 32-bit word, and the address of a
-- process that is no process is 0.
pub record Timer : Type 0 where
  pub ptr : ℕ
  pub expires : ℕ
  pub proc : ℕ

abbrev pub is_timer : ℕ → Timer → Bool
is_timer p t = t.ptr == p

-- A timer is linked when the list has it: `list_empty` of its link is false.
unfoldable pub linked : ℕ → List Timer → Bool
linked p [] = false
linked p (t ∷ ts) = is_timer p t || linked p ts

-- The walk of `add_timer`.
unfoldable pub place : Timer → List Timer → List Timer
place t [] = t ∷ []
place t (n ∷ ns) =
    if ltb t.expires n.expires
    then t ∷ record n { expires = n.expires - t.expires } ∷ ns
    else n ∷ place (record t { expires = t.expires - n.expires }) ns

unfoldable pub add_timer : Timer → List Timer → Option (List Timer)
add_timer t ts = do
  assert (ltb 0 t.expires && not (t.proc == 0))
  assert (not (linked t.ptr ts))
  some (place t ts)

-- The ticks of a timer that is taken out go to the next one.
unfoldable pub give_back : Timer → List Timer → List Timer
give_back t [] = []
give_back t (n ∷ ns) =
    if t.expires == 0 then n ∷ ns else record n { expires = (n.expires + t.expires) % 2 ^ 32 } ∷ ns

-- A timer that is not linked is let alone.
unfoldable pub del_timer : ℕ → List Timer → List Timer
del_timer p [] = []
del_timer p (t ∷ ts) = if is_timer p t then give_back t ts else t ∷ del_timer p ts

-- The part of `run_timer_list` that counts down.
unfoldable pub count_down : List Timer → Option (List Timer)
count_down [] = some []
count_down (t ∷ ts) =
    assert (not (t.expires == 0)) >> some (record t { expires = t.expires - 1 } ∷ ts)
