-- ===== src/Libs/Ring.antt =====
-- libs/list.h: the circular doubly linked list, over an explicit store of `prev` and `next`.
pub mod Links
pub mod Insert
pub mod Delete
mod Tests
use hard_core.Prelude.{ℕ, Bool, ◌==◌, if◌then◌else◌}

-- An entry is known by its address.
abbrev pub Entry : Type 0
Entry = ℕ

pub record Store : Type 0 where
  pub prev : Entry → Entry
  pub next : Entry → Entry

abbrev pub update : (Entry → Entry) → Entry → Entry → Entry → Entry
update f a v b = if b == a then v else f b

abbrev pub set_prev : Entry → Entry → Store → Store
set_prev a v s = record s { prev = update s.prev a v }

abbrev pub set_next : Entry → Entry → Store → Store
set_next a v s = record s { next = update s.next a v }

unfoldable pub list_init : Entry → Store → Store
list_init elm s = set_prev elm elm (set_next elm elm s)

-- `__list_add`: `prev->next = next->prev = elm` writes `next->prev` first.
unfoldable pub list_add_between : (elm prev next : Entry) → Store → Store
list_add_between elm prev next s =
    set_prev elm prev (set_next elm next (set_next prev elm (set_prev next elm s)))

unfoldable pub list_add_before : (listelm elm : Entry) → Store → Store
unfolding list_add_between
list_add_before listelm elm s = list_add_between elm (s.prev listelm) listelm s

unfoldable pub list_add_after : (listelm elm : Entry) → Store → Store
unfolding list_add_between
list_add_after listelm elm s = list_add_between elm listelm (s.next listelm) s

unfoldable pub list_add : (listelm elm : Entry) → Store → Store
unfolding list_add_after
list_add listelm elm s = list_add_after listelm elm s

-- `__list_del`
unfoldable pub list_del_between : (prev next : Entry) → Store → Store
list_del_between prev next s = set_prev next prev (set_next prev next s)

unfoldable pub list_del : Entry → Store → Store
unfolding list_del_between
list_del listelm s = list_del_between (s.prev listelm) (s.next listelm) s

unfoldable pub list_del_init : Entry → Store → Store
unfolding list_del list_init
list_del_init listelm s = list_init listelm (list_del listelm s)

unfoldable pub list_empty : Entry → Store → Bool
list_empty list s = s.next list == list

unfoldable pub list_next : Entry → Store → Entry
list_next listelm s = s.next listelm

unfoldable pub list_prev : Entry → Store → Entry
list_prev listelm s = s.prev listelm
