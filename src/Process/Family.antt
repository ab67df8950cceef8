-- ===== src/Process/Family.antt =====
-- kern/process/proc.c: how processes are linked to their parents and their siblings.
pub mod Chain
pub mod Join
pub mod Leave
pub mod Adopt
use hard_core.Prelude.{
  ℕ, zero, suc, ◌+◌, ◌-◌, ◌*◌, ◌/◌, ◌%◌, ◌^◌, ◌≤◌, ◌<◌, min, max, ◌≡◌, refl, sym, ap, ap₂, ◌∙◌,
  subst, ◌≢◌, ◌↔◌, ◌⊎◌, inl, inr, Bool, true, false, not, ◌&&◌, ◌||◌, Option, none, some, List, [],
  ◌∷◌, ◌++◌, map, arith, ltb, leb, ◌==◌, if◌then◌else◌, ltb→lt, lt→ltb, leb→le, ==_iff, tests,
  Bool-cases, Option-cases, length, get_elem?, set, length-append, length-set, get_elem?-set_self,
  get_elem?-set_ne, get_or, take, drop, replicate, take-append-drop, length-take, length-drop,
  length-replicate, length-map, lt_of_get, set-set, set_self, has, ◌∈◌, ◌∉◌, has-append, Distinct,
  Apart, Distinct-split, Distinct-join, snoc_view, Distinct-insert, Distinct-remove,
  Distinct-remove_after, has-ne, ◌>>=◌, ◌>>◌, assert, bind-some, past_assert, bind_assoc,
  bind_congr, if-both, Distinct-snoc, past_bind,
}
use hard_core.Schedule.Sched.{write}

-- The fields `parent`, `cptr` (the youngest child), `optr` (the next older sibling) and `yptr`
-- (the next younger one) of the processes.
pub record Links : Type 0 where
  pub parent : ℕ → Option ℕ
  pub cptr : ℕ → Option ℕ
  pub optr : ℕ → Option ℕ
  pub yptr : ℕ → Option ℕ

-- `if (q != NULL) q->field = v`
unfoldable pub mark : Option ℕ → Option ℕ → (ℕ → Option ℕ) → ℕ → Option ℕ
mark none v f = f
mark (some q) v f = write f q v

-- `set_links` behind `list_add`: the process `p` becomes the youngest child of its parent `r`.
unfoldable pub join : ℕ → ℕ → Links → Links
join p r l =
    let head = l.cptr r in
    record l {
      cptr = write l.cptr r (some p);
      optr = write l.optr p head;
      yptr = mark head (some p) (write l.yptr p none);
    }

-- The `else` of `remove_links`: with no younger sibling the parent points to the older one.
unfoldable pub unlead : Option ℕ → ℕ → Option ℕ → (ℕ → Option ℕ) → ℕ → Option ℕ
unlead none r o f = write f r o
unlead (some y) r o f = f

-- `remove_links` behind `list_del`.
unfoldable pub leave : ℕ → ℕ → Links → Links
leave p r l = record l {
  cptr = unlead (l.yptr p) r (l.optr p) l.cptr;
  optr = mark (l.yptr p) (l.optr p) l.optr;
  yptr = mark (l.optr p) (l.yptr p) l.yptr;
}

-- The loop of `do_exit` on one child `c` of `cur`, which becomes the youngest child of `init`.
unfoldable pub adopt : ℕ → ℕ → ℕ → Links → Links
adopt cur init c l =
    join c init
      (record l { parent = write l.parent c (some init); cptr = write l.cptr cur (l.optr c) })
