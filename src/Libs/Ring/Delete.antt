-- ===== src/Libs/Ring/Delete.antt =====
-- `list_del` and `list_del_init` on a ring, and the two deletions of kern/mm/default_pmm.c.
use hard_core.Prelude.{
  ◌≡◌, refl, ◌≢◌, ◌↔◌, inl, inr, true, false, List, [], ◌∷◌, ◌++◌, arith, ◌==◌, ◌∈◌, ◌∉◌,
  has-append, has-ne, Distinct, snoc_view, Distinct-remove, Distinct-split, Distinct-remove_after,
}
use mathlib.Core.Path.{fun_ext}
use mathlib.Core.List.{append_assoc}
use hard_core.Libs.Ring.{
  list_init, list_del_init, Entry, Store, list_add_after, list_del, list_empty,
}
use hard_core.Libs.Ring.Links
use hard_core.Libs.Ring.Links.{Links, SameOn}
use hard_core.Libs.Ring.Insert.{IsRing, around, list_add_after-IsRing}

Store_eq :
    {s t : Store}
    → ((x : Entry) → s.prev x ≡ t.prev x)
    → ((x : Entry) → s.next x ≡ t.next x)
    → s ≡ t
Store_eq p n = λ i. record { prev = fun_ext p i; next = fun_ext n i }

module _ (s : Store) (b e : Entry) where
  -- Behind `b` the walk goes on with what stood behind `e`.
  del_right :
      (ys : List Entry) (z : Entry)
      → (s.next b ≡ e) × (s.prev e ≡ b)
      → Links s e ys z
      → b ∉ ys
      → z ∉ ys
      → Distinct ys
      → Links (list_del e s) b ys z
  unfolding list_del
  del_right [] z be l b_out z_out d = (ground arith, ground arith)
  del_right (c ∷ ys) z be l b_out z_out d = (
    ground arith,
    ground arith,
    Links.frame s (list_del e s) c ys z
        (record { next = λ x h. ground arith; prev = λ x h. ground arith }) l.2,
  )

  -- In front of `b` nothing that a walk reads changes.
  del_left :
      (a : Entry) (xs : List Entry)
      → Links s a xs b
      → s.prev e ≡ b
      → b ∉ (a ∷ xs)
      → s.next e ∉ xs
      → (s.next e == b) ≡ false
      → Links (list_del e s) a xs b
  unfolding list_del
  del_left a xs l p b_out c_out c_b =
      Links.frame s (list_del e s) a xs b
        (record { next = λ x h. ground arith; prev = λ x h. ground arith }) l

module _ (s : Store) (h e : Entry) where
  del_first : (ys : List Entry) → IsRing s h (e ∷ ys) → IsRing (list_del e s) h ys
  del_first ys r = record {
    links =
        del_right s h e ys h (r.links.0, r.links.1) r.links.2 (ground arith) (ground arith)
          r.distinct.1.1;
    distinct = Distinct-remove (h ∷ []) e ys r.distinct;
  }

  del_away :
      (zs : List Entry) (b : Entry) (ys : List Entry)
      → Links s e ys h
      → Distinct (h ∷ (zs ++ (b ∷ e ∷ ys)))
      → (s.next e ∉ zs) × ((s.next e == b) ≡ false)
  del_away zs b [] l d =
      let a = around h zs b (e ∷ []) d in ground (arith, has-append h zs (b ∷ e ∷ []))
  del_away zs b (c ∷ ys) l d = let a = around h zs b (e ∷ c ∷ ys) d in ground (arith, a.disjoint c)

  del_middle :
      (zs : List Entry) (b : Entry) (ys : List Entry)
      → IsRing s h (zs ++ (b ∷ e ∷ ys))
      → IsRing (list_del e s) h (zs ++ (b ∷ ys))
  del_middle zs b ys r =
      let a = around h zs b (e ∷ ys) r.distinct in
      let l = Links.split s h zs b (e ∷ ys) h r.links in
      let n = del_away zs b ys l.1.2 r.distinct in
      record {
        links =
            Links.join (list_del e s) h zs b ys h (del_left s b e h zs l.0 l.1.1 a.b_xs n.0 n.1) (
              del_right s b e ys h (l.1.0, l.1.1) l.1.2 (ground arith) (ground arith) a.distinct.1);
        distinct = Distinct-remove_after (h ∷ zs) b e ys r.distinct;
      }

  -- `list_del` takes the entry out of the ring and keeps the order of the others.
  pub list_del-IsRing :
      (xs ys : List Entry) → IsRing s h (xs ++ (e ∷ ys)) → IsRing (list_del e s) h (xs ++ ys)
  list_del-IsRing xs ys = elim (snoc_view xs) [
    | inl z ↦ rw z (del_first ys)
    | inr (zs, b, z) ↦ rw (z, append_assoc, append_assoc) (del_middle zs b ys)
  ]

  -- `list_del_init` takes the entry out of the ring, and the entry is then a ring of its own.
  pub list_del_init-IsRing :
      (xs ys : List Entry)
      → IsRing s h (xs ++ (e ∷ ys))
      → IsRing (list_del_init e s) h (xs ++ ys) × IsRing (list_del_init e s) e []
  unfolding list_del_init list_init
  list_del_init-IsRing xs ys r =
      let d = list_del-IsRing xs ys r in
      let p = Distinct-split (h ∷ xs) (e ∷ ys) r.distinct in
      let m = has-append e xs ys in
      let out : e ∉ (h ∷ (xs ++ ys)) = ground (arith, p.disjoint e) in
      let t = list_del e s in
      (
        record {
          links =
              Links.frame t (list_init e t) h (xs ++ ys) h
                (record {
                  next = λ x i. ground (arith, has-ne x e (h ∷ (xs ++ ys)));
                  prev = λ x i. ground (arith, has-ne x e (xs ++ ys));
                })
                d.links;
          distinct = d.distinct;
        },
        record { links = (ground arith, ground arith); distinct = (refl, tt) },
      )

  -- `list_empty` tells whether the ring has no entry but its head.
  pub list_empty_iff : (xs : List Entry) → IsRing s h xs → (list_empty h s ≡ true) ↔ (xs ≡ [])
  unfolding list_empty
  list_empty_iff [] r = (λ p. refl, λ p. ground arith)
  list_empty_iff (x ∷ xs) r = (λ p. ground arith, λ p. ground arith)

-- The links of `e` itself are those that it had, so a second `list_del` does nothing more.
module _ (s : Store) (a : Entry) (alone_next : s.next a ≢ a) (alone_prev : s.prev a ≢ a) where
  del-del : list_del a (list_del a s) ≡ list_del a s
  unfolding list_del
  del-del = Store_eq (λ x. ground arith) (λ x. ground arith)

  -- `list_add_after` behind an entry that is already out still finds the place where it was.
  del-add_after-del :
      (p : Entry)
      → p ≢ a
      → s.next a ≢ p
      → s.prev a ≢ p
      → list_del a (list_add_after a p (list_del a s)) ≡ list_del a (list_add_after a p s)
  unfolding list_del list_add_after
  del-add_after-del p out n q = Store_eq (λ x. ground arith) (λ x. ground arith)

prev_in : (s : Store) (a b : Entry) (xs : List Entry) → Links s b xs a → s.prev a ∈ (b ∷ xs)
prev_in s a b [] l = ground arith
prev_in s a b (x ∷ xs) l = ground (arith, prev_in s a x xs l.2)

module _ (s : Store) (h a : Entry) where
  next_in : (ys : List Entry) → Links s a ys h → s.next a ∈ (h ∷ ys)
  next_in [] l = ground arith
  next_in (c ∷ ys) l = ground arith

  neighbours :
      (xs ys : List Entry)
      → IsRing s h (xs ++ (a ∷ ys))
      → (s.next a ≢ a)
        × (s.prev a ≢ a)
        × ((p : Entry) → p ∉ (h ∷ (xs ++ (a ∷ ys))) → (p ≢ a) × (s.next a ≢ p) × (s.prev a ≢ p))
  neighbours xs ys r =
      let l = Links.split s h xs a ys h r.links in
      let d = around h xs a ys r.distinct in
      let n = next_in ys l.1 in
      let q = prev_in s a h xs l.0 in
      (
        λ e. ground arith,
        λ e. ground arith,
        λ p out.
            let m = has-append p xs (a ∷ ys) in
            (λ e. ground arith, λ e. ground arith, λ e. ground arith),
      )

  -- An entry that is deleted twice, as `default_alloc_pages` does with a block that it does not
  -- split, leaves the ring as one deletion does.
  pub del_twice-IsRing :
      (xs ys : List Entry)
      → IsRing s h (xs ++ (a ∷ ys))
      → IsRing (list_del a (list_del a s)) h (xs ++ ys)
  del_twice-IsRing xs ys r =
      let n = neighbours xs ys r in rw (del-del s a n.0 n.1) (list_del-IsRing s h a xs ys r)

  -- An entry that is deleted, then used as the place behind which another is added, and then
  -- deleted again, as `default_alloc_pages` does with a block that it splits, is replaced by the
  -- other.
  pub replace-IsRing :
      (xs ys : List Entry) (p : Entry)
      → IsRing s h (xs ++ (a ∷ ys))
      → p ∉ (h ∷ (xs ++ (a ∷ ys)))
      → IsRing (list_del a (list_add_after a p (list_del a s))) h (xs ++ (p ∷ ys))
  replace-IsRing xs ys p r out =
      let n = neighbours xs ys r in
      let o = n.2 p out in
      rw (del-add_after-del s a n.0 n.1 p o.0 o.1 o.2) (
        list_del-IsRing (list_add_after a p s) h a xs (p ∷ ys)
          (list_add_after-IsRing s h p xs a ys r out))
