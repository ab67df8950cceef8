-- ===== src/Libs/Ring/Insert.antt =====
-- `list_init`, `list_add_after`, `list_add_before` and `list_add` on a ring.
use hard_core.Prelude.{
  ◌≡◌, refl, inl, inr, false, List, [], ◌∷◌, ◌++◌, arith, ◌==◌, ◌∈◌, ◌∉◌, has-append, Distinct,
  Distinct-split, snoc_view, Distinct-insert,
}
use mathlib.Core.List.{append_assoc}
use hard_core.Libs.Ring.{Entry, Store, list_init, list_add_after, list_add_before, list_add}
use hard_core.Libs.Ring.Links
use hard_core.Libs.Ring.Links.{Links, SameOn}

-- The head `h` and the entries `xs`, in order, form a ring.
pub record IsRing (s : Store) (h : Entry) (xs : List Entry) : Type 0 where
  pub links : Links s h xs h
  pub distinct : Distinct (h ∷ xs)

pub list_init-IsRing : (s : Store) (h : Entry) → IsRing (list_init h s) h []
unfolding list_init
list_init-IsRing s h = record { links = (ground arith, ground arith); distinct = (refl, tt) }

-- What the two sides of an entry of a ring are apart from.
pub record Around (h : Entry) (xs : List Entry) (b : Entry) (ys : List Entry) : Type 0 where
  pub b_xs : b ∉ (h ∷ xs)
  pub b_ys : b ∉ ys
  pub h_ys : h ∉ ys
  pub distinct : Distinct ys
  pub disjoint : (a : Entry) → a ∈ (h ∷ xs) → a ∉ ys

pub around :
    (h : Entry) (xs : List Entry) (b : Entry) (ys : List Entry)
    → Distinct (h ∷ (xs ++ (b ∷ ys)))
    → Around h xs b ys
around h xs b ys d =
    let p = Distinct-split (h ∷ xs) (b ∷ ys) d in
    record {
      b_xs = ground (arith, p.disjoint b);
      b_ys = p.right.0;
      h_ys = ground (arith, p.disjoint h);
      distinct = p.right.1;
      disjoint = λ a m. ground (arith, p.disjoint a);
    }

module _ (s : Store) (b e : Entry) where
  -- To the right of `b` the new entry comes first.
  insert_right :
      (ys : List Entry) (z : Entry)
      → Links s b ys z
      → b ∉ ys
      → e ∉ (b ∷ ys)
      → (e == z) ≡ false
      → z ∉ ys
      → Distinct ys
      → Links (list_add_after b e s) b (e ∷ ys) z
  unfolding list_add_after
  insert_right [] z l b_out e_out e_z z_out d =
      (ground arith, ground arith, (ground arith, ground arith))
  insert_right (c ∷ ys) z l b_out e_out e_z z_out d = (
    ground arith,
    ground arith,
    (
      ground arith,
      ground arith,
      Links.frame s (list_add_after b e s) c ys z
          (record { next = λ x h. ground arith; prev = λ x h. ground arith }) l.2,
    ),
  )

  -- To the left of `b` nothing that a walk reads changes.
  insert_left :
      (a : Entry) (xs : List Entry)
      → Links s a xs b
      → b ∉ (a ∷ xs)
      → e ∉ (a ∷ xs)
      → (e == b) ≡ false
      → s.next b ∉ xs
      → (s.next b == b) ≡ false
      → Links (list_add_after b e s) a xs b
  unfolding list_add_after
  insert_left a xs l b_out e_out e_b c_out c_b =
      Links.frame s (list_add_after b e s) a xs b
        (record { next = λ x h. ground (arith); prev = λ x h. ground (arith) }) l

next_away :
    (s : Store) (h : Entry) (xs : List Entry) (b : Entry) (ys : List Entry)
    → Links s b ys h
    → Around h xs b ys
    → h ∉ xs
    → (s.next b ∉ xs) × ((s.next b == b) ≡ false)
next_away s h xs b [] l a out = ground arith
next_away s h xs b (c ∷ ys) l a out = ground (arith, a.disjoint c)

module _ (s : Store) (h e : Entry) where
  -- `list_add` on the head puts the new entry first.
  pub list_add-IsRing :
      (xs : List Entry) → IsRing s h xs → e ∉ (h ∷ xs) → IsRing (list_add h e s) h (e ∷ xs)
  unfolding list_add
  list_add-IsRing xs r out = record {
    links =
        insert_right s h e xs h r.links r.distinct.0 out (ground arith) r.distinct.0 r.distinct.1;
    distinct = ground arith;
  }

  -- `list_add_after` puts the new entry behind the one it is given.
  pub list_add_after-IsRing :
      (xs : List Entry) (b : Entry) (ys : List Entry)
      → IsRing s h (xs ++ (b ∷ ys))
      → e ∉ (h ∷ (xs ++ (b ∷ ys)))
      → IsRing (list_add_after b e s) h (xs ++ (b ∷ e ∷ ys))
  list_add_after-IsRing xs b ys r out =
      let a = around h xs b ys r.distinct in
      let l = Links.split s h xs b ys h r.links in
      let n = next_away s h xs b ys l.1 a (ground (arith, has-append h xs (b ∷ ys))) in
      let m = has-append e (h ∷ xs) (b ∷ ys) in
      record {
        links =
            Links.join (list_add_after b e s) h xs b (e ∷ ys) h
              (insert_left s b e h xs l.0 a.b_xs (ground arith) (ground arith) n.0 n.1)
              (insert_right s b e ys h l.1 a.b_ys (ground arith) (ground arith) a.h_ys a.distinct);
        distinct = Distinct-insert (h ∷ xs) b e ys r.distinct out;
      }

  add_before-eq-add_after :
      (b c : Entry) → s.prev c ≡ b → s.next b ≡ c → list_add_before c e s ≡ list_add_after b e s
  unfolding list_add_before list_add_after
  add_before-eq-add_after b c p n = rw (p, n)

  before_first :
      (c : Entry) (ys : List Entry)
      → IsRing s h (c ∷ ys)
      → e ∉ (h ∷ c ∷ ys)
      → IsRing (list_add_before c e s) h (e ∷ c ∷ ys)
  unfolding list_add
  before_first c ys r out =
      rw (add_before-eq-add_after h c r.links.1 r.links.0) (list_add-IsRing (c ∷ ys) r out)

  before_middle :
      (zs : List Entry) (b c : Entry) (ys : List Entry)
      → IsRing s h (zs ++ (b ∷ c ∷ ys))
      → e ∉ (h ∷ (zs ++ (b ∷ c ∷ ys)))
      → IsRing (list_add_before c e s) h (zs ++ (b ∷ e ∷ c ∷ ys))
  before_middle zs b c ys r out =
      let l = (Links.split s h zs b (c ∷ ys) h r.links).1 in
      rw (add_before-eq-add_after b c l.1 l.0) (list_add_after-IsRing zs b (c ∷ ys) r out)

  -- `list_add_before` puts the new entry in front of the one it is given, which is another than
  -- the head.
  pub list_add_before-IsRing :
      (xs : List Entry) (c : Entry) (ys : List Entry)
      → IsRing s h (xs ++ (c ∷ ys))
      → e ∉ (h ∷ (xs ++ (c ∷ ys)))
      → IsRing (list_add_before c e s) h (xs ++ (e ∷ c ∷ ys))
  list_add_before-IsRing xs c ys = elim (snoc_view xs) [
    | inl z ↦ rw z (before_first c ys)
    | inr (zs, b, z) ↦ rw (z, append_assoc, append_assoc) (before_middle zs b c ys)
  ]

  head_nil : IsRing s h [] → e ∉ (h ∷ []) → IsRing (list_add_before h e s) h (e ∷ [])
  unfolding list_add
  head_nil r out = rw (add_before-eq-add_after h h r.links.1 r.links.0) (list_add-IsRing [] r out)

  head_snoc :
      (zs : List Entry) (b : Entry)
      → IsRing s h (zs ++ (b ∷ []))
      → e ∉ (h ∷ (zs ++ (b ∷ [])))
      → IsRing (list_add_before h e s) h (zs ++ (b ∷ e ∷ []))
  head_snoc zs b r out =
      let l = (Links.split s h zs b [] h r.links).1 in
      rw (add_before-eq-add_after b h l.1 l.0) (list_add_after-IsRing zs b [] r out)

  -- On the head it puts the new entry last.
  pub add_before_head-IsRing :
      (xs : List Entry)
      → IsRing s h xs
      → e ∉ (h ∷ xs)
      → IsRing (list_add_before h e s) h (xs ++ (e ∷ []))
  add_before_head-IsRing xs = elim (snoc_view xs) [
    | inl z ↦ rw z head_nil
    | inr (zs, b, z) ↦ rw (z, append_assoc) (head_snoc zs b)
  ]
