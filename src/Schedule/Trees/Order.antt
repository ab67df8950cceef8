-- ===== src/Schedule/Trees/Order.antt =====
-- kern/schedule/stride_rb_tree.c, kern/schedule/cfs_rb_tree.c: the order of the nodes.
use hard_core.Prelude.{
  ℕ, ◌+◌, ◌-◌, ◌%◌, ◌^◌, ◌≤◌, ◌<◌, ◌≡◌, ◌≢◌, ◌⊎◌, inl, inr, Bool, false, not, ◌&&◌, ◌||◌, arith,
  ltb, leb, ◌==◌, if◌then◌else◌, ltb→lt, leb→le, Bool-cases,
}
use hard_core.Schedule.Trees.{pos, neg, is_neg, compare_stride_node, compare_cfs_node}

-- How far a stride lies behind a base, as words.
abbrev pub ahead : ℕ → ℕ → ℕ
ahead base x = (x + 2 ^ 32 - base) % 2 ^ 32

-- The order by a key and then by the number.
abbrev pub before : (key pid : ℕ → ℕ) → ℕ → ℕ → Bool
before key pid a b = ltb (key a) (key b) || ((key a == key b) && ltb (pid a) (pid b))

sub_le : (x y : ℕ) → y ≤ x → x < 2 ^ 32 → (x + 2 ^ 32 - y) % 2 ^ 32 ≡ x - y
sub_le x y h k = omega arith

sub_gt : (x y : ℕ) → x < y → y < 2 ^ 32 → (x + 2 ^ 32 - y) % 2 ^ 32 ≡ x + 2 ^ 32 - y
sub_gt x y h k = omega arith

-- How a difference of words compares the distances from a base.
data Compared (c da db : ℕ) : Type 0 where
  equal : c ≡ 0 → da ≡ db → Compared c da db
  more : (c == 0) ≡ false → c < 2 ^ 31 → db < da → Compared c da db
  less : (c == 0) ≡ false → 2 ^ 31 ≤ c → da < db → Compared c da db

of_difference :
    (c a b base da db : ℕ)
    → da < 2 ^ 31
    → db < 2 ^ 31
    → ((a ≡ base + da) ⊎ (a + 2 ^ 32 ≡ base + da))
    → ((b ≡ base + db) ⊎ (b + 2 ^ 32 ≡ base + db))
    → a < 2 ^ 32
    → b < 2 ^ 32
    → ((a ≡ b + c) ⊎ (a + 2 ^ 32 ≡ b + c))
    → c < 2 ^ 32
    → Compared c da db
of_difference c a b base da db wa wb ea eb ha hb ec hc = elim (Bool-cases (c == 0)) [
  | inl z ↦ equal (ground arith) (grind arith)
  | inr n ↦
      let positive : 0 < c = ground arith in
      elim (Bool-cases (ltb c (2 ^ 31))) [
        | inl l ↦ let l' = ltb→lt c (2 ^ 31) l in more n l' (grind arith)
        | inr g ↦ let g' : 2 ^ 31 ≤ c = ground arith in less n g' (grind arith)
      ]
]

signs :
    (c da db p q : ℕ)
    → p ≢ q
    → Compared c da db
    → is_neg (
        if not (c == 0)
        then (if ltb c (2 ^ 31) then pos else neg)
        else (if ltb q p then pos else neg))
      ≡ (ltb da db || ((da == db) && ltb p q))
signs c da db p q n (equal z e) = ground arith
signs c da db p q n (more z l g) = ground arith
signs c da db p q n (less z l g) = ground arith

word_sub :
    (x y : ℕ)
    → x < 2 ^ 32
    → y < 2 ^ 32
    → (x ≡ y + (x + 2 ^ 32 - y) % 2 ^ 32) ⊎ (x + 2 ^ 32 ≡ y + (x + 2 ^ 32 - y) % 2 ^ 32)
word_sub x y h k = elim (Bool-cases (leb y x)) [
  | inl t ↦ let l = leb→le y x t in let e = sub_le x y l h in inl (omega arith)
  | inr f ↦ let l : x < y = ground arith in let e = sub_gt x y l k in inr (omega arith)
]

-- Strides that lie less than 2 ^ 31 behind a base compare by how far they do.
pub compare_stride_lem :
    (stride pid : ℕ → ℕ) (base a b : ℕ)
    → base < 2 ^ 32
    → stride a < 2 ^ 32
    → stride b < 2 ^ 32
    → ahead base (stride a) < 2 ^ 31
    → ahead base (stride b) < 2 ^ 31
    → pid a ≢ pid b
    → is_neg (compare_stride_node stride pid a b) ≡ before (λ x. ahead base (stride x)) pid a b
unfolding compare_stride_node
compare_stride_lem stride pid base a b h ha hb wa wb n =
    let c = (stride a + 2 ^ 32 - stride b) % 2 ^ 32 in
    let da = ahead base (stride a) in
    let db = ahead base (stride b) in
    signs c da db (pid a) (pid b) n (
      of_difference c (stride a) (stride b) base da db wa wb (word_sub (stride a) base ha h)
        (word_sub (stride b) base hb h) ha hb (word_sub (stride a) (stride b) ha hb) (omega arith))

pub compare_cfs_lem :
    (vruntime pid : ℕ → ℕ) (a b : ℕ)
    → pid a ≢ pid b
    → is_neg (compare_cfs_node vruntime pid a b) ≡ before vruntime pid a b
unfolding compare_cfs_node
compare_cfs_lem vruntime pid a b n = ground arith
