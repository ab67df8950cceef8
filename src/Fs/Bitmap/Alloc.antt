-- ===== src/Fs/Bitmap/Alloc.antt =====
-- kern/fs/sfs/bitmap.c: which bit is allocated.
use hard_core.Prelude.{
  ℕ, zero, suc, ◌+◌, ◌-◌, ◌*◌, ◌/◌, ◌%◌, ◌^◌, ◌<◌, ◌≡◌, refl, sym, ap, ◌∙◌, subst, ◌≢◌, inl, inr,
  Bool, true, false, not, Option, none, some, List, [], ◌∷◌, arith, ltb, ◌==◌, ltb→lt, Bool-cases,
  length, ◌>>=◌, bind-some,
}
use hard_core.Fs.Bitmap.{
  Bitmap, word_bits, bit, toggle, find_bit, keep_word, alloc_from, stored, bitmap_alloc, bit_at,
}
use hard_core.Fs.Bitmap.Bits.{bit-toggle_self, bit-toggle_ne, first_bit}

bit_zero : (o : ℕ) → bit 0 o ≡ false
unfolding bit
bit_zero zero = refl
bit_zero (suc o) = bit_zero o

bit_at-head : (w : ℕ) (ws : List ℕ) (i : ℕ) → i < 32 → bit_at (w ∷ ws) i ≡ bit w i
unfolding bit_at
bit_at-head w ws i h =
    let q : i / 32 ≡ 0 = omega arith in let r : i % 32 ≡ i = omega arith in rw (q, r) refl

bit_at-tail : (w : ℕ) (ws : List ℕ) (i : ℕ) → bit_at (w ∷ ws) (i + 32) ≡ bit_at ws i
unfolding bit_at
bit_at-tail w ws i =
    let q : (i + 32) / 32 ≡ suc (i / 32) = omega arith in
    let r : (i + 32) % 32 ≡ i % 32 = omega arith in rw (q, r) refl

bit_at-nil : (i : ℕ) → bit_at [] i ≡ false
unfolding bit_at
bit_at-nil i = bit_zero (i % 32)

-- To say something of every bit, say it of the first word's and of the others'.
every_bit :
    (w : ℕ) (ws : List ℕ) (v : ℕ) (vs : List ℕ) (P : ℕ → Bool → Bool → Type 0)
    → ((i : ℕ) → i < 32 → P i (bit w i) (bit v i))
    → ((i : ℕ) → P (i + 32) (bit_at ws i) (bit_at vs i))
    → (i : ℕ) → P i (bit_at (w ∷ ws) i) (bit_at (v ∷ vs) i)
every_bit w ws v vs P h g i = elim (Bool-cases (ltb i 32)) [
  | inl t ↦
      let l = ltb→lt i 32 t in
      subst (λ b. P i b (bit_at (v ∷ vs) i)) (sym (bit_at-head w ws i l))
        (subst (P i (bit w i)) (sym (bit_at-head v vs i l)) (h i l))
  | inr f ↦
      let e : (i - 32) + 32 ≡ i = ground arith in
      subst (λ z. P z (bit_at (w ∷ ws) z) (bit_at (v ∷ vs) z)) e
        (subst (λ b. P (i - 32 + 32) b (bit_at (v ∷ vs) (i - 32 + 32)))
          (sym (bit_at-tail w ws (i - 32)))
          (subst (P (i - 32 + 32) (bit_at ws (i - 32))) (sym (bit_at-tail v vs (i - 32)))
            (g (i - 32))))
]

abbrev pub AreWords : List ℕ → Type 0
AreWords [] = Unit
AreWords (w ∷ ws) = (w < 2 ^ 32) × AreWords ws

-- The first set bit, and the words with it cleared.
pub record First (ws vs : List ℕ) (r : ℕ) : Type 0 where
  pub free : bit_at ws r ≡ true
  pub first : (i : ℕ) → i < r → bit_at ws i ≡ false
  pub taken : bit_at vs r ≡ false
  pub others : (i : ℕ) → i ≢ r → bit_at vs i ≡ bit_at ws i
  pub words : length vs ≡ length ws

pub data Found (ix : ℕ) (ws : List ℕ) (o : Option (Option (ℕ × List ℕ))) : Type 0 where
  full : o ≡ some none → ((i : ℕ) → bit_at ws i ≡ false) → Found ix ws o
  got : (r : ℕ) (vs : List ℕ) → o ≡ some (some (ix * 32 + r, vs)) → First ws vs r → Found ix ws o

in_head :
    (w : ℕ) (ws : List ℕ) (r : ℕ)
    → r < 32
    → bit w r ≡ true
    → ((k : ℕ) → k < r → bit w k ≡ false)
    → First (w ∷ ws) (toggle w r ∷ ws) r
in_head w ws r l b f = record {
  free = bit_at-head w ws r l ∙ b;
  first = λ i h. bit_at-head w ws i (omega arith) ∙ f i h;
  taken = bit_at-head (toggle w r) ws r l ∙ bit-toggle_self w r ∙ ap not b;
  others =
      every_bit w ws (toggle w r) ws (λ i x y. i ≢ r → y ≡ x)
        (λ i h n. bit-toggle_ne w r i (λ e. n (sym e))) (λ i n. refl);
  words = refl;
}

in_tail :
    (w : ℕ) (ws vs : List ℕ) (r : ℕ)
    → ((k : ℕ) → bit w k ≡ false)
    → First ws vs r
    → First (w ∷ ws) (w ∷ vs) (r + 32)
in_tail w ws vs r z f = record {
  free = bit_at-tail w ws r ∙ f.free;
  first =
      every_bit w ws w vs (λ i x y. i < r + 32 → x ≡ false) (λ i h l. z i)
        (λ i l. f.first i (omega arith));
  taken = bit_at-tail w vs r ∙ f.taken;
  others =
      every_bit w ws w vs (λ i x y. i ≢ r + 32 → y ≡ x) (λ i h n. refl)
        (λ i n. f.others i (λ e. n (ap (λ x. x + 32) e)));
  words = ap suc f.words;
}

in_rest :
    (ix : ℕ) (ws : List ℕ)
    → Found (ix + 1) ws (alloc_from (ix + 1) ws)
    → Found ix (0 ∷ ws) (alloc_from (ix + 1) ws >>= λ o. some (keep_word 0 o))
in_rest ix ws (full e z) =
    full (ap (λ m. m >>= λ o. some (keep_word 0 o)) e)
      (every_bit 0 ws 0 ws (λ i x y. x ≡ false) (λ i h. bit_zero i) z)
in_rest ix ws (got r vs e f) =
    got (r + 32) (0 ∷ vs)
      (ap (λ m. m >>= λ o. some (keep_word 0 o)) e
        ∙ ap (λ n. some (some (n, 0 ∷ vs))) (omega arith))
      (in_tail 0 ws vs r bit_zero f)

alloc_from_lem : (ix : ℕ) (ws : List ℕ) → AreWords ws → Found ix ws (alloc_from ix ws)
unfolding alloc_from
alloc_from_lem ix [] a = full refl bit_at-nil
alloc_from_lem ix (w ∷ ws) a = elim (Bool-cases (w == 0)) [
  | inl t ↦
      let e : 0 ≡ w = ground arith in
      subst (λ v. Found ix (v ∷ ws) (alloc_from ix (v ∷ ws))) e
        (in_rest ix ws (alloc_from_lem (ix + 1) ws a.1))
  | inr n ↦
      let (r, g, i, c, d) = first_bit 32 w a.0 (λ z. ground arith) in
      rw (n) (
        got r (toggle w r ∷ ws)
          (bind-some (find_bit word_bits 0 w)
            (λ o. some (some (ix * word_bits + o, toggle w o ∷ ws))) g)
          (in_head w ws r i c d))
]

-- What `bitmap_alloc` of `b` gives.
pub data Allocated (b : Bitmap) (o : Option (Option (ℕ × Bitmap))) : Type 0 where
  no_free : o ≡ some none → ((i : ℕ) → bit_at b.map i ≡ false) → Allocated b o
  allocated :
      (r : ℕ) (vs : List ℕ)
      → o ≡ some (some (r, record b { map = vs }))
      → First b.map vs r
      → Allocated b o

alloc_of : (b : Bitmap) → Found 0 b.map (alloc_from 0 b.map) → Allocated b (bitmap_alloc b)
unfolding bitmap_alloc
alloc_of b (full e z) = no_free (ap (λ m. m >>= λ o. some (stored b o)) e) z
alloc_of b (got r vs e f) =
    allocated r vs
      (ap (λ m. m >>= λ o. some (stored b o)) e
        ∙ ap (λ n. some (some (n, record b { map = vs }))) (omega arith))
      f

-- On a map of 32-bit words `bitmap_alloc` fails no assertion: when no bit is set it says that
-- there is no space, and otherwise it clears the first bit that is set, returns its number and
-- leaves all other bits.
pub bitmap_alloc_lem : (b : Bitmap) → AreWords b.map → Allocated b (bitmap_alloc b)
bitmap_alloc_lem b a = alloc_of b (alloc_from_lem 0 b.map a)
