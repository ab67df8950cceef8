-- ===== src/Fs/Bitmap.antt =====
-- kern/fs/sfs/bitmap.c: the map of the free blocks of a disk, where a set bit is a free block.
pub mod Bits
pub mod Alloc
mod Tests
use hard_core.Prelude.{
  ℕ, zero, suc, ◌+◌, ◌-◌, ◌*◌, ◌/◌, ◌%◌, ◌^◌, ◌≤◌, ◌<◌, min, max, ◌≡◌, refl, sym, ap, ap₂, ◌∙◌,
  subst, ◌≢◌, ◌↔◌, ◌⊎◌, inl, inr, Bool, true, false, not, ◌&&◌, ◌||◌, Option, none, some, List, [],
  ◌∷◌, ◌++◌, map, arith, ltb, leb, ◌==◌, if◌then◌else◌, ltb→lt, lt→ltb, leb→le, ==_iff, tests,
  Bool-cases, Option-cases, length, get_elem?, set, length-append, length-set, get_elem?-set_self,
  get_elem?-set_ne, get_or, take, drop, replicate, take-append-drop, length-take, length-drop,
  length-replicate, length-map, lt_of_get, set-set, set_self, has, ◌∈◌, ◌∉◌, has-append, Distinct,
  Apart, Distinct-split, Distinct-join, snoc_view, Distinct-insert, Distinct-remove,
  Distinct-remove_after, has-ne, ◌>>=◌, ◌>>◌, assert, bind-some, past_assert, bind_assoc,
  bind_congr, if-both, Distinct-snoc, past_bind, without, length-without, has-without,
  has-without_ne, has-without_le, Distinct-without, has-map, of_has-map, has-map-without, map_congr,
  held_le,
}

-- `struct bitmap`
pub record Bitmap : Type 0 where
  pub nbits : ℕ
  pub nwords : ℕ
  pub map : List ℕ

-- WORD_BITS
abbrev pub word_bits : ℕ
word_bits = 32

-- Whether `w & (1 << o)` is not 0.
unfoldable pub bit : ℕ → ℕ → Bool
bit w zero = w % 2 == 1
bit w (suc o) = bit (w / 2) o

-- `w ^ (1 << o)`
unfoldable pub toggle : ℕ → ℕ → ℕ
toggle w zero = if w % 2 == 1 then w - 1 else w + 1
toggle w (suc o) = w % 2 + 2 * toggle (w / 2) o

-- The loop of `bitmap_create` over the bits left over in the last word, from bit `o` on.
unfoldable pub clear_from : ℕ → ℕ → ℕ → ℕ
clear_from zero o w = w
clear_from (suc n) o w = clear_from n (o + 1) (toggle w o)

-- ROUNDUP_DIV
unfoldable pub words_for : ℕ → ℕ
words_for nbits = (nbits + word_bits - 1) / word_bits

-- `bitmap_create` with the memory for the map, for at least one bit.
unfoldable pub bitmap_create : ℕ → Option Bitmap
bitmap_create nbits =
    let nwords = words_for nbits in
    let ix = nwords - 1 in
    let over = nbits - ix * word_bits in
    let full = replicate nwords (2 ^ 32 - 1) in
    let last = clear_from (word_bits - over) over (get_or full ix 0) in
    assert (not (nbits == 0) && ltb nbits (2 ^ 32 - word_bits))
    >> some (record {
      nbits = nbits;
      nwords = nwords;
      map = if nbits == nwords * word_bits then full else set full ix last;
    })

-- The loop over the bits of a word.
unfoldable pub find_bit : ℕ → ℕ → ℕ → Option ℕ
find_bit zero o w = none
find_bit (suc n) o w = let rest = find_bit n (o + 1) w in if bit w o then some o else rest

abbrev pub keep_word : ℕ → Option (ℕ × List ℕ) → Option (ℕ × List ℕ)
keep_word w none = none
keep_word w (some (i, ws)) = some (i, w ∷ ws)

-- The loop over the words from the number `ix` on: the number of the bit, and the words with it
-- cleared. A word that is not 0 has a bit, or an assertion fails.
unfoldable pub alloc_from : ℕ → List ℕ → Option (Option (ℕ × List ℕ))
alloc_from ix [] = some none
alloc_from ix (w ∷ ws) =
    let rest = alloc_from (ix + 1) ws >>= λ o. some (keep_word w o) in
    if w == 0
    then rest
    else (find_bit word_bits 0 w >>= λ o. some (some (ix * word_bits + o, toggle w o ∷ ws)))

abbrev pub stored : Bitmap → Option (ℕ × List ℕ) → Option (ℕ × Bitmap)
stored b none = none
stored b (some (i, ws)) = some (i, record b { map = ws })

-- `bitmap_alloc`; with no bit it returns -E_NO_MEM, which is `none` inside.
unfoldable pub bitmap_alloc : Bitmap → Option (Option (ℕ × Bitmap))
bitmap_alloc b = alloc_from 0 b.map >>= λ o. some (stored b o)

-- The bit that `bitmap_translate` finds.
unfoldable pub bit_at : List ℕ → ℕ → Bool
bit_at ws i = bit (get_or ws (i / word_bits) 0) (i % word_bits)

unfoldable pub bitmap_test : Bitmap → ℕ → Option Bool
bitmap_test b i = assert (ltb i b.nbits) >> some (bit_at b.map i)

unfoldable pub bitmap_free : Bitmap → ℕ → Option Bitmap
bitmap_free b i =
    let ix = i / word_bits in
    assert (ltb i b.nbits && not (bit_at b.map i))
    >> some (record b { map = set b.map ix (toggle (get_or b.map ix 0) (i % word_bits)) })
