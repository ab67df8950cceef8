-- ===== src/Fs/Bitmap/Tests.antt =====
-- Runs of kern/fs/sfs/bitmap.c on maps of two words.
use hard_core.Prelude.{◌-◌, ◌^◌, ◌≡◌, refl, some, [], ◌∷◌, arith, ◌>>=◌}
use hard_core.Fs.Bitmap.{
  Bitmap, bit, toggle, clear_from, words_for, bitmap_create, find_bit, alloc_from, bit_at,
  bitmap_alloc, bitmap_free,
}
use hard_core.Fs.Bitmap.Alloc.{Allocated, bitmap_alloc_lem}

-- Of 34 bits the last word has two.
created : bitmap_create 34 ≡ some (record { nbits = 34; nwords = 2; map = (2 ^ 32 - 1) ∷ 3 ∷ [] })
unfolding bitmap_create clear_from words_for toggle
created = refl

abbrev one_free : Bitmap
one_free = record { nbits = 34; nwords = 2; map = 0 ∷ 2 ∷ [] }

-- The bit 33 is allocated and freed again.
reused :
    (bitmap_alloc one_free >>= λ o. bitmap_free (record one_free { map = 0 ∷ 0 ∷ [] }) 33)
    ≡ some one_free
unfolding bitmap_alloc alloc_from find_bit bit toggle bitmap_free bit_at
reused = refl

bitmap_alloc_lem_example : Allocated one_free (bitmap_alloc one_free)
bitmap_alloc_lem_example = bitmap_alloc_lem one_free (omega arith, (omega arith, tt))
