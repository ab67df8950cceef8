-- ===== src/Libs/Strings.antt =====
-- libs/string.c: strings and blocks of memory.
pub mod Compare
pub mod Move
pub mod Number
pub mod Printed
mod Tests
use hard_core.Prelude.{
  ℕ, zero, suc, ◌+◌, ◌-◌, ◌*◌, ◌/◌, ◌%◌, ◌^◌, ◌≤◌, ◌<◌, min, max, ◌≡◌, refl, sym, ap, ap₂, ◌∙◌,
  subst, ◌≢◌, ◌↔◌, ◌⊎◌, inl, inr, Bool, true, false, not, ◌&&◌, ◌||◌, Option, none, some, List, [],
  ◌∷◌, ◌++◌, map, arith, ltb, leb, ◌==◌, if◌then◌else◌, ltb→lt, lt→ltb, leb→le, ==_iff, tests,
  Bool-cases, Option-cases, length, get_elem?, set, length-append, length-set, get_elem?-set_self,
  get_elem?-set_ne, get_or, take, drop, replicate, take-append-drop, length-take, length-drop,
  length-replicate, length-map, lt_of_get, set-set, set_self, has, ◌∈◌, ◌∉◌, has-append, Distinct,
  Apart, Distinct-split, Distinct-join, snoc_view, Distinct-insert, Distinct-remove,
  Distinct-remove_after, has-ne, ◌>>=◌, ◌>>◌, assert, bind-some, past_assert, bind_assoc,
  bind_congr, if-both, Distinct-snoc,
}

-- Functions that only read: a pointer is the rest of the block that it points into, of bytes, and
-- `none` is a read behind the block.
unfoldable pub strlen : List ℕ → Option ℕ
strlen [] = none
strlen (c ∷ s) = if c == 0 then some 0 else (strlen s >>= λ n. some (suc n))

unfoldable pub strnlen : List ℕ → ℕ → Option ℕ
strnlen s zero = some 0
strnlen [] (suc len) = none
strnlen (c ∷ s) (suc len) = if c == 0 then some 0 else (strnlen s len >>= λ n. some (suc n))

-- The difference of two bytes as a 32-bit word.
abbrev pub difference : ℕ → ℕ → ℕ
difference a b = (a + 2 ^ 32 - b) % 2 ^ 32

unfoldable pub strcmp : List ℕ → List ℕ → Option ℕ
strcmp [] t = none
strcmp (a ∷ s) [] = none
strcmp (a ∷ s) (b ∷ t) = if not (a == 0) && (a == b) then strcmp s t else some (difference a b)

unfoldable pub strncmp : List ℕ → List ℕ → ℕ → Option ℕ
strncmp s t zero = some 0
strncmp [] t (suc n) = none
strncmp (a ∷ s) [] (suc n) = none
strncmp (a ∷ s) (b ∷ t) (suc n) =
    if not (a == 0) && (a == b) then strncmp s t n else some (difference a b)

-- The offset of the result; the inner `none` is `NULL`.
unfoldable pub strchr : List ℕ → ℕ → Option (Option ℕ)
strchr [] c = none
strchr (a ∷ s) c =
    if a == 0
    then some none
    else if a == c
    then some (some 0)
    else (strchr s c >>= λ r. some (elim r [ none ↦ none | some i ↦ some (suc i) ]))

unfoldable pub strfind : List ℕ → ℕ → Option ℕ
strfind [] c = none
strfind (a ∷ s) c = if (a == 0) || (a == c) then some 0 else (strfind s c >>= λ i. some (suc i))

unfoldable pub memcmp : List ℕ → List ℕ → ℕ → Option ℕ
memcmp s t zero = some 0
memcmp [] t (suc n) = none
memcmp (a ∷ s) [] (suc n) = none
memcmp (a ∷ s) (b ∷ t) (suc n) = if a == b then memcmp s t n else some (difference a b)

-- Functions that write work on the bytes at all addresses; these do not wrap around.
abbrev pub Memory : Type 0
Memory = ℕ → ℕ

abbrev pub store : Memory → ℕ → ℕ → Memory
store m a v b = if a == b then v else m b

unfoldable pub memset : Memory → ℕ → ℕ → ℕ → Memory
memset m s c zero = m
memset m s c (suc n) = memset (store m s c) (s + 1) c n

-- The loop that goes up, which is also `memcpy`.
unfoldable pub memcpy : Memory → ℕ → ℕ → ℕ → Memory
memcpy m d s zero = m
memcpy m d s (suc n) = memcpy (store m d (m s)) (d + 1) (s + 1) n

-- The loop that goes down, from the ends of the blocks.
unfoldable pub copy_down : Memory → ℕ → ℕ → ℕ → Memory
copy_down m d s zero = m
copy_down m d s (suc n) = copy_down (store m (d + n) (m (s + n))) d s n

unfoldable pub memmove : Memory → ℕ → ℕ → ℕ → Memory
memmove m d s n = if ltb s d && ltb d (s + n) then copy_down m d s n else memcpy m d s n

unfoldable pub strncpy : Memory → ℕ → ℕ → ℕ → Memory
strncpy m p s zero = m
strncpy m p s (suc len) = strncpy (store m p (m s)) (p + 1) (if m s == 0 then s else s + 1) len
