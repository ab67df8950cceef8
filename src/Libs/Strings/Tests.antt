-- ===== src/Libs/Strings/Tests.antt =====
-- Strings, blocks that overlap, and a number in base 16.
use hard_core.Prelude.{ℕ, ◌≡◌, ◌↔◌, some, List, [], ◌∷◌, ◌++◌, arith, length}
use hard_core.Libs.Strings.{strlen, strcmp, memmove}
use hard_core.Libs.Strings.Compare.{Chars, terminated, strlen-terminated, strcmp_iff}
use hard_core.Libs.Strings.Move.{Copied, memmove-Copied}
use hard_core.Libs.Strings.Number.{printnum, strtol}
use hard_core.Libs.Strings.Printed.{strtol-printnum}

abbrev name : List ℕ
name = 97 ∷ 98 ∷ []

name-Chars : Chars name
unfolding Chars
name-Chars = (ground arith, ground arith, (ground arith, ground arith, tt))

strlen-terminated_example : strlen (terminated name (7 ∷ [])) ≡ some (length name)
strlen-terminated_example = strlen-terminated name (7 ∷ []) name-Chars

strcmp_iff_example :
    (r : ℕ) × (strcmp (terminated name (7 ∷ [])) (terminated name []) ≡ some r)
    × ((r ≡ 0) ↔ (name ≡ name))
strcmp_iff_example = strcmp_iff name name (7 ∷ []) [] name-Chars name-Chars

memmove-Copied_example : Copied (λ a. a) (memmove (λ a. a) 12 10 5) 12 10 5
memmove-Copied_example = memmove-Copied (λ a. a) 12 10 5

strtol-printnum_example :
    (out : List ℕ) × (printnum 256 255 16 6 32 ≡ some out)
    × (strtol (out ++ (0 ∷ [])) 16 ≡ some (record { val = 255; endptr = 0 ∷ [] }))
strtol-printnum_example = strtol-printnum 255 16 6 [] (omega arith) (ground arith) (ground arith)
