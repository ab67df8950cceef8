-- ===== src/Libs/Strings/Number.antt =====
-- `strtol`: numbers in strings.
use hard_core.Prelude.{
  ◌^◌, ℕ, zero, suc, ◌+◌, ◌-◌, ◌*◌, ◌/◌, ◌%◌, Bool, true, false, ◌&&◌, ◌||◌, Option, none, some,
  List, [], ◌∷◌, ◌++◌, ltb, leb, ◌==◌, if◌then◌else◌, drop, replicate, ◌>>=◌,
}

-- The digit of a character, if it is one in some base.
unfoldable pub digit_of : ℕ → Option ℕ
digit_of c =
    if leb 48 c && leb c 57
    then some (c - 48)
    else if leb 97 c && leb c 122
    then some (c - 97 + 10)
    else if leb 65 c && leb c 90
    then some (c - 65 + 10)
    else none

-- The digit that the loop goes on with: one below the base.
unfoldable pub digit_below : ℕ → Option ℕ → Option ℕ
digit_below base none = none
digit_below base (some d) = if leb base d then none else some d

-- The loop over the digits: the value, which is cut to the 32 bits of a `long`, and the rest of the
-- string.
unfoldable pub read_digits : ℕ → List ℕ → ℕ → Option (ℕ × List ℕ)
read_digits base [] val = none
read_digits base (c ∷ s) val = elim (digit_below base (digit_of c)) [
  | none ↦ some (val, c ∷ s)
  | some d ↦ read_digits base s ((val * base + d) % 2 ^ 32)
]

unfoldable pub skip_blanks : List ℕ → List ℕ
skip_blanks [] = []
skip_blanks (c ∷ s) = if (c == 32) || (c == 9) then skip_blanks s else c ∷ s

-- Whether the number is negative.
unfoldable pub read_sign : List ℕ → Bool × List ℕ
read_sign [] = (false, [])
read_sign (c ∷ s) = if c == 43 then (false, s) else if c == 45 then (true, s) else (false, c ∷ s)

abbrev pub head_is : ℕ → List ℕ → Bool
head_is c [] = false
head_is c (x ∷ xs) = x == c

-- The base, and the string behind a prefix.
unfoldable pub read_base : ℕ → List ℕ → ℕ × List ℕ
read_base base s =
    if ((base == 0) || (base == 16)) && (head_is 48 s && head_is 120 (drop 1 s))
    then (16, drop 2 s)
    else if (base == 0) && head_is 48 s
    then (8, drop 1 s)
    else if base == 0
    then (10, s)
    else (base, s)

-- The `long` that `strtol` returns, as a word of 32 bits in two's complement, and the string at
-- `endptr`.
pub record Number : Type 0 where
  pub val : ℕ
  pub endptr : List ℕ

unfoldable pub strtol : List ℕ → ℕ → Option Number
strtol s base = do
  let signed = read_sign (skip_blanks s)
  let based = read_base base signed.1
  r ← read_digits based.0 based.1 0
  some (record { val = if signed.0 then (2 ^ 32 - r.0) % 2 ^ 32 else r.0; endptr = r.1 })

-- kern's `printnum` of libs/printfmt.c: the character of a digit in "0123456789abcdef".
unfoldable pub digit_char : ℕ → ℕ
digit_char d = if ltb d 10 then 48 + d else 87 + d

-- The characters that `printnum` puts out; a width that is not positive is 0 here. It gives up when
-- the fuel ends.
unfoldable pub printnum : ℕ → ℕ → ℕ → ℕ → ℕ → Option (List ℕ)
printnum zero num base width padc = none
printnum (suc fuel) num base width padc =
    let rest = printnum fuel (num / base) base (width - 1) padc in
    (if leb base num then rest else some (replicate (width - 1) padc)) >>= λ front.
    some (front ++ (digit_char (num % base) ∷ []))
