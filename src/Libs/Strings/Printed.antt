-- ===== src/Libs/Strings/Printed.antt =====
-- Numbers that are printed and read again.
use hard_core.Prelude.{
  ◌%◌, ◌^◌, ℕ, zero, suc, ◌+◌, ◌-◌, ◌*◌, ◌/◌, ◌%◌, ◌≤◌, ◌<◌, ◌≡◌, refl, sym, ap, ap₂, ◌∙◌, inl, inr,
  Bool, true, false, ◌&&◌, ◌||◌, Option, none, some, List, [], ◌∷◌, ◌++◌, arith, leb, ◌==◌,
  if◌then◌else◌, leb→le, Bool-cases, drop, replicate, ◌>>=◌, bind-some,
}
use mathlib.Core.List.{append_assoc}
use native.Mathlib.Nat.{mul-le-mul_left, mod-lt, div-add-mod', div-lt_self, mod-eq_of_lt}
use hard_core.Libs.Strings.Number.{
  digit_of, digit_below, read_digits, skip_blanks, read_sign, head_is, read_base, Number, strtol,
  digit_char, printnum,
}

-- Digits in a base.
unfoldable AllBelow : ℕ → List ℕ → Type 0
AllBelow base [] = Unit
AllBelow base (d ∷ ds) = (d < base) × AllBelow base ds

-- The value of digits behind a value that has been read.
unfoldable value : ℕ → ℕ → List ℕ → ℕ
value base v [] = v
value base v (d ∷ ds) = value base (v * base + d) ds

unfoldable chars : List ℕ → List ℕ
chars [] = []
chars (d ∷ ds) = digit_char d ∷ chars ds

AllBelow-snoc :
    (base : ℕ) (ds : List ℕ) (d : ℕ) → AllBelow base ds → d < base → AllBelow base (ds ++ (d ∷ []))
unfolding AllBelow
AllBelow-snoc base [] d a h = (h, tt)
AllBelow-snoc base (x ∷ xs) d a h = (a.0, AllBelow-snoc base xs d a.1 h)

value-snoc :
    (base v : ℕ) (ds : List ℕ) (d : ℕ) → value base v (ds ++ (d ∷ [])) ≡ value base v ds * base + d
unfolding value
value-snoc base v [] d = refl
value-snoc base v (x ∷ xs) d = value-snoc base (v * base + x) xs d

chars-snoc : (ds : List ℕ) (d : ℕ) → chars (ds ++ (d ∷ [])) ≡ chars ds ++ (digit_char d ∷ [])
unfolding chars
chars-snoc [] d = refl
chars-snoc (x ∷ xs) d = ap (λ (l : List ℕ). digit_char x ∷ l) (chars-snoc xs d)

-- The character of a digit is read as the digit.
digit_of-digit_char : (d : ℕ) → d < 16 → digit_of (digit_char d) ≡ some d
unfolding digit_of digit_char
digit_of-digit_char d h = ground arith

le_mul : (v b : ℕ) → 1 ≤ b → v ≤ v * b
le_mul v b h = let k = mul-le-mul_left v h in omega (arith, k)

-- A value only grows.
value-ge : (base v : ℕ) (ds : List ℕ) → 1 ≤ base → v ≤ value base v ds
unfolding value
value-ge base v [] h = omega arith
value-ge base v (d ∷ ds) h =
    let more : v ≤ v * base = le_mul v base h in
    let rest = value-ge base (v * base + d) ds h in omega arith

read_digits-chars :
    (base v : ℕ) (ds rest : List ℕ)
    → 1 ≤ base
    → base ≤ 16
    → value base v ds < 2 ^ 32
    → AllBelow base ds
    → read_digits base (chars ds ++ (0 ∷ rest)) v ≡ some (value base v ds, 0 ∷ rest)
unfolding read_digits AllBelow chars value digit_below digit_of
read_digits-chars base v [] rest l h w a = refl
read_digits-chars base v (d ∷ ds) rest l h w a =
    let go : Option ℕ → Option (ℕ × List ℕ) = λ o. elim o [
      | none ↦ some (v, chars (d ∷ ds) ++ (0 ∷ rest))
      | some x ↦ read_digits base (chars ds ++ (0 ∷ rest)) ((v * base + x) % 2 ^ 32)
    ] in
    let word : (v * base + d) % 2 ^ 32 ≡ v * base + d =
      let k = value-ge base (v * base + d) ds l in mod-eq_of_lt (omega arith) in
    let small : leb base d ≡ false = ground (arith, a.0) in
    ap (λ o. go (digit_below base o)) (digit_of-digit_char d (omega (arith, a.0)))
    ∙ ap (λ (b : Bool). go (if b then none else some d)) small
    ∙ ap (λ n. read_digits base (chars ds ++ (0 ∷ rest)) n) word
    ∙ read_digits-chars base (v * base + d) ds rest l h w a.1

-- What `printnum` puts out: pads, and the digits of the number, of which there is one at least.
record Printed (base num width padc : ℕ) (run : Option (List ℕ)) : Type 0 where
  pads : ℕ
  first : ℕ
  digits : List ℕ
  returns : run ≡ some (replicate pads padc ++ chars (first ∷ digits))
  below : AllBelow base (first ∷ digits)
  is_num : value base 0 (first ∷ digits) ≡ num

printnum_lem :
    (fuel num base width padc : ℕ)
    → 2 ≤ base
    → num < fuel
    → Printed base num width padc (printnum fuel num base width padc)
unfolding printnum chars value AllBelow
printnum_lem zero num base width padc h l = absurd (omega arith)
printnum_lem (suc fuel) num base width padc h l =
    let last : Option (List ℕ) → Option (List ℕ) =
      λ m. m >>= λ front. some (front ++ (digit_char (num % base) ∷ [])) in
    let choose : Bool → Option (List ℕ) = λ b.
      if b
      then printnum fuel (num / base) base (width - 1) padc
      else some (replicate (width - 1) padc) in
    let small : num % base < base = mod-lt num (omega arith) in
    elim (Bool-cases (leb base num)) [
      | inl t ↦
          let large : base ≤ num = leb→le _ _ t in
          let less : num / base < num = div-lt_self (omega arith) (omega arith) in
          let r = printnum_lem fuel (num / base) base (width - 1) padc h (omega arith) in
          let pad = replicate r.pads padc in
          let joined : (pad ++ chars (r.first ∷ r.digits)) ++ (digit_char (num % base) ∷ [])
              ≡ pad ++ chars (r.first ∷ (r.digits ++ (num % base ∷ []))) =
            append_assoc pad (chars (r.first ∷ r.digits)) (digit_char (num % base) ∷ [])
            ∙ ap (λ l. pad ++ l) (sym (chars-snoc (r.first ∷ r.digits) (num % base))) in
          record {
            pads = r.pads;
            first = r.first;
            digits = r.digits ++ (num % base ∷ []);
            returns =
                ap (λ b. last (choose b)) t
                ∙ ap last r.returns
                ∙ ap (λ (l : List ℕ). some l) joined;
            below = (r.below.0, AllBelow-snoc base r.digits (num % base) r.below.1 small);
            is_num =
                value-snoc base (0 * base + r.first) r.digits (num % base)
                ∙ ap (λ v. v * base + num % base) r.is_num
                ∙ div-add-mod' num base;
          }
      | inr f ↦
          let whole : num % base ≡ num = mod-eq_of_lt (ground arith) in
          record {
            pads = width - 1;
            first = num % base;
            digits = [];
            returns = ap (λ b. last (choose b)) f;
            below = (small, tt);
            is_num = omega (arith, whole);
          }
    ]

-- The pads are skipped as blanks.
skip_blanks-pads : (n : ℕ) (s : List ℕ) → skip_blanks (replicate n 32 ++ s) ≡ skip_blanks s
unfolding skip_blanks
skip_blanks-pads zero s = refl
skip_blanks-pads (suc n) s = skip_blanks-pads n s

-- A digit is no blank and no sign, and no letter of a prefix.
digit_char-plain :
    (d : ℕ)
    → d < 16
    → (((digit_char d == 32) || (digit_char d == 9)) ≡ false)
      × ((digit_char d == 43) ≡ false)
      × ((digit_char d == 45) ≡ false)
      × ((digit_char d == 120) ≡ false)
unfolding digit_char
digit_char-plain d h = (ground arith, ground arith, ground arith, ground arith)

no_prefix :
    (base : ℕ) (ds rest : List ℕ)
    → AllBelow base ds
    → base ≤ 16
    → head_is 120 (chars ds ++ (0 ∷ rest)) ≡ false
unfolding chars AllBelow
no_prefix base [] rest a h = refl
no_prefix base (d ∷ ds) rest a h = (digit_char-plain d (omega (arith, a.0))).3

read_base-chars :
    (base d : ℕ) (ds rest : List ℕ)
    → AllBelow base ds
    → 2 ≤ base
    → base ≤ 16
    → read_base base (digit_char d ∷ (chars ds ++ (0 ∷ rest)))
      ≡ (base, digit_char d ∷ (chars ds ++ (0 ∷ rest)))
unfolding read_base
read_base-chars base d ds rest a l h =
    let s = digit_char d ∷ (chars ds ++ (0 ∷ rest)) in
    let given : (base == 0) ≡ false = ground arith in
    let plain = no_prefix base ds rest a h in
    let hex : (((base == 0) || (base == 16)) && (head_is 48 s && head_is 120 (drop 1 s))) ≡ false =
      ground (arith, plain) in
    ap
      (λ (b : Bool).
        if b
        then (16, drop 2 s)
        else if (base == 0) && head_is 48 s
        then (8, drop 1 s)
        else if base == 0
        then (10, s)
        else (base, s))
      hex
    ∙ ap
        (λ (b : Bool).
          if b && head_is 48 s then (8, drop 1 s) else if b then (10, s) else (base, s))
        given

-- A number below 2 ^ 31 that `printnum` has put out in a base from 2 to 16, with blanks for pads, is
-- read by `strtol` in that base as the same number, up to the end of the string.
pub strtol-printnum :
    (num base width : ℕ) (rest : List ℕ)
    → num < 2 ^ 31
    → 2 ≤ base
    → base ≤ 16
    → (out : List ℕ) × (printnum (suc num) num base width 32 ≡ some out)
      × (strtol (out ++ (0 ∷ rest)) base ≡ some (record { val = num; endptr = 0 ∷ rest }))
unfolding strtol read_sign skip_blanks chars AllBelow
strtol-printnum num base width rest u l h =
    let p = printnum_lem (suc num) num base width 32 l (omega arith) in
    let tail = digit_char p.first ∷ (chars p.digits ++ (0 ∷ rest)) in
    let plain = digit_char-plain p.first (omega (arith, p.below.0)) in
    let out = replicate p.pads 32 ++ chars (p.first ∷ p.digits) in
    let finish : Bool → ℕ × List ℕ → Option Number = λ neg b. read_digits b.0 b.1 0 >>= λ r.
    some (record { val = if neg then (2 ^ 32 - r.0) % 2 ^ 32 else r.0; endptr = r.1 }) in
    let number : Bool × List ℕ → Option Number = λ g. finish g.0 (read_base base g.1) in
    let trimmed : skip_blanks (out ++ (0 ∷ rest)) ≡ tail =
      ap skip_blanks (append_assoc (replicate p.pads 32) (chars (p.first ∷ p.digits)) (0 ∷ rest))
      ∙ skip_blanks-pads p.pads tail
      ∙ ap (λ (b : Bool). if b then skip_blanks (chars p.digits ++ (0 ∷ rest)) else tail) plain.0 in
    let signed : read_sign tail ≡ (false, tail) =
      ap₂
        (λ (a b : Bool).
          if a
          then (false, chars p.digits ++ (0 ∷ rest))
          else if b
          then (true, chars p.digits ++ (0 ∷ rest))
          else (false, tail))
        plain.1 plain.2 in
    let read =
      let bound = p.is_num in
      read_digits-chars base 0 (p.first ∷ p.digits) rest (omega arith) h (omega arith) p.below in
    (
      out,
      p.returns,
      ap (λ k. number (read_sign k)) trimmed
          ∙ ap number signed
          ∙ ap (finish false) (read_base-chars base p.first p.digits rest p.below.1 l h)
          ∙ bind-some _ _ read
          ∙ ap (λ (v : ℕ). some (record { val = v; endptr = 0 ∷ rest })) p.is_num,
    )
