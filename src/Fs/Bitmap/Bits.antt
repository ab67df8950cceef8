-- ===== src/Fs/Bitmap/Bits.antt =====
-- kern/fs/sfs/bitmap.c: the bits of a word.
use hard_core.Prelude.{
  ℕ, zero, suc, ◌+◌, ◌-◌, ◌*◌, ◌/◌, ◌%◌, ◌^◌, ◌<◌, ◌≡◌, refl, sym, ap, ◌∙◌, ◌≢◌, inl, inr, true,
  false, not, some, arith, ◌==◌, Bool-cases,
}
use native.Mathlib.Nat.{pow-suc}
use hard_core.Fs.Bitmap.{bit, toggle, find_bit}

pub bit-toggle_self : (w o : ℕ) → bit (toggle w o) o ≡ not (bit w o)
unfolding bit toggle
bit-toggle_self w zero = elim (Bool-cases (w % 2 == 1)) [
  | inl t ↦
      let t' : w % 2 ≡ 1 = ground arith in
      let e : (w - 1) % 2 ≡ 0 = omega arith in rw (t) (ground arith)
  | inr n ↦
      let n' : w % 2 ≢ 1 = ground arith in
      let e : (w + 1) % 2 ≡ 1 = omega arith in rw (n) (ground arith)
]
bit-toggle_self w (suc o) =
    let e : (w % 2 + 2 * toggle (w / 2) o) / 2 ≡ toggle (w / 2) o = omega arith in
    rw (e) (bit-toggle_self (w / 2) o)

pub bit-toggle_ne : (w o k : ℕ) → o ≢ k → bit (toggle w o) k ≡ bit w k
unfolding bit toggle
bit-toggle_ne w zero zero n = absurd (n refl)
bit-toggle_ne w zero (suc k) n = elim (Bool-cases (w % 2 == 1)) [
  | inl t ↦
      let t' : w % 2 ≡ 1 = ground arith in
      let e : (w - 1) / 2 ≡ w / 2 = omega arith in rw (t) (rw (e) refl)
  | inr f ↦
      let f' : w % 2 ≢ 1 = ground arith in
      let e : (w + 1) / 2 ≡ w / 2 = omega arith in rw (f) (rw (e) refl)
]
bit-toggle_ne w (suc o) zero n =
    let e : (w % 2 + 2 * toggle (w / 2) o) % 2 ≡ w % 2 = omega arith in rw (e) refl
bit-toggle_ne w (suc o) (suc k) n =
    let e : (w % 2 + 2 * toggle (w / 2) o) / 2 ≡ toggle (w / 2) o = omega arith in
    rw (e) (bit-toggle_ne (w / 2) o k (λ i. n (ap suc i)))

-- A word of `n` bits that is not 0 has one of them set.
pub some_bit : (n w : ℕ) → w < 2 ^ n → w ≢ 0 → (o : ℕ) × (o < n) × (bit w o ≡ true)
unfolding bit
some_bit zero w h z = absurd (z (omega arith))
some_bit (suc n) w h z = elim (Bool-cases (w % 2 == 1)) [
  | inl t ↦ (0, omega arith, t)
  | inr f ↦
      let f' : w % 2 ≢ 1 = ground arith in
      let p : 2 ^ suc n ≡ 2 ^ n * 2 = pow-suc 2 n in
      let (o, l, b) = some_bit n (w / 2) (omega arith) (λ e. z (omega arith)) in
      (suc o, omega arith, b)
]

later :
    (o w n k : ℕ)
    → k < suc n
    → bit w (o + k) ≡ true
    → bit w o ≡ false
    → (j : ℕ) × (j < n) × (bit w (o + 1 + j) ≡ true)
later o w n zero l b f =
    let e : o + 0 ≡ o = omega arith in
    let no : true ≡ false = sym b ∙ ap (bit w) e ∙ f in absurd (cc)
later o w n (suc k) l b f = (k, omega arith, ap (bit w) (omega arith) ∙ b)

earlier :
    (o w r j : ℕ)
    → j < r + 1
    → bit w o ≡ false
    → ((k : ℕ) → k < r → bit w (o + 1 + k) ≡ false)
    → bit w (o + j) ≡ false
earlier o w r zero h f d = ap (bit w) (omega arith) ∙ f
earlier o w r (suc j) h f d = ap (bit w) (omega arith) ∙ d j (omega arith)

-- The loop over the bits stops at the first that is set.
pub find_bit_lem :
    (n o w : ℕ)
    → ((k : ℕ) × (k < n) × (bit w (o + k) ≡ true))
    → (r : ℕ) × (find_bit n o w ≡ some (o + r))
      × (r < n)
      × (bit w (o + r) ≡ true)
      × ((k : ℕ) → k < r → bit w (o + k) ≡ false)
unfolding find_bit
find_bit_lem zero o w (k, l, b) = absurd (omega arith)
find_bit_lem (suc n) o w (k, l, b) = elim (Bool-cases (bit w o)) [
  | inl t ↦
      let e : o + 0 ≡ o = omega arith in
      (0, rw (t) (ap some (sym e)), omega arith, ap (bit w) e ∙ t, λ k h. absurd (omega arith))
  | inr f ↦
      let (r, g, i, c, d) = find_bit_lem n (o + 1) w (later o w n k l b f) in
      (
        r + 1,
        rw (f) (g ∙ ap some (omega arith)),
        omega arith,
        ap (bit w) (omega arith) ∙ c,
        λ j h. earlier o w r j h f d,
      )
]

-- From the first bit on.
pub first_bit :
    (n w : ℕ)
    → w < 2 ^ n
    → w ≢ 0
    → (r : ℕ) × (find_bit n 0 w ≡ some r)
      × (r < n)
      × (bit w r ≡ true)
      × ((k : ℕ) → k < r → bit w k ≡ false)
first_bit n w h z =
    let plain : (k : ℕ) → 0 + k ≡ k = λ k. omega arith in
    let (o, l, b) = some_bit n w h z in
    let (r, g, i, c, d) = find_bit_lem n 0 w (o, l, ap (bit w) (plain o) ∙ b) in
    (
      r,
      g ∙ ap some (plain r),
      i,
      ap (bit w) (sym (plain r)) ∙ c,
      λ k m. ap (bit w) (sym (plain k)) ∙ d k m,
    )
