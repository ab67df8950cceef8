-- ===== src/Libs/Strings/Move.antt =====
-- Blocks of memory that are copied.
use hard_core.Prelude.{
  ℕ, zero, suc, ◌+◌, ◌-◌, ◌≤◌, ◌<◌, ◌≡◌, refl, sym, ap, ◌∙◌, subst, ◌≢◌, ◌⊎◌, inl, inr, Bool, true,
  false, ◌&&◌, arith, ltb, ◌==◌, if◌then◌else◌, Bool-cases,
}
use hard_core.Libs.Strings.{Memory, store, memcpy, copy_down, memmove}

-- The block at `d` is what the block at `s` was, and nothing else has changed.
pub record Copied (old new : Memory) (d s n : ℕ) : Type 0 where
  pub copied : (i : ℕ) → i < n → new (d + i) ≡ old (s + i)
  pub frame : (a : ℕ) → (a < d) ⊎ (d + n ≤ a) → new a ≡ old a

store_self : (m : Memory) (a v : ℕ) → store m a v a ≡ v
store_self m a v =
    let same : (a == a) ≡ true = ground arith in ap (λ (t : Bool). if t then v else m a) same

store-other : (m : Memory) (a b v : ℕ) → a ≢ b → store m a v b ≡ m b
store-other m a b v h =
    let other : (a == b) ≡ false = ground arith in ap (λ (t : Bool). if t then v else m b) other

copy_down_lem : (n : ℕ) (m : Memory) (d s : ℕ) → s < d → Copied m (copy_down m d s n) d s n
unfolding copy_down
copy_down_lem zero m d s h = record { copied = λ i l. absurd (omega arith); frame = λ a l. refl }
copy_down_lem (suc n) m d s h =
    let m' = store m (d + n) (m (s + n)) in
    let r = copy_down_lem n m' d s h in
    record {
      copied = λ i l. elim (Bool-cases (i == n)) [
        | inl t ↦
            let same : i ≡ n = ground arith in
            ap (λ k. copy_down m' d s n (d + k)) same
            ∙ r.frame (d + n) (inr (omega arith))
            ∙ store_self m (d + n) (m (s + n))
            ∙ ap (λ k. m (s + k)) (sym same)
        | inr f ↦
            let low : i < n = ground arith in
            r.copied i low ∙ store-other m (d + n) (s + i) _ (λ e. omega arith)
      ];
      frame = λ a l.
          r.frame a (elim l [ inl b ↦ inl b | inr b ↦ inr (omega arith) ])
          ∙ store-other m (d + n) a _ (λ e. elim l [ inl b ↦ omega arith | inr b ↦ omega arith ]);
    }

-- Going up is right unless the target begins inside of the source.
memcpy_lem :
    (n : ℕ) (m : Memory) (d s : ℕ) → (d ≤ s) ⊎ (s + n ≤ d) → Copied m (memcpy m d s n) d s n
unfolding memcpy
memcpy_lem zero m d s h = record { copied = λ i l. absurd (omega arith); frame = λ a l. refl }
memcpy_lem (suc n) m d s h =
    let m' = store m d (m s) in
    let r =
      memcpy_lem n m' (d + 1) (s + 1)
        (elim h [ inl b ↦ inl (omega arith) | inr b ↦ inr (omega arith) ]) in
    let new = memcpy m' (d + 1) (s + 1) n in
    record {
      copied = λ i l. elim (Bool-cases (i == 0)) [
        | inl t ↦
            let here : d + i ≡ d = ground arith in
            let there : s ≡ s + i = ground arith in
            ap new here ∙ r.frame d (inl (omega arith)) ∙ store_self m d (m s) ∙ ap m there
        | inr f ↦
            let before : i - 1 < n = ground arith in
            let here : d + i ≡ d + 1 + (i - 1) = ground arith in
            let there : s + 1 + (i - 1) ≡ s + i = ground arith in
            ap new here
            ∙ r.copied (i - 1) before
            ∙ ap m' there
            ∙ store-other m d (s + i) _ (λ e. elim h [ inl b ↦ ground arith | inr b ↦ omega arith ])
      ];
      frame = λ a l.
          r.frame a (elim l [ inl b ↦ inl (omega arith) | inr b ↦ inr (omega arith) ])
          ∙ store-other m d a _ (λ e. elim l [ inl b ↦ omega arith | inr b ↦ omega arith ]);
    }

-- `memmove` copies the old contents of the source to the target and changes no byte outside of
-- the target, also where the two blocks overlap.
pub memmove-Copied : (m : Memory) (d s n : ℕ) → Copied m (memmove m d s n) d s n
unfolding memmove
memmove-Copied m d s n =
    let choose : Bool → Memory = λ b. if b then copy_down m d s n else memcpy m d s n in
    elim (Bool-cases (ltb s d && ltb d (s + n))) [
      | inl t ↦
          let below : s < d = ground arith in
          subst (λ k. Copied m k d s n) (sym (ap choose t)) (copy_down_lem n m d s below)
      | inr f ↦
          let apart : (d ≤ s) ⊎ (s + n ≤ d) = ground arith in
          subst (λ k. Copied m k d s n) (sym (ap choose f)) (memcpy_lem n m d s apart)
    ]
