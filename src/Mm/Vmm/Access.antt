-- ===== src/Mm/Vmm/Access.antt =====
-- `user_mem_check`, seen from the addresses that it covers.
use hard_core.Prelude.{
  ℕ, zero, suc, ◌-◌, ◌≤◌, ◌<◌, ◌≡◌, refl, sym, ap, ◌∙◌, subst, ◌↔◌, ◌⊎◌, inl, inr, Bool, true,
  false, Option, none, some, List, [], ◌∷◌, arith, ltb, if◌then◌else◌, ltb→lt, Bool-cases,
  Option-cases, ◌>>=◌, bind-some,
}
use hard_core.Mm.Vmm.{Vma, Mm, covers, search_list, remember, find_vma, user_access}
use hard_core.Mm.Vmm.Find.{Areas, IsValid, find_vma_lem, separate}
use hard_core.Mm.Vmm.Map.{search_list-covers, remember-mmap_list}
use hard_core.Mm.Vmm.Calls.{add_word, allowed, next_start, check_loop, user_mem_check}

unfoldable pub found_allows : Bool → ℕ → Option Vma → Bool
found_allows write a none = false
found_allows write a (some v) = allowed write a v

-- The area of the address, if there is one, lets it be read or written.
unfoldable pub permits : List Vma → Bool → ℕ → Bool
permits vs write a = found_allows write a (search_list vs a)

-- The search finds the same area at all the addresses of it.
search_list-same :
    (lo : ℕ) (vs : List Vma) (s a : ℕ) {v : Vma}
    → Areas lo vs
    → search_list vs s ≡ some v
    → covers v a ≡ true
    → search_list vs a ≡ some v
unfolding search_list Areas
search_list-same lo [] s a o e c = absurd (cc)
search_list-same lo (w ∷ vs) s a {v = v} o e c =
    let test : ℕ → Bool → Option Vma = λ x b. if b then some w else search_list vs x in
    elim (Bool-cases (covers w s)) [
      | inl t ↦
          let same : some w ≡ some v = sym (ap (test s) t) ∙ e in
          let hit : covers w a ≡ true = cc in ap (test a) hit ∙ same
      | inr f ↦
          let later = search_list-same w.vm_end vs s a o.2 (sym (ap (test s) f) ∙ e) c in
          elim (Bool-cases (covers w a)) [
            | inl t ↦ absurd (separate w vs a o.2 t later)
            | inr n ↦ ap (test a) n ∙ later
          ]
    ]

-- What is allowed at an address of an area is allowed at the addresses behind it.
allowed-later :
    (write : Bool) (s a : ℕ) (v : Vma) → s ≤ a → allowed write s v ≡ true → allowed write a v ≡ true
unfolding allowed
allowed-later write s a v l h = ground arith

covers-start : (v : Vma) (a : ℕ) → covers v a ≡ true → ltb a v.vm_start ≡ false
unfolding covers
covers-start v a c = ground arith

covers-end : (v : Vma) (a : ℕ) → covers v a ≡ true → a < v.vm_end
unfolding covers
covers-end v a c = ground arith

covers-between : (v : Vma) (s a : ℕ) → covers v s ≡ true → s ≤ a → a < v.vm_end → covers v a ≡ true
unfolding covers
covers-between v s a c l h = ground arith

record Step (vs : List Vma) (write : Bool) (start next : ℕ) : Type 0 where
  further : start < next
  all : (a : ℕ) → start ≤ a → a < next → permits vs write a ≡ true

-- A step passes over addresses that all permit it, or stops at one that does not.
next_start_lem :
    (vs : List Vma) (write : Bool) (start : ℕ)
    → Areas 0 vs
    → ((next_start start write (search_list vs start) ≡ none) × (permits vs write start ≡ false))
      ⊎ ((next : ℕ) × (next_start start write (search_list vs start) ≡ some next)
          × Step vs write start next)
unfolding next_start permits found_allows
next_start_lem vs write start o = elim (Option-cases (search_list vs start)) [
  | inl e ↦ inl (ap (next_start start write) e, ap (found_allows write start) e)
  | inr (v, e) ↦
      let c = search_list-covers vs start e in
      let go : Bool → Option ℕ = λ b. if b then some v.vm_end else none in
      let reach : next_start start write (search_list vs start) ≡ go (allowed write start v) =
        ap (next_start start write) e
        ∙ ap (λ (b : Bool). if b then none else go (allowed write start v))
            (covers-start v start c) in
      elim (Bool-cases (allowed write start v)) [
        | inl t ↦ inr (
          v.vm_end,
          reach ∙ ap go t,
          record {
            further = covers-end v start c;
            all = λ a l h.
                let same = search_list-same 0 vs start a o e (covers-between v start a c l h) in
                ap (found_allows write a) same ∙ allowed-later write start a v l t;
          },
        )
        | inr f ↦ inl (reach ∙ ap go f, ap (found_allows write start) e ∙ f)
      ]
]

-- The addresses from `start` to `end`.
unfoldable pub PermitsAll : List Vma → Bool → ℕ → ℕ → Type 0
PermitsAll vs write start end = (a : ℕ) → start ≤ a → a < end → permits vs write a ≡ true

record Checked (m : Mm) (start end : ℕ) (write : Bool) (run : Option (Bool × Mm)) : Type 0 where
  answer : Bool
  after : Mm
  returns : run ≡ some (answer, after)
  valid : IsValid after
  same : after.mmap_list ≡ m.mmap_list
  sound : answer ≡ true → PermitsAll m.mmap_list write start end
  complete : PermitsAll m.mmap_list write start end → answer ≡ true

joined :
    {vs : List Vma} {write : Bool} {start next : ℕ} (end : ℕ)
    → Step vs write start next
    → PermitsAll vs write next end
    → PermitsAll vs write start end
unfolding PermitsAll
joined {next = next} end step h a l k = elim (Bool-cases (ltb a next)) [
  | inl t ↦ step.all a l (ltb→lt _ _ t)
  | inr f ↦ h a (ground arith) k
]

steps_down :
    {fuel start next end : ℕ}
    → start < next
    → end - start < suc fuel
    → start < end
    → end - next < fuel
steps_down h l k = omega arith

check_loop_lem :
    (fuel : ℕ) (m : Mm) (start end : ℕ) (write : Bool)
    → IsValid m
    → end - start < fuel
    → Checked m start end write (check_loop fuel m start end write)
unfolding check_loop PermitsAll
check_loop_lem zero m start end write i l = absurd (omega arith)
check_loop_lem (suc fuel) m start end write i l = elim (Bool-cases (ltb start end)) [
  | inl t ↦
      let r = search_list m.mmap_list start in
      let m' = remember r m in
      let same_list = remember-mmap_list r m in
      let continue : Mm → Option ℕ → Option (Bool × Mm) =
        λ k n. elim n [ none ↦ some (false, k) | some next ↦ check_loop fuel k next end write ] in
      let look : Option Vma × Mm → Option (Bool × Mm) =
        λ found. continue found.1 (next_start start write found.0) in
      let choose : Bool → Option (Bool × Mm) =
        λ b. if b then (find_vma m start >>= look) else some (true, m) in
      let run : check_loop (suc fuel) m start end write ≡ continue m' (next_start start write r) =
        ap choose t ∙ bind-some _ look (find_vma_lem m start i).0 in
      elim (next_start_lem m.mmap_list write start i.areas) [
        | inl (e, p) ↦ record {
          answer = false;
          after = m';
          returns = run ∙ ap (continue m') e;
          valid = (find_vma_lem m start i).1;
          same = same_list;
          sound = λ h. absurd (cc);
          complete = λ h. let q = h start (omega arith) (ltb→lt _ _ t) in cc;
        }
        | inr (next, e, step) ↦
            let rest =
              check_loop_lem fuel m' next end write (find_vma_lem m start i).1
                (steps_down step.further l (ltb→lt _ _ t)) in
            record {
              answer = rest.answer;
              after = rest.after;
              returns = run ∙ ap (continue m') e ∙ rest.returns;
              valid = rest.valid;
              same = rest.same ∙ same_list;
              sound = λ h.
                  joined end step
                    (subst (λ vs. PermitsAll vs write next end) same_list (rest.sound h));
              complete = λ h. rest.complete (
                  subst (λ vs. PermitsAll vs write next end) (sym same_list)
                    (λ a k u. h a (omega (arith, step.further)) u));
            }
      ]
  | inr f ↦ record {
    answer = true;
    after = m;
    returns = rw (f, check_loop) refl;
    valid = i;
    same = refl;
    sound = λ e a k h. absurd (ground arith);
    complete = λ h. refl;
  }
]

word_fuel : (addr len : ℕ) → add_word addr len - addr < suc len
word_fuel addr len = omega arith

-- The check of user memory always answers, keeps a valid address space valid with the same
-- areas, and answers yes exactly when the words from `addr` to `addr + len` are user memory and
-- each address there lies in an area whose flags permit the access, outside the lowest page
-- of a stack that is to be written.
pub user_mem_check_iff :
    (m : Mm) (addr len : ℕ) (write : Bool)
    → IsValid m
    → (answer : Bool) × (after : Mm) × (user_mem_check (some m) addr len write
        ≡ some (answer, some after))
      × IsValid after
      × (after.mmap_list ≡ m.mmap_list)
      × ((answer ≡ true) ↔ (
          (user_access addr (add_word addr len) ≡ true)
          × PermitsAll m.mmap_list write addr (add_word addr len)))
unfolding user_mem_check
user_mem_check_iff m addr len write i =
    let loop = check_loop_lem (suc len) m addr (add_word addr len) write i (word_fuel addr len) in
    let give : Bool × Mm → Option (Bool × Option Mm) = λ r. some (r.0, some r.1) in
    let choose : Bool → Option (Bool × Option Mm) = λ b.
      if b
      then (check_loop (suc len) m addr (add_word addr len) write >>= give)
      else some (false, some m) in
    elim (Bool-cases (user_access addr (add_word addr len))) [
      | inl t ↦ (
        loop.answer,
        loop.after,
        ap choose t ∙ bind-some _ give loop.returns,
        loop.valid,
        loop.same,
        (λ e. (t, loop.sound e), λ h. loop.complete h.1),
      )
      | inr f ↦ (false, m, ap choose f, i, refl, (λ e. absurd (cc), λ h. let q = h.0 in cc))
    ]
