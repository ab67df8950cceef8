-- ===== src/Fs/File/Table.antt =====
-- The invariant of the table of open files.
use hard_core.Prelude.{
  ℕ, zero, suc, ◌+◌, ◌<◌, ◌≡◌, refl, subst, ◌≢◌, inl, inr, Bool, true, false, ◌||◌, Option, none,
  some, List, [], ◌∷◌, arith, Bool-cases, get_elem?, set,
}
use hard_core.Fs.File.{
  File, Sys, fd_none, fd_array_init, find_none, is_opened, is_init, is_closed, is_none,
}
use mathlib.Core.Option.{some-injective}

abbrev pub has_node : Option ℕ → Bool
has_node none = false
has_node (some n) = true

-- An entry knows its own index; it has users exactly when it is open or being closed, and has a
-- node then.
pub record IsEntry (i : ℕ) (f : File) : Type 0 where
  pub own : f.fd ≡ i
  pub idle : (is_none f.status || is_init f.status) ≡ true → f.open_count ≡ 0
  pub used : (is_opened f.status || is_closed f.status) ≡ true → 0 < f.open_count
  pub node : (is_opened f.status || is_closed f.status) ≡ true → has_node f.node ≡ true

abbrev pub Entries : ℕ → List File → Type 0
Entries i [] = Unit
Entries i (f ∷ fs) = IsEntry i f × Entries (i + 1) fs

abbrev pub IsTable : {W : Type 0} → Sys W → Type 0
IsTable s = Entries 0 s.files

pub Entries-get :
    (k : ℕ) (fs : List File) (i : ℕ) {f : File}
    → Entries k fs
    → get_elem? fs i ≡ some f
    → IsEntry (k + i) f
Entries-get k [] i t e = absurd (cc)
Entries-get k (g ∷ fs) zero {f} t e =
    subst (λ (h : File). IsEntry (k + 0) h) (some-injective g f e)
      (subst (λ (j : ℕ). IsEntry j g) (omega arith) t.0)
Entries-get k (g ∷ fs) (suc i) {f} t e =
    subst (λ (j : ℕ). IsEntry j f) (omega arith) (Entries-get (k + 1) fs i t.1 e)

pub Entries-set :
    (k : ℕ) (fs : List File) (i : ℕ) (f : File)
    → Entries k fs
    → IsEntry (k + i) f
    → Entries k (set fs i f)
Entries-set k [] i f t e = tt
Entries-set k (g ∷ fs) zero f t e = (subst (λ (j : ℕ). IsEntry j f) (omega arith) e, t.1)
Entries-set k (g ∷ fs) (suc i) f t e =
    (t.0, Entries-set (k + 1) fs i f t.1 (subst (λ (j : ℕ). IsEntry j f) (omega arith) e))

-- `fd_array_init` makes a table of free entries, whatever was in the memory before.
pub fd_array_init-Entries : (k : ℕ) (fs : List File) → Entries k (fd_array_init k fs)
unfolding fd_array_init
fd_array_init-Entries k [] = tt
fd_array_init-Entries k (f ∷ fs) = (
  record { own = refl; idle = λ e. refl; used = λ e. absurd (cc); node = λ e. absurd (cc) },
  fd_array_init-Entries (k + 1) fs,
)

-- An entry that is not free in front of a list of which the same is known.
earlier :
    (f : File) (fs : List File) (j : ℕ)
    → is_none f.status ≡ false
    → ((l : ℕ) (g : File) → l < j → get_elem? fs l ≡ some g → g.status ≢ fd_none)
    → (l : ℕ) (g : File) → l < suc j
    → get_elem? (f ∷ fs) l ≡ some g
    → g.status ≢ fd_none
earlier f fs j n d zero g lt q = λ z. ground arith
earlier f fs j n d (suc l) g lt q = d l g (omega arith) q

-- What the search of `fd_array_alloc` finds is free, and nothing in front of it is.
pub find_none-some :
    (k : ℕ) (fs : List File) {i : ℕ}
    → find_none k fs ≡ some i
    → (j : ℕ) × (f : File) × (i ≡ k + j)
      × (get_elem? fs j ≡ some f)
      × (f.status ≡ fd_none)
      × ((l : ℕ) (g : File) → l < j → get_elem? fs l ≡ some g → g.status ≢ fd_none)
unfolding find_none
find_none-some k [] e = absurd (cc)
find_none-some k (f ∷ fs) {i} e = elim (Bool-cases (is_none f.status)) [
  | inl t ↦
      let q : some k ≡ some i = rw t at e in
      (0, f, ground arith, refl, ground arith, λ l g h. absurd (omega arith))
  | inr n ↦
      let (j, g, a, b, c, d) = find_none-some (k + 1) fs {i = i} (rw n at e) in
      (suc j, g, omega arith, b, c, earlier f fs j n d)
]
