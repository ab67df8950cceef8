-- ===== src/Process/Fork/Filed.antt =====
-- kern/process/proc.c, `put_fs`: the table of files of a new process.
use hard_core.Prelude.{
  ℕ, ◌+◌, ◌-◌, ◌≤◌, ◌≡◌, refl, ◌∙◌, subst, ◌⊎◌, inl, inr, false, Option, none, some, arith, ◌==◌,
  if◌then◌else◌, Bool-cases,
}
use hard_core.Process.State.{Kernel}
use hard_core.Process.Resources.{Resources, Kind, files, one, ResourceLaws}
use hard_core.Process.Fork.{put_files, put_fs}
use hard_core.Process.Fork.Held.{Frozen, Held, Frozen-by, nothing, gave_back}
use hard_core.Schedule.Sched.{write}

-- One process more for one table.
abbrev pub hit : ℕ → ℕ → ℕ
hit f x = if f == x then 1 else 0

module _ {Q W : Type 0} {c : Resources W} (laws : ResourceLaws c) (k0 : Kernel Q W) where
  -- The table of files that a new process has: its own, or the one of the running process.
  pub data Filed (p : ℕ) (extra : Kind → ℕ → ℕ) (k : Kernel Q W) : Type 0 where
    own :
        (f : ℕ)
        → (k.pcbs p).filesp ≡ some f
        → k.files_count f ≡ 1
        → laws.owned files f k0.world ≡ 0
        → Held laws k0 k (λ j x. one files f j x + extra j x) nothing
        → Filed p extra k
    shared :
        (f : ℕ)
        → (k.pcbs p).filesp ≡ some f
        → k.files_count f ≡ k0.files_count f + 1
        → 1 ≤ k0.files_count f
        → Held laws k0 k extra (hit f)
        → Filed p extra k

  at_table :
      (f x : ℕ) (k : Kernel Q W) (n : ℕ)
      → (laws.owned files x k0.world ≡ 0) ⊎ (k.files_count x ≡ k0.files_count x + hit f x)
      → (laws.owned files f k0.world ≡ 0) ⊎ (n ≡ k0.files_count f)
      → (laws.owned files x k0.world ≡ 0) ⊎ (write k.files_count f n x ≡ k0.files_count x + 0)
  at_table f x k n h e = elim (Bool-cases (f == x)) [
    | inl t ↦
        let y : f ≡ x = ground arith in
        rw (t) (
          subst (λ z. (laws.owned files z k0.world ≡ 0) ⊎ (n ≡ k0.files_count z + 0)) y
            (elim e [ inl z ↦ inl z | inr z ↦ inr (omega arith) ]))
    | inr t ↦ rw (t) (elim h [ inl z ↦ inl z | inr z ↦ inr (z ∙ rw (t) refl) ])
  ]

  put_own :
      (f : ℕ) (extra : Kind → ℕ → ℕ) (k : Kernel Q W)
      → k.files_count f ≡ 1
      → laws.owned files f k0.world ≡ 0
      → Held laws k0 k (λ j x. one files f j x + extra j x) nothing
      → Held laws k0 (put_files c (some f) k) extra nothing
  unfolding put_files
  put_own f extra k e z h = rw (e) (record {
    ledger =
        (gave_back laws k0 k files extra nothing f (c.files_destroy f k.world) h
          (laws.files_destroy_lem f k.world)).ledger;
    tables = λ x. elim (Bool-cases (f == x)) [
      | inl t ↦
          let y : f ≡ x = ground arith in inl (subst (λ a. laws.owned files a k0.world ≡ 0) y z)
      | inr n ↦ rw (n) (h.tables x)
    ];
    spaces = h.spaces;
  })

  put_shared :
      (f : ℕ) (extra : Kind → ℕ → ℕ) (k : Kernel Q W)
      → k.files_count f ≡ k0.files_count f + 1
      → 1 ≤ k0.files_count f
      → Held laws k0 k extra (hit f)
      → Held laws k0 (put_files c (some f) k) extra nothing
  unfolding put_files
  put_shared f extra k e l h =
      let m : k.files_count f - 1 ≡ k0.files_count f = omega arith in
      let n : (k0.files_count f == 0) ≡ false = ground arith in
      rw (m) (
        rw (n) (record {
          ledger = h.ledger;
          tables = λ x. at_table f x k (k0.files_count f) (h.tables x) (inr refl);
          spaces = h.spaces;
        }))

  -- `put_fs` takes back what `copy_fs` did.
  pub put_fs-Filed :
      (p : ℕ) (extra : Kind → ℕ → ℕ) (k : Kernel Q W)
      → Filed p extra k
      → Held laws k0 (put_fs c p k) extra nothing
  unfolding put_fs
  put_fs-Filed p extra k (own f g e z h) = rw (g) (put_own f extra k e z h)
  put_fs-Filed p extra k (shared f g e l h) = rw (g) (put_shared f extra k e l h)

  -- What `copy_fs` leaves alone.
  pub record Built (p : ℕ) (k k' : Kernel Q W) : Type 0 where
    pub sched : k'.sched ≡ k.sched
    pub links : k'.links ≡ k.links
    pub frozen : Frozen k k'
    pub others : (x : ℕ) → (p == x) ≡ false → k'.pcbs x ≡ k.pcbs x
    pub kstack : (k'.pcbs p).kstack ≡ (k.pcbs p).kstack

  put_files-Built : (p : ℕ) (o : Option ℕ) (k : Kernel Q W) → Built p k (put_files c o k)
  unfolding put_files
  put_files-Built p none k = record {
    sched = refl;
    links = refl;
    frozen = Frozen-by k k.pcbs k.mm_count k.files_count k.world;
    others = λ x n. refl;
    kstack = refl;
  }
  put_files-Built p (some f) k = record {
    sched = refl;
    links = refl;
    frozen =
        let n = k.files_count f - 1 in
        Frozen-by k k.pcbs k.mm_count (write k.files_count f n)
          (if n == 0 then c.files_destroy f k.world else k.world);
    others = λ x n. refl;
    kstack = refl;
  }

  pub put_fs-Built : (p : ℕ) (k : Kernel Q W) → Built p k (put_fs c p k)
  unfolding put_fs
  put_fs-Built p k = put_files-Built p (k.pcbs p).filesp k
