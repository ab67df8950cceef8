-- ===== src/Process/Sample.antt =====
-- What kern/process/proc.c takes from the heap and its like, in a small instance for the examples.
use hard_core.Prelude.{
  ℕ, ◌+◌, ◌-◌, ◌≡◌, refl, subst, inl, inr, ◌&&◌, Option, none, some, arith, ◌==◌, if◌then◌else◌,
  Bool-cases,
}
use hard_core.Process.Resources.{
  Resources, Kind, block, kstack, mm, pgdir, pages, files, same, one, Acquires, ResourceLaws,
}

-- A world that counts what is in use, with one thing of each kind to give. A copy of an
-- address space maps one page.
abbrev pub Counts : Type 0
Counts = Kind → ℕ → ℕ

abbrev pub add : Kind → ℕ → Counts → Counts
add j a w k x = w k x + one j a k x

abbrev pub sub : Kind → ℕ → Counts → Counts
sub j a w k x = w k x - one j a k x

abbrev pub give : Kind → ℕ → Counts → Option ℕ × Counts
give j a w = if w j a == 0 then (some a, add j a w) else (none, w)

abbrev pub counted : Kind → ℕ → Counts → ℕ
counted k x w = w k x

abbrev pub small : Resources Counts
small = record {
  kmalloc = give block 100;
  kfree = sub block;
  alloc_kstack = give kstack 0x2000;
  free_kstack = sub kstack;
  mm_create = give mm 300;
  setup_pgdir = λ a w. (0, add pgdir a w);
  lock_mm = λ a by w. w;
  unlock_mm = λ a w. w;
  dup_mmap = λ to from w. (0, add pages to w);
  exit_mmap = λ a w k x. if same pages k && (a == x) then 0 else w k x;
  put_pgdir = sub pgdir;
  mm_destroy = sub mm;
  files_create = give files 400;
  dup_files = λ to from w. (0, w);
  files_destroy = sub files;
}

pub give-Acquires : (j : Kind) (a : ℕ) (w : Counts) → Acquires counted j w (give j a w)
give-Acquires j a w = elim (Bool-cases (w j a == 0)) [
  | inl t ↦ rw (t) (record {
    got = λ b e.
        let y : a ≡ b = ground arith in
        subst
          (λ z.
            (counted j z w ≡ 0)
            × ((k : Kind) (x : ℕ) → counted k x (add j a w) ≡ counted k x w + one j z k x))
          y (ground arith, λ k x. refl);
    failed = λ e. absurd (cc);
  })
  | inr n ↦ rw (n) (record { got = λ b e. absurd (cc); failed = λ e k x. refl })
]

abbrev pub small_laws : ResourceLaws small
small_laws = record {
  owned = counted;
  kmalloc_lem = λ w. give-Acquires block 100 w;
  kfree_lem = λ a w k x. refl;
  alloc_kstack_lem = λ w. give-Acquires kstack 0x2000 w;
  free_kstack_lem = λ a w k x. refl;
  mm_create_lem = λ w. give-Acquires mm 300 w;
  setup_pgdir_lem = λ a w k x. refl;
  lock_mm_lem = λ a by w k x. refl;
  unlock_mm_lem = λ a w k x. refl;
  dup_mmap_lem = λ to from w k x e. omega arith;
  exit_mmap_lem = λ a w k x. refl;
  put_pgdir_lem = λ a w k x. refl;
  mm_destroy_lem = λ a w k x. refl;
  files_create_lem = λ w. give-Acquires files 400 w;
  dup_files_lem = λ to from w k x. refl;
  files_destroy_lem = λ a w k x. refl;
}
