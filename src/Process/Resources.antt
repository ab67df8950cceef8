-- ===== src/Process/Resources.antt =====
-- What kern/process/proc.c takes from the heap, the page allocator, the address spaces and the
-- tables of open files, and what it gives back.
use hard_core.Prelude.{
  ℕ, ◌+◌, ◌-◌, ◌≡◌, Bool, true, false, ◌&&◌, Option, none, some, ◌==◌, if◌then◌else◌,
}

-- The calls, on the state `W` of those parts. An address space and a table of files are known by
-- the addresses of their structures, a kernel stack by its lowest address. A return value 0 is
-- success. `lock_mm` is the call for a lock that nobody holds, which does not sleep; `by` is the
-- number of the process that takes it.
pub record Resources (W : Type 0) : Type 0 where
  pub kmalloc : W → Option ℕ × W
  pub kfree : ℕ → W → W
  pub alloc_kstack : W → Option ℕ × W
  pub free_kstack : ℕ → W → W
  pub mm_create : W → Option ℕ × W
  pub setup_pgdir : ℕ → W → ℕ × W
  pub lock_mm : (a by : ℕ) → W → W
  pub unlock_mm : ℕ → W → W
  pub dup_mmap : (to from : ℕ) → W → ℕ × W
  pub exit_mmap : ℕ → W → W
  pub put_pgdir : ℕ → W → W
  pub mm_destroy : ℕ → W → W
  pub files_create : W → Option ℕ × W
  pub dup_files : (to from : ℕ) → W → ℕ × W
  pub files_destroy : ℕ → W → W

-- What a process can hold: control blocks, kernel stacks, address spaces, their page directories
-- and mapped pages, and tables of files.
pub data Kind : Type 0 where
  block kstack mm pgdir pages files : Kind

abbrev pub same : Kind → Kind → Bool
same block block = true
same kstack kstack = true
same mm mm = true
same pgdir pgdir = true
same pages pages = true
same files files = true
same _ _ = false

abbrev pub one : Kind → ℕ → Kind → ℕ → ℕ
one j a k x = if same j k && (a == x) then 1 else 0

module _ {W : Type 0} (owned : Kind → ℕ → W → ℕ) where
  -- A call that may give something that was not in use.
  pub record Acquires (j : Kind) (w : W) (r : Option ℕ × W) : Type 0 where
    pub got :
        (a : ℕ)
        → r.0 ≡ some a
        → (owned j a w ≡ 0) × ((k : Kind) (x : ℕ) → owned k x r.1 ≡ owned k x w + one j a k x)
    pub failed : r.0 ≡ none → (k : Kind) (x : ℕ) → owned k x r.1 ≡ owned k x w

  abbrev pub Releases : Kind → ℕ → W → W → Type 0
  Releases j a w w' = (k : Kind) (x : ℕ) → owned k x w' ≡ owned k x w - one j a k x

-- How often each thing is in use, and how the calls change that.
pub record ResourceLaws {W : Type 0} (c : Resources W) : Type 0 where
  pub owned : Kind → ℕ → W → ℕ
  pub kmalloc_lem : (w : W) → Acquires owned block w (c.kmalloc w)
  pub kfree_lem : (a : ℕ) (w : W) → Releases owned block a w (c.kfree a w)
  pub alloc_kstack_lem : (w : W) → Acquires owned kstack w (c.alloc_kstack w)
  pub free_kstack_lem : (a : ℕ) (w : W) → Releases owned kstack a w (c.free_kstack a w)
  pub mm_create_lem : (w : W) → Acquires owned mm w (c.mm_create w)
  pub setup_pgdir_lem :
      (a : ℕ) (w : W) (k : Kind) (x : ℕ)
      → owned k x (c.setup_pgdir a w).1
        ≡ owned k x w + (if (c.setup_pgdir a w).0 == 0 then one pgdir a k x else 0)
  pub lock_mm_lem :
      (a by : ℕ) (w : W) (k : Kind) (x : ℕ) → owned k x (c.lock_mm a by w) ≡ owned k x w
  pub unlock_mm_lem : (a : ℕ) (w : W) (k : Kind) (x : ℕ) → owned k x (c.unlock_mm a w) ≡ owned k x w
  pub dup_mmap_lem :
      (to from : ℕ) (w : W) (k : Kind) (x : ℕ)
      → one pages to k x ≡ 0
      → owned k x (c.dup_mmap to from w).1 ≡ owned k x w
  pub exit_mmap_lem :
      (a : ℕ) (w : W) (k : Kind) (x : ℕ)
      → owned k x (c.exit_mmap a w) ≡ (if same pages k && (a == x) then 0 else owned k x w)
  pub put_pgdir_lem : (a : ℕ) (w : W) → Releases owned pgdir a w (c.put_pgdir a w)
  pub mm_destroy_lem : (a : ℕ) (w : W) → Releases owned mm a w (c.mm_destroy a w)
  pub files_create_lem : (w : W) → Acquires owned files w (c.files_create w)
  pub dup_files_lem :
      (to from : ℕ) (w : W) (k : Kind) (x : ℕ) → owned k x (c.dup_files to from w).1 ≡ owned k x w
  pub files_destroy_lem : (a : ℕ) (w : W) → Releases owned files a w (c.files_destroy a w)
