-- ===== src/Process/Fork/Spaces.antt =====
-- kern/process/proc.c, `copy_mm`: what a failed copy of an address space leaves.
use hard_core.Prelude.{
  ℕ, ◌+◌, ◌≡◌, refl, ◌∙◌, subst, ◌⊎◌, inl, inr, Bool, true, false, ◌&&◌, Option, none, some, arith,
  ◌==◌, Bool-cases,
}
use hard_core.Process.State.{Kernel}
use hard_core.Process.Resources.{
  Resources, Kind, block, kstack, mm, pgdir, pages, files, same, one, Acquires, ResourceLaws,
}
use hard_core.Process.Fork.{
  with_world, mm_copied, dup_locked, pgdir_given, mm_given, copy_mm_of, share_mm,
}
use hard_core.Process.Fork.Held.{Frozen}
use hard_core.Schedule.Sched.{write}

module _ {W : Type 0} {c : Resources W} (laws : ResourceLaws c) where
  no_mapping :
      (w : W) (m x : ℕ) (j : Kind)
      → laws.owned pages m w ≡ 0
      → (same pages j && (m == x)) ≡ true
      → laws.owned j x w ≡ 0
  no_mapping w m x block z t = absurd (cc)
  no_mapping w m x kstack z t = absurd (cc)
  no_mapping w m x mm z t = absurd (cc)
  no_mapping w m x pgdir z t = absurd (cc)
  no_mapping w m x pages z t =
      let e : m ≡ x = ground arith in subst (λ y. laws.owned pages y w ≡ 0) e z
  no_mapping w m x files z t = absurd (cc)

  -- `exit_mmap`, `put_pgdir` and `mm_destroy` behind a failed `dup_mmap`.
  undone_copy :
      (w w1 w2 w3 : W) (m : ℕ)
      → laws.owned pages m w ≡ 0
      → ((j : Kind) (x : ℕ) → laws.owned j x w1 ≡ laws.owned j x w + one mm m j x)
      → ((j : Kind) (x : ℕ) → laws.owned j x w2 ≡ laws.owned j x w1 + one pgdir m j x)
      → ((j : Kind) (x : ℕ) → one pages m j x ≡ 0 → laws.owned j x w3 ≡ laws.owned j x w2)
      → (j : Kind) (x : ℕ)
      → laws.owned j x (c.mm_destroy m (c.put_pgdir m (c.exit_mmap m w3))) ≡ laws.owned j x w
  undone_copy w w1 w2 w3 m z a b d j x =
      let e1 = laws.exit_mmap_lem m w3 j x in
      let e2 = laws.put_pgdir_lem m (c.exit_mmap m w3) j x in
      let e3 = laws.mm_destroy_lem m (c.put_pgdir m (c.exit_mmap m w3)) j x in
      let a' = a j x in
      let b' = b j x in
      elim (Bool-cases (same pages j && (m == x))) [
        | inl t ↦
            let n = no_mapping w m x j z t in
            let e1' : laws.owned j x (c.exit_mmap m w3) ≡ 0 = e1 ∙ rw (t) refl in omega arith
        | inr t ↦
            let e1' : laws.owned j x (c.exit_mmap m w3) ≡ laws.owned j x w3 = e1 ∙ rw (t) refl in
            let d' = d j x (rw (t) refl) in omega arith
      ]

module _ {Q W : Type 0} {c : Resources W} (laws : ResourceLaws c) where
  -- A failed copy has changed nothing that can be seen: no control block, no count of a thing in
  -- use, and everything it took is given back.
  pub record Unspaced (k k' : Kernel Q W) : Type 0 where
    pub pcbs : k'.pcbs ≡ k.pcbs
    pub sched : k'.sched ≡ k.sched
    pub links : k'.links ≡ k.links
    pub frozen : Frozen k k'
    pub files_count : k'.files_count ≡ k.files_count
    pub ledger : (j : Kind) (x : ℕ) → laws.owned j x k'.world ≡ laws.owned j x k.world
    pub spaces : (x : ℕ) → (laws.owned mm x k.world ≡ 0) ⊎ (k'.mm_count x ≡ k.mm_count x)

  -- The kernel with another world and a new count of 0.
  abbrev uncounted : ℕ → W → Kernel Q W → Kernel Q W
  uncounted m w k = with_world w (record k { mm_count = write k.mm_count m 0 })

  unspaced :
      (k : Kernel Q W) (m : ℕ) (w : W)
      → laws.owned mm m k.world ≡ 0
      → ((j : Kind) (x : ℕ) → laws.owned j x w ≡ laws.owned j x k.world)
      → Unspaced k (uncounted m w k)
  unspaced k m w z l = record {
    pcbs = refl;
    sched = refl;
    links = refl;
    frozen = record {
      proc_list = refl;
      hash_list = refl;
      nr_process = refl;
      initproc = refl;
      pid_state = refl;
      current = refl;
      idleproc = refl;
      queue = refl;
      timers = refl;
    };
    files_count = refl;
    ledger = l;
    spaces = λ x. elim (Bool-cases (m == x)) [
      | inl t ↦ let e : m ≡ x = ground arith in inl (subst (λ y. laws.owned mm y k.world ≡ 0) e z)
      | inr n ↦ inr (rw (n) refl)
    ];
  }

  pub record Spaced (p : ℕ) (k k' : Kernel Q W) : Type 0 where
    pub sched : k'.sched ≡ k.sched
    pub links : k'.links ≡ k.links
    pub frozen : Frozen k k'
    pub others : (x : ℕ) → (p == x) ≡ false → k'.pcbs x ≡ k.pcbs x

  pub data SpaceOutcome (p : ℕ) (k : Kernel Q W) (out : ℕ × Kernel Q W) : Type 0 where
    copied : (out.0 == 0) ≡ true → Spaced p k out.1 → SpaceOutcome p k out
    failed : (out.0 == 0) ≡ false → Unspaced k out.1 → SpaceOutcome p k out

  shared :
      (p m : ℕ) (w : W) (n : ℕ → ℕ) (k : Kernel Q W)
      → SpaceOutcome p k (0, share_mm p m (with_world w (record k { mm_count = n })))
  unfolding share_mm
  shared p m w n k = copied refl (record {
    sched = refl;
    links = refl;
    frozen = record {
      proc_list = refl;
      hash_list = refl;
      nr_process = refl;
      initproc = refl;
      pid_state = refl;
      current = refl;
      idleproc = refl;
      queue = refl;
      timers = refl;
    };
    others = λ x e. rw (e) refl;
  })

  copied_lem :
      (p m : ℕ) (r : ℕ) (w : W) (k : Kernel Q W)
      → laws.owned mm m k.world ≡ 0
      → ((j : Kind) (x : ℕ)
          → laws.owned j x (c.mm_destroy m (c.put_pgdir m (c.exit_mmap m w)))
            ≡ laws.owned j x k.world)
      → SpaceOutcome p k (mm_copied c p m (r, w) (record k { mm_count = write k.mm_count m 0 }))
  unfolding mm_copied
  copied_lem p m r w k z l = elim (Bool-cases (r == 0)) [
    | inl t ↦ rw (t) (shared p m w (write k.mm_count m 0) k)
    | inr n ↦
        rw (n) (failed n (unspaced k m (c.mm_destroy m (c.put_pgdir m (c.exit_mmap m w))) z l))
  ]

  pgdir_lem :
      (p old m : ℕ) (w1 : W) (k : Kernel Q W)
      → laws.owned mm m k.world ≡ 0
      → laws.owned pages m k.world ≡ 0
      → ((j : Kind) (x : ℕ) → laws.owned j x w1 ≡ laws.owned j x k.world + one mm m j x)
      → SpaceOutcome p k (
          pgdir_given c p old m (c.setup_pgdir m w1) (record k { mm_count = write k.mm_count m 0 }))
  unfolding pgdir_given dup_locked
  pgdir_lem p old m w1 k z n0 a = elim (Bool-cases ((c.setup_pgdir m w1).0 == 0)) [
    | inl t ↦
        let w2 = (c.setup_pgdir m w1).1 in
        let by = (k.pcbs k.sched.current).pid in
        let w3 = c.lock_mm old by w2 in
        let r = c.dup_mmap m old w3 in
        rw (t) (
          copied_lem p m r.0 (c.unlock_mm old r.1) k z (
            undone_copy laws k.world w1 w2 (c.unlock_mm old r.1) m n0 a
              (λ j x. laws.setup_pgdir_lem m w1 j x ∙ rw (t) refl)
              (λ j x e.
                laws.unlock_mm_lem old r.1 j x
                ∙ laws.dup_mmap_lem m old w3 j x e
                ∙ laws.lock_mm_lem old by w2 j x)))
    | inr n ↦
        let w2 = (c.setup_pgdir m w1).1 in
        rw (n) (
          failed refl (
            unspaced k m (c.mm_destroy m w2) z (λ j x.
              let e1 : laws.owned j x w2 ≡ laws.owned j x w1 + 0 =
                laws.setup_pgdir_lem m w1 j x ∙ rw (n) refl in
              let e2 = laws.mm_destroy_lem m w2 j x in let a' = a j x in omega arith)))
  ]

  given_lem :
      (p old : ℕ) (r : Option ℕ × W) (k : Kernel Q W)
      → ((m : ℕ) → laws.owned mm m k.world ≡ 0 → laws.owned pages m k.world ≡ 0)
      → Acquires laws.owned mm k.world r
      → SpaceOutcome p k (mm_given c p old r k)
  unfolding mm_given
  given_lem p old (none, w) k u q = failed refl (record {
    pcbs = refl;
    sched = refl;
    links = refl;
    frozen = record {
      proc_list = refl;
      hash_list = refl;
      nr_process = refl;
      initproc = refl;
      pid_state = refl;
      current = refl;
      idleproc = refl;
      queue = refl;
      timers = refl;
    };
    files_count = refl;
    ledger = q.failed refl;
    spaces = λ x. inr refl;
  })
  given_lem p old (some m, w) k u q =
      let g = q.got m refl in pgdir_lem p old m w k g.0 (u m g.0) g.1

  -- `copy_mm` of a new process, where no pages are mapped at an address that is no address space.
  pub copy_mm_lem :
      (o : Option ℕ) (vm : Bool) (p : ℕ) (k : Kernel Q W)
      → ((m : ℕ) → laws.owned mm m k.world ≡ 0 → laws.owned pages m k.world ≡ 0)
      → SpaceOutcome p k (copy_mm_of c o vm p k)
  unfolding copy_mm_of
  copy_mm_lem none vm p k u = copied refl (record {
    sched = refl;
    links = refl;
    frozen = record {
      proc_list = refl;
      hash_list = refl;
      nr_process = refl;
      initproc = refl;
      pid_state = refl;
      current = refl;
      idleproc = refl;
      queue = refl;
      timers = refl;
    };
    others = λ x e. refl;
  })
  copy_mm_lem (some old) true p k u = shared p old k.world k.mm_count k
  copy_mm_lem (some old) false p k u =
      given_lem p old (c.mm_create k.world) k u (laws.mm_create_lem k.world)
