-- ===== src/Process/Fork/Files.antt =====
-- kern/process/proc.c, `copy_fs`: the table of files that a new process gets.
use hard_core.Prelude.{
  ℕ, ◌+◌, ◌≤◌, ◌≡◌, refl, ◌∙◌, subst, ◌≢◌, inl, inr, Bool, true, false, Option, none, some, arith,
  ◌==◌, if◌then◌else◌, Bool-cases, if-both,
}
use hard_core.Process.State.{Pcb, Kernel}
use hard_core.Process.Resources.{Resources, Kind, files, one, Acquires, ResourceLaws}
use hard_core.Process.Fork.{with_world, share_files, files_copied, files_given}
use hard_core.Process.Fork.Held.{Held, Frozen-by, nothing, got, got_none, gave_back}
use hard_core.Schedule.Sched.{write}
use hard_core.Process.Fork.Filed.{Filed, Built, own, shared}

module _ {Q W : Type 0} {c : Resources W} (laws : ResourceLaws c) (k0 : Kernel Q W) where
  pub data FileOutcome (p : ℕ) (extra : Kind → ℕ → ℕ) (k : Kernel Q W) (out : ℕ × Kernel Q W)
      : Type 0 where
    copied :
        (out.0 == 0) ≡ true
        → Built laws k0 p k out.1
        → Filed laws k0 p extra out.1
        → FileOutcome p extra k out
    failed :
        (out.0 == 0) ≡ false
        → Built laws k0 p k out.1
        → Held laws k0 out.1 extra nothing
        → FileOutcome p extra k out

  pcb_with : (p f : ℕ) (k : Kernel Q W) → Pcb
  pcb_with p f k = record (k.pcbs p) { filesp = some f }

  share_new :
      (p f : ℕ) (w : W) (extra : Kind → ℕ → ℕ) (k : Kernel Q W)
      → laws.owned files f k0.world ≡ 0
      → Held laws k0 (with_world w k) (λ j x. one files f j x + extra j x) nothing
      → FileOutcome p extra k
          (0, share_files p f (with_world w (record k { files_count = write k.files_count f 0 })))
  unfolding share_files
  share_new p f w extra k z h =
      let self : (p == p) ≡ true = ground arith in
      let here : (f == f) ≡ true = ground arith in
      copied refl
        (record {
          sched = refl;
          links = refl;
          frozen =
              let n = write k.files_count f 0 in
              Frozen-by k (share_files p f k).pcbs k.mm_count (write n f (n f + 1)) w;
          others = λ x n. rw (n) refl;
          kstack = rw (self) refl;
        })
        (own f (rw (self) refl) (rw (here) refl) z (record {
          ledger = h.ledger;
          tables = λ x. elim (Bool-cases (f == x)) [
            | inl t ↦
                let y : f ≡ x = ground arith in
                inl (subst (λ a. laws.owned files a k0.world ≡ 0) y z)
            | inr n ↦ rw (n) (h.tables x)
          ];
          spaces = h.spaces;
        }))

  dropped :
      (p f r : ℕ) (w : W) (extra : Kind → ℕ → ℕ) (k : Kernel Q W)
      → (r == 0) ≡ false
      → laws.owned files f k0.world ≡ 0
      → Held laws k0 (with_world w k) (λ j x. one files f j x + extra j x) nothing
      → FileOutcome p extra k
          (r, with_world (c.files_destroy f w) (record k { files_count = write k.files_count f 0 }))
  dropped p f r w extra k n z h =
      failed n
        (record {
          sched = refl;
          links = refl;
          frozen = Frozen-by k k.pcbs k.mm_count (write k.files_count f 0) (c.files_destroy f w);
          others = λ x e. refl;
          kstack = refl;
        })
        (record {
          ledger =
              (gave_back laws k0 (with_world w k) files extra nothing f (c.files_destroy f w) h
                (laws.files_destroy_lem f w)).ledger;
          tables = λ x. elim (Bool-cases (f == x)) [
            | inl t ↦
                let y : f ≡ x = ground arith in
                inl (subst (λ a. laws.owned files a k0.world ≡ 0) y z)
            | inr m ↦ rw (m) (h.tables x)
          ];
          spaces = h.spaces;
        })

  files_given_lem :
      (p old : ℕ) (extra : Kind → ℕ → ℕ) (r : Option ℕ × W) (k : Kernel Q W)
      → Held laws k0 k extra nothing
      → Acquires laws.owned files k.world r
      → FileOutcome p extra k (files_given c p old r k)
  unfolding files_given files_copied
  files_given_lem p old extra (none, w) k h q =
      failed refl
        (record {
          sched = refl;
          links = refl;
          frozen = Frozen-by k k.pcbs k.mm_count k.files_count w;
          others = λ x e. refl;
          kstack = refl;
        })
        (got_none laws k0 k files extra nothing (none, w) h q refl)
  files_given_lem p old extra (some f, w) k h q =
      let g = (q.got f refl).0 in
      let l = h.ledger files f in
      let z : laws.owned files f k0.world ≡ 0 = omega arith in
      let w' = (c.dup_files f old w).1 in
      let a = got laws k0 k files extra nothing f (some f, w) h q refl in
      let h' : Held laws k0 (with_world w' k) (λ j x. one files f j x + extra j x) nothing =
        record {
          ledger = λ j x. laws.dup_files_lem f old w j x ∙ a.ledger j x;
          tables = h.tables;
          spaces = h.spaces;
        } in
      elim (Bool-cases ((c.dup_files f old w).0 == 0)) [
        | inl t ↦ rw (t) (share_new p f w' extra k z h')
        | inr n ↦ rw (n) (dropped p f (c.dup_files f old w).0 w' extra k n z h')
      ]

  share_old :
      (p f : ℕ) (extra : Kind → ℕ → ℕ) (k : Kernel Q W)
      → Held laws k0 k extra nothing
      → laws.owned files f k0.world ≢ 0
      → 1 ≤ k0.files_count f
      → FileOutcome p extra k (0, share_files p f k)
  unfolding share_files
  share_old p f extra k h u l =
      let self : (p == p) ≡ true = ground arith in
      let here : (f == f) ≡ true = ground arith in
      let now : k.files_count f ≡ k0.files_count f = elim (h.tables f) [
        | inl z ↦ absurd (u z)
        | inr e ↦ omega arith
      ] in
      copied refl
        (record {
          sched = refl;
          links = refl;
          frozen =
              Frozen-by k (share_files p f k).pcbs k.mm_count
                (write k.files_count f (k.files_count f + 1)) k.world;
          others = λ x n. rw (n) refl;
          kstack = rw (self) refl;
        })
        (shared f (rw (self) refl) (rw (here) (omega arith)) l (record {
          ledger = h.ledger;
          tables = λ x. elim (Bool-cases (f == x)) [
            | inl t ↦
                let y : f ≡ x = ground arith in
                rw (t)
                  (inr (subst (λ z. k.files_count f + 1 ≡ k0.files_count z + 1) y (omega arith)))
            | inr n ↦ rw (n) (h.tables x)
          ];
          spaces = h.spaces;
        }))

  -- `copy_fs` of a new process whose parent has the table of files `old`.
  pub copy_fs_lem :
      (p old : ℕ) (fs : Bool) (extra : Kind → ℕ → ℕ) (k : Kernel Q W)
      → Held laws k0 k extra nothing
      → laws.owned files old k0.world ≢ 0
      → 1 ≤ k0.files_count old
      → FileOutcome p extra k
          (if fs then (0, share_files p old k) else files_given c p old (c.files_create k.world) k)
  copy_fs_lem p old fs extra k h u l =
      if-both (FileOutcome p extra k) fs (share_old p old extra k h u l)
        (files_given_lem p old extra (c.files_create k.world) k h (laws.files_create_lem k.world))
