-- ===== src/Process/Fork/Outcome.antt =====
-- kern/process/proc.c, `do_fork`: the outcome of a call, on all paths.
use hard_core.Prelude.{
  ℕ, ◌+◌, ◌-◌, ◌<◌, ◌≡◌, refl, sym, ap, ◌∙◌, subst, ◌⊎◌, inl, inr, Bool, true, false, Option, none,
  some, List, ◌∷◌, arith, ◌==◌, if◌then◌else◌, Bool-cases, has, ◌∉◌, ◌>>=◌, bind-some,
}
use hard_core.Process.Pids.{max_process}
use hard_core.Process.Family.{Links}
use hard_core.Process.State.{Result, ok, e_no_mem, Frame, Pcb, Kernel, set_pcb}
use hard_core.Process.Table.{enter}
use hard_core.Process.Table.Enter.{enter_lem}
use hard_core.Process.Resources.{
  Resources, Kind, block, kstack, mm, pages, files, one, Acquires, ResourceLaws,
}
use hard_core.Process.Fork.{
  CloneFlags, with_world, kstack_given, put_kstack, copy_mm, copy_fs, copy_fs_of, put_fs,
  share_files, files_given, cleanup_proc, cleanup_kstack, cleanup_fs, copy_thread, start, with_mm,
  with_fs, with_kstack,
}
use hard_core.Process.Fork.Held.{Frozen, Kept, Held, Frozen-by, nothing, got, got_none, gave_back}
use hard_core.Process.Fork.Filed.{Filed, own, shared, hit, put_fs-Filed, put_fs-Built}
use hard_core.Process.Fork.Files.{FileOutcome, copy_fs_lem}
use hard_core.Process.Fork.Files as F
use hard_core.Process.Fork.Spaces as S
use hard_core.Process.Fork.Spaces.{Unspaced, Spaced, SpaceOutcome, copy_mm_lem}
use hard_core.Process.Fork.Built.{kept_step, pids_kept, IsTable-kept, family_kept}
use hard_core.Process.Fork.Forked.{
  IsSystem, CanFork, no_extra, Unchanged, Forked, refused, forked, wakes_new, made_runnable,
  with_sched-IsTable,
}
use hard_core.Schedule.Sched.{proc_uninit, SchedClass, Sched, wakeup_proc, make_runnable}

module _ {Q W : Type 0} {c : Resources W} (laws : ResourceLaws c) (k0 : Kernel Q W)
    (kids : ℕ → List ℕ) (v : IsSystem laws k0 kids) (p : ℕ)
    (new : laws.owned block p k0.world ≡ 0) where
  abbrev pub given_extra : Kind → ℕ → ℕ
  given_extra j x = one block p j x + no_extra j x

  unlisted : p ∉ k0.proc_list
  unlisted = elim (Bool-cases (has p k0.proc_list)) [
    | inl m ↦ absurd (v.listed p m new)
    | inr n ↦ n
  ]

  no_kid : (r : ℕ) → p ∉ kids r
  no_kid r = elim (Bool-cases (has p (kids r))) [
    | inl m ↦ absurd (v.kids_owned r p m new)
    | inr n ↦ n
  ]

  -- All is given back: the call is refused.
  refusal :
      (e : ℕ) (k : Kernel Q W) → Kept k0 k p → Held laws k0 k no_extra nothing → Unchanged laws k0 k
  refusal e k h l = record {
    frozen = h.frozen;
    at = λ x o. h.at x (elim (Bool-cases (p == x)) [
      | inl t ↦
          let same : p ≡ x = ground arith in
          absurd (o (subst (λ z. laws.owned block z k0.world ≡ 0) same new))
      | inr n ↦ n
    ]);
    held = l;
  }

  cleaned_proc :
      (k : Kernel Q W)
      → Kept k0 k p
      → Held laws k0 k given_extra nothing
      → Forked laws kids k0 (cleanup_proc c p k)
  unfolding cleanup_proc
  cleaned_proc k h l =
      let k' = with_world (c.kfree p k.world) k in
      refused e_no_mem k' refl (
        refusal e_no_mem k'
          (kept_step k0 k k' p h refl refl
            (Frozen-by k k.pcbs k.mm_count k.files_count (c.kfree p k.world)) (λ x n. refl))
          (gave_back laws k0 k block no_extra nothing p (c.kfree p k.world) l
            (laws.kfree_lem p k.world)))

  cleaned_kstack :
      (k : Kernel Q W) (a : ℕ)
      → Kept k0 k p
      → (k.pcbs p).kstack ≡ a
      → Held laws k0 k (λ j x. one kstack a j x + given_extra j x) nothing
      → Forked laws kids k0 (cleanup_kstack c p k)
  unfolding cleanup_kstack put_kstack
  cleaned_kstack k a h e l =
      let w = c.free_kstack (k.pcbs p).kstack k.world in
      cleaned_proc (with_world w k)
        (kept_step k0 k (with_world w k) p h refl refl
          (Frozen-by k k.pcbs k.mm_count k.files_count w) (λ x n. refl))
        (gave_back laws k0 k kstack given_extra nothing a w l (λ i x.
          laws.free_kstack_lem (k.pcbs p).kstack k.world i x
          ∙ ap (λ b. laws.owned i x k.world - one kstack b i x) e))

  cleaned_fs :
      (k : Kernel Q W) (a : ℕ)
      → Kept k0 k p
      → (k.pcbs p).kstack ≡ a
      → Filed laws k0 p (λ j x. one kstack a j x + given_extra j x) k
      → Forked laws kids k0 (cleanup_fs c p k)
  unfolding cleanup_fs
  cleaned_fs k a h e l =
      let b = put_fs-Built laws k0 p k in
      cleaned_kstack (put_fs c p k) a
        (kept_step k0 k (put_fs c p k) p h b.sched b.links b.frozen b.others) (b.kstack ∙ e)
        (put_fs-Filed laws k0 p (λ j x. one kstack a j x + given_extra j x) k l)

  module _ (sched_class : SchedClass Q) (forkret : ℕ) (room : k0.nr_process < max_process) where
    -- The new process before it is entered.
    pub record Unborn (k : Kernel Q W) : Type 0 where
      pub kept : Kept k0 k p
      pub state : (k.sched.procs p).state ≡ proc_uninit
      pub parent : k.links.parent p ≡ some k0.sched.current
      pub childless : k.links.cptr p ≡ none

    thread_kept :
        (esp : ℕ) (frame : Frame) (k : Kernel Q W)
        → Kept k0 k p
        → Kept k0 (copy_thread forkret p esp frame k) p
    unfolding copy_thread
    thread_kept esp frame k h =
        let k1 = copy_thread forkret p esp frame k in
        kept_step k0 k k1 p h refl refl (Frozen-by k k1.pcbs k.mm_count k.files_count k.world)
          (λ x n. rw (n) refl)

    -- `copy_thread` lets the scheduler and the links alone.
    thread_sched :
        (esp : ℕ) (frame : Frame) (k : Kernel Q W)
        → ((copy_thread forkret p esp frame k).sched ≡ k.sched)
          × ((copy_thread forkret p esp frame k).links ≡ k.links)
    unfolding copy_thread
    thread_sched esp frame k = (refl, refl)

    started :
        (esp : ℕ) (frame : Frame) (k : Kernel Q W)
        → Unborn k
        → Forked laws kids k0 (start sched_class c forkret p esp frame k)
    unfolding start
    started esp frame k u =
        let k1 = copy_thread forkret p esp frame k in
        let h = thread_kept esp frame k u.kept in
        let (s, l) = thread_sched esp frame k in
        let g =
          enter_lem p k0.sched.current kids k1 (IsTable-kept k0 k1 p h unlisted v.table)
            (family_kept k0 k1 p kids h no_kid (v.parents_owned p new)
              (ap (λ (z : Links). z.cptr p) l ∙ u.childless) v.family)
            (subst (λ n. n < max_process) (sym h.frozen.nr_process) room)
            (subst (λ z. p ∉ z) (sym h.frozen.proc_list) unlisted) no_kid
            (ap (λ (z : Links). z.parent p) l ∙ u.parent) in
        let wake : Kernel Q W → Option (Result ℕ × Kernel Q W) = λ k'.
          wakeup_proc sched_class p k'.sched >>= λ s'.
          some (ok (k'.pcbs p).pid, record k' { sched = s' }) in
        let last : Sched Q → Option (Result ℕ × Kernel Q W) =
          λ s'. some (ok (g.after.pcbs p).pid, record g.after { sched = s' }) in
        let s' = make_runnable sched_class p g.after.sched in
        forked p (record g.after { sched = s' })
          (bind-some (enter p k1) wake g.gives
            ∙ bind-some (wakeup_proc sched_class p g.after.sched) last (
                wakes_new sched_class p g.after.sched
                  (ap (λ (z : Sched Q). (z.procs p).state) (g.sched ∙ s) ∙ u.state)))
          (record {
            table = with_sched-IsTable g.after s' g.table;
            family = g.family;
            listed = g.listed ∙ ap (λ (z : List ℕ). p ∷ z) h.frozen.proc_list;
            fresh = subst (λ z. (g.after.pcbs p).pid ∉ z) (pids_kept k0 k1 p h unlisted) g.fresh;
            runnable = made_runnable sched_class p g.after.sched;
          })

    Unborn-step :
        (k k' : Kernel Q W)
        → Unborn k
        → k'.sched ≡ k.sched
        → k'.links ≡ k.links
        → Frozen k k'
        → ((x : ℕ) → (p == x) ≡ false → k'.pcbs x ≡ k.pcbs x)
        → Unborn k'
    Unborn-step k k' u s l f o = record {
      kept = kept_step k0 k k' p u.kept s l f o;
      state = ap (λ (z : Sched Q). (z.procs p).state) s ∙ u.state;
      parent = ap (λ (z : Links). z.parent p) l ∙ u.parent;
      childless = ap (λ (z : Links). z.cptr p) l ∙ u.childless;
    }

    abbrev with_stack : ℕ → Kind → ℕ → ℕ
    with_stack a j x = one kstack a j x + given_extra j x

    held_step :
        (k k' : Kernel Q W) (extra : Kind → ℕ → ℕ) (shares : ℕ → ℕ)
        → Unspaced laws k k'
        → Held laws k0 k extra shares
        → Held laws k0 k' extra shares
    held_step k k' extra shares s h = record {
      ledger = λ j x. s.ledger j x ∙ h.ledger j x;
      tables = λ x.
          subst (λ n. (laws.owned files x k0.world ≡ 0) ⊎ (n ≡ k0.files_count x + shares x))
            (sym (ap (λ n. n x) s.files_count)) (h.tables x);
      spaces = λ x. elim (s.spaces x) [
        | inl z ↦ let l = h.ledger mm x in inl (omega arith)
        | inr e ↦ elim (h.spaces x) [ inl z ↦ inl z | inr e' ↦ inr (e ∙ e') ]
      ];
    }

    Filed-step :
        (a : ℕ) (k k' : Kernel Q W)
        → Unspaced laws k k'
        → Filed laws k0 p (with_stack a) k
        → Filed laws k0 p (with_stack a) k'
    Filed-step a k k' s (own f g e z h) =
        own f (ap (λ (z : ℕ → Pcb). (z p).filesp) s.pcbs ∙ g) (ap (λ n. n f) s.files_count ∙ e) z
          (held_step k k' (λ j x. one files f j x + with_stack a j x) nothing s h)
    Filed-step a k k' s (shared f g e l h) =
        shared f (ap (λ (z : ℕ → Pcb). (z p).filesp) s.pcbs ∙ g) (ap (λ n. n f) s.files_count ∙ e) l
          (held_step k k' (with_stack a) (hit f) s h)

    unmapped_now :
        (a : ℕ) (k : Kernel Q W)
        → Filed laws k0 p (with_stack a) k
        → (m : ℕ) → laws.owned mm m k.world ≡ 0
        → laws.owned pages m k.world ≡ 0
    unmapped_now a k (own f g e z h) m n =
        let l = h.ledger mm m in
        let u = v.unmapped m (omega arith) in let l' = h.ledger pages m in omega arith
    unmapped_now a k (shared f g e l h) m n =
        let i = h.ledger mm m in
        let u = v.unmapped m (omega arith) in let i' = h.ledger pages m in omega arith

    spaced :
        (a esp : ℕ) (frame : Frame) (k : Kernel Q W) (out : ℕ × Kernel Q W)
        → Unborn k
        → (k.pcbs p).kstack ≡ a
        → Filed laws k0 p (with_stack a) k
        → SpaceOutcome laws p k out
        → Forked laws kids k0 (with_mm sched_class c forkret p esp frame out)
    unfolding with_mm
    spaced a esp frame k out u e l (S.copied z s) =
        rw (z) (started esp frame out.1 (Unborn-step k out.1 u s.sched s.links s.frozen s.others))
    spaced a esp frame k out u e l (S.failed z s) =
        let u' = Unborn-step k out.1 u s.sched s.links s.frozen (λ x n. ap (λ f. f x) s.pcbs) in
        rw (z) (
          cleaned_fs out.1 a u'.kept (ap (λ (f : ℕ → Pcb). (f p).kstack) s.pcbs ∙ e)
            (Filed-step a k out.1 s l))

    module _ (f : ℕ) (r : CanFork laws k0 f) where
      filed :
          (vm : Bool) (a esp : ℕ) (frame : Frame) (k : Kernel Q W) (out : ℕ × Kernel Q W)
          → Unborn k
          → (k.pcbs p).kstack ≡ a
          → Held laws k0 k (with_stack a) nothing
          → FileOutcome laws k0 p (with_stack a) k out
          → Forked laws kids k0 (with_fs sched_class c forkret vm p esp frame out)
      unfolding with_fs copy_mm
      filed vm a esp frame k out u e h (F.copied z b l) =
          let u' = Unborn-step k out.1 u b.sched b.links b.frozen b.others in
          rw (z) (
            spaced a esp frame out.1 (copy_mm c vm p out.1) u' (b.kstack ∙ e) l (
              copy_mm_lem laws (out.1.pcbs out.1.sched.current).mm vm p out.1
                (unmapped_now a out.1 l)))
      filed vm a esp frame k out u e h (F.failed z b l) =
          let u' = Unborn-step k out.1 u b.sched b.links b.frozen b.others in
          rw (z) (cleaned_kstack out.1 a u'.kept (b.kstack ∙ e) l)

      pub other : (p == k0.sched.current) ≡ false
      other = elim (Bool-cases (p == k0.sched.current)) [
        | inl t ↦
            let same : p ≡ k0.sched.current = ground arith in
            absurd (r.block (subst (λ z. laws.owned block z k0.world ≡ 0) same new))
        | inr n ↦ n
      ]

      files_of : (k : Kernel Q W) → Kept k0 k p → (k.pcbs k.sched.current).filesp ≡ some f
      files_of k h =
          ap (λ x. (k.pcbs x).filesp) h.frozen.current
          ∙ ap (λ (w : Pcb). w.filesp) (h.at k0.sched.current other).pcb
          ∙ r.filesp

      with_files :
          (flags : CloneFlags) (a esp : ℕ) (frame : Frame) (k : Kernel Q W)
          → Unborn k
          → (k.pcbs p).kstack ≡ a
          → Held laws k0 k (with_stack a) nothing
          → Forked laws kids k0 (
              copy_fs c flags.clone_fs p k >>= λ s.
              with_fs sched_class c forkret flags.clone_vm p esp frame s)
      unfolding copy_fs copy_fs_of
      with_files flags a esp frame k u e h = rw (files_of k u.kept) (
          filed flags.clone_vm a esp frame k
            (if flags.clone_fs
              then (0, share_files p f k)
              else files_given c p f (c.files_create k.world) k)
            u e h (copy_fs_lem laws k0 p f flags.clone_fs (with_stack a) k h r.in_use r.counted))

      pub stacked :
          (flags : CloneFlags) (esp : ℕ) (frame : Frame) (k : Kernel Q W) (q : Option ℕ × W)
          → Unborn k
          → Held laws k0 k given_extra nothing
          → Acquires laws.owned kstack k.world q
          → Forked laws kids k0
              (with_kstack sched_class c forkret flags p esp frame (kstack_given c p q k))
      unfolding with_kstack kstack_given
      stacked flags esp frame k (none, w) u h q =
          cleaned_proc (with_world w k)
            (kept_step k0 k (with_world w k) p u.kept refl refl
              (Frozen-by k k.pcbs k.mm_count k.files_count w) (λ x n. refl))
            (got_none laws k0 k kstack given_extra nothing (none, w) h q refl)
      stacked flags esp frame k (some a, w) u h q =
          let self : (p == p) ≡ true = ground arith in
          let k1 = with_world w (set_pcb p (record (k.pcbs p) { kstack = a }) k) in
          let g = got laws k0 k kstack given_extra nothing a (some a, w) h q refl in
          with_files flags a esp frame k1
            (Unborn-step k k1 u refl refl (Frozen-by k k1.pcbs k.mm_count k.files_count w)
              (λ x n. rw (n) refl))
            (rw (self) refl) (record { ledger = g.ledger; tables = g.tables; spaces = g.spaces })
