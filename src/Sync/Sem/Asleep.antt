-- ===== src/Sync/Sem/Asleep.antt =====
-- The invariant of a semaphore: no process waits while there are units, and those that wait are
-- asleep, each of them once.
use hard_core.Prelude.{
  ℕ, ◌≡◌, refl, ap, ap₂, ◌∙◌, ◌⊎◌, inl, inr, Bool, true, false, not, some, List, [], ◌∷◌, arith,
  ◌==◌, if◌then◌else◌, Bool-cases, ◌∉◌, Distinct, ◌>>◌, assert,
}
use hard_core.Schedule.Sched.{
  Proc, proc_sleeping, proc_runnable, is_runnable, is_zombie, SchedClass, Sched, write,
  make_runnable, sched_class_enqueue, wakeup_proc,
}
use hard_core.Sync.Wait.{Wait, wt_ksem}
use hard_core.Sync.Sem.{Sem}

-- The processes of the waits of a queue.
unfoldable pub waiting : (ℕ → Wait) → List ℕ → List ℕ
waiting g [] = []
waiting g (w ∷ ws) = (g w).proc ∷ waiting g ws

unfoldable pub AllAsleep : (ℕ → Proc) → List ℕ → Type 0
AllAsleep f [] = Unit
AllAsleep f (p ∷ ps) = ((f p).state ≡ proc_sleeping) × ((f p).wait_state ≡ wt_ksem) × AllAsleep f ps

pub record IsValid {Q : Type 0} (s : Sem Q) : Type 0 where
  pub units : (s.value ≡ 0) ⊎ (s.wait_queue.queue ≡ [])
  pub asleep : AllAsleep s.wait_queue.sched.procs (waiting s.wait_queue.waits s.wait_queue.queue)
  pub once : Distinct s.wait_queue.queue
  pub processes : Distinct (waiting s.wait_queue.waits s.wait_queue.queue)

pub write-other {ℓ} :
    {A : Type ℓ} (f : ℕ → A) (a b : ℕ) (v : A) → (a == b) ≡ false → write f a v b ≡ f b
write-other f a b v h = ap (λ (t : Bool). if t then v else f b) h

pub write_self {ℓ} : {A : Type ℓ} (f : ℕ → A) (a : ℕ) (v : A) → write f a v a ≡ v
write_self f a v =
    let same : (a == a) ≡ true = ground arith in ap (λ (t : Bool). if t then v else f a) same

-- The sleepers do not see a change of another process.
pub AllAsleep-write :
    (f : ℕ → Proc) (p : ℕ) (v : Proc) (ps : List ℕ)
    → p ∉ ps
    → AllAsleep f ps
    → AllAsleep (write f p v) ps
unfolding AllAsleep
AllAsleep-write f p v [] h a = tt
AllAsleep-write f p v (x ∷ xs) h a =
    let other : (p == x) ≡ false = ground arith in
    (
      ap (λ q. q.state) (write-other f p x v other) ∙ a.0,
      ap (λ q. q.wait_state) (write-other f p x v other) ∙ a.1,
      AllAsleep-write f p v xs (ground arith) a.2,
    )

-- Nor does the list of them see a change of another wait.
pub waiting-write :
    (g : ℕ → Wait) (w : ℕ) (v : Wait) (ws : List ℕ)
    → w ∉ ws
    → waiting (write g w v) ws ≡ waiting g ws
unfolding waiting
waiting-write g w v [] h = refl
waiting-write g w v (x ∷ xs) h =
    let other : (w == x) ≡ false = ground arith in
    ap₂ (λ (p : ℕ) (l : List ℕ). p ∷ l) (ap (λ k. k.proc) (write-other g w x v other))
      (waiting-write g w v xs (ground arith))

module _ {Q : Type 0} (c : SchedClass Q) where
  pub procs-make_runnable :
      (p : ℕ) (s : Sched Q)
      → (make_runnable c p s).procs
        ≡ write s.procs p (record (s.procs p) { state = proc_runnable; wait_state = 0 })
  unfolding make_runnable sched_class_enqueue
  procs-make_runnable p s = elim (Bool-cases (p == s.current)) [
    | inl t ↦ rw (t) refl
    | inr f ↦ elim (Bool-cases (p == s.idleproc)) [
      | inl t ↦ rw (f, t) refl
      | inr n ↦ rw (f, n) refl
    ]
  ]

  -- A sleeping process is woken.
  pub wakes :
      (p : ℕ) (s : Sched Q)
      → (s.procs p).state ≡ proc_sleeping
      → wakeup_proc c p s ≡ some (make_runnable c p s)
  unfolding wakeup_proc
  wakes p s e =
      ap
        (λ q. assert (not (is_zombie q)) >> some (if is_runnable q then s else make_runnable c p s))
        e
