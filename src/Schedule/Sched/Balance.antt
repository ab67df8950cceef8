-- ===== src/Schedule/Sched/Balance.antt =====
-- What the scheduler asks of a scheduling class, and the invariant that it keeps with one: the run
-- queue holds the runnable processes that do not run, without the idle one.
use hard_core.Prelude.{
  ℕ, ◌+◌, ◌≡◌, refl, sym, ap, ◌∙◌, subst, ◌⊎◌, inl, inr, Bool, true, false, not, ◌&&◌, ◌||◌, Option,
  none, some, arith, ◌==◌, if◌then◌else◌, Bool-cases, Option-cases, past_assert,
}
use hard_core.Schedule.Sched.{
  Proc, proc_runnable, is_runnable, is_zombie, SchedClass, Sched, write, set_proc,
  sched_class_enqueue, sched_class_dequeue, make_runnable, wakeup_proc, requeue, pick, run_next,
  schedule,
}

-- The run queue of a class as the set of the processes that wait in it, while the queue is valid.
-- A process joins, and is charged for a tick, only while it is not queued; and the class only has to
-- take out the process that it has picked.
pub record ClassLaws {Q : Type 0} (c : SchedClass Q) : Type 1 where
  pub valid : Q → Type 0
  pub queued : ℕ → Q → Bool
  pub joined :
      (p : ℕ) (q : Q)
      → valid q
      → queued p q ≡ false
      → valid (c.enqueue p q) × ((r : ℕ) → queued r (c.enqueue p q) ≡ ((p == r) || queued r q))
  pub picked :
      (q : Q) (n : ℕ)
      → valid q
      → (c.pick_next q).0 ≡ some n
      → (queued n q ≡ true)
        × valid (c.dequeue n (c.pick_next q).1)
        × ((r : ℕ) → queued r (c.dequeue n (c.pick_next q).1) ≡ (not (n == r) && queued r q))
  pub empty :
      (q : Q)
      → valid q
      → (c.pick_next q).0 ≡ none
      → valid (c.pick_next q).1
        × ((r : ℕ) → (queued r q ≡ false) × (queued r (c.pick_next q).1 ≡ false))
  pub charged :
      (p : ℕ) (q : Q)
      → valid q
      → queued p q ≡ false
      → valid (c.proc_tick p q).1 × ((r : ℕ) → queued r (c.proc_tick p q).1 ≡ queued r q)

abbrev pub waits : {Q : Type 0} → Sched Q → ℕ → Bool
waits s r = is_runnable (s.procs r).state && not (r == s.idleproc)

now_runnable :
    (f : ℕ → Proc) (p r : ℕ)
    → is_runnable (write f p (record (f p) { state = proc_runnable; wait_state = 0 }) r).state
      ≡ ((p == r) || is_runnable (f r).state)
now_runnable f p r = elim (Bool-cases (p == r)) [ inl t ↦ rw (t) refl | inr n ↦ rw (n) refl ]

pub state_kept :
    (f : ℕ → Proc) (p w : ℕ) (again : Bool) (runs r : ℕ)
    → (write f p
        (record { state = (f p).state; wait_state = w; need_resched = again; runs = runs })
        r).state
      ≡ (f r).state
state_kept f p w again runs r = elim (Bool-cases (p == r)) [
  | inl t ↦ let same : p ≡ r = ground arith in rw (t) (ap (λ x. (f x).state) same)
  | inr n ↦ rw (n) refl
]

module _ {Q : Type 0} {c : SchedClass Q} (laws : ClassLaws c) where
  unfoldable pub IsBalanced : Sched Q → Type 0
  IsBalanced s =
      laws.valid s.queue × ((r : ℕ) → laws.queued r s.queue ≡ (waits s r && not (r == s.current)))

  -- A process that is not queued joins the others, unless it is the idle one.
  enqueued :
      (p : ℕ) (s : Sched Q)
      → laws.valid s.queue
      → laws.queued p s.queue ≡ false
      → laws.valid (sched_class_enqueue c p s).queue
        × ((r : ℕ)
            → laws.queued r (sched_class_enqueue c p s).queue
              ≡ (laws.queued r s.queue || ((p == r) && not (p == s.idleproc))))
  unfolding sched_class_enqueue
  enqueued p s v h =
      let choose : Bool → Sched Q =
        λ b. if b then s else record s { queue = c.enqueue p s.queue } in
      let Fine : Sched Q → Type 0 = λ k.
        laws.valid k.queue
        × ((r : ℕ)
            → laws.queued r k.queue
              ≡ (laws.queued r s.queue || ((p == r) && not (p == s.idleproc)))) in
      elim (Bool-cases (p == s.idleproc)) [
        | inl t ↦ subst Fine (sym (ap choose t)) (v, λ r. ground arith)
        | inr f ↦
            let j = laws.joined p s.queue v h in
            subst Fine (sym (ap choose f)) (j.0, λ r. j.1 r ∙ ground arith)
      ]

  pub record Frame (s s' : Sched Q) : Type 0 where
    pub procs : s'.procs ≡ s.procs
    pub current : s'.current ≡ s.current
    pub idleproc : s'.idleproc ≡ s.idleproc

  pub enqueue-Frame : (p : ℕ) (s : Sched Q) → Frame s (sched_class_enqueue c p s)
  unfolding sched_class_enqueue
  enqueue-Frame p s = elim (Bool-cases (p == s.idleproc)) [
    | inl t ↦ rw (t) record { procs = refl; current = refl; idleproc = refl }
    | inr f ↦ rw (f) record { procs = refl; current = refl; idleproc = refl }
  ]

  make_runnable-IsBalanced :
      (p : ℕ) (s : Sched Q)
      → is_runnable (s.procs p).state ≡ false
      → IsBalanced s
      → IsBalanced (make_runnable c p s)
  unfolding make_runnable IsBalanced
  make_runnable-IsBalanced p s n b =
      let s1 = set_proc p (record (s.procs p) { state = proc_runnable; wait_state = 0 }) s in
      let choose : Bool → Sched Q = λ t. if t then s1 else sched_class_enqueue c p s1 in
      let Fine : Sched Q → Type 0 = λ k.
        laws.valid k.queue
        × ((r : ℕ) → laws.queued r k.queue ≡ (waits k r && not (r == k.current))) in
      elim (Bool-cases (p == s.current)) [
        | inl t ↦
            subst Fine (sym (ap choose t))
              (b.0, λ r. let before = b.1 r in let woken = now_runnable s.procs p r in ground arith)
        | inr f ↦
            let frame = enqueue-Frame p s1 in
            let free : laws.queued p s.queue ≡ false =
              b.1 p ∙ ap (λ t. t && not (p == s.idleproc) && not (p == s.current)) n in
            let after = enqueued p s1 b.0 free in
            subst Fine (sym (ap choose f)) (
              after.0,
              λ r.
                  let before = b.1 r in
                  let woken = now_runnable s.procs p r in
                  rw (after.1 r, frame.procs, frame.current, frame.idleproc) ground
                    (arith, before, woken),
            )
      ]

  -- A wake-up that fails no assertion keeps the run queue balanced: it holds exactly the runnable
  -- processes that do not run, without the idle one.
  pub wakeup_proc-IsBalanced :
      (p : ℕ) (s : Sched Q) {s' : Sched Q}
      → wakeup_proc c p s ≡ some s'
      → IsBalanced s
      → IsBalanced s'
  unfolding wakeup_proc
  wakeup_proc-IsBalanced p s {s' = s'} e b =
      let live = past_assert (not (is_zombie (s.procs p).state)) _ e in
      let choose : Bool → Sched Q = λ t. if t then s else make_runnable c p s in
      elim (Bool-cases (is_runnable (s.procs p).state)) [
        | inl t ↦
            let same : some s ≡ some s' = sym (ap (λ x. some (choose x)) t) ∙ live in
            subst IsBalanced (cc) b
        | inr f ↦
            let same : some (make_runnable c p s) ≡ some s' =
              sym (ap (λ x. some (choose x)) f) ∙ live in
            subst IsBalanced (cc) (make_runnable-IsBalanced p s f b)
      ]

  -- What the queue holds once the running process has joined it.
  unfoldable AllWait : Sched Q → Type 0
  AllWait s = laws.valid s.queue × ((r : ℕ) → laws.queued r s.queue ≡ waits s r)

  requeue-AllWait : (s : Sched Q) → IsBalanced s → AllWait (requeue c s)
  unfolding requeue IsBalanced AllWait
  requeue-AllWait s b =
      let v = s.procs s.current in
      let s1 = set_proc s.current (record v { need_resched = false }) s in
      let choose : Bool → Sched Q = λ t. if t then sched_class_enqueue c s.current s1 else s1 in
      let kept = state_kept s.procs s.current v.wait_state false v.runs in
      let Fine : Sched Q → Type 0 =
        λ k. laws.valid k.queue × ((r : ℕ) → laws.queued r k.queue ≡ waits k r) in
      elim (Bool-cases (is_runnable v.state)) [
        | inl t ↦
            let frame = enqueue-Frame s.current s1 in
            let free : laws.queued s.current s.queue ≡ false = b.1 s.current ∙ ground arith in
            let after = enqueued s.current s1 b.0 free in
            subst Fine (sym (ap choose t)) (
              after.0,
              λ r. rw (after.1 r, frame.procs, frame.idleproc) ground (arith, b.1 r, kept r),
            )
        | inr f ↦ subst Fine (sym (ap choose f)) (b.0, λ r. ground (arith, b.1 r, kept r))
      ]

  -- The process that runs next, and the state without it.
  pub record Picked (s : Sched Q) (run : Sched Q) : Type 0 where
    pub balanced : IsBalanced run
    pub next :
        waits s run.current ≡ true ⊎ ((run.current ≡ s.idleproc) × ((r : ℕ) → waits s r ≡ false))

  run_next-Picked : (s : Sched Q) → AllWait s → Picked s (run_next c (pick c s))
  unfolding pick run_next AllWait IsBalanced sched_class_dequeue
  run_next-Picked s a =
      let q' = (c.pick_next s.queue).1 in
      let go : Option ℕ → Sched Q = λ o. run_next c (elim o [
        | none ↦ (s.idleproc, record s { queue = q' })
        | some n ↦ (n, sched_class_dequeue c n (record s { queue = q' }))
      ]) in
      elim (Option-cases (c.pick_next s.queue).0) [
        | inl e ↦
            let none_left = laws.empty s.queue a.0 e in
            subst (Picked s) (sym (ap go e)) (record {
              balanced = (
                none_left.0,
                λ r.
                    let kept =
                      state_kept s.procs s.idleproc (s.procs s.idleproc).wait_state
                        (s.procs s.idleproc).need_resched ((s.procs s.idleproc).runs + 1) r in
                    ground (arith, none_left.1 r, a.1 r, kept),
              );
              next = inr (refl, λ r. sym (a.1 r) ∙ (none_left.1 r).0);
            })
        | inr (n, e) ↦
            let rest = laws.picked s.queue n a.0 e in
            subst (Picked s) (sym (ap go e)) (record {
              balanced = (
                rest.1,
                λ r.
                    let kept =
                      state_kept s.procs n (s.procs n).wait_state (s.procs n).need_resched
                        ((s.procs n).runs + 1) r in
                    ground (arith, rest.2 r, a.1 r, kept),
              );
              next = inl (sym (a.1 n) ∙ rest.0);
            })
      ]

  waits-requeue : (s : Sched Q) (r : ℕ) → waits (requeue c s) r ≡ waits s r
  unfolding requeue
  waits-requeue s r =
      let v = s.procs s.current in
      let s1 = set_proc s.current (record v { need_resched = false }) s in
      let choose : Bool → Sched Q = λ t. if t then sched_class_enqueue c s.current s1 else s1 in
      let kept = state_kept s.procs s.current v.wait_state false v.runs r in
      elim (Bool-cases (is_runnable v.state)) [
        | inl t ↦
            let frame = enqueue-Frame s.current s1 in
            subst (λ k. waits k r ≡ waits s r) (sym (ap choose t))
              (rw (frame.procs, frame.idleproc)
                (ap (λ x. is_runnable x && not (r == s.idleproc)) kept))
        | inr f ↦
            subst (λ k. waits k r ≡ waits s r) (sym (ap choose f))
              (ap (λ x. is_runnable x && not (r == s.idleproc)) kept)
      ]

  idleproc-requeue : (s : Sched Q) → (requeue c s).idleproc ≡ s.idleproc
  unfolding requeue
  idleproc-requeue s =
      let v = s.procs s.current in
      let s1 = set_proc s.current (record v { need_resched = false }) s in
      let choose : Bool → Sched Q = λ t. if t then sched_class_enqueue c s.current s1 else s1 in
      elim (Bool-cases (is_runnable v.state)) [
        | inl t ↦ ap (λ b. (choose b).idleproc) t ∙ (enqueue-Frame s.current s1).idleproc
        | inr f ↦ ap (λ b. (choose b).idleproc) f
      ]

  -- With a scheduling class that keeps its laws, `schedule` keeps the run queue balanced, so that it
  -- is valid and holds exactly the runnable processes that do not run, without the idle one; and it
  -- gives the processor to a process that was runnable,
  -- the one that ran included, or to the idle process when there was no other.
  pub schedule-Picked : (s : Sched Q) → IsBalanced s → Picked s (schedule c s)
  unfolding schedule
  schedule-Picked s b =
      let r = run_next-Picked (requeue c s) (requeue-AllWait s b) in
      record {
        balanced = r.balanced;
        next = elim r.next [
          | inl w ↦ inl (sym (waits-requeue s _) ∙ w)
          | inr h ↦ inr (h.0 ∙ idleproc-requeue s, λ x. sym (waits-requeue s x) ∙ h.1 x)
        ];
      }
