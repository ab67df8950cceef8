-- ===== src/Process/Wait/Reaped.antt =====
-- kern/process/proc.c, `do_wait`: the child that is taken.
use hard_core.Prelude.{
  ℕ, ◌-◌, ◌≡◌, refl, ap, ap₂, ◌∙◌, subst, inl, inr, Bool, true, false, not, ◌&&◌, Option, none,
  some, List, [], ◌∷◌, arith, ◌==◌, if◌then◌else◌, Bool-cases, ◌∈◌, ◌∉◌, ◌>>=◌, ◌>>◌, assert,
  bind-some, without,
}
use hard_core.Process.Family.Chain.{IsFamily}
use hard_core.Process.State.{Result, ok, Pcb, Kernel}
use hard_core.Process.Table.{remove}
use hard_core.Process.Table.Find.{IsTable}
use hard_core.Process.Table.Remove.{remove_lem}
use hard_core.Process.Table.Same.{IsTable-same}
use hard_core.Process.Resources.{Resources, Kind, block, kstack, one, ResourceLaws}
use hard_core.Process.Fork.{with_world, put_kstack}
use hard_core.Process.Wait.{Choice, found, any_zombie, wait_choice, reap, wait_on, do_wait}
use hard_core.Process.Wait.Choosing.{first_of, any_of, zombie_at, asked, wait_choice_lem}
use hard_core.Schedule.Sched.{SchedClass, write}

first_found :
    (f : ℕ → Bool) (xs : List ℕ) (p : ℕ) → first_of f xs ≡ some p → (p ∈ xs) × (f p ≡ true)
unfolding first_of
first_found f [] p e = absurd (cc)
first_found f (x ∷ xs) p e = elim (Bool-cases (f x)) [
  | inl t ↦
      let i : some x ≡ some p = subst (λ b. (if b then some x else first_of f xs) ≡ some p) t e in
      let same : x ≡ p = ground arith in (ground arith, subst (λ z. f z ≡ true) same t)
  | inr n ↦
      let (m, g) =
        first_found f xs p (subst (λ b. (if b then some x else first_of f xs) ≡ some p) n e) in
      (ground arith, g)
]

-- A found child comes from the search.
found_from : (b : Bool) (o : Option ℕ) (p : ℕ) → any_zombie b o ≡ found p → o ≡ some p
unfolding any_zombie
found_from b (some q) p e = let i : q ≡ p = cc in ap some i
found_from true none p e = absurd (cc)
found_from false none p e = absurd (cc)

module _ {Q W : Type 0} {c : Resources W} (laws : ResourceLaws c) where
  -- The child `p` is gone: its exit code is returned, its block and its stack are given back.
  pub record Reaped (p : ℕ) (kids : ℕ → List ℕ) (k : Kernel Q W)
      (o : Option (Option (Result ℕ) × Kernel Q W)) : Type 0 where
    pub after : Kernel Q W
    pub gives : o ≡ some (some (ok (k.pcbs p).exit_code), after)
    pub zombie : zombie_at k p ≡ true
    pub child : p ∈ kids k.sched.current
    pub table : IsTable after
    pub family :
        IsFamily after.links (write kids k.sched.current (without p (kids k.sched.current)))
    pub unlisted : p ∉ after.proc_list
    pub released :
        (j : Kind) (x : ℕ)
        → laws.owned j x after.world
          ≡ laws.owned j x k.world - one kstack (k.pcbs p).kstack j x - one block p j x

  -- `do_wait` of a running process whose children are processes of the agreeing table, and which
  -- asks for children with a zombie among them: it takes the first such zombie `p`, which is not
  -- the idle or the init process, returns its exit code and gives back its stack and its control
  -- block; the process leaves the table and the children, in which the others stay.
  pub do_wait-Reaped :
      (sched_class : SchedClass Q) (k : Kernel Q W) (kids : ℕ → List ℕ) (pid p : ℕ)
      → IsTable k
      → IsFamily k.links kids
      → ((x : ℕ) → x ∈ kids k.sched.current → x ∈ k.proc_list)
      → ((x : ℕ)
          → x ∈ k.proc_list
          → k.links.parent x ≡ some k.sched.current
          → x ∈ kids k.sched.current)
      → first_of (λ x. asked pid k x && zombie_at k x) (kids k.sched.current) ≡ some p
      → (p == k.sched.idleproc) ≡ false
      → (p == k.initproc) ≡ false
      → Reaped p kids k (do_wait c sched_class true pid k)
  unfolding do_wait wait_on any_zombie reap put_kstack
  do_wait-Reaped sc k kids pid p t f sub all e ni nn =
      let xs = kids k.sched.current in
      let (m, z) = first_found (λ x. asked pid k x && zombie_at k x) xs p e in
      let r = remove_lem p k.sched.current kids k t f (sub p m) m in
      let next : Choice → Option (Option (Result ℕ) × Kernel Q W) = λ x. wait_on c sc x k in
      let last : Kernel Q W → Option (Option (Result ℕ) × Kernel Q W) = λ k1.
        let k2 = put_kstack c p k1 in
        some (some (ok (k.pcbs p).exit_code), with_world (c.kfree p k2.world) k2) in
      let k2 = put_kstack c p r.after in
      let k' = with_world (c.kfree p k2.world) k2 in
      let chosen : wait_choice pid k ≡ some (found p) =
        wait_choice_lem k kids pid t f sub all
        ∙ ap (λ o. some (any_zombie (any_of (asked pid k) xs) o)) e in
      record {
        after = k';
        gives =
            bind-some (wait_choice pid k) next chosen
            ∙ ap₂ (λ a b. assert (not a && not b) >> (remove p k >>= last)) ni nn
            ∙ bind-some (remove p k) last r.gives;
        zombie = ground arith;
        child = m;
        table = IsTable-same r.after k' r.table refl refl refl refl (λ x i. refl);
        family = r.family;
        unlisted = r.unlisted;
        released = λ j x.
            let a = laws.kfree_lem p k2.world j x in
            let b = laws.free_kstack_lem (r.after.pcbs p).kstack r.after.world j x in
            a
            ∙ ap (λ n. n - one block p j x)
                (b
                  ∙ ap₂ (λ w (f : ℕ → Pcb). laws.owned j x w - one kstack (f p).kstack j x) r.world
                      r.pcbs);
      }
