-- ===== src/Fs/File/Entry.antt =====
-- The steps of kern/fs/file.c on an entry whose state is known.
use hard_core.Prelude.{
  ℕ, suc, ◌+◌, ◌-◌, ◌≡◌, ap, true, false, none, some, List, arith, ltb, ◌==◌, get_elem?,
  get_elem?-set_self, lt_of_get, set-set, set_self,
}
use hard_core.Fs.File.{
  File, Vfs, Sys, put, ok, fd_none, fd_init, fd_opened, fd_closed, take_entry, fd_array_acquire,
  fd_array_open, fd_array_free, fd_array_release,
}

-- The entry `i` of the table is `f`.
pub record At {W : Type 0} (s : Sys W) (i : ℕ) (f : File) : Type 0 where
  pub entry : get_elem? s.files i ≡ some f

module _ {W : Type 0} (s : Sys W) (i : ℕ) (f : File) (at : At s i f) where
  pub put-At : (g : File) → At (put i g s) i g
  put-At g = record { entry = get_elem?-set_self s.files i g (lt_of_get s.files i at.entry) }

  pub put-put : (g h : File) → put i h (put i g s) ≡ put i h s
  put-put g h = ap (λ (l : List File). record s { files = l }) (set-set s.files i g h)

  pub put_self : put i f s ≡ s
  put_self = ap (λ (l : List File). record s { files = l }) (set_self s.files i at.entry)

  pub take_entry-eq :
      f.open_count ≡ 0
      → take_entry i s ≡ some (ok i, put i (record f { status = fd_init; node = none }) s)
  unfolding take_entry
  take_entry-eq c = let t : (f.open_count == 0) ≡ true = ground arith in rw (at.entry, t)

  pub acquire-eq :
      f.status ≡ fd_opened
      → fd_array_acquire i s ≡ some (put i (record f { open_count = f.open_count + 1 }) s)
  unfolding fd_array_acquire
  acquire-eq o = rw (at.entry, o)

  pub open-eq :
      {n : ℕ}
      → f.status ≡ fd_init
      → f.node ≡ some n
      → fd_array_open i s
        ≡ some (put i (record f { status = fd_opened; open_count = f.open_count + 1 }) s)
  unfolding fd_array_open
  open-eq o n = rw (at.entry, o, n)

  module _ (vfs : Vfs W) where
    pub free_init-eq :
        f.status ≡ fd_init
        → f.open_count ≡ 0
        → fd_array_free vfs i s ≡ some (put i (record f { status = fd_none }) s)
    unfolding fd_array_free
    free_init-eq o c = let t : (f.open_count == 0) ≡ true = ground arith in rw (at.entry, o, t)

    pub free_closed-eq :
        {n : ℕ}
        → f.status ≡ fd_closed
        → f.open_count ≡ 0
        → f.node ≡ some n
        → fd_array_free vfs i s
          ≡ some (record (put i (record f { status = fd_none }) s) {
            world = vfs.close_node n s.world;
          })
    unfolding fd_array_free
    free_closed-eq o c n =
        let t : (f.open_count == 0) ≡ true = ground arith in rw (at.entry, o, t, n)

    -- An entry that others still hold only loses one of its users.
    pub release-eq :
        {c : ℕ}
        → f.status ≡ fd_opened
        → f.open_count ≡ suc (suc c)
        → fd_array_release vfs i s ≡ some (put i (record f { open_count = suc c }) s)
    unfolding fd_array_release
    release-eq {c} o e =
        let t : (suc (suc c) - 1) ≡ suc c = omega arith in
        let p : ltb 0 (suc (suc c)) ≡ true = ground arith in
        let z : (suc c == 0) ≡ false = ground arith in rw (at.entry, o, e, p, t, z)
