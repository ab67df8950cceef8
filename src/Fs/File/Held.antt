-- ===== src/Fs/File/Held.antt =====
-- The calls on an open entry: it is held, used, and let go.
use hard_core.Prelude.{
  ℕ, suc, ◌+◌, ◌-◌, ◌<◌, ◌≡◌, ap, ◌∙◌, Bool, true, some, List, arith, ◌==◌, if◌then◌else◌, ==_iff,
  set, set-set, set_self, bind-some, ◌>>=◌, bind-some, ◌>>=◌,
}
use hard_core.Fs.File.{
  File, Result, Vfs, Sys, put, ok, fd_opened, is_opened, fd2file, e_inval, err, add_word,
  fd_array_acquire, fd_array_release,
}
use hard_core.Fs.File.Entry.{At, put-At, acquire-eq, release-eq}
use hard_core.Fs.File.Calls.{
  advance, read_at, write_at, file_read, file_write, node_call, seek_target,
}

-- An entry of a valid table that is open on the node `n`.
pub record Open {W : Type 0} (s : Sys W) (fd : ℕ) (f : File) (n : ℕ) : Type 0 where
  pub at : At s fd f
  pub opened : f.status ≡ fd_opened
  pub own : f.fd ≡ fd
  pub used : 0 < f.open_count
  pub on : f.node ≡ some n

module _ {W : Type 0} (s : Sys W) (fd : ℕ) (f : File) (n : ℕ) (o : Open s fd f n) where
  pub fd2file-ok : fd2file fd s ≡ ok fd
  unfolding fd2file
  fd2file-ok =
      let t : (f.fd == fd) ≡ true = (==_iff f.fd fd).1 o.own in
      rw (o.at.entry, fd2file, o.opened, t)

  -- The entry while it is held.
  abbrev pub held : File
  held = record f { open_count = f.open_count + 1 }

  pub held-eq : fd_array_acquire fd s ≡ some (put fd held s)
  held-eq = acquire-eq s fd f o.at o.opened

  pub held-At : (w : W) → At (record (put fd held s) { world = w }) fd held
  held-At w = record { entry = (put-At s fd f o.at held).entry }

  -- Letting go of an entry that was held gives it back its number of users.
  pub let_go :
      (vfs : Vfs W) (p : ℕ) (w : W)
      → fd_array_release vfs fd
          (record { files = set s.files fd (record held { pos = p }); world = w })
        ≡ some (record { files = set s.files fd (record f { pos = p }); world = w })
  let_go vfs p w =
      let g : File = record held { pos = p } in
      let t : Sys W = record { files = set s.files fd g; world = w } in
      let at : At t fd g = record { entry = (put-At s fd f o.at g).entry } in
      release-eq t fd g at vfs {c = f.open_count - 1} o.opened (omega (arith, o.used))
      ∙ ap (λ (l : List File). some (record { files = l; world = w }))
          (set-set s.files fd g (record g { open_count = suc (f.open_count - 1) })
            ∙ ap (λ (k : ℕ). set s.files fd (record f { pos = p; open_count = k }))
                (omega (arith, o.used)))

  advance-eq :
      (copied : ℕ) (w : W)
      → advance fd copied (record (put fd held s) { world = w })
        ≡ some (record {
          files = set s.files fd (record held { pos = add_word f.pos copied });
          world = w;
        })
  unfolding advance
  advance-eq copied w =
      let s' : Sys W = record (put fd held s) { world = w } in
      let moved : File = record held { pos = add_word f.pos copied } in
      bind-some _ _ (held-At w).entry
      ∙ ap (λ (b : Bool). some (if b then put fd moved s' else s')) (ap is_opened o.opened)
      ∙ ap (λ (l : List File). some (record { files = l; world = w }))
          (set-set s.files fd held moved)

  module _ (vfs : Vfs W) where
    read_at-eq :
        (len : ℕ)
        → read_at vfs fd len s ≡ (
            let ((ret, copied), w) = vfs.read_node n len f.pos s.world in
            some (
              (ret, copied),
              record {
                files = set s.files fd (record f { pos = add_word f.pos copied });
                world = w;
              },
            ))
    unfolding read_at
    read_at-eq len =
        let call = vfs.read_node n len f.pos s.world in
        bind-some _ _ held-eq
        ∙ bind-some _ _ (held-At s.world).entry
        ∙ bind-some _ _ o.on
        ∙ bind-some _ _ (advance-eq call.0.1 call.1)
        ∙ bind-some _ _ (let_go vfs (add_word f.pos call.0.1) call.1)

    -- `file_read` of an open readable file reads from the position of the file, moves it on by
    -- what was copied, and changes nothing else of the table.
    pub file_read-eq :
        (len : ℕ)
        → f.readable ≡ true
        → file_read vfs fd len s ≡ (
            let ((ret, copied), w) = vfs.read_node n len f.pos s.world in
            some (
              (ret, copied),
              record {
                files = set s.files fd (record f { pos = add_word f.pos copied });
                world = w;
              },
            ))
    unfolding file_read
    file_read-eq len r =
        rw (fd2file-ok, file_read)
          (bind-some _ _ o.at.entry
            ∙ ap (λ (b : Bool). if b then read_at vfs fd len s else some ((e_inval, 0), s)) r
            ∙ read_at-eq len)

    write_at-eq :
        (bytes : List ℕ)
        → write_at vfs fd bytes s ≡ (
            let ((ret, copied), w) = vfs.write_node n bytes f.pos s.world in
            some (
              (ret, copied),
              record {
                files = set s.files fd (record f { pos = add_word f.pos copied });
                world = w;
              },
            ))
    unfolding write_at
    write_at-eq bytes =
        let call = vfs.write_node n bytes f.pos s.world in
        bind-some _ _ held-eq
        ∙ bind-some _ _ (held-At s.world).entry
        ∙ bind-some _ _ o.on
        ∙ bind-some _ _ (advance-eq call.0.1 call.1)
        ∙ bind-some _ _ (let_go vfs (add_word f.pos call.0.1) call.1)

    -- `file_write` of an open writable file writes at the position of the file, moves it on by
    -- what was copied, and changes nothing else of the table.
    pub file_write-eq :
        (bytes : List ℕ)
        → f.writable ≡ true
        → file_write vfs fd bytes s ≡ (
            let ((ret, copied), w) = vfs.write_node n bytes f.pos s.world in
            some (
              (ret, copied),
              record {
                files = set s.files fd (record f { pos = add_word f.pos copied });
                world = w;
              },
            ))
    unfolding file_write
    file_write-eq bytes r =
        rw (fd2file-ok, file_write)
          (bind-some _ _ o.at.entry
            ∙ ap (λ (b : Bool). if b then write_at vfs fd bytes s else some ((e_inval, 0), s)) r
            ∙ write_at-eq bytes)

    -- A call on the node of an open file that has nothing to do with its position leaves the
    -- table as it was.
    pub node_call-eq :
        {A : Type 0} (call : ℕ → W → A × W)
        → node_call vfs call fd s
          ≡ (let (r, w) = call n s.world in some (r, record s { world = w }))
    unfolding node_call
    node_call-eq call =
        let w = (call n s.world).1 in
        bind-some _ _ held-eq
        ∙ bind-some _ _ (held-At s.world).entry
        ∙ bind-some _ _ o.on
        ∙ bind-some _ _ (let_go vfs f.pos w)
        ∙ ap (λ (l : List File). some ((call n s.world).0, record { files = l; world = w }))
            (set_self s.files fd o.at.entry)

    -- Where `file_seek` moves to: the error of the request, or that of `vop_tryseek`, else 0 and
    -- the new position.
    abbrev pub sought_from : Result ℕ × W → (ℕ × ℕ) × W
    sought_from (err e, w) = ((e, f.pos), w)
    sought_from (ok p, w) =
        let (ret, w') = vfs.seek_node n p w in ((ret, if ret == 0 then p else f.pos), w')

    abbrev pub sought : ℕ → ℕ → (ℕ × ℕ) × W
    sought pos whence = sought_from (seek_target vfs n pos f.pos whence s.world)
