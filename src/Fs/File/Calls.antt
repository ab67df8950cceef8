-- ===== src/Fs/File/Calls.antt =====
-- The calls of kern/fs/file.c on a descriptor: open, close, read, write, seek, fstat, fsync,
-- getdirentry and dup. A call gives what it returns with the new state; `none` is a failed
-- assertion.
use hard_core.Prelude.{
  ℕ, ◌/◌, ◌%◌, Bool, true, false, not, ◌&&◌, Option, none, some, List, ◌==◌, if◌then◌else◌,
  get_elem?, ◌>>=◌,
}
use hard_core.Fs.File.{
  is_opened, Result, ok, err, Vfs, Sys, put, e_inval, no_fd, add_word, fd2file, fd_array_alloc,
  fd_array_acquire, fd_array_open, fd_array_free, fd_array_release, fd_array_close, fd_array_dup,
}

abbrev pub o_append : ℕ → Bool
o_append flags = (flags / 32) % 2 == 1

-- `open_flags & O_ACCMODE`: whether the file can be read and written.
abbrev pub access : ℕ → Option (Bool × Bool)
access flags =
    let mode = flags % 4 in
    if mode == 0
    then some (true, false)
    else if mode == 1
    then some (false, true)
    else if mode == 2
    then some (true, true)
    else none

module _ {W : Type 0} where
  unfoldable pub file_testfd : ℕ → Bool → Bool → Sys W → Bool
  file_testfd fd readable writable s = elim (fd2file fd s) [
    | err e ↦ false
    | ok i ↦ elim (get_elem? s.files i) [
      | none ↦ false
      | some f ↦ not (readable && not f.readable) && not (writable && not f.writable)
    ]
  ]

  -- The end of `file_open`: the entry is filled in and opened.
  unfoldable pub install : ℕ → ℕ → ℕ → Bool × Bool → Sys W → Option (Result ℕ × Sys W)
  install i node pos (readable, writable) s = do
    f ← get_elem? s.files i
    let f' = record f { pos = pos; node = some node; readable = readable; writable = writable }
    s' ← fd_array_open i (put i f' s)
    some (ok f.fd, s')

  -- `file->pos += copied` if the file is still open.
  unfoldable pub advance : ℕ → ℕ → Sys W → Option (Sys W)
  advance i copied s = do
    f ← get_elem? s.files i
    some (if is_opened f.status then put i (record f { pos = add_word f.pos copied }) s else s)

module _ {W : Type 0} (vfs : Vfs W) where
  -- What `file_open` does once it has the node: with O_APPEND the position is the size.
  unfoldable pub open_at : ℕ → ℕ → ℕ → Bool × Bool → Sys W → Option (Result ℕ × Sys W)
  open_at i node flags rw s =
      if o_append flags
      then (let ((ret, size), w) = vfs.fstat_node node s.world in
          if ret == 0 then install i node size rw (record s { world = w }) else do
            s' ← fd_array_free vfs i (record s { world = vfs.close_node node w })
            some (err ret, s'))
      else install i node 0 rw s

  unfoldable pub open_entry : List ℕ → ℕ → Bool × Bool → ℕ → Sys W → Option (Result ℕ × Sys W)
  open_entry path flags rw i s =
      let (r, w) = vfs.open_node path flags s.world in
      let s' = record s { world = w } in
      elim r [
        | err e ↦ fd_array_free vfs i s' >>= λ s''. some (err e, s'')
        | ok node ↦ open_at i node flags rw s'
      ]

  unfoldable pub file_open : List ℕ → ℕ → Sys W → Option (Result ℕ × Sys W)
  file_open path flags s = elim (access flags) [
    | none ↦ some (err e_inval, s)
    | some rw ↦ fd_array_alloc no_fd s >>= λ (r : Result ℕ × Sys W). elim r.0 [
      | err e ↦ some (err e, r.1)
      | ok i ↦ open_entry path flags rw i r.1
    ]
  ]

  unfoldable pub file_close : ℕ → Sys W → Option (ℕ × Sys W)
  file_close fd s = elim (fd2file fd s) [
    | err e ↦ some (e, s)
    | ok i ↦ fd_array_close vfs i s >>= λ s'. some (0, s')
  ]

  -- The entry is held while the vfs layer works on the node at the position of the file.
  unfoldable pub read_at : ℕ → ℕ → Sys W → Option ((ℕ × ℕ) × Sys W)
  read_at i len s = do
    held ← fd_array_acquire i s
    f ← get_elem? held.files i
    n ← f.node
    let ((ret, copied), w) = vfs.read_node n len f.pos held.world
    moved ← advance i copied (record held { world = w })
    left ← fd_array_release vfs i moved
    some ((ret, copied), left)

  unfoldable pub file_read : ℕ → ℕ → Sys W → Option ((ℕ × ℕ) × Sys W)
  file_read fd len s = elim (fd2file fd s) [
    | err e ↦ some ((e, 0), s)
    | ok i ↦
        get_elem? s.files i >>= λ f. if f.readable then read_at i len s else some ((e_inval, 0), s)
  ]

  unfoldable pub write_at : ℕ → List ℕ → Sys W → Option ((ℕ × ℕ) × Sys W)
  write_at i bytes s = do
    held ← fd_array_acquire i s
    f ← get_elem? held.files i
    n ← f.node
    let ((ret, copied), w) = vfs.write_node n bytes f.pos held.world
    moved ← advance i copied (record held { world = w })
    left ← fd_array_release vfs i moved
    some ((ret, copied), left)

  unfoldable pub file_write : ℕ → List ℕ → Sys W → Option ((ℕ × ℕ) × Sys W)
  file_write fd bytes s = elim (fd2file fd s) [
    | err e ↦ some ((e, 0), s)
    | ok i ↦ get_elem? s.files i >>= λ f.
        if f.writable then write_at i bytes s else some ((e_inval, 0), s)
  ]

  -- The position that `whence` asks for: 0 is LSEEK_SET, 1 LSEEK_CUR and 2 LSEEK_END.
  unfoldable pub seek_target : ℕ → ℕ → ℕ → ℕ → W → Result ℕ × W
  seek_target n pos at whence w =
      if whence == 0
      then (ok pos, w)
      else if whence == 1
      then (ok (add_word pos at), w)
      else if whence == 2
      then (let ((ret, size), w') = vfs.fstat_node n w in
          if ret == 0 then (ok (add_word pos size), w') else (err ret, w'))
      else (err e_inval, w)

  -- `vop_tryseek`, and the new position if it agrees.
  unfoldable pub move_to : ℕ → ℕ → ℕ → Sys W → Option (ℕ × Sys W)
  move_to i n pos s = do
    f ← get_elem? s.files i
    let (ret, w) = vfs.seek_node n pos s.world
    let s' = record s { world = w }
    some (ret, if ret == 0 then put i (record f { pos = pos }) s' else s')

  -- The rest of `file_seek`: an error of the request skips `vop_tryseek`.
  abbrev pub seek_move : ℕ → ℕ → Result ℕ → Sys W → Option (ℕ × Sys W)
  seek_move i n (err e) s = some (e, s)
  seek_move i n (ok p) s = move_to i n p s

  unfoldable pub seek_at : ℕ → ℕ → ℕ → Sys W → Option (ℕ × Sys W)
  seek_at i pos whence s = do
    held ← fd_array_acquire i s
    f ← get_elem? held.files i
    n ← f.node
    let (target, w) = seek_target n pos f.pos whence held.world
    let s' = record held { world = w }
    (ret, moved) ← seek_move i n target s'
    left ← fd_array_release vfs i moved
    some (ret, left)

  unfoldable pub file_seek : ℕ → ℕ → ℕ → Sys W → Option (ℕ × Sys W)
  file_seek fd pos whence s = elim (fd2file fd s) [
    | err e ↦ some (e, s)
    | ok i ↦ seek_at i pos whence s
  ]

  -- The entry is held during a call on its node that leaves the position alone.
  unfoldable pub node_call : {A : Type 0} → (ℕ → W → A × W) → ℕ → Sys W → Option (A × Sys W)
  node_call call i s = do
    held ← fd_array_acquire i s
    f ← get_elem? held.files i
    n ← f.node
    let (r, w) = call n held.world
    left ← fd_array_release vfs i (record held { world = w })
    some (r, left)

  -- The error number and the size.
  unfoldable pub file_fstat : ℕ → Sys W → Option ((ℕ × ℕ) × Sys W)
  file_fstat fd s = elim (fd2file fd s) [
    | err e ↦ some ((e, 0), s)
    | ok i ↦ node_call vfs.fstat_node i s
  ]

  unfoldable pub file_fsync : ℕ → Sys W → Option (ℕ × Sys W)
  file_fsync fd s = elim (fd2file fd s) [ err e ↦ some (e, s) | ok i ↦ node_call vfs.sync_node i s ]

  -- The error number and the new offset: `direntp->offset` grows by what the node gave.
  unfoldable pub file_getdirentry : ℕ → ℕ → Sys W → Option ((ℕ × ℕ) × Sys W)
  file_getdirentry fd offset s = elim (fd2file fd s) [
    | err e ↦ some ((e, offset), s)
    | ok i ↦
        node_call
          (λ n w.
            let ((ret, used), w') = vfs.dirent_node n offset w in
            ((ret, if ret == 0 then add_word offset used else offset), w'))
          i s
  ]

  unfoldable pub dup_to : (to from : ℕ) → Sys W → Option (Result ℕ × Sys W)
  dup_to to from s = do
    s' ← fd_array_dup vfs to from s
    t ← get_elem? s'.files to
    some (ok t.fd, s')

  unfoldable pub file_dup : ℕ → ℕ → Sys W → Option (Result ℕ × Sys W)
  file_dup fd1 fd2 s = elim (fd2file fd1 s) [
    | err e ↦ some (err e, s)
    | ok from ↦ fd_array_alloc fd2 s >>= λ (r : Result ℕ × Sys W). elim r.0 [
      | err e ↦ some (err e, r.1)
      | ok to ↦ dup_to to from r.1
    ]
  ]
