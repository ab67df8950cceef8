-- ===== src/Fs/File/Closing.antt =====
-- `file_close` of an open file, `file_dup`, and what all calls make of a bad descriptor.
use hard_core.Prelude.{
  length, Option-cases, lt_of_get, ◌≤◌, ◌&&◌, ℕ, suc, ◌+◌, ◌-◌, ◌≡◌, refl, sym, ap, ap₂, ◌∙◌, subst,
  ◌≢◌, ◌⊎◌, inl, inr, Bool, true, false, none, some, List, arith, ◌==◌, if◌then◌else◌, lt→ltb,
  ==_iff, get_elem?, set, get_elem?-set_ne, set-set, assert, bind-some,
}
use hard_core.Fs.File.{
  Status, File, Vfs, Sys, put, ok, err, fd_none, fd_init, fd_opened, fd_closed, is_opened, fd2file,
  find_none, take_entry, e_inval, no_fd, fd_array_alloc, fd_array_free, fd_array_close,
  fd_array_dup,
}
use hard_core.Fs.File.Entry.{At, put-At, take_entry-eq, open-eq, free_closed-eq}
use hard_core.Fs.File.Held.{Open, fd2file-ok}
use hard_core.Fs.File.Calls.{
  file_read, file_write, file_seek, file_fstat, file_fsync, file_getdirentry, file_close, file_dup,
  dup_to,
}

module _ {W : Type 0} (vfs : Vfs W) (s : Sys W) (fd : ℕ) (f : File) (n : ℕ)
    (o : Open s fd f n) where
  closing : File
  closing = record f { status = fd_closed; open_count = f.open_count - 1 }

  close_start : fd_array_close vfs fd s ≡ (
      if f.open_count - 1 == 0
      then fd_array_free vfs fd (put fd closing s)
      else some (put fd closing s))
  unfolding fd_array_close closing
  close_start =
      bind-some _ _ o.at.entry
      ∙ bind-some _ _ (ap assert (ap is_opened o.opened))
      ∙ bind-some _ _ (ap assert (lt→ltb 0 f.open_count o.used))

  close_last :
      f.open_count ≡ 1
      → fd_array_close vfs fd s
        ≡ some (record {
          files = set s.files fd (record f { status = fd_none; open_count = 0 });
          world = vfs.close_node n s.world;
        })
  unfolding closing
  close_last c =
      let t : (f.open_count - 1 == 0) ≡ true = ground arith in
      let s' : Sys W = put fd closing s in
      close_start
      ∙ ap (λ (b : Bool). if b then fd_array_free vfs fd s' else some s') t
      ∙ free_closed-eq s' fd closing (put-At s fd f o.at closing) vfs refl (omega arith) o.on
      ∙ ap (λ (l : List File). some (record { files = l; world = vfs.close_node n s.world }))
          (set-set s.files fd closing _
            ∙ ap (λ (k : ℕ). set s.files fd (record f { status = fd_none; open_count = k }))
                (omega arith))

  close_more :
      (c : ℕ)
      → f.open_count ≡ suc (suc c)
      → fd_array_close vfs fd s
        ≡ some (put fd (record f { status = fd_closed; open_count = suc c }) s)
  unfolding closing
  close_more c e =
      let t : (f.open_count - 1 == 0) ≡ false = ground arith in
      let s' : Sys W = put fd closing s in
      close_start
      ∙ ap (λ (b : Bool). if b then fd_array_free vfs fd s' else some s') t
      ∙ ap (λ (k : ℕ). some (put fd (record f { status = fd_closed; open_count = k }) s))
          (omega arith)

  -- `file_close` of the last user of an open file closes its node and frees the entry; with
  -- other users the entry is only marked closed, and the node stays open.
  pub file_close-eq :
      (f.open_count ≡ 1
        → file_close vfs fd s
          ≡ some (
            0,
            record {
              files = set s.files fd (record f { status = fd_none; open_count = 0 });
              world = vfs.close_node n s.world;
            },
          ))
      × ((c : ℕ)
          → f.open_count ≡ suc (suc c)
          → file_close vfs fd s
            ≡ some (0, put fd (record f { status = fd_closed; open_count = suc c }) s))
  unfolding file_close
  file_close-eq = (
    λ c. rw (fd2file-ok s fd f n o, file_close) (bind-some _ _ (close_last c)),
    λ c e. rw (fd2file-ok s fd f n o, file_close) (bind-some _ _ (close_more c e)),
  )

alloc-take :
    {W : Type 0} (s : Sys W) (fd i : ℕ) (g : File)
    → At s i g
    → g.status ≡ fd_none
    → ((fd ≡ i) × (i ≢ no_fd)) ⊎ ((fd ≡ no_fd) × (find_none 0 s.files ≡ some i))
    → fd_array_alloc fd s ≡ take_entry i s
unfolding fd_array_alloc
alloc-take s fd i g at z (inl (e, n)) =
    let f : (fd == no_fd) ≡ false = ground arith in
    let q : get_elem? s.files fd ≡ some g = rw e at.entry in
    rw (f, q, z) (ap (λ (k : ℕ). take_entry k s) e)
alloc-take s fd i g at z (inr (e, n)) =
    let f : (fd == no_fd) ≡ true = (==_iff fd no_fd).1 e in rw (f, n)

module _ {W : Type 0} (vfs : Vfs W) (s : Sys W) (fd : ℕ) (f : File) (n : ℕ) (o : Open s fd f n)
    (i : ℕ) (g : File) (at : At s i g) (free : g.status ≡ fd_none) (idle : g.open_count ≡ 0)
    (own : g.fd ≡ i) where
  apart : i ≢ fd
  apart e =
      let q : some f ≡ some g =
        sym o.at.entry ∙ subst (λ (k : ℕ). get_elem? s.files k ≡ some g) e at.entry in
      let z : f.status ≡ fd_none = ground arith in cc (o.opened)

  begun : File
  begun = record g { status = fd_init; node = none }

  filled : File
  filled = record g {
    status = fd_init;
    readable = f.readable;
    writable = f.writable;
    pos = f.pos;
    node = some n;
  }

  dup_to-eq :
      dup_to vfs i fd (put i begun s)
      ≡ some (
        ok i,
        record {
          files =
              set s.files i (record filled { status = fd_opened; open_count = g.open_count + 1 });
          world = vfs.hold_node n s.world;
        },
      )
  unfolding dup_to fd_array_dup begun filled
  dup_to-eq =
      let begun_sys : Sys W = put i begun s in
      let filled_sys : Sys W = record (put i filled begun_sys) {
        world = vfs.hold_node n s.world;
      } in
      let at_begun = put-At s i g at begun in
      let at_filled : At filled_sys i filled = record {
        entry = (put-At begun_sys i begun at_begun filled).entry;
      } in
      let from : get_elem? begun_sys.files fd ≡ some f =
        get_elem?-set_ne s.files begun apart ∙ o.at.entry in
      let done : File = record filled { status = fd_opened; open_count = g.open_count + 1 } in
      let dup : fd_array_dup vfs i fd begun_sys ≡ some (put i done filled_sys) =
        bind-some _ _ at_begun.entry
        ∙ bind-some _ _ from
        ∙ bind-some _ _ (ap (λ (b : Bool). assert b) (ap is_opened o.opened))
        ∙ bind-some _ _ o.on
        ∙ open-eq filled_sys i filled at_filled refl refl in
      bind-some _ _ dup
      ∙ bind-some _ _ (put-At filled_sys i filled at_filled done).entry
      ∙ ap₂
          (λ (k : ℕ) (l : List File).
            some (ok k, record { files = l; world = vfs.hold_node n s.world }))
          own (set-set (set s.files i begun) i filled done ∙ set-set s.files i begun done)

  -- `file_dup` of an open file into a free entry, the one that is asked for or the lowest, opens
  -- the entry on the same node at the same position and mode, holds the node once more, and
  -- changes no other entry.
  pub file_dup-eq :
      (fd2 : ℕ)
      → ((fd2 ≡ i) × (i ≢ no_fd)) ⊎ ((fd2 ≡ no_fd) × (find_none 0 s.files ≡ some i))
      → file_dup vfs fd fd2 s
        ≡ some (
          ok i,
          record {
            files = set s.files i (record g {
              status = fd_opened;
              readable = f.readable;
              writable = f.writable;
              pos = f.pos;
              node = some n;
              open_count = g.open_count + 1;
            });
            world = vfs.hold_node n s.world;
          },
        )
  unfolding file_dup
  file_dup-eq fd2 h =
      rw (fd2file-ok s fd f n o, file_dup)
        (bind-some _ _ (alloc-take s fd2 i g at free h ∙ take_entry-eq s i g at idle)
          ∙ (unfold begun filled in dup_to-eq))

-- A number behind the table, or one whose entry is not open or has another number.
pub data IsBad {W : Type 0} (s : Sys W) (fd : ℕ) : Type 0 where
  behind : length s.files ≤ fd → IsBad s fd
  not_open : (f : File) → get_elem? s.files fd ≡ some f → f.status ≢ fd_opened → IsBad s fd
  other_fd : (f : File) → get_elem? s.files fd ≡ some f → f.fd ≢ fd → IsBad s fd

not_opened : (t : Status) → t ≢ fd_opened → is_opened t ≡ false
not_opened fd_none n = refl
not_opened fd_init n = refl
not_opened fd_opened n = absurd (n refl)
not_opened fd_closed n = refl

fd2file-IsBad : {W : Type 0} (s : Sys W) (fd : ℕ) → IsBad s fd → fd2file fd s ≡ err e_inval
unfolding fd2file
fd2file-IsBad s fd (behind l) = elim (Option-cases (get_elem? s.files fd)) [
  | inl n ↦ rw (n, fd2file) refl
  | inr (f, e) ↦ let k = lt_of_get s.files fd e in absurd (omega arith)
]
fd2file-IsBad s fd (not_open f e n) =
    let closed : is_opened f.status ≡ false = not_opened f.status n in rw (e, closed, fd2file) refl
fd2file-IsBad s fd (other_fd f e n) =
    let other : (f.fd == fd) ≡ false = ground arith in
    let closed : (is_opened f.status && (f.fd == fd)) ≡ false = ground arith in
    rw (e, closed, fd2file) refl

-- All the calls on a number that is no open descriptor, which is one behind the table or one whose
-- entry is not open or has another number, return E_INVAL and change nothing.
pub bad_descriptor :
    {W : Type 0} (vfs : Vfs W) (s : Sys W) (fd len pos whence fd2 : ℕ) (bytes : List ℕ)
    → IsBad s fd
    → (file_close vfs fd s ≡ some (e_inval, s))
      × (file_read vfs fd len s ≡ some ((e_inval, 0), s))
      × (file_write vfs fd bytes s ≡ some ((e_inval, 0), s))
      × (file_seek vfs fd pos whence s ≡ some (e_inval, s))
      × (file_fstat vfs fd s ≡ some ((e_inval, 0), s))
      × (file_fsync vfs fd s ≡ some (e_inval, s))
      × (file_getdirentry vfs fd pos s ≡ some ((e_inval, pos), s))
      × (file_dup vfs fd fd2 s ≡ some (err e_inval, s))
unfolding file_close file_read file_write file_seek file_fstat file_fsync file_getdirentry file_dup
bad_descriptor vfs s fd len pos whence fd2 bytes h =
    let h' = fd2file-IsBad s fd h in
    (
      rw (h', file_close),
      rw (h', file_read),
      rw (h', file_write),
      rw (h', file_seek),
      rw (h', file_fstat),
      rw (h', file_fsync),
      rw (h', file_getdirentry),
      rw (h', file_dup),
    )
