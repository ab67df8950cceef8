-- ===== src/Fs/File.antt =====
-- kern/fs/file.c: the table of open files of a process, over the vfs layer that it calls.
pub mod Calls
pub mod Entry
pub mod Table
pub mod Held
pub mod Opening
pub mod Closing
mod Tests
use hard_core.Prelude.{
  ℕ, zero, suc, ◌+◌, ◌-◌, ◌*◌, ◌/◌, ◌%◌, ◌^◌, ◌≤◌, ◌<◌, min, max, ◌≡◌, refl, sym, ap, ap₂, ◌∙◌,
  subst, ◌≢◌, ◌↔◌, ◌⊎◌, inl, inr, Bool, true, false, not, ◌&&◌, ◌||◌, Option, none, some, List, [],
  ◌∷◌, ◌++◌, map, arith, ltb, leb, ◌==◌, if◌then◌else◌, ltb→lt, lt→ltb, leb→le, ==_iff, tests,
  Bool-cases, Option-cases, length, get_elem?, set, length-append, length-set, get_elem?-set_self,
  get_elem?-set_ne, get_or, take, drop, replicate, take-append-drop, length-take, length-drop,
  length-replicate, length-map, has, ◌∈◌, ◌∉◌, has-append, Distinct, Apart, Distinct-split,
  Distinct-join, snoc_view, Distinct-insert, Distinct-remove, Distinct-remove_after, has-ne, ◌>>=◌,
  ◌>>◌, assert,
}

-- `enum { FD_NONE, FD_INIT, FD_OPENED, FD_CLOSED } status`
pub data Status : Type 0 where
  fd_none fd_init fd_opened fd_closed : Status

abbrev pub is_none : Status → Bool
is_none fd_none = true
is_none _ = false

abbrev pub is_init : Status → Bool
is_init fd_init = true
is_init _ = false

abbrev pub is_opened : Status → Bool
is_opened fd_opened = true
is_opened _ = false

abbrev pub is_closed : Status → Bool
is_closed fd_closed = true
is_closed _ = false

-- `struct file`; `fd`, `pos` and what they are compared with are 32-bit words.
pub record File : Type 0 where
  pub status : Status
  pub readable : Bool
  pub writable : Bool
  pub fd : ℕ
  pub pos : ℕ
  pub node : Option ℕ
  pub open_count : ℕ

-- The error numbers of libs/error.h that this file returns, negated.
abbrev pub e_inval : ℕ
e_inval = 3

abbrev pub e_busy : ℕ
e_busy = 15

abbrev pub e_max_open : ℕ
e_max_open = 22

-- -0x9527 as a 32-bit word
abbrev pub no_fd : ℕ
no_fd = 2 ^ 32 - 0x9527

-- A value, or the error number that is returned negated.
pub data Result (A : Type 0) : Type 0 where
  ok : A → Result A
  err : ℕ → Result A

-- What the vfs layer does for this file. A return value 0 is success.
pub record Vfs (W : Type 0) : Type 0 where
  pub open_node : List ℕ → ℕ → W → Result ℕ × W
  pub close_node : ℕ → W → W
  pub hold_node : ℕ → W → W
  pub fstat_node : ℕ → W → (ℕ × ℕ) × W
  pub read_node : ℕ → ℕ → ℕ → W → (ℕ × ℕ) × W
  pub write_node : ℕ → List ℕ → ℕ → W → (ℕ × ℕ) × W
  pub seek_node : ℕ → ℕ → W → ℕ × W
  pub sync_node : ℕ → W → ℕ × W
  pub dirent_node : ℕ → ℕ → W → (ℕ × ℕ) × W

-- The table of the current process and the state of the layers below.
pub record Sys (W : Type 0) : Type 0 where
  pub files : List File
  pub world : W

abbrev pub add_word : ℕ → ℕ → ℕ
add_word a b = (a + b) % 2 ^ 32

unfoldable pub fd_array_init : ℕ → List File → List File
fd_array_init fd [] = []
fd_array_init fd (f ∷ fs) =
    record f { open_count = 0; status = fd_none; fd = fd } ∷ fd_array_init (fd + 1) fs

-- The first free entry at or behind `fd`.
unfoldable pub find_none : ℕ → List File → Option ℕ
find_none fd [] = none
find_none fd (f ∷ fs) = if is_none f.status then some fd else find_none (fd + 1) fs

module _ {W : Type 0} where
  abbrev pub put : ℕ → File → Sys W → Sys W
  put i f s = record s { files = set s.files i f }

  -- The label `found` of `fd_array_alloc`.
  unfoldable pub take_entry : ℕ → Sys W → Option (Result ℕ × Sys W)
  take_entry i s = do
    f ← get_elem? s.files i
    assert (f.open_count == 0)
    some (ok i, put i (record f { status = fd_init; node = none }) s)

  unfoldable pub fd_array_alloc : ℕ → Sys W → Option (Result ℕ × Sys W)
  fd_array_alloc fd s =
      if fd == no_fd
      then elim (find_none 0 s.files) [ none ↦ some (err e_max_open, s) | some i ↦ take_entry i s ]
      else elim (get_elem? s.files fd) [
        | none ↦ some (err e_inval, s)
        | some f ↦ if is_none f.status then take_entry fd s else some (err e_busy, s)
      ]

  -- `fd2file`: the entry of an open descriptor.
  unfoldable pub fd2file : ℕ → Sys W → Result ℕ
  fd2file fd s = elim (get_elem? s.files fd) [
    | none ↦ err e_inval
    | some f ↦ if is_opened f.status && (f.fd == fd) then ok fd else err e_inval
  ]

  unfoldable pub fd_array_acquire : ℕ → Sys W → Option (Sys W)
  fd_array_acquire i s = do
    f ← get_elem? s.files i
    assert (is_opened f.status)
    some (put i (record f { open_count = f.open_count + 1 }) s)

  unfoldable pub fd_array_open : ℕ → Sys W → Option (Sys W)
  fd_array_open i s = do
    f ← get_elem? s.files i
    assert (is_init f.status)
    n ← f.node
    some (put i (record f { status = fd_opened; open_count = f.open_count + 1 }) s)

-- The operations that call the vfs layer.
module _ {W : Type 0} (vfs : Vfs W) where
  unfoldable pub fd_array_free : ℕ → Sys W → Option (Sys W)
  fd_array_free i s = do
    f ← get_elem? s.files i
    assert (is_init f.status || is_closed f.status)
    assert (f.open_count == 0)
    let freed = put i (record f { status = fd_none }) s
    if is_closed f.status
        then (do n ← f.node; some (record freed { world = vfs.close_node n s.world }))
        else some freed

  unfoldable pub fd_array_release : ℕ → Sys W → Option (Sys W)
  fd_array_release i s = do
    f ← get_elem? s.files i
    assert (is_opened f.status || is_closed f.status)
    assert (ltb 0 f.open_count)
    let s' = put i (record f { open_count = f.open_count - 1 }) s
    if f.open_count - 1 == 0 then fd_array_free i s' else some s'

  unfoldable pub fd_array_close : ℕ → Sys W → Option (Sys W)
  fd_array_close i s = do
    f ← get_elem? s.files i
    assert (is_opened f.status)
    assert (ltb 0 f.open_count)
    let s' = put i (record f { status = fd_closed; open_count = f.open_count - 1 }) s
    if f.open_count - 1 == 0 then fd_array_free i s' else some s'

  unfoldable pub fd_array_dup : (to from : ℕ) → Sys W → Option (Sys W)
  fd_array_dup to from s = do
    t ← get_elem? s.files to
    f ← get_elem? s.files from
    assert (is_init t.status && is_opened f.status)
    n ← f.node
    let t' = record t { pos = f.pos; readable = f.readable; writable = f.writable; node = some n }
    fd_array_open to (record (put to t' s) { world = vfs.hold_node n s.world })
