-- ===== src/Fs/File/Tests.antt =====
-- Runs of the calls on files over a small vfs layer, and their theorems at concrete tables.
use hard_core.Prelude.{
  ℕ, suc, ◌+◌, ◌-◌, min, ◌≡◌, refl, inr, Bool, true, false, none, some, [], ◌∷◌, arith, leb,
  if◌then◌else◌, length, set,
}
use hard_core.Fs.File.{
  File, Result, Vfs, Sys, put, ok, err, fd_none, fd_opened, fd_closed, find_none, e_inval,
  e_max_open, no_fd, fd_array_alloc, take_entry, fd_array_open,
}
use hard_core.Fs.File.Table.{IsTable}
use hard_core.Fs.File.Held.{Open, file_read-eq, file_write-eq}
use hard_core.Fs.File.Opening.{Found, outcome, opening, file_open-outcome}
use hard_core.Fs.File.Closing.{file_close-eq, file_dup-eq, behind, bad_descriptor}
use hard_core.Fs.File.Calls.{
  access, install, open_at, open_entry, file_open, file_close, file_read, file_write, file_seek,
  file_dup, file_fstat, file_fsync, file_getdirentry,
}

-- Every path opens node 5 of ten bytes; the world counts the users of nodes.
abbrev tiny : Vfs ℕ
tiny = record {
  open_node = λ path flags w. (ok 5, w + 1);
  close_node = λ n w. w - 1;
  hold_node = λ n w. w + 1;
  fstat_node = λ n w. ((0, 10), w);
  read_node = λ n len pos w. ((0, min len (10 - pos)), w);
  write_node = λ n bytes pos w. ((0, length bytes), w);
  seek_node = λ n pos w. (if leb pos 10 then 0 else 21, w);
  sync_node = λ n w. (0, w);
  dirent_node = λ n offset w. ((16, 0), w);
}

abbrev unused : ℕ → File
unused fd = record {
  status = fd_none;
  readable = false;
  writable = false;
  fd = fd;
  pos = 0;
  node = none;
  open_count = 0;
}

-- A file that is open for reading and writing at byte 3.
abbrev at_three : File
at_three = record {
  status = fd_opened;
  readable = true;
  writable = true;
  fd = 0;
  pos = 3;
  node = some 5;
  open_count = 1;
}

abbrev start : Sys ℕ
start = record { files = at_three ∷ unused 1 ∷ unused 2 ∷ []; world = 1 }

start-IsTable : IsTable start
start-IsTable = (
  record { own = refl; idle = λ e. absurd (cc); used = λ e. omega arith; node = λ e. refl },
  (
    record { own = refl; idle = λ e. refl; used = λ e. absurd (cc); node = λ e. absurd (cc) },
    (record { own = refl; idle = λ e. refl; used = λ e. absurd (cc); node = λ e. absurd (cc) }, tt),
  ),
)

zero-Open : Open start 0 at_three 5
zero-Open = record {
  at = record { entry = refl };
  opened = refl;
  own = refl;
  used = omega arith;
  on = refl;
}

file_read-eq_example :
    file_read tiny 0 4 start
    ≡ some ((0, 4), record start { files = set start.files 0 (record at_three { pos = 7 }) })
file_read-eq_example = file_read-eq start 0 at_three 5 zero-Open tiny 4 refl

file_write-eq_example :
    file_write tiny 0 (1 ∷ 2 ∷ []) start
    ≡ some ((0, 2), record start { files = set start.files 0 (record at_three { pos = 5 }) })
file_write-eq_example = file_write-eq start 0 at_three 5 zero-Open tiny (1 ∷ 2 ∷ []) refl

file_open-outcome_example :
    (access 3 ≡ none → file_open tiny [] 3 start ≡ some (err e_inval, start))
    × ((mode : Bool × Bool)
        → access 3 ≡ some mode
        → (find_none 0 start.files ≡ none
            → file_open tiny [] 3 start ≡ some (err e_max_open, start))
          × ((i : ℕ)
              → find_none 0 start.files ≡ some i
              → (f : File) × (o : Found start i f) × (file_open tiny [] 3 start
                  ≡ some (outcome tiny start i f o mode (opening tiny start [] 3)))
                × IsTable (outcome tiny start i f o mode (opening tiny start [] 3)).1))
file_open-outcome_example = file_open-outcome tiny start start-IsTable [] 3

file_close-eq_example :
    (1 ≡ at_three.open_count
      → file_close tiny 0 start
        ≡ some (
          0,
          record {
            files = set start.files 0 (record at_three { status = fd_none; open_count = 0 });
            world = 0;
          },
        ))
    × ((c : ℕ)
        → 1 ≡ suc (suc c)
        → file_close tiny 0 start
          ≡ some (0, put 0 (record at_three { status = fd_closed; open_count = suc c }) start))
file_close-eq_example = file_close-eq tiny start 0 at_three 5 zero-Open

file_dup-eq_example :
    file_dup tiny 0 no_fd start
    ≡ some (ok 1, record { files = set start.files 1 (record at_three { fd = 1 }); world = 2 })
unfolding find_none
file_dup-eq_example =
    file_dup-eq tiny start 0 at_three 5 zero-Open 1 (unused 1) (record { entry = refl }) refl refl
      refl no_fd (inr (refl, refl))

bad_descriptor_example :
    (file_close tiny 7 start ≡ some (e_inval, start))
    × (file_read tiny 7 1 start ≡ some ((e_inval, 0), start))
    × (file_write tiny 7 (1 ∷ []) start ≡ some ((e_inval, 0), start))
    × (file_seek tiny 7 2 0 start ≡ some (e_inval, start))
    × (file_fstat tiny 7 start ≡ some ((e_inval, 0), start))
    × (file_fsync tiny 7 start ≡ some (e_inval, start))
    × (file_getdirentry tiny 7 2 start ≡ some ((e_inval, 2), start))
    × (file_dup tiny 7 2 start ≡ some (err e_inval, start))
bad_descriptor_example = bad_descriptor tiny start 7 1 2 0 2 (1 ∷ []) (behind (omega arith))

-- A file opened with O_APPEND starts at its size, in the lowest free entry.
append_opens : (r : Result ℕ × Sys ℕ) × (file_open tiny [] 33 start ≡ some r) × (r.0 ≡ ok 1)
unfolding file_open fd_array_alloc find_none take_entry open_entry open_at install fd_array_open
append_opens = (_, refl, refl)
