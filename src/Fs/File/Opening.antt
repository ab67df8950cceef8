-- ===== src/Fs/File/Opening.antt =====
-- `file_open` on a valid table.
use hard_core.Prelude.{
  ℕ, ◌+◌, ◌<◌, ◌≡◌, refl, ap, ap₂, ◌∙◌, subst, ◌≢◌, inl, inr, Bool, none, some, List, arith, ◌==◌,
  if◌then◌else◌, Bool-cases, get_elem?, set, set-set, ◌>>=◌, bind-some,
}
use hard_core.Fs.File.{
  File, Result, Vfs, Sys, put, ok, err, fd_none, fd_init, fd_opened, find_none, e_inval, e_max_open,
  fd_array_alloc, fd_array_free,
}
use hard_core.Fs.File.Entry.{At, put-At, take_entry-eq, open-eq, free_init-eq}
use hard_core.Fs.File.Table.{IsTable, Entries-get, Entries-set, find_none-some}
use hard_core.Fs.File.Calls.{access, o_append, install, open_at, open_entry, file_open}

-- The entry that the search of a valid table finds.
pub record Found {W : Type 0} (s : Sys W) (i : ℕ) (f : File) : Type 0 where
  pub at : At s i f
  pub free : f.status ≡ fd_none
  pub own : f.fd ≡ i
  pub idle : f.open_count ≡ 0
  pub lowest : (l : ℕ) (g : File) → l < i → get_elem? s.files l ≡ some g → g.status ≢ fd_none

pub found :
    {W : Type 0} (s : Sys W) (i : ℕ)
    → IsTable s
    → find_none 0 s.files ≡ some i
    → (f : File) × Found s i f
found s i t e =
    let (j, f, a, b, c, d) = find_none-some 0 s.files {i = i} e in
    let k : j ≡ i = omega arith in
    let at : get_elem? s.files i ≡ some f = subst (λ (x : ℕ). get_elem? s.files x ≡ some f) k b in
    let v = Entries-get 0 s.files i t at in
    (
      f,
      record {
        at = record { entry = at };
        free = c;
        own = v.own ∙ omega arith;
        idle = v.idle (ground arith);
        lowest = λ l g h q. d l g (omega arith) q;
      },
    )

module _ {W : Type 0} (vfs : Vfs W) (s : Sys W) where
  -- What the vfs layer makes of a request to open: a node and the position to start from, or an
  -- error after which no node is left open.
  abbrev pub opening_from : Result ℕ × W → ℕ → Result (ℕ × ℕ) × W
  opening_from (err e, w) flags = (err e, w)
  opening_from (ok node, w) flags =
      if o_append flags
      then (let ((ret, size), w') = vfs.fstat_node node w in
          if ret == 0 then (ok (node, size), w') else (err ret, vfs.close_node node w'))
      else (ok (node, 0), w)

  abbrev pub opening : List ℕ → ℕ → Result (ℕ × ℕ) × W
  opening path flags = opening_from (vfs.open_node path flags s.world) flags

  module _ (i : ℕ) (f : File) (o : Found s i f) where
    -- The table with the entry given away or left free.
    abbrev pub outcome : Bool × Bool → Result (ℕ × ℕ) × W → Result ℕ × Sys W
    outcome mode (err e, w) = (
      err e,
      record { files = set s.files i (record f { status = fd_none; node = none }); world = w },
    )
    outcome (readable, writable) (ok (n, pos), w) = (
      ok i,
      record {
        files = set s.files i (record f {
          status = fd_opened;
          readable = readable;
          writable = writable;
          pos = pos;
          node = some n;
          open_count = f.open_count + 1;
        });
        world = w;
      },
    )

    abbrev begun : File
    begun = record f { status = fd_init; node = none }

    abbrev started : W → Sys W
    started w = record (put i begun s) { world = w }

    begun-At : (w : W) → At (started w) i begun
    begun-At w = record { entry = (put-At s i f o.at begun).entry }

    install-eq :
        (node pos : ℕ) (mode : Bool × Bool) (w : W)
        → install i node pos mode (started w) ≡ some (outcome mode (ok (node, pos), w))
    unfolding install
    install-eq node pos (readable, writable) w =
        let g : File = record begun {
          pos = pos;
          node = some node;
          readable = readable;
          writable = writable;
        } in
        let t = put i g (started w) in
        let at = put-At (started w) i begun (begun-At w) g in
        bind-some _ _ (begun-At w).entry
        ∙ bind-some _ _ (open-eq t i g at refl refl)
        ∙ ap₂ (λ (k : ℕ) (l : List File). some (ok k, record { files = l; world = w })) o.own
            (set-set (set s.files i begun) i g _ ∙ set-set s.files i begun _)

    drop-eq :
        (w : W)
        → fd_array_free vfs i (started w)
          ≡ some (record {
            files = set s.files i (record f { status = fd_none; node = none });
            world = w;
          })
    drop-eq w =
        free_init-eq (started w) i begun (begun-At w) vfs refl o.idle
        ∙ ap (λ (l : List File). some (record { files = l; world = w })) (set-set s.files i begun _)

    open_at-eq :
        (node flags : ℕ) (mode : Bool × Bool) (w : W)
        → open_at vfs i node flags mode (started w)
          ≡ some (
              outcome mode (
                if o_append flags
                then (let ((ret, size), w') = vfs.fstat_node node w in
                    if ret == 0 then (ok (node, size), w') else (err ret, vfs.close_node node w'))
                else (ok (node, 0), w)))
    unfolding open_at
    open_at-eq node flags mode w =
        let ((ret, size), w') = vfs.fstat_node node w in
        elim (Bool-cases (o_append flags)) [
          | inl t ↦ rw t (elim (Bool-cases (ret == 0)) [
            | inl z ↦ rw z (install-eq node size mode w')
            | inr z ↦ rw z (bind-some _ _ (drop-eq (vfs.close_node node w')))
          ])
          | inr t ↦ rw t (install-eq node 0 mode w)
        ]

    open_entry-eq :
        (path : List ℕ) (flags : ℕ) (mode : Bool × Bool)
        → open_entry vfs path flags mode i (started s.world)
          ≡ some (outcome mode (opening path flags))
    unfolding open_entry
    open_entry-eq path flags mode = go (vfs.open_node path flags s.world)
      where
        go :
            (r : Result ℕ × W)
            → elim r.0 [
              | err e ↦ fd_array_free vfs i (started r.1) >>= λ s''. some (err e, s'')
              | ok node ↦ open_at vfs i node flags mode (started r.1)
            ]
              ≡ some (outcome mode (opening_from r flags))
        go (err e, w) = bind-some _ _ (drop-eq w)
        go (ok node, w) = open_at-eq node flags mode w

module _ {W : Type 0} (vfs : Vfs W) (s : Sys W) (table : IsTable s) where
  outcome-IsTable :
      (i : ℕ) (f : File) (o : Found s i f) (mode : Bool × Bool) (r : Result (ℕ × ℕ) × W)
      → IsTable (outcome vfs s i f o mode r).1
  outcome-IsTable i f o mode (err e, w) = Entries-set 0 s.files i _ table (record {
    own = o.own ∙ omega arith;
    idle = λ h. o.idle;
    used = λ h. absurd (cc);
    node = λ h. absurd (cc);
  })
  outcome-IsTable i f o (readable, writable) (ok (n, pos), w) =
      Entries-set 0 s.files i _ table (record {
        own = o.own ∙ omega arith;
        idle = λ h. absurd (cc);
        used = λ h. omega arith;
        node = λ h. refl;
      })

  -- The three outcomes of `file_open` on a valid table: a bad access mode is E_INVAL and a full
  -- table E_MAX_OPEN, both of which change nothing; otherwise the lowest free entry is given to
  -- the node that the vfs layer opens, with its mode and position, or is left free with the
  -- error of the vfs layer, and no other entry changes. The table stays valid, and no assertion
  -- fails.
  pub file_open-outcome :
      (path : List ℕ) (flags : ℕ)
      → (access flags ≡ none → file_open vfs path flags s ≡ some (err e_inval, s))
        × ((mode : Bool × Bool)
            → access flags ≡ some mode
            → (find_none 0 s.files ≡ none → file_open vfs path flags s ≡ some (err e_max_open, s))
              × ((i : ℕ)
                  → find_none 0 s.files ≡ some i
                  → (f : File) × (o : Found s i f) × (file_open vfs path flags s
                      ≡ some (outcome vfs s i f o mode (opening vfs s path flags)))
                    × IsTable (outcome vfs s i f o mode (opening vfs s path flags)).1))
  unfolding file_open fd_array_alloc
  file_open-outcome path flags = (
    λ a. rw (a, file_open),
    λ mode a. (
      λ n. rw (a, file_open, n),
      λ i e.
          let (f, o) = found s i table e in
          (
            f,
            o,
            rw (a, file_open, e)
                (bind-some _ _ (take_entry-eq s i f o.at o.idle)
                  ∙ open_entry-eq vfs s i f o path flags mode),
            outcome-IsTable i f o mode (opening vfs s path flags),
          ),
    ),
  )
