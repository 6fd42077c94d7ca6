-- ===== src/Fs/File/Opening.antt =====
-- Opening and closing a file.
use mathlib.Core.Option.{none-ne-some, some-injective}
use os_labs.Common.{
  not, ◌==◌, ==_iff, ◌%◌, ◌/◌, none, negsuc, ◌⊎◌, ℕ, ◌+◌, ◌<◌, ◌≡◌, ◌≢◌, refl, sym, ap, ◌∙◌, inl,
  inr, Bool, true, false, some, arith, Bool-cases, ok, ℤ, pos, is_zero, write_at-same,
  write_at-other, write_at_keeps, Option-cases,
}
use os_labs.Fs.File.{fd_none, fd_init, set_file, Inodes, Files, is_none, e_inval, e_max_open}
use os_labs.Fs.File.Calls.{
  fd_array_free, rewind, is_append, access_mode, start_pos, open_node, file_open,
}
use os_labs.Fs.File.Table.{Settled, Settled-write_at, Open}
use os_labs.Fs.File.Alloc.{
  is_none_eq, Free, Full, reserved, set_file-with_file, at-with_file, free-init, emptied,
  opened_file, with_file, free-reserved, open-filled, Settles-free, Settles-opened, Settles-emptied,
  alloc-Free,
}

mode-bits :
    (flags : ℕ) (mode : Bool × Bool)
    → access_mode flags ≡ some mode
    → (flags % 4 ≢ 3) × (mode ≡ (not (flags % 4 == 1), not (flags % 4 == 0)))
mode-bits flags mode e = elim (Bool-cases (flags % 4 == 0)) [
  | inl a ↦ (
    (λ z. omega (arith, z, (==_iff _ _).0 a)),
    some-injective _ _ (sym e ∙ rw ((==_iff _ _).0 a) refl),
  )
  | inr a ↦ elim (Bool-cases (flags % 4 == 1)) [
    | inl b ↦ (
      (λ z. omega (arith, z, (==_iff _ _).0 b)),
      some-injective _ _ (sym e ∙ rw ((==_iff _ _).0 b) refl),
    )
    | inr b ↦ elim (Bool-cases (flags % 4 == 2)) [
      | inl c ↦ (
        (λ z. omega (arith, z, (==_iff _ _).0 c)),
        some-injective _ _ (sym e ∙ rw ((==_iff _ _).0 c) refl),
      )
      | inr c ↦ absurd (none-ne-some mode (sym (rw (a, b, c) refl) ∙ e))
    ]
  ]
]

no-mode : (flags : ℕ) → access_mode flags ≡ none → flags % 4 ≡ 3
no-mode flags e = ground arith

module _ {S : Type 0} where
  -- The virtual file system gives a node with each success.
  abbrev pub GivesNodes : Inodes S → Type 0
  GivesNodes io =
      (path flags : ℕ) (s : S)
      → is_zero (io.vfs_open path flags s).0 ≡ true
      → (io.vfs_open path flags s).1 ≢ 0

  -- Nothing was opened: every item is as free or as open as it was.
  abbrev pub Unopened : Files S → Files S → Type 0
  Unopened t t' = (j : ℕ) → (t'.fd_array j).status ≡ (t.fd_array j).status

  -- The first free item was opened, with the access that the flags ask for.
  pub record Opened (n flags : ℕ) (t t' : Files S) (i : ℕ) : Type 0 where
    pub free : Free n 0 t.fd_array i
    pub item : Open i t'
    pub mode : access_mode flags ≡ some ((t'.fd_array i).readable, (t'.fd_array i).writable)
    pub others : (j : ℕ) → j ≢ i → t'.fd_array j ≡ t.fd_array j

  emptied-Unopened :
      (i : ℕ) (s : S) (t : Files S)
      → is_none (t.fd_array i).status ≡ true
      → Unopened t (with_file i (emptied (t.fd_array i)) s t)
  emptied-Unopened i s t e j =
      write_at_keeps (λ j f. f.status ≡ (t.fd_array j).status) t.fd_array i _ j
        (sym (is_none_eq (t.fd_array i).status e)) refl

  -- Where a file that is opened starts: at 0, or with O_APPEND, which is 0x20, at its size.
  pub data StartsAt (io : Inodes S) (flags node : ℕ) (s : S) (size : ℕ) (s' : S) : Type 0 where
    at_start : (flags / 32) % 2 ≡ 0 → size ≡ 0 → s' ≡ s → StartsAt io flags node s size s'
    at_end :
        (r : ℤ)
        → (flags / 32) % 2 ≡ 1
        → io.vop_fstat node s ≡ (r, size, s')
        → is_zero r ≡ true
        → StartsAt io flags node s size s'

  -- How `file_open` ended: -3 is -E_INVAL, and -22 is -E_MAX_OPEN; the lowest two bits of the flags are the
  -- access, 3 being none. `vfs` is what `vfs_open` returns.
  pub data OpenOutcome (io : Inodes S) (n flags : ℕ) (vfs : ℤ × ℕ × S) (t : Files S) (ret : ℤ)
      (t' : Files S) : Type 0 where
    bad_access : flags % 4 ≡ 3 → ret ≡ negsuc 2 → t' ≡ t → OpenOutcome io n flags vfs t ret t'
    too_many :
        flags % 4 ≢ 3
        → Full n 0 t.fd_array
        → ret ≡ negsuc 21
        → t' ≡ t
        → OpenOutcome io n flags vfs t ret t'
    not_opened :
        (i : ℕ)
        → flags % 4 ≢ 3
        → Free n 0 t.fd_array i
        → is_zero vfs.0 ≡ false
        → ret ≡ vfs.0
        → t' ≡ with_file i (emptied (t.fd_array i)) vfs.2 t
        → OpenOutcome io n flags vfs t ret t'
    not_sized :
        (i : ℕ)
        → flags % 4 ≢ 3
        → Free n 0 t.fd_array i
        → is_zero vfs.0 ≡ true
        → (flags / 32) % 2 ≡ 1
        → is_zero (io.vop_fstat vfs.1 vfs.2).0 ≡ false
        → ret ≡ (io.vop_fstat vfs.1 vfs.2).0
        → t'
          ≡ with_file i
              (record (emptied (t.fd_array i)) { pos = pos 0 })
              (io.vfs_close vfs.1 (io.vop_fstat vfs.1 vfs.2).2)
              t
        → OpenOutcome io n flags vfs t ret t'
    opened :
        (i size : ℕ) (s : S)
        → flags % 4 ≢ 3
        → Free n 0 t.fd_array i
        → is_zero vfs.0 ≡ true
        → StartsAt io flags vfs.1 vfs.2 size s
        → ret ≡ pos i
        → t'
          ≡ with_file i
              (opened_file
                (pos size)
                vfs.1
                (not (flags % 4 == 1), not (flags % 4 == 0))
                (t.fd_array i))
              s
              t
        → Opened n flags t t' i
        → OpenOutcome io n flags vfs t ret t'

  -- the item that was given out and whose position was set, freed again
  free-rewound :
      (io : Inodes S) (n i : ℕ) (s : S) (t : Files S)
      → (t.fd_array i).open_count ≡ 0
      → fd_array_free n io i (set_file i rewind (record (reserved i t) { below = s }))
        ≡ ok (with_file i (rewind (emptied (t.fd_array i))) s t)
  free-rewound io n i s t c =
      let f = record (t.fd_array i) { status = fd_init; node = 0 } in
      ap (fd_array_free n io i) (set_file-with_file i f rewind s t)
      ∙ free-init io n i (with_file i (rewind f) s t)
          (at-with_file (λ f. f.status) i (rewind f) s t refl)
          (at-with_file (λ f. f.open_count) i (rewind f) s t c)
      ∙ ap ok (set_file-with_file i (rewind f) (λ f. record f { status = fd_none }) s t)

  Opened_lem :
      (n flags : ℕ) (mode : Bool × Bool) (i : ℕ) (p : ℤ) (node : ℕ) (s : S) (t : Files S)
      → Settled n t
      → Free n 0 t.fd_array i
      → access_mode flags ≡ some mode
      → node ≢ 0
      → Opened n flags t (with_file i (opened_file p node mode (t.fd_array i)) s t) i
  Opened_lem n flags mode i p node s t h f m u =
      let lt : i < n = omega (arith, f.1) in
      let now = write_at-same t.fd_array i (opened_file p node mode (t.fd_array i)) in
      record {
        free = f;
        item = record {
          status = ap (λ f. f.status) now;
          count = ap (λ f. f.open_count) now ∙ ap (λ c. c + 1) (Settles-free n i t h lt f.2);
          node = λ z. u (sym (ap (λ f. f.node) now) ∙ z);
          fd = ap (λ f. f.fd) now ∙ (h.items i lt).0;
        };
        mode = m ∙ sym (ap (λ f. some (f.readable, f.writable)) now);
        others = λ j e. write_at-other t.fd_array i _ j e;
      }

  start_pos-cases :
      (io : Inodes S) (n flags node : ℕ) (s : S)
      → (is_zero (start_pos n io flags node s).0 ≡ true)
          × StartsAt io flags node s (start_pos n io flags node s).1 (start_pos n io flags node s).2
        ⊎ (is_zero (start_pos n io flags node s).0 ≡ false)
          × ((flags / 32) % 2 ≡ 1)
          × (start_pos n io flags node s ≡ io.vop_fstat node s)
  unfolding start_pos
  start_pos-cases io n flags node s = elim (Bool-cases (is_append flags)) [
    | inr start ↦ inl (rw start refl, at_start (ground arith) (rw start refl) (rw start refl))
    | inl end ↦ elim (Bool-cases (is_zero (io.vop_fstat node s).0)) [
      | inl z ↦ inl (rw end z, at_end (io.vop_fstat node s).0 ((==_iff _ _).0 end) (rw end refl) z)
      | inr z ↦ inr (rw end z, (==_iff _ _).0 end, rw end refl)
    ]
  ]

  open_node-OpenOutcome :
      (io : Inodes S) (n flags : ℕ) (mode : Bool × Bool) (i : ℕ) (r : ℤ × ℕ × S) (t : Files S)
      → Settled n t
      → Free n 0 t.fd_array i
      → access_mode flags ≡ some mode
      → (is_zero r.0 ≡ true → r.1 ≢ 0)
      → (ret : ℤ) × (t' : Files S) × (open_node n io flags mode i r (reserved i t) ≡ ok (ret, t'))
        × Settled n t'
        × OpenOutcome io n flags r t ret t'
  unfolding open_node
  open_node-OpenOutcome io n flags mode i r t h f m u =
      let lt : i < n = omega (arith, f.1) in
      let count = Settles-free n i t h lt f.2 in
      let (access, same) = mode-bits flags mode m in
      elim (Bool-cases (is_zero r.0)) [
        | inr bad ↦ (
          r.0,
          with_file i (emptied (t.fd_array i)) r.2 t,
          rw (bad, free-reserved io n i r.2 t count) refl,
          Settled-write_at n t i _ r.2 h (Settles-emptied n i t h lt f.2),
          not_opened i access f bad refl refl,
        )
        | inl good ↦
            let at = start_pos n io flags r.1 r.2 in
            elim (start_pos-cases io n flags r.1 r.2) [
              | inr (bad, append, e) ↦
                  let s = io.vfs_close r.1 at.2 in
                  (
                    at.0,
                    with_file i (rewind (emptied (t.fd_array i))) s t,
                    rw (good, bad, free-rewound io n i s t count) refl,
                    Settled-write_at n t i _ s h (Settles-emptied n i t h lt f.2),
                    not_sized i access f good append (ap (λ x. is_zero x.0) (sym e) ∙ bad)
                        (ap (λ x. x.0) e)
                        (ap
                          (λ x.
                            with_file i (rewind (emptied (t.fd_array i))) (io.vfs_close r.1 x.2) t)
                          e),
                  )
              | inl (fine, start) ↦
                  let t' = with_file i (opened_file (pos at.1) r.1 mode (t.fd_array i)) at.2 t in
                  let item = Opened_lem n flags mode i (pos at.1) r.1 at.2 t h f m (u good) in
                  (
                    pos (t'.fd_array i).fd,
                    t',
                    rw (good, fine, open-filled i (pos at.1) r.1 mode at.2 t (u good)) refl,
                    Settled-write_at n t i _ at.2 h
                        (Settles-opened n i (pos at.1) r.1 mode t h lt f.2 (u good)),
                    opened i at.1 at.2 access f good start (ap pos item.item.fd)
                        (ap (λ x. with_file i (opened_file (pos at.1) r.1 x (t.fd_array i)) at.2 t)
                          same)
                        item,
                  )
            ]
      ]

  -- `file_open` opens an item or leaves each as free or as open as it was.
  pub OpenOutcome-cases :
      (io : Inodes S) (n flags : ℕ) (vfs : ℤ × ℕ × S) (t : Files S) (ret : ℤ) (t' : Files S)
      → OpenOutcome io n flags vfs t ret t'
      → ((i : ℕ) × (ret ≡ pos i) × Opened n flags t t' i) ⊎ (is_zero ret ≡ false) × Unopened t t'
  OpenOutcome-cases io n flags vfs t ret t' (bad_access a e g) = inr (rw e refl, rw g (λ j. refl))
  OpenOutcome-cases io n flags vfs t ret t' (too_many a f e g) = inr (rw e refl, rw g (λ j. refl))
  OpenOutcome-cases io n flags vfs t ret t' (not_opened i a f z e g) =
      inr (rw e z, rw g (emptied-Unopened i vfs.2 t f.2))
  OpenOutcome-cases io n flags vfs t ret t' (not_sized i a f z b y e g) = inr (
    rw e y,
    rw g (λ j.
        write_at_keeps (λ j f. f.status ≡ (t.fd_array j).status) t.fd_array i _ j
          (sym (is_none_eq (t.fd_array i).status f.2)) refl),
  )
  OpenOutcome-cases io n flags vfs t ret t' (opened i size s a f z st e g o) = inl (i, e, o)

  -- Between calls, when the virtual file system gives a node with each success, file_open passes its
  -- assertions, leaves a table in which every item is free or open once, and ends just as the conditions
  -- say: with -E_INVAL, if the flags ask for no access there is, and with -E_MAX_OPEN, if no item is free,
  -- both without a change; with the error of vfs_open, or, with O_APPEND, of vop_fstat, the node then
  -- being closed, the first free item being free again; and else with the number of the first free item,
  -- which is open with the node of vfs_open, the access that the flags ask for and the position 0, or with
  -- O_APPEND the size, no other item being changed.
  pub file_open-OpenOutcome :
      (io : Inodes S) (n path flags : ℕ) (t : Files S)
      → GivesNodes io
      → Settled n t
      → (ret : ℤ) × (t' : Files S) × (file_open n io path flags t ≡ ok (ret, t'))
        × Settled n t'
        × OpenOutcome io n flags (io.vfs_open path flags t.below) t ret t'
  unfolding file_open
  file_open-OpenOutcome io n path flags t g h = elim (Option-cases (access_mode flags)) [
    | inl e ↦ (e_inval, t, rw e refl, h, bad_access (no-mode flags e) refl refl)
    | inr (mode, e) ↦ elim (alloc-Free n t h) [
      | inr (full, none_free) ↦ (
        e_max_open,
        t,
        rw (e, full) refl,
        h,
        too_many (mode-bits flags mode e).0 none_free refl refl,
      )
      | inl (i, r, f) ↦
          let (ret, t', run, s, o) =
            open_node-OpenOutcome io n flags mode i (io.vfs_open path flags t.below) t h f e
              (g path flags t.below) in
          (ret, t', rw (e, r) run, s, o)
    ]
  ]
