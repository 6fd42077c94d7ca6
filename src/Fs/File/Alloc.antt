-- ===== src/Fs/File/Alloc.antt =====
-- How the table gives out an item and takes it back.
use mathlib.Core.Path.{subst}
use os_labs.Common.{
  ℕ, zero, suc, ◌+◌, ◌-◌, ◌<◌, ◌≤◌, ◌≡◌, ◌≢◌, refl, sym, ap, ◌∙◌, ◌⊎◌, inl, inr, Bool, true, false,
  none, some, arith, ltb, lt→ltb, ◌==◌, ==_iff, ==_ne, Bool-cases, ok, ℤ, pos, write_at,
  write_at-same, write_at_twice,
}
use os_labs.Fs.File.{
  FdStatus, fd_none, fd_init, fd_opened, fd_closed, Inodes, File, Files, is_none, is_init,
  is_opened, is_closed, e_max_open, no_fd, find_none, slot_for, found, take_slot, fd_array_alloc,
  fd_array_open, set_file,
}
use os_labs.Fs.File.Calls.{drop_count, fd_array_free, free_if_last, fd_array_close}
use os_labs.Fs.File.Table.{Settles, Settled, Open}

-- the first free item from `fd` on, among `left` items
abbrev pub Free : ℕ → ℕ → (ℕ → File) → ℕ → Type 0
Free left fd files i =
    (fd ≤ i)
    × (i < fd + left)
    × (is_none (files i).status ≡ true)
    × ((j : ℕ) → fd ≤ j → j < i → is_none (files j).status ≡ false)

abbrev pub Full : ℕ → ℕ → (ℕ → File) → Type 0
Full left fd files = (j : ℕ) → fd ≤ j → j < fd + left → is_none (files j).status ≡ false

Full-suc :
    (left fd : ℕ) (files : ℕ → File)
    → is_none (files fd).status ≡ false
    → Full left (fd + 1) files
    → Full (suc left) fd files
Full-suc left fd files e h j l u = elim (Bool-cases (j == fd)) [
  | inl s ↦ subst (λ k. is_none (files k).status ≡ false) (sym ((==_iff j fd).0 s)) e
  | inr s ↦ h j (ground arith) (omega arith)
]

Free-suc :
    (left fd : ℕ) (files : ℕ → File) (i : ℕ)
    → is_none (files fd).status ≡ false
    → Free left (fd + 1) files i
    → Free (suc left) fd files i
Free-suc left fd files i e (l, u, f, before) = (
  omega arith,
  omega arith,
  f,
  λ j lo hi. elim (Bool-cases (j == fd)) [
    | inl s ↦ subst (λ k. is_none (files k).status ≡ false) (sym ((==_iff j fd).0 s)) e
    | inr s ↦ before j (ground arith) hi
  ],
)

pub find_none-Free :
    (left fd : ℕ) (files : ℕ → File)
    → ((i : ℕ) × (find_none left fd files ≡ some i) × Free left fd files i)
      ⊎ (find_none left fd files ≡ none) × Full left fd files
unfolding find_none
find_none-Free zero fd files = inr (refl, λ j l u. absurd (omega arith))
find_none-Free (suc left) fd files = elim (Bool-cases (is_none (files fd).status)) [
  | inl e ↦ inl (fd, rw e refl, (omega arith, omega arith, e, λ j l u. absurd (omega arith)))
  | inr e ↦ elim (find_none-Free left (fd + 1) files) [
    | inl (i, r, f) ↦ inl (i, rw e r, Free-suc left fd files i e f)
    | inr (r, f) ↦ inr (rw e r, Full-suc left fd files e f)
  ]
]

pub is_none_eq : (s : FdStatus) → is_none s ≡ true → s ≡ fd_none
is_none_eq fd_none h = refl
is_none_eq s h = cc

-- the item as an open that failed leaves it
abbrev pub emptied : File → File
emptied f = record f { status = fd_none; node = 0 }

-- the item as an open leaves it
abbrev pub opened_file : ℤ → ℕ → Bool × Bool → File → File
opened_file p node mode f = record f {
  status = fd_opened;
  pos = p;
  node = node;
  readable = mode.0;
  writable = mode.1;
  open_count = f.open_count + 1;
}

-- and as the close leaves it
abbrev pub closed_file : File → File
closed_file f = record f { status = fd_none; open_count = f.open_count - 1 }

module _ {S : Type 0} where
  pub Settles-free :
      (n i : ℕ) (t : Files S)
      → Settled n t
      → i < n
      → is_none (t.fd_array i).status ≡ true
      → (t.fd_array i).open_count ≡ 0
  Settles-free n i t h lt e = elim (h.items i lt).1 [ inl (s, c) ↦ c | inr (s, c, u) ↦ cc ]

  -- the table with an item given out
  abbrev pub reserved : ℕ → Files S → Files S
  reserved i t = set_file i (λ f. record f { status = fd_init; node = 0 }) t

  pub take_slot-reserved :
      (n i : ℕ) (t : Files S)
      → Settled n t
      → i < n
      → is_none (t.fd_array i).status ≡ true
      → take_slot (found i) t ≡ ok (pos 0, i, reserved i t)
  take_slot-reserved n i t h lt e = rw (Settles-free n i t h lt e) refl

  abbrev pub with_file : ℕ → File → S → Files S → Files S
  with_file i f s t = record t { fd_array = write_at t.fd_array i f; below = s }

  pub set_file-with_file :
      (i : ℕ) (f : File) (g : File → File) (s : S) (t : Files S)
      → set_file i g (with_file i f s t) ≡ with_file i (g f) s t
  set_file-with_file i f g s t =
      ap (λ x. record t { fd_array = write_at (write_at t.fd_array i f) i (g x); below = s })
        (write_at-same t.fd_array i f)
      ∙ ap (λ w. record t { fd_array = w; below = s }) (write_at_twice t.fd_array i f (g f))

  pub at-with_file :
      {B : Type 0} (r : File → B) (i : ℕ) (f : File) (s : S) (t : Files S) {b : B}
      → r f ≡ b
      → r ((with_file i f s t).fd_array i) ≡ b
  at-with_file r i f s t e = ap r (write_at-same t.fd_array i f) ∙ e

  pub free-init :
      (io : Inodes S) (n i : ℕ) (u : Files S)
      → (u.fd_array i).status ≡ fd_init
      → (u.fd_array i).open_count ≡ 0
      → fd_array_free n io i u ≡ ok (set_file i (λ f. record f { status = fd_none }) u)
  unfolding fd_array_free
  free-init io n i u e c =
      let init : is_init (u.fd_array i).status ≡ true = ap is_init e in
      let open_yet : is_closed (u.fd_array i).status ≡ false = ap is_closed e in
      let unused : ((u.fd_array i).open_count == 0) ≡ true = ap (λ c. c == 0) c in
      rw (init, open_yet, unused) refl

  free-closed :
      (io : Inodes S) (n i : ℕ) (u : Files S)
      → (u.fd_array i).status ≡ fd_closed
      → (u.fd_array i).open_count ≡ 0
      → fd_array_free n io i u
        ≡ ok (
            set_file i
              (λ f. record f { status = fd_none })
              (record u { below = io.vfs_close (u.fd_array i).node u.below }))
  unfolding fd_array_free
  free-closed io n i u e c =
      let init : is_init (u.fd_array i).status ≡ false = ap is_init e in
      let shut : is_closed (u.fd_array i).status ≡ true = ap is_closed e in
      let unused : ((u.fd_array i).open_count == 0) ≡ true = ap (λ c. c == 0) c in
      rw (init, shut, unused) refl

  pub free-reserved :
      (io : Inodes S) (n i : ℕ) (s : S) (t : Files S)
      → (t.fd_array i).open_count ≡ 0
      → fd_array_free n io i (record (reserved i t) { below = s })
        ≡ ok (with_file i (emptied (t.fd_array i)) s t)
  free-reserved io n i s t c =
      let f = record (t.fd_array i) { status = fd_init; node = 0 } in
      free-init io n i (with_file i f s t) (at-with_file (λ f. f.status) i f s t refl)
        (at-with_file (λ f. f.open_count) i f s t c)
      ∙ ap ok (set_file-with_file i f (λ f. record f { status = fd_none }) s t)

  -- an item that was given out and filled in
  abbrev pub filled : ℕ → ℤ → ℕ → Bool × Bool → S → Files S → Files S
  filled i p node mode s t =
      set_file i (λ f. record f { pos = p; node = node; readable = mode.0; writable = mode.1 })
        (record (reserved i t) { below = s })

  open-init :
      (i : ℕ) (u : Files S)
      → (u.fd_array i).status ≡ fd_init
      → (u.fd_array i).node ≢ 0
      → fd_array_open i u
        ≡ ok (set_file i (λ f. record f { status = fd_opened; open_count = f.open_count + 1 }) u)
  unfolding fd_array_open
  open-init i u e h =
      let init : is_init (u.fd_array i).status ≡ true = ap is_init e in
      let real : ((u.fd_array i).node == 0) ≡ false = ==_ne _ 0 h in rw (init, real) refl

  pub open-filled :
      (i : ℕ) (p : ℤ) (node : ℕ) (mode : Bool × Bool) (s : S) (t : Files S)
      → node ≢ 0
      → fd_array_open i (filled i p node mode s t)
        ≡ ok (with_file i (opened_file p node mode (t.fd_array i)) s t)
  open-filled i p node mode s t h =
      let e = record (t.fd_array i) { status = fd_init; node = 0 } in
      let f = record e { pos = p; node = node; readable = mode.0; writable = mode.1 } in
      let fill =
        set_file-with_file i e
          (λ f. record f { pos = p; node = node; readable = mode.0; writable = mode.1 }) s t in
      ap (fd_array_open i) fill
      ∙ open-init i (with_file i f s t) (at-with_file (λ f. f.status) i f s t refl)
          (λ z. h (sym (ap (λ f. f.node) (write_at-same t.fd_array i f)) ∙ z))
      ∙ ap ok (
          set_file-with_file i f
            (λ f. record f { status = fd_opened; open_count = f.open_count + 1 }) s t)

  pub close-Open :
      (io : Inodes S) (n i : ℕ) (t : Files S)
      → Open i t
      → fd_array_close n io i t
        ≡ ok (with_file i (closed_file (t.fd_array i)) (io.vfs_close (t.fd_array i).node t.below) t)
  unfolding fd_array_close free_if_last
  close-Open io n i t h =
      let opened : is_opened (t.fd_array i).status ≡ true = ap is_opened h.status in
      let used : ltb 0 (t.fd_array i).open_count ≡ true = ap (ltb 0) h.count in
      let f = drop_count (record (t.fd_array i) { status = fd_closed }) in
      let u = with_file i f t.below t in
      let none_left : (u.fd_array i).open_count ≡ 0 =
        at-with_file (λ f. f.open_count) i f t.below t (ap (λ c. c - 1) h.count) in
      let last : ((u.fd_array i).open_count == 0) ≡ true = ap (λ c. c == 0) none_left in
      rw (opened, used, last)
        (free-closed io n i u (at-with_file (λ f. f.status) i f t.below t refl) none_left
          ∙ ap
              (λ x. ok (
                set_file i (λ f. record f { status = fd_none })
                  (with_file i f (io.vfs_close x.node t.below) t)))
              (write_at-same t.fd_array i f)
          ∙ ap ok (
              set_file-with_file i f (λ f. record f { status = fd_none })
                (io.vfs_close (t.fd_array i).node t.below) t))

  pub Settles-opened :
      (n i : ℕ) (p : ℤ) (node : ℕ) (mode : Bool × Bool) (t : Files S)
      → Settled n t
      → i < n
      → is_none (t.fd_array i).status ≡ true
      → node ≢ 0
      → Settles i (opened_file p node mode (t.fd_array i))
  Settles-opened n i p node mode t h lt e u =
      ((h.items i lt).0, inr (refl, ap (λ c. c + 1) (Settles-free n i t h lt e), u))

  pub Settles-emptied :
      (n i : ℕ) (t : Files S)
      → Settled n t
      → i < n
      → is_none (t.fd_array i).status ≡ true
      → Settles i (emptied (t.fd_array i))
  Settles-emptied n i t h lt e = ((h.items i lt).0, inl (refl, Settles-free n i t h lt e))

  pub Settles-closed :
      (n i : ℕ) (t : Files S)
      → Settled n t
      → i < n
      → Open i t
      → Settles i (closed_file (t.fd_array i))
  Settles-closed n i t h lt o = (o.fd, inl (refl, omega (arith, o.count)))

  -- `fd_array_alloc` without a descriptor gives out the first free item, if there is one.
  pub alloc-Free :
      (n : ℕ) (t : Files S)
      → Settled n t
      → ((i : ℕ) × (fd_array_alloc n no_fd t ≡ ok (pos 0, i, reserved i t)) × Free n 0 t.fd_array i)
        ⊎ (fd_array_alloc n no_fd t ≡ ok (e_max_open, 0, t)) × Full n 0 t.fd_array
  unfolding fd_array_alloc slot_for
  alloc-Free n t h = elim (find_none-Free n 0 t.fd_array) [
    | inl (i, r, f) ↦
        inl
          (i, rw (lt→ltb _ _ h.shared, r) (take_slot-reserved n i t h (omega (arith, f.1)) f.2), f)
    | inr (r, f) ↦ inr (rw (lt→ltb _ _ h.shared, r) refl, f)
  ]
