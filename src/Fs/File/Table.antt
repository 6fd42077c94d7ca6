-- ===== src/Fs/File/Table.antt =====
-- The table of open files between two calls, and while a call holds one of them.
use os_labs.Common.{
  ℕ, ◌+◌, ◌-◌, ◌<◌, ◌≡◌, ◌≢◌, refl, ap, ◌∙◌, ◌⊎◌, arith, ok, ℤ, write_at, write_at-same,
  write_at_twice, write_at_keeps,
}
use os_labs.Fs.File.{Inodes, fd_none, fd_opened, File, Files, set_file, fd_array_acquire}
use os_labs.Fs.File.Calls.{drop_count, fd_array_release, free_if_last}

-- An item that no call is using: free, or open once.
abbrev pub Settles : ℕ → File → Type 0
Settles i f =
    (f.fd ≡ i)
    × ((f.status ≡ fd_none) × (f.open_count ≡ 0)
        ⊎ (f.status ≡ fd_opened) × (f.open_count ≡ 1) × (f.node ≢ 0))

dropped :
    (f : File) (p : ℤ)
    → record f { open_count = f.open_count + 1 - 1; pos = p } ≡ record f { pos = p }
dropped f p = ap (λ c. record f { open_count = c; pos = p }) (omega arith)

module _ {S : Type 0} where
  pub record Settled (n : ℕ) (t : Files S) : Type 0 where
    pub shared : 0 < t.files_count
    pub items : (i : ℕ) → i < n → Settles i (t.fd_array i)

  -- the item is open
  pub record Open (i : ℕ) (t : Files S) : Type 0 where
    pub status : (t.fd_array i).status ≡ fd_opened
    pub count : (t.fd_array i).open_count ≡ 1
    pub node : (t.fd_array i).node ≢ 0
    pub fd : (t.fd_array i).fd ≡ i

  -- A new item that settles keeps the table settled.
  pub Settled-write_at :
      (n : ℕ) (t : Files S) (i : ℕ) (f : File) (s : S)
      → Settled n t
      → Settles i f
      → Settled n (record t { fd_array = write_at t.fd_array i f; below = s })
  Settled-write_at n t i f s h k = record {
    shared = h.shared;
    items = λ j lt. write_at_keeps Settles t.fd_array i f j k (h.items j lt);
  }

  -- the table while a call holds the item, with its position and the state below
  abbrev pub holding : ℕ → ℤ → S → Files S → Files S
  holding i p s t = record t {
    fd_array =
        write_at t.fd_array i
          (record (t.fd_array i) { open_count = (t.fd_array i).open_count + 1; pos = p });
    below = s;
  }

  -- the table when only the position of an item and the state below have changed
  abbrev pub moved : ℕ → ℤ → S → Files S → Files S
  moved i p s t = record t {
    fd_array = write_at t.fd_array i (record (t.fd_array i) { pos = p });
    below = s;
  }

  pub acquire-holding :
      (i : ℕ) (t : Files S)
      → Open i t
      → fd_array_acquire i t ≡ ok (holding i (t.fd_array i).pos t.below t)
  unfolding fd_array_acquire
  acquire-holding i t h = rw h.status refl

  pub holding-file :
      (i : ℕ) (p : ℤ) (s : S) (t : Files S)
      → (holding i p s t).fd_array i
        ≡ record (t.fd_array i) { open_count = (t.fd_array i).open_count + 1; pos = p }
  holding-file i p s t = write_at-same t.fd_array i _

  -- one use less of an item that is held
  holding-drop :
      (i : ℕ) (p : ℤ) (s : S) (t : Files S)
      → set_file i drop_count (holding i p s t) ≡ moved i p s t
  holding-drop i p s t =
      let same = dropped (t.fd_array i) p in rw (holding-file i p s t, write_at_twice, same) refl

  free_if_last-used :
      (io : Inodes S) (n i : ℕ) (u : Files S)
      → (u.fd_array i).open_count ≡ 1
      → free_if_last n io i u ≡ ok u
  unfolding free_if_last
  free_if_last-used io n i u h = rw h refl

  pub release-holding :
      (io : Inodes S) (n i : ℕ) (p : ℤ) (s : S) (t : Files S)
      → Open i t
      → fd_array_release n io i (holding i p s t) ≡ ok (moved i p s t)
  unfolding fd_array_release
  release-holding io n i p s t h =
      let held = holding-file i p s t in
      let opened : ((holding i p s t).fd_array i).status ≡ fd_opened =
        ap (λ f. f.status) held ∙ h.status in
      let counted : ((holding i p s t).fd_array i).open_count ≡ 2 =
        ap (λ f. f.open_count) held ∙ ap (λ c. c + 1) h.count in
      let last : free_if_last n io i (moved i p s t) ≡ ok (moved i p s t) =
        free_if_last-used io n i (moved i p s t)
          (ap (λ f. f.open_count) (write_at-same t.fd_array i _) ∙ h.count) in
      rw (holding-drop i p s t, opened, counted) last

  -- setting the position of an item that is held
  pub holding-set_pos :
      (i : ℕ) (p q : ℤ) (s : S) (t : Files S)
      → set_file i (λ f. record f { pos = q }) (holding i p s t) ≡ holding i q s t
  holding-set_pos i p q s t = rw (holding-file i p s t, write_at_twice) refl
