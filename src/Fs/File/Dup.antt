-- ===== src/Fs/File/Dup.antt =====
-- Duplicating a file.
use mathlib.Core.Path.{subst}
use os_labs.Common.{
  ==_iff, ltb→le, pos_part, neg_part, ℕ, ◌<◌, ◌≡◌, ◌≢◌, refl, ap, ◌∙◌, ◌⊎◌, inl, inr, true, false,
  arith, Bool-cases, ltb, lt→ltb, ltb→lt, ok, ℤ, pos, negsuc, is_zero, write_at-same,
  write_at-other,
}
use os_labs.Fs.File.{
  File, no_fd, fd_none, fd_init, Inodes, Files, is_none, is_init, is_opened, e_inval, e_busy,
  e_max_open, is_no_fd, slot_for, fd_array_alloc,
}
use os_labs.Fs.File.Calls.{fd_array_dup, file_dup}
use os_labs.Fs.File.Table.{Settled, Settled-write_at, Open}
use os_labs.Fs.File.Transfer.{Names, fd2file-Names}
use os_labs.Fs.File.Alloc.{
  is_none_eq, Free, Full, find_none-Free, reserved, opened_file, with_file, open-filled,
  take_slot-reserved, Settles-opened,
}

-- The item that a copy goes to: with NO_FD, which is -0x9527, the first free one, else the one that `fd`
-- names.
abbrev pub Chosen : ℕ → ℤ → (ℕ → File) → ℕ → Type 0
Chosen n fd files to = (fd ≡ negsuc 0x9526) × Free n 0 files to ⊎ (fd ≡ pos to)

-- Why there is none, and the error that it gives: -22 is -E_MAX_OPEN, -3 is -E_INVAL and -15 is -E_BUSY.
pub data NoneChosen (n : ℕ) (fd : ℤ) (files : ℕ → File) (e : ℤ) : Type 0 where
  all_in_use : fd ≡ negsuc 0x9526 → Full n 0 files → e ≡ negsuc 21 → NoneChosen n fd files e
  outside :
      fd ≢ negsuc 0x9526 → ((i : ℕ) → i < n → fd ≢ pos i) → e ≡ negsuc 2 → NoneChosen n fd files e
  in_use :
      (i : ℕ)
      → fd ≡ pos i
      → i < n
      → (files i).status ≢ fd_none
      → e ≡ negsuc 14
      → NoneChosen n fd files e

module _ {S : Type 0} where
  -- `fd_array_alloc` gives out a free item or refuses.
  abbrev Allocated : ℕ → ℤ → Files S → Type 0
  Allocated n fd t =
      ((i : ℕ) × (fd_array_alloc n fd t ≡ ok (pos 0, i, reserved i t))
        × (i < n)
        × (is_none (t.fd_array i).status ≡ true)
        × Chosen n fd t.fd_array i)
      ⊎ (e : ℤ) × (fd_array_alloc n fd t ≡ ok (e, 0, t))
        × (is_zero e ≡ false)
        × NoneChosen n fd t.fd_array e

  alloc-Allocated : (n : ℕ) (fd : ℤ) (t : Files S) → Settled n t → Allocated n fd t
  unfolding fd_array_alloc slot_for
  alloc-Allocated n (pos k) t h = elim (Bool-cases (ltb k n)) [
    | inr out ↦
        let none_such : (i : ℕ) → i < n → pos k ≢ pos i =
          λ i lt e. omega (arith, ap pos_part e, ltb→le k n out) in
        inr (e_inval, rw (lt→ltb _ _ h.shared, out) refl, refl, outside (λ e. cc) none_such refl)
    | inl within ↦ elim (Bool-cases (is_none (t.fd_array k).status)) [
      | inr busy ↦ inr (
        e_busy,
        rw (lt→ltb _ _ h.shared, within, busy) refl,
        refl,
        in_use k refl (ltb→lt k n within) (λ e. cc (ap is_none e)) refl,
      )
      | inl free ↦
          let lt = ltb→lt k n within in
          inl (
            k,
            rw (lt→ltb _ _ h.shared, within, free) (take_slot-reserved n k t h lt free),
            lt,
            free,
            inr refl,
          )
    ]
  ]
  alloc-Allocated n (negsuc k) t h = elim (Bool-cases (is_no_fd (negsuc k))) [
    | inr out ↦ inr (
      e_inval,
      rw (lt→ltb _ _ h.shared, out) refl,
      refl,
      outside (λ e. cc (ap is_no_fd e)) (λ i lt e. omega (arith, ap neg_part e)) refl,
    )
    | inl any ↦
        let asked : negsuc k ≡ no_fd = ap negsuc ((==_iff _ _).0 any) in
        elim (find_none-Free n 0 t.fd_array) [
          | inr (r, full) ↦
              inr (
                e_max_open,
                rw (lt→ltb _ _ h.shared, any, r) refl,
                refl,
                all_in_use asked full refl,
              )
          | inl (i, r, f) ↦
              let lt : i < n = omega (arith, f.1) in
              inl (
                i,
                rw (lt→ltb _ _ h.shared, any, r) (take_slot-reserved n i t h lt f.2),
                lt,
                f.2,
                inl (asked, f),
              )
        ]
  ]

  -- the state below after the node has got one more user
  abbrev pub shared_node : Inodes S → ℕ → Files S → S
  shared_node io from t =
      io.vop_open_inc (t.fd_array from).node (io.vop_ref_inc (t.fd_array from).node t.below)

  -- the files after `from` has been duplicated to the free item `to`
  abbrev pub duplicated : Inodes S → ℕ → ℕ → Files S → Files S
  duplicated io to from t =
      let f = t.fd_array from in
      with_file to (opened_file f.pos f.node (f.readable, f.writable) (t.fd_array to))
        (shared_node io from t) t

  dup-duplicated :
      (io : Inodes S) (n to from : ℕ) (t : Files S)
      → Open from t
      → is_none (t.fd_array to).status ≡ true
      → fd_array_dup n io to from (reserved to t) ≡ ok (duplicated io to from t)
  unfolding fd_array_dup
  dup-duplicated io n to from t o free =
      let apart : from ≢ to =
        λ e. cc (subst (λ k. is_none (t.fd_array k).status ≡ false) e (ap is_none o.status)) in
      let kept =
        write_at-other t.fd_array to (record (t.fd_array to) { status = fd_init; node = 0 }) from
          apart in
      let init : is_init ((reserved to t).fd_array to).status ≡ true =
        ap (λ f. is_init f.status) (write_at-same t.fd_array to _) in
      let opened : is_opened (t.fd_array from).status ≡ true = ap is_opened o.status in
      let f = t.fd_array from in
      rw (kept, init, opened)
        (open-filled to f.pos f.node (f.readable, f.writable) (shared_node io from t) t o.node)

  -- how `file_dup` ended
  pub data DupOutcome (io : Inodes S) (n : ℕ) (fd1 fd2 : ℤ) (t : Files S) (ret : ℤ) (t' : Files S)
      : Type 0 where
    not_open :
        ((i : ℕ) → ¬ Names n fd1 t i) → ret ≡ negsuc 2 → t' ≡ t → DupOutcome io n fd1 fd2 t ret t'
    no_copy :
        (from : ℕ)
        → Names n fd1 t from
        → NoneChosen n fd2 t.fd_array ret
        → t' ≡ t
        → DupOutcome io n fd1 fd2 t ret t'
    copied :
        (from to : ℕ)
        → Names n fd1 t from
        → Chosen n fd2 t.fd_array to
        → (t.fd_array to).status ≡ fd_none
        → to < n
        → ret ≡ pos to
        → t' ≡ duplicated io to from t
        → DupOutcome io n fd1 fd2 t ret t'

  -- Between calls, file_dup passes its assertions, leaves a table in which every item is free or open
  -- once, and ends just as the conditions say: with -E_INVAL, if the first descriptor names no open
  -- item; with -E_MAX_OPEN, if the second one is NO_FD and no item is free, with -E_INVAL, if it is not
  -- NO_FD and outside the table, and with -E_BUSY, if its item is not free, each without a change; and
  -- else with the number of the first free item, for NO_FD, or of the item that the second descriptor
  -- names, which was free and now is a copy of the first one's item, with its position, access and node,
  -- the node having one more user and no other item being changed.
  pub file_dup-DupOutcome :
      (io : Inodes S) (n : ℕ) (fd1 fd2 : ℤ) (t : Files S)
      → Settled n t
      → (ret : ℤ) × (t' : Files S) × (file_dup n io fd1 fd2 t ≡ ok (ret, t'))
        × Settled n t'
        × DupOutcome io n fd1 fd2 t ret t'
  unfolding file_dup
  file_dup-DupOutcome io n fd1 fd2 t h = elim (fd2file-Names n fd1 t h) [
    | inr (none_named, e) ↦ (e_inval, t, rw e refl, h, not_open none_named refl refl)
    | inl (from, m, e) ↦ elim (alloc-Allocated n fd2 t h) [
      | inr (bad, r, z, why) ↦ (bad, t, rw (e, r, z) refl, h, no_copy from m why refl)
      | inl (to, r, lt, free, chosen) ↦
          let t' = duplicated io to from t in
          let number : (t'.fd_array to).fd ≡ to =
            ap (λ f. f.fd) (write_at-same t.fd_array to _) ∙ (h.items to lt).0 in
          (
            pos (t'.fd_array to).fd,
            t',
            rw (e, r, dup-duplicated io n to from t m.item free) refl,
            Settled-write_at n t to _ (shared_node io from t) h (
                Settles-opened n to (t.fd_array from).pos (t.fd_array from).node
                  ((t.fd_array from).readable, (t.fd_array from).writable) t h lt free m.item.node),
            copied from to m chosen (is_none_eq _ free) lt (ap pos number) refl,
          )
    ]
  ]
