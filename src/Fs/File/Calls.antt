-- ===== src/Fs/File/Calls.antt =====
-- The second half of lab8/kern/fs/file.c: what uses the operations on inodes.
use os_labs.Common.{
  ℕ, ◌-◌, ◌%◌, ◌/◌, Bool, true, false, not, ◌&&◌, ◌||◌, Option, none, some, ◌==◌, ltb,
  if◌then◌else◌, Run, ok, ◌>>=◌, ◌>>◌, assert, ℤ, pos, ◌+ℤ◌, is_zero,
}
use os_labs.Fs.Iobuf.{Iobuf, iobuf_init}
use os_labs.Fs.File.{
  fd_none, fd_closed, Inodes, File, Files, is_init, is_opened, is_closed, e_inval, no_fd, set_file,
  fd_array_alloc, fd_array_acquire, fd_array_open, fd2file,
}

-- what follows a search that found an item; otherwise the given result
abbrev pub some_file {ℓ} : {A : Type ℓ} → Option ℕ → A → (ℕ → Run A) → Run A
some_file none r f = ok r
some_file (some i) r f = f i

-- the access mode of `open_flags`: readable and writable, if it is one
abbrev pub access_mode : ℕ → Option (Bool × Bool)
access_mode flags =
    if flags % 4 == 0
    then some (true, false)
    else if flags % 4 == 1
    then some (false, true)
    else if flags % 4 == 2
    then some (true, true)
    else none

-- O_APPEND is 0x20, bit 5.
abbrev pub is_append : ℕ → Bool
is_append flags = (flags / 32) % 2 == 1

abbrev pub rewind : File → File
rewind f = record f { pos = pos 0 }

abbrev pub drop_count : File → File
drop_count f = record f { open_count = f.open_count - 1 }

module _ {S : Type 0} (n : ℕ) (io : Inodes S) where
  abbrev set_below : S → Files S → Files S
  set_below s t = record t { below = s }

  unfoldable pub fd_array_free : ℕ → Files S → Run (Files S)
  fd_array_free i t = do
    let f = t.fd_array i
    assert (is_init f.status || is_closed f.status)
    assert (f.open_count == 0)
    let t' = if is_closed f.status then set_below (io.vfs_close f.node t.below) t else t
    ok (set_file i (λ f. record f { status = fd_none }) t')

  -- the end of `fd_array_release` and of `fd_array_close`
  unfoldable pub free_if_last : ℕ → Files S → Run (Files S)
  free_if_last i t = if (t.fd_array i).open_count == 0 then fd_array_free i t else ok t

  unfoldable pub fd_array_release : ℕ → Files S → Run (Files S)
  fd_array_release i t = do
    assert (is_opened (t.fd_array i).status || is_closed (t.fd_array i).status)
    assert (ltb 0 (t.fd_array i).open_count)
    free_if_last i (set_file i drop_count t)

  unfoldable pub fd_array_close : ℕ → Files S → Run (Files S)
  fd_array_close i t = do
    assert (is_opened (t.fd_array i).status)
    assert (ltb 0 (t.fd_array i).open_count)
    free_if_last i (set_file i (λ f. drop_count (record f { status = fd_closed })) t)

  unfoldable pub fd_array_dup : ℕ → ℕ → Files S → Run (Files S)
  fd_array_dup to from t = do
    let f = t.fd_array from
    assert (is_init (t.fd_array to).status && is_opened f.status)
    let t' = set_below (io.vop_open_inc f.node (io.vop_ref_inc f.node t.below)) t
    fd_array_open to (
        set_file to
          (λ g. record g {
            pos = f.pos;
            readable = f.readable;
            writable = f.writable;
            node = f.node;
          })
          t')

  unfoldable pub file_testfd : ℤ → Bool → Bool → Files S → Run Bool
  file_testfd fd readable writable t = do
    found ← fd2file n fd t
    some_file found false λ i. ok (
        not (readable && not (t.fd_array i).readable)
        && not (writable && not (t.fd_array i).writable))

  -- where a file that is opened starts: at 0, or for O_APPEND at its size
  unfoldable pub start_pos : ℕ → ℕ → S → ℤ × ℕ × S
  start_pos flags node s = if is_append flags then io.vop_fstat node s else (pos 0, 0, s)

  -- the end of `file_open`, with what `vfs_open` returned
  unfoldable pub open_node : ℕ → Bool × Bool → ℕ → ℤ × ℕ × S → Files S → Run (ℤ × Files S)
  open_node flags mode i r t = do
    let t₁ = set_below r.2 t
    let at = start_pos flags r.1 r.2
    let t₂ = set_below at.2 t
    if not (is_zero r.0)
        then (fd_array_free i t₁ >>= λ t'. ok (r.0, t'))
        else if not (is_zero at.0)
        then (fd_array_free i (set_file i rewind (set_below (io.vfs_close r.1 at.2) t₂)) >>= λ t'.
            ok (at.0, t'))
        else (fd_array_open i (
              set_file i
                (λ f. record f { pos = pos at.1; node = r.1; readable = mode.0; writable = mode.1 })
                t₂)
            >>= λ t'. ok (pos (t'.fd_array i).fd, t'))

  abbrev open_with : ℕ → ℕ → Option (Bool × Bool) → Files S → Run (ℤ × Files S)
  open_with path flags none t = ok (e_inval, t)
  open_with path flags (some mode) t = do
    (ret, i, t₁) ← fd_array_alloc n no_fd t
    if is_zero ret
        then open_node flags mode i (io.vfs_open path flags t₁.below) t₁
        else ok (ret, t₁)

  unfoldable pub file_open : ℕ → ℕ → Files S → Run (ℤ × Files S)
  file_open path flags t = open_with path flags (access_mode flags) t

  unfoldable pub file_close : ℤ → Files S → Run (ℤ × Files S)
  file_close fd t = do
    found ← fd2file n fd t
    some_file found (e_inval, t) λ i. fd_array_close i t >>= λ t'. ok (pos 0, t')

  -- reading and writing: `op` is `vop_read` or `vop_write`
  unfoldable pub transfer :
      (ℕ → Iobuf → S → ℤ × ℕ × S) → ℕ → ℕ → ℕ → Files S → Run (ℤ × ℕ × Files S)
  transfer op i base len t = do
    t₁ ← fd_array_acquire i t
    let f = t₁.fd_array i
    let r = op f.node (iobuf_init base len f.pos) t₁.below
    let t₂ = set_below r.2 t₁
    let t₃ =
        if is_opened (t₂.fd_array i).status
        then set_file i (λ f. record f { pos = f.pos +ℤ pos r.1 }) t₂
        else t₂
    t₄ ← fd_array_release i t₃
    ok (r.0, r.1, t₄)

  unfoldable pub file_read : ℤ → ℕ → ℕ → Files S → Run (ℤ × ℕ × Files S)
  file_read fd base len t = do
    found ← fd2file n fd t
    some_file found (e_inval, 0, t)
        λ i.
          if (t.fd_array i).readable then transfer io.vop_read i base len t else ok (e_inval, 0, t)

  unfoldable pub file_write : ℤ → ℕ → ℕ → Files S → Run (ℤ × ℕ × Files S)
  file_write fd base len t = do
    found ← fd2file n fd t
    some_file found (e_inval, 0, t)
        λ i.
          if (t.fd_array i).writable then transfer io.vop_write i base len t else ok (e_inval, 0, t)

  -- the position that `whence` asks for
  unfoldable pub seek_pos : ℕ → ℤ → File → S → ℤ × ℤ × S
  seek_pos whence p f s =
      let r = io.vop_fstat f.node s in
      if whence == 0
      then (pos 0, p, s)
      else if whence == 1
      then (pos 0, p +ℤ f.pos, s)
      else if whence == 2
      then (r.0, (if is_zero r.0 then p +ℤ pos r.1 else p), r.2)
      else (e_inval, p, s)

  unfoldable pub file_seek : ℤ → ℤ → ℕ → Files S → Run (ℤ × Files S)
  file_seek fd p whence t = do
    found ← fd2file n fd t
    some_file found (e_inval, t)
        λ i. do
          t₁ ← fd_array_acquire i t
          let at = seek_pos whence p (t₁.fd_array i) t₁.below
          let r = io.vop_tryseek (t₁.fd_array i).node at.1 at.2
          let t₂ = if is_zero at.0 then set_below r.1 t₁ else set_below at.2 t₁
          let ret = if is_zero at.0 then r.0 else at.0
          let t₃ = if is_zero ret then set_file i (λ f. record f { pos = at.1 }) t₂ else t₂
          t₄ ← fd_array_release i t₃
          ok (ret, t₄)

  -- the size stands for the `struct stat` that is filled in
  unfoldable pub file_fstat : ℤ → Files S → Run (ℤ × ℕ × Files S)
  file_fstat fd t = do
    found ← fd2file n fd t
    some_file found (e_inval, 0, t)
        λ i. do
          t₁ ← fd_array_acquire i t
          let r = io.vop_fstat (t₁.fd_array i).node t₁.below
          t₂ ← fd_array_release i (set_below r.2 t₁)
          ok (r.0, r.1, t₂)

  unfoldable pub file_fsync : ℤ → Files S → Run (ℤ × Files S)
  file_fsync fd t = do
    found ← fd2file n fd t
    some_file found (e_inval, t)
        λ i. do
          t₁ ← fd_array_acquire i t
          let r = io.vop_fsync (t₁.fd_array i).node t₁.below
          t₂ ← fd_array_release i (set_below r.1 t₁)
          ok (r.0, t₂)

  -- `base` and `len` are those of the entry's name; the third part is the entry's new offset
  unfoldable pub file_getdirentry : ℤ → ℕ → ℕ → ℤ → Files S → Run (ℤ × ℤ × Files S)
  file_getdirentry fd base len offset t = do
    found ← fd2file n fd t
    some_file found (e_inval, offset, t)
        λ i. do
          t₁ ← fd_array_acquire i t
          let r = io.vop_getdirentry (t₁.fd_array i).node (iobuf_init base len offset) t₁.below
          t₂ ← fd_array_release i (set_below r.2 t₁)
          ok (r.0, (if is_zero r.0 then offset +ℤ pos r.1 else offset), t₂)

  unfoldable pub file_dup : ℤ → ℤ → Files S → Run (ℤ × Files S)
  file_dup fd1 fd2 t = do
    found ← fd2file n fd1 t
    some_file found (e_inval, t)
        λ from. do
          (ret, to, t₁) ← fd_array_alloc n fd2 t
          if is_zero ret
              then (fd_array_dup to from t₁ >>= λ t₂. ok (pos (t₂.fd_array to).fd, t₂))
              else ok (ret, t₁)
