-- ===== src/Fs/File/Sequence.antt =====
-- Any sequence of calls: no assertion of file.c fails.
use os_labs.Common.{
  ℕ, ◌+◌, ◌≡◌, refl, inl, inr, Bool, List, [], ◌∷◌, Bool-cases, Run, ok, ◌>>=◌, ℤ, is_zero,
}
use os_labs.Fs.Iobuf.{Iobuf, iobuf_init}
use os_labs.Fs.File.{Inodes, File, Files}
use os_labs.Fs.File.Calls.{
  file_open, file_close, file_read, file_write, seek_pos, file_seek, file_fstat, file_fsync,
  file_getdirentry, file_dup,
}
use os_labs.Fs.File.Table.{
  Settled, Settled-write_at, moved, holding-file, acquire-holding, release-holding, holding-set_pos,
}
use os_labs.Fs.File.Transfer.{
  Names, fd2file-Names, advanced, Transferred, file_read-Transferred, file_write-Transferred,
}
use os_labs.Fs.File.Opening.{GivesNodes, file_open-OpenOutcome}
use os_labs.Fs.File.Closing.{without, file_close-without, without-Settled}
use os_labs.Fs.File.Dup.{file_dup-DupOutcome}

-- a system call on the files
pub data FileCall : Type 0 where
  open_path : ℕ → ℕ → FileCall
  close_fd : ℤ → FileCall
  read_fd write_fd : ℤ → ℕ → ℕ → FileCall
  seek_fd : ℤ → ℤ → ℕ → FileCall
  stat_fd sync_fd : ℤ → FileCall
  entry_fd : ℤ → ℕ → ℕ → ℤ → FileCall
  dup_fd : ℤ → ℤ → FileCall

-- the item while it is held
abbrev held : File → File
held f = record f { open_count = f.open_count + 1 }

module _ {S : Type 0} where
  -- the files after the call
  unfoldable pub run_call : ℕ → Inodes S → FileCall → Files S → Run (Files S)
  run_call n io (open_path path flags) t = file_open n io path flags t >>= λ r. ok r.1
  run_call n io (close_fd fd) t = file_close n io fd t >>= λ r. ok r.1
  run_call n io (read_fd fd base len) t = file_read n io fd base len t >>= λ r. ok r.2
  run_call n io (write_fd fd base len) t = file_write n io fd base len t >>= λ r. ok r.2
  run_call n io (seek_fd fd p whence) t = file_seek n io fd p whence t >>= λ r. ok r.1
  run_call n io (stat_fd fd) t = file_fstat n io fd t >>= λ r. ok r.2
  run_call n io (sync_fd fd) t = file_fsync n io fd t >>= λ r. ok r.1
  run_call n io (entry_fd fd base len offset) t =
      file_getdirentry n io fd base len offset t >>= λ r. ok r.2
  run_call n io (dup_fd fd1 fd2) t = file_dup n io fd1 fd2 t >>= λ r. ok r.1

  unfoldable pub run_calls : ℕ → Inodes S → List FileCall → Files S → Run (Files S)
  run_calls n io [] t = ok t
  run_calls n io (c ∷ cs) t = run_call n io c t >>= λ t'. run_calls n io cs t'

  -- A run ends with a table in which every item is free or open once.
  abbrev pub Ends : ℕ → Run (Files S) → Type 0
  Ends n r = (t' : Files S) × (r ≡ ok t') × Settled n t'

  moved-Settled :
      (n i : ℕ) (fd p : ℤ) (s : S) (t : Files S)
      → Settled n t
      → Names n fd t i
      → Settled n (moved i p s t)
  moved-Settled n i fd p s t h m =
      Settled-write_at n t i _ s h ((h.items i m.inside).0, (h.items i m.inside).1)

  Transferred-Ends :
      (n : ℕ) (allowed : File → Bool) (op : ℕ → Iobuf → S → ℤ × ℕ × S) (fd : ℤ) (base len : ℕ)
      (t : Files S) (out : Run (ℤ × ℕ × Files S))
      → Settled n t
      → Transferred n allowed op fd base len t out
      → Ends n (out >>= λ r. ok r.2)
  Transferred-Ends n allowed op fd base len t out h (inl (i, m, a, e)) =
      (advanced op i base len t, rw e refl, moved-Settled n i fd _ _ t h m)
  Transferred-Ends n allowed op fd base len t out h (inr (none_named, e)) = (t, rw e refl, h)

  stat-Ends :
      (io : Inodes S) (n : ℕ) (fd : ℤ) (t : Files S)
      → Settled n t
      → Ends n (run_call n io (stat_fd fd) t)
  unfolding run_call file_fstat
  stat-Ends io n fd t h = elim (fd2file-Names n fd t h) [
    | inr (_, e) ↦ (t, rw e refl, h)
    | inl (i, m, e) ↦
        let r = io.vop_fstat (t.fd_array i).node t.below in
        (
          moved i (t.fd_array i).pos r.2 t,
          rw
              (
                e,
                acquire-holding i t m.item,
                holding-file i (t.fd_array i).pos t.below t,
                release-holding io n i (t.fd_array i).pos r.2 t m.item,
              )
              refl,
          moved-Settled n i fd (t.fd_array i).pos r.2 t h m,
        )
  ]

  sync-Ends :
      (io : Inodes S) (n : ℕ) (fd : ℤ) (t : Files S)
      → Settled n t
      → Ends n (run_call n io (sync_fd fd) t)
  unfolding run_call file_fsync
  sync-Ends io n fd t h = elim (fd2file-Names n fd t h) [
    | inr (_, e) ↦ (t, rw e refl, h)
    | inl (i, m, e) ↦
        let r = io.vop_fsync (t.fd_array i).node t.below in
        (
          moved i (t.fd_array i).pos r.1 t,
          rw
              (
                e,
                acquire-holding i t m.item,
                holding-file i (t.fd_array i).pos t.below t,
                release-holding io n i (t.fd_array i).pos r.1 t m.item,
              )
              refl,
          moved-Settled n i fd (t.fd_array i).pos r.1 t h m,
        )
  ]

  entry-Ends :
      (io : Inodes S) (n : ℕ) (fd : ℤ) (base len : ℕ) (offset : ℤ) (t : Files S)
      → Settled n t
      → Ends n (run_call n io (entry_fd fd base len offset) t)
  unfolding run_call file_getdirentry
  entry-Ends io n fd base len offset t h = elim (fd2file-Names n fd t h) [
    | inr (_, e) ↦ (t, rw e refl, h)
    | inl (i, m, e) ↦
        let r = io.vop_getdirentry (t.fd_array i).node (iobuf_init base len offset) t.below in
        (
          moved i (t.fd_array i).pos r.2 t,
          rw
              (
                e,
                acquire-holding i t m.item,
                holding-file i (t.fd_array i).pos t.below t,
                release-holding io n i (t.fd_array i).pos r.2 t m.item,
              )
              refl,
          moved-Settled n i fd (t.fd_array i).pos r.2 t h m,
        )
  ]

  seek-Ends :
      (io : Inodes S) (n : ℕ) (fd p : ℤ) (whence : ℕ) (t : Files S)
      → Settled n t
      → Ends n (run_call n io (seek_fd fd p whence) t)
  unfolding run_call file_seek
  seek-Ends io n fd p whence t h = elim (fd2file-Names n fd t h) [
    | inr (_, e) ↦ (t, rw e refl, h)
    | inl (i, m, e) ↦
        let f = t.fd_array i in
        let start = acquire-holding i t m.item in
        let file = holding-file i f.pos t.below t in
        let at = seek_pos n io whence p (held f) t.below in
        let r = io.vop_tryseek f.node at.1 at.2 in
        elim (Bool-cases (is_zero at.0)) [
          | inr bad ↦ (
            moved i f.pos at.2 t,
            rw (e, start, file, bad, bad, release-holding io n i f.pos at.2 t m.item) refl,
            moved-Settled n i fd f.pos at.2 t h m,
          )
          | inl good ↦ elim (Bool-cases (is_zero r.0)) [
            | inr bad ↦ (
              moved i f.pos r.1 t,
              rw (e, start, file, good, bad, release-holding io n i f.pos r.1 t m.item) refl,
              moved-Settled n i fd f.pos r.1 t h m,
            )
            | inl fine ↦ (
              moved i at.1 r.1 t,
              rw
                  (
                    e,
                    start,
                    file,
                    good,
                    fine,
                    holding-set_pos i f.pos at.1 r.1 t,
                    release-holding io n i at.1 r.1 t m.item,
                  )
                  refl,
              moved-Settled n i fd at.1 r.1 t h m,
            )
          ]
        ]
  ]

  run_call-Ends :
      (io : Inodes S) (n : ℕ) (c : FileCall) (t : Files S)
      → GivesNodes io
      → Settled n t
      → Ends n (run_call n io c t)
  unfolding run_call
  run_call-Ends io n (open_path path flags) t g h =
      let (ret, t', run, s, out) = file_open-OpenOutcome io n path flags t g h in
      (t', rw run refl, s)
  run_call-Ends io n (close_fd fd) t g h = elim (file_close-without io n fd t h) [
    | inl (i, m, e) ↦ (without io i t, rw e refl, without-Settled io n i fd t h m)
    | inr (_, e) ↦ (t, rw e refl, h)
  ]
  run_call-Ends io n (read_fd fd base len) t g h =
      Transferred-Ends n (λ f. f.readable) io.vop_read fd base len t _ h
        (file_read-Transferred io n fd base len t h)
  run_call-Ends io n (write_fd fd base len) t g h =
      Transferred-Ends n (λ f. f.writable) io.vop_write fd base len t _ h
        (file_write-Transferred io n fd base len t h)
  run_call-Ends io n (seek_fd fd p whence) t g h = seek-Ends io n fd p whence t h
  run_call-Ends io n (stat_fd fd) t g h = stat-Ends io n fd t h
  run_call-Ends io n (sync_fd fd) t g h = sync-Ends io n fd t h
  run_call-Ends io n (entry_fd fd base len offset) t g h = entry-Ends io n fd base len offset t h
  run_call-Ends io n (dup_fd fd1 fd2) t g h =
      let (ret, t', run, s, out) = file_dup-DupOutcome io n fd1 fd2 t h in (t', rw run refl, s)

  -- From a table in which every item is free or open once, when the virtual file system gives a node
  -- with each success, any sequence of calls to open, close, read, write, seek, stat, sync, list and
  -- duplicate files, with any arguments, ends without a failed assertion, in such a table again.
  pub run_calls-Settled :
      (io : Inodes S) (n : ℕ) (cs : List FileCall) (t : Files S)
      → GivesNodes io
      → Settled n t
      → (t' : Files S) × (run_calls n io cs t ≡ ok t') × Settled n t'
  unfolding run_calls
  run_calls-Settled io n [] t g h = (t, refl, h)
  run_calls-Settled io n (c ∷ cs) t g h =
      let (t₁, run, s) = run_call-Ends io n c t g h in
      let (t₂, rest, s') = run_calls-Settled io n cs t₁ g s in (t₂, rw run rest, s')
