-- ===== src/Fs/File/Closing.antt =====
-- Closing a file, and opening one and closing it again.
use mathlib.Core.Path.{subst}
use os_labs.Common.{
  ℕ, ◌≡◌, ◌≢◌, refl, sym, ap, ◌∙◌, ◌⊎◌, inl, inr, false, arith, Bool-cases, ◌==◌, ==_iff, ok, ℤ,
  pos, is_zero, write_at-same, write_at-other,
}
use os_labs.Fs.File.{Inodes, Files, e_inval}
use os_labs.Fs.File.Calls.{file_open, file_close}
use os_labs.Fs.File.Table.{Settled, Settled-write_at}
use os_labs.Fs.File.Transfer.{Names, fd2file-Names, fd2file-some}
use os_labs.Fs.File.Alloc.{closed_file, with_file, close-Open, Settles-closed, is_none_eq}
use os_labs.Fs.File.Opening.{GivesNodes, Unopened, Opened, OpenOutcome-cases, file_open-OpenOutcome}

module _ {S : Type 0} where
  -- the files after the open item has been closed
  abbrev pub without : Inodes S → ℕ → Files S → Files S
  without io i t =
      with_file i (closed_file (t.fd_array i)) (io.vfs_close (t.fd_array i).node t.below) t

  pub without-Settled :
      (io : Inodes S) (n i : ℕ) (fd : ℤ) (t : Files S)
      → Settled n t
      → Names n fd t i
      → Settled n (without io i t)
  without-Settled io n i fd t h m =
      Settled-write_at n t i _ _ h (Settles-closed n i t h m.inside m.item)

  pub file_close-without :
      (io : Inodes S) (n : ℕ) (fd : ℤ) (t : Files S)
      → Settled n t
      → ((i : ℕ) × Names n fd t i × (file_close n io fd t ≡ ok (pos 0, without io i t)))
        ⊎ ((i : ℕ) → ¬ Names n fd t i) × (file_close n io fd t ≡ ok (e_inval, t))
  unfolding file_close
  file_close-without io n fd t h = elim (fd2file-Names n fd t h) [
    | inr (none_named, e) ↦ inr (none_named, rw e refl)
    | inl (i, m, e) ↦ inl (i, m, rw (e, close-Open io n i t m.item) refl)
  ]

  Opened-without :
      (io : Inodes S) (n flags : ℕ) (t t' : Files S) (i : ℕ)
      → Opened n flags t t' i
      → Unopened t (without io i t')
  Opened-without io n flags t t' i o j = elim (Bool-cases (j == i)) [
    | inl e ↦
        let new = ap (λ f. f.status) (write_at-same t'.fd_array i (closed_file (t'.fd_array i))) in
        let old = is_none_eq (t.fd_array i).status o.free.2 in
        subst (λ k. ((without io i t').fd_array k).status ≡ (t.fd_array k).status)
          (sym ((==_iff j i).0 e)) (new ∙ sym old)
    | inr e ↦
        let apart : j ≢ i = λ same. cc ((==_iff j i).1 same) in
        ap (λ f. f.status) (write_at-other t'.fd_array i _ j apart ∙ o.others j apart)
  ]

  file_close-named :
      (io : Inodes S) (n : ℕ) (fd : ℤ) (t : Files S) (i : ℕ)
      → Settled n t
      → Names n fd t i
      → file_close n io fd t ≡ ok (pos 0, without io i t)
  unfolding file_close
  file_close-named io n fd t i h m = rw (fd2file-some n fd t i h m, close-Open io n i t m.item) refl

  -- The file with this descriptor can be closed, by which the table is as free as it was in `t`.
  abbrev pub Closes : Inodes S → ℕ → Files S → ℤ → Files S → Type 0
  Closes io n t fd t₁ =
      (t₂ : Files S) × (file_close n io fd t₁ ≡ ok (pos 0, t₂))
      × ((i : ℕ) × (fd ≡ pos i) × (t₂.below ≡ io.vfs_close (t₁.fd_array i).node t₁.below))
      × Settled n t₂
      × Unopened t t₂

  closes :
      (io : Inodes S) (n flags : ℕ) (t : Files S) (ret : ℤ) (t₁ : Files S)
      → Settled n t₁
      → ((i : ℕ) × (ret ≡ pos i) × Opened n flags t t₁ i) ⊎ (is_zero ret ≡ false) × Unopened t t₁
      → Closes io n t ret t₁ ⊎ (is_zero ret ≡ false) × Unopened t t₁
  closes io n flags t ret t₁ s (inr (z, u)) = inr (z, u)
  closes io n flags t ret t₁ s (inl (i, e, o)) =
      let m : Names n ret t₁ i = record {
        number = e;
        inside = omega (arith, o.free.1);
        item = o.item;
      } in
      inl (
        without io i t₁,
        file_close-named io n ret t₁ i s m,
        (i, e, refl),
        without-Settled io n i ret t₁ s m,
        Opened-without io n flags t t₁ i o,
      )

  -- Between calls, when the virtual file system gives a node with each success: if `file_open` opens a
  -- file, then `file_close` of the number that it returned succeeds, calls `vfs_close` for the file's
  -- node, and leaves a table in which each item is free or open once, and just those are open that
  -- were open at first. If `file_open` fails, just those are open, too.
  pub open-close :
      (io : Inodes S) (n path flags : ℕ) (t : Files S)
      → GivesNodes io
      → Settled n t
      → (ret : ℤ) × (t₁ : Files S) × (file_open n io path flags t ≡ ok (ret, t₁))
        × (Closes io n t ret t₁ ⊎ (is_zero ret ≡ false) × Unopened t t₁)
  open-close io n path flags t g h =
      let (ret, t₁, run, s, out) = file_open-OpenOutcome io n path flags t g h in
      (
        ret,
        t₁,
        run,
        closes io n flags t ret t₁ s
            (OpenOutcome-cases io n flags (io.vfs_open path flags t.below) t ret t₁ out),
      )
