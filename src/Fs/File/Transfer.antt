-- ===== src/Fs/File/Transfer.antt =====
-- Reading, writing and seeking: what the calls do to the open file that they name, and when they fail.
use mathlib.Core.Path.{subst}
use os_labs.Common.{
  ℕ, ◌<◌, ◌≡◌, refl, sym, ap, ◌∙◌, ◌⊎◌, inl, inr, Bool, true, false, none, some, arith, ltb, lt→ltb,
  ltb→lt, ltb→le, pos_part, neg_part, ==_refl, Bool-cases, if◌then◌else◌, if_true, if_false, ◌>>=◌,
  Run, ok, ℤ, pos, negsuc, ◌+ℤ◌, write_at_twice,
}
use os_labs.Fs.Iobuf.{Iobuf, iobuf_init}
use os_labs.Fs.File.{Inodes, File, Files, is_opened, e_inval, fd2file}
use os_labs.Fs.File.Calls.{some_file, transfer, file_read, file_write}
use os_labs.Fs.File.Table.{Settled, Open, moved, holding-file, acquire-holding, release-holding}

module _ {S : Type 0} where
  -- The descriptor names the open item `i`.
  pub record Names (n : ℕ) (fd : ℤ) (t : Files S) (i : ℕ) : Type 0 where
    pub number : fd ≡ pos i
    pub inside : i < n
    pub item : Open i t

  Settles-Open :
      (n i : ℕ) (t : Files S)
      → Settled n t
      → i < n
      → is_opened (t.fd_array i).status ≡ true
      → Open i t
  Settles-Open n i t h lt o = elim (h.items i lt).1 [
    | inl (e, c) ↦ cc
    | inr (e, c, u) ↦ record { status = e; count = c; node = u; fd = (h.items i lt).0 }
  ]

  Names-is_opened :
      (n k i : ℕ) (t : Files S) → Names n (pos k) t i → is_opened (t.fd_array k).status ≡ true
  Names-is_opened n k i t m =
      let same : k ≡ i = omega (arith, ap pos_part m.number) in
      subst (λ j. is_opened (t.fd_array j).status ≡ true) (sym same) (ap is_opened m.item.status)

  abbrev Looked : ℕ → ℤ → Files S → Type 0
  Looked n fd t =
      ((i : ℕ) × Names n fd t i × (fd2file n fd t ≡ ok (some i)))
      ⊎ ((i : ℕ) → ¬ Names n fd t i) × (fd2file n fd t ≡ ok none)

  -- `fd2file` gives the item that the descriptor names, if it names one.
  pub fd2file-Names : (n : ℕ) (fd : ℤ) (t : Files S) → Settled n t → Looked n fd t
  unfolding fd2file
  fd2file-Names n (negsuc k) t h = inr ((λ i m. omega (arith, ap neg_part m.number)), refl)
  fd2file-Names n (pos k) t h = elim (Bool-cases (ltb k n)) [
    | inr out ↦
        inr ((λ i m. omega (arith, ap pos_part m.number, m.inside, ltb→le k n out)), rw out refl)
    | inl within ↦
        let lt = ltb→lt k n within in
        elim (Bool-cases (is_opened (t.fd_array k).status)) [
          | inl o ↦
              let item = Settles-Open n k t h lt o in
              inl (
                k,
                record { number = refl; inside = lt; item = item },
                rw (within, lt→ltb _ _ h.shared, o, item.fd, ==_refl k) refl,
              )
          | inr shut ↦
              inr (
                (λ i m. cc (Names-is_opened n k i t m)),
                rw (within, lt→ltb _ _ h.shared, shut) refl,
              )
        ]
  ]

  -- what an operation returns for the item at its position
  abbrev pub answer : (ℕ → Iobuf → S → ℤ × ℕ × S) → ℕ → ℕ → ℕ → Files S → ℤ × ℕ × S
  answer op i base len t = op (t.fd_array i).node (iobuf_init base len (t.fd_array i).pos) t.below

  -- the files after it, with the position behind the bytes that were used
  abbrev pub advanced : (ℕ → Iobuf → S → ℤ × ℕ × S) → ℕ → ℕ → ℕ → Files S → Files S
  advanced op i base len t =
      let r = answer op i base len t in moved i ((t.fd_array i).pos +ℤ pos r.1) r.2 t

  transfer-advanced :
      (io : Inodes S) (n : ℕ) (op : ℕ → Iobuf → S → ℤ × ℕ × S) (i base len : ℕ) (t : Files S)
      → Open i t
      → transfer n io op i base len t
        ≡ ok ((answer op i base len t).0, (answer op i base len t).1, advanced op i base len t)
  unfolding transfer
  transfer-advanced io n op i base len t h =
      let r = answer op i base len t in
      let p = (t.fd_array i).pos +ℤ pos r.1 in
      let opened : is_opened (t.fd_array i).status ≡ true = ap is_opened h.status in
      rw
        (
          acquire-holding i t h,
          holding-file i (t.fd_array i).pos t.below t,
          opened,
          write_at_twice,
          release-holding io n i p r.2 t h,
        )
        refl

  pub Names-same :
      (n : ℕ) (fd : ℤ) (t : Files S) (i j : ℕ) → Names n fd t i → Names n fd t j → i ≡ j
  Names-same n fd t i j p q = omega (arith, ap pos_part (sym p.number ∙ q.number))

  pub fd2file-some :
      (n : ℕ) (fd : ℤ) (t : Files S) (i : ℕ)
      → Settled n t
      → Names n fd t i
      → fd2file n fd t ≡ ok (some i)
  fd2file-some n fd t i h m = elim (fd2file-Names n fd t h) [
    | inr (none_named, e) ↦ absurd (none_named i m)
    | inl (j, k, e) ↦ e ∙ ap (λ a. ok (some a)) (Names-same n fd t j i k m)
  ]

  -- The result of a transfer through a descriptor by `op`, for items that are `allowed`
  abbrev pub Transferred :
      ℕ
      → (File → Bool)
      → (ℕ → Iobuf → S → ℤ × ℕ × S)
      → ℤ
      → ℕ
      → ℕ
      → Files S
      → Run (ℤ × ℕ × Files S)
      → Type 0
  Transferred n allowed op fd base len t out =
      ((i : ℕ) × Names n fd t i
        × (allowed (t.fd_array i) ≡ true)
        × (out
            ≡ ok
                ((answer op i base len t).0, (answer op i base len t).1, advanced op i base len t)))
      ⊎ ((i : ℕ) → Names n fd t i → allowed (t.fd_array i) ≡ false) × (out ≡ ok (e_inval, 0, t))

  call-Transferred :
      (io : Inodes S) (n : ℕ) (allowed : File → Bool) (op : ℕ → Iobuf → S → ℤ × ℕ × S) (fd : ℤ)
      (base len : ℕ) (t : Files S)
      → Settled n t
      → Transferred n allowed op fd base len t (
          fd2file n fd t >>= λ found.
          some_file found
            (e_inval, 0, t)
            λ i.
              if allowed (t.fd_array i) then transfer n io op i base len t else ok (e_inval, 0, t))
  call-Transferred io n allowed op fd base len t h = elim (fd2file-Names n fd t h) [
    | inr (none_named, e) ↦ inr ((λ i m. absurd (none_named i m)), rw e refl)
    | inl (i, m, e) ↦ elim (Bool-cases (allowed (t.fd_array i))) [
      | inl r ↦ inl (i, m, r, rw e (if_true _ _ r ∙ transfer-advanced io n op i base len t m.item))
      | inr r ↦ inr (
        (λ j k. subst (λ a. allowed (t.fd_array a) ≡ false) (Names-same n fd t i j m k) r),
        rw e (if_false _ _ r),
      )
    ]
  ]

  -- Between calls, `file_read` through a descriptor that names an open item which may be read gives
  -- what `vop_read` of its node at the item's position returns, the result and the bytes used, and moves the
  -- item's position behind them, and no other item changes. Otherwise it returns -E_INVAL and changes
  -- nothing.
  pub file_read-Transferred :
      (io : Inodes S) (n : ℕ) (fd : ℤ) (base len : ℕ) (t : Files S)
      → Settled n t
      → Transferred n (λ f. f.readable) io.vop_read fd base len t (file_read n io fd base len t)
  unfolding file_read
  file_read-Transferred io n = call-Transferred io n (λ f. f.readable) io.vop_read

  -- Between calls, `file_write` does the same by `vop_write`, for an open item which may be written.
  pub file_write-Transferred :
      (io : Inodes S) (n : ℕ) (fd : ℤ) (base len : ℕ) (t : Files S)
      → Settled n t
      → Transferred n (λ f. f.writable) io.vop_write fd base len t (file_write n io fd base len t)
  unfolding file_write
  file_write-Transferred io n = call-Transferred io n (λ f. f.writable) io.vop_write
