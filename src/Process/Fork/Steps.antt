-- ===== src/Process/Fork/Steps.antt =====
-- What the steps of `do_fork` before `get_pid` leave behind.
use os_labs.Common.{
  ℕ, Option, none, some, ==_iff, ==→ne, write_at-other, ◌≡◌, ◌≢◌, refl, ap, ◌∙◌, Bool, true, false,
  write_at, write_at-same, write_at_twice, inl, inr, Bool-cases, ok, ◌==◌,
}
use os_labs.Schedule.{uninit, runnable}
use os_labs.Libs.ListEntry.Distinct.{◌∉◌}
use os_labs.Process.Family.Siblings.{Kids}
use os_labs.Process.Table.{Proc, Memory, Table, update, wakeup_proc}
use os_labs.Process.Table.Valid.{IsTable}
use os_labs.Process.Fork.{blank_proc, copy_mm, good_mm, after_dup, after_pgdir, after_create}
use os_labs.Process.Fork.Prepare.{prepared}

-- what `wakeup_proc` writes
abbrev pub awake : Proc → Proc
awake r = record r { state = runnable; wait_state = 0 }

-- A process that is not in a list can be woken.
pub wakeup-uninit :
    {S : Type 0} (t : Table S) (p : ℕ)
    → (t.procs p).state ≡ uninit
    → wakeup_proc p t ≡ ok (update p awake t)
unfolding wakeup_proc
wakeup-uninit t p e = rw e refl

-- What `copy_mm` does with the memory managers in the state `s`, for a current process with the address space
-- `oldmm`: it leaves them in `s'`, and the new process has the address space in `m`, or none could be made.
pub data Copies {S : Type 0} (ops : Memory S) (clone_vm : Bool) (oldmm : ℕ) (s : S) (m : Option ℕ)
    (s' : S) : Type 0 where
  kernel : oldmm ≡ 0 → m ≡ some 0 → s' ≡ s → Copies ops clone_vm oldmm s m s'
  shared :
      oldmm ≢ 0
      → clone_vm ≡ true
      → m ≡ some oldmm
      → s' ≡ ops.mm_count_inc oldmm s
      → Copies ops clone_vm oldmm s m s'
  no_mm :
      (s1 : S)
      → oldmm ≢ 0
      → clone_vm ≡ false
      → ops.mm_create s ≡ (0, s1)
      → m ≡ none
      → s' ≡ s1
      → Copies ops clone_vm oldmm s m s'
  no_pgdir :
      (mm : ℕ) (s1 s2 : S)
      → oldmm ≢ 0
      → clone_vm ≡ false
      → mm ≢ 0
      → ops.mm_create s ≡ (mm, s1)
      → ops.setup_pgdir mm s1 ≡ (false, s2)
      → m ≡ none
      → s' ≡ ops.mm_destroy mm s2
      → Copies ops clone_vm oldmm s m s'
  no_dup :
      (mm : ℕ) (s1 s2 s3 : S)
      → oldmm ≢ 0
      → clone_vm ≡ false
      → mm ≢ 0
      → ops.mm_create s ≡ (mm, s1)
      → ops.setup_pgdir mm s1 ≡ (true, s2)
      → ops.dup_mmap mm oldmm s2 ≡ (false, s3)
      → m ≡ none
      → s' ≡ ops.mm_destroy mm (ops.put_pgdir mm (ops.exit_mmap mm s3))
      → Copies ops clone_vm oldmm s m s'
  copied :
      (mm : ℕ) (s1 s2 s3 : S)
      → oldmm ≢ 0
      → clone_vm ≡ false
      → mm ≢ 0
      → ops.mm_create s ≡ (mm, s1)
      → ops.setup_pgdir mm s1 ≡ (true, s2)
      → ops.dup_mmap mm oldmm s2 ≡ (true, s3)
      → m ≡ some mm
      → s' ≡ ops.mm_count_inc mm s3
      → Copies ops clone_vm oldmm s m s'

module _ {S : Type 0} (ops : Memory S) (t : Table S) (kids : Kids) (p : ℕ) (h : IsTable t kids)
    (out : p ∉ t.proc_list) (ni : p ≢ t.idleproc) where
  -- the table while the process is made
  abbrev at : Proc → S → Table S
  at = prepared t kids p t.current h out ni

  pub update-at : (f : Proc → Proc) (r : Proc) (s : S) → update p f (at r s) ≡ at (f r) s
  update-at f r s =
      ap (λ g. record (at r s) { procs = g })
        (write_at_twice t.procs p r (f (write_at t.procs p r p))
          ∙ ap (λ z. write_at t.procs p (f z)) (write_at-same t.procs p r))

  -- the new process with its kernel stack
  abbrev pub ready : ℕ → Proc
  ready k = record (blank_proc (t.procs p)) { kstack = k }

  abbrev pub copy_result : ℕ → Option ℕ → S → Bool × Table S
  copy_result k none s = (false, at (ready k) s)
  copy_result k (some mm) s = (true, at (record (ready k) { mm = mm }) s)

  abbrev pub Copied : Bool → ℕ → ℕ → S → Bool × Table S → Type 0
  Copied clone_vm k oldmm s r =
      (m : Option ℕ) × (s' : S) × Copies ops clone_vm oldmm s m s' × (r ≡ copy_result k m s')

  good :
      (k mm : ℕ) (s : S)
      → good_mm ops p mm (at (ready k) s) ≡ copy_result k (some mm) (ops.mm_count_inc mm s)
  unfolding good_mm
  good k mm s =
      ap (λ u. (true, u)) (update-at (λ z. record z { mm = mm }) (ready k) (ops.mm_count_inc mm s))

  module _ (k oldmm : ℕ) (s : S) (user : oldmm ≢ 0) where
    after_dup-Copied :
        (mm : ℕ) (s1 s2 : S) (x : Bool × S)
        → mm ≢ 0
        → ops.mm_create s ≡ (mm, s1)
        → ops.setup_pgdir mm s1 ≡ (true, s2)
        → ops.dup_mmap mm oldmm s2 ≡ x
        → Copied false k oldmm s (after_dup ops p mm x (at (ready k) s))
    unfolding after_dup
    after_dup-Copied mm s1 s2 (true, s3) n a b c = (
      some mm,
      ops.mm_count_inc mm s3,
      copied mm s1 s2 s3 user refl n a b c refl refl,
      good k mm s3,
    )
    after_dup-Copied mm s1 s2 (false, s3) n a b c =
        (none, _, no_dup mm s1 s2 s3 user refl n a b c refl refl, refl)

    after_pgdir-Copied :
        (mm : ℕ) (s1 : S) (x : Bool × S)
        → mm ≢ 0
        → ops.mm_create s ≡ (mm, s1)
        → ops.setup_pgdir mm s1 ≡ x
        → Copied false k oldmm s (after_pgdir ops p mm oldmm x (at (ready k) s))
    unfolding after_pgdir
    after_pgdir-Copied mm s1 (true, s2) n a b =
        after_dup-Copied mm s1 s2 (ops.dup_mmap mm oldmm s2) n a b refl
    after_pgdir-Copied mm s1 (false, s2) n a b =
        (none, _, no_pgdir mm s1 s2 user refl n a b refl refl, refl)

    after_create-Copied :
        (x : ℕ × S)
        → ops.mm_create s ≡ x
        → Copied false k oldmm s (after_create ops p oldmm x (at (ready k) s))
    unfolding after_create
    after_create-Copied (mm, s1) a = elim (Bool-cases (mm == 0)) [
      | inl g ↦
          let e : mm ≡ 0 = (==_iff mm 0).0 g in
          rw g (none, s1, no_mm s1 user refl (a ∙ ap (λ z. (z, s1)) e) refl refl, refl)
      | inr g ↦ rw g (after_pgdir-Copied mm s1 (ops.setup_pgdir mm s1) (==→ne mm 0 g) a refl)
    ]

  pub copy_mm-Copied :
      (clone_vm : Bool) (k : ℕ) (s : S)
      → t.current ≢ p
      → Copied clone_vm k (t.procs t.current).mm s (copy_mm ops clone_vm p (at (ready k) s))
  unfolding copy_mm
  copy_mm-Copied true k s apart =
      let oldmm = (t.procs t.current).mm in
      rw (write_at-other t.procs p (ready k) t.current apart) (elim (Bool-cases (oldmm == 0)) [
        | inl g ↦ rw g (some 0, s, kernel ((==_iff oldmm 0).0 g) refl refl, refl)
        | inr g ↦ rw g (
          some oldmm,
          ops.mm_count_inc oldmm s,
          shared (==→ne oldmm 0 g) refl refl refl,
          good k oldmm s,
        )
      ])
  copy_mm-Copied false k s apart =
      let oldmm = (t.procs t.current).mm in
      rw (write_at-other t.procs p (ready k) t.current apart) (elim (Bool-cases (oldmm == 0)) [
        | inl g ↦ rw g (some 0, s, kernel ((==_iff oldmm 0).0 g) refl refl, refl)
        | inr g ↦ rw g (after_create-Copied k oldmm s (==→ne oldmm 0 g) (ops.mm_create s) refl)
      ])
