-- ===== src/Process/Exit/Rendezvous.antt =====
-- A process that exits and its parent that waits for it.
use mathlib.Core.Path.{subst}
use mathlib.Core.List.{Memᴰ}
use os_labs.Common.{
  some, not, ◌&&◌, ◌==◌, Bool, Bool-cases, if_true, if_false, ℕ, ◌≤◌, ◌≡◌, ◌≢◌, refl, sym, ap, ◌∙◌,
  true, false, ◌⊎◌, inl, inr, ok, length, ℤ,
}
use os_labs.Schedule.{runnable}
use os_labs.Process.Family.Siblings.{Kids}
use os_labs.Process.Table.{Proc, is_runnable, Memory, Table, is_zombie, wt_child}
use os_labs.Process.Table.Valid.{IsTable, IsTable-switch}
use os_labs.Process.Exit.{found, reaped, is_exiting, do_exit, do_wait_return}
use os_labs.Process.Exit.Wake.{woken}
use os_labs.Process.Exit.Reap.{IsReaped}
use os_labs.Process.Exit.Leave.{exited_kids}
use os_labs.Process.Exit.Wait.{wait_round-ends}
use os_labs.Process.Exit.Outcome.{IsExited, do_exit-IsExited}
use os_labs.Process.Exit.Find.{false-true, IsMeant, Finds}

woken-flags : (b : Bool) (r : Proc) → (woken b r).flags ≡ r.flags
woken-flags b r =
    elim (Bool-cases (b && ((r.wait_state == wt_child) && not (is_runnable r.state)))) [
      | inl e ↦ ap {A = Proc} (λ z. z.flags) (if_true _ _ e)
      | inr e ↦ ap {A = Proc} (λ z. z.flags) (if_false _ _ e)
    ]

-- When it runs again, the process takes a zombie child out and returns its exit code.
module _ {S : Type 0} where
  abbrev pub Returns : Memory S → ℕ → ℕ → Table S → Kids → Type 0
  Returns ops fuel pid t kids =
      (p : ℕ) × (t' : Table S) × (do_wait_return ops fuel pid t
        ≡ ok (some (reaped (t.procs p).exit_code), t'))
      × Finds pid t (kids t.current) (found p)
      × IsReaped t t' kids p

module _ {S : Type 0} (ops : Memory S) (code : ℤ) (t : Table S) (kids : Kids) (h : IsTable t kids)
    (here : Memᴰ t.current t.proc_list) (up : t.family.parent t.current ≢ t.current)
    (there : Memᴰ t.initproc t.proc_list ⊎ (t.initproc ≡ t.idleproc)) (pq : t.initproc ≢ t.current)
    (alive : is_zombie (t.procs t.initproc).state ≡ false) where
  abbrev u : ℕ
  u = t.family.parent t.current

  abbrev kids_after : Kids
  kids_after = exited_kids t.current t.initproc kids

  IsMeant-after :
      (pid : ℕ) (t' : Table S)
      → IsExited ops t t' kids code
      → IsMeant pid t t.current
      → IsMeant pid t' t.current
  IsMeant-after pid t' done (inl e) = inl e
  IsMeant-after pid t' done (inr e) = inr (done.numbers t.current ∙ e)

  -- For a table in order and a current process of the list other than the init process (which is alive,
  -- and is in the list or is the idle one) and not its own parent, with fuel for the children of both, a
  -- parent that waits with WT_CHILD for any child or for the number of this one is runnable after its
  -- do_exit. If the parent was not killed, then, when it runs next, do_wait goes on after schedule by
  -- taking a zombie child that it asked for out of the table and returning its exit code.
  pub do_exit-do_wait_return :
      (pid fuel fuel' : ℕ)
      → IsMeant pid t t.current
      → (t.procs (t.family.parent t.current)).wait_state ≡ wt_child
      → is_exiting (t.procs (t.family.parent t.current)).flags ≡ false
      → length (kids t.current) ≤ fuel
      → length (exited_kids t.current t.initproc kids (t.family.parent t.current)) ≤ fuel'
      → (t' : Table S) × (do_exit ops fuel code t ≡ ok t')
        × ((t'.procs (t.family.parent t.current)).state ≡ runnable)
        × Returns ops fuel' pid
            (record t' { current = t.family.parent t.current })
            (exited_kids t.current t.initproc kids)
  unfolding do_wait_return
  do_exit-do_wait_return pid fuel fuel' meant w live l l' =
      let (t', run, done) = do_exit-IsExited ops code t kids h here up there pq alive fuel l in
      let t1 = record t' { current = u } in
      let child : Memᴰ t.current (kids_after u) =
        subst (λ a. Memᴰ t.current (kids_after a)) done.parent
          (done.table.owned t.current (rw done.list here)) in
      let i : IsMeant pid t1 t.current = IsMeant-after pid t' done meant in
      let z : is_zombie (t'.procs t.current).state ≡ true = ap (λ r. is_zombie r.state) done.own in
      let init : is_zombie (t'.procs t'.initproc).state ≡ false = rw done.initproc done.alive in
      let going : is_exiting (t'.procs u).flags ≡ false =
        ap (λ r. is_exiting r.flags) (done.others u up)
        ∙ ap is_exiting (woken-flags _ (t.procs u))
        ∙ live in
      (
        t',
        run,
        done.parent_runs w,
        elim (wait_round-ends ops t1 kids_after (IsTable-switch t' kids_after u t'.below done.table)
            pid fuel' init l') [
              | inl (p, t2, run2, finds, gone) ↦ (p, t2, rw (going, run2) refl, finds, gone)
              | inr (inl (t2, run2, (some_kid, living), rest)) ↦
                  absurd (false-true (sym (living t.current child i) ∙ z))
              | inr (inr (run2, none)) ↦ absurd (none t.current child i)
            ],
      )
