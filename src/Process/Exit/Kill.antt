-- ===== src/Process/Exit/Kill.antt =====
-- What `do_kill` does, for every number.
use mathlib.Core.Path.{subst}
use mathlib.Core.List.{Memᴰ}
use mathlib.Core.Bool.{not-not}
use os_labs.Common.{
  negsuc, ◌&&◌, if◌then◌else◌, ℕ, ◌≡◌, ◌≢◌, refl, sym, ap, ◌∙◌, true, false, not, ◌⊎◌, inl, inr,
  Bool-cases, Option-cases, write_at-same, write_at-other, Run, ok, ℤ, pos, bit_or, and-has_bit,
  has_bit, or-clear, xor-flips, some,
}
use os_labs.Schedule.{runnable}
use os_labs.Process.Family.Siblings.{Kids}
use os_labs.Process.Table.{Proc, Table, is_zombie, is_runnable, update, find_proc, wakeup_proc}
use os_labs.Process.Table.Valid.{IsTable, IsTable-update, find_proc-member, find_proc-found}
use os_labs.Process.Exit.{is_exiting, is_interruptible, kill, do_kill}
use os_labs.Process.Exit.Find.{false-true}
use os_labs.Process.Exit.Wake.{runnable_state}
use os_labs.Process.Fork.Steps.{awake}

exiting-or : (flags : ℕ) → is_exiting flags ≡ false → is_exiting (bit_or flags 1) ≡ true
exiting-or flags e =
    let clear : has_bit 0 flags ≡ false =
      sym (not-not (has_bit 0 flags)) ∙ ap not (sym (and-has_bit 0 flags)) ∙ e in
    ap not (and-has_bit 0 (bit_or flags 1))
    ∙ not-not _
    ∙ ap (has_bit 0) (or-clear 0 flags clear)
    ∙ xor-flips 0 flags
    ∙ ap not clear

-- what becomes of a process: the mark, and if its wait is interruptible and it is not runnable, the end of the wait
abbrev pub killed : Proc → Proc
killed r =
    let marked = record r { flags = bit_or r.flags 1 } in
    if is_interruptible r.wait_state && not (is_runnable r.state) then awake marked else marked

-- What holds after the process `p` was killed: it was not killed before, and nothing but it has changed.
pub record IsKilled {S : Type 0} (t t' : Table S) (kids : Kids) (p : ℕ) : Type 0 where
  pub table : IsTable t' kids
  pub spared : is_exiting (t.procs p).flags ≡ false
  pub own : t'.procs p ≡ killed (t.procs p)
  pub exiting : is_exiting (t'.procs p).flags ≡ true
  pub runs : is_interruptible (t.procs p).wait_state ≡ true → (t'.procs p).state ≡ runnable
  pub others : (x : ℕ) → x ≢ p → t'.procs x ≡ t.procs x
  pub rest : t' ≡ record t { procs = t'.procs }

module _ {S : Type 0} (t : Table S) (kids : Kids) (h : IsTable t kids) where
  abbrev marked : Proc → Proc
  marked r = record r { flags = bit_or r.flags 1 }

  abbrev Done : ℕ → Run (ℤ × Table S) → Type 0
  Done p r = (t' : Table S) × (r ≡ ok (pos 0, t')) × IsKilled t t' kids p

  marked-Done :
      (p : ℕ)
      → is_exiting (t.procs p).flags ≡ false
      → is_interruptible (t.procs p).wait_state ≡ false
      → IsKilled t (update p marked t) kids p
  marked-Done p e w =
      let now : (update p marked t).procs p ≡ marked (t.procs p) =
        write_at-same t.procs p (marked (t.procs p)) in
      record {
        table = IsTable-update t kids p marked (λ r. refl) (h.zombies p) h;
        exiting = ap (λ r. is_exiting r.flags) now ∙ exiting-or (t.procs p).flags e;
        spared = e;
        own = now ∙ rw w refl;
        rest = refl;
        runs = λ i. absurd (false-true (sym w ∙ i));
        others = λ x n. write_at-other t.procs p (marked (t.procs p)) x n;
      }

  -- and when it is woken, or runnable as it is
  woken-Done :
      (p : ℕ)
      → is_exiting (t.procs p).flags ≡ false
      → is_interruptible (t.procs p).wait_state ≡ true
      → is_zombie (t.procs p).state ≡ false
      → (t' : Table S) × (wakeup_proc p (update p marked t) ≡ ok t') × IsKilled t t' kids p
  unfolding wakeup_proc
  woken-Done p e w z =
      let now : (update p marked t).procs p ≡ marked (t.procs p) =
        write_at-same t.procs p (marked (t.procs p)) in
      let table = IsTable-update t kids p marked (λ r. refl) (h.zombies p) h in
      let flags = ap (λ r. is_exiting r.flags) now ∙ exiting-or (t.procs p).flags e in
      elim (Bool-cases (is_runnable (t.procs p).state)) [
        | inl g ↦
            rw (now, z, g)
              (
                update p marked t,
                refl,
                record {
                  table = table;
                  exiting = flags;
                  runs = λ i. ap (λ r. r.state) now ∙ runnable_state _ g;
                  spared = e;
                  own = now ∙ rw (w, g) refl;
                  rest = refl;
                  others = λ x n. write_at-other t.procs p (marked (t.procs p)) x n;
                },
              )
        | inr g ↦
            let last =
              write_at-same (update p marked t).procs p (awake ((update p marked t).procs p)) in
            (
              update p awake (update p marked t),
              rw (now, z, g) refl,
              record {
                table =
                    IsTable-update (update p marked t) kids p awake (λ r. refl)
                      (λ i. absurd (false-true i)) table;
                exiting = ap (λ r. is_exiting r.flags) last ∙ flags;
                runs = λ i. ap (λ r. r.state) last;
                spared = e;
                own = last ∙ ap awake now ∙ rw (w, g) refl;
                rest = refl;
                others = λ x n.
                    write_at-other (update p marked t).procs p _ x n
                    ∙ write_at-other t.procs p (marked (t.procs p)) x n;
              },
            )
      ]

  kill-Done :
      (p : ℕ)
      → is_exiting (t.procs p).flags ≡ false
      → (is_zombie (t.procs p).state ≡ true → is_interruptible (t.procs p).wait_state ≡ false)
      → Done p (kill (some p) t)
  unfolding kill
  kill-Done p e safe =
      let now : (update p marked t).procs p ≡ marked (t.procs p) =
        write_at-same t.procs p (marked (t.procs p)) in
      elim (Bool-cases (is_interruptible (t.procs p).wait_state)) [
        | inr w ↦ (update p marked t, rw (e, now, w) refl, marked-Done p e w)
        | inl w ↦
            let z : is_zombie (t.procs p).state ≡ false =
              elim (Bool-cases (is_zombie (t.procs p).state)) [
                | inl i ↦ absurd (false-true (sym (safe i) ∙ w))
                | inr i ↦ i
              ] in
            let (t', run, done) = woken-Done p e w z in (t', rw (e, now, w, run) refl, done)
      ]

  -- For a table in order in which no zombie is in an interruptible wait, do_kill gives -E_INVAL just if no
  -- process of the list has the number, -E_KILLED just if the one that has it is exiting already, both
  -- without a change, and else 0: then that process is marked as exiting, and if its wait is interruptible
  -- and it is not runnable it is made runnable and waits no more; nothing else changes, and the table is
  -- in order.
  pub do_kill-ends :
      (pid : ℕ)
      → ((x : ℕ)
          → Memᴰ x t.proc_list
          → is_zombie (t.procs x).state ≡ true
          → is_interruptible (t.procs x).wait_state ≡ false)
      → ((do_kill pid t ≡ ok (negsuc 2, t))
          × ((x : ℕ) → Memᴰ x t.proc_list → (t.procs x).pid ≢ pid))
        ⊎ ((p : ℕ) × Memᴰ p t.proc_list
            × ((t.procs p).pid ≡ pid)
            × (((is_exiting (t.procs p).flags ≡ true) × (do_kill pid t ≡ ok (negsuc 8, t)))
                ⊎ ((t' : Table S) × (do_kill pid t ≡ ok (pos 0, t')) × IsKilled t t' kids p)))
  unfolding do_kill kill
  do_kill-ends pid safe = elim (Option-cases (find_proc pid t)) [
    | inl g ↦ inl (
      rw g refl,
      λ x m e. cc (subst (λ k. find_proc k t ≡ some x) e (find_proc-member t kids x h m), g),
    )
    | inr (p, g) ↦
        let (m, named) = find_proc-found t kids pid p h g in
        inr (
          p,
          m,
          named,
          elim (Bool-cases (is_exiting (t.procs p).flags)) [
            | inl e ↦ inl (e, rw (g, e) refl)
            | inr e ↦
                let (t', run, done) = kill-Done p e (safe p m) in
                inr (t', ap (λ o. kill o t) g ∙ run, done)
          ],
        )
  ]
