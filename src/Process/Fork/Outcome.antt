-- ===== src/Process/Fork/Outcome.antt =====
-- How `do_fork` ends, on every path.
use mathlib.Core.Path.{subst}
use os_labs.Common.{
  ℕ, zero, suc, ◌*◌, ◌<◌, ◌≤◌, ◌≡◌, ◌≢◌, refl, sym, ap, ◌∙◌, Bool, true, ◌∷◌, arith, write_at-same,
  write_at-other, ◌⊎◌, inl, inr, Bool-cases, leb→lt, leb→le, Option, none, some, ==_iff, ==→ne,
  if_false, ◌==◌, suc-eq-zero, Run, ok, ℤ, pos, negsuc, length, leb,
}
use os_labs.Schedule.{runnable}
use os_labs.Libs.ListEntry.Distinct.{◌∉◌}
use os_labs.Process.Pid.{PidState, max_process, max_pid}
use os_labs.Process.Pid.Fresh.{get_pid-fresh}
use os_labs.Process.Family.{set_relations, link_first}
use os_labs.Process.Family.Siblings.{Kids}
use os_labs.Process.Family.Insert.{with_kids}
use os_labs.Process.Table.{Proc, Memory, Table, is_zombie, pids_of, update, hash_proc, set_links}
use os_labs.Process.Table.Members.{not_mem, length-pids_of}
use os_labs.Process.Table.Valid.{IsTable, IsTable-update}
use os_labs.Process.Fork.{
  blank_proc, setup_kstack, copy_mm, add_proc, with_mm, with_kstack, with_proc, alloc_proc, do_fork,
  put_kstack,
}
use os_labs.Process.Fork.Prepare.{prepared, prepared-IsTable}
use os_labs.Process.Fork.Added.{IsParent, IsNewborn, added, added-IsTable, kids_after}
use os_labs.Process.Fork.Steps.{
  awake, wakeup-uninit, Copies, ready, copy_result, update-at, copy_mm-Copied,
}

-- What holds after a call that gave a new process: `t'` is the table `t` with the process `p` of the number `n`
-- in front, the youngest child of the current one, with its kernel stack and its address space.
pub record IsForked {S : Type 0} (t t' : Table S) (kids : Kids) (p n kstack mm : ℕ) : Type 0 where
  pub table : IsTable t' (with_kids t.current (p ∷ kids t.current) kids)
  pub list : t'.proc_list ≡ p ∷ t.proc_list
  pub new : t'.procs p ≡ record {
    state = runnable;
    pid = n;
    kstack = kstack;
    mm = mm;
    flags = 0;
    exit_code = (t.procs p).exit_code;
    wait_state = 0;
  }
  pub parent : t'.family.parent p ≡ t.current
  pub current : t'.current ≡ t.current
  pub idleproc : t'.idleproc ≡ t.idleproc
  pub initproc : t'.initproc ≡ t.initproc
  pub others : (x : ℕ) → x ≢ p → t'.procs x ≡ t.procs x

-- What holds after a call that gave the structure `p` back.
pub record IsUnforked {S : Type 0} (t t' : Table S) (kids : Kids) (p : ℕ) : Type 0 where
  pub table : IsTable t' kids
  pub list : t'.proc_list ≡ t.proc_list
  pub pids : t'.pids ≡ t.pids
  pub current : t'.current ≡ t.current
  pub idleproc : t'.idleproc ≡ t.idleproc
  pub initproc : t'.initproc ≡ t.initproc
  pub others : (x : ℕ) → x ≢ p → t'.procs x ≡ t.procs x

-- How a run of `do_fork` ends, `p` and `s` being what kmalloc gave: -5 is -E_NO_FREE_PROC, and -4 is -E_NO_MEM.
pub data Forks {S : Type 0} (ops : Memory S) (clone_vm : Bool) (t : Table S) (kids : Kids) (p : ℕ)
    (s : S) (r : Run (ℤ × Table S)) : Type 0 where
  full : 4096 ≤ t.nr_process → r ≡ ok (negsuc 4, t) → Forks ops clone_vm t kids p s r
  no_proc :
      t.nr_process < 4096
      → p ≡ 0
      → r ≡ ok (negsuc 3, record t { below = s })
      → Forks ops clone_vm t kids p s r
  no_stack :
      (t' : Table S)
      → t.nr_process < 4096
      → p ≢ 0
      → (ops.alloc_kstack s).0 ≡ 0
      → r ≡ ok (negsuc 3, t')
      → IsUnforked t t' kids p
      → t'.below ≡ ops.kfree p (ops.alloc_kstack s).1
      → Forks ops clone_vm t kids p s r
  no_space :
      (s' : S) (t' : Table S)
      → t.nr_process < 4096
      → p ≢ 0
      → (ops.alloc_kstack s).0 ≢ 0
      → Copies ops clone_vm (t.procs t.current).mm (ops.alloc_kstack s).1 none s'
      → r ≡ ok (negsuc 3, t')
      → IsUnforked t t' kids p
      → t'.below ≡ ops.kfree p (ops.free_kstack (ops.alloc_kstack s).0 s')
      → Forks ops clone_vm t kids p s r
  forked :
      (mm n : ℕ) (s' : S) (t' : Table S)
      → t.nr_process < 4096
      → p ≢ 0
      → (ops.alloc_kstack s).0 ≢ 0
      → Copies ops clone_vm (t.procs t.current).mm (ops.alloc_kstack s).1 (some mm) s'
      → r ≡ ok (pos n, t')
      → IsForked t t' kids p n (ops.alloc_kstack s).0 mm
      → t'.below ≡ s'
      → Forks ops clone_vm t kids p s r

module _ {S : Type 0} (ops : Memory S) (t : Table S) (kids : Kids) (p : ℕ) (h : IsTable t kids)
    (out : p ∉ t.proc_list) (ni : p ≢ t.idleproc) where
  -- the table while the process is made
  abbrev at : Proc → S → Table S
  at = prepared t kids p t.current h out ni

  abbrev child : ℕ → ℕ → Proc
  child k mm = record (ready ops t kids p h out ni k) { mm = mm }

  at-IsUnforked : (r : Proc) (s : S) → IsUnforked t (at r s) kids p
  at-IsUnforked r s = record {
    table = prepared-IsTable t kids p t.current h out ni r s;
    list = refl;
    pids = refl;
    current = refl;
    idleproc = refl;
    initproc = refl;
    others = λ x n. write_at-other t.procs p r x n;
  }

  module _ (n0 : p ≢ 0) (par : IsParent t t.current) where
    other_current : t.current ≢ p
    other_current e = elim par.present [
      | inl m ↦ not_mem t.current t.proc_list (rw e out) m
      | inr i ↦ ni (sym e ∙ i)
    ]

    at-parent : (r : Proc) (s : S) → (at r s).family.parent p ≡ t.current
    at-parent r s = write_at-same _ p t.current

    at-IsNewborn : (r : Proc) (s : S) → IsNewborn (at r s) kids p
    at-IsNewborn r s = record {
      table = prepared-IsTable t kids p t.current h out ni r s;
      out = out;
      nonzero = n0;
      not_idle = ni;
      parent = rw (at-parent r s) (record {
        present = par.present;
        alive =
            ap (λ z. is_zombie z.state) (write_at-other t.procs p r t.current other_current)
            ∙ par.alive;
      });
    }

    abbrev whole : Proc → S → PidState → Table S
    whole r s pids = added (at r s) kids p (at-IsNewborn r s) pids

    whole-state : (r : Proc) (s : S) (pids : PidState) → ((whole r s pids).procs p).state ≡ r.state
    unfolding set_links hash_proc
    whole-state r s pids =
        ap (λ z. z.state) (write_at-same (at r s).procs p _)
        ∙ ap (λ z. z.state) (write_at-same t.procs p r)

    abbrev woken : Proc → S → PidState → Table S
    woken r s pids = update p awake (whole r s pids)

    woken-IsForked :
        (k mm : ℕ) (s : S) (pids : PidState)
        → IsTable
            (whole (child k mm) s pids)
            (kids_after (at (child k mm) s) kids p (at-IsNewborn (child k mm) s) pids)
        → IsForked t (woken (child k mm) s pids) kids p pids.last_pid k mm
    unfolding set_links hash_proc set_relations link_first
    woken-IsForked k mm s pids g =
        let r = child k mm in
        record {
          table =
              IsTable-update (whole r s pids) (with_kids t.current (p ∷ kids t.current) kids) p
                awake (λ z. refl) (λ e. cc)
                (subst (λ z. IsTable (whole r s pids) (with_kids z (p ∷ kids z) kids))
                  (at-parent r s) g);
          list = refl;
          new =
              write_at-same (whole r s pids).procs p (awake ((whole r s pids).procs p))
              ∙ ap awake (
                  write_at-same (at r s).procs p
                    (record ((at r s).procs p) { pid = pids.last_pid }))
              ∙ ap (λ z. awake (record z { pid = pids.last_pid })) (write_at-same t.procs p r);
          parent = at-parent r s;
          current = refl;
          idleproc = refl;
          initproc = refl;
          others = λ x m.
              write_at-other (whole r s pids).procs p _ x m
              ∙ write_at-other (at r s).procs p _ x m
              ∙ write_at-other t.procs p r x m;
        }

    module _ (few : t.nr_process < 4096) (fuel : ℕ) (enough : max_pid * 2 ≤ fuel) where
      -- With a number from `get_pid` all goes well.
      add_proc-IsForked :
          (k mm : ℕ) (s : S)
          → (n : ℕ) × (t' : Table S) × (add_proc ops fuel p (at (child k mm) s) ≡ ok (pos n, t'))
            × IsForked t t' kids p n k mm
            × (t'.below ≡ s)
      unfolding add_proc set_links hash_proc
      add_proc-IsForked k mm s =
          let r = child k mm in
          let names = pids_of (at r s).procs t.proc_list in
          let short : length names ≡ length t.proc_list =
            length-pids_of (at r s).procs t.proc_list in
          let old = prepared-IsTable t kids p t.current h out ni r s in
          let (pids, run, lo, hi, fresh, safe) =
            get_pid-fresh fuel names t.pids (omega (arith, short, h.counted)) enough old.safe in
          (
            pids.last_pid,
            woken r s pids,
            rw (run, wakeup-uninit (whole r s pids) p (whole-state r s pids)) refl,
            woken-IsForked k mm s pids
                (added-IsTable (at r s) kids p (at-IsNewborn r s) pids lo hi fresh safe),
            refl,
          )

      module _ (clone_vm : Bool) (s0 : S) where
        abbrev k : ℕ
        k = (ops.alloc_kstack s0).0

        abbrev s1 : S
        s1 = (ops.alloc_kstack s0).1

        Fork : Run (ℤ × Table S) → Type 0
        Fork = Forks ops clone_vm t kids p s0

        with_mm-Forks :
            (x : Bool × Table S) (m : Option ℕ) (s : S)
            → k ≢ 0
            → Copies ops clone_vm (t.procs t.current).mm s1 m s
            → x ≡ copy_result ops t kids p h out ni k m s
            → Fork (with_mm ops fuel p x)
        unfolding with_mm put_kstack Fork
        with_mm-Forks x (some mm) s nk c e =
            let (n, t', run, f, b) = add_proc-IsForked k mm s in
            forked mm n s t' few n0 nk c (ap (with_mm ops fuel p) e ∙ run) f b
        with_mm-Forks x none s nk c e =
            let r = ready ops t kids p h out ni k in
            let s' = ops.kfree p (ops.free_kstack ((at r s).procs p).kstack s) in
            no_space s (at r s') few n0 nk c (ap (with_mm ops fuel p) e) (at-IsUnforked r s')
              (ap (λ z. ops.kfree p (ops.free_kstack z.kstack s)) (write_at-same t.procs p r))

        with_kstack-Forks : Fork (
            with_kstack ops fuel clone_vm p
              (setup_kstack ops p (ops.alloc_kstack s0) (at (blank_proc (t.procs p)) s0)))
        unfolding with_kstack setup_kstack Fork
        with_kstack-Forks = elim (Bool-cases (k == 0)) [
          | inl g ↦
              let s' = ops.kfree p s1 in
              no_stack (at (blank_proc (t.procs p)) s') few n0 ((==_iff k 0).0 g) (rw g refl)
                (at-IsUnforked (blank_proc (t.procs p)) s') refl
          | inr g ↦
              let (m, s, c, e) = copy_mm-Copied ops t kids p h out ni clone_vm k s1 other_current in
              subst Fork
                (sym (
                  ap (with_kstack ops fuel clone_vm p) (
                    if_false _ _ g
                    ∙ ap (λ u. (true, u))
                        (update-at ops t kids p h out ni (λ q. record q { kstack = k })
                          (blank_proc (t.procs p)) s1))))
                (with_mm-Forks (copy_mm ops clone_vm p (at (ready ops t kids p h out ni k) s1)) m s
                  (==→ne k 0 g) c e)
        ]

module _ {S : Type 0} (ops : Memory S) (t : Table S) (kids : Kids) (h : IsTable t kids) where
  with_proc-Forks :
      (fuel : ℕ) (clone_vm : Bool) (p : ℕ) (s : S)
      → IsParent t t.current
      → (t.procs t.current).wait_state ≡ 0
      → t.nr_process < 4096
      → max_pid * 2 ≤ fuel
      → ((p ∉ t.proc_list) × (p ≢ t.idleproc)) ⊎ (p ≡ 0)
      → Forks ops clone_vm t kids p s (with_proc ops fuel clone_vm (alloc_proc ops (p, s) t))
  unfolding with_proc alloc_proc Fork
  with_proc-Forks fuel clone_vm zero s par w few f c = no_proc few refl refl
  with_proc-Forks fuel clone_vm (suc n) s par w few f (inr z) = absurd (omega (arith, z))
  with_proc-Forks fuel clone_vm (suc n) s par w few f (inl (out, ni)) =
      let p = suc n in
      let n0 : p ≢ 0 = λ e. omega (arith, e) in
      rw
        (
          suc-eq-zero n,
          write_at-other t.procs p (blank_proc (t.procs p)) t.current
              (other_current ops t kids p h out ni n0 par),
          w,
        )
        (with_kstack-Forks ops t kids p h out ni n0 par few fuel f clone_vm s)

  -- From a table in order, with a current process that is in the list or is the idle one, is no zombie and
  -- waits for nothing, and with kmalloc giving NULL or a structure that is not in use, do_fork with fuel
  -- for two walks for each number there is ends, just as the conditions say: with -E_NO_FREE_PROC and the
  -- same table if there are 4096 processes; with -E_NO_MEM and no process changed if kmalloc, the kernel
  -- stack or the address space fails, what was allocated before being freed; and else with the number of
  -- the new process, which is runnable with that stack and space, the youngest child of the current one
  -- and first in the list. The table stays in order and no other process changes.
  pub do_fork-Forks :
      (fuel : ℕ) (clone_vm : Bool)
      → IsParent t t.current
      → (t.procs t.current).wait_state ≡ 0
      → max_pid * 2 ≤ fuel
      → (((ops.kmalloc t.below).0 ∉ t.proc_list) × ((ops.kmalloc t.below).0 ≢ t.idleproc))
        ⊎ ((ops.kmalloc t.below).0 ≡ 0)
      → Forks ops clone_vm t kids
          (ops.kmalloc t.below).0
          (ops.kmalloc t.below).1
          (do_fork ops fuel clone_vm t)
  unfolding do_fork
  do_fork-Forks fuel clone_vm par w f c = elim (Bool-cases (leb max_process t.nr_process)) [
    | inl e ↦ full (leb→le _ _ e) (rw e refl)
    | inr e ↦ rw e (
        with_proc-Forks fuel clone_vm (ops.kmalloc t.below).0 (ops.kmalloc t.below).1 par w
          (leb→lt _ _ e) f c)
  ]
