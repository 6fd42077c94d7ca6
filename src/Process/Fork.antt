-- ===== src/Process/Fork.antt =====
-- `do_fork` of lab5/kern/process/proc.c and the routines that it calls.
pub mod Prepare
pub mod Added
pub mod Steps
pub mod Outcome
use os_labs.Common.{
  ℕ, zero, suc, ◌+◌, ◌-◌, ◌^◌, Bool, true, false, not, ◌&&◌, ◌==◌, leb, if◌then◌else◌, List, [],
  ◌∷◌, Run, ok, ◌>>=◌, ◌>>◌, assert, ℤ, pos, negsuc, write_at,
}
use os_labs.Schedule.{uninit}
use os_labs.Process.Pid.{PidState, max_process, get_pid}
use os_labs.Process.Family.{Family, set_parent}
use os_labs.Process.Table.{
  Proc, Memory, Table, pids_of, update, set_below, hash_proc, set_links, wakeup_proc,
}

-- -E_NO_MEM and -E_NO_FREE_PROC
abbrev pub e_no_mem : ℤ
e_no_mem = negsuc 3

abbrev pub e_no_free_proc : ℤ
e_no_free_proc = negsuc 4

-- the fields that `alloc_proc` sets; `exit_code` stays what the memory holds
abbrev pub blank_proc : Proc → Proc
blank_proc q = record q {
  state = uninit;
  pid = 2 ^ 32 - 1;
  kstack = 0;
  mm = 0;
  flags = 0;
  wait_state = 0;
}

abbrev pub blank_family : ℕ → Family → Family
blank_family p f = record {
  parent = write_at f.parent p 0;
  cptr = write_at f.cptr p 0;
  yptr = write_at f.yptr p 0;
  optr = write_at f.optr p 0;
}

module _ {S : Type 0} (ops : Memory S) where
  -- `alloc_proc`, with the result of kmalloc
  unfoldable pub alloc_proc : ℕ × S → Table S → ℕ × Table S
  alloc_proc (p, s) t =
      if p == 0
      then (0, set_below s t)
      else (p, set_below s (record (update p blank_proc t) { family = blank_family p t.family }))

  -- whether `setup_kstack` returned 0
  unfoldable pub setup_kstack : ℕ → ℕ × S → Table S → Bool × Table S
  setup_kstack p (kstack, s) t =
      if kstack == 0
      then (false, set_below s t)
      else (true, set_below s (update p (λ q. record q { kstack = kstack }) t))

  unfoldable pub put_kstack : ℕ → Table S → Table S
  put_kstack p t = set_below (ops.free_kstack (t.procs p).kstack t.below) t

  -- `good_mm` of `copy_mm`
  unfoldable pub good_mm : ℕ → ℕ → Table S → Bool × Table S
  good_mm p mm t =
      (true, set_below (ops.mm_count_inc mm t.below) (update p (λ q. record q { mm = mm }) t))

  -- from the result of `dup_mmap` on, and from those of the calls before it
  unfoldable pub after_dup : ℕ → ℕ → Bool × S → Table S → Bool × Table S
  unfolding good_mm
  after_dup p mm (true, s) t = good_mm p mm (set_below s t)
  after_dup p mm (false, s) t =
      (false, set_below (ops.mm_destroy mm (ops.put_pgdir mm (ops.exit_mmap mm s))) t)

  unfoldable pub after_pgdir : ℕ → ℕ → ℕ → Bool × S → Table S → Bool × Table S
  unfolding after_dup
  after_pgdir p mm oldmm (true, s) t = after_dup p mm (ops.dup_mmap mm oldmm s) t
  after_pgdir p mm oldmm (false, s) t = (false, set_below (ops.mm_destroy mm s) t)

  unfoldable pub after_create : ℕ → ℕ → ℕ × S → Table S → Bool × Table S
  unfolding after_pgdir
  after_create p oldmm (mm, s) t =
      if mm == 0 then (false, set_below s t) else after_pgdir p mm oldmm (ops.setup_pgdir mm s) t

  -- whether `copy_mm` returned 0; `clone_vm` is the flag CLONE_VM. The lock around `dup_mmap` is left out.
  unfoldable pub copy_mm : Bool → ℕ → Table S → Bool × Table S
  unfolding good_mm after_create
  copy_mm clone_vm p t =
      let oldmm = (t.procs t.current).mm in
      if oldmm == 0
      then (true, t)
      else (if clone_vm then good_mm p oldmm t else after_create p oldmm (ops.mm_create t.below) t)

  abbrev pub free_proc : ℕ → Table S → Table S
  free_proc p t = set_below (ops.kfree p t.below) t

  -- with the interrupts off: number, lists, and the state; `get_pid` has `fuel`
  unfoldable pub add_proc : ℕ → ℕ → Table S → Run (ℤ × Table S)
  unfolding hash_proc
  add_proc fuel p t = get_pid fuel (pids_of t.procs t.proc_list) t.pids >>= λ pids. do
    let t' = record (update p (λ q. record q { pid = pids.last_pid }) t) { pids = pids }
    t'' ← wakeup_proc p (set_links p (hash_proc p t'))
    ok (pos pids.last_pid, t'')

  -- after `copy_mm`; `copy_thread` sets what the switch of processes uses
  unfoldable pub with_mm : ℕ → ℕ → Bool × Table S → Run (ℤ × Table S)
  unfolding add_proc put_kstack
  with_mm fuel p (true, t) = add_proc fuel p t
  with_mm fuel p (false, t) = ok (e_no_mem, free_proc p (put_kstack p t))

  -- after `setup_kstack`
  unfoldable pub with_kstack : ℕ → Bool → ℕ → Bool × Table S → Run (ℤ × Table S)
  unfolding with_mm copy_mm
  with_kstack fuel clone_vm p (true, t) = with_mm fuel p (copy_mm clone_vm p t)
  with_kstack fuel clone_vm p (false, t) = ok (e_no_mem, free_proc p t)

  -- after `alloc_proc`, which gives NULL or a process
  unfoldable pub with_proc : ℕ → Bool → ℕ × Table S → Run (ℤ × Table S)
  unfolding with_kstack setup_kstack
  with_proc fuel clone_vm (zero, t) = ok (e_no_mem, t)
  with_proc fuel clone_vm (suc n, t) = do
    let p = suc n
    let t' = record t { family = set_parent p t.current t.family }
    assert ((t'.procs t'.current).wait_state == 0)
    with_kstack fuel clone_vm p (setup_kstack p (ops.alloc_kstack t'.below) t')

  unfoldable pub do_fork : ℕ → Bool → Table S → Run (ℤ × Table S)
  unfolding with_proc alloc_proc
  do_fork fuel clone_vm t =
      if leb max_process t.nr_process
      then ok (e_no_free_proc, t)
      else with_proc fuel clone_vm (alloc_proc (ops.kmalloc t.below) t)
