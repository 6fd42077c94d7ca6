-- ===== src/Process/Exit.antt =====
-- `do_exit`, `do_wait` and `do_kill` of lab5/kern/process/proc.c. Two of them call `schedule` in their
-- middle and let other processes run: they are cut there.
pub mod Remove
pub mod Reap
pub mod Find
pub mod Wake
pub mod Orphans
pub mod Leave
pub mod Outcome
pub mod Rendezvous
pub mod Kill
pub mod Wait
use os_labs.Common.{
  ℕ, zero, suc, ◌+◌, ◌^◌, ◌/◌, ◌%◌, Bool, true, false, not, ◌&&◌, ◌||◌, ◌==◌, if◌then◌else◌, Option,
  none, some, List, [], ◌∷◌, Run, ok, panic, no_fuel, ◌>>=◌, ◌>>◌, assert, ℤ, pos, negsuc, write_at,
  bit_and, bit_or,
}
use os_labs.Schedule.{ProcState, sleeping, zombie}
use os_labs.Process.Family.{Family, hand_over}
use os_labs.Process.Table.{
  Proc, Memory, Table, is_zombie, wt_child, update, set_below, find_proc, unhash_proc, remove_links,
  wakeup_proc,
}
use os_labs.Process.Fork.{put_kstack}

-- -E_BAD_PROC, -E_INVAL and -E_KILLED
abbrev pub e_bad_proc : ℤ
e_bad_proc = negsuc 1

abbrev pub e_inval : ℤ
e_inval = negsuc 2

abbrev pub e_killed : ℤ
e_killed = negsuc 8

-- `flags & PF_EXITING`
abbrev pub is_exiting : ℕ → Bool
is_exiting flags = not (bit_and flags 1 == 0)

-- `wait_state & WT_INTERRUPTED`
abbrev pub is_interruptible : ℕ → Bool
is_interruptible wait_state = not (bit_and wait_state (2 ^ 31) == 0)

-- How a round of `do_wait` ends: with a return, the `exit_code` beside it if a child was found, or in
-- the call of `schedule`.
pub data Waited : Type 0 where
  reaped : ℤ → Waited
  refused : ℤ → Waited
  blocked : Waited

-- the search of the children, which `optr` links
pub data Search : Type 0 where
  found : ℕ → Search
  haskid : Search
  nokid : Search

-- how the search ends when no zombie is found any more
abbrev pub end_of : Bool → Search
end_of true = haskid
end_of false = nokid

module _ {S : Type 0} where
  -- `if (proc->wait_state == WT_CHILD) wakeup_proc(proc)`
  unfoldable pub wake_waiting : ℕ → Table S → Run (Table S)
  unfolding wakeup_proc
  wake_waiting p t = if (t.procs p).wait_state == wt_child then wakeup_proc p t else ok t

  abbrev pub wake_if : Bool → ℕ → Table S → Run (Table S)
  wake_if true p t = wake_waiting p t
  wake_if false p t = ok t

  -- the loop that hands the children over to the init process; its rounds are at most as many as the
  -- first number says
  unfoldable pub hand_over_all : ℕ → Table S → Run (Table S)
  unfolding wake_waiting
  hand_over_all zero t = if t.family.cptr t.current == 0 then ok t else no_fuel
  hand_over_all (suc fuel) t =
      let c = t.family.cptr t.current in
      let t' = record t { family = hand_over t.current t.initproc t.family } in
      let rest = wake_if (is_zombie (t'.procs c).state) t.initproc t' >>= hand_over_all fuel in
      if c == 0 then ok t else rest

  -- the loop over the children from `c` on; `kid` says whether there was one before
  unfoldable pub search_children : ℕ → Bool → ℕ → Table S → Run Search
  search_children zero kid c t = if c == 0 then ok (end_of kid) else no_fuel
  search_children (suc fuel) kid c t =
      let rest = search_children fuel true (t.family.optr c) t in
      if c == 0
      then ok (end_of kid)
      else (if is_zombie (t.procs c).state then ok (found c) else rest)

  -- a process with the number that was given
  unfoldable pub search_pid : Option ℕ → Table S → Search
  search_pid none t = nokid
  search_pid (some p) t =
      if t.family.parent p == t.current
      then (if is_zombie (t.procs p).state then found p else haskid)
      else nokid

  unfoldable pub search : ℕ → ℕ → Table S → Run Search
  unfolding search_children search_pid
  search fuel pid t =
      if not (pid == 0)
      then ok (search_pid (find_proc pid t) t)
      else search_children fuel false (t.family.cptr t.current) t

module _ {S : Type 0} (ops : Memory S) where
  -- the last user of an address space frees it
  abbrev pub free_mm : ℕ → ℕ × S → S
  free_mm mm (count, s) =
      if count == 0 then ops.mm_destroy mm (ops.put_pgdir mm (ops.exit_mmap mm s)) else s

  unfoldable pub leave_mm : Table S → Table S
  leave_mm t =
      let mm = (t.procs t.current).mm in
      if mm == 0
      then t
      else set_below (free_mm mm (ops.mm_count_dec mm t.below))
          (update t.current (λ q. record q { mm = 0 }) t)

  -- `do_exit` up to the call of `schedule`, which does not return to the process
  unfoldable pub do_exit : ℕ → ℤ → Table S → Run (Table S)
  unfolding leave_mm
  do_exit fuel error_code t = do
    assert (not (t.current == t.idleproc))
    assert (not (t.current == t.initproc))
    let t' =
        update t.current (λ q. record q { state = zombie; exit_code = error_code }) (leave_mm t)
    t'' ← wake_waiting (t'.family.parent t'.current) t'
    hand_over_all fuel t''

  -- from `found:` on
  unfoldable pub reap : ℕ → Table S → Run (Waited × Table S)
  reap p t = do
    assert (not (p == t.idleproc || p == t.initproc))
    let t' = put_kstack ops p (remove_links p (unhash_proc p t))
    ok (reaped (t.procs p).exit_code, set_below (ops.kfree p t'.below) t')

  unfoldable pub after_search : Search → Table S → Run (Waited × Table S)
  unfolding reap
  after_search (found p) t = reap p t
  after_search haskid t =
      ok (blocked, update t.current (λ q. record q { state = sleeping; wait_state = wt_child }) t)
  after_search nokid t = ok (refused e_bad_proc, t)

  -- one round, from `repeat:` to the call of `schedule` or to the end
  unfoldable pub wait_round : ℕ → ℕ → Table S → Run (Waited × Table S)
  unfolding search after_search
  wait_round fuel pid t = search fuel pid t >>= λ r. after_search r t

  -- `code_store` is whether the pointer is not NULL
  unfoldable pub do_wait : ℕ → Bool → ℕ → Table S → Run (Waited × Table S)
  unfolding wait_round
  do_wait fuel code_store pid t =
      if code_store && not (ops.user_mem_check (t.procs t.current).mm t.below)
      then ok (refused e_inval, t)
      else wait_round fuel pid t

  -- when the process runs again: it exits if it was killed, or goes on with the next round
  unfoldable pub do_wait_return : ℕ → ℕ → Table S → Run (Option Waited × Table S)
  unfolding do_exit wait_round
  do_wait_return fuel pid t =
      if is_exiting (t.procs t.current).flags
      then (do_exit fuel e_killed t >>= (λ t'. ok (none, t')))
      else (wait_round fuel pid t >>= (λ r. ok (some r.0, r.1)))

module _ {S : Type 0} where
  unfoldable pub kill : Option ℕ → Table S → Run (ℤ × Table S)
  kill none t = ok (e_inval, t)
  kill (some p) t =
      let t' = update p (λ q. record q { flags = bit_or q.flags 1 }) t in
      if is_exiting (t.procs p).flags
      then ok (e_killed, t)
      else (if is_interruptible (t'.procs p).wait_state
          then (wakeup_proc p t' >>= (λ t''. ok (pos 0, t'')))
          else ok (pos 0, t'))

  unfoldable pub do_kill : ℕ → Table S → Run (ℤ × Table S)
  unfolding kill
  do_kill pid t = kill (find_proc pid t) t
