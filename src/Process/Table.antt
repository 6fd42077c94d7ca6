-- ===== src/Process/Table.antt =====
-- The state of lab5/kern/process/proc.c: the structures of all processes, the lists that hold them, and
-- the variables of the file; and the small routines on them.
pub mod Members
pub mod Valid
use os_labs.Common.{
  ℕ, zero, suc, ◌+◌, ◌-◌, ◌^◌, Bool, true, false, not, ◌&&◌, ◌==◌, ltb, if◌then◌else◌, Option, none,
  some, List, [], ◌∷◌, Run, ok, panic, ◌>>=◌, ◌>>◌, assert, ℤ, write_at,
}
use os_labs.Libs.Hash.{hash32}
use os_labs.Schedule.{ProcState, uninit, sleeping, runnable, zombie}
use os_labs.Process.Pid.{PidState, max_pid}
use os_labs.Process.Family.{Family, set_relations, remove_relations}

-- The fields of `struct proc_struct` but for the links and what only the switch of processes uses. `pid` is
-- kept as its 32 bits, so that -1 is 2 ^ 32 - 1; `mm` is an address.
pub record Proc : Type 0 where
  pub state : ProcState
  pub pid : ℕ
  pub kstack : ℕ
  pub mm : ℕ
  pub flags : ℕ
  pub exit_code : ℤ
  pub wait_state : ℕ

-- What the routines use of the memory managers, on a state of their own; an address 0 is NULL, and a
-- Boolean result says whether the routine returned 0. `alloc_kstack` is `alloc_pages(KSTACKPAGE)` with the
-- address of the pages, and `free_kstack` the reverse.
pub record Memory (S : Type 0) : Type 0 where
  pub kmalloc : S → ℕ × S
  pub kfree : ℕ → S → S
  pub alloc_kstack : S → ℕ × S
  pub free_kstack : ℕ → S → S
  pub mm_create : S → ℕ × S
  pub setup_pgdir : ℕ → S → Bool × S
  pub dup_mmap : ℕ → ℕ → S → Bool × S
  pub exit_mmap : ℕ → S → S
  pub put_pgdir : ℕ → S → S
  pub mm_destroy : ℕ → S → S
  pub mm_count_inc : ℕ → S → S
  pub mm_count_dec : ℕ → S → ℕ × S
  pub user_mem_check : ℕ → S → Bool

-- `hash_list` holds the list of each of its heads.
pub record Table (S : Type 0) : Type 0 where
  pub procs : ℕ → Proc
  pub family : Family
  pub proc_list : List ℕ
  pub hash_list : ℕ → List ℕ
  pub nr_process : ℕ
  pub pids : PidState
  pub current : ℕ
  pub idleproc : ℕ
  pub initproc : ℕ
  pub below : S

abbrev pub is_runnable : ProcState → Bool
is_runnable runnable = true
is_runnable _ = false

abbrev pub is_zombie : ProcState → Bool
is_zombie zombie = true
is_zombie _ = false

abbrev pub pid_hashfn : ℕ → ℕ
pid_hashfn pid = hash32 pid 10

-- WT_CHILD and WT_INTERRUPTED
abbrev pub wt_child : ℕ
wt_child = 2 ^ 31 + 1

-- `list_del` of an entry that is at most once in the list
unfoldable pub without : ℕ → List ℕ → List ℕ
without p [] = []
without p (x ∷ xs) = let rest = without p xs in if x == p then xs else x ∷ rest

-- the search of a list for a process with the number `pid`
unfoldable pub find_in : ℕ → (ℕ → Proc) → List ℕ → Option ℕ
find_in pid procs [] = none
find_in pid procs (p ∷ ps) =
    let rest = find_in pid procs ps in if (procs p).pid == pid then some p else rest

-- the numbers of the processes, in the order of the list
abbrev pub pids_of : (ℕ → Proc) → List ℕ → List ℕ
pids_of procs [] = []
pids_of procs (p ∷ ps) = (procs p).pid ∷ pids_of procs ps

module _ {S : Type 0} where
  abbrev pub update : ℕ → (Proc → Proc) → Table S → Table S
  update p f t = record t { procs = write_at t.procs p (f (t.procs p)) }

  abbrev pub set_below : S → Table S → Table S
  set_below s t = record t { below = s }

  unfoldable pub hash_proc : ℕ → Table S → Table S
  hash_proc p t =
      let head = pid_hashfn (t.procs p).pid in
      record t { hash_list = write_at t.hash_list head (p ∷ t.hash_list head) }

  -- the entry is in the list of its number
  unfoldable pub unhash_proc : ℕ → Table S → Table S
  unfolding without
  unhash_proc p t =
      let head = pid_hashfn (t.procs p).pid in
      record t { hash_list = write_at t.hash_list head (without p (t.hash_list head)) }

  unfoldable pub find_proc : ℕ → Table S → Option ℕ
  unfolding find_in
  find_proc pid t =
      if ltb 0 pid && ltb pid max_pid
      then find_in pid t.procs (t.hash_list (pid_hashfn pid))
      else none

  unfoldable pub set_links : ℕ → Table S → Table S
  unfolding set_relations
  set_links p t = record t {
    proc_list = p ∷ t.proc_list;
    family = set_relations p t.family;
    nr_process = t.nr_process + 1;
  }

  unfoldable pub remove_links : ℕ → Table S → Table S
  unfolding remove_relations without
  remove_links p t = record t {
    proc_list = without p t.proc_list;
    family = remove_relations p t.family;
    nr_process = t.nr_process - 1;
  }

  -- lab5/kern/schedule/sched.c
  unfoldable pub wakeup_proc : ℕ → Table S → Run (Table S)
  wakeup_proc p t = do
    assert (not (is_zombie (t.procs p).state))
    ok (
        if is_runnable (t.procs p).state
        then t
        else update p (λ q. record q { state = runnable; wait_state = 0 }) t)
