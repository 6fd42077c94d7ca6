-- ===== src/Schedule.antt =====
-- Processes, the run queue and the timers (lab7/kern/schedule). The queue and the timer list are the
-- lists that their links form.
pub mod RoundRobin
pub mod Sched
pub mod Timers
use os_labs.Common.{ℕ, ◌%◌, ◌^◌, Bool, Option, List, ◌==◌, if◌then◌else◌, Run}

-- `enum proc_state`
pub data ProcState : Type 0 where
  uninit sleeping runnable zombie : ProcState

-- The fields of `struct proc_struct` that the scheduler reads. `on_rq` says whether `rq` points to
-- the run queue; `time_slice` and `runs`, which are `int`, are never negative.
pub record Proc : Type 0 where
  pub state : ProcState
  pub wait_state : ℕ
  pub need_resched : Bool
  pub runs : ℕ
  pub time_slice : ℕ
  pub on_rq : Bool

-- `timer_t`, with its address
pub record Timer : Type 0 where
  pub address : ℕ
  pub expires : ℕ
  pub proc : ℕ

-- The state of the scheduler: the processes by address, `struct run_queue`, the list of timers, and
-- the running and the idle process
pub record Kernel : Type 0 where
  pub procs : ℕ → Proc
  pub run_list : List ℕ
  pub proc_num : ℕ
  pub max_time_slice : ℕ
  pub timer_list : List Timer
  pub current : ℕ
  pub idleproc : ℕ

-- `struct sched_class`: what a scheduling policy offers
pub record SchedClass : Type 0 where
  pub init : Kernel → Kernel
  pub enqueue : ℕ → Kernel → Run Kernel
  pub dequeue : ℕ → Kernel → Run Kernel
  pub pick_next : Kernel → Option ℕ
  pub proc_tick : ℕ → Kernel → Kernel

-- the value of an `unsigned int`
abbrev pub u32 : ℕ → ℕ
u32 n = n % 2 ^ 32

unfoldable pub write_proc : (ℕ → Proc) → ℕ → Proc → ℕ → Proc
write_proc f p v q = if q == p then v else f q

-- a `struct proc_struct` changed in place
abbrev pub update : ℕ → (Proc → Proc) → Kernel → Kernel
update p f k = record k { procs = write_proc k.procs p (f (k.procs p)) }
