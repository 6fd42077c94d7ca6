-- ===== src/Schedule/Sched.antt =====
-- lab7/kern/schedule/sched.c, over any scheduling class: waking a process and choosing the next one.

pub mod Turn
pub mod Wakeup
mod Tests
use os_labs.Common.{
  ℕ, ◌+◌, Bool, true, false, not, Option, none, some, [], ◌==◌, if◌then◌else◌, Run, ok, ◌>>=◌, ◌>>◌,
  assert,
}
use os_labs.Schedule.{ProcState, runnable, zombie, Proc, Kernel, SchedClass, update}

abbrev pub is_runnable : ProcState → Bool
is_runnable runnable = true
is_runnable _ = false

abbrev pub is_zombie : ProcState → Bool
is_zombie zombie = true
is_zombie _ = false

abbrev pub or_idle : Option ℕ → ℕ → ℕ
or_idle none idle = idle
or_idle (some p) idle = p

-- `proc_run`: the process becomes the current one; the switch of page table and stack is hardware
unfoldable pub proc_run : ℕ → Kernel → Kernel
proc_run p k = if p == k.current then k else record k { current = p }

module _ (class : SchedClass) where
  unfoldable pub sched_class_enqueue : ℕ → Kernel → Run Kernel
  sched_class_enqueue p k = if p == k.idleproc then ok k else class.enqueue p k

  unfoldable pub sched_class_proc_tick : ℕ → Kernel → Kernel
  sched_class_proc_tick p k =
      if p == k.idleproc
      then update p (λ q. record q { need_resched = true }) k
      else class.proc_tick p k

  -- MAX_TIME_SLICE is 5
  unfoldable pub sched_init : Kernel → Kernel
  sched_init k = class.init (record k { timer_list = []; max_time_slice = 5 })

  unfoldable pub wakeup_proc : ℕ → Kernel → Run Kernel
  unfolding sched_class_enqueue
  wakeup_proc p k = do
    assert (not (is_zombie (k.procs p).state))
    let k' = update p (λ q. record q { state = runnable; wait_state = 0 }) k
    if is_runnable (k.procs p).state
        then ok k
        else if p == k.current
        then ok k'
        else sched_class_enqueue p k'

  -- `sched_class_dequeue`, where there is a process
  unfoldable pub dequeue_next : Option ℕ → Kernel → Run Kernel
  dequeue_next none k = ok k
  dequeue_next (some p) k = class.dequeue p k

  -- the second half of `schedule`: the next process leaves the queue and runs
  unfoldable pub select : Kernel → Run Kernel
  unfolding dequeue_next proc_run
  select k = do
    let next = or_idle (class.pick_next k) k.idleproc
    k' ← dequeue_next (class.pick_next k) k
    let k'' = update next (λ q. record q { runs = q.runs + 1 }) k'
    ok (if next == k''.current then k'' else proc_run next k'')

  unfoldable pub schedule : Kernel → Run Kernel
  unfolding sched_class_enqueue select
  schedule k = do
    let k' = update k.current (λ q. record q { need_resched = false }) k
    k'' ←
        if is_runnable (k'.procs k'.current).state then sched_class_enqueue k'.current k' else ok k'
    select k''
