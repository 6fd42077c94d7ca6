-- ===== src/Schedule/Timers.antt =====
-- lab7/kern/schedule/sched.c: the timers. The list keeps for every timer how long after the one before
-- it the timer is due.
pub mod Deadlines
pub mod Fire
pub mod Elapse
mod Tests
use os_labs.Common.{
  ℕ, ◌+◌, ◌-◌, ◌/◌, ◌%◌, Bool, true, false, not, ◌&&◌, ◌||◌, List, [], ◌∷◌, ◌==◌, ltb,
  if◌then◌else◌, Run, ok, ◌>>=◌, ◌>>◌, assert,
}
use os_labs.Schedule.{Proc, Timer, Kernel, SchedClass, u32, update}
use os_labs.Schedule.Sched.{wakeup_proc, sched_class_proc_tick}

-- whether the `timer_link` of a timer is in the list, that is, not empty
unfoldable pub listed : List Timer → ℕ → Bool
listed [] a = false
listed (t ∷ ts) a = t.address == a || listed ts a

-- the walk of `add_timer`
unfoldable pub insert_timer : Timer → List Timer → List Timer
insert_timer t [] = t ∷ []
insert_timer t (n ∷ ns) =
    let later = insert_timer (record t { expires = t.expires - n.expires }) ns in
    if ltb t.expires n.expires
    then t ∷ record n { expires = n.expires - t.expires } ∷ ns
    else n ∷ later

-- The null pointer is 0.
unfoldable pub add_timer : Timer → Kernel → Run Kernel
add_timer t k = do
  assert (ltb 0 t.expires && not (t.proc == 0))
  assert (not (listed k.timer_list t.address))
  ok (record k { timer_list = insert_timer t k.timer_list })

-- the timer behind a removed one waits for the time of both
unfoldable pub postpone : ℕ → List Timer → List Timer
postpone e [] = []
postpone e (n ∷ ns) = if e == 0 then n ∷ ns else record n { expires = u32 (n.expires + e) } ∷ ns

unfoldable pub remove_timer : ℕ → List Timer → List Timer
remove_timer a [] = []
remove_timer a (t ∷ ts) = if t.address == a then postpone t.expires ts else t ∷ remove_timer a ts

unfoldable pub del_timer : ℕ → Kernel → Kernel
del_timer a k =
    if listed k.timer_list a then record k { timer_list = remove_timer a k.timer_list } else k

-- `wait_state & WT_INTERRUPTED`: the highest of 32 bits
abbrev pub is_interruptible : ℕ → Bool
is_interruptible w = (w / 2147483648) % 2 == 1

module _ (class : SchedClass) where
  -- The loop of `run_timer_list` over the timers that are due. It reads each timer as the walk
  -- finds it, since `del_timer` of a timer that is due changes no other.
  unfoldable pub fire : List Timer → Kernel → Run Kernel
  unfolding wakeup_proc del_timer
  fire [] k = ok k
  fire (t ∷ ts) k =
      let rest = do
        assert ((k.procs t.proc).wait_state == 0 || is_interruptible (k.procs t.proc).wait_state)
        k' ← wakeup_proc class t.proc k
        fire ts (del_timer t.address k')
      in if t.expires == 0 then rest else ok k

  -- the first timer comes one tick closer, and the timers that are due fire
  unfoldable pub expire : List Timer → Kernel → Run Kernel
  expire [] k = ok k
  expire (t ∷ ts) k = do
    assert (not (t.expires == 0))
    let ts' = record t { expires = t.expires - 1 } ∷ ts
    fire ts' (record k { timer_list = ts' })

  unfoldable pub run_timer_list : Kernel → Run Kernel
  unfolding sched_class_proc_tick expire
  run_timer_list k = do k' ← expire k.timer_list k; ok (sched_class_proc_tick class k'.current k')
