-- ===== src/Schedule/RoundRobin.antt =====
-- lab7/kern/schedule/default_sched_c.c: the round-robin policy.
pub mod Queue
use os_labs.Common.{
  ℕ, ◌+◌, ◌-◌, Bool, true, false, not, ◌&&◌, ◌||◌, Option, none, some, List, [], ◌∷◌, ◌++◌, ◌==◌,
  ltb, if◌then◌else◌, Run, ok, ◌>>◌, assert,
}
use os_labs.Schedule.{Proc, Kernel, SchedClass, u32, update}

-- whether the `run_link` of a process is in the queue, that is, not empty
unfoldable pub contains : List ℕ → ℕ → Bool
contains [] p = false
contains (q ∷ qs) p = q == p || contains qs p

-- `list_del_init` of a process's link
unfoldable pub erase : ℕ → List ℕ → List ℕ
erase p [] = []
erase p (q ∷ qs) = if q == p then qs else q ∷ erase p qs

unfoldable pub rr_init : Kernel → Kernel
rr_init k = record k { run_list = []; proc_num = 0 }

-- the process as `RR_enqueue` leaves it
unfoldable pub refresh : ℕ → Proc → Proc
refresh most p = record p {
  time_slice = if p.time_slice == 0 || ltb most p.time_slice then most else p.time_slice;
  on_rq = true;
}

unfoldable pub rr_enqueue : ℕ → Kernel → Run Kernel
rr_enqueue p k = do
  assert (not (contains k.run_list p))
  let k' = update p (refresh k.max_time_slice) k
  ok (record k' { run_list = k'.run_list ++ (p ∷ []); proc_num = u32 (k'.proc_num + 1) })

unfoldable pub rr_dequeue : ℕ → Kernel → Run Kernel
rr_dequeue p k = do
  assert (contains k.run_list p && (k.procs p).on_rq)
  -- 4294967295 is -1
  ok (record k { run_list = erase p k.run_list; proc_num = u32 (k.proc_num + 4294967295) })

unfoldable pub rr_pick_next : Kernel → Option ℕ
rr_pick_next k = elim k.run_list [ [] ↦ none | ◌∷◌ p ps ↦ some p ]

unfoldable pub tick : Proc → Proc
tick p =
    let left = if ltb 0 p.time_slice then p.time_slice - 1 else p.time_slice in
    record p { time_slice = left; need_resched = if left == 0 then true else p.need_resched }

unfoldable pub rr_proc_tick : ℕ → Kernel → Kernel
rr_proc_tick p k = update p tick k

-- `default_sched_class`
abbrev pub round_robin : SchedClass
round_robin = record {
  init = rr_init;
  enqueue = rr_enqueue;
  dequeue = rr_dequeue;
  pick_next = rr_pick_next;
  proc_tick = rr_proc_tick;
}
