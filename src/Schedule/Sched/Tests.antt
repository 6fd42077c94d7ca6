-- ===== src/Schedule/Sched/Tests.antt =====
-- The scheduler on a running process and one that waits.
use os_labs.Common.{ℕ, ◌≡◌, refl, [], ◌∷◌, arith, ◌==◌, true, ok}
use os_labs.Schedule.{Proc, Kernel, runnable}
use os_labs.Schedule.RoundRobin.{round_robin}
use os_labs.Schedule.Sched.{schedule}
use os_labs.Schedule.Sched.Turn.{Ready, Turn, contenders, schedule-Turn}

abbrev busy : ℕ → Proc
busy p = record {
  state = runnable;
  wait_state = 0;
  need_resched = true;
  runs = p;
  time_slice = 0;
  on_rq = p == 2;
}

-- Process 1 runs, process 2 waits, and process 7 is the idle one.
abbrev two_procs : Kernel
two_procs = record {
  procs = busy;
  run_list = 2 ∷ [];
  proc_num = 1;
  max_time_slice = 5;
  timer_list = [];
  current = 1;
  idleproc = 7;
}

two_procs-Ready : Ready two_procs (2 ∷ [])
two_procs-Ready = record {
  queued = record {
    queue = refl;
    waits = ((refl, refl, (λ e. omega (arith, e))), tt);
    distinct = (tt, tt);
    count = refl;
  };
  running = ((λ e. omega (arith, e)), tt);
}

schedule-Turn_example :
    (k' : Kernel) × (schedule round_robin two_procs ≡ ok k')
    × Turn 7 (contenders two_procs (2 ∷ [])) k'
schedule-Turn_example = schedule-Turn two_procs (2 ∷ []) two_procs-Ready

contenders_example : contenders two_procs (2 ∷ []) ≡ 2 ∷ 1 ∷ []
unfolding contenders
contenders_example = refl
