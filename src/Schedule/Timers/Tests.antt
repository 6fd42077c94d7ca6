-- ===== src/Schedule/Timers/Tests.antt =====
-- The timers on small lists.
use os_labs.Common.{ℕ, ◌≡◌, refl, [], ◌∷◌, ◌++◌, arith, All, false, ◌==◌, if◌then◌else◌, ok}
use os_labs.Libs.ListEntry.Distinct.{Distinct}
use os_labs.Schedule.{Proc, Timer, Kernel, runnable, sleeping}
use os_labs.Schedule.RoundRobin.{round_robin}
use os_labs.Schedule.RoundRobin.Queue.{Queued}
use os_labs.Schedule.Timers.{add_timer, del_timer, insert_timer, listed, run_timer_list}
use os_labs.Schedule.Timers.Deadlines.{
  deadlines, insert_deadline, remove_deadline, add_timer-insert_deadline, del_timer-remove_deadline,
}
use os_labs.Schedule.Timers.Fire.{Asleep, due_procs}
use os_labs.Schedule.Timers.Elapse.{count_down, elapse, run_timer_list-elapse}

abbrev timer : ℕ → ℕ → ℕ → Timer
timer a e p = record { address = a; expires = e; proc = p }

-- Process 1 runs; 3 and 4 sleep, the one until a timer, the other for a child.
abbrev dozing : ℕ → Proc
dozing p = record {
  state = if p == 1 then runnable else sleeping;
  wait_state = if p == 3 then 2147483650 else if p == 4 then 2147483649 else 0;
  need_resched = false;
  runs = 0;
  time_slice = 1;
  on_rq = false;
}

-- Their timers are due in one tick, and a third one two ticks later.
abbrev sleepers : Kernel
sleepers = record {
  procs = dozing;
  run_list = [];
  proc_num = 0;
  max_time_slice = 5;
  timer_list = timer 50 1 3 ∷ timer 60 0 4 ∷ timer 70 2 5 ∷ [];
  current = 1;
  idleproc = 7;
}

add_timer-insert_deadline_example :
    (k' : Kernel) × (add_timer (timer 80 2 6) sleepers ≡ ok k')
    × (deadlines 0 k'.timer_list
        ≡ insert_deadline (record { address = 80; due = 2 }) (deadlines 0 sleepers.timer_list))
add_timer-insert_deadline_example =
    add_timer-insert_deadline (timer 80 2 6) sleepers (omega arith) refl (unfold listed in refl)

add_timer_behind :
    insert_timer (timer 80 2 6) sleepers.timer_list
    ≡ timer 50 1 3 ∷ timer 60 0 4 ∷ timer 80 1 6 ∷ timer 70 1 5 ∷ []
unfolding insert_timer
add_timer_behind = refl

del_timer-remove_deadline_example :
    deadlines 0 (del_timer 50 sleepers).timer_list
    ≡ remove_deadline 50 (deadlines 0 sleepers.timer_list)
del_timer-remove_deadline_example =
    del_timer-remove_deadline 50 sleepers
      (unfold deadlines in (omega arith, (omega arith, (omega arith, tt))))

sleepers-Asleep : All (Asleep sleepers []) (due_procs (count_down sleepers.timer_list))
unfolding due_procs count_down
sleepers-Asleep = (
  record {
    sleeps = record {
      idle = refl;
      alive = refl;
      not_current = λ e. omega (arith, e);
      not_idleproc = λ e. omega (arith, e);
      not_queued = tt;
    };
    waits = refl;
  },
  (
    record {
      sleeps = record {
        idle = refl;
        alive = refl;
        not_current = λ e. omega (arith, e);
        not_idleproc = λ e. omega (arith, e);
        not_queued = tt;
      };
      waits = refl;
    },
    tt,
  ),
)

sleepers-Distinct : Distinct (due_procs (count_down sleepers.timer_list))
unfolding due_procs count_down
sleepers-Distinct = (((λ e. omega (arith, e)), tt), (tt, tt))

run_timer_list-elapse_example :
    (k' : Kernel) × (run_timer_list round_robin sleepers ≡ ok k')
    × Queued k' ([] ++ due_procs (count_down sleepers.timer_list))
    × (deadlines 0 k'.timer_list ≡ elapse (deadlines 0 sleepers.timer_list))
run_timer_list-elapse_example =
    run_timer_list-elapse sleepers []
      (record { queue = refl; waits = tt; distinct = tt; count = refl }) (omega arith)
      sleepers-Asleep sleepers-Distinct
