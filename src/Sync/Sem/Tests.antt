-- ===== src/Sync/Sem/Tests.antt =====
-- A semaphore for which one process waits, and one that another process takes.
use os_labs.Common.{ℕ, ◌≡◌, refl, [], ◌∷◌, ◌++◌, arith, ◌==◌, false, if◌then◌else◌, ok}
use os_labs.Schedule.{Proc, Kernel, runnable, sleeping}
use os_labs.Schedule.RoundRobin.{round_robin}
use os_labs.Schedule.RoundRobin.Queue.{Queued}
use os_labs.Schedule.Sched.Turn.{Turn}
use os_labs.Sync.Wait.{Sync}
use os_labs.Sync.Sem.{wt_ksem, up, down_begin, down_return}
use os_labs.Sync.Sem.Handover.{up-down_return}
use os_labs.Sync.Sem.Block.{joined_wait, down_begin-Turn}

-- Process 1 runs, 2 waits for its turn, and 3 sleeps.
abbrev pair : ℕ → Proc
pair p = record {
  state = if p == 3 then sleeping else runnable;
  wait_state = if p == 3 then wt_ksem else 0;
  need_resched = false;
  runs = 0;
  time_slice = 5;
  on_rq = p == 2;
}

abbrev pair_kernel : Kernel
pair_kernel = record {
  procs = pair;
  run_list = 2 ∷ [];
  proc_num = 1;
  max_time_slice = 5;
  timer_list = [];
  current = 1;
  idleproc = 7;
}

-- Process 3 waits for the semaphore 40 with the wait 90.
abbrev one_waits : Sync
one_waits = record {
  kernel = pair_kernel;
  wait = λ w. joined_wait 3 40;
  queue = λ q. if q == 40 then 90 ∷ [] else [];
  value = λ sem. 0;
}

pair-Queued : Queued pair_kernel (2 ∷ [])
pair-Queued = record {
  queue = refl;
  waits = ((refl, refl, (λ e. omega (arith, e))), tt);
  distinct = (tt, tt);
  count = refl;
}

up-down_return_example :
    (s' : Sync) × (up round_robin 40 one_waits ≡ ok s')
    × (s'.queue 40 ≡ [])
    × (s'.value ≡ one_waits.value)
    × Queued s'.kernel ((2 ∷ []) ++ (3 ∷ []))
    × ((k : Kernel) → down_return 40 90 (record s' { kernel = k }) ≡ ok (record s' { kernel = k }))
up-down_return_example =
    up-down_return 40 90 [] one_waits (2 ∷ [])
      (record { queue = refl; linked = refl; here = refl; state = refl }) pair-Queued
      (record {
        idle = refl;
        alive = refl;
        not_current = λ e. omega (arith, e);
        not_idleproc = λ e. omega (arith, e);
        not_queued = ((λ e. omega (arith, e)), tt);
      })

down_begin-Turn_example :
    (s' : Sync) × (down_begin round_robin wt_ksem 40 91 one_waits ≡ ok (false, s'))
    × (s'.queue 40 ≡ one_waits.queue 40 ++ (91 ∷ []))
    × (s'.wait 91 ≡ joined_wait 1 40)
    × Turn 7 (2 ∷ []) s'.kernel
down_begin-Turn_example =
    down_begin-Turn wt_ksem 40 91 one_waits (2 ∷ []) refl (λ e. omega (arith, e))
      (record { queued = pair-Queued; running = ((λ e. omega (arith, e)), tt) })
