-- ===== src/Sync/Sem/Block.antt =====
-- `down` of a semaphore that has nothing to give, under the round-robin policy.
use os_labs.Common.{
  write_at, write_at-same, ℕ, ◌≡◌, ◌≢◌, refl, true, false, List, [], ◌∷◌, ◌++◌, ==_ne, ==_refl, ok,
}
use os_labs.Libs.ListEntry.Distinct.{All-map, All-zip}
use mathlib.Core.Path.{subst}
use os_labs.Schedule.{Proc, Kernel, sleeping, update, write_proc}
use os_labs.Schedule.RoundRobin.{round_robin}
use os_labs.Schedule.RoundRobin.Queue.{Waits}
use os_labs.Schedule.Sched.Turn.{Ready, Turn, contenders, schedule-Turn}
use os_labs.Sync.Wait.{Wait, Sync, set_wait, set_queue, wait_init, wait_queue_add, wait_current_set}
use os_labs.Sync.Sem.{down_begin}

-- a process that has gone to sleep
doze : ℕ → Proc → Proc
doze wait_state x = record x { state = sleeping; wait_state = wait_state }

Waits-other :
    (k : Kernel) (p : ℕ) (f : Proc → Proc) (q : ℕ) → (q ≢ p) × Waits k q → Waits (update p f k) q
unfolding write_proc
Waits-other k p f q (n, w) = rw (==_ne q p n) w

-- It may sleep when it is not in the run queue, which stays as it was.
asleep-Ready :
    (wait_state : ℕ) (k : Kernel) (xs : List ℕ)
    → Ready k xs
    → Ready (update k.current (doze wait_state) k) xs
asleep-Ready wait_state k xs h = record {
  queued = record {
    queue = h.queued.queue;
    waits =
        All-map _ _ xs (Waits-other k k.current (doze wait_state))
          (All-zip _ _ xs h.running h.queued.waits);
    distinct = h.queued.distinct;
    count = h.queued.count;
  };
  running = h.running;
}

asleep-contenders :
    (wait_state : ℕ) (k : Kernel) (xs : List ℕ)
    → contenders (update k.current (doze wait_state) k) xs ≡ xs
unfolding contenders write_proc doze
asleep-contenders wait_state k xs = rw (==_refl k.current) refl

-- the wait of a process that has joined the queue
abbrev pub joined_wait : ℕ → ℕ → Wait
joined_wait p sem = record { proc = p; wakeup_flags = 2147483648; wait_queue = sem; linked = true }

-- the state before the call of `schedule`
blocked : ℕ → ℕ → ℕ → Sync → Sync
blocked wait_state sem w s =
    let s' =
      set_wait w (λ x. record x { wait_queue = sem; linked = true })
        (wait_init w s.kernel.current s) in
    record (set_queue sem (s.queue sem ++ (w ∷ [])) s') {
      kernel = update s.kernel.current (doze wait_state) s.kernel;
    }

blocked-wait :
    (wait_state sem w : ℕ) (s : Sync)
    → (blocked wait_state sem w s).wait w ≡ joined_wait s.kernel.current sem
unfolding blocked wait_init write_at
blocked-wait wait_state sem w s = rw (==_refl w) refl

blocked-queue :
    (wait_state sem w : ℕ) (s : Sync)
    → (blocked wait_state sem w s).queue sem ≡ s.queue sem ++ (w ∷ [])
unfolding blocked wait_init
blocked-queue wait_state sem w s = write_at-same s.queue sem (s.queue sem ++ (w ∷ []))

wait_current_set-blocked :
    (wait_state sem w : ℕ) (s : Sync)
    → s.kernel.current ≢ 0
    → wait_current_set sem w wait_state s ≡ ok (blocked wait_state sem w s)
unfolding wait_current_set wait_queue_add wait_init write_at blocked doze
wait_current_set-blocked wait_state sem w s h = rw (==_ne _ _ h, ==_refl w, ==_ne _ _ h) refl

-- Under the round-robin policy, when the semaphore's value is 0, the run queue holds `xs` and not the
-- running process, and that is not null, `down` up to its return to another process passes its
-- assertions: the running process's wait stands at the end of the semaphore's queue, and the first
-- process of `xs` runs, or the idle process if there is none, the run queue keeping the others.
pub down_begin-Turn :
    (wait_state sem w : ℕ) (s : Sync) (xs : List ℕ)
    → s.value sem ≡ 0
    → s.kernel.current ≢ 0
    → Ready s.kernel xs
    → (s' : Sync) × (down_begin round_robin wait_state sem w s ≡ ok (false, s'))
      × (s'.queue sem ≡ s.queue sem ++ (w ∷ []))
      × (s'.wait w ≡ joined_wait s.kernel.current sem)
      × Turn s.kernel.idleproc xs s'.kernel
unfolding down_begin blocked doze
down_begin-Turn wait_state sem w s xs v c h =
    let t = blocked wait_state sem w s in
    let (k, e, turn) = schedule-Turn t.kernel xs (asleep-Ready wait_state s.kernel xs h) in
    (
      record t { kernel = k },
      rw (v, wait_current_set-blocked wait_state sem w s c, e) refl,
      blocked-queue wait_state sem w s,
      blocked-wait wait_state sem w s,
      subst (λ ys. Turn s.kernel.idleproc ys k) (asleep-contenders wait_state s.kernel xs) turn,
    )
