-- ===== src/Sync/Sem/Handover.antt =====
-- A semaphore under the round-robin policy: who waits is queued, and who is first in the queue gets
-- what `up` gives.
use os_labs.Common.{
  write_at, write_at-same, ℕ, ◌≡◌, refl, ap, ◌∙◌, true, false, List, [], ◌∷◌, ◌++◌, some, ==_refl,
  ok,
}
use os_labs.Schedule.{Kernel}
use os_labs.Schedule.RoundRobin.{round_robin, erase}
use os_labs.Schedule.RoundRobin.Queue.{Queued}
use os_labs.Schedule.Sched.{wakeup_proc}
use os_labs.Schedule.Sched.Wakeup.{Sleeps, wake, woken, wakeup_proc-ok, woken-Queued}
use os_labs.Sync.Wait.{
  Sync, head, set_wait, set_queue, wait_queue_first, wait_queue_del, wakeup_wait, wait_current_del,
  wait_in_queue,
}
use os_labs.Sync.Sem.{wt_ksem, up_with, give, up, down_end, down_return}

-- The wait `w` is the first of the semaphore's queue, and its process waits for the semaphore.
pub record First (sem w : ℕ) (ws : List ℕ) (s : Sync) : Type 0 where
  pub queue : s.queue sem ≡ w ∷ ws
  pub linked : (s.wait w).linked ≡ true
  pub here : (s.wait w).wait_queue ≡ sem
  pub state : (s.kernel.procs (s.wait w).proc).wait_state ≡ wt_ksem

-- the wait out of the queue, and with what `up` tells it
unlinked : ℕ → ℕ → List ℕ → Sync → Sync
unlinked sem w ws s = set_queue sem ws (set_wait w (λ x. record x { linked = false }) s)

told : ℕ → ℕ → List ℕ → Sync → Sync
told sem w ws s = set_wait w (λ x. record x { wakeup_flags = wt_ksem }) (unlinked sem w ws s)

told-wait :
    (sem w : ℕ) (ws : List ℕ) (s : Sync)
    → (told sem w ws s).wait w ≡ record (s.wait w) { linked = false; wakeup_flags = wt_ksem }
unfolding told unlinked write_at
told-wait sem w ws s = rw (==_refl w) refl

told-queue : (sem w : ℕ) (ws : List ℕ) (s : Sync) → (told sem w ws s).queue sem ≡ ws
unfolding told unlinked
told-queue sem w ws s = write_at-same s.queue sem ws

told-value : (sem w : ℕ) (ws : List ℕ) (s : Sync) → (told sem w ws s).value ≡ s.value
unfolding told unlinked
told-value sem w ws s = refl

-- the state in which `up` has given to the first wait
granted : ℕ → ℕ → List ℕ → Sync → Sync
granted sem w ws s = record (told sem w ws s) { kernel = woken (s.wait w).proc s.kernel }

erase_head : (w : ℕ) (ws : List ℕ) → erase w (w ∷ ws) ≡ ws
unfolding erase
erase_head w ws = rw (==_refl w) refl

wait_queue_del-First :
    (sem w : ℕ) (ws : List ℕ) (s : Sync)
    → First sem w ws s
    → wait_queue_del sem w s ≡ ok (unlinked sem w ws s)
unfolding wait_queue_del unlinked
wait_queue_del-First sem w ws s h =
    let left : erase w (s.queue sem) ≡ ws = ap (erase w) h.queue ∙ erase_head w ws in
    rw (h.linked, h.here, ==_refl sem, left) refl

up-granted :
    (sem w : ℕ) (ws : List ℕ) (s : Sync) (xs : List ℕ)
    → First sem w ws s
    → Queued s.kernel xs
    → Sleeps s.kernel xs (s.wait w).proc
    → up round_robin sem s ≡ ok (granted sem w ws s)
unfolding up up_with give wakeup_wait granted told unlinked woken write_at wake
up-granted sem w ws s xs h q z =
    let first : wait_queue_first sem s ≡ some w = unfold wait_queue_first in ap head h.queue in
    let wakes : wakeup_proc round_robin ((told sem w ws s).wait w).proc s.kernel
        ≡ ok (woken (s.wait w).proc s.kernel) =
      ap (λ x. wakeup_proc round_robin x.proc s.kernel) (told-wait sem w ws s)
      ∙ wakeup_proc-ok (s.wait w).proc s.kernel xs q z in
    rw (first, h.state, wait_queue_del-First sem w ws s h, wakes) refl

down_return-told :
    (sem w : ℕ) (ws : List ℕ) (s : Sync) (k : Kernel)
    → down_return sem w (record (told sem w ws s) { kernel = k })
      ≡ ok (record (told sem w ws s) { kernel = k })
unfolding down_return down_end wait_current_del wait_in_queue
down_return-told sem w ws s k =
    let out : ((told sem w ws s).wait w).linked ≡ false =
      ap (λ x. x.linked) (told-wait sem w ws s) in
    let flags : ((told sem w ws s).wait w).wakeup_flags ≡ wt_ksem =
      ap (λ x. x.wakeup_flags) (told-wait sem w ws s) in
    rw (out, flags) refl

-- Under the round-robin policy, when `w` is the first wait of a semaphore and its process sleeps for
-- the semaphore, `up` passes its assertions, leaves the semaphore's value, takes just `w` out of its
-- queue and puts the process at the end of the run queue; and whatever the kernel's state when that
-- process goes on, the rest of its `down` then returns without a failed assertion and changes nothing.
pub up-down_return :
    (sem w : ℕ) (ws : List ℕ) (s : Sync) (xs : List ℕ)
    → First sem w ws s
    → Queued s.kernel xs
    → Sleeps s.kernel xs (s.wait w).proc
    → (s' : Sync) × (up round_robin sem s ≡ ok s')
      × (s'.queue sem ≡ ws)
      × (s'.value ≡ s.value)
      × Queued s'.kernel (xs ++ ((s.wait w).proc ∷ []))
      × ((k : Kernel)
          → down_return sem w (record s' { kernel = k }) ≡ ok (record s' { kernel = k }))
unfolding granted
up-down_return sem w ws s xs h q z = (
  granted sem w ws s,
  up-granted sem w ws s xs h q z,
  told-queue sem w ws s,
  told-value sem w ws s,
  woken-Queued (s.wait w).proc s.kernel xs q z,
  down_return-told sem w ws s,
)
