-- ===== src/Sync/Wait.antt =====
-- lab7/kern/sync/wait.c: the queues of processes that wait.
use os_labs.Common.{
  ℕ, write_at, zero, suc, Bool, true, false, not, ◌&&◌, Option, none, some, List, [], ◌∷◌, ◌++◌,
  ◌==◌, if◌then◌else◌, Run, ok, no_fuel, ◌>>=◌, ◌>>◌, assert,
}
use os_labs.Schedule.{Kernel, SchedClass, sleeping, update}
use os_labs.Schedule.RoundRobin.{erase}
use os_labs.Schedule.Sched.{wakeup_proc}

-- `wait_t`; `linked` says whether its `wait_link` is in a queue, that is, not empty
pub record Wait : Type 0 where
  pub proc : ℕ
  pub wakeup_flags : ℕ
  pub wait_queue : ℕ
  pub linked : Bool

-- The kernel, and by their addresses the waits, the queues and the values of the semaphores; the
-- address of a semaphore is that of its queue too, and its value, an `int`, is never negative.
pub record Sync : Type 0 where
  pub kernel : Kernel
  pub wait : ℕ → Wait
  pub queue : ℕ → List ℕ
  pub value : ℕ → ℕ

abbrev pub set_wait : ℕ → (Wait → Wait) → Sync → Sync
set_wait w f s = record s { wait = write_at s.wait w (f (s.wait w)) }

abbrev pub set_queue : ℕ → List ℕ → Sync → Sync
set_queue q ws s = record s { queue = write_at s.queue q ws }

-- WT_INTERRUPTED is 2 ^ 31.
unfoldable pub wait_init : ℕ → ℕ → Sync → Sync
wait_init w p = set_wait w (λ x. record x { proc = p; wakeup_flags = 2147483648; linked = false })

unfoldable pub wait_queue_init : ℕ → Sync → Sync
wait_queue_init q = set_queue q []

unfoldable pub wait_queue_add : ℕ → ℕ → Sync → Run Sync
wait_queue_add q w s = do
  assert (not (s.wait w).linked && not ((s.wait w).proc == 0))
  let s' = set_wait w (λ x. record x { wait_queue = q; linked = true }) s
  ok (set_queue q (s'.queue q ++ (w ∷ [])) s')

unfoldable pub wait_queue_del : ℕ → ℕ → Sync → Run Sync
wait_queue_del q w s = do
  assert ((s.wait w).linked && (s.wait w).wait_queue == q)
  let s' = set_wait w (λ x. record x { linked = false }) s
  ok (set_queue q (erase w (s'.queue q)) s')

abbrev pub head : List ℕ → Option ℕ
head [] = none
head (x ∷ xs) = some x

abbrev pub last : List ℕ → Option ℕ
last [] = none
last (x ∷ []) = some x
last (x ∷ y ∷ ys) = last (y ∷ ys)

-- what stands behind `w`, and in front of it
unfoldable pub behind : ℕ → List ℕ → Option ℕ
behind w [] = none
behind w (x ∷ xs) = if x == w then head xs else behind w xs

unfoldable pub in_front : ℕ → Option ℕ → List ℕ → Option ℕ
in_front w prev [] = none
in_front w prev (x ∷ xs) = if x == w then prev else in_front w (some x) xs

unfoldable pub wait_queue_next : ℕ → ℕ → Sync → Run (Option ℕ)
wait_queue_next q w s = do
  assert ((s.wait w).linked && (s.wait w).wait_queue == q)
  ok (behind w (s.queue q))

unfoldable pub wait_queue_prev : ℕ → ℕ → Sync → Run (Option ℕ)
wait_queue_prev q w s = do
  assert ((s.wait w).linked && (s.wait w).wait_queue == q)
  ok (in_front w none (s.queue q))

unfoldable pub wait_queue_first : ℕ → Sync → Option ℕ
wait_queue_first q s = head (s.queue q)

unfoldable pub wait_queue_last : ℕ → Sync → Option ℕ
wait_queue_last q s = last (s.queue q)

unfoldable pub wait_queue_empty : ℕ → Sync → Bool
wait_queue_empty q s = elim (s.queue q) [ [] ↦ true | ◌∷◌ w ws ↦ false ]

unfoldable pub wait_in_queue : ℕ → Sync → Bool
wait_in_queue w s = (s.wait w).linked

module _ (class : SchedClass) where
  unfoldable pub wakeup_wait : ℕ → ℕ → ℕ → Bool → Sync → Run Sync
  unfolding wait_queue_del wakeup_proc
  wakeup_wait q w flags del s = do
    s' ← if del then wait_queue_del q w s else ok s
    let s'' = set_wait w (λ x. record x { wakeup_flags = flags }) s'
    k ← wakeup_proc class (s''.wait w).proc s''.kernel
    ok (record s'' { kernel = k })

  unfoldable pub wakeup_some : ℕ → Option ℕ → ℕ → Bool → Sync → Run Sync
  unfolding wakeup_wait
  wakeup_some q none flags del s = ok s
  wakeup_some q (some w) flags del s = wakeup_wait q w flags del s

  unfoldable pub wakeup_first : ℕ → ℕ → Bool → Sync → Run Sync
  unfolding wakeup_some
  wakeup_first q flags del s = wakeup_some q (wait_queue_first q s) flags del s

  -- the loop of `wakeup_queue` that takes the waits out of the queue, and the one that leaves them
  unfoldable pub wakeup_all : ℕ → ℕ → ℕ → Option ℕ → Sync → Run Sync
  unfolding wakeup_wait
  wakeup_all fuel q flags none s = ok s
  wakeup_all zero q flags (some w) s = no_fuel
  wakeup_all (suc fuel) q flags (some w) s = do
    s' ← wakeup_wait q w flags true s
    wakeup_all fuel q flags (wait_queue_first q s') s'

  unfoldable pub wakeup_each : ℕ → ℕ → ℕ → Option ℕ → Sync → Run Sync
  unfolding wakeup_wait
  wakeup_each fuel q flags none s = ok s
  wakeup_each zero q flags (some w) s = no_fuel
  wakeup_each (suc fuel) q flags (some w) s = do
    s' ← wakeup_wait q w flags false s
    next ← wait_queue_next q w s'
    wakeup_each fuel q flags next s'

  unfoldable pub wakeup_queue : ℕ → ℕ → ℕ → Bool → Sync → Run Sync
  unfolding wakeup_all wakeup_each
  wakeup_queue fuel q flags del s =
      if del
      then wakeup_all fuel q flags (wait_queue_first q s) s
      else wakeup_each fuel q flags (wait_queue_first q s) s

-- The running process is never null.
unfoldable pub wait_current_set : ℕ → ℕ → ℕ → Sync → Run Sync
unfolding wait_init wait_queue_add
wait_current_set q w wait_state s = do
  let p = s.kernel.current
  assert (not (p == 0))
  let s' = wait_init w p s
  let k = update p (λ x. record x { state = sleeping; wait_state = wait_state }) s'.kernel
  wait_queue_add q w (record s' { kernel = k })

unfoldable pub wait_current_del : ℕ → ℕ → Sync → Run Sync
unfolding wait_in_queue wait_queue_del
wait_current_del q w s = if wait_in_queue w s then wait_queue_del q w s else ok s
