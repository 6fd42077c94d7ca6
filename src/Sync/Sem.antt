-- ===== src/Sync/Sem.antt =====
-- lab7/kern/sync/sem.c: semaphores. `down` is cut where it calls `schedule`: `down_begin` is the part
-- before its return to another process, `down_end` the part after it.
pub mod Handover
pub mod Block
mod Tests
use os_labs.Common.{
  write_at, ℕ, ◌+◌, ◌-◌, Bool, true, false, Option, none, some, ◌==◌, ltb, if◌then◌else◌, Run, ok,
  ◌>>=◌, ◌>>◌, assert,
}
use os_labs.Schedule.{Kernel, SchedClass}
use os_labs.Schedule.Sched.{schedule}
use os_labs.Sync.Wait.{
  Sync, set_queue, wait_queue_init, wait_queue_first, wakeup_wait, wait_current_set,
  wait_current_del,
}

-- WT_KSEM
abbrev pub wt_ksem : ℕ
wt_ksem = 256

abbrev pub set_value : ℕ → ℕ → Sync → Sync
set_value sem v s = record s { value = write_at s.value sem v }

unfoldable pub sem_init : ℕ → ℕ → Sync → Sync
unfolding wait_queue_init
sem_init sem v s = wait_queue_init sem (set_value sem v s)

unfoldable pub try_down : ℕ → Sync → Bool × Sync
try_down sem s =
    if ltb 0 (s.value sem) then (true, set_value sem (s.value sem - 1) s) else (false, s)

module _ (class : SchedClass) where
  -- `__up`, for the first wait of the queue or none
  unfoldable pub give : ℕ → ℕ → Option ℕ → Sync → Run Sync
  unfolding wakeup_wait
  give wait_state sem none s = ok (set_value sem (s.value sem + 1) s)
  give wait_state sem (some w) s = do
    assert ((s.kernel.procs (s.wait w).proc).wait_state == wait_state)
    wakeup_wait class sem w wait_state true s

  unfoldable pub up_with : ℕ → ℕ → Sync → Run Sync
  unfolding give
  up_with wait_state sem s = give wait_state sem (wait_queue_first sem s) s

  unfoldable pub up : ℕ → Sync → Run Sync
  unfolding up_with
  up sem s = up_with wt_ksem sem s

  -- `__down` up to `schedule` and with it; `true` when it returns 0 at once
  unfoldable pub down_begin : ℕ → ℕ → ℕ → Sync → Run (Bool × Sync)
  unfolding wait_current_set schedule
  down_begin wait_state sem w s =
      if ltb 0 (s.value sem)
      then ok (true, set_value sem (s.value sem - 1) s)
      else (wait_current_set sem w wait_state s >>= λ s'.
          schedule class s'.kernel >>= λ k. ok (false, record s' { kernel = k }))

-- the rest of `__down`, with its result
unfoldable pub down_end : ℕ → ℕ → ℕ → Sync → Run (ℕ × Sync)
unfolding wait_current_del
down_end wait_state sem w s = do
  s' ← wait_current_del sem w s
  let flags = (s'.wait w).wakeup_flags
  ok (if flags == wait_state then 0 else flags, s')

-- the rest of `down`, which asserts that result to be 0
unfoldable pub down_return : ℕ → ℕ → Sync → Run Sync
unfolding down_end
down_return sem w s = do (flags, s') ← down_end wt_ksem sem w s; assert (flags == 0); ok s'
