-- ===== src/Schedule/Sched/Wakeup.antt =====
-- `wakeup_proc` of a sleeping process under the round-robin policy.
use os_labs.Common.{ℕ, ◌≡◌, ◌≢◌, refl, ap, ◌∙◌, false, List, [], ◌∷◌, ◌++◌, ==_ne, ==_refl, ok}
use os_labs.Libs.ListEntry.Distinct.{◌∉◌, append-All, ne_sym}
use os_labs.Schedule.{Proc, Timer, Kernel, runnable, update, write_proc}
use os_labs.Schedule.RoundRobin.{round_robin}
use os_labs.Schedule.RoundRobin.Queue.{
  Queued, Queued-update, enqueued, rr_enqueue-ok, enqueued-Queued,
}
use os_labs.Schedule.Sched.{is_runnable, is_zombie, wakeup_proc, sched_class_enqueue}

-- a process that sleeps while the queue holds `xs`
pub record Sleeps (k : Kernel) (xs : List ℕ) (p : ℕ) : Type 0 where
  pub idle : is_runnable (k.procs p).state ≡ false
  pub alive : is_zombie (k.procs p).state ≡ false
  pub not_current : p ≢ k.current
  pub not_idleproc : p ≢ k.idleproc
  pub not_queued : p ∉ xs

unfoldable pub wake : Proc → Proc
wake q = record q { state = runnable; wait_state = 0 }

wake-state : (q : Proc) → (wake q).state ≡ runnable
unfolding wake
wake-state q = refl

wake-on_rq : (q : Proc) → (wake q).on_rq ≡ q.on_rq
unfolding wake
wake-on_rq q = refl

unfoldable pub woken : ℕ → Kernel → Kernel
woken p k = enqueued p (update p wake k)

update-procs : (p : ℕ) (f : Proc → Proc) (k : Kernel) → (update p f k).procs p ≡ f (k.procs p)
unfolding write_proc
update-procs p f k = rw (==_refl p) refl

update-wake-Queued : (p : ℕ) (k : Kernel) (xs : List ℕ) → Queued k xs → Queued (update p wake k) xs
update-wake-Queued p k xs h =
    Queued-update k p wake xs (λ q e. wake-state q) (λ q e. wake-on_rq q ∙ e) h

pub wakeup_proc-ok :
    (p : ℕ) (k : Kernel) (xs : List ℕ)
    → Queued k xs
    → Sleeps k xs p
    → wakeup_proc round_robin p k ≡ ok (woken p k)
unfolding wakeup_proc sched_class_enqueue woken wake
wakeup_proc-ok p k xs h s =
    rw
      (
        s.alive,
        s.idle,
        ==_ne _ _ s.not_current,
        ==_ne _ _ s.not_idleproc,
        rr_enqueue-ok p (update p wake k) xs (update-wake-Queued p k xs h) s.not_queued,
      )
      refl

pub woken-Queued :
    (p : ℕ) (k : Kernel) (xs : List ℕ)
    → Queued k xs
    → Sleeps k xs p
    → Queued (woken p k) (xs ++ (p ∷ []))
unfolding woken
woken-Queued p k xs h s =
    enqueued-Queued p (update p wake k) xs (update-wake-Queued p k xs h) s.not_queued
      (ap (λ q. q.state) (update-procs p wake k) ∙ wake-state (k.procs p)) s.not_idleproc

pub woken-other : (p : ℕ) (k : Kernel) (r : ℕ) → r ≢ p → (woken p k).procs r ≡ k.procs r
unfolding woken enqueued write_proc
woken-other p k r h = rw (==_ne r p h) refl

-- Waking one process leaves another one asleep.
pub woken-Sleeps :
    (p : ℕ) (k : Kernel) (xs : List ℕ) (r : ℕ)
    → r ≢ p
    → Sleeps k xs r
    → Sleeps (woken p k) (xs ++ (p ∷ [])) r
unfolding woken enqueued
woken-Sleeps p k xs r n s =
    let same = woken-other p k r n in
    record {
      idle = ap (λ q. is_runnable q.state) same ∙ s.idle;
      alive = ap (λ q. is_zombie q.state) same ∙ s.alive;
      not_current = s.not_current;
      not_idleproc = s.not_idleproc;
      not_queued = append-All _ xs (p ∷ []) s.not_queued (ne_sym n, tt);
    }

-- It does not depend on the timers.
pub Sleeps-timers :
    (k : Kernel) (ts : List Timer) (xs : List ℕ) (p : ℕ)
    → Sleeps k xs p
    → Sleeps (record k { timer_list = ts }) xs p
Sleeps-timers k ts xs p s = record {
  idle = s.idle;
  alive = s.alive;
  not_current = s.not_current;
  not_idleproc = s.not_idleproc;
  not_queued = s.not_queued;
}
