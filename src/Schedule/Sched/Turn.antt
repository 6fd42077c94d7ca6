-- ===== src/Schedule/Sched/Turn.antt =====
-- One call of `schedule` under the round-robin policy: whose turn it is.
use mathlib.Core.Path.{ap₂}
use os_labs.Common.{
  ℕ, ◌+◌, ◌≡◌, refl, ap, ◌∙◌, inl, inr, true, false, not, ◌&&◌, some, List, [], ◌∷◌, ◌++◌, arith,
  ◌==◌, if◌then◌else◌, Bool-cases, ==_refl, ok,
}
use os_labs.Libs.ListEntry.Distinct.{◌∉◌}
use os_labs.Schedule.{ProcState, runnable, Kernel, u32, update, write_proc}
use os_labs.Schedule.RoundRobin.Queue.{
  Queued, Queued-update, enqueued, rr_enqueue-ok, enqueued-Queued,
}
use os_labs.Schedule.RoundRobin.{contains, erase, rr_dequeue, rr_pick_next, round_robin}
use os_labs.Schedule.Sched.{is_runnable, proc_run, select, schedule}

-- the run queue, which does not hold the running process
pub record Ready (k : Kernel) (xs : List ℕ) : Type 0 where
  pub queued : Queued k xs
  pub running : k.current ∉ xs

-- Whose turn it is when the processes `ys` wait: the first one, or the idle process.
abbrev pub Turn : ℕ → List ℕ → Kernel → Type 0
Turn idle [] k = (k.current ≡ idle) × Ready k []
Turn idle (p ∷ ps) k = (k.current ≡ p) × Ready k ps

-- the process as the running one
started : ℕ → Kernel → Kernel
started p k =
    let k' = update p (λ q. record q { runs = q.runs + 1 }) k in
    if p == k'.current then k' else proc_run p k'

started-current : (p : ℕ) (k : Kernel) → (started p k).current ≡ p
unfolding started proc_run
started-current p k = ground arith

started-Queued : (p : ℕ) (k : Kernel) (xs : List ℕ) → Queued k xs → Queued (started p k) xs
unfolding started proc_run
started-Queued p k xs h =
    let u = Queued-update k p (λ q. record q { runs = q.runs + 1 }) xs (λ q e. e) (λ q e. e) h in
    elim (Bool-cases (p == k.current)) [
      | inl e ↦ rw e u
      | inr e ↦
          rw e (record { queue = u.queue; waits = u.waits; distinct = u.distinct; count = u.count })
    ]

dequeued : ℕ → List ℕ → Kernel → Kernel
dequeued p ps k = record k { run_list = ps; proc_num = u32 (k.proc_num + 4294967295) }

select-none : (k : Kernel) → Queued k [] → select round_robin k ≡ ok (started k.idleproc k)
unfolding select started rr_pick_next
select-none k h = rw h.queue refl

rr_dequeue-ok :
    (k : Kernel) (p : ℕ) (ps : List ℕ) → Queued k (p ∷ ps) → rr_dequeue p k ≡ ok (dequeued p ps k)
unfolding rr_dequeue dequeued
rr_dequeue-ok k p ps h =
    let listed : (contains k.run_list p && (k.procs p).on_rq) ≡ true =
      unfold contains in ap₂ (λ l b. contains l p && b) h.queue h.waits.0.1 ∙ rw (==_refl p) refl in
    let left : erase p k.run_list ≡ ps =
      unfold erase in ap (erase p) h.queue ∙ rw (==_refl p) refl in
    rw (listed, left) refl

rr_pick_next-some :
    (k : Kernel) (p : ℕ) (ps : List ℕ) → k.run_list ≡ p ∷ ps → rr_pick_next k ≡ some p
unfolding rr_pick_next
rr_pick_next-some k p ps e = rw e refl

select-some :
    (k : Kernel) (p : ℕ) (ps : List ℕ)
    → Queued k (p ∷ ps)
    → select round_robin k ≡ ok (started p (dequeued p ps k))
unfolding select started
select-some k p ps h = rw (rr_pick_next-some k p ps h.queue, rr_dequeue-ok k p ps h) refl

select-Turn :
    (k : Kernel) (ys : List ℕ)
    → Queued k ys
    → (k' : Kernel) × (select round_robin k ≡ ok k') × Turn k.idleproc ys k'
unfolding dequeued
select-Turn k [] h = (
  started k.idleproc k,
  select-none k h,
  (
    started-current k.idleproc k,
    record { queued = started-Queued k.idleproc k [] h; running = tt },
  ),
)
select-Turn k (p ∷ ps) h =
    let now = dequeued p ps k in
    let rest : Queued now ps = record {
      queue = refl;
      waits = h.waits.1;
      distinct = h.distinct.1;
      count = omega (arith, h.count);
    } in
    (
      started p now,
      select-some k p ps h,
      (
        started-current p now,
        record {
          queued = started-Queued p now ps rest;
          running = rw (started-current p now) h.distinct.0;
        },
      ),
    )

-- the queue after the running process, if it goes on, has joined it
unfoldable pub contenders : Kernel → List ℕ → List ℕ
contenders k xs =
    if is_runnable (k.procs k.current).state && not (k.current == k.idleproc)
    then xs ++ (k.current ∷ [])
    else xs

updated-state :
    (k : Kernel)
    → ((update k.current (λ q. record q { need_resched = false }) k).procs k.current).state
      ≡ (k.procs k.current).state
unfolding write_proc
updated-state k = ground arith

updated-runnable :
    (k : Kernel)
    → is_runnable (k.procs k.current).state ≡ true
    → is_runnable
        ((update k.current (λ q. record q { need_resched = false }) k).procs k.current).state
      ≡ true
updated-runnable k r = ap is_runnable (updated-state k) ∙ r

is_runnable_eq : (s : ProcState) → is_runnable s ≡ true → s ≡ runnable
is_runnable_eq ProcState.runnable h = refl
is_runnable_eq s h = cc

-- Under the round-robin policy, when the run queue holds the distinct runnable processes `xs` and not
-- the running one, `schedule` ends without a failed assertion. The running process joins the end of
-- the queue if it is runnable and not the idle process; then the first process of the queue runs and
-- leaves it, or the idle process runs if there is none; and the queue is again as assumed.
pub schedule-Turn :
    (k : Kernel) (xs : List ℕ)
    → Ready k xs
    → (k' : Kernel) × (schedule round_robin k ≡ ok k') × Turn k.idleproc (contenders k xs) k'
unfolding schedule contenders enqueued
schedule-Turn k xs h =
    let k' = update k.current (λ q. record q { need_resched = false }) k in
    let u =
      Queued-update k k.current (λ q. record q { need_resched = false }) xs (λ q e. e) (λ q e. e)
        h.queued in
    elim (Bool-cases (is_runnable (k.procs k.current).state)) [
      | inl r ↦ elim (Bool-cases (k.current == k.idleproc)) [
        | inl i ↦
            let (t, e, turn) = select-Turn k' xs u in
            (t, rw (updated-runnable k r, i) e, rw (r, i) turn)
        | inr n ↦
            let joined =
              enqueued-Queued k.current k' xs u h.running
                (updated-state k ∙ is_runnable_eq (k.procs k.current).state r)
                (λ e. ground (arith, e)) in
            let (t, e, turn) =
              select-Turn (enqueued k.current k') (xs ++ (k.current ∷ [])) joined in
            (
              t,
              rw (updated-runnable k r, n, rr_enqueue-ok k.current k' xs u h.running) e,
              rw (r, n) turn,
            )
      ]
      | inr s ↦
          let (t, e, turn) = select-Turn k' xs u in
          (t, rw (ap is_runnable (updated-state k) ∙ s) e, rw s turn)
    ]
