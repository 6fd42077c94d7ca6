-- ===== src/Schedule/Timers/Elapse.antt =====
-- `run_timer_list` seen as the passing of a tick.
use os_labs.Common.{
  ℕ, ◌+◌, ◌-◌, ◌<◌, ◌≡◌, refl, sym, ap, ◌∙◌, inl, inr, true, false, List, [], ◌∷◌, ◌++◌, arith, All,
  leb, lt→leb, ◌==◌, ==_iff, if◌then◌else◌, Bool-cases, ok,
}
use os_labs.Libs.ListEntry.Distinct.{Distinct, All-map}
use os_labs.Schedule.{Proc, Timer, Kernel}
use os_labs.Schedule.RoundRobin.{round_robin, tick, rr_proc_tick}
use os_labs.Schedule.RoundRobin.Queue.{Queued, Queued-update}
use os_labs.Schedule.Sched.{sched_class_proc_tick}
use os_labs.Schedule.Sched.Wakeup.{Sleeps-timers}
use os_labs.Schedule.Timers.{fire, expire, run_timer_list}
use os_labs.Schedule.Timers.Deadlines.{Deadline, deadlines}
use os_labs.Schedule.Timers.Fire.{Asleep, due_procs, not_due, fire-Fired}

-- The first timer is not due yet.
abbrev pub Ahead : List Timer → Type 0
Ahead [] = Unit
Ahead (t ∷ ts) = 0 < t.expires

-- the list when the first timer is one tick closer
unfoldable pub count_down : List Timer → List Timer
count_down [] = []
count_down (t ∷ ts) = record t { expires = t.expires - 1 } ∷ ts

-- the deadlines one tick later, without those that have come
unfoldable pub elapse : List Deadline → List Deadline
elapse [] = []
elapse (d ∷ ds) = if leb d.due 1 then elapse ds else record d { due = d.due - 1 } ∷ elapse ds

elapse_later :
    (now : ℕ) (ts : List Timer) → 0 < now → elapse (deadlines (now + 1) ts) ≡ deadlines now ts
unfolding elapse deadlines
elapse_later now [] h = refl
elapse_later now (t ∷ ts) h =
    let later : now + 1 + t.expires ≡ now + t.expires + 1 = omega arith in
    let wait : leb (now + t.expires + 1) 1 ≡ false = lt→leb _ _ (omega arith) in
    let due : now + t.expires + 1 - 1 ≡ now + t.expires = omega arith in
    rw (later, wait, due, elapse_later (now + t.expires) ts (omega arith)) refl

elapse_due : (ts : List Timer) → elapse (deadlines 1 ts) ≡ deadlines 0 (not_due ts)
unfolding elapse deadlines not_due
elapse_due [] = refl
elapse_due (t ∷ ts) = elim (Bool-cases (t.expires == 0)) [
  | inl z ↦
      let now : 1 + t.expires ≡ 1 = omega (arith, (==_iff t.expires 0).0 z) in
      rw (now, z) (elapse_due ts)
  | inr z ↦
      let ahead : 0 < t.expires = ground arith in
      let later : 1 + t.expires ≡ 0 + t.expires + 1 = omega arith in
      let wait : leb (0 + t.expires + 1) 1 ≡ false = lt→leb _ _ (omega arith) in
      let due : 0 + t.expires + 1 - 1 ≡ 0 + t.expires = omega arith in
      rw (later, wait, due, z, elapse_later (0 + t.expires) ts (omega arith)) refl
]

deadlines-count_down : (ts : List Timer) → Ahead ts → deadlines 0 ts ≡ deadlines 1 (count_down ts)
unfolding deadlines count_down
deadlines-count_down [] h = refl
deadlines-count_down (t ∷ ts) h =
    let same : 0 + t.expires ≡ 1 + (t.expires - 1) = omega arith in rw same refl

expire-fire :
    (ts : List Timer) (k : Kernel)
    → Ahead ts
    → k.timer_list ≡ ts
    → expire round_robin ts k
      ≡ fire round_robin (count_down ts) (record k { timer_list = count_down ts })
unfolding expire count_down fire
expire-fire [] k h e = ap (λ l. ok (record k { timer_list = l })) e
expire-fire (t ∷ ts) k h e = let ahead : (t.expires == 0) ≡ false = ground arith in rw ahead refl

counted-Asleep :
    (k : Kernel) (ts : List Timer) (xs : List ℕ) (p : ℕ)
    → Asleep k xs p
    → Asleep (record k { timer_list = ts }) xs p
counted-Asleep k ts xs p s = record { sleeps = Sleeps-timers k ts xs p s.sleeps; waits = s.waits }

-- the state after the tick of the running process
ticked : Kernel → Kernel
ticked k = sched_class_proc_tick round_robin k.current k

tick-state : (q : Proc) → (tick q).state ≡ q.state
unfolding tick
tick-state q = refl

tick-on_rq : (q : Proc) → (tick q).on_rq ≡ q.on_rq
unfolding tick
tick-on_rq q = refl

ticked-Queued : (k : Kernel) (xs : List ℕ) → Queued k xs → Queued (ticked k) xs
unfolding ticked sched_class_proc_tick rr_proc_tick
ticked-Queued k xs h = elim (Bool-cases (k.current == k.idleproc)) [
  | inl e ↦
      rw e (
        Queued-update k k.current (λ q. record q { need_resched = true }) xs (λ q r. r) (λ q r. r)
          h)
  | inr e ↦
      rw e (Queued-update k k.current tick xs (λ q r. tick-state q ∙ r) (λ q r. tick-on_rq q ∙ r) h)
]

ticked-timer_list : (k : Kernel) → (ticked k).timer_list ≡ k.timer_list
unfolding ticked sched_class_proc_tick rr_proc_tick
ticked-timer_list k = elim (Bool-cases (k.current == k.idleproc)) [
  | inl e ↦ rw e refl
  | inr e ↦ rw e refl
]

-- Under the round-robin policy, when the run queue holds `xs`, the first timer is not due yet, and
-- the processes of the timers that come due with this tick are distinct and asleep, interruptibly or
-- with no wait state, `run_timer_list` ends without a failed assertion. The woken processes have
-- joined the run queue in the order of their timers, every deadline is one tick closer, and the
-- timers that were due, and no others, are gone.
pub run_timer_list-elapse :
    (k : Kernel) (xs : List ℕ)
    → Queued k xs
    → Ahead k.timer_list
    → All (Asleep k xs) (due_procs (count_down k.timer_list))
    → Distinct (due_procs (count_down k.timer_list))
    → (k' : Kernel) × (run_timer_list round_robin k ≡ ok k')
      × Queued k' (xs ++ due_procs (count_down k.timer_list))
      × (deadlines 0 k'.timer_list ≡ elapse (deadlines 0 k.timer_list))
unfolding run_timer_list ticked
run_timer_list-elapse k xs h ahead a d =
    let ts = count_down k.timer_list in
    let k₁ = record k { timer_list = ts } in
    let h₁ : Queued k₁ xs = record {
      queue = h.queue;
      waits = h.waits;
      distinct = h.distinct;
      count = h.count;
    } in
    let (k', r, f) =
      fire-Fired ts k₁ xs refl h₁ (All-map _ _ (due_procs ts) (counted-Asleep k ts xs) a) d in
    (
      ticked k',
      rw (expire-fire k.timer_list k ahead refl, r) refl,
      ticked-Queued k' _ f.queued,
      ap (deadlines 0) (ticked-timer_list k' ∙ f.timers)
          ∙ sym (ap elapse (deadlines-count_down k.timer_list ahead) ∙ elapse_due ts),
    )
