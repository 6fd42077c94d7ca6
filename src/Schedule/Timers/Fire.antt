-- ===== src/Schedule/Timers/Fire.antt =====
-- One tick under the round-robin policy: the timers that are due wake their processes.
use mathlib.Core.Path.{subst}
use mathlib.Core.List.{append_assoc, append-nil}
use os_labs.Common.{
  ℕ, ◌≡◌, ◌≢◌, refl, sym, ap, ◌∙◌, inl, inr, true, ◌||◌, List, [], ◌∷◌, ◌++◌, All, ◌==◌, ==_refl,
  if◌then◌else◌, Bool-cases, ok,
}
use os_labs.Libs.ListEntry.Distinct.{Distinct, All-map, All-zip}
use os_labs.Schedule.{Timer, Kernel}
use os_labs.Schedule.RoundRobin.{round_robin}
use os_labs.Schedule.RoundRobin.Queue.{Queued, enqueued}
use os_labs.Schedule.Sched.Wakeup.{
  Sleeps, woken, wakeup_proc-ok, woken-Queued, woken-other, woken-Sleeps, Sleeps-timers,
}
use os_labs.Schedule.Timers.{listed, postpone, remove_timer, del_timer, is_interruptible, fire}

-- a process that a timer may wake, while the queue holds `xs`
pub record Asleep (k : Kernel) (xs : List ℕ) (p : ℕ) : Type 0 where
  pub sleeps : Sleeps k xs p
  pub waits : ((k.procs p).wait_state == 0 || is_interruptible (k.procs p).wait_state) ≡ true

-- the processes whose timers are due at once
unfoldable pub due_procs : List Timer → List ℕ
due_procs [] = []
due_procs (t ∷ ts) = if t.expires == 0 then t.proc ∷ due_procs ts else []

-- and the timers behind them
unfoldable pub not_due : List Timer → List Timer
not_due [] = []
not_due (t ∷ ts) = if t.expires == 0 then not_due ts else t ∷ ts

not_postponed : (e : ℕ) (ts : List Timer) → (e == 0) ≡ true → postpone e ts ≡ ts
unfolding postpone
not_postponed e [] z = refl
not_postponed e (t ∷ ts) z = rw z refl

listed-first : (t : Timer) (ts : List Timer) → listed (t ∷ ts) t.address ≡ true
unfolding listed
listed-first t ts = rw (==_refl t.address) refl

remove_timer-first :
    (t : Timer) (ts : List Timer) → (t.expires == 0) ≡ true → remove_timer t.address (t ∷ ts) ≡ ts
unfolding remove_timer
remove_timer-first t ts z = rw (==_refl t.address) (not_postponed t.expires ts z)

-- `del_timer` of the first timer, when it is due, takes it out of the list and changes no other.
del_timer-first :
    (t : Timer) (ts : List Timer) (k : Kernel)
    → k.timer_list ≡ t ∷ ts
    → (t.expires == 0) ≡ true
    → del_timer t.address k ≡ record k { timer_list = ts }
unfolding del_timer
del_timer-first t ts k e z =
    let found : listed k.timer_list t.address ≡ true =
      ap (λ l. listed l t.address) e ∙ listed-first t ts in
    let left : remove_timer t.address k.timer_list ≡ ts =
      ap (remove_timer t.address) e ∙ remove_timer-first t ts z in
    rw (found, left) refl

-- the state after the first timer fired
after : Timer → List Timer → Kernel → Kernel
after t ts k = record (woken t.proc k) { timer_list = ts }

after-Queued :
    (t : Timer) (ts : List Timer) (k : Kernel) (xs : List ℕ)
    → Queued k xs
    → Asleep k xs t.proc
    → Queued (after t ts k) (xs ++ (t.proc ∷ []))
unfolding after
after-Queued t ts k xs h s =
    let w = woken-Queued t.proc k xs h s.sleeps in
    record { queue = w.queue; waits = w.waits; distinct = w.distinct; count = w.count }

after-Asleep :
    (t : Timer) (ts : List Timer) (k : Kernel) (xs : List ℕ) (r : ℕ)
    → (r ≢ t.proc) × Asleep k xs r
    → Asleep (after t ts k) (xs ++ (t.proc ∷ [])) r
unfolding after
after-Asleep t ts k xs r h = record {
  sleeps = Sleeps-timers (woken t.proc k) ts _ r (woken-Sleeps t.proc k xs r h.0 h.1.sleeps);
  waits =
      ap (λ q. q.wait_state == 0 || is_interruptible q.wait_state) (woken-other t.proc k r h.0)
      ∙ h.1.waits;
}

fire-first :
    (t : Timer) (ts : List Timer) (k : Kernel) (xs : List ℕ)
    → k.timer_list ≡ t ∷ ts
    → (t.expires == 0) ≡ true
    → Queued k xs
    → Asleep k xs t.proc
    → fire round_robin (t ∷ ts) k ≡ fire round_robin ts (after t ts k)
unfolding fire after woken enqueued
fire-first t ts k xs e z h s =
    rw
      (z, s.waits, wakeup_proc-ok t.proc k xs h s.sleeps, del_timer-first t ts (woken t.proc k) e z)
      refl

-- what firing the timers `ts` leaves when the queue held `xs`
pub record Fired (k k' : Kernel) (xs : List ℕ) (ts : List Timer) : Type 0 where
  pub queued : Queued k' (xs ++ due_procs ts)
  pub timers : k'.timer_list ≡ not_due ts

pub fire-Fired :
    (ts : List Timer) (k : Kernel) (xs : List ℕ)
    → k.timer_list ≡ ts
    → Queued k xs
    → All (Asleep k xs) (due_procs ts)
    → Distinct (due_procs ts)
    → (k' : Kernel) × (fire round_robin ts k ≡ ok k') × Fired k k' xs ts
unfolding fire due_procs not_due
fire-Fired [] k xs e h a d =
    (k, refl, record { queued = subst (Queued k) (sym (append-nil xs)) h; timers = e })
fire-Fired (t ∷ ts) k xs e h a d = elim (Bool-cases (t.expires == 0)) [
  | inl z ↦
      let due : due_procs (t ∷ ts) ≡ t.proc ∷ due_procs ts = rw z refl in
      let (s, rest) = subst (All (Asleep k xs)) due a in
      let (apart, distinct) = subst Distinct due d in
      let (k', r, f) =
        fire-Fired ts (after t ts k) (xs ++ (t.proc ∷ [])) (unfold after in refl)
          (after-Queued t ts k xs h s)
          (All-map _ _ (due_procs ts) (after-Asleep t ts k xs)
            (All-zip _ _ (due_procs ts) apart rest))
          distinct in
      (
        k',
        fire-first t ts k xs e z h s ∙ r,
        record {
          queued =
              subst (Queued k')
                (append_assoc xs (t.proc ∷ []) (due_procs ts) ∙ ap (λ l. xs ++ l) (sym due))
                f.queued;
          timers = f.timers ∙ rw z refl;
        },
      )
  | inr z ↦ (
    k,
    rw z refl,
    record {
      queued = subst (Queued k) (sym (append-nil xs) ∙ ap (λ l. xs ++ l) (rw z refl)) h;
      timers = e ∙ rw z refl;
    },
  )
]
