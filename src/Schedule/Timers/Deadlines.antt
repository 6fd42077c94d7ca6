-- ===== src/Schedule/Timers/Deadlines.antt =====
-- The list of timers as a queue of deadlines.
use os_labs.Common.{
  ℕ, ◌+◌, ◌-◌, ◌<◌, ◌≤◌, ◌≡◌, refl, sym, ap, ◌∙◌, inl, inr, true, false, List, [], ◌∷◌, arith, All,
  ltb, lt→ltb, ltb→lt, ltb→le, ◌==◌, ==_iff, if◌then◌else◌, Bool-cases, ok,
}
use os_labs.Schedule.{Timer, Kernel, u32}
use os_labs.Schedule.Timers.{listed, insert_timer, add_timer, postpone, remove_timer, del_timer}

-- a timer's address and the tick at which it is due
pub record Deadline : Type 0 where
  pub address : ℕ
  pub due : ℕ

-- the deadlines of a list of timers that starts at tick `now`
unfoldable pub deadlines : ℕ → List Timer → List Deadline
deadlines now [] = []
deadlines now (t ∷ ts) =
    record { address = t.address; due = now + t.expires } ∷ deadlines (now + t.expires) ts

-- insertion behind the deadlines that are not later
unfoldable pub insert_deadline : Deadline → List Deadline → List Deadline
insert_deadline d [] = d ∷ []
insert_deadline d (e ∷ es) = if ltb d.due e.due then d ∷ e ∷ es else e ∷ insert_deadline d es

unfoldable pub remove_deadline : ℕ → List Deadline → List Deadline
remove_deadline a [] = []
remove_deadline a (e ∷ es) = if e.address == a then es else e ∷ remove_deadline a es

split_gap : (now t n : ℕ) → t < n → now + t + (n - t) ≡ now + n
split_gap now t n h = omega arith

rest_gap : (now t n : ℕ) → n ≤ t → now + n + (t - n) ≡ now + t
rest_gap now t n h = omega arith

ltb_add : (now t n : ℕ) → ltb (now + t) (now + n) ≡ ltb t n
ltb_add now t n = ground arith

zero_add : (n : ℕ) → 0 + n ≡ n
zero_add n = omega arith

no_gap : (now e : ℕ) → (e == 0) ≡ true → now ≡ now + e
no_gap now e z = omega (arith, (==_iff e 0).0 z)

wide_gap : (now e n : ℕ) → now + e + n < 4294967296 → now + u32 (n + e) ≡ now + e + n
wide_gap now e n h = omega arith

deadlines-insert_timer :
    (now : ℕ) (t : Timer) (ts : List Timer)
    → deadlines now (insert_timer t ts)
      ≡ insert_deadline (record { address = t.address; due = now + t.expires }) (deadlines now ts)
unfolding deadlines insert_timer insert_deadline
deadlines-insert_timer now t [] = refl
deadlines-insert_timer now t (n ∷ ns) = elim (Bool-cases (ltb t.expires n.expires)) [
  | inl e ↦
      rw (ltb_add now t.expires n.expires, e, split_gap now t.expires n.expires (ltb→lt _ _ e)) refl
  | inr e ↦
      let ih =
        deadlines-insert_timer (now + n.expires) (record t { expires = t.expires - n.expires })
          ns in
      rw (ltb_add now t.expires n.expires, e, ih, rest_gap now t.expires n.expires (ltb→le _ _ e))
        refl
]

-- A timer that waits for a process and is not in the list is added by `add_timer` without a failed
-- assertion, and the deadlines are then the ones before with the new one, expires ticks from now,
-- inserted behind those that are not later.
pub add_timer-insert_deadline :
    (t : Timer) (k : Kernel)
    → 0 < t.expires
    → (t.proc == 0) ≡ false
    → listed k.timer_list t.address ≡ false
    → (k' : Kernel) × (add_timer t k ≡ ok k')
      × (deadlines 0 k'.timer_list
          ≡ insert_deadline
              (record { address = t.address; due = t.expires })
              (deadlines 0 k.timer_list))
unfolding add_timer
add_timer-insert_deadline t k pos p out = (
  record k { timer_list = insert_timer t k.timer_list },
  rw (lt→ltb _ _ pos, p, out) refl,
  deadlines-insert_timer 0 t k.timer_list
      ∙ ap
          (λ d.
            insert_deadline (record { address = t.address; due = d }) (deadlines 0 k.timer_list))
          (zero_add t.expires),
)

-- every deadline fits in an `unsigned int`
abbrev pub Fits : List Deadline → Type 0
Fits ds = All (λ d. d.due < 4294967296) ds

deadlines-postpone :
    (now e : ℕ) (ts : List Timer)
    → Fits (deadlines (now + e) ts)
    → deadlines now (postpone e ts) ≡ deadlines (now + e) ts
unfolding deadlines postpone
deadlines-postpone now e [] h = refl
deadlines-postpone now e (n ∷ ns) h = elim (Bool-cases (e == 0)) [
  | inl z ↦ rw (z, ap (λ d. deadlines d (n ∷ ns)) (no_gap now e z))
  | inr z ↦ rw (z, wide_gap now e n.expires h.0) refl
]

deadlines-remove_timer :
    (now a : ℕ) (ts : List Timer)
    → Fits (deadlines now ts)
    → deadlines now (remove_timer a ts) ≡ remove_deadline a (deadlines now ts)
unfolding deadlines remove_timer remove_deadline
deadlines-remove_timer now a [] h = refl
deadlines-remove_timer now a (t ∷ ts) h = elim (Bool-cases (t.address == a)) [
  | inl e ↦ rw e (deadlines-postpone now t.expires ts h.1)
  | inr e ↦ rw (e, deadlines-remove_timer (now + t.expires) a ts h.1) refl
]

remove_deadline_of-not_listed :
    (now a : ℕ) (ts : List Timer)
    → listed ts a ≡ false
    → remove_deadline a (deadlines now ts) ≡ deadlines now ts
unfolding deadlines listed remove_deadline
remove_deadline_of-not_listed now a [] h = refl
remove_deadline_of-not_listed now a (t ∷ ts) h =
    ground (arith, remove_deadline_of-not_listed (now + t.expires) a ts)

-- When every deadline fits in an unsigned int, `del_timer` removes the deadline of its timer, if the
-- timer is in the list, and changes no other.
pub del_timer-remove_deadline :
    (a : ℕ) (k : Kernel)
    → Fits (deadlines 0 k.timer_list)
    → deadlines 0 (del_timer a k).timer_list ≡ remove_deadline a (deadlines 0 k.timer_list)
unfolding del_timer
del_timer-remove_deadline a k h = elim (Bool-cases (listed k.timer_list a)) [
  | inl e ↦ rw e (deadlines-remove_timer 0 a k.timer_list h)
  | inr e ↦ rw e (sym (remove_deadline_of-not_listed 0 a k.timer_list e))
]
