-- ===== src/Process/Exit/Wake.antt =====
-- What waking a process that may wait for its children does to the processes.
use os_labs.Common.{
  ℕ, ◌≡◌, ◌≢◌, refl, sym, ap, ◌∙◌, Bool, true, false, not, ◌&&◌, ◌||◌, if◌then◌else◌, if_true,
  if_false, ◌==◌, Bool-cases, inl, inr, ==_iff, ==→ne, write_at, write_at-same, write_at-other, ok,
}
use os_labs.Schedule.{ProcState, uninit, sleeping, runnable, zombie}
use os_labs.Process.Exit.Find.{false-true}
use os_labs.Process.Table.{Proc, Table, is_zombie, is_runnable, wt_child, wakeup_proc}
use os_labs.Process.Exit.{wake_waiting, wake_if}
use os_labs.Process.Fork.Steps.{awake}

-- What becomes of a process that is woken if it waits for a child, in the case `now`.
abbrev pub woken : Bool → Proc → Proc
woken now r = if now && (r.wait_state == wt_child && not (is_runnable r.state)) then awake r else r

awake_again : (b : Bool) (r : Proc) → woken b (awake r) ≡ awake r
awake_again true r = refl
awake_again false r = refl

-- Twice is once in either case.
pub woken_twice : (b c : Bool) (r : Proc) → woken b (woken c r) ≡ woken (b || c) r
woken_twice true true r =
    elim (Bool-cases ((r.wait_state == wt_child) && not (is_runnable r.state))) [
      | inl e ↦ ap (woken true) (if_true _ _ e) ∙ awake_again true r ∙ sym (if_true _ _ e)
      | inr e ↦ ap (woken true) (if_false _ _ e)
    ]
woken_twice true false r = refl
woken_twice false true r = refl
woken_twice false false r = refl

-- `ps'` is `ps` but that `q`, which is alive, may have been made runnable, and was if it waited.
pub record IsWoken (q : ℕ) (ps ps' : ℕ → Proc) (waits : Bool) : Type 0 where
  pub others : (x : ℕ) → x ≢ q → ps' x ≡ ps x
  pub number : (ps' q).pid ≡ (ps q).pid
  pub alive : is_zombie (ps' q).state ≡ false
  pub stays : (ps q).state ≡ runnable → (ps' q).state ≡ runnable
  pub runs : waits ≡ true → (ps q).wait_state ≡ wt_child → (ps' q).state ≡ runnable
  pub idle : waits ≡ false → ps' ≡ ps
  pub exact : (x : ℕ) → ps' x ≡ woken (waits && x == q) (ps x)

pub runnable_state : (s : ProcState) → is_runnable s ≡ true → s ≡ runnable
runnable_state uninit e = absurd (false-true e)
runnable_state sleeping e = absurd (false-true e)
runnable_state runnable e = refl
runnable_state zombie e = absurd (false-true e)

here :
    (q : ℕ) (ps : ℕ → Proc) (b : Bool) (x : ℕ)
    → woken b (ps q) ≡ ps q
    → woken (b && x == q) (ps x) ≡ ps x
here q ps false x k = refl
here q ps true x k = elim (Bool-cases (x == q)) [
  | inl e ↦
      ap (λ c. woken c (ps x)) e
      ∙ ap (λ y. woken true (ps y)) ((==_iff x q).0 e)
      ∙ k
      ∙ ap ps (sym ((==_iff x q).0 e))
  | inr e ↦ ap (λ c. woken c (ps x)) e
]

-- Nothing was done.
pub same-IsWoken :
    (q : ℕ) (ps : ℕ → Proc) (waits : Bool)
    → is_zombie (ps q).state ≡ false
    → (waits ≡ true → (ps q).wait_state ≡ wt_child → (ps q).state ≡ runnable)
    → woken waits (ps q) ≡ ps q
    → IsWoken q ps ps waits
same-IsWoken q ps waits z r k = record {
  others = λ x n. refl;
  number = refl;
  alive = z;
  stays = λ e. e;
  runs = r;
  idle = λ e. refl;
  exact = λ x. sym (here q ps waits x k);
}

awake-IsWoken :
    (q : ℕ) (ps : ℕ → Proc)
    → woken true (ps q) ≡ awake (ps q)
    → IsWoken q ps (write_at ps q (awake (ps q))) true
awake-IsWoken q ps k =
    let now : write_at ps q (awake (ps q)) q ≡ awake (ps q) = write_at-same ps q (awake (ps q)) in
    record {
      others = λ x n. write_at-other ps q (awake (ps q)) x n;
      number = ap (λ r. r.pid) now;
      alive = ap (λ r. is_zombie r.state) now;
      stays = λ e. ap (λ r. r.state) now;
      runs = λ e w. ap (λ r. r.state) now;
      idle = λ e. absurd (false-true (sym e));
      exact = λ x. elim (Bool-cases (x == q)) [
        | inl e ↦
            ap (write_at ps q (awake (ps q))) ((==_iff x q).0 e)
            ∙ now
            ∙ sym k
            ∙ ap (λ y. woken true (ps y)) (sym ((==_iff x q).0 e))
            ∙ ap (λ c. woken c (ps x)) (sym e)
        | inr e ↦
            write_at-other ps q (awake (ps q)) x (==→ne x q e) ∙ ap (λ c. woken c (ps x)) (sym e)
      ];
    }

module _ {S : Type 0} (t : Table S) (q : ℕ) (z : is_zombie (t.procs q).state ≡ false) where
  pub wake_waiting-IsWoken :
      (ps' : ℕ → Proc) × (wake_waiting q t ≡ ok (record t { procs = ps' }))
      × IsWoken q t.procs ps' true
  unfolding wake_waiting wakeup_proc
  wake_waiting-IsWoken = elim (Bool-cases ((t.procs q).wait_state == wt_child)) [
    | inr e ↦
        rw e
          (t.procs, refl, same-IsWoken q t.procs true z (λ b w. absurd (==→ne _ _ e w)) (rw e refl))
    | inl e ↦ elim (Bool-cases (is_runnable (t.procs q).state)) [
      | inl r ↦
          rw (e, z, r)
            (
              t.procs,
              refl,
              same-IsWoken q t.procs true z (λ b w. runnable_state _ r) (rw (e, r) refl),
            )
      | inr r ↦
          rw (e, z, r)
            (write_at t.procs q (awake (t.procs q)), refl, awake-IsWoken q t.procs (rw (e, r) refl))
    ]
  ]

  pub wake_if-IsWoken :
      (b : Bool)
      → (ps' : ℕ → Proc) × (wake_if b q t ≡ ok (record t { procs = ps' })) × IsWoken q t.procs ps' b
  wake_if-IsWoken true = wake_waiting-IsWoken
  wake_if-IsWoken false = (t.procs, refl, same-IsWoken q t.procs false z (λ b. cc) refl)

-- What it means for each process.
module _ {q : ℕ} {ps ps' : ℕ → Proc} {b : Bool} (w : IsWoken q ps ps' b) where
  pub woken_number : (x : ℕ) → (ps' x).pid ≡ (ps x).pid
  woken_number x = elim (Bool-cases (x == q)) [
    | inl e ↦ rw ((==_iff x q).0 e) w.number
    | inr e ↦ ap (λ r. r.pid) (w.others x (==→ne x q e))
  ]

  pub woken_dead : (x : ℕ) → is_zombie (ps' x).state ≡ true → is_zombie (ps x).state ≡ true
  woken_dead x z = elim (Bool-cases (x == q)) [
    | inl e ↦
        absurd (
          false-true (sym w.alive ∙ ap (λ c. is_zombie (ps' c).state) (sym ((==_iff x q).0 e)) ∙ z))
    | inr e ↦ ap (λ r. is_zombie r.state) (sym (w.others x (==→ne x q e))) ∙ z
  ]

  pub woken_alive : (x : ℕ) → is_zombie (ps x).state ≡ false → is_zombie (ps' x).state ≡ false
  woken_alive x z = elim (Bool-cases (x == q)) [
    | inl e ↦ rw ((==_iff x q).0 e) w.alive
    | inr e ↦ ap (λ r. is_zombie r.state) (w.others x (==→ne x q e)) ∙ z
  ]

  pub woken_stays : (x : ℕ) → (ps x).state ≡ runnable → (ps' x).state ≡ runnable
  woken_stays x z = elim (Bool-cases (x == q)) [
    | inl e ↦ rw ((==_iff x q).0 e) (w.stays (ap (λ c. (ps c).state) (sym ((==_iff x q).0 e)) ∙ z))
    | inr e ↦ ap (λ r. r.state) (w.others x (==→ne x q e)) ∙ z
  ]
