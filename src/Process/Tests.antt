-- ===== src/Process/Tests.antt =====
-- A small system: the idle process at 1000, the init process at 2000, which waits for its child at 3000, and a
-- zombie at 4000, the child of that one.
use mathlib.Core.List.{Memᴰ}
use mathlib.Core.List.Memᴰ
use os_labs.Common.{
  negsuc, ℕ, ◌+◌, ◌≡◌, ◌≢◌, refl, true, false, Option, none, some, List, [], ◌∷◌, arith, ◌==◌, ◌⊎◌,
  inl, inr, Bool-cases, ==_iff, write_at, write_at_keeps, Run, ok, pos,
}
use os_labs.Libs.ListEntry.Distinct.{◌∉◌}
use os_labs.Schedule.{sleeping, runnable, zombie}
use os_labs.Libs.Hash.{hash32}
use os_labs.Process.Family.{Family}
use os_labs.Process.Family.Siblings.{Kids, IsFamily}
use os_labs.Process.Table.{Proc, Memory, Table, is_zombie, wt_child, find_in, find_proc}
use os_labs.Process.Table.Members.{bucket}
use os_labs.Process.Table.Valid.{IsTable}
use os_labs.Process.Fork.{do_fork}
use os_labs.Process.Fork.Outcome.{Forks, do_fork-Forks}
use os_labs.Process.Exit.{
  Waited, reaped, refused, e_bad_proc, search, search_children, search_pid, after_search, reap,
  do_exit, wait_round, do_kill, is_interruptible, is_exiting,
}
use os_labs.Process.Exit.Leave.{exited_kids}
use os_labs.Process.Exit.Outcome.{IsExited, do_exit-IsExited}
use os_labs.Process.Exit.Rendezvous.{Returns, do_exit-do_wait_return}
use os_labs.Process.Exit.Kill.{IsKilled, do_kill-ends}
use os_labs.Process.Exit.Find.{false-true}

-- memory managers that give ever higher addresses and never fail
abbrev plenty : Memory ℕ
plenty = record {
  kmalloc = λ s. (s, s + 1000);
  kfree = λ a s. s;
  alloc_kstack = λ s. (s, s + 1000);
  free_kstack = λ a s. s;
  mm_create = λ s. (s, s + 1000);
  setup_pgdir = λ mm s. (true, s);
  dup_mmap = λ mm old s. (true, s);
  exit_mmap = λ mm s. s;
  put_pgdir = λ mm s. s;
  mm_destroy = λ mm s. s;
  mm_count_inc = λ mm s. s;
  mm_count_dec = λ mm s. (0, s);
  user_mem_check = λ mm s. true;
}

abbrev some_proc : Proc
some_proc = record {
  state = runnable;
  pid = 0;
  kstack = 0;
  mm = 0;
  flags = 0;
  exit_code = pos 0;
  wait_state = 0;
}

abbrev no_family : Family
no_family = record { parent = λ a. 0; cptr = λ a. 0; yptr = λ a. 0; optr = λ a. 0 }

-- the idle process alone
abbrev boot : Table ℕ
boot = record {
  procs = λ a. some_proc;
  family = no_family;
  proc_list = [];
  hash_list = λ b. [];
  nr_process = 1;
  pids = record { last_pid = 8192; next_safe = 8192 };
  current = 1000;
  idleproc = 1000;
  initproc = 0;
  below = 2000;
}

boot-IsTable : IsTable boot (λ a. [])
boot-IsTable = record {
  families = λ a. (refl, tt);
  listed = λ a x m. m;
  owned = λ x m. m;
  childless = λ a o n. refl;
  zombies = λ a z. refl;
  distinct = tt;
  nonzero = tt;
  idle = tt;
  numbers = tt;
  in_range = tt;
  safe = (omega arith, omega arith, omega arith, tt);
  hashed = λ b. refl;
  counted = refl;
}

do_fork-Forks_example :
    Forks plenty false boot (λ a. []) 2000 3000 (do_fork plenty 16384 false boot)
do_fork-Forks_example =
    do_fork-Forks plenty boot (λ a. []) boot-IsTable 16384 false
      (record { present = inr refl; alive = refl }) refl (omega arith)
      (inl (tt, λ e. omega (arith, e)))

abbrev procs : ℕ → Proc
procs =
    write_at
      (write_at
        (write_at (λ a. some_proc) 2000
          (record some_proc { state = sleeping; pid = 1; wait_state = wt_child }))
        3000 (record some_proc { pid = 2 }))
      4000 (record some_proc { state = zombie; pid = 3; exit_code = pos 7 })

abbrev kids : Kids
kids = write_at (write_at (write_at (λ a. []) 1000 (2000 ∷ [])) 2000 (3000 ∷ [])) 3000 (4000 ∷ [])

abbrev members : List ℕ
members = 4000 ∷ 3000 ∷ 2000 ∷ []

abbrev family : Family
family = record {
  parent = write_at (write_at (write_at (λ a. 0) 2000 1000) 3000 2000) 4000 3000;
  cptr = write_at (write_at (write_at (λ a. 0) 1000 2000) 2000 3000) 3000 4000;
  yptr = λ a. 0;
  optr = λ a. 0;
}

abbrev house : Table ℕ
house = record {
  procs = procs;
  family = family;
  proc_list = members;
  hash_list = λ b. bucket b procs members;
  nr_process = 4;
  pids = record { last_pid = 3; next_safe = 8192 };
  current = 3000;
  idleproc = 1000;
  initproc = 2000;
  below = 5000;
}

house-families : IsFamily family kids
unfolding write_at
house-families a = elim (Bool-cases (a == 3000)) [
  | inl e ↦ rw ((==_iff a 3000).0 e) ((refl, (λ z. omega (arith, z)), refl, refl, refl), (tt, tt))
  | inr e ↦ elim (Bool-cases (a == 2000)) [
    | inl f ↦ rw ((==_iff a 2000).0 f) ((refl, (λ z. omega (arith, z)), refl, refl, refl), (tt, tt))
    | inr f ↦ elim (Bool-cases (a == 1000)) [
      | inl g ↦
          rw ((==_iff a 1000).0 g) ((refl, (λ z. omega (arith, z)), refl, refl, refl), (tt, tt))
      | inr g ↦ rw (e, f, g) (refl, tt)
    ]
  ]
]

-- what holds of the members and of the lists
every {κ} : (P : ℕ → Type κ) → P 4000 → P 3000 → P 2000 → (x : ℕ) → Memᴰ x members → P x
every P a b c x m = elim (Memᴰ.cases_cons m) [
  | inl e ↦ rw e a
  | inr k ↦ elim (Memᴰ.cases_cons k) [
    | inl e ↦ rw e b
    | inr l ↦ elim (Memᴰ.cases_cons l) [ inl e ↦ rw e c | inr n ↦ absurd (Memᴰ.not-nil n) ]
  ]
]

each {κ} :
    (P : ℕ → List ℕ → Type κ)
    → P 3000 (4000 ∷ [])
    → P 2000 (3000 ∷ [])
    → P 1000 (2000 ∷ [])
    → ((a : ℕ) → P a [])
    → (a : ℕ) → P a (kids a)
each P c b i rest a =
    write_at_keeps P (write_at (write_at (λ z. []) 1000 (2000 ∷ [])) 2000 (3000 ∷ [])) 3000
      (4000 ∷ []) a c
      (write_at_keeps P (write_at (λ z. []) 1000 (2000 ∷ [])) 2000 (3000 ∷ []) a b
        (write_at_keeps P (λ z. []) 1000 (2000 ∷ []) a i (rest a)))

only : (x y : ℕ) → Memᴰ y (x ∷ []) → Memᴰ x members → Memᴰ y members
only x y m k = elim (Memᴰ.cases_cons m) [ inl e ↦ rw e k | inr n ↦ absurd (Memᴰ.not-nil n) ]

house-IsTable : IsTable house kids
unfolding write_at
house-IsTable = record {
  families = house-families;
  listed = λ a x.
      each (λ b ks. Memᴰ x ks → Memᴰ x members) (λ m. only 4000 x m (Memᴰ.head refl))
        (λ m. only 3000 x m (Memᴰ.tail (Memᴰ.head refl)))
        (λ m. only 2000 x m (Memᴰ.tail (Memᴰ.tail (Memᴰ.head refl))))
        (λ b m. absurd (Memᴰ.not-nil m)) a;
  owned =
      every (λ x. Memᴰ x (kids (family.parent x))) (Memᴰ.head refl) (Memᴰ.head refl)
        (Memᴰ.head refl);
  childless =
      each (λ a ks. a ∉ members → a ≢ 1000 → ks ≡ []) (λ o n. absurd (o.1.0 refl))
        (λ o n. absurd (o.1.1.0 refl)) (λ o n. absurd (n refl)) (λ a o n. refl);
  zombies =
      each (λ a ks. is_zombie (procs a).state ≡ true → ks ≡ []) (λ z. absurd (false-true z))
        (λ z. absurd (false-true z)) (λ z. absurd (false-true z)) (λ a z. refl);
  distinct = (
    ((λ e. omega (arith, e)), ((λ e. omega (arith, e)), tt)),
    (((λ e. omega (arith, e)), tt), (tt, tt)),
  );
  nonzero = ((λ e. omega (arith, e)), ((λ e. omega (arith, e)), ((λ e. omega (arith, e)), tt)));
  idle = ((λ e. omega (arith, e)), ((λ e. omega (arith, e)), ((λ e. omega (arith, e)), tt)));
  numbers = (
    ((λ e. omega (arith, e)), ((λ e. omega (arith, e)), tt)),
    (((λ e. omega (arith, e)), tt), (tt, tt)),
  );
  in_range =
      ((omega arith, omega arith), ((omega arith, omega arith), ((omega arith, omega arith), tt)));
  safe = (
    omega arith,
    omega arith,
    omega arith,
    (inl (omega arith), (inl (omega arith), (inl (omega arith), tt))),
  );
  hashed = λ b. refl;
  counted = refl;
}

-- the process at 3000 exits; its parent waits
abbrev shell-listed : Memᴰ 3000 members
shell-listed = Memᴰ.tail (Memᴰ.head refl)

abbrev init-listed : Memᴰ 2000 members
init-listed = Memᴰ.tail (Memᴰ.tail (Memᴰ.head refl))

shell-parent : family.parent 3000 ≢ 3000
unfolding write_at
shell-parent e = omega (arith, e)

init-alive : is_zombie (procs 2000).state ≡ false
unfolding write_at
init-alive = refl

do_exit-IsExited_example :
    (t : Table ℕ) × (do_exit plenty 1 (pos 5) house ≡ ok t) × IsExited plenty house t kids (pos 5)
unfolding write_at
do_exit-IsExited_example =
    do_exit-IsExited plenty (pos 5) house kids house-IsTable shell-listed shell-parent
      (inl init-listed) (λ e. omega (arith, e)) init-alive 1 (omega arith)

do_exit-do_wait_return_example :
    (t : Table ℕ) × (do_exit plenty 1 (pos 5) house ≡ ok t)
    × ((t.procs (family.parent 3000)).state ≡ runnable)
    × Returns plenty 9 0 (record t { current = family.parent 3000 }) (exited_kids 3000 2000 kids)
unfolding write_at
do_exit-do_wait_return_example =
    do_exit-do_wait_return plenty (pos 5) house kids house-IsTable shell-listed shell-parent
      (inl init-listed) (λ e. omega (arith, e)) init-alive 0 1 9 (inl refl) refl refl (omega arith)
      (omega arith)

quiet :
    (x : ℕ)
    → Memᴰ x members
    → is_zombie (procs x).state ≡ true
    → is_interruptible (procs x).wait_state ≡ false
unfolding write_at
quiet =
    every (λ x. is_zombie (procs x).state ≡ true → is_interruptible (procs x).wait_state ≡ false)
      (λ z. refl) (λ z. refl) (λ z. absurd (false-true z))

do_kill-ends_example :
    ((do_kill 1 house ≡ ok (negsuc 2, house)) × ((x : ℕ) → Memᴰ x members → (procs x).pid ≢ 1))
    ⊎ ((p : ℕ) × Memᴰ p members
        × ((procs p).pid ≡ 1)
        × (((is_exiting (procs p).flags ≡ true) × (do_kill 1 house ≡ ok (negsuc 8, house)))
            ⊎ ((t : Table ℕ) × (do_kill 1 house ≡ ok (pos 0, t)) × IsKilled house t kids p)))
do_kill-ends_example = do_kill-ends house kids house-IsTable 1 quiet

-- the number and the exit code of what a run gives
abbrev code_of : Run (Waited × Table ℕ) → Option Waited
code_of (ok (w, t)) = some w
code_of _ = none

run_wait : code_of (wait_round plenty 1 0 house) ≡ some (reaped (pos 7))
unfolding wait_round search search_children after_search reap write_at
run_wait = refl

run_wait_number : code_of (wait_round plenty 1 2 house) ≡ some (refused e_bad_proc)
unfolding wait_round search search_pid find_proc find_in after_search write_at hash32
run_wait_number = refl
