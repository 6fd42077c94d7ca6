-- ===== src/Process/Exit/Outcome.antt =====
-- What `do_exit` does, up to its last call of `schedule`.
use mathlib.Core.Path.{subst}
use mathlib.Core.List.{Memᴰ}
use mathlib.Core.List.Memᴰ
use os_labs.Common.{
  ℕ, ◌≤◌, ◌≡◌, ◌≢◌, refl, sym, ap, ◌∙◌, true, false, ◌&&◌, ◌||◌, if_true, if_false, List, [], ◌∷◌,
  ◌==◌, ◌⊎◌, Bool-cases, inl, inr, ==_iff, ==_ne, ==→ne, write_at, write_at-same, write_at-other,
  write_at_twice, ok, length, ℤ, ◌>>=◌,
}
use os_labs.Libs.ListEntry.Distinct.{◌∉◌, ne_sym}
use os_labs.Schedule.{runnable, zombie}
use os_labs.Process.Family.{Family}
use os_labs.Process.Family.Siblings.{Kids, Siblings-parent}
use os_labs.Process.Family.Insert.{with_kids}
use os_labs.Process.Family.Adopt.{IsExiting}
use os_labs.Process.Table.{Proc, Memory, Table, is_zombie, wt_child, update}
use os_labs.Process.Table.Members.{not_mem, mem-out}
use os_labs.Process.Table.Valid.{IsTable}
use os_labs.Process.Exit.{leave_mm, free_mm, do_exit, wake_waiting, hand_over_all}
use os_labs.Process.Exit.Remove.{All-mem}
use os_labs.Process.Exit.Wake.{
  woken, woken_twice, IsWoken, woken_number, woken_dead, woken_alive, woken_stays,
  wake_waiting-IsWoken,
}
use os_labs.Process.Exit.Orphans.{IsHanded, rev_onto, hand_over_all-Hands, any_zombie}
use os_labs.Process.Exit.Leave.{exited_kids, left-IsTable}

-- What becomes of the address space `mm` in the state `s` of the memory managers: nothing for a kernel thread,
-- and only its last user takes it down.
pub data Leaves {S : Type 0} (ops : Memory S) (mm : ℕ) (s s' : S) : Type 0 where
  kernel : mm ≡ 0 → s' ≡ s → Leaves ops mm s s'
  last_user :
      (s1 : S)
      → mm ≢ 0
      → ops.mm_count_dec mm s ≡ (0, s1)
      → s' ≡ ops.mm_destroy mm (ops.put_pgdir mm (ops.exit_mmap mm s1))
      → Leaves ops mm s s'
  other_users :
      (count : ℕ) (s1 : S)
      → mm ≢ 0
      → ops.mm_count_dec mm s ≡ (count, s1)
      → count ≢ 0
      → s' ≡ s1
      → Leaves ops mm s s'

-- What holds when the current process has exited with `code`.
pub record IsExited {S : Type 0} (ops : Memory S) (t t' : Table S) (kids : Kids) (code : ℤ)
    : Type 0 where
  pub table : IsTable t' (exited_kids t.current t.initproc kids)
  -- it is a zombie with its code and no address space, still in the list, and has its parent
  pub own :
      t'.procs t.current ≡ record (t.procs t.current) { state = zombie; exit_code = code; mm = 0 }
  pub memory : Leaves ops (t.procs t.current).mm t.below t'.below
  pub list : t'.proc_list ≡ t.proc_list
  pub parent : t'.family.parent t.current ≡ t.family.parent t.current
  -- Its parent is woken if it waits for a child, and the init process if it waits for one and gets a zombie;
  -- nothing else changes in any process.
  pub others :
      (x : ℕ)
      → x ≢ t.current
      → t'.procs x
        ≡ woken
            (any_zombie t.procs (kids t.current) && x == t.initproc
              || x == t.family.parent t.current)
            (t.procs x)
  pub parent_runs :
      (t.procs (t.family.parent t.current)).wait_state ≡ wt_child
      → (t'.procs (t.family.parent t.current)).state ≡ runnable
  pub alive : is_zombie (t'.procs t.initproc).state ≡ false
  pub numbers : (x : ℕ) → (t'.procs x).pid ≡ (t.procs x).pid
  pub current : t'.current ≡ t.current
  pub initproc : t'.initproc ≡ t.initproc
  pub idleproc : t'.idleproc ≡ t.idleproc

module _ {S : Type 0} (ops : Memory S) (code : ℤ) (t : Table S) where
  abbrev last_state : Proc → Proc
  last_state r = record r { state = zombie; exit_code = code }

  -- what the process itself becomes
  abbrev pub gone : Proc
  gone = record (t.procs t.current) { state = zombie; exit_code = code; mm = 0 }

  Left : Table S → Type 0
  Left u =
      (s : S) × (u ≡ record t { procs = write_at t.procs t.current gone; below = s })
      × Leaves ops (t.procs t.current).mm t.below s

  update-Left :
      (f : Proc → Proc) (r : Proc) (s : S)
      → update t.current f (record t { procs = write_at t.procs t.current r; below = s })
        ≡ record t { procs = write_at t.procs t.current (f r); below = s }
  update-Left f r s =
      ap (λ g. record t { procs = g; below = s })
        (write_at_twice t.procs t.current r (f (write_at t.procs t.current r t.current))
          ∙ ap (λ z. write_at t.procs t.current (f z)) (write_at-same t.procs t.current r))

  free_mm-Leaves :
      (mm : ℕ) (s : S) (x : ℕ × S)
      → mm ≢ 0
      → ops.mm_count_dec mm s ≡ x
      → Leaves ops mm s (free_mm ops mm x)
  free_mm-Leaves mm s (count, s1) n e = elim (Bool-cases (count == 0)) [
    | inl g ↦ last_user s1 n (e ∙ ap (λ c. (c, s1)) ((==_iff count 0).0 g)) (if_true _ _ g)
    | inr g ↦ other_users count s1 n e (==→ne count 0 g) (if_false _ _ g)
  ]

  leave-Left : Left (update t.current last_state (leave_mm ops t))
  unfolding leave_mm Left
  leave-Left =
      let mm = (t.procs t.current).mm in
      elim (Bool-cases (mm == 0)) [
        | inl e ↦
            let none : mm ≡ 0 = (==_iff mm 0).0 e in
            rw e (
              t.below,
              ap
                  (λ m. record t {
                    procs =
                        write_at t.procs t.current
                          (record (last_state (t.procs t.current)) { mm = m });
                  })
                  none,
              kernel none refl,
            )
        | inr e ↦
            let s = free_mm ops mm (ops.mm_count_dec mm t.below) in
            let r = record (t.procs t.current) { mm = 0 } in
            rw e (
              s,
              update-Left last_state r s,
              free_mm-Leaves mm t.below (ops.mm_count_dec mm t.below) (==→ne mm 0 e) refl,
            )
      ]

any_zombie-same :
    (f g : ℕ → Proc) (xs : List ℕ)
    → ((x : ℕ) → Memᴰ x xs → is_zombie (f x).state ≡ is_zombie (g x).state)
    → any_zombie f xs ≡ any_zombie g xs
any_zombie-same f g [] e = refl
any_zombie-same f g (x ∷ xs) e =
    rw (e x (Memᴰ.head refl), any_zombie-same f g xs (λ y m. e y (Memᴰ.tail m))) refl

module _ {S : Type 0} (ops : Memory S) (code : ℤ) (t : Table S) (kids : Kids) (h : IsTable t kids)
    (here : Memᴰ t.current t.proc_list) (up : t.family.parent t.current ≢ t.current)
    (there : Memᴰ t.initproc t.proc_list ⊎ (t.initproc ≡ t.idleproc)) (pq : t.initproc ≢ t.current)
    (alive : is_zombie (t.procs t.initproc).state ≡ false) where
  abbrev p : ℕ
  p = t.current

  abbrev q : ℕ
  q = t.initproc

  abbrev u : ℕ
  u = t.family.parent t.current

  parent_alive : is_zombie (t.procs u).state ≡ false
  parent_alive = elim (Bool-cases (is_zombie (t.procs u).state)) [
    | inl e ↦ absurd (Memᴰ.not-nil (subst (λ xs. Memᴰ p xs) (h.zombies u e) (h.owned p here)))
    | inr e ↦ e
  ]

  not_own : p ∉ kids p
  not_own = mem-out p (kids p) (λ m. up (
      All-mem (λ x. t.family.parent x ≡ p) (kids p)
        (Siblings-parent t.family p 0 (t.family.cptr p) (kids p) (h.families p).0) p m))

  -- from the three parts: what the process becomes, the waking of its parent, and the loop
  module _ (s : S) (memory : Leaves ops (t.procs p).mm t.below s) (ps2 ps3 : ℕ → Proc)
      (f' : Family) where
    abbrev r : Proc
    r = gone ops code t

    abbrev ps1 : ℕ → Proc
    ps1 = write_at t.procs p r

    abbrev t2 : Table S
    t2 = record t { procs = ps2; below = s }

    abbrev last : Table S
    last = record t { procs = ps3; family = f'; below = s }

    before : (x : ℕ) → x ≢ p → ps1 x ≡ t.procs x
    before x n = write_at-other t.procs p r x n

    last-IsExited :
        IsWoken u ps1 ps2 true
        → IsExiting p f' 0 [] (with_kids q (rev_onto (kids p) (kids q)) kids)
        → IsHanded t2 (kids p) f' ps3
        → IsExited ops t last kids code
    last-IsExited w ex hd =
        let v = hd.woken in
        let own : ps3 p ≡ r =
          v.others p (ne_sym pq) ∙ w.others p (ne_sym up) ∙ write_at-same t.procs p r in
        let status : (x : ℕ)
            → Memᴰ x (kids p)
            → is_zombie (ps2 x).state ≡ is_zombie (t.procs x).state =
          λ x m.
            let n : x ≢ p = λ e. not_mem p (kids p) not_own (subst (λ c. Memᴰ c (kids p)) e m) in
            elim (Bool-cases (x == u)) [
              | inl g ↦ rw ((==_iff x u).0 g) (w.alive ∙ sym parent_alive)
              | inr g ↦ ap (λ c. is_zombie c.state) (w.others x (==→ne x u g) ∙ before x n)
            ] in
        let same : (x : ℕ) → (ps3 x).pid ≡ (t.procs x).pid = λ x.
          woken_number v x ∙ woken_number w x ∙ elim (Bool-cases (x == p)) [
            | inl e ↦ rw ((==_iff x p).0 e, write_at-same t.procs p r) refl
            | inr e ↦ ap (λ c. c.pid) (before x (==→ne x p e))
          ] in
        record {
          table =
              left-IsTable t kids h p q pq here there f' ps3 s ex hd.given hd.kept same v.alive
                (λ x n z.
                  ap (λ c. is_zombie c.state) (sym (before x n))
                  ∙ woken_dead w x (woken_dead v x z));
          own = own;
          memory = memory;
          list = refl;
          parent = hd.kept p not_own;
          parent_runs =
              λ e. woken_stays v u (w.runs refl (ap (λ c. c.wait_state) (before u up) ∙ e));
          alive = v.alive;
          numbers = same;
          others = λ x n.
              v.exact x
              ∙ ap (woken (any_zombie ps2 (kids p) && x == q)) (w.exact x)
              ∙ woken_twice (any_zombie ps2 (kids p) && x == q) (x == u) (ps1 x)
              ∙ ap (λ b. woken (b && x == q || x == u) (ps1 x))
                  (any_zombie-same ps2 t.procs (kids p) status)
              ∙ ap (woken (any_zombie t.procs (kids p) && x == q || x == u)) (before x n);
          current = refl;
          initproc = refl;
          idleproc = refl;
        }

  -- From a table in order, a process of the list other than the init process (which is alive, and is in
  -- the list or is the idle one) and not its own parent, with fuel for its children, exits without a
  -- failed assertion. It is a zombie with its code and without its address space, which is taken down just
  -- if this was the last user. Its children are the init process's, the last one first. Its parent is
  -- woken if it waits for a child and is not runnable, the init process in that case if one of the
  -- children is a zombie; no other field of any process changes, and the table is in order.
  pub do_exit-IsExited :
      (fuel : ℕ)
      → length (kids t.current) ≤ fuel
      → (t' : Table S) × (do_exit ops fuel code t ≡ ok t') × IsExited ops t t' kids code
  unfolding do_exit Left
  do_exit-IsExited fuel l =
      let ni : p ≢ t.idleproc =
        λ e. not_mem t.idleproc t.proc_list h.idle (subst (λ c. Memᴰ c t.proc_list) e here) in
      let (s, first, memory) = leave-Left ops code t in
      let r = gone ops code t in
      let t1 = record t { procs = write_at t.procs p r; below = s } in
      let before : (x : ℕ) → x ≢ p → t1.procs x ≡ t.procs x =
        λ x n. write_at-other t.procs p r x n in
      let (ps2, second, w) =
        wake_waiting-IsWoken t1 u (ap (λ c. is_zombie c.state) (before u up) ∙ parent_alive) in
      let (f', ps3, third, ex, hd) =
        hand_over_all-Hands (kids p) fuel (record t1 { procs = ps2 }) 0 kids l pq
          (woken_alive w q (ap (λ c. is_zombie c.state) (before q pq) ∙ alive))
          ((h.families p).0, (h.families p).1, λ a n. h.families a) in
      (
        record t { procs = ps3; family = f'; below = s },
        rw (==_ne p t.idleproc ni, ==_ne p q (ne_sym pq))
            (ap (λ v. wake_waiting (v.family.parent v.current) v >>= hand_over_all fuel) first
              ∙ rw second third),
        last-IsExited s memory ps2 ps3 f' w ex hd,
      )
