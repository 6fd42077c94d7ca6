-- ===== src/Process/Table/Valid.antt =====
-- What holds of the process table between any two calls.
use mathlib.Core.List.{Memᴰ}
use mathlib.Core.List.Memᴰ
use os_labs.Common.{
  ℕ, suc, ◌<◌, ◌≡◌, ◌≢◌, refl, sym, ap, ◌∙◌, true, ◌&&◌, ltb, lt→ltb, Option, some, List, [], ◌∷◌,
  All, length, write_at, write_at_keeps, inl, inr, Bool-cases, ==_iff, ==_ne, ==_refl, if_true,
  if_false, none, ◌==◌,
}
use os_labs.Libs.ListEntry.Distinct.{◌∉◌, Distinct}
use os_labs.Process.Pid.{max_pid}
use os_labs.Process.Pid.Fresh.{IsSafe}
use os_labs.Process.Family.Siblings.{Kids, IsFamily}
use os_labs.Process.Table.{Proc, Table, is_zombie, pid_hashfn, find_in, pids_of, update, find_proc}
use os_labs.Process.Table.Members.{bucket, bucket-same, pids_of-same, find_in-bucket}

-- `kids` are the children of each process, the youngest first.
pub record IsTable {S : Type 0} (t : Table S) (kids : Kids) : Type 0 where
  -- the pointers of the families
  pub families : IsFamily t.family kids
  -- the children are processes of the list, and each of those is a child of its parent
  pub listed : (a p : ℕ) → Memᴰ p (kids a) → Memᴰ p t.proc_list
  pub owned : (p : ℕ) → Memᴰ p t.proc_list → Memᴰ p (kids (t.family.parent p))
  -- only processes of the list and the idle one have children, and no zombie has
  pub childless : (a : ℕ) → a ∉ t.proc_list → a ≢ t.idleproc → kids a ≡ []
  pub zombies : (a : ℕ) → is_zombie (t.procs a).state ≡ true → kids a ≡ []
  -- no process is twice in the list, none is NULL or the idle one
  pub distinct : Distinct t.proc_list
  pub nonzero : 0 ∉ t.proc_list
  pub idle : t.idleproc ∉ t.proc_list
  -- the numbers are different, in range, and `get_pid` knows of them
  pub numbers : Distinct (pids_of t.procs t.proc_list)
  pub in_range : All (λ n. (0 < n) × (n < max_pid)) (pids_of t.procs t.proc_list)
  pub safe : IsSafe t.pids (pids_of t.procs t.proc_list)
  -- the hash lists hold just the processes of the list, and the counter counts them and the idle one
  pub hashed : (b : ℕ) → t.hash_list b ≡ bucket b t.procs t.proc_list
  pub counted : t.nr_process ≡ suc (length t.proc_list)

pub All-of {κ} : (P : ℕ → Type κ) (ps : List ℕ) → ((x : ℕ) → P x) → All P ps
All-of P [] f = tt
All-of P (p ∷ ps) f = (f p, All-of P ps f)

pub pids_of-All :
    (P : ℕ → Type 0) (procs : ℕ → Proc) (p : ℕ) (ps : List ℕ)
    → All P (pids_of procs ps)
    → Memᴰ p ps
    → P (procs p).pid
pids_of-All P procs p [] h m = absurd (Memᴰ.not-nil m)
pids_of-All P procs p (x ∷ ps) h m = elim (Memᴰ.cases_cons m) [
  | inl e ↦ rw e h.0
  | inr t ↦ pids_of-All P procs p ps h.1 t
]

-- the search of a list for a number that only one of its processes has
find_in-member :
    (procs : ℕ → Proc) (p : ℕ) (ps : List ℕ)
    → Distinct (pids_of procs ps)
    → Memᴰ p ps
    → find_in (procs p).pid procs ps ≡ some p
unfolding find_in
find_in-member procs p [] d m = absurd (Memᴰ.not-nil m)
find_in-member procs p (x ∷ ps) d m = elim (Memᴰ.cases_cons m) [
  | inl e ↦ rw (e, ==_refl (procs x).pid) refl
  | inr t ↦
      rw
        (==_ne (procs x).pid (procs p).pid
          (λ z. pids_of-All (λ n. n ≢ (procs x).pid) procs p ps d.0 t (sym z)))
        (find_in-member procs p ps d.1 t)
]

none-some : {p : ℕ} → ◌≡◌ {A = Option ℕ} none (some p) → ⊥
none-some e = cc

some-eq : {x p : ℕ} → ◌≡◌ {A = Option ℕ} (some x) (some p) → x ≡ p
some-eq e = cc

find_in-found :
    (pid : ℕ) (procs : ℕ → Proc) (p : ℕ) (ps : List ℕ)
    → find_in pid procs ps ≡ some p
    → Memᴰ p ps × ((procs p).pid ≡ pid)
unfolding find_in
find_in-found pid procs p [] e = absurd (none-some e)
find_in-found pid procs p (x ∷ ps) e = elim (Bool-cases ((procs x).pid == pid)) [
  | inl g ↦
      let same : x ≡ p = some-eq (sym (if_true _ _ g) ∙ e) in
      (Memᴰ.head (sym same), ap (λ z. (procs z).pid) (sym same) ∙ (==_iff _ _).0 g)
  | inr g ↦ let (m, n) = find_in-found pid procs p ps (sym (if_false _ _ g) ∙ e) in (Memᴰ.tail m, n)
]

-- Neither the current process nor the state of the memory managers matters.
pub IsTable-switch :
    {S : Type 0} (t : Table S) (kids : Kids) (c : ℕ) (s : S)
    → IsTable t kids
    → IsTable (record t { current = c; below = s }) kids
IsTable-switch t kids c s h = record {
  families = h.families;
  listed = h.listed;
  owned = h.owned;
  childless = h.childless;
  zombies = h.zombies;
  distinct = h.distinct;
  nonzero = h.nonzero;
  idle = h.idle;
  numbers = h.numbers;
  in_range = h.in_range;
  safe = h.safe;
  hashed = h.hashed;
  counted = h.counted;
}

pub IsTable-below :
    {S : Type 0} (t : Table S) (kids : Kids) (s : S)
    → IsTable t kids
    → IsTable (record t { below = s }) kids
IsTable-below t kids s h = IsTable-switch t kids t.current s h

module _ {S : Type 0} where
  -- Only the number of a process, and whether it is a zombie, count.
  pub IsTable-procs :
      (t : Table S) (kids : Kids) (procs : ℕ → Proc)
      → All (λ x. (procs x).pid ≡ (t.procs x).pid) t.proc_list
      → ((x : ℕ) → is_zombie (procs x).state ≡ true → kids x ≡ [])
      → IsTable t kids
      → IsTable (record t { procs = procs }) kids
  IsTable-procs t kids procs same z h =
      let names : pids_of procs t.proc_list ≡ pids_of t.procs t.proc_list =
        pids_of-same procs t.procs t.proc_list same in
      record {
        families = h.families;
        listed = h.listed;
        owned = h.owned;
        childless = h.childless;
        zombies = z;
        distinct = h.distinct;
        nonzero = h.nonzero;
        idle = h.idle;
        numbers = rw names h.numbers;
        in_range = rw names h.in_range;
        safe = rw names h.safe;
        hashed = λ b. h.hashed b ∙ sym (bucket-same procs t.procs b t.proc_list same);
        counted = h.counted;
      }

  -- One process changed, which keeps its number and does not become a zombie.
  pub IsTable-update :
      (t : Table S) (kids : Kids) (p : ℕ) (f : Proc → Proc)
      → ((q : Proc) → (f q).pid ≡ q.pid)
      → (is_zombie (f (t.procs p)).state ≡ true → kids p ≡ [])
      → IsTable t kids
      → IsTable (update p f t) kids
  IsTable-update t kids p f same z h =
      IsTable-procs t kids (write_at t.procs p (f (t.procs p)))
        (All-of _ t.proc_list (λ x.
          write_at_keeps (λ c q. q.pid ≡ (t.procs c).pid) t.procs p (f (t.procs p)) x
            (same (t.procs p)) refl))
        (λ x.
          write_at_keeps (λ c q. is_zombie q.state ≡ true → kids c ≡ []) t.procs p (f (t.procs p)) x
            z (h.zombies x))
        h

  -- `find_proc` gives the process that has the number.
  pub find_proc-member :
      (t : Table S) (kids : Kids) (p : ℕ)
      → IsTable t kids
      → Memᴰ p t.proc_list
      → find_proc (t.procs p).pid t ≡ some p
  unfolding find_proc
  find_proc-member t kids p h m =
      let (lo, hi) =
        pids_of-All (λ n. (0 < n) × (n < max_pid)) t.procs p t.proc_list h.in_range m in
      rw
        (
          lt→ltb 0 (t.procs p).pid lo,
          lt→ltb (t.procs p).pid max_pid hi,
          h.hashed (pid_hashfn (t.procs p).pid),
        )
        (find_in-bucket (t.procs p).pid t.procs t.proc_list
          ∙ find_in-member t.procs p t.proc_list h.numbers m)

  -- What it gives is a process of the list with the number.
  pub find_proc-found :
      (t : Table S) (kids : Kids) (pid p : ℕ)
      → IsTable t kids
      → find_proc pid t ≡ some p
      → Memᴰ p t.proc_list × ((t.procs p).pid ≡ pid)
  unfolding find_proc
  find_proc-found t kids pid p h e = elim (Bool-cases (ltb 0 pid && ltb pid max_pid)) [
    | inl g ↦ find_in-found pid t.procs p t.proc_list (
        sym (find_in-bucket pid t.procs t.proc_list)
        ∙ ap (find_in pid t.procs) (sym (h.hashed (pid_hashfn pid)))
        ∙ sym (if_true _ _ g)
        ∙ e)
    | inr g ↦ absurd (none-some (sym (if_false _ _ g) ∙ e))
  ]
