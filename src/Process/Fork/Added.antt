-- ===== src/Process/Fork/Added.antt =====
-- A new process that is in no list yet gets its number and its places.
use mathlib.Core.List.{Memᴰ}
use mathlib.Core.List.Memᴰ
use os_labs.Common.{
  ℕ, ◌<◌, ◌≡◌, ◌≢◌, refl, ap, ◌∙◌, Bool, true, false, [], ◌∷◌, All, arith, write_at, write_at-same,
  write_at-other, write_at_keeps, ◌⊎◌, inl, inr, Bool-cases, ==_iff, ==→ne, ◌==◌,
}
use os_labs.Libs.ListEntry.Distinct.{◌∉◌, All-map, ne_sym}
use os_labs.Process.Pid.{PidState, max_pid}
use os_labs.Process.Pid.Fresh.{IsSafe}
use os_labs.Process.Family.{set_relations, link_first}
use os_labs.Process.Family.Siblings.{Kids}
use os_labs.Process.Family.Insert.{with_kids, set_relations-IsFamily}
use os_labs.Process.Table.{
  Proc, Table, is_zombie, pids_of, pid_hashfn, update, hash_proc, set_links,
}
use os_labs.Process.Table.Members.{not_mem, bucket, bucket-same, pids_of-same}
use os_labs.Process.Table.Valid.{IsTable}
use os_labs.Process.Fork.Prepare.{unlisted}

-- Who may be a parent: a process of the list or the idle one, and not a zombie.
pub record IsParent {S : Type 0} (t : Table S) (q : ℕ) : Type 0 where
  pub present : Memᴰ q t.proc_list ⊎ (q ≡ t.idleproc)
  pub alive : is_zombie (t.procs q).state ≡ false

-- A process that is in no list, with its parent.
pub record IsNewborn {S : Type 0} (t : Table S) (kids : Kids) (p : ℕ) : Type 0 where
  pub table : IsTable t kids
  pub out : p ∉ t.proc_list
  pub nonzero : p ≢ 0
  pub not_idle : p ≢ t.idleproc
  pub parent : IsParent t (t.family.parent p)

true-false : {b : Bool} → b ≡ true → b ≡ false → ⊥
true-false e g = cc

module _ {S : Type 0} (t : Table S) (kids : Kids) (p : ℕ) (new : IsNewborn t kids p)
    (pids : PidState) where
  abbrev q : ℕ
  q = t.family.parent p

  h : IsTable t kids
  h = new.table

  abbrev pub kids_after : Kids
  kids_after = with_kids q (p ∷ kids q) kids

  abbrev named : ℕ → Proc
  named = write_at t.procs p (record (t.procs p) { pid = pids.last_pid })

  -- the table with the new process
  abbrev pub added : Table S
  added =
      set_links p
        (hash_proc p (record (update p (λ r. record r { pid = pids.last_pid }) t) { pids = pids }))

  named_others : All (λ x. (named x).pid ≡ (t.procs x).pid) t.proc_list
  named_others =
      All-map _ _ t.proc_list (λ x n. ap (λ r. r.pid) (write_at-other t.procs p _ x n)) new.out

  names : pids_of named t.proc_list ≡ pids_of t.procs t.proc_list
  names = pids_of-same named t.procs t.proc_list named_others

  named_own : (named p).pid ≡ pids.last_pid
  named_own = ap (λ r. r.pid) (write_at-same t.procs p _)

  no_child : {P : Type 0} → (q ∉ t.proc_list) → (q ≢ t.idleproc) → P
  no_child o n = elim new.parent.present [
    | inl m ↦ absurd (not_mem q t.proc_list o m)
    | inr e ↦ absurd (n e)
  ]

  added-listed : (a x : ℕ) → Memᴰ x (kids_after a) → Memᴰ x (p ∷ t.proc_list)
  added-listed a x =
      write_at_keeps (λ c ks. Memᴰ x ks → Memᴰ x (p ∷ t.proc_list)) kids q (p ∷ kids q) a
        (λ m. elim (Memᴰ.cases_cons m) [ inl e ↦ Memᴰ.head e | inr k ↦ Memᴰ.tail (h.listed q x k) ])
        (λ m. Memᴰ.tail (h.listed a x m))

  added-owned : (x : ℕ) → Memᴰ x (p ∷ t.proc_list) → Memᴰ x (kids_after (t.family.parent x))
  added-owned x m = elim (Memᴰ.cases_cons m) [
    | inl e ↦ rw (e, write_at-same kids q (p ∷ kids q)) (Memᴰ.head refl)
    | inr k ↦
        write_at_keeps (λ c ks. Memᴰ x (kids c) → Memᴰ x ks) kids q (p ∷ kids q) (t.family.parent x)
          (λ z. Memᴰ.tail z) (λ z. z) (h.owned x k)
  ]

  added-hashed : (b : ℕ) → added.hash_list b ≡ bucket b named (p ∷ t.proc_list)
  unfolding set_links hash_proc
  added-hashed b = elim (Bool-cases (pid_hashfn (named p).pid == b)) [
    | inl e ↦
        let same : pid_hashfn (named p).pid ≡ b = (==_iff _ _).0 e in
        rw
          (
            e,
            same,
            write_at-same t.hash_list b (p ∷ t.hash_list b),
            h.hashed b,
            bucket-same named t.procs b t.proc_list named_others,
          )
          refl
    | inr e ↦
        rw
          (
            e,
            write_at-other t.hash_list (pid_hashfn (named p).pid)
                (p ∷ t.hash_list (pid_hashfn (named p).pid)) b (ne_sym (==→ne _ _ e)),
            h.hashed b,
            bucket-same named t.procs b t.proc_list named_others,
          )
          refl
  ]

  pub added-IsTable :
      0 < pids.last_pid
      → pids.last_pid < max_pid
      → pids.last_pid ∉ pids_of t.procs t.proc_list
      → IsSafe pids (pids.last_pid ∷ pids_of t.procs t.proc_list)
      → IsTable added kids_after
  unfolding set_links hash_proc set_relations link_first
  added-IsTable lo hi fresh safe = record {
    families =
        set_relations-IsFamily t.family kids p new.nonzero
          (unlisted t kids p q h new.out new.not_idle) h.families;
    listed = added-listed;
    owned = added-owned;
    childless = λ a o n.
        write_at_keeps (λ c ks. c ∉ t.proc_list → c ≢ t.idleproc → ks ≡ []) kids q (p ∷ kids q) a
          (λ c d. no_child c d) (h.childless a) o.1 n;
    zombies = λ a.
        write_at_keeps (λ c ks. is_zombie (named c).state ≡ true → ks ≡ []) kids q (p ∷ kids q) a
          (λ z. absurd (
            true-false z (
              write_at_keeps (λ c r. is_zombie r.state ≡ is_zombie (t.procs c).state) t.procs p _ q
                refl refl
              ∙ new.parent.alive)))
          (write_at_keeps (λ c r. is_zombie r.state ≡ true → kids c ≡ []) t.procs p _ a
            (h.zombies p) (h.zombies a));
    distinct = (new.out, h.distinct);
    nonzero = (new.nonzero, h.nonzero);
    idle = (new.not_idle, h.idle);
    numbers = rw (names, named_own) (fresh, h.numbers);
    in_range = rw (names, named_own) ((lo, hi), h.in_range);
    safe = rw (names, named_own) safe;
    hashed = added-hashed;
    counted = rw h.counted (omega arith);
  }
