-- ===== src/Process/Exit/Wait.antt =====
-- What a round of `do_wait` does, whatever the children of the process are.
use os_labs.Common.{
  ℕ, ◌≤◌, ◌≡◌, ◌≢◌, refl, sym, ap, ◌∙◌, false, ◌⊎◌, inl, inr, length, Run, ok, write_at-same,
  write_at-other,
}
use os_labs.Schedule.{sleeping}
use os_labs.Process.Family.Siblings.{Kids}
use os_labs.Process.Table.{Proc, Memory, Table, is_zombie, wt_child, update}
use os_labs.Process.Table.Valid.{IsTable, IsTable-update}
use os_labs.Process.Exit.{
  Waited, reaped, refused, blocked, Search, found, haskid, nokid, e_bad_proc, after_search,
  wait_round,
}
use os_labs.Process.Exit.Reap.{IsReaped, reap-IsReaped}
use os_labs.Process.Exit.Find.{false-true, Finds, search-Finds}

-- What holds when the caller went to sleep.
pub record IsWaiting {S : Type 0} (t t' : Table S) (kids : Kids) : Type 0 where
  pub table : IsTable t' kids
  pub sleeps : (t'.procs t.current).state ≡ sleeping
  pub waits : (t'.procs t.current).wait_state ≡ wt_child
  pub others : (x : ℕ) → x ≢ t.current → t'.procs x ≡ t.procs x
  pub list : t'.proc_list ≡ t.proc_list
  pub family : t'.family ≡ t.family

-- How a round may end.
module _ {S : Type 0} where
  abbrev pub Reaps : ℕ → Table S → Kids → Run (Waited × Table S) → Type 0
  Reaps pid t kids r =
      (p : ℕ) × (t' : Table S) × (r ≡ ok (reaped (t.procs p).exit_code, t'))
      × Finds pid t (kids t.current) (found p)
      × IsReaped t t' kids p

  abbrev pub Sleeps : ℕ → Table S → Kids → Run (Waited × Table S) → Type 0
  Sleeps pid t kids r =
      (t' : Table S) × (r ≡ ok (blocked, t'))
      × Finds pid t (kids t.current) haskid
      × IsWaiting t t' kids

  abbrev pub Refuses : ℕ → Table S → Kids → Run (Waited × Table S) → Type 0
  Refuses pid t kids r = (r ≡ ok (refused e_bad_proc, t)) × Finds pid t (kids t.current) nokid

module _ {S : Type 0} (ops : Memory S) (t : Table S) (kids : Kids) (h : IsTable t kids) where
  abbrev asleep : Proc → Proc
  asleep q = record q { state = sleeping; wait_state = wt_child }

  asleep-IsWaiting : IsWaiting t (update t.current asleep t) kids
  asleep-IsWaiting = record {
    table = IsTable-update t kids t.current asleep (λ q. refl) (λ e. absurd (false-true e)) h;
    sleeps = ap (λ q. q.state) (write_at-same t.procs t.current _);
    waits = ap (λ q. q.wait_state) (write_at-same t.procs t.current _);
    others = λ x n. write_at-other t.procs t.current _ x n;
    list = refl;
    family = refl;
  }

  after_search-ends :
      (pid : ℕ) (r : Search)
      → is_zombie (t.procs t.initproc).state ≡ false
      → Finds pid t (kids t.current) r
      → Reaps pid t kids (after_search ops r t)
        ⊎ (Sleeps pid t kids (after_search ops r t) ⊎ Refuses pid t kids (after_search ops r t))
  unfolding after_search
  after_search-ends pid (found p) i (m, k, z) =
      let n : p ≢ t.initproc =
        λ e. false-true (sym i ∙ ap (λ c. is_zombie (t.procs c).state) (sym e) ∙ z) in
      let (t', run, done) = reap-IsReaped ops t kids p h (h.listed t.current p m) z n in
      inl (p, t', run, (m, k, z), done)
  after_search-ends pid haskid i f =
      inr (inl (update t.current asleep t, refl, f, asleep-IsWaiting))
  after_search-ends pid nokid i f = inr (inr (refl, f))

  pub wait_round-ends :
      (pid fuel : ℕ)
      → is_zombie (t.procs t.initproc).state ≡ false
      → length (kids t.current) ≤ fuel
      → Reaps pid t kids (wait_round ops fuel pid t)
        ⊎ (Sleeps pid t kids (wait_round ops fuel pid t)
            ⊎ Refuses pid t kids (wait_round ops fuel pid t))
  unfolding wait_round
  wait_round-ends pid fuel i f =
      let (r, run, finds) = search-Finds t kids h pid fuel f in
      rw run (after_search-ends pid r i finds)
