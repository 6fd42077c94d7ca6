-- ===== src/Schedule/RoundRobin/Queue.antt =====
-- The run queue of the round-robin policy as a list of waiting processes.
use os_labs.Common.{
  ℕ, ◌+◌, ◌≡◌, ◌≢◌, refl, ap, ◌∙◌, true, false, List, [], ◌∷◌, ◌++◌, arith, All, length,
  length-append, ok,
}
use os_labs.Libs.ListEntry.Distinct.{◌∉◌, Distinct, Distinct-snoc, All-map, append-All}
use os_labs.Schedule.{runnable, Proc, Kernel, u32, update, write_proc}
use os_labs.Schedule.RoundRobin.{contains, refresh, rr_enqueue}

-- a process that may stand in the run queue
abbrev pub Waits : Kernel → ℕ → Type 0
Waits k p = ((k.procs p).state ≡ runnable) × ((k.procs p).on_rq ≡ true) × (p ≢ k.idleproc)

-- The run queue holds `xs`, in this order
pub record Queued (k : Kernel) (xs : List ℕ) : Type 0 where
  pub queue : k.run_list ≡ xs
  pub waits : All (Waits k) xs
  pub distinct : Distinct xs
  pub count : k.proc_num ≡ u32 (length xs)

contains_of-not_mem : (p : ℕ) (xs : List ℕ) → p ∉ xs → contains xs p ≡ false
unfolding contains
contains_of-not_mem p [] h = refl
contains_of-not_mem p (x ∷ xs) h = ground (arith, contains_of-not_mem p xs h.1)

-- A change of a process that keeps its state and its link keeps the queue.
Waits-update :
    (k : Kernel) (p : ℕ) (f : Proc → Proc)
    → ((q : Proc) → q.state ≡ runnable → (f q).state ≡ runnable)
    → ((q : Proc) → q.on_rq ≡ true → (f q).on_rq ≡ true)
    → (q : ℕ) → Waits k q
    → Waits (update p f k) q
unfolding write_proc
Waits-update k p f s r q w = ground (arith, s (k.procs p), r (k.procs p))

pub Queued-update :
    (k : Kernel) (p : ℕ) (f : Proc → Proc) (xs : List ℕ)
    → ((q : Proc) → q.state ≡ runnable → (f q).state ≡ runnable)
    → ((q : Proc) → q.on_rq ≡ true → (f q).on_rq ≡ true)
    → Queued k xs
    → Queued (update p f k) xs
Queued-update k p f xs s r h = record {
  queue = h.queue;
  waits = All-map (Waits k) (Waits (update p f k)) xs (Waits-update k p f s r) h.waits;
  distinct = h.distinct;
  count = h.count;
}

unfoldable pub enqueued : ℕ → Kernel → Kernel
enqueued p k =
    let k' = update p (refresh k.max_time_slice) k in
    record k' { run_list = k'.run_list ++ (p ∷ []); proc_num = u32 (k'.proc_num + 1) }

pub rr_enqueue-ok :
    (p : ℕ) (k : Kernel) (xs : List ℕ) → Queued k xs → p ∉ xs → rr_enqueue p k ≡ ok (enqueued p k)
unfolding rr_enqueue enqueued
rr_enqueue-ok p k xs h out = rw (ap (λ l. contains l p) h.queue ∙ contains_of-not_mem p xs out) refl

refreshed-Waits :
    (p : ℕ) (k : Kernel) → (k.procs p).state ≡ runnable → p ≢ k.idleproc → Waits (enqueued p k) p
unfolding enqueued refresh write_proc
refreshed-Waits p k s i = ground arith

refresh-state : (n : ℕ) (q : Proc) → (refresh n q).state ≡ q.state
unfolding refresh
refresh-state n q = refl

refresh-on_rq : (n : ℕ) (q : Proc) → (refresh n q).on_rq ≡ true
unfolding refresh
refresh-on_rq n q = refl

pub enqueued-Queued :
    (p : ℕ) (k : Kernel) (xs : List ℕ)
    → Queued k xs
    → p ∉ xs
    → (k.procs p).state ≡ runnable
    → p ≢ k.idleproc
    → Queued (enqueued p k) (xs ++ (p ∷ []))
unfolding enqueued
enqueued-Queued p k xs h out s i =
    let u =
      Queued-update k p (refresh k.max_time_slice) xs (λ q e. refresh-state k.max_time_slice q ∙ e)
        (λ q e. refresh-on_rq k.max_time_slice q) h in
    record {
      queue = ap (λ l. l ++ (p ∷ [])) h.queue;
      waits = append-All _ xs (p ∷ []) u.waits (refreshed-Waits p k s i, tt);
      distinct = Distinct-snoc xs p h.distinct out;
      count = omega (arith, h.count, length-append xs (p ∷ []));
    }
