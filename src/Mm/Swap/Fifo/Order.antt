-- ===== src/Mm/Swap/Fifo/Order.antt =====
-- The queue of swap_fifo.c gives the pages in the order in which they came.
use mathlib.Core.Path.{subst}
use mathlib.Core.List.{append-nil}
use os_labs.Common.{
  ℕ, ◌≡◌, ◌≢◌, refl, sym, ap, ◌∙◌, List, [], ◌∷◌, ◌++◌, Option, none, some, Run, ok, ◌>>=◌, ==_ne,
  ==_refl, inl, inr, last-cases,
}
use os_labs.Libs.ListEntry.{list_init, list_add, list_del}
use os_labs.Libs.ListEntry.Distinct.{◌∉◌, ne_sym}
use os_labs.Libs.ListEntry.Chain.{last-append, Chain-last, write_self}
use os_labs.Libs.ListEntry.Add.{list_add-head}
use os_labs.Mm.Swap.{Pages}
use os_labs.Mm.Swap.Queue.{Queue, unlink-Queue, take_entry-page}
use os_labs.Mm.Swap.Fifo.{fifo_init_mm, fifo_map_swappable, fifo_swap_out_victim}

-- A page that comes or one that is to leave.
pub data Event : Type 0 where
  arrive : ℕ → Event
  evict : Event

-- The queue as a list, the newest page first: what is left without the oldest, and that page.
abbrev pub without_last : List ℕ → List ℕ
without_last [] = []
without_last (p ∷ []) = []
without_last (p ∷ q ∷ ps) = p ∷ without_last (q ∷ ps)

abbrev pub oldest : List ℕ → Option ℕ
oldest [] = none
oldest (p ∷ []) = some p
oldest (p ∷ q ∷ ps) = oldest (q ∷ ps)

abbrev pub left : List Event → List ℕ → List ℕ
left [] ps = ps
left (arrive p ∷ es) ps = left es (p ∷ ps)
left (evict ∷ es) ps = left es (without_last ps)

-- the pages that leave, none for an empty queue
abbrev pub victims : List Event → List ℕ → List (Option ℕ)
victims [] ps = []
victims (arrive p ∷ es) ps = victims es (p ∷ ps)
victims (evict ∷ es) ps = oldest ps ∷ victims es (without_last ps)

-- Pages come only if they are not in the queue.
abbrev pub Fresh : ℕ → List Event → List ℕ → Type 0
Fresh head [] ps = Unit
Fresh head (arrive p ∷ es) ps = (p ≢ 0) × (p ∉ (head ∷ ps)) × Fresh head es (p ∷ ps)
Fresh head (evict ∷ es) ps = Fresh head es (without_last ps)

-- the same events by the functions of swap_fifo.c
unfoldable pub run_fifo : List Event → Pages → Run (List (Option ℕ) × Pages)
run_fifo [] s = ok ([], s)
run_fifo (arrive p ∷ es) s = fifo_map_swappable p s >>= λ t. run_fifo es t
run_fifo (evict ∷ es) s =
    fifo_swap_out_victim 0 s >>= λ r. run_fifo es r.1 >>= λ q. ok (r.0 ∷ q.0, q.1)

map_swappable-Queue :
    (s : Pages) (p : ℕ) (ps : List ℕ)
    → p ≢ 0
    → p ∉ (s.sm_priv ∷ ps)
    → Queue s ps
    → (t : Pages) × (fifo_map_swappable p s ≡ ok t) × (t.sm_priv ≡ s.sm_priv) × Queue t (p ∷ ps)
unfolding fifo_map_swappable
map_swappable-Queue s p ps np out (nh, d, c) = (
  record s { links = list_add s.sm_priv p s.links },
  rw (==_ne p 0 np, ==_ne s.sm_priv 0 nh) refl,
  refl,
  (
    nh,
    ((ne_sym out.0, d.0), (out.1, d.1)),
    list_add-head s.links s.sm_priv p ps (ne_sym out.0) out.1 d.0 d.1 c,
  ),
)

oldest-append : (ws : List ℕ) (p : ℕ) → oldest (ws ++ (p ∷ [])) ≡ some p
oldest-append [] p = refl
oldest-append (w ∷ []) p = refl
oldest-append (w ∷ v ∷ ws) p = oldest-append (v ∷ ws) p

without_last-append : (ws : List ℕ) (p : ℕ) → without_last (ws ++ (p ∷ [])) ≡ ws
without_last-append [] p = refl
without_last-append (w ∷ []) p = refl
without_last-append (w ∷ v ∷ ws) p = ap (λ t. w ∷ t) (without_last-append (v ∷ ws) p)

-- The result of a call on a queue `ps`.
abbrev Evicted : Pages → List ℕ → Type 0
Evicted s ps =
    (t : Pages) × (fifo_swap_out_victim 0 s ≡ ok (oldest ps, t))
    × (t.sm_priv ≡ s.sm_priv)
    × Queue t (without_last ps)

victim-none : (s : Pages) → Queue s [] → Evicted s []
unfolding fifo_swap_out_victim
victim-none s h = (s, rw (==_ne s.sm_priv 0 h.0, h.2.1, ==_refl s.sm_priv) refl, refl, h)

victim-last :
    (s : Pages) (ws : List ℕ) (p : ℕ) → Queue s (ws ++ (p ∷ [])) → Evicted s (ws ++ (p ∷ []))
unfolding fifo_swap_out_victim
victim-last s ws p h =
    let at-end : s.links.prev s.sm_priv ≡ p =
      (Chain-last s.links s.sm_priv s.sm_priv (ws ++ (p ∷ [])) h.2).0
      ∙ last-append s.sm_priv p ws in
    (
      record s { links = list_del p s.links },
      rw (==_ne s.sm_priv 0 h.0, at-end, take_entry-page s ws p [] h, oldest-append ws p) refl,
      refl,
      rw (without_last-append ws p) (
          subst (Queue (record s { links = list_del p s.links })) (append-nil ws)
            (unlink-Queue s ws p [] h)),
    )

swap_out_victim-Queue : (s : Pages) (ps : List ℕ) → Queue s ps → Evicted s ps
swap_out_victim-Queue s ps h = elim (last-cases ps) [
  | inl e ↦ subst (Evicted s) (sym e) (victim-none s (subst (Queue s) e h))
  | inr (ws, p, e) ↦ subst (Evicted s) (sym e) (victim-last s ws p (subst (Queue s) e h))
]

-- From a queue of the pages `ps`, with pages coming that are not in it, any sequence of calls of
-- fifo_map_swappable and fifo_swap_out_victim passes all assertions; each victim is the page that
-- came first of those still there, or NULL if there is none, and the queue is again that of the
-- pages that are left, in the order in which they came.
pub run_fifo-victims :
    (es : List Event) (s : Pages) (ps : List ℕ)
    → Queue s ps
    → Fresh s.sm_priv es ps
    → (t : Pages) × (run_fifo es s ≡ ok (victims es ps, t)) × Queue t (left es ps)
unfolding run_fifo
run_fifo-victims [] s ps h f = (s, refl, h)
run_fifo-victims (arrive p ∷ es) s ps h f =
    let (t, q, same, g) = map_swappable-Queue s p ps f.0 f.1 h in
    let (u, r, k) =
      run_fifo-victims es t (p ∷ ps) g (subst (λ x. Fresh x es (p ∷ ps)) (sym same) f.2) in
    (u, rw (q, r) refl, k)
run_fifo-victims (evict ∷ es) s ps h f =
    let (t, q, same, g) = swap_out_victim-Queue s ps h in
    let (u, r, k) =
      run_fifo-victims es t (without_last ps) g
        (subst (λ x. Fresh x es (without_last ps)) (sym same) f) in
    (u, rw (q, r) refl, k)

pub fifo_init_mm-Queue : (head : ℕ) (s : Pages) → head ≢ 0 → Queue (fifo_init_mm head s) []
unfolding fifo_init_mm list_init
fifo_init_mm-Queue head s n =
    (n, (tt, tt), (write_self s.links.next head head, write_self s.links.prev head head))
