-- ===== src/Mm/Swap/Lru/Order.antt =====
-- The queue of swap_lru.c keeps the pages in the order of their last mapping.
use mathlib.Core.List.{append-nil}
use os_labs.Common.{ℕ, ◌≡◌, ◌≢◌, refl, List, [], ◌∷◌, ◌++◌, some, ok, ==_ne}
use os_labs.Libs.ListEntry.{Links, list_add, list_add_before, list_del}
use os_labs.Libs.ListEntry.Distinct.{◌∉◌, Distinct-remove, Distinct-snoc}
use os_labs.Libs.ListEntry.Chain.{Chain, last, Chain-last}
use os_labs.Libs.ListEntry.Add.{list_add-at}
use os_labs.Mm.Swap.{Pages}
use os_labs.Mm.Swap.Queue.{Queue, unlink-Queue, take_entry-page}
use os_labs.Mm.Swap.Lru.{lru_map_swappable, lru_swap_out_victim}

-- In front of the head is behind the last entry.
add_before-head :
    (m : Links) (head p : ℕ) (ps : List ℕ)
    → Chain m head ps head
    → list_add_before head p m ≡ list_add (last head ps) p m
unfolding list_add_before list_add
add_before-head m head p ps c = let (e, n) = Chain-last m head head ps c in rw (e, n) refl

-- A page comes to the end.
add_last-Queue :
    (s : Pages) (p : ℕ) (ps : List ℕ)
    → p ∉ (s.sm_priv ∷ ps)
    → Queue s ps
    → Queue (record s { links = list_add_before s.sm_priv p s.links }) (ps ++ (p ∷ []))
add_last-Queue s p ps out (nh, d, c) =
    let e : ps ++ [] ≡ ps = append-nil ps in
    (
      nh,
      Distinct-snoc (s.sm_priv ∷ ps) p d out,
      rw (add_before-head s.links s.sm_priv p ps c)
          (list_add-at s.links s.sm_priv p ps [] (rw e out) (rw e d) (rw e c)),
    )

-- Mapping a page of the queue again moves it to the end: the pages before and behind it stay in
-- their order and move up. The assertion holds for a page that is not NULL.
pub lru_map_swappable-Queue :
    (s : Pages) (ws : List ℕ) (p : ℕ) (vs : List ℕ)
    → p ≢ 0
    → Queue s (ws ++ (p ∷ vs))
    → (t : Pages) × (lru_map_swappable p s ≡ ok t) × Queue t ((ws ++ vs) ++ (p ∷ []))
unfolding lru_map_swappable
lru_map_swappable-Queue s ws p vs np h = (
  record s { links = list_add_before s.sm_priv p (list_del p s.links) },
  rw (==_ne p 0 np, ==_ne s.sm_priv 0 h.0) refl,
  add_last-Queue (record s { links = list_del p s.links }) p (ws ++ vs)
      (Distinct-remove (s.sm_priv ∷ ws) p vs h.1).0 (unlink-Queue s ws p vs h),
)

-- The page that leaves is the first.
pub lru_swap_out_victim-first :
    (s : Pages) (p : ℕ) (ps : List ℕ)
    → Queue s (p ∷ ps)
    → (t : Pages) × (lru_swap_out_victim 0 s ≡ ok (some p, t)) × Queue t ps
unfolding lru_swap_out_victim
lru_swap_out_victim-first s p ps h = (
  record s { links = list_del p s.links },
  rw (==_ne s.sm_priv 0 h.0, h.2.0, take_entry-page s [] p ps h) refl,
  unlink-Queue s [] p ps h,
)
