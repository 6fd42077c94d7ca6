-- ===== src/Mm/Swap/Queue.antt =====
-- The queue of pages as a list, and taking the page at either end out of it.
use os_labs.Common.{ℕ, ◌≡◌, ◌≢◌, refl, List, ◌∷◌, ◌++◌, some, ==_ne}
use os_labs.Libs.ListEntry.{list_del}
use os_labs.Libs.ListEntry.Distinct.{Distinct, All-append, Distinct-remove}
use os_labs.Libs.ListEntry.Del.{list_del-at}
use os_labs.Mm.Swap.Fifo.{take_entry}
use os_labs.Libs.ListEntry.Chain.{Chain}
use os_labs.Mm.Swap.{Pages}

-- From the head of the queue, which is not NULL, the entries `ps` follow, and lead back.
abbrev pub Queue : Pages → List ℕ → Type 0
Queue s ps = (s.sm_priv ≢ 0) × Distinct (s.sm_priv ∷ ps) × Chain s.links s.sm_priv ps s.sm_priv

pub Queue-ne :
    (s : Pages) (ws : List ℕ) (x : ℕ) (vs : List ℕ) → Queue s (ws ++ (x ∷ vs)) → x ≢ s.sm_priv
Queue-ne s ws x vs (nh, d, c) = (All-append _ ws (x ∷ vs) d.0).1.0

-- A page is unlinked from any place of the queue.
pub unlink-Queue :
    (s : Pages) (ws : List ℕ) (x : ℕ) (vs : List ℕ)
    → Queue s (ws ++ (x ∷ vs))
    → Queue (record s { links = list_del x s.links }) (ws ++ vs)
unlink-Queue s ws x vs (nh, d, c) =
    (nh, (Distinct-remove (s.sm_priv ∷ ws) x vs d).1, list_del-at s.links s.sm_priv x ws vs d c)

pub take_entry-page :
    (s : Pages) (ws : List ℕ) (x : ℕ) (vs : List ℕ)
    → Queue s (ws ++ (x ∷ vs))
    → take_entry x s ≡ (some x, record s { links = list_del x s.links })
take_entry-page s ws x vs h = rw (==_ne x s.sm_priv (Queue-ne s ws x vs h)) refl
