-- ===== src/Mm/Swap/Lru.antt =====
-- lab3/kern/mm/swap_lru.c: the page that was mapped longest ago leaves first.
pub mod Order
use os_labs.Common.{ℕ, Bool, not, ◌&&◌, ◌==◌, Option, Run, ok, ◌>>=◌, ◌>>◌, assert}
use os_labs.Libs.ListEntry.{list_init, list_add_before, list_del}
use os_labs.Mm.Swap.{Pages}
use os_labs.Mm.Swap.Fifo.{take_entry}

unfoldable pub lru_init_mm : ℕ → Pages → Pages
lru_init_mm pra_list_head s = record s {
  links = list_init pra_list_head s.links;
  sm_priv = pra_list_head;
}

-- the entry is unlinked first, whether it is in the queue or not
unfoldable pub lru_map_swappable : ℕ → Pages → Run Pages
lru_map_swappable entry s = do
  assert (not (entry == 0) && not (s.sm_priv == 0))
  ok (record s { links = list_add_before s.sm_priv entry (list_del entry s.links) })

unfoldable pub lru_swap_out_victim : ℕ → Pages → Run (Option ℕ × Pages)
lru_swap_out_victim in_tick s = do
  assert (not (s.sm_priv == 0))
  assert (in_tick == 0)
  ok (take_entry (s.links.next s.sm_priv) s)
