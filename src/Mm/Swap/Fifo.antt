-- ===== src/Mm/Swap/Fifo.antt =====
-- lab3/kern/mm/swap_fifo.c: the page that came first leaves first.
pub mod Order
use os_labs.Common.{
  ℕ, Bool, not, ◌&&◌, ◌==◌, if◌then◌else◌, Option, none, some, Run, ok, ◌>>=◌, ◌>>◌, assert,
}
use os_labs.Libs.ListEntry.{list_init, list_add, list_del}
use os_labs.Mm.Swap.{Pages}

unfoldable pub fifo_init_mm : ℕ → Pages → Pages
fifo_init_mm pra_list_head s = record s {
  links = list_init pra_list_head s.links;
  sm_priv = pra_list_head;
}

unfoldable pub fifo_map_swappable : ℕ → Pages → Run Pages
fifo_map_swappable entry s = do
  assert (not (entry == 0) && not (s.sm_priv == 0))
  ok (record s { links = list_add s.sm_priv entry s.links })

-- `entry` is the last of the queue, or its head; the page in `*ptr_page`, or NULL
abbrev pub take_entry : ℕ → Pages → Option ℕ × Pages
take_entry entry s =
    if not (entry == s.sm_priv)
    then (some entry, record s { links = list_del entry s.links })
    else (none, s)

unfoldable pub fifo_swap_out_victim : ℕ → Pages → Run (Option ℕ × Pages)
fifo_swap_out_victim in_tick s = do
  assert (not (s.sm_priv == 0))
  assert (in_tick == 0)
  ok (take_entry (s.links.prev s.sm_priv) s)
