-- ===== src/Mm/Swap/Clock.antt =====
-- lab3/kern/mm/swap_clock.c: the first page from the old end of the queue that was not visited leaves.
pub mod Sweep
use os_labs.Common.{
  ℕ, zero, suc, Bool, not, ◌&&◌, ◌==◌, if◌then◌else◌, Run, ok, no_fuel, ◌>>=◌, ◌>>◌, assert,
  write_at,
}
use os_labs.Libs.ListEntry.{list_init, list_add, list_del}
use os_labs.Mm.Swap.{Pages}

unfoldable pub clock_init_mm : ℕ → Pages → Pages
clock_init_mm pra_list_head s = record s {
  links = list_init pra_list_head s.links;
  curr_ptr = pra_list_head;
  sm_priv = pra_list_head;
}

-- the page goes behind the head `pra_list_head`, the variable
unfoldable pub clock_map_swappable : ℕ → ℕ → Pages → Run Pages
clock_map_swappable pra_list_head entry s = do
  assert (not (entry == 0) && not (s.curr_ptr == 0))
  ok (record s {
    links = list_add pra_list_head entry s.links;
    visited = write_at s.visited entry 1;
  })

-- `if (page->visited == 1) page->visited = 0`
unfoldable pub second_chance : ℕ → Pages → Pages
second_chance current s =
    if s.visited current == 1 then record s { visited = write_at s.visited current 0 } else s

-- The loop, from `temp`, whose body runs at most as often as the first number says. The entry that it
-- comes to is taken for a page, also if it is the head of the queue.
unfoldable pub clock_loop : ℕ → ℕ → Pages → Run (ℕ × Pages)
unfolding second_chance
clock_loop zero temp s = no_fuel
clock_loop (suc fuel) temp s =
    let current = s.links.prev temp in
    let rest = clock_loop fuel current (second_chance current s) in
    if s.visited current == 0
    then ok (current, record s { links = list_del current s.links })
    else rest

unfoldable pub clock_swap_out_victim : ℕ → ℕ → Pages → Run (ℕ × Pages)
clock_swap_out_victim fuel in_tick s = do
  assert (not (s.sm_priv == 0))
  assert (in_tick == 0)
  clock_loop fuel s.sm_priv s
