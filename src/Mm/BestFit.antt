-- ===== src/Mm/BestFit.antt =====
-- lab2/kern/mm/best_fit_pmm.c: the best-fit manager of physical pages. Its state and its handling of
-- blocks that come in are those of the first-fit manager, line for line; it searches another way.
pub mod Search
mod Tests
use os_labs.Common.{
  ℕ, zero, suc, ◌+◌, ◌&&◌, Option, none, some, ◌==◌, ltb, leb, if◌then◌else◌, Run, ok, no_fuel,
  ◌>>=◌, ◌>>◌, assert,
}
use os_labs.Mm.DefaultPmm
use os_labs.Mm.DefaultPmm.{FreeArea, free_list, le2page, take_block, u32}

unfoldable pub best_fit_init : FreeArea → FreeArea
best_fit_init s = DefaultPmm.init s

unfoldable pub best_fit_init_memmap : ℕ → ℕ → ℕ → FreeArea → Run FreeArea
best_fit_init_memmap fuel base n s = DefaultPmm.init_memmap fuel base n s

-- the loop over the whole list, with the size and the page of the best block so far
unfoldable pub find_best : ℕ → ℕ → ℕ → ℕ → Option ℕ → FreeArea → Run (Option ℕ)
find_best zero n le min_size page s = no_fuel
find_best (suc fuel) n le min_size page s =
    let le' = s.links.next le in
    let size = (s.page (le2page le')).property in
    let better = leb n size && ltb size min_size in
    let rest =
      find_best fuel n le' (if better then size else min_size)
        (if better then some (le2page le') else page) s in
    if le' == free_list then ok page else rest

unfoldable pub best_fit_alloc_pages : ℕ → ℕ → FreeArea → Run (Option ℕ × FreeArea)
unfolding find_best
best_fit_alloc_pages fuel n s = do
  assert (ltb 0 n)
  if ltb s.nr_free n
      then ok (none, s)
      else find_best fuel n free_list (u32 (s.nr_free + 1)) none s >>= λ page.
          ok (page, take_block n page s)

unfoldable pub best_fit_free_pages : ℕ → ℕ → ℕ → FreeArea → Run FreeArea
best_fit_free_pages fuel base n s = DefaultPmm.free_pages fuel base n s

unfoldable pub best_fit_nr_free_pages : FreeArea → ℕ
best_fit_nr_free_pages s = s.nr_free
