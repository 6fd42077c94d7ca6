-- ===== src/Mm/DefaultPmm.antt =====
-- lab8/kern/mm/default_pmm.c: the first-fit manager of physical pages, on the linked list of list.h.
-- A `struct Page *` is the index of the page; the `page_link` of page p has the address p + 1, and
-- the head `free_list` the address 0, so that list addresses compare as pages do.
pub mod Blocks
pub mod Ring
pub mod Take
pub mod Alloc
pub mod Append
mod Tests
pub mod Free
pub mod Release
pub mod Put
pub mod Reset
pub mod Insert
pub mod Join
use os_labs.Common.{
  ℕ, zero, suc, ◌+◌, ◌-◌, ◌%◌, ◌^◌, Bool, true, false, not, ◌&&◌, Option, none, some, ◌==◌, ltb,
  leb, if◌then◌else◌, Run, ok, panic, no_fuel, ◌>>=◌, ◌>>◌, assert,
}
use os_labs.Libs.ListEntry.{Links, list_init, list_add, list_add_before, list_del, list_empty}

-- `struct Page`, with the two bits of `flags` that are defined.
pub record Page : Type 0 where
  pub ref : ℕ
  pub reserved : Bool
  pub is_property : Bool
  pub property : ℕ

-- `free_area_t`, with the page array and the memory that the links lie in.
pub record FreeArea : Type 0 where
  pub links : Links
  pub nr_free : ℕ
  pub page : ℕ → Page

abbrev pub free_list : ℕ
free_list = 0

abbrev pub page_link : ℕ → ℕ
page_link p = suc p

-- `le2page`; the head of the list belongs to no page
abbrev pub le2page : ℕ → ℕ
le2page zero = 0
le2page (suc p) = p

-- `property` and `nr_free` are `unsigned int`
abbrev pub u32 : ℕ → ℕ
u32 n = n % 2 ^ 32

unfoldable pub write_page : (ℕ → Page) → ℕ → Page → ℕ → Page
write_page f p v q = if q == p then v else f q

-- a `struct Page` changed in place
abbrev pub update : ℕ → (Page → Page) → FreeArea → FreeArea
update p f s = record s { page = write_page s.page p (f (s.page p)) }

abbrev pub relink : (Links → Links) → FreeArea → FreeArea
relink f s = record s { links = f s.links }

abbrev pub set_property : Page → Page
set_property p = record p { is_property = true }

abbrev pub clear_property : Page → Page
clear_property p = record p { is_property = false }

-- `default_init`
unfoldable pub init : FreeArea → FreeArea
init s = record s { links = list_init free_list s.links; nr_free = 0 }

-- the first loop of `default_init_memmap`, over `n` pages from `p`
unfoldable pub reset_reserved : ℕ → ℕ → FreeArea → Run FreeArea
reset_reserved zero p s = ok s
reset_reserved (suc n) p s =
    let rest =
      reset_reserved n (suc p) (
        update p (λ _. record { ref = 0; reserved = false; is_property = false; property = 0 })
          s) in
    if (s.page p).reserved then rest else panic

-- the first loop of `default_free_pages`; it leaves `property` alone
unfoldable pub reset_used : ℕ → ℕ → FreeArea → Run FreeArea
reset_used zero p s = ok s
reset_used (suc n) p s =
    let rest =
      reset_used n (suc p)
        (update p (λ q. record q { ref = 0; reserved = false; is_property = false }) s) in
    if not (s.page p).reserved && not (s.page p).is_property then rest else panic

-- the loop that looks for the place of `base`; behind the last entry it links `base` and goes on
unfoldable pub insert_loop : ℕ → ℕ → ℕ → Links → Run Links
insert_loop zero base le l = no_fuel
insert_loop (suc fuel) base le l =
    let le' = l.next le in
    let l' = if l.next le' == free_list then list_add le' (page_link base) l else l in
    let rest = insert_loop fuel base le' l' in
    if le' == free_list
    then ok l
    else if ltb base (le2page le')
    then ok (list_add_before le' (page_link base) l)
    else rest

unfoldable pub insert : ℕ → ℕ → Links → Run Links
unfolding insert_loop
insert fuel base l =
    if list_empty free_list l
    then ok (list_add free_list (page_link base) l)
    else insert_loop fuel base free_list l

-- what both routines do to `base` once its pages are reset, up to the link into the list
abbrev pub head_block : ℕ → ℕ → FreeArea → FreeArea
head_block base n s =
    let s' = update base (λ p. set_property (record p { property = u32 n })) s in
    record s' { nr_free = u32 (s'.nr_free + n) }

unfoldable pub init_memmap : ℕ → ℕ → ℕ → FreeArea → Run FreeArea
unfolding insert reset_reserved
init_memmap fuel base n s = do
  assert (ltb 0 n)
  s' ← reset_reserved n base s
  let s'' = head_block base n s'
  l ← insert fuel base s''.links
  ok (record s'' { links = l })

-- the search loop of `default_alloc_pages`, going on from the entry `le`
unfoldable pub find_fit : ℕ → ℕ → ℕ → FreeArea → Run (Option ℕ)
find_fit zero n le s = no_fuel
find_fit (suc fuel) n le s =
    let le' = s.links.next le in
    let rest = find_fit fuel n le' s in
    if le' == free_list
    then ok none
    else if leb n (s.page (le2page le')).property
    then ok (some (le2page le'))
    else rest

-- the block that was found leaves the list, and what is left of it takes its place
unfoldable pub take_block : ℕ → Option ℕ → FreeArea → FreeArea
take_block n none s = s
take_block n (some page) s =
    let prev = s.links.prev (page_link page) in
    let s₁ = relink (list_del (page_link page)) s in
    let p = page + n in
    let left = (s₁.page page).property - n in
    let s₂ =
      if ltb n (s₁.page page).property
      then relink (list_add prev (page_link p))
          (update p (λ q. set_property (record q { property = u32 left })) s₁)
      else s₁ in
    update page clear_property (record s₂ { nr_free = s₂.nr_free - n })

unfoldable pub alloc_pages : ℕ → ℕ → FreeArea → Run (Option ℕ × FreeArea)
unfolding find_fit take_block
alloc_pages fuel n s = do
  assert (ltb 0 n)
  if ltb s.nr_free n
      then ok (none, s)
      else find_fit fuel n free_list s >>= λ page. ok (page, take_block n page s)

-- `default_free_pages` after the insertion: join with the block before, which is then the base
unfoldable pub join_before : ℕ → FreeArea → ℕ × FreeArea
join_before base s =
    let le = s.links.prev (page_link base) in
    let p = le2page le in
    let joined = relink (list_del (page_link base)) (
      update base clear_property
        (update p (λ q. record q { property = u32 (q.property + (s.page base).property) }) s)) in
    if not (le == free_list) && (p + (s.page p).property == base) then (p, joined) else (base, s)

-- and with the block behind
unfoldable pub join_after : ℕ → FreeArea → FreeArea
join_after base s =
    let le = s.links.next (page_link base) in
    let p = le2page le in
    let joined = relink (list_del (page_link p)) (
      update p clear_property
        (update base (λ q. record q { property = u32 (q.property + (s.page p).property) }) s)) in
    if not (le == free_list) && (base + (s.page base).property == p) then joined else s

unfoldable pub free_pages : ℕ → ℕ → ℕ → FreeArea → Run FreeArea
unfolding insert reset_used join_before join_after
free_pages fuel base n s = do
  assert (ltb 0 n)
  s' ← reset_used n base s
  let s'' = head_block base n s'
  l ← insert fuel base s''.links
  let (base', t) = join_before base (record s'' { links = l })
  ok (join_after base' t)

unfoldable pub nr_free_pages : FreeArea → ℕ
nr_free_pages s = s.nr_free
