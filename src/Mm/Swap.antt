-- ===== src/Mm/Swap.antt =====
-- lab3/kern/mm: which page leaves memory next. The three managers link the pages of an address space
-- in one queue; a page is named by the address of its `pra_page_link`.
pub mod Queue
pub mod Fifo
pub mod Lru
pub mod Clock
mod Tests
use os_labs.Common.{ℕ}
use os_labs.Libs.ListEntry.{Links}

-- the links of all entries, the field `sm_priv` of the address space, the variable `curr_ptr`, and the
-- field `visited` of the structure around each entry
pub record Pages : Type 0 where
  pub links : Links
  pub sm_priv : ℕ
  pub curr_ptr : ℕ
  pub visited : ℕ → ℕ
