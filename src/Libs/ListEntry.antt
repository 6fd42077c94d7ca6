-- ===== src/Libs/ListEntry.antt =====
-- lab8/libs/list.h: the doubly linked list that every kernel queue is built from.
-- An address of a `list_entry_t` is a number; the memory holds both pointers of every entry.
pub mod Distinct
pub mod Chain
pub mod Add
pub mod Del
use os_labs.Common.{ℕ, Bool, ◌==◌, if◌then◌else◌}

pub record Links : Type 0 where
  pub next : ℕ → ℕ
  pub prev : ℕ → ℕ

-- a pointer field written at one address
unfoldable pub write : (ℕ → ℕ) → ℕ → ℕ → ℕ → ℕ
write f a v b = if b == a then v else f b

abbrev pub set_next : ℕ → ℕ → Links → Links
set_next a v m = record m { next = write m.next a v }

abbrev pub set_prev : ℕ → ℕ → Links → Links
set_prev a v m = record m { prev = write m.prev a v }

unfoldable pub list_init : ℕ → Links → Links
list_init elm m = set_prev elm elm (set_next elm elm m)

-- `__list_add`: the four writes in the order of the source
unfoldable pub list_link : ℕ → ℕ → ℕ → Links → Links
list_link elm prev next m =
    set_prev elm prev (set_next elm next (set_next prev elm (set_prev next elm m)))

-- `__list_del`
unfoldable pub list_unlink : ℕ → ℕ → Links → Links
list_unlink prev next m = set_prev next prev (set_next prev next m)

unfoldable pub list_add_after : ℕ → ℕ → Links → Links
unfolding list_link
list_add_after listelm elm m = list_link elm listelm (m.next listelm) m

unfoldable pub list_add : ℕ → ℕ → Links → Links
unfolding list_add_after
list_add listelm elm m = list_add_after listelm elm m

unfoldable pub list_add_before : ℕ → ℕ → Links → Links
unfolding list_link
list_add_before listelm elm m = list_link elm (m.prev listelm) listelm m

unfoldable pub list_del : ℕ → Links → Links
unfolding list_unlink
list_del listelm m = list_unlink (m.prev listelm) (m.next listelm) m

unfoldable pub list_del_init : ℕ → Links → Links
unfolding list_del list_init
list_del_init listelm m = list_init listelm (list_del listelm m)

unfoldable pub list_empty : ℕ → Links → Bool
list_empty list m = m.next list == list
