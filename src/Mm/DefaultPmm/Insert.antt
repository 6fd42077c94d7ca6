-- ===== src/Mm/DefaultPmm/Insert.antt =====
-- The loop that `default_init_memmap` and `default_free_pages` share: it looks for the place of a block.
use os_labs.Common.{
  ℕ, zero, suc, ◌+◌, ◌≤◌, ◌<◌, ◌≡◌, refl, ◌∙◌, List, [], ◌∷◌, ◌++◌, arith, All, length, le→ltb,
  lt→ltb, suc-eq-zero, ok,
}
use os_labs.Libs.ListEntry.{Links, list_add, list_add_before, list_empty, write}
use os_labs.Libs.ListEntry.Chain.{Chain}
use os_labs.Mm.DefaultPmm.{free_list, page_link, insert_loop, insert}
use os_labs.Mm.DefaultPmm.Blocks.{Block, entries}
use os_labs.Mm.DefaultPmm.Ring.{Ring}

-- one round at an entry that is not the last, of a page below `base`
insert_loop-below :
    (fuel base le a q : ℕ) (l : Links)
    → l.next le ≡ suc a
    → a ≤ base
    → l.next (suc a) ≡ suc q
    → insert_loop (suc fuel) base le l ≡ insert_loop fuel base (suc a) l
unfolding insert_loop
insert_loop-below fuel base le a q l e lt n =
    rw (e, n, suc-eq-zero a, suc-eq-zero q, le→ltb base a lt) refl

-- the round that finds a page above `base`
insert_loop-above :
    (fuel base le c : ℕ) (l : Links)
    → l.next le ≡ suc c
    → base < c
    → insert_loop (suc fuel) base le l ≡ ok (list_add_before (page_link c) (page_link base) l)
unfolding insert_loop
insert_loop-above fuel base le c l e lt = rw (e, suc-eq-zero c, lt→ltb base c lt) refl

-- the round at the last entry: the new one is linked behind it, and the loop goes on
insert_loop-last :
    (fuel base le a : ℕ) (l : Links)
    → l.next le ≡ suc a
    → a ≤ base
    → l.next (suc a) ≡ free_list
    → insert_loop (suc fuel) base le l
      ≡ insert_loop fuel base (suc a) (list_add (suc a) (page_link base) l)
unfolding insert_loop
insert_loop-last fuel base le a l e lt n = rw (e, n, suc-eq-zero a, le→ltb base a lt) refl

insert_loop-end :
    (fuel base le : ℕ) (l : Links) → l.next le ≡ free_list → insert_loop (suc fuel) base le l ≡ ok l
unfolding insert_loop
insert_loop-end fuel base le l e = rw e refl

abbrev pub Below : ℕ → List Block → Type 0
Below base xs = All (λ (b : Block). b.0 ≤ base) xs

insert_loop-between :
    (fuel base le : ℕ) (l : Links) (pre : List Block) (c : Block) (post : List Block)
    → Chain l le (entries (pre ++ (c ∷ post))) free_list
    → Below base pre
    → base < c.0
    → length pre < fuel
    → insert_loop fuel base le l ≡ ok (list_add_before (page_link c.0) (page_link base) l)
insert_loop-between zero base le l pre c post h b lt f = absurd (omega arith)
insert_loop-between (suc fuel) base le l [] c post h b lt f =
    insert_loop-above fuel base le c.0 l h.0 lt
insert_loop-between (suc fuel) base le l (a ∷ []) c post h b lt f =
    insert_loop-below fuel base le a.0 c.0 l h.0 b.0 h.2.0
    ∙ insert_loop-between fuel base (suc a.0) l [] c post h.2 tt lt (omega arith)
insert_loop-between (suc fuel) base le l (a ∷ d ∷ pre) c post h b lt f =
    insert_loop-below fuel base le a.0 d.0 l h.0 b.0 h.2.0
    ∙ insert_loop-between fuel base (suc a.0) l (d ∷ pre) c post h.2 b.1 lt (omega arith)

-- When a block lies above `base`, the new entry comes before the first such block.
pub insert-between :
    (fuel base : ℕ) (l : Links) (pre : List Block) (c : Block) (post : List Block)
    → Ring l (pre ++ (c ∷ post))
    → Below base pre
    → base < c.0
    → length pre < fuel
    → insert fuel base l ≡ ok (list_add_before (page_link c.0) (page_link base) l)
unfolding insert list_empty
insert-between fuel base l [] c post h b lt f =
    rw (h.0, suc-eq-zero c.0) (insert_loop-between fuel base free_list l [] c post h b lt f)
insert-between fuel base l (a ∷ pre) c post h b lt f =
    rw (h.0, suc-eq-zero a.0) (insert_loop-between fuel base free_list l (a ∷ pre) c post h b lt f)

pub insert-empty :
    (fuel base : ℕ) (l : Links)
    → Ring l []
    → insert fuel base l ≡ ok (list_add free_list (page_link base) l)
unfolding insert list_empty
insert-empty fuel base l h = rw h.0 refl

-- What the loop leaves when every block lies below `base`: the entry is linked twice, the second
-- time behind itself.
abbrev pub twice_linked : ℕ → ℕ → Links → Links
twice_linked base a l =
    list_add (page_link base) (page_link base) (list_add (page_link a) (page_link base) l)

-- the pointers behind an entry that is linked to the end, and linked once more
list_add-next :
    (a b : ℕ) (l : Links)
    → a < b
    → l.next a ≡ free_list
    → ((list_add a b l).next a ≡ b) × ((list_add a b l).next b ≡ free_list)
unfolding list_add write
list_add-next a b l lt e = ground arith

list_add-next_self :
    (b : ℕ) (l : Links) → l.next b ≡ free_list → (list_add b b l).next b ≡ free_list
unfolding list_add write
list_add-next_self b l e = ground arith

insert_loop-append :
    (fuel base le : ℕ) (l : Links) (pre : List Block) (a : Block)
    → Chain l le (entries (pre ++ (a ∷ []))) free_list
    → Below base pre
    → a.0 < base
    → length pre + 3 ≤ fuel
    → insert_loop fuel base le l ≡ ok (twice_linked base a.0 l)
insert_loop-append zero base le l pre a h b lt f = absurd (omega arith)
insert_loop-append (suc zero) base le l [] a h b lt f = absurd (omega arith)
insert_loop-append (suc (suc zero)) base le l [] a h b lt f = absurd (omega arith)
insert_loop-append (suc (suc (suc fuel))) base le l [] a h b lt f =
    let once = list_add-next (suc a.0) (suc base) l (omega arith) h.2.0 in
    let twice = list_add-next_self (suc base) (list_add (suc a.0) (page_link base) l) once.1 in
    insert_loop-last (suc (suc fuel)) base le a.0 l h.0 (omega arith) h.2.0
    ∙ insert_loop-last (suc fuel) base (suc a.0) base _ once.0 (omega arith) once.1
    ∙ insert_loop-end fuel base (suc base) _ twice
insert_loop-append (suc fuel) base le l (c ∷ []) a h b lt f =
    insert_loop-below fuel base le c.0 a.0 l h.0 b.0 h.2.0
    ∙ insert_loop-append fuel base (suc c.0) l [] a h.2 tt lt (omega arith)
insert_loop-append (suc fuel) base le l (c ∷ d ∷ pre) a h b lt f =
    insert_loop-below fuel base le c.0 d.0 l h.0 b.0 h.2.0
    ∙ insert_loop-append fuel base (suc c.0) l (d ∷ pre) a h.2 b.1 lt (omega arith)

-- When every block lies below `base`, the routine ends with an entry that was linked twice.
pub insert-append :
    (fuel base : ℕ) (l : Links) (pre : List Block) (a : Block)
    → Ring l (pre ++ (a ∷ []))
    → Below base pre
    → a.0 < base
    → length pre + 3 ≤ fuel
    → insert fuel base l ≡ ok (twice_linked base a.0 l)
unfolding insert list_empty
insert-append fuel base l [] a h b lt f =
    rw (h.0, suc-eq-zero a.0) (insert_loop-append fuel base free_list l [] a h b lt f)
insert-append fuel base l (c ∷ pre) a h b lt f =
    rw (h.0, suc-eq-zero c.0) (insert_loop-append fuel base free_list l (c ∷ pre) a h b lt f)
