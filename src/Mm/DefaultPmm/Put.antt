-- ===== src/Mm/DefaultPmm/Put.antt =====
-- A block whose pages were reset and that is linked in its place makes the list longer by that block.
use mathlib.Core.Path.{subst}
use os_labs.Common.{ℕ, ◌+◌, ◌^◌, ◌<◌, sym, List, [], ◌∷◌, ◌++◌, arith}
use os_labs.Libs.ListEntry.{Links, list_add_before}
use os_labs.Libs.ListEntry.Distinct.{Distinct-remove, All-append, append-All}
use os_labs.Libs.ListEntry.Chain.{Chain}
use os_labs.Libs.ListEntry.Add.{list_add_before-at}
use os_labs.Mm.DefaultPmm.{FreeArea, free_list, page_link, write_page, head_block}
use os_labs.Mm.DefaultPmm.Blocks.{
  Block, entries, Ordered, IsHead, Holds, heads-write_page, Ordered-sum,
}
use os_labs.Mm.DefaultPmm.Ring.{
  Ring, entries-middle, Ordered-entries, Ordered-apart, Ordered-bound, heads-middle,
  sum_pages-middle,
}
use os_labs.Mm.DefaultPmm.Insert.{Below}
use os_labs.Mm.DefaultPmm.Reset.{Kept, heads-Kept, Ordered-outside}

head_block-IsHead :
    (base n : ℕ) (s : FreeArea) → n < 2 ^ 32 → IsHead (head_block base n s).page (base, n)
unfolding write_page
head_block-IsHead base n s small = ground arith

pub put-Holds :
    (s t : FreeArea) (l : Links) (b : Block) (pre post : List Block)
    → Holds s (pre ++ post)
    → Kept b.0 b.1 s t
    → Ordered 0 (pre ++ (b ∷ post))
    → Ring l (pre ++ (b ∷ post))
    → Holds (record (head_block b.0 b.1 t) { links = l }) (pre ++ (b ∷ post))
put-Holds s t l b pre post h k ord ring = record {
  chain = ring;
  heads =
      heads-middle (head_block b.0 b.1 t).page pre b post
        (head_block-IsHead b.0 b.1 t (omega (arith, Ordered-bound 0 pre b post ord)))
        (heads-write_page t.page b.0 _ (pre ++ post) (Ordered-apart pre b post ord)
          (heads-Kept b.0 b.1 s t (pre ++ post) k (Ordered-outside 0 pre b post ord) h.heads));
  total = omega (
    arith,
    h.total,
    k.nr_free,
    sum_pages-middle pre b post,
    Ordered-sum 0 (pre ++ (b ∷ post)) ord,
  );
  ordered = ord;
}

-- `list_add_before` at the block that comes next
pub Ring-add_before :
    (l : Links) (pre : List Block) (b c : Block) (post : List Block)
    → Ordered 0 (pre ++ (b ∷ c ∷ post))
    → Ring l (pre ++ (c ∷ post))
    → Ring (list_add_before (page_link c.0) (page_link b.0) l) (pre ++ (b ∷ c ∷ post))
Ring-add_before l pre b c post o h =
    let d = Ordered-entries pre b (c ∷ post) o in
    let (hx, hp) = All-append _ (entries pre) (page_link b.0 ∷ entries (c ∷ post)) d.0 in
    let (out, d') = Distinct-remove (entries pre) (page_link b.0) (entries (c ∷ post)) d.1 in
    subst (λ zs. Chain (list_add_before (page_link c.0) (page_link b.0) l) free_list zs free_list)
      (sym (entries-middle pre b (c ∷ post)))
      (list_add_before-at l free_list (page_link b.0) (page_link c.0) (entries pre) (entries post)
        ((λ e. hp.0 (sym e)), out) (append-All _ (entries pre) (entries (c ∷ post)) hx hp.1, d')
        (subst (λ zs. Chain l free_list zs free_list) (entries-middle pre c post) h))

pub Ordered-Below :
    (lo : ℕ) (pre : List Block) (b : Block) (post : List Block)
    → Ordered lo (pre ++ (b ∷ post))
    → Below b.0 pre
Ordered-Below lo [] b post o = tt
Ordered-Below lo (a ∷ pre) b post o = (
  omega (arith, Ordered-bound (a.0 + a.1) pre b post o.2),
  Ordered-Below (a.0 + a.1) pre b post o.2,
)
