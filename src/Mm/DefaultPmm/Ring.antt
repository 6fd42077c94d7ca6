-- ===== src/Mm/DefaultPmm/Ring.antt =====
-- Taking a block out of the free list and putting one in, on the links and on the page descriptors.
use mathlib.Core.Path.{subst}
use os_labs.Common.{ℕ, ◌+◌, ◌^◌, ◌≤◌, ◌<◌, ◌≡◌, sym, List, [], ◌∷◌, ◌++◌, arith, All}
use os_labs.Libs.ListEntry.{Links, list_add, list_del}
use os_labs.Libs.ListEntry.Distinct.{◌∉◌, Distinct, Distinct-remove, All-append, append-All}
use os_labs.Libs.ListEntry.Chain.{Chain, last, Chain-last, Chain-split}
use os_labs.Libs.ListEntry.Add.{list_add-at}
use os_labs.Libs.ListEntry.Del.{list_del-at}
use os_labs.Mm.DefaultPmm.{Page, free_list, page_link}
use os_labs.Mm.DefaultPmm.Blocks.{
  Block, entries, sum_pages, Ordered, IsHead, entries-append, sum_pages-append, Ordered-above,
  Ordered-Distinct, Ordered-lo, Ordered-weaken,
}

abbrev pub Ring : Links → List Block → Type 0
Ring l xs = Chain l free_list (entries xs) free_list

-- the entries of a split list of blocks, with the head of the list in front
pub entries-middle :
    (pre : List Block) (b : Block) (post : List Block)
    → entries (pre ++ (b ∷ post)) ≡ entries pre ++ (page_link b.0 ∷ entries post)
entries-middle pre b post = entries-append pre (b ∷ post)

pub Ordered-entries :
    (pre : List Block) (b : Block) (post : List Block)
    → Ordered 0 (pre ++ (b ∷ post))
    → Distinct (free_list ∷ entries pre ++ (page_link b.0 ∷ entries post))
Ordered-entries pre b post o =
    subst (λ zs. Distinct (free_list ∷ zs)) (entries-middle pre b post)
      (Ordered-above 0 0 _ (omega arith) o, Ordered-Distinct 0 _ o)

-- The block leaves the list.
pub Ring-del :
    (l : Links) (pre : List Block) (b : Block) (post : List Block)
    → Ordered 0 (pre ++ (b ∷ post))
    → Ring l (pre ++ (b ∷ post))
    → Chain (list_del (page_link b.0) l) free_list (entries pre ++ entries post) free_list
Ring-del l pre b post o c =
    list_del-at l free_list (page_link b.0) (entries pre) (entries post)
      (Ordered-entries pre b post o)
      (subst (λ zs. Chain l free_list zs free_list) (entries-middle pre b post) c)

-- Another block comes in its place.
pub Ring-add :
    (l : Links) (pre : List Block) (b : Block) (post : List Block)
    → Ordered 0 (pre ++ (b ∷ post))
    → Chain l free_list (entries pre ++ entries post) free_list
    → Ring (list_add (last free_list (entries pre)) (page_link b.0) l) (pre ++ (b ∷ post))
Ring-add l pre b post o c =
    let d = Ordered-entries pre b post o in
    let (h, hp) = All-append _ (entries pre) (page_link b.0 ∷ entries post) d.0 in
    let (out, d') = Distinct-remove (entries pre) (page_link b.0) (entries post) d.1 in
    subst
      (λ zs.
        Chain (list_add (last free_list (entries pre)) (page_link b.0) l) free_list zs free_list)
      (sym (entries-middle pre b post))
      (list_add-at l free_list (page_link b.0) (entries pre) (entries post)
        ((λ e. hp.0 (sym e)), out) (append-All _ (entries pre) (entries post) h hp.1, d') c)

pub prev-last :
    (l : Links) (pre : List Block) (b : Block) (post : List Block)
    → Ring l (pre ++ (b ∷ post))
    → l.prev (page_link b.0) ≡ last free_list (entries pre)
prev-last l pre b post c =
    let c' = subst (λ zs. Chain l free_list zs free_list) (entries-middle pre b post) c in
    (Chain-last l free_list (page_link b.0) (entries pre)
      (Chain-split l free_list (page_link b.0) free_list (entries pre) (entries post) c').0).0

pub Ordered-apart :
    (pre : List Block) (b : Block) (post : List Block)
    → Ordered 0 (pre ++ (b ∷ post))
    → page_link b.0 ∉ entries (pre ++ post)
Ordered-apart pre b post o =
    subst (λ zs. page_link b.0 ∉ zs) (sym (entries-append pre post))
      (Distinct-remove (entries pre) (page_link b.0) (entries post)
        (Ordered-entries pre b post o).1).0

-- A block of the right shape in the middle of others that have it.
pub heads-middle :
    (page : ℕ → Page) (pre : List Block) (b : Block) (post : List Block)
    → IsHead page b
    → All (IsHead page) (pre ++ post)
    → All (IsHead page) (pre ++ (b ∷ post))
heads-middle page pre b post h hs =
    let (p, q) = All-append _ pre post hs in append-All _ pre (b ∷ post) p (h, q)

pub heads-others :
    (page : ℕ → Page) (pre : List Block) (b : Block) (post : List Block)
    → All (IsHead page) (pre ++ (b ∷ post))
    → IsHead page b × All (IsHead page) (pre ++ post)
heads-others page pre b post hs =
    let (p, q) = All-append _ pre (b ∷ post) hs in (q.0, append-All _ pre post p q.1)

pub sum_pages-middle :
    (pre : List Block) (b : Block) (post : List Block)
    → sum_pages (pre ++ (b ∷ post)) ≡ sum_pages (pre ++ post) + b.1
sum_pages-middle pre b post =
    omega (arith, sum_pages-append pre (b ∷ post), sum_pages-append pre post)

pub Ordered-bound :
    (lo : ℕ) (pre : List Block) (b : Block) (post : List Block)
    → Ordered lo (pre ++ (b ∷ post))
    → (lo ≤ b.0) × (0 < b.1) × (b.0 + b.1 < 2 ^ 32)
Ordered-bound lo [] b post o = (o.0, o.1, Ordered-lo _ post o.2)
Ordered-bound lo (a ∷ pre) b post o =
    let (p, q, r) = Ordered-bound (a.0 + a.1) pre b post o.2 in (omega arith, q, r)

pub Ordered-drop :
    (lo : ℕ) (pre : List Block) (b : Block) (post : List Block)
    → Ordered lo (pre ++ (b ∷ post))
    → Ordered lo (pre ++ post)
Ordered-drop lo [] b post o = Ordered-weaken (b.0 + b.1) lo post (omega arith) o.2
Ordered-drop lo (a ∷ pre) b post o = (o.0, o.1, Ordered-drop (a.0 + a.1) pre b post o.2)
