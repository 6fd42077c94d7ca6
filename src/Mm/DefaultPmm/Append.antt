-- ===== src/Mm/DefaultPmm/Append.antt =====
-- `default_free_pages` where every free block lies below the one that comes back. The loop links the
-- new entry behind the last one and then, going on, links it behind itself.
use mathlib.Core.Path.{subst}
use os_labs.Common.{
  ℕ, ◌+◌, ◌^◌, ◌≤◌, ◌<◌, ◌≡◌, sym, ap, ◌∙◌, inl, List, [], ◌∷◌, ◌++◌, arith, length, lt→ltb, ok,
}
use os_labs.Libs.ListEntry.{Links, list_add, list_del, write}
use os_labs.Libs.ListEntry.Chain.{Chain, Chain-split}
use os_labs.Mm.DefaultPmm.{
  FreeArea, free_list, page_link, write_page, head_block, free_pages, join_before,
}
use os_labs.Mm.DefaultPmm.Join.{join_after-last}
use os_labs.Mm.DefaultPmm.Blocks.{Block, Ordered, Holds, entries}
use os_labs.Mm.DefaultPmm.Ring.{Ring, Ordered-bound, entries-middle, heads-others}
use os_labs.Mm.DefaultPmm.Insert.{Below, twice_linked, insert-append}
use os_labs.Mm.DefaultPmm.Reset.{Kept, Used, reset_used-Kept}

-- the pointers of an entry that is linked behind `a` and once more behind itself
twice_linked-ends :
    (base a : ℕ) (l : Links)
    → a < base
    → l.next (page_link a) ≡ free_list
    → ((twice_linked base a l).next (page_link base) ≡ free_list)
      × ((twice_linked base a l).prev (page_link base) ≡ page_link base)
      × ((twice_linked base a l).next (page_link a) ≡ page_link base)
unfolding list_add write
twice_linked-ends base a l lt e = ground arith

-- An entry that is its own predecessor stays where it is.
self-list_del : (b : ℕ) (l : Links) → l.prev b ≡ b → (q : ℕ) → (list_del b l).next q ≡ l.next q
unfolding list_del write
self-list_del b l e q = ground arith

next-last :
    (l : Links) (pre : List Block) (a : Block)
    → Ring l (pre ++ (a ∷ []))
    → l.next (page_link a.0) ≡ free_list
next-last l pre a h =
    (Chain-split l free_list (page_link a.0) free_list (entries pre) []
      (subst (λ zs. Chain l free_list zs free_list) (entries-middle pre a []) h)).1.0

join_before_self :
    (s : FreeArea) (base n : ℕ)
    → s.links.prev (page_link base) ≡ page_link base
    → (s.page base).property ≡ n
    → 0 < n
    → join_before base s ≡ (base, s)
unfolding join_before
join_before_self s base n e h pos = rw (e, h) (ground arith)

Ordered-last :
    (lo : ℕ) (pre : List Block) (a b : Block)
    → Ordered lo (pre ++ (a ∷ b ∷ []))
    → (a.0 < b.0) × (0 < b.1) × Below b.0 pre × (b.1 < 2 ^ 32)
Ordered-last lo [] a b o = (omega (arith, o.1, o.2.0), o.2.1, tt, omega (arith, o.2.2))
Ordered-last lo (c ∷ pre) a b o =
    let (lt, pos, below, small) = Ordered-last (c.0 + c.1) pre a b o.2 in
    (lt, pos, (omega (arith, Ordered-bound (c.0 + c.1) pre a (b ∷ []) o.2), below), small)

-- what the state shows of the last block `a` and the one behind it
pub record Unlinked (s : FreeArea) (a b : Block) : Type 0 where
  pub own_prev : s.links.prev (page_link b.0) ≡ page_link b.0
  pub reached : s.links.next (page_link a.0) ≡ page_link b.0
  pub apart : (s.page a.0).property ≡ a.1
  pub size : (s.page b.0).property ≡ b.1
  pub stays : (q : ℕ) → (list_del (page_link b.0) s.links).next q ≡ s.links.next q

module _ (s t : FreeArea) (pre : List Block) (a b : Block) where
  appended : FreeArea
  appended = record (head_block b.0 b.1 t) { links = twice_linked b.0 a.0 t.links }

  appended-Unlinked :
      Kept b.0 b.1 s t
      → Holds s (pre ++ (a ∷ []))
      → Ordered 0 (pre ++ (a ∷ b ∷ []))
      → Unlinked appended a b × (appended.links.next (page_link b.0) ≡ free_list)
  unfolding appended write_page
  appended-Unlinked k h ord =
      let behind =
        next-last t.links pre a (subst (λ l. Ring l (pre ++ (a ∷ []))) (sym k.links) h.chain) in
      let bounds = Ordered-last 0 pre a b ord in
      let ends = twice_linked-ends b.0 a.0 t.links bounds.0 behind in
      let kept : (t.page a.0).property ≡ a.1 =
        ap (λ p. p.property) (k.others a.0 (inl bounds.0))
        ∙ (heads-others s.page pre a [] h.heads).0.0 in
      (
        record {
          own_prev = ends.1;
          reached = ends.2;
          apart = ground (arith);
          size = ground arith;
          stays = self-list_del (page_link b.0) (twice_linked b.0 a.0 t.links) ends.1;
        },
        ends.0,
      )

-- When every free block lies below the pages that come back, `default_free_pages` ends with the new
-- entry as its own predecessor: it is not joined with a block that ends at it, and `list_del` of it
-- leaves every `next` pointer as it was, so that the entry stays on the list when it is allocated.
pub free_pages-append :
    (fuel : ℕ) (s : FreeArea) (pre : List Block) (a b : Block)
    → Holds s (pre ++ (a ∷ []))
    → Ordered 0 (pre ++ (a ∷ b ∷ []))
    → Used s b.0 b.1
    → length pre + 3 ≤ fuel
    → (s' : FreeArea) × (free_pages fuel b.0 b.1 s ≡ ok s') × Unlinked s' a b
unfolding free_pages appended
free_pages-append fuel s pre a b h ord used f =
    let (t, e, k) = reset_used-Kept b.1 b.0 s used in
    let bounds = Ordered-last 0 pre a b ord in
    let u = appended s t pre a b in
    let (shown, end) = appended-Unlinked s t pre a b k h ord in
    let placed =
      insert-append fuel b.0 t.links pre a
        (subst (λ l. Ring l (pre ++ (a ∷ []))) (sym k.links) h.chain) bounds.2 bounds.0 f in
    (
      u,
      rw
          (
            lt→ltb 0 b.1 bounds.1,
            e,
            placed,
            join_before_self u b.0 b.1 shown.own_prev shown.size bounds.1,
          )
          (ap ok (join_after-last u b.0 end)),
      shown,
    )
