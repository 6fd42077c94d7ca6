-- ===== src/Mm/DefaultPmm/Join.antt =====
-- The second half of `default_free_pages`: a block is joined with a neighbour that it touches.
use mathlib.Core.Path.{subst}
use mathlib.Core.List.{append_assoc}
use os_labs.Common.{
  ℕ, ◌+◌, ◌^◌, ◌<◌, ◌≡◌, refl, sym, ap, ◌∙◌, inl, inr, true, false, List, [], ◌∷◌, ◌++◌, arith,
  ◌==◌, if◌then◌else◌, Bool-cases, ==_iff, suc-eq-zero,
}
use os_labs.Libs.ListEntry.{Links, list_del}
use os_labs.Libs.ListEntry.Distinct.{Distinct}
use os_labs.Libs.ListEntry.Chain.{Chain, Chain-split}
use os_labs.Libs.ListEntry.Del.{list_del-at}
use os_labs.Mm.DefaultPmm.{
  FreeArea, free_list, page_link, write_page, join_before, join_after, clear_property, u32,
}
use os_labs.Mm.DefaultPmm.Blocks.{
  Block, entries, Ordered, IsHead, Holds, Ordered-above, Ordered-Distinct, heads-write_page,
}
use os_labs.Mm.DefaultPmm.Ring.{
  Ring, prev-last, entries-middle, Ordered-apart, Ordered-drop, heads-middle, heads-others,
  sum_pages-middle, Ordered-bound,
}

-- two blocks as they stand in the list, joined where the first ends at the second
unfoldable pub glue : Block → Block → List Block
glue a b = if a.0 + a.1 == b.0 then (a.0, a.1 + b.1) ∷ [] else a ∷ b ∷ []

Ordered-glue :
    (lo : ℕ) (pre : List Block) (a b : Block) (post : List Block)
    → a.0 + a.1 ≡ b.0
    → Ordered lo (pre ++ (a ∷ b ∷ post))
    → Ordered lo (pre ++ ((a.0, a.1 + b.1) ∷ post))
Ordered-glue lo [] a b post e o =
    (o.0, omega arith, subst (λ k. Ordered k post) (omega arith) o.2.2)
Ordered-glue lo (c ∷ pre) a b post e o = (o.0, o.1, Ordered-glue (c.0 + c.1) pre a b post e o.2)

-- the list without the second of two blocks
Ring-glue :
    (l : Links) (pre : List Block) (a b : Block) (post : List Block)
    → Ordered 0 (pre ++ (a ∷ b ∷ post))
    → Ring l (pre ++ (a ∷ b ∷ post))
    → Ring (list_del (page_link b.0) l) (pre ++ ((a.0, a.1 + b.1) ∷ post))
Ring-glue l pre a b post o c =
    let front = entries pre ++ (page_link a.0 ∷ []) in
    let whole : entries (pre ++ (a ∷ b ∷ post)) ≡ front ++ (page_link b.0 ∷ entries post) =
      entries-middle pre a (b ∷ post)
      ∙ sym (append_assoc (entries pre) (page_link a.0 ∷ []) (page_link b.0 ∷ entries post)) in
    let left : entries (pre ++ ((a.0, a.1 + b.1) ∷ post)) ≡ front ++ entries post =
      entries-middle pre (a.0, a.1 + b.1) post
      ∙ sym (append_assoc (entries pre) (page_link a.0 ∷ []) (entries post)) in
    subst (λ zs. Chain (list_del (page_link b.0) l) free_list zs free_list) (sym left)
      (list_del-at l free_list (page_link b.0) front (entries post)
        (subst (λ zs. Distinct (free_list ∷ zs)) whole
          (Ordered-above 0 0 _ (omega arith) o, Ordered-Distinct 0 _ o))
        (subst (λ zs. Chain l free_list zs free_list) whole c))

-- the state after block `b` was joined to block `a` before it
abbrev pub joined : FreeArea → ℕ → ℕ → FreeArea
joined s a b =
    let grown =
      write_page s.page a
        (record (s.page a) { property = u32 ((s.page a).property + (s.page b).property) }) in
    record {
      links = list_del (page_link b) s.links;
      nr_free = s.nr_free;
      page = write_page grown b (clear_property (grown b));
    }

joined-IsHead :
    (s : FreeArea) (a b : Block)
    → IsHead s.page a
    → IsHead s.page b
    → a.0 < b.0
    → a.1 + b.1 < 2 ^ 32
    → IsHead (joined s a.0 b.0).page (a.0, a.1 + b.1)
unfolding write_page
joined-IsHead s a b ha hb lt small = ground arith

pub joined-Holds :
    (s : FreeArea) (pre : List Block) (a b : Block) (post : List Block)
    → a.0 + a.1 ≡ b.0
    → Holds s (pre ++ (a ∷ b ∷ post))
    → Holds (joined s a.0 b.0) (pre ++ ((a.0, a.1 + b.1) ∷ post))
joined-Holds s pre a b post e h =
    let both : Block = (a.0, a.1 + b.1) in
    let ord = Ordered-glue 0 pre a b post e h.ordered in
    let (ha, others) = heads-others s.page pre a (b ∷ post) h.heads in
    let (hb, rest) = heads-others s.page pre b post others in
    record {
      chain = Ring-glue s.links pre a b post h.ordered h.chain;
      heads =
          heads-middle (joined s a.0 b.0).page pre both post
            (joined-IsHead s a b ha hb (omega (arith, Ordered-bound 0 pre a (b ∷ post) h.ordered))
              (omega (arith, Ordered-bound 0 pre both post ord)))
            (heads-write_page _ b.0 _ (pre ++ post)
              (Ordered-apart pre b post (Ordered-drop 0 pre a (b ∷ post) h.ordered))
              (heads-write_page s.page a.0 _ (pre ++ post) (Ordered-apart pre both post ord) rest));
      total = omega (
        arith,
        h.total,
        sum_pages-middle pre a (b ∷ post),
        sum_pages-middle pre b post,
        sum_pages-middle pre both post,
      );
      ordered = ord;
    }

next-entry :
    (l : Links) (pre : List Block) (b c : Block) (post : List Block)
    → Ring l (pre ++ (b ∷ c ∷ post))
    → l.next (page_link b.0) ≡ page_link c.0
next-entry l pre b c post h =
    (Chain-split l free_list (page_link b.0) free_list (entries pre) (entries (c ∷ post))
      (subst (λ zs. Chain l free_list zs free_list) (entries-middle pre b (c ∷ post)) h)).1.0

join_after-joined :
    (s : FreeArea) (b c k : ℕ)
    → s.links.next (page_link b) ≡ page_link c
    → (s.page b).property ≡ k
    → (b + k == c) ≡ true
    → join_after b s ≡ joined s b c
unfolding join_after
join_after-joined s b c k n e t = rw (n, suc-eq-zero c, ap (λ m. b + m == c) e ∙ t) refl

join_after-apart :
    (s : FreeArea) (b c k : ℕ)
    → s.links.next (page_link b) ≡ page_link c
    → (s.page b).property ≡ k
    → (b + k == c) ≡ false
    → join_after b s ≡ s
unfolding join_after
join_after-apart s b c k n e t = rw (n, suc-eq-zero c, ap (λ m. b + m == c) e ∙ t) refl

-- The block behind is joined if the freed one ends at it.
pub join_after-glue :
    (s : FreeArea) (pre : List Block) (b c : Block) (post : List Block)
    → Holds s (pre ++ (b ∷ c ∷ post))
    → Holds (join_after b.0 s) (pre ++ (glue b c ++ post))
unfolding glue
join_after-glue s pre b c post h =
    let n = next-entry s.links pre b c post h.chain in
    let size = (heads-others s.page pre b (c ∷ post) h.heads).0.0 in
    elim (Bool-cases (b.0 + b.1 == c.0)) [
      | inl e ↦ rw e (
          subst (λ t. Holds t (pre ++ ((b.0, b.1 + c.1) ∷ post)))
            (sym (join_after-joined s b.0 c.0 b.1 n size e))
            (joined-Holds s pre b c post ((==_iff _ _).0 e) h))
      | inr e ↦ rw e (
          subst (λ t. Holds t (pre ++ (b ∷ c ∷ post)))
            (sym (join_after-apart s b.0 c.0 b.1 n size e)) h)
    ]

-- There is no block before the first one.
pub join_before-first :
    (s : FreeArea) (b : Block) (post : List Block)
    → Holds s (b ∷ post)
    → join_before b.0 s ≡ (b.0, s)
unfolding join_before
join_before-first s b post h = rw (prev-last s.links [] b post h.chain) refl

prev-entry :
    (l : Links) (pre : List Block) (a b : Block) (post : List Block)
    → Ring l (pre ++ (a ∷ b ∷ post))
    → l.prev (page_link b.0) ≡ page_link a.0
prev-entry l pre a b post h =
    (Chain-split l free_list (page_link a.0) free_list (entries pre) (entries (b ∷ post))
      (subst (λ zs. Chain l free_list zs free_list) (entries-middle pre a (b ∷ post)) h)).1.1

pub join_before-joined :
    (s : FreeArea) (pre : List Block) (a b : Block) (post : List Block)
    → Holds s (pre ++ (a ∷ b ∷ post))
    → (a.0 + a.1 == b.0) ≡ true
    → join_before b.0 s ≡ (a.0, joined s a.0 b.0)
unfolding join_before
join_before-joined s pre a b post h t =
    let size = (heads-others s.page pre a (b ∷ post) h.heads).0.0 in
    rw (prev-entry s.links pre a b post h.chain, suc-eq-zero a.0, ap (λ m. a.0 + m == b.0) size ∙ t)
      refl

pub join_before-apart :
    (s : FreeArea) (pre : List Block) (a b : Block) (post : List Block)
    → Holds s (pre ++ (a ∷ b ∷ post))
    → (a.0 + a.1 == b.0) ≡ false
    → join_before b.0 s ≡ (b.0, s)
unfolding join_before
join_before-apart s pre a b post h t =
    let size = (heads-others s.page pre a (b ∷ post) h.heads).0.0 in
    rw (prev-entry s.links pre a b post h.chain, suc-eq-zero a.0, ap (λ m. a.0 + m == b.0) size ∙ t)
      refl

-- Behind the last block there is none.
pub join_after-last :
    (s : FreeArea) (b : ℕ) → s.links.next (page_link b) ≡ free_list → join_after b s ≡ s
unfolding join_after
join_after-last s b n = rw n refl
