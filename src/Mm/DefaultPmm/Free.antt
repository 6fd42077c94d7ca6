-- ===== src/Mm/DefaultPmm/Free.antt =====
-- `default_free_pages` and `default_init_memmap` where a free block lies above the one that comes in,
-- or none is there.
use mathlib.Core.Path.{subst, subst₂}
use mathlib.Core.List.{append_assoc}
use os_labs.Common.{
  ℕ, ◌+◌, ◌≤◌, ◌<◌, ◌≡◌, refl, sym, ap, ◌∙◌, inl, inr, List, [], ◌∷◌, ◌++◌, arith, length, ◌==◌,
  Bool-cases, ==_iff, lt→ltb, last-cases, ok,
}
use os_labs.Libs.ListEntry.{Links, list_add, list_add_before}
use os_labs.Mm.DefaultPmm.{
  FreeArea, free_list, page_link, head_block, insert, free_pages, init_memmap, join_before,
  join_after,
}
use os_labs.Mm.DefaultPmm.Blocks.{Block, Ordered, Holds}
use os_labs.Mm.DefaultPmm.Ring.{Ring, Ring-add, Ordered-bound}
use os_labs.Mm.DefaultPmm.Join.{
  glue, joined, joined-Holds, join_after-glue, join_before-first, join_before-joined,
  join_before-apart, join_after-last,
}
use os_labs.Mm.DefaultPmm.Insert.{Below, insert-between, insert-empty}
use os_labs.Mm.DefaultPmm.Reset.{Kept, Used, Reserved, reset_used-Kept, reset_reserved-Kept}
use os_labs.Mm.DefaultPmm.Release.{glue_both, release, release-first, release-between}
use os_labs.Mm.DefaultPmm.Put.{put-Holds, Ring-add_before, Ordered-Below}

-- the two joins, one after the other
finish : ℕ → FreeArea → FreeArea
finish base s = let r = join_before base s in join_after r.0 r.1

finish-first :
    (s : FreeArea) (b c : Block) (post : List Block)
    → Holds s (b ∷ c ∷ post)
    → Holds (finish b.0 s) (glue b c ++ post)
unfolding finish
finish-first s b c post h =
    subst (λ r. Holds (join_after r.0 r.1) (glue b c ++ post))
      (sym (join_before-first s b (c ∷ post) h)) (join_after-glue s [] b c post h)

finish-between :
    (s : FreeArea) (pre : List Block) (a b c : Block) (post : List Block)
    → Holds s (pre ++ (a ∷ b ∷ c ∷ post))
    → Holds (finish b.0 s) (pre ++ (glue_both a b c ++ post))
unfolding finish glue_both
finish-between s pre a b c post h = elim (Bool-cases (a.0 + a.1 == b.0)) [
  | inl e ↦
      let both : Block = (a.0, a.1 + b.1) in
      let j = joined-Holds s pre a b (c ∷ post) ((==_iff _ _).0 e) h in
      rw e (
        subst (λ r. Holds (join_after r.0 r.1) (pre ++ (glue both c ++ post)))
          (sym (join_before-joined s pre a b (c ∷ post) h e))
          (join_after-glue (joined s a.0 b.0) pre both c post j))
  | inr e ↦
      let front = pre ++ (a ∷ []) in
      let h' = subst (Holds s) (sym (append_assoc pre (a ∷ []) (b ∷ c ∷ post))) h in
      rw e (
        subst (λ r. Holds (join_after r.0 r.1) (pre ++ (a ∷ (glue b c ++ post))))
          (sym (join_before-apart s pre a b (c ∷ post) h e))
          (subst (Holds (join_after b.0 s)) (append_assoc pre (a ∷ []) (glue b c ++ post))
            (join_after-glue s front b c post h')))
]

Ordered-neighbours :
    (lo : ℕ) (ws : List Block) (a b c : Block) (post : List Block)
    → Ordered lo (ws ++ (a ∷ b ∷ c ∷ post))
    → Below b.0 ws × (a.0 ≤ b.0) × (b.0 < c.0)
Ordered-neighbours lo [] a b c post o = (tt, omega (arith, o.2.0), omega (arith, o.2.1, o.2.2.0))
Ordered-neighbours lo (d ∷ ws) a b c post o =
    let (l, la, lt) = Ordered-neighbours (d.0 + d.1) ws a b c post o.2 in
    ((omega (arith, Ordered-bound (d.0 + d.1) ws a (b ∷ c ∷ post) o.2), l), la, lt)

abbrev Finishes : FreeArea → Block → List Block → List Block → Type 0
Finishes s b new old = Holds s new → Holds (finish b.0 s) (release b old)

finish-release :
    (s : FreeArea) (pre : List Block) (b c : Block) (post : List Block)
    → Finishes s b (pre ++ (b ∷ c ∷ post)) (pre ++ (c ∷ post))
finish-release s pre b c post = elim (last-cases pre) [
  | inl e ↦
      subst (λ ws. Finishes s b (ws ++ (b ∷ c ∷ post)) (ws ++ (c ∷ post))) (sym e)
        λ h. rw (release-first b c post (omega (arith, h.ordered.2))) (finish-first s b c post h)
  | inr (ws, a, e) ↦
      let shift = λ (zs : List Block). sym (ap (λ t. t ++ zs) e ∙ append_assoc ws (a ∷ []) zs) in
      subst₂ (Finishes s b) (shift (b ∷ c ∷ post)) (shift (c ∷ post)) λ h.
        let (l, la, lt) = Ordered-neighbours 0 ws a b c post h.ordered in
        rw (release-between b ws a c post l la lt) (finish-between s ws a b c post h)
]

-- the state after the insertion, with the new block `b` in its place
abbrev linked : FreeArea → Block → Links → FreeArea
linked t b l = record (head_block b.0 b.1 t) { links = l }

module _ (fuel : ℕ) (s t : FreeArea) (pre : List Block) (b c : Block) (post : List Block) where
  linked-Holds :
      Kept b.0 b.1 s t
      → Holds s (pre ++ (c ∷ post))
      → Ordered 0 (pre ++ (b ∷ c ∷ post))
      → Holds
          (linked t b (list_add_before (page_link c.0) (page_link b.0) t.links))
          (pre ++ (b ∷ c ∷ post))
  linked-Holds k h ord = put-Holds s t _ b pre (c ∷ post) h k ord (
      Ring-add_before t.links pre b c post ord
        (subst (λ l. Ring l (pre ++ (c ∷ post))) (sym k.links) h.chain))

  linked-ok :
      Kept b.0 b.1 s t
      → Holds s (pre ++ (c ∷ post))
      → Ordered 0 (pre ++ (b ∷ c ∷ post))
      → length pre < fuel
      → insert fuel b.0 t.links ≡ ok (list_add_before (page_link c.0) (page_link b.0) t.links)
  linked-ok k h ord f =
      insert-between fuel b.0 t.links pre c post
        (subst (λ l. Ring l (pre ++ (c ∷ post))) (sym k.links) h.chain)
        (Ordered-Below 0 pre b (c ∷ post) ord) (above 0 pre ord) f
    where
      above : (lo : ℕ) (ws : List Block) → Ordered lo (ws ++ (b ∷ c ∷ post)) → b.0 < c.0
      above lo [] o = omega (arith, o.1, o.2.0)
      above lo (a ∷ ws) o = above (a.0 + a.1) ws o.2

-- `default_free_pages` of pages that are in use, where some free block lies above them: with fuel for
-- the entries below, it ends, passes every assertion, and leaves a well-formed free list, the one in
-- which the block took its place and was joined with the neighbours that it touches.
pub free_pages-release :
    (fuel : ℕ) (s : FreeArea) (pre : List Block) (b c : Block) (post : List Block)
    → Holds s (pre ++ (c ∷ post))
    → Ordered 0 (pre ++ (b ∷ c ∷ post))
    → Used s b.0 b.1
    → length pre < fuel
    → (s' : FreeArea) × (free_pages fuel b.0 b.1 s ≡ ok s')
      × Holds s' (release b (pre ++ (c ∷ post)))
unfolding free_pages finish
free_pages-release fuel s pre b c post h ord used f =
    let (t, e, k) = reset_used-Kept b.1 b.0 s used in
    let pos = (Ordered-bound 0 pre b (c ∷ post) ord).1 in
    let l = list_add_before (page_link c.0) (page_link b.0) t.links in
    (
      finish b.0 (linked t b l),
      rw (lt→ltb 0 b.1 pos, e, linked-ok fuel s t pre b c post k h ord f) refl,
      finish-release (linked t b l) pre b c post (linked-Holds fuel s t pre b c post k h ord),
    )

module _ (fuel : ℕ) (s t : FreeArea) (b : Block) where
  alone : FreeArea
  alone = linked t b (list_add free_list (page_link b.0) t.links)

  alone-Holds : Kept b.0 b.1 s t → Holds s [] → Ordered 0 (b ∷ []) → Holds alone (b ∷ [])
  unfolding alone
  alone-Holds k h ord =
      put-Holds s t _ b [] [] h k ord
        (Ring-add t.links [] b [] ord (subst (λ l. Ring l []) (sym k.links) h.chain))

  alone-ok :
      Kept b.0 b.1 s t
      → Holds s []
      → insert fuel b.0 t.links ≡ ok (list_add free_list (page_link b.0) t.links)
  alone-ok k h = insert-empty fuel b.0 t.links (subst (λ l. Ring l []) (sym k.links) h.chain)

-- On an empty free list `default_free_pages` of pages in use makes the block its only one.
pub free_pages-empty :
    (fuel : ℕ) (s : FreeArea) (b : Block)
    → Holds s []
    → Ordered 0 (b ∷ [])
    → Used s b.0 b.1
    → (s' : FreeArea) × (free_pages fuel b.0 b.1 s ≡ ok s') × Holds s' (b ∷ [])
unfolding free_pages alone
free_pages-empty fuel s b h ord used =
    let (t, e, k) = reset_used-Kept b.1 b.0 s used in
    let u = alone fuel s t b in
    let holds = alone-Holds fuel s t b k h ord in
    let finished : finish b.0 u ≡ u =
      unfold finish in
      ap (λ (r : ℕ × FreeArea). join_after r.0 r.1) (join_before-first u b [] holds)
      ∙ join_after-last u b.0 holds.chain.2.0 in
    (
      finish b.0 u,
      unfold finish in rw (lt→ltb 0 b.1 ord.1, e, alone-ok fuel s t b k h) refl,
      subst (λ v. Holds v (b ∷ [])) (sym finished) holds,
    )

-- On an empty free list `default_init_memmap` of reserved pages makes the block its only one.
pub init_memmap-empty :
    (fuel : ℕ) (s : FreeArea) (b : Block)
    → Holds s []
    → Ordered 0 (b ∷ [])
    → Reserved s b.0 b.1
    → (s' : FreeArea) × (init_memmap fuel b.0 b.1 s ≡ ok s') × Holds s' (b ∷ [])
unfolding init_memmap alone
init_memmap-empty fuel s b h ord used =
    let (t, e, k) = reset_reserved-Kept b.1 b.0 s used in
    (
      alone fuel s t b,
      rw (lt→ltb 0 b.1 ord.1, e, alone-ok fuel s t b k h) refl,
      alone-Holds fuel s t b k h ord,
    )

-- `default_init_memmap` of reserved pages, where some free block lies above them, puts the block into
-- its place and joins nothing.
pub init_memmap-insert :
    (fuel : ℕ) (s : FreeArea) (pre : List Block) (b c : Block) (post : List Block)
    → Holds s (pre ++ (c ∷ post))
    → Ordered 0 (pre ++ (b ∷ c ∷ post))
    → Reserved s b.0 b.1
    → length pre < fuel
    → (s' : FreeArea) × (init_memmap fuel b.0 b.1 s ≡ ok s') × Holds s' (pre ++ (b ∷ c ∷ post))
unfolding init_memmap
init_memmap-insert fuel s pre b c post h ord used f =
    let (t, e, k) = reset_reserved-Kept b.1 b.0 s used in
    let pos = (Ordered-bound 0 pre b (c ∷ post) ord).1 in
    (
      linked t b (list_add_before (page_link c.0) (page_link b.0) t.links),
      rw (lt→ltb 0 b.1 pos, e, linked-ok fuel s t pre b c post k h ord f) refl,
      linked-Holds fuel s t pre b c post k h ord,
    )
