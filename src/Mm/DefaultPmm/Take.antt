-- ===== src/Mm/DefaultPmm/Take.antt =====
-- What `default_alloc_pages` does to the block that it found: the list, the sizes and the counter.
use mathlib.Core.Path.{subst, subst₂}
use os_labs.Common.{
  ℕ, ◌+◌, ◌-◌, ◌^◌, ◌≤◌, ◌<◌, ◌≡◌, refl, sym, ap, ◌∙◌, inl, inr, true, false, some, List, [], ◌∷◌,
  ◌++◌, arith, ltb, Bool-cases, ltb→lt, ltb→le,
}
use os_labs.Libs.ListEntry.{list_add, list_del}
use os_labs.Libs.ListEntry.Chain.{Chain}
use os_labs.Mm.DefaultPmm.{
  Page, FreeArea, free_list, page_link, write_page, take_block, set_property, clear_property, u32,
}
use os_labs.Mm.DefaultPmm.Ring.{
  Ring-del, Ring-add, prev-last, Ordered-apart, heads-middle, heads-others, sum_pages-middle,
  Ordered-bound,
}
use os_labs.Mm.DefaultPmm.Blocks.{
  Block, entries, sum_pages, Ordered, IsHead, Holds, entries-append, Ordered-weaken,
  heads-write_page, rest_of,
}

-- Cutting `n` pages from a block in the middle keeps the blocks in order.
Ordered-cut :
    (lo n : ℕ) (pre : List Block) (b : Block) (post : List Block)
    → n ≤ b.1
    → Ordered lo (pre ++ (b ∷ post))
    → Ordered lo (pre ++ (rest_of n b ++ post))
unfolding rest_of
Ordered-cut lo n [] b post h o = elim (Bool-cases (ltb n b.1)) [
  | inl e ↦
      let lt = ltb→lt n b.1 e in
      rw e (omega arith, omega arith, subst (λ k. Ordered k post) (omega arith) o.2)
  | inr e ↦ rw e (Ordered-weaken (b.0 + b.1) lo post (omega arith) o.2)
]
Ordered-cut lo n (a ∷ pre) b post h o = (o.0, o.1, Ordered-cut (a.0 + a.1) n pre b post h o.2)

sum_pages-cut :
    (n : ℕ) (pre : List Block) (b : Block) (post : List Block)
    → n ≤ b.1
    → sum_pages (pre ++ (rest_of n b ++ post)) + n ≡ sum_pages (pre ++ (b ∷ post))
unfolding rest_of
sum_pages-cut n [] b post h = ground (arith)
sum_pages-cut n (a ∷ pre) b post h = omega (arith, sum_pages-cut n pre b post h)

abbrev cut_page : FreeArea → ℕ → ℕ → (ℕ → Page)
cut_page s n p =
    write_page s.page (p + n)
      (set_property (record (s.page (p + n)) { property = u32 ((s.page p).property - n) }))

-- the state when the block at `p` is cut, and when it is used up
abbrev cut_state : FreeArea → ℕ → ℕ → FreeArea
cut_state s n p = record {
  links =
      list_add (s.links.prev (page_link p)) (page_link (p + n)) (list_del (page_link p) s.links);
  nr_free = s.nr_free - n;
  page = write_page (cut_page s n p) p (clear_property (cut_page s n p p));
}

abbrev whole_state : FreeArea → ℕ → ℕ → FreeArea
whole_state s n p = record {
  links = list_del (page_link p) s.links;
  nr_free = s.nr_free - n;
  page = write_page s.page p (clear_property (s.page p));
}

take_block-cut :
    (s : FreeArea) (n p : ℕ)
    → ltb n (s.page p).property ≡ true
    → take_block n (some p) s ≡ cut_state s n p
unfolding take_block
take_block-cut s n p e = rw e refl

take_block-whole :
    (s : FreeArea) (n p : ℕ)
    → ltb n (s.page p).property ≡ false
    → take_block n (some p) s ≡ whole_state s n p
unfolding take_block
take_block-whole s n p e = rw e refl

-- the piece that stays is the head of a block
cut_page-IsHead :
    (s : FreeArea) (n p k : ℕ)
    → 0 < n
    → k ≤ 2 ^ 32
    → (s.page p).property ≡ k
    → IsHead (cut_state s n p).page (p + n, k - n)
unfolding write_page
cut_page-IsHead s n p k pos small e = ground arith

module _ (s : FreeArea) (n : ℕ) (pre : List Block) (b : Block) (post : List Block) where
  cut_state-Holds :
      0 < n
      → n < b.1
      → Holds s (pre ++ (b ∷ post))
      → Ordered 0 (pre ++ ((b.0 + n, b.1 - n) ∷ post))
      → Holds (cut_state s n b.0) (pre ++ ((b.0 + n, b.1 - n) ∷ post))
  cut_state-Holds pos lt h ord =
      let piece : Block = (b.0 + n, b.1 - n) in
      let (size, others) = heads-others s.page pre b post h.heads in
      record {
        chain =
            subst
              (λ q.
                Chain (list_add q (page_link piece.0) (list_del (page_link b.0) s.links)) free_list
                  (entries (pre ++ (piece ∷ post))) free_list)
              (sym (prev-last s.links pre b post h.chain))
              (Ring-add (list_del (page_link b.0) s.links) pre piece post ord
                (Ring-del s.links pre b post h.ordered h.chain));
        heads =
            heads-middle (cut_state s n b.0).page pre piece post
              (cut_page-IsHead s n b.0 b.1 pos (omega (arith, Ordered-bound 0 pre b post h.ordered))
                size.0)
              (heads-write_page (cut_page s n b.0) b.0 _ (pre ++ post)
                (Ordered-apart pre b post h.ordered)
                (heads-write_page s.page (b.0 + n) _ (pre ++ post)
                  (Ordered-apart pre piece post ord) others));
        total =
            omega (arith, sum_pages-middle pre b post, sum_pages-middle pre piece post, h.total);
        ordered = ord;
      }

  whole_state-Holds :
      n ≡ b.1
      → Holds s (pre ++ (b ∷ post))
      → Ordered 0 (pre ++ post)
      → Holds (whole_state s n b.0) (pre ++ post)
  whole_state-Holds e h ord = record {
    chain =
        subst (λ zs. Chain (list_del (page_link b.0) s.links) free_list zs free_list)
          (sym (entries-append pre post)) (Ring-del s.links pre b post h.ordered h.chain);
    heads =
        heads-write_page s.page b.0 _ (pre ++ post) (Ordered-apart pre b post h.ordered)
          (heads-others s.page pre b post h.heads).1;
    total = omega (arith, sum_pages-middle pre b post, h.total);
    ordered = ord;
  }

rest_of-cut : (n : ℕ) (b : Block) → ltb n b.1 ≡ true → rest_of n b ≡ (b.0 + n, b.1 - n) ∷ []
unfolding rest_of
rest_of-cut n b e = rw e refl

rest_of-whole : (n : ℕ) (b : Block) → ltb n b.1 ≡ false → rest_of n b ≡ []
unfolding rest_of
rest_of-whole n b e = rw e refl

-- The block that was found is replaced by what is left of it.
pub take_block-Holds :
    (s : FreeArea) (n : ℕ) (pre : List Block) (b : Block) (post : List Block)
    → 0 < n
    → n ≤ b.1
    → Holds s (pre ++ (b ∷ post))
    → Holds (take_block n (some b.0) s) (pre ++ (rest_of n b ++ post))
take_block-Holds s n pre b post pos le h =
    let size = (heads-others s.page pre b post h.heads).0.0 in
    let ord = Ordered-cut 0 n pre b post le h.ordered in
    elim (Bool-cases (ltb n b.1)) [
      | inl e ↦
          let cut = ap (λ t. pre ++ (t ++ post)) (rest_of-cut n b e) in
          subst₂ Holds (sym (take_block-cut s n b.0 (ap (ltb n) size ∙ e))) (sym cut)
            (cut_state-Holds s n pre b post pos (ltb→lt n b.1 e) h (subst (Ordered 0) cut ord))
      | inr e ↦
          let all = ap (λ t. pre ++ (t ++ post)) (rest_of-whole n b e) in
          subst₂ Holds (sym (take_block-whole s n b.0 (ap (ltb n) size ∙ e))) (sym all) (
            whole_state-Holds s n pre b post (omega (arith, ltb→le n b.1 e)) h
              (subst (Ordered 0) all ord))
    ]
