-- ===== src/Mm/DefaultPmm/Alloc.antt =====
-- `default_alloc_pages` on a free list in order: it takes the block that first fit takes.
use mathlib.Core.Path.{subst}
use os_labs.Common.{
  ℕ, zero, suc, ◌≤◌, ◌<◌, ◌≡◌, refl, ap, ◌∙◌, ◌⊎◌, inl, inr, none, some, List, [], ◌∷◌, ◌++◌, arith,
  All, length, ltb, leb, if◌then◌else◌, Bool-cases, suc-eq-zero, ltb→lt, lt→ltb, lt→leb, leb→le, ok,
}
use os_labs.Libs.ListEntry.Chain.{Chain}
use os_labs.Mm.DefaultPmm.{FreeArea, free_list, find_fit, take_block, alloc_pages}
use os_labs.Mm.DefaultPmm.Blocks.{Block, entries, sum_pages, IsHead, Holds, rest_of, first_fit}
use os_labs.Mm.DefaultPmm.Take.{take_block-Holds}

-- Either no block is large enough, or `b` is the first that is.
abbrev Search : FreeArea → ℕ → ℕ → ℕ → List Block → Type 0
Search s fuel n le xs =
    ((find_fit fuel n le s ≡ ok none) × (first_fit n xs ≡ (none, xs)))
    ⊎ ((pre : List Block) × (b : Block) × (post : List Block) × (xs ≡ pre ++ (b ∷ post))
        × (n ≤ b.1)
        × (find_fit fuel n le s ≡ ok (some b.0))
        × (first_fit n xs ≡ (some b.0, pre ++ (rest_of n b ++ post))))

find_fit-end :
    (s : FreeArea) (fuel n le : ℕ)
    → s.links.next le ≡ free_list
    → find_fit (suc fuel) n le s ≡ ok none
unfolding find_fit
find_fit-end s fuel n le e = rw e refl

find_fit-step :
    (s : FreeArea) (fuel n le p k : ℕ)
    → s.links.next le ≡ suc p
    → (s.page p).property ≡ k
    → find_fit (suc fuel) n le s ≡ (if leb n k then ok (some p) else find_fit fuel n (suc p) s)
unfolding find_fit
find_fit-step s fuel n le p k e h = rw (e, h, suc-eq-zero p) refl

find_fit-Search :
    (s : FreeArea) (fuel n le : ℕ) (xs : List Block)
    → Chain s.links le (entries xs) free_list
    → All (IsHead s.page) xs
    → length xs < fuel
    → Search s fuel n le xs
unfolding first_fit
find_fit-Search s zero n le xs c h f = absurd (omega arith)
find_fit-Search s (suc fuel) n le [] c h f = inl (find_fit-end s fuel n le c.0, refl)
find_fit-Search s (suc fuel) n le (b ∷ xs) c h f =
    let step = find_fit-step s fuel n le b.0 b.1 c.0 h.0.0 in
    elim (Bool-cases (leb n b.1)) [
      | inl e ↦ inr ([], b, xs, refl, leb→le n b.1 e, step ∙ rw e refl, rw e refl)
      | inr e ↦ elim (find_fit-Search s fuel n (suc b.0) xs c.2 h.1 (omega arith)) [
        | inl (p, q) ↦ inl (step ∙ rw e p, rw (e, q) refl)
        | inr (pre, b', post, eq, le, p, q) ↦
            inr (b ∷ pre, b', post, ap (λ t. b ∷ t) eq, le, step ∙ rw e p, rw (e, q) refl)
      ]
    ]

sum_pages-bound : (n : ℕ) (xs : List Block) → sum_pages xs < n → first_fit n xs ≡ (none, xs)
unfolding first_fit
sum_pages-bound n [] h = refl
sum_pages-bound n (b ∷ xs) h =
    rw (lt→leb n b.1 (omega arith), sum_pages-bound n xs (omega arith)) refl

-- For a request of at least one page, `default_alloc_pages` on a well-formed free list returns (given
-- fuel for more entries than the list has) the page that first fit takes, or NULL where no block is
-- large enough, and leaves the free list that first fit leaves, well formed again.
pub alloc_pages-first_fit :
    (fuel n : ℕ) (s : FreeArea) (xs : List Block)
    → 0 < n
    → length xs < fuel
    → Holds s xs
    → (s' : FreeArea) × (alloc_pages fuel n s ≡ ok ((first_fit n xs).0, s'))
      × Holds s' (first_fit n xs).1
unfolding alloc_pages
alloc_pages-first_fit fuel n s xs pos f h = elim (Bool-cases (ltb s.nr_free n)) [
  | inl e ↦
      let none_fits = sum_pages-bound n xs (omega (arith, ltb→lt s.nr_free n e, h.total)) in
      (s, rw (lt→ltb 0 n pos, e, none_fits) refl, rw none_fits h)
  | inr e ↦ elim (find_fit-Search s fuel n free_list xs h.chain h.heads f) [
    | inl (p, q) ↦ (s, rw (lt→ltb 0 n pos, e, p, q) refl, rw q h)
    | inr (pre, b, post, eq, le, p, q) ↦ (
      take_block n (some b.0) s,
      rw (lt→ltb 0 n pos, e, p, q) refl,
      rw q (take_block-Holds s n pre b post pos le (subst (Holds s) eq h)),
    )
  ]
]
