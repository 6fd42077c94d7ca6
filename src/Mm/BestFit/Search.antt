-- ===== src/Mm/BestFit/Search.antt =====
-- The search of `best_fit_alloc_pages` finds a block that fits and that no other fitting block is
-- smaller than.
use mathlib.Core.Path.{subst}
use mathlib.Core.List.{append_assoc, append-nil}
use os_labs.Common.{
  ℕ, zero, suc, ◌+◌, ◌≤◌, ◌<◌, ◌≡◌, refl, sym, ap, ◌∙◌, ◌⊎◌, inl, inr, ◌&&◌, Option, none, some,
  List, [], ◌∷◌, ◌++◌, arith, All, length, ltb, leb, if◌then◌else◌, Bool-cases, suc-eq-zero, ltb→lt,
  ltb→le, leb→le, leb→lt, lt→ltb, ok,
}
use os_labs.Libs.ListEntry.Distinct.{append-All, All-map}
use os_labs.Libs.ListEntry.Chain.{Chain}
use os_labs.Mm.DefaultPmm.{FreeArea, free_list, take_block, u32}
use os_labs.Mm.DefaultPmm.Blocks.{Block, entries, sum_pages, IsHead, Holds, rest_of}
use os_labs.Mm.DefaultPmm.Take.{take_block-Holds}
use os_labs.Mm.BestFit.{find_best, best_fit_alloc_pages}

-- no fitting block is smaller than `size`
abbrev pub Least : ℕ → ℕ → List Block → Type 0
Least n size xs = All (λ (b : Block). n ≤ b.1 → size ≤ b.1) xs

-- what the loop knows after the blocks `done`: `b` is the best of them, or none fits
-- (then the size is still the `top` that the loop began with).
abbrev Best : ℕ → ℕ → ℕ → Option ℕ → List Block → Type 0
Best top n size page done =
    ((page ≡ none) × (size ≡ top))
    ⊎ ((pre : List Block) × (b : Block) × (post : List Block) × (done ≡ pre ++ (b ∷ post))
        × (page ≡ some b.0)
        × (size ≡ b.1)
        × (n ≤ b.1))

find_best-end :
    (s : FreeArea) (fuel n le size : ℕ) (page : Option ℕ)
    → s.links.next le ≡ free_list
    → find_best (suc fuel) n le size page s ≡ ok page
unfolding find_best
find_best-end s fuel n le size page e = rw e refl

find_best-step :
    (s : FreeArea) (fuel n le size p k : ℕ) (page : Option ℕ)
    → s.links.next le ≡ suc p
    → (s.page p).property ≡ k
    → find_best (suc fuel) n le size page s
      ≡ find_best fuel n
          (suc p)
          (if leb n k && ltb k size then k else size)
          (if leb n k && ltb k size then some p else page)
          s
unfolding find_best
find_best-step s fuel n le size p k page e h = rw (e, h, suc-eq-zero p) refl

Least-snoc :
    (n size : ℕ) (done : List Block) (b : Block)
    → Least n size done
    → (n ≤ b.1 → size ≤ b.1)
    → Least n size (done ++ (b ∷ []))
Least-snoc n size done b h k = append-All _ done (b ∷ []) h (k, tt)

Least-weaken : (n size k : ℕ) (xs : List Block) → k ≤ size → Least n size xs → Least n k xs
Least-weaken n size k [] le h = tt
Least-weaken n size k (b ∷ xs) le h = ((λ f. omega (arith, h.0 f)), Least-weaken n size k xs le h.1)

Best-snoc :
    (top n size : ℕ) (page : Option ℕ) (done : List Block) (x : Block)
    → Best top n size page done
    → Best top n size page (done ++ (x ∷ []))
Best-snoc top n size page done x (inl h) = inl h
Best-snoc top n size page done x (inr (pre, b, post, e, p, k, le)) = inr (
  pre,
  b,
  post ++ (x ∷ []),
  ap (λ t. t ++ (x ∷ [])) e ∙ append_assoc pre (b ∷ post) (x ∷ []),
  p,
  k,
  le,
)

-- the loop over the rest of the list ends with the best block of the `whole`
abbrev Found : ℕ → FreeArea → ℕ → ℕ → ℕ → ℕ → Option ℕ → List Block → Type 0
Found top s fuel n le size page whole =
    (out : Option ℕ) × (best : ℕ) × (find_best fuel n le size page s ≡ ok out)
    × Best top n best out whole
    × Least n best whole

-- one round: what the next state of the loop knows
round :
    (top n size : ℕ) (page : Option ℕ) (done : List Block) (x : Block)
    → Best top n size page done
    → Least n size done
    → Best top n
        (if leb n x.1 && ltb x.1 size then x.1 else size)
        (if leb n x.1 && ltb x.1 size then some x.0 else page)
        (done ++ (x ∷ []))
      × Least n (if leb n x.1 && ltb x.1 size then x.1 else size) (done ++ (x ∷ []))
round top n size page done x b l = elim (Bool-cases (leb n x.1)) [
  | inl fits ↦ elim (Bool-cases (ltb x.1 size)) [
    | inl less ↦
        rw (fits, less)
          (
            inr (done, x, [], refl, refl, refl, leb→le n x.1 fits),
            Least-snoc n x.1 done x
                (Least-weaken n size x.1 done (omega (arith, ltb→lt x.1 size less)) l)
                (λ f. omega arith),
          )
    | inr more ↦
        rw (fits, more)
          (
            Best-snoc top n size page done x b,
            Least-snoc n size done x l (λ f. ltb→le x.1 size more),
          )
  ]
  | inr small ↦ rw small (
    Best-snoc top n size page done x b,
    Least-snoc n size done x l (λ f. absurd (omega (arith, leb→lt n x.1 small))),
  )
]

find_best_lem :
    (top : ℕ) (s : FreeArea) (fuel n le size : ℕ) (page : Option ℕ) (done xs : List Block)
    → Chain s.links le (entries xs) free_list
    → All (IsHead s.page) xs
    → length xs < fuel
    → Best top n size page done
    → Least n size done
    → Found top s fuel n le size page (done ++ xs)
find_best_lem top s zero n le size page done xs c h f b l = absurd (omega arith)
find_best_lem top s (suc fuel) n le size page done [] c h f b l =
    subst (Found top s (suc fuel) n le size page) (sym (append-nil done))
      (page, size, find_best-end s fuel n le size page c.0, b, l)
find_best_lem top s (suc fuel) n le size page done (x ∷ xs) c h f b l =
    let (b', l') = round top n size page done x b l in
    let (out, best, e, b'', l'') =
      find_best_lem top s fuel n (suc x.0) _ _ (done ++ (x ∷ [])) xs c.2 h.1 (omega arith) b' l' in
    subst (Found top s (suc fuel) n le size page) (append_assoc done (x ∷ []) xs)
      (out, best, find_best-step s fuel n le size x.0 x.1 page c.0 h.0.0 ∙ e, b'', l'')

sum_pages-ge : (xs : List Block) → All (λ (b : Block). b.1 ≤ sum_pages xs) xs
sum_pages-ge [] = tt
sum_pages-ge (b ∷ xs) = (omega arith, All-map _ _ xs (λ c le. omega arith) (sum_pages-ge xs))

-- What a call returns: the best of the blocks that fit, cut, or nothing, since none fits.
pub data Outcome (n : ℕ) (xs : List Block) (out : Option ℕ) (ys : List Block) : Type 0 where
  found :
      (pre : List Block) (b : Block) (post : List Block)
      → xs ≡ pre ++ (b ∷ post)
      → n ≤ b.1
      → Least n b.1 xs
      → out ≡ some b.0
      → ys ≡ pre ++ (rest_of n b ++ post)
      → Outcome n xs out ys
  none_fits : All (λ (b : Block). b.1 < n) xs → out ≡ none → ys ≡ xs → Outcome n xs out ys

small_of-Least :
    (n top : ℕ) (xs : List Block)
    → All (λ (b : Block). b.1 < top) xs
    → Least n top xs
    → All (λ (b : Block). b.1 < n) xs
small_of-Least n top [] s l = tt
small_of-Least n top (b ∷ xs) s l = elim (Bool-cases (leb n b.1)) [
  | inl fits ↦ absurd (omega (arith, l.0 (leb→le n b.1 fits), s.0))
  | inr small ↦ (leb→lt n b.1 small, small_of-Least n top xs s.1 l.1)
]

-- For a request of at least one page and fewer than 2 ^ 32 - 1 free pages, `best_fit_alloc_pages` on a well-formed free list ends, given
-- fuel for more entries than the list has. If some block is large enough it returns the first page of
-- one that no other large enough block is smaller than, and that block is cut; otherwise it returns
-- NULL and the list is as before. The list that is left is well formed.
pub best_fit_alloc_pages-Outcome :
    (fuel n : ℕ) (s : FreeArea) (xs : List Block)
    → 0 < n
    → length xs < fuel
    → s.nr_free + 1 < 4294967296
    → Holds s xs
    → (out : Option ℕ) × (ys : List Block) × (s' : FreeArea) × (best_fit_alloc_pages fuel n s
        ≡ ok (out, s'))
      × Outcome n xs out ys
      × Holds s' ys
unfolding best_fit_alloc_pages take_block
best_fit_alloc_pages-Outcome fuel n s xs pos f small h = elim (Bool-cases (ltb s.nr_free n)) [
  | inl e ↦
      let lt = ltb→lt s.nr_free n e in
      (
        none,
        xs,
        s,
        rw (lt→ltb 0 n pos, e) refl,
        none_fits (All-map _ _ xs (λ b le. omega (arith, h.total)) (sum_pages-ge xs)) refl refl,
        h,
      )
  | inr e ↦
      let top = s.nr_free + 1 in
      let fits : u32 top ≡ top = omega arith in
      let (out, best, run, b, l) =
        find_best_lem top s fuel n free_list top none [] xs h.chain h.heads f (inl (refl, refl))
          tt in
      elim b [
        | inl (p, q) ↦ (
          none,
          xs,
          s,
          rw (lt→ltb 0 n pos, e, fits, run, p) refl,
          none_fits
              (small_of-Least n top xs
                (All-map _ _ xs (λ b le. omega (arith, h.total)) (sum_pages-ge xs))
                (subst (λ k. Least n k xs) q l))
              refl refl,
          h,
        )
        | inr (pre, x, post, eq, p, q, le) ↦ (
          some x.0,
          pre ++ (rest_of n x ++ post),
          take_block n (some x.0) s,
          rw (lt→ltb 0 n pos, e, fits, run, p) refl,
          found pre x post eq le (subst (λ k. Least n k xs) q l) refl refl,
          take_block-Holds s n pre x post pos le (subst (Holds s) eq h),
        )
      ]
]
