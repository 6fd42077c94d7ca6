-- ===== src/Mm/DefaultPmm/Blocks.antt =====
-- The free list as a list of blocks (first page, number of pages), and when a state represents one.
use os_labs.Common.{
  ℕ, suc, ◌+◌, ◌-◌, ◌^◌, ◌≤◌, ◌<◌, ◌≡◌, refl, true, List, [], ◌∷◌, ◌++◌, arith, All, Option, none,
  some, leb, ltb, if◌then◌else◌,
}
use os_labs.Libs.ListEntry.Chain.{Chain}
use os_labs.Libs.ListEntry.Distinct.{◌∉◌, Distinct}
use os_labs.Mm.DefaultPmm.{Page, FreeArea, free_list, page_link, write_page}

abbrev pub Block : Type 0
Block = ℕ × ℕ

-- the addresses of the blocks' links
abbrev pub entries : List Block → List ℕ
entries [] = []
entries (b ∷ xs) = page_link b.0 ∷ entries xs

abbrev pub sum_pages : List Block → ℕ
sum_pages [] = 0
sum_pages (b ∷ xs) = b.1 + sum_pages xs

-- Blocks from page `lo` on: not empty, apart from one another, in the order of their addresses, and
-- within the first `2 ^ 32` pages.
abbrev pub Ordered : ℕ → List Block → Type 0
Ordered lo [] = lo < 2 ^ 32
Ordered lo (b ∷ xs) = (lo ≤ b.0) × (0 < b.1) × Ordered (b.0 + b.1) xs

-- the first page of a free block holds its size
abbrev pub IsHead : (ℕ → Page) → Block → Type 0
IsHead page b = ((page b.0).property ≡ b.1) × ((page b.0).is_property ≡ true)

pub record Holds (s : FreeArea) (xs : List Block) : Type 0 where
  pub chain : Chain s.links free_list (entries xs) free_list
  pub heads : All (IsHead s.page) xs
  pub total : s.nr_free ≡ sum_pages xs
  pub ordered : Ordered 0 xs

pub entries-append : (xs ys : List Block) → entries (xs ++ ys) ≡ entries xs ++ entries ys
entries-append [] ys = refl
entries-append (x ∷ xs) ys = rw (entries-append xs ys)

pub sum_pages-append : (xs ys : List Block) → sum_pages (xs ++ ys) ≡ sum_pages xs + sum_pages ys
sum_pages-append [] ys = omega arith
sum_pages-append (x ∷ xs) ys = omega (arith, sum_pages-append xs ys)

pub Ordered-above : (c lo : ℕ) (xs : List Block) → c ≤ lo → Ordered lo xs → c ∉ entries xs
Ordered-above c lo [] h o = tt
Ordered-above c lo (b ∷ xs) h o = (omega arith, Ordered-above c (b.0 + b.1) xs (omega arith) o.2)

pub Ordered-Distinct : (lo : ℕ) (xs : List Block) → Ordered lo xs → Distinct (entries xs)
Ordered-Distinct lo [] o = tt
Ordered-Distinct lo (b ∷ xs) o =
    (Ordered-above (suc b.0) (b.0 + b.1) xs (omega arith) o.2, Ordered-Distinct (b.0 + b.1) xs o.2)

pub Ordered-lo : (lo : ℕ) (xs : List Block) → Ordered lo xs → lo < 2 ^ 32
Ordered-lo lo [] o = o
Ordered-lo lo (b ∷ xs) o = omega (arith, Ordered-lo (b.0 + b.1) xs o.2)

pub Ordered-weaken : (lo k : ℕ) (xs : List Block) → k ≤ lo → Ordered lo xs → Ordered k xs
Ordered-weaken lo k [] h o = omega arith
Ordered-weaken lo k (b ∷ xs) h o = (omega arith, o.1, o.2)

pub Ordered-sum : (lo : ℕ) (xs : List Block) → Ordered lo xs → lo + sum_pages xs < 2 ^ 32
Ordered-sum lo [] o = omega arith
Ordered-sum lo (b ∷ xs) o = omega (arith, Ordered-sum (b.0 + b.1) xs o.2)

-- A page descriptor that heads no block may change.
pub heads-write_page :
    (page : ℕ → Page) (c : ℕ) (v : Page) (xs : List Block)
    → suc c ∉ entries xs
    → All (IsHead page) xs
    → All (IsHead (write_page page c v)) xs
unfolding write_page
heads-write_page page c v [] out h = tt
heads-write_page page c v (b ∷ xs) out h = (ground arith, heads-write_page page c v xs out.1 h.1)

-- What first fit is meant to do: cut the request from the first block that is large enough.
unfoldable pub rest_of : ℕ → Block → List Block
rest_of n b = if ltb n b.1 then (b.0 + n, b.1 - n) ∷ [] else []

unfoldable pub first_fit : ℕ → List Block → Option ℕ × List Block
first_fit n [] = (none, [])
first_fit n (b ∷ xs) =
    let (page, ys) = first_fit n xs in
    if leb n b.1 then (some b.0, rest_of n b ++ xs) else (page, b ∷ ys)
