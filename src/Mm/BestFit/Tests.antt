-- ===== src/Mm/BestFit/Tests.antt =====
-- The best-fit search at a concrete free list.
use os_labs.Common.{
  ℕ, ◌≡◌, refl, Option, some, List, [], ◌∷◌, arith, ◌==◌, ok, true, false, if◌then◌else◌,
}
use os_labs.Mm.DefaultPmm.{FreeArea, Page}
use os_labs.Mm.DefaultPmm.Blocks.{Block, Holds}
use os_labs.Mm.BestFit.{find_best, best_fit_alloc_pages}
use os_labs.Mm.BestFit.Search.{Outcome, best_fit_alloc_pages-Outcome}

abbrev block_page : ℕ → Page
block_page n = record { ref = 0; reserved = false; is_property = true; property = n }

-- pages 2 to 7 and 10 to 13 are free
abbrev sample : FreeArea
sample = record {
  links = record {
    next = λ q. if q == 0 then 3 else if q == 3 then 11 else 0;
    prev = λ q. if q == 0 then 11 else if q == 11 then 3 else 0;
  };
  nr_free = 10;
  page = λ p. if p == 2 then block_page 6 else if p == 10 then block_page 4 else block_page 0;
}

abbrev sample_blocks : List Block
sample_blocks = (2, 6) ∷ (10, 4) ∷ []

sample-Holds : Holds sample sample_blocks
sample-Holds = record {
  chain = (refl, refl, (refl, refl, (refl, refl)));
  heads = ((refl, refl), ((refl, refl), tt));
  total = refl;
  ordered = omega arith;
}

best_fit_alloc_pages-Outcome_example :
    (out : Option ℕ) × (ys : List Block) × (s' : FreeArea) × (best_fit_alloc_pages 5 3 sample
      ≡ ok (out, s'))
    × Outcome 3 sample_blocks out ys
    × Holds s' ys
best_fit_alloc_pages-Outcome_example =
    best_fit_alloc_pages-Outcome 5 3 sample sample_blocks (omega arith) (omega arith) (omega arith)
      sample-Holds

-- the smaller block is chosen, although the other one comes first
find_best_runs : find_best 5 3 0 11 (Option.none) sample ≡ ok (some 10)
unfolding find_best
find_best_runs = refl
