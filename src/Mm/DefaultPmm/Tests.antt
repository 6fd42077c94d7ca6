-- ===== src/Mm/DefaultPmm/Tests.antt =====
-- The routines of default_pmm.c at concrete free lists.
use os_labs.Common.{ℕ, ◌≡◌, refl, true, false, some, [], ◌∷◌, arith, ◌==◌, ok, if◌then◌else◌}
use os_labs.Mm.DefaultPmm.{Page, FreeArea, alloc_pages, free_pages, init_memmap}
use os_labs.Mm.DefaultPmm.Blocks.{Block, Holds, first_fit, rest_of}
use os_labs.Mm.DefaultPmm.Alloc.{alloc_pages-first_fit}
use os_labs.Mm.DefaultPmm.Release.{release}
use os_labs.Mm.DefaultPmm.Free.{free_pages-release, init_memmap-insert}
use os_labs.Mm.DefaultPmm.Append.{Unlinked, free_pages-append}

abbrev used_page : Page
used_page = record { ref = 1; reserved = false; is_property = false; property = 0 }

abbrev block_page : ℕ → Page
block_page n = record { ref = 0; reserved = false; is_property = true; property = n }

abbrev low : Block
low = (2, 3)

abbrev high : Block
high = (10, 4)

-- pages 2 to 4 and 10 to 13 are free, and the others in use
abbrev two_blocks : FreeArea
two_blocks = record {
  links = record {
    next = λ q. if q == 0 then 3 else if q == 3 then 11 else 0;
    prev = λ q. if q == 0 then 11 else if q == 11 then 3 else 0;
  };
  nr_free = 7;
  page = λ p. if p == 2 then block_page 3 else if p == 10 then block_page 4 else used_page;
}

two_blocks-Holds : Holds two_blocks (low ∷ high ∷ [])
two_blocks-Holds = record {
  chain = (refl, refl, (refl, refl, (refl, refl)));
  heads = ((refl, refl), ((refl, refl), tt));
  total = refl;
  ordered = omega arith;
}

alloc_pages-first_fit_example :
    (s' : FreeArea) × (alloc_pages 9 4 two_blocks ≡ ok ((first_fit 4 (low ∷ high ∷ [])).0, s'))
    × Holds s' (first_fit 4 (low ∷ high ∷ [])).1
alloc_pages-first_fit_example =
    alloc_pages-first_fit 9 4 two_blocks (low ∷ high ∷ []) (omega arith) (omega arith)
      two_blocks-Holds

first_fit_two : first_fit 2 (low ∷ high ∷ []) ≡ (some 2, (4, 1) ∷ high ∷ [])
unfolding first_fit rest_of
first_fit_two = refl

free_pages-release_example :
    (s' : FreeArea) × (free_pages 9 5 5 two_blocks ≡ ok s')
    × Holds s' (release (5, 5) (low ∷ high ∷ []))
free_pages-release_example =
    free_pages-release 9 two_blocks (low ∷ []) (5, 5) high [] two_blocks-Holds (omega arith)
      (λ q a b. ground arith) (omega arith)

free_pages-append_example :
    (s' : FreeArea) × (free_pages 9 14 2 two_blocks ≡ ok s') × Unlinked s' high (14, 2)
free_pages-append_example =
    free_pages-append 9 two_blocks (low ∷ []) high (14, 2) two_blocks-Holds (omega arith)
      (λ q a b. ground arith) (omega arith)

-- reserved pages, and no free block
abbrev boot : FreeArea
boot = record {
  links = record { next = λ q. q; prev = λ q. q };
  nr_free = 0;
  page = λ p. record { ref = 0; reserved = true; is_property = false; property = 0 };
}

boot-Holds : Holds boot []
boot-Holds = record { chain = (refl, refl); heads = tt; total = refl; ordered = omega arith }

abbrev none_free : FreeArea
none_free = record boot { page = λ p. used_page }

-- a free block above reserved pages
abbrev one_block : FreeArea
one_block = record {
  links = record { next = λ q. if q == 0 then 11 else 0; prev = λ q. if q == 0 then 11 else 0 };
  nr_free = 4;
  page = λ p.
      if p == 10
      then block_page 4
      else record { ref = 0; reserved = true; is_property = false; property = 0 };
}

init_memmap-insert_example :
    (s' : FreeArea) × (init_memmap 9 3 6 one_block ≡ ok s') × Holds s' ((3, 6) ∷ high ∷ [])
init_memmap-insert_example =
    init_memmap-insert 9 one_block [] (3, 6) high []
      (record {
        chain = (refl, refl, (refl, refl));
        heads = ((refl, refl), tt);
        total = refl;
        ordered = omega arith;
      })
      (omega arith) (λ q a b. ground arith) (omega arith)
