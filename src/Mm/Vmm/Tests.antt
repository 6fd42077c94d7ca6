-- ===== src/Mm/Vmm/Tests.antt =====
-- An address space of two areas.
use os_labs.Mm.Vmm.Map.{mm_map, map_pages, vma_create, map_created}
use os_labs.Mm.Vmm.Map.Overlap.{asked, IsBelow, IsBeyond, MapOutcome, mm_map-MapOutcome}
use os_labs.Mm.Vmm.UserMem.{user_mem_check}
use os_labs.Mm.Vmm.UserMem.Loop.{IsAccessible}
use os_labs.Mm.Vmm.UserMem.Access.{InUser, user_mem_check-IsAccessible}
use os_labs.Common.{
  panic, ◌%◌, ◌^◌, ℕ, Bool, true, false, ◌+◌, ◌≤◌, ◌<◌, ◌↔◌, ◌≡◌, refl, some, none, [], ◌∷◌, arith,
  ok,
}
use os_labs.Mm.Vmm.{
  remember, insert_in, check_vma_overlap, check_prev, Vma, MmStruct, find_in, find_vma, find_cached,
  insert_vma_struct,
}
use os_labs.Mm.Vmm.Areas.{Areas, Cached, find_vma-find_in}

abbrev area : ℕ → ℕ → Vma
area a b = record { vm_start = a; vm_end = b; vm_flags = 0 }

-- The second area is the one in the cache.
abbrev sample : MmStruct
sample = record {
  mmap_list = area 10 20 ∷ area 40 60 ∷ [];
  mmap_cache = some (area 40 60);
  map_count = 2;
}

sample-Areas : Areas 0 sample.mmap_list
sample-Areas = (omega arith, omega arith, (omega arith, omega arith, tt))

sample-Cached : Cached sample.mmap_cache sample.mmap_list
unfolding find_in
sample-Cached a h = ground arith

find_vma-find_in_example :
    ((find_vma 15 sample).0 ≡ find_in 15 sample.mmap_list)
    × ((find_vma 15 sample).1.mmap_list ≡ sample.mmap_list)
    × Cached (find_vma 15 sample).1.mmap_cache sample.mmap_list
find_vma-find_in_example = find_vma-find_in 15 sample sample-Areas sample-Cached

find_vma_misses : (find_vma 30 sample).0 ≡ none
unfolding find_vma find_cached find_in
find_vma_misses = refl

-- a readable and writable area of three pages and a readable one behind it
abbrev user_space : MmStruct
user_space = record {
  mmap_list =
      record { vm_start = 0x200000; vm_end = 0x203000; vm_flags = 3 }
      ∷ record { vm_start = 0x203000; vm_end = 0x204000; vm_flags = 1 }
      ∷ [];
  mmap_cache = none;
  map_count = 2;
}

user_space-Areas : Areas 0 user_space.mmap_list
user_space-Areas = (omega arith, omega arith, (omega arith, omega arith, tt))

user_mem_check-IsAccessible_example :
    (b : Bool) × (mm' : MmStruct) × (user_mem_check 0x2000 (some user_space) 0x202000 0x2000 false
      ≡ ok (b, some mm'))
    × (mm'.mmap_list ≡ user_space.mmap_list)
    × Cached mm'.mmap_cache user_space.mmap_list
    × ((b ≡ true) ↔ (
        InUser 0x202000 0x2000
        × ((a : ℕ)
            → 0x202000 ≤ a
            → a < 0x202000 + 0x2000
            → IsAccessible false user_space.mmap_list a)))
user_mem_check-IsAccessible_example =
    user_mem_check-IsAccessible 0x2000 0x202000 0x2000 false user_space user_space-Areas tt
      (omega arith) (omega arith) (omega arith)

mm_map-MapOutcome_example :
    (start : ℕ) × (end : ℕ) × IsBelow 0x205010 start
    × IsBeyond ((0x205010 + 0x1000) % 2 ^ 64) end
    × MapOutcome true (asked start end 3) user_space (mm_map true 0x205010 0x1000 3 user_space)
mm_map-MapOutcome_example = mm_map-MapOutcome true 0x205010 0x1000 3 user_space user_space-Areas tt

-- a range that begins below an area and reaches into it
abbrev high_space : MmStruct
high_space = record {
  mmap_list = record { vm_start = 0x300000; vm_end = 0x301000; vm_flags = 3 } ∷ [];
  mmap_cache = none;
  map_count = 1;
}

run_mm_map : mm_map true 0x2FF000 0x2000 3 high_space ≡ panic
unfolding mm_map map_pages vma_create map_created find_vma find_cached find_in insert_vma_struct
    insert_in check_vma_overlap check_prev remember
run_mm_map = refl
