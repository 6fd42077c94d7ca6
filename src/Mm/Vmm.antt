-- ===== src/Mm/Vmm.antt =====
-- lab8/kern/mm/vmm.c: the areas of an address space, in the order of `mmap_list`. An area is given by
-- what is in it; the page tables and the fault handler are not modelled.
pub mod Areas
pub mod UserMem
pub mod Map
mod Tests
use os_labs.Common.{
  ℕ, ◌+◌, Bool, true, false, ◌&&◌, Option, none, some, List, [], ◌∷◌, ltb, leb, if◌then◌else◌, Run,
  ok, ◌>>=◌, ◌>>◌, assert,
}

-- `struct vma_struct`
pub record Vma : Type 0 where
  pub vm_start : ℕ
  pub vm_end : ℕ
  pub vm_flags : ℕ

-- `struct mm_struct`; `map_count`, an `int`, does not overflow
pub record MmStruct : Type 0 where
  pub mmap_list : List Vma
  pub mmap_cache : Option Vma
  pub map_count : ℕ

abbrev pub covers : Vma → ℕ → Bool
covers v addr = leb v.vm_start addr && ltb addr v.vm_end

-- the loop of `find_vma`
unfoldable pub find_in : ℕ → List Vma → Option Vma
find_in addr [] = none
find_in addr (v ∷ vs) = if covers v addr then some v else find_in addr vs

-- the area in the cache, if it is the one, and otherwise that of the loop
unfoldable pub find_cached : ℕ → Option Vma → List Vma → Option Vma
unfolding find_in
find_cached addr none vs = find_in addr vs
find_cached addr (some c) vs = if covers c addr then some c else find_in addr vs

unfoldable pub remember : Option Vma → MmStruct → MmStruct
remember none mm = mm
remember (some v) mm = record mm { mmap_cache = some v }

unfoldable pub find_vma : ℕ → MmStruct → Option Vma × MmStruct
unfolding find_cached remember
find_vma addr mm = let vma = find_cached addr mm.mmap_cache mm.mmap_list in (vma, remember vma mm)

unfoldable pub check_vma_overlap : Vma → Vma → Run (Unit {0})
check_vma_overlap prev next =
    assert (ltb prev.vm_start prev.vm_end)
    >> (assert (leb prev.vm_end next.vm_start) >> assert (ltb next.vm_start next.vm_end))

-- the check against the area in front, if there is one
unfoldable pub check_prev : Option Vma → Vma → Run (Unit {0})
unfolding check_vma_overlap
check_prev none v = ok tt
check_prev (some p) v = check_vma_overlap p v

-- the walk of `insert_vma_struct`, from behind the area `prev`
unfoldable pub insert_in : Option Vma → Vma → List Vma → Run (List Vma)
unfolding check_prev check_vma_overlap
insert_in prev v [] = check_prev prev v >> ok (v ∷ [])
insert_in prev v (x ∷ xs) =
    let rest = insert_in (some x) v xs in
    if ltb v.vm_start x.vm_start
    then check_prev prev v >> (check_vma_overlap v x >> ok (v ∷ x ∷ xs))
    else (rest >>= λ ys. ok (x ∷ ys))

unfoldable pub insert_vma_struct : Vma → MmStruct → Run MmStruct
unfolding insert_in
insert_vma_struct v mm = do
  assert (ltb v.vm_start v.vm_end)
  vs ← insert_in none v mm.mmap_list
  ok (record mm { mmap_list = vs; map_count = mm.map_count + 1 })
