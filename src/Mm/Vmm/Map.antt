-- ===== src/Mm/Vmm/Map.antt =====
-- `mm_map` of lab8/kern/mm/vmm.c, for an `mm` that is not NULL, as its assertion asks; the store of the new
-- area's address in `vma_store` is left out.
pub mod Overlap
use os_labs.Common.{
  ℕ, ◌+◌, ◌-◌, ◌%◌, ◌^◌, Bool, true, false, not, ◌&&◌, Option, none, some, ltb, if◌then◌else◌, Run,
  ok, ◌>>=◌, ℤ, pos, negsuc,
}
use os_labs.Mm.Vmm.{Vma, MmStruct, find_vma, insert_vma_struct}
use os_labs.Mm.Vmm.UserMem.{pgsize, user_access}

abbrev pub round_down : ℕ → ℕ
round_down a = a - a % pgsize

abbrev pub round_up : ℕ → ℕ
round_up a = round_down ((a + pgsize - 1) % 2 ^ 64)

-- whether the area that was found begins below `end`
abbrev pub begins_below : ℕ → Option Vma → Bool
begins_below end none = false
begins_below end (some v) = ltb v.vm_start end

-- from `vma_create` on, which gives an area or NULL
unfoldable pub map_created : Option Vma → MmStruct → Run (ℤ × MmStruct)
map_created none mm = ok (negsuc 3, mm)
map_created (some v) mm = insert_vma_struct v mm >>= λ mm'. ok (pos 0, mm')

-- the area that `vma_create` gives; kmalloc may fail
unfoldable pub vma_create : Bool → ℕ → ℕ → ℕ → Option Vma
vma_create memory start end vm_flags =
    if memory then some (record { vm_start = start; vm_end = end; vm_flags = vm_flags }) else none

-- on pages from `start` to `end`; 3 is E_INVAL, and 4, above, E_NO_MEM
unfoldable pub map_pages : Bool → ℕ → ℕ → ℕ → MmStruct → Run (ℤ × MmStruct)
unfolding map_created vma_create
map_pages memory start end vm_flags mm =
    let (vma, mm') = find_vma start mm in
    if begins_below end vma
    then ok (negsuc 2, mm')
    else map_created (vma_create memory start end vm_flags) mm'

unfoldable pub mm_map : Bool → ℕ → ℕ → ℕ → MmStruct → Run (ℤ × MmStruct)
unfolding map_pages
mm_map memory addr len vm_flags mm =
    let start = round_down addr in
    let end = round_up ((addr + len) % 2 ^ 64) in
    if user_access start end then map_pages memory start end vm_flags mm else ok (negsuc 2, mm)
