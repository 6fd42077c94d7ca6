-- ===== src/Mm/Vmm/UserMem.antt =====
-- `user_mem_check` and `mm_map` of lab8/kern/mm/vmm.c.
pub mod Loop
pub mod Access
use os_labs.Common.{
  ℕ, zero, suc, ◌+◌, ◌-◌, ◌*◌, ◌/◌, ◌%◌, ◌^◌, Bool, true, false, not, ◌&&◌, ◌||◌, ◌==◌, Option,
  none, some, ltb, leb, if◌then◌else◌, Run, ok, no_fuel, ◌>>=◌, bit_and, ℤ, pos, negsuc,
}
use os_labs.Mm.Vmm.{Vma, MmStruct, find_vma, insert_vma_struct}

abbrev pub pgsize : ℕ
pgsize = 4096

-- USERBASE and USERTOP, KERNBASE and KERNTOP
abbrev pub user_access : ℕ → ℕ → Bool
user_access start end = leb 0x200000 start && ltb start end && leb end 0x80000000

abbrev pub kern_access : ℕ → ℕ → Bool
kern_access start end =
    leb 0xFFFFFFFFC0200000 start && ltb start end && leb end (0xFFFFFFFFC0200000 + 0x7E00000)

-- whether the flags permit to read, or to write, which are bits 0 and 1
abbrev pub permits : Bool → Vma → Bool
permits write v = not (bit_and v.vm_flags (if write then 2 else 1) == 0)

-- VM_STACK is bit 3
abbrev pub is_stack : Vma → Bool
is_stack v = not (bit_and v.vm_flags 8 == 0)

-- the lowest page of a stack is not written
abbrev pub stack_end : Bool → ℕ → Vma → Bool
stack_end write start v = write && is_stack v && ltb start (v.vm_start + pgsize)

-- the checks on the area that was found for `start`; a sum of addresses is less than 2 ^ 64
unfoldable pub usable : Bool → ℕ → Option Vma → Option Vma
usable write start none = none
usable write start (some v) =
    if ltb start v.vm_start || not (permits write v) || stack_end write start v
    then none
    else some v

-- what follows one round of the loop: the rest, or the end
abbrev pub next_area : (ℕ → Run (Bool × MmStruct)) → MmStruct → Option Vma → Run (Bool × MmStruct)
next_area go_on mm none = ok (false, mm)
next_area go_on mm (some v) = go_on v.vm_end

-- the loop; its rounds are at most as many as the first number says
unfoldable pub check_loop : ℕ → Bool → ℕ → ℕ → MmStruct → Run (Bool × MmStruct)
unfolding usable
check_loop zero write start end mm = if ltb start end then no_fuel else ok (true, mm)
check_loop (suc fuel) write start end mm =
    let (vma, mm') = find_vma start mm in
    let rest = next_area (λ s. check_loop fuel write s end mm') mm' (usable write start vma) in
    if ltb start end then rest else ok (true, mm)

-- on an address space
unfoldable pub user_check : ℕ → ℕ → ℕ → Bool → MmStruct → Run (Bool × MmStruct)
unfolding check_loop
user_check fuel addr len write mm =
    let end = (addr + len) % 2 ^ 64 in
    if user_access addr end then check_loop fuel write addr end mm else ok (false, mm)

unfoldable pub user_mem_check : ℕ → Option MmStruct → ℕ → ℕ → Bool → Run (Bool × Option MmStruct)
unfolding user_check
user_mem_check fuel none addr len write = ok (kern_access addr ((addr + len) % 2 ^ 64), none)
user_mem_check fuel (some mm) addr len write =
    user_check fuel addr len write mm >>= λ r. ok (r.0, some r.1)
