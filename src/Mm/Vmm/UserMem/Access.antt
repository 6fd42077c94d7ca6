-- ===== src/Mm/Vmm/UserMem/Access.antt =====
-- What `user_mem_check` answers.
use os_labs.Common.{
  ℕ, ◌+◌, ◌%◌, ◌^◌, ◌≤◌, ◌<◌, ◌≡◌, ◌↔◌, refl, inl, inr, Bool, true, false, some, arith, Bool-cases,
  ok,
}
use os_labs.Mm.Vmm.{MmStruct}
use os_labs.Mm.Vmm.Areas.{Areas, Cached}
use os_labs.Mm.Vmm.UserMem.{user_access, check_loop, user_check, user_mem_check}
use os_labs.Mm.Vmm.UserMem.Loop.{IsAccessible, Checks, check_loop-Checks, true-false}

-- the limits on the range, with the sum as it is in 64 bits
abbrev pub InUser : ℕ → ℕ → Type 0
InUser addr len = (0x200000 ≤ addr) × (0 < len) × (addr + len ≤ 0x80000000)

user_access-InUser :
    (addr len : ℕ)
    → addr < 2 ^ 64
    → len < 2 ^ 64
    → user_access addr ((addr + len) % 2 ^ 64) ≡ true
    → InUser addr len × ((addr + len) % 2 ^ 64 ≡ addr + len)
user_access-InUser addr len h k e = ground arith

InUser-user_access :
    (addr len : ℕ) → InUser addr len → user_access addr ((addr + len) % 2 ^ 64) ≡ true
InUser-user_access addr len (h, k, e) = ground arith

user_mem_check-run :
    (fuel addr len : ℕ) (write : Bool) (mm mm' : MmStruct) (b : Bool)
    → user_access addr ((addr + len) % 2 ^ 64) ≡ true
    → (addr + len) % 2 ^ 64 ≡ addr + len
    → check_loop fuel write addr (addr + len) mm ≡ ok (b, mm')
    → user_mem_check fuel (some mm) addr len write ≡ ok (b, some mm')
unfolding user_mem_check user_check
user_mem_check-run fuel addr len write mm mm' b e plain run = rw (e, plain, run) refl

-- For an address space whose areas are sorted and apart, with the cache of find_vma as it is kept, an address and
-- a length of 64 bits and as many rounds as bytes, user_mem_check ends and keeps the areas. It answers yes
-- just if the range is not empty, lies in user space without wrapping around, and each of its addresses is in
-- an area that permits the access, for a write not in the lowest page of a stack.
pub user_mem_check-IsAccessible :
    (fuel addr len : ℕ) (write : Bool) (mm : MmStruct)
    → Areas 0 mm.mmap_list
    → Cached mm.mmap_cache mm.mmap_list
    → addr < 2 ^ 64
    → len < 2 ^ 64
    → len ≤ fuel
    → (b : Bool) × (mm' : MmStruct) × (user_mem_check fuel (some mm) addr len write
        ≡ ok (b, some mm'))
      × (mm'.mmap_list ≡ mm.mmap_list)
      × Cached mm'.mmap_cache mm.mmap_list
      × ((b ≡ true) ↔ (
          InUser addr len
          × ((a : ℕ) → addr ≤ a → a < addr + len → IsAccessible write mm.mmap_list a)))
unfolding user_mem_check user_check Checks
user_mem_check-IsAccessible fuel addr len write mm w c ha hl f =
    let end = (addr + len) % 2 ^ 64 in
    elim (Bool-cases (user_access addr end)) [
      | inr e ↦ (
        false,
        mm,
        rw e refl,
        refl,
        c,
        (
          (λ z. absurd (true-false z refl)),
          (λ z. absurd (true-false (InUser-user_access addr len z.0) e)),
        ),
      )
      | inl e ↦
          let (user, plain) = user_access-InUser addr len ha hl e in
          let (b, mm', run, kept, cached, answers) =
            check_loop-Checks fuel write addr (addr + len) mm (omega (arith, f)) w c in
          (
            b,
            mm',
            user_mem_check-run fuel addr len write mm mm' b e plain run,
            kept,
            cached,
            (
              (λ z. (user, answers.yes z)),
              (λ z. elim (Bool-cases b) [
                | inl g ↦ g
                | inr g ↦ let (a, l, k, x) = answers.refuses g in absurd (x (z.1 a l k))
              ]),
            ),
          )
    ]
