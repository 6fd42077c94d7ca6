-- ===== src/Mm/Vmm/Map/Overlap.antt =====
-- What `mm_map` does with a range that overlaps areas there are.
use mathlib.Core.Path.{subst}
use mathlib.Core.Option.{none-ne-some}
use os_labs.Common.{
  ap, ℕ, ◌+◌, ◌%◌, ◌^◌, ◌≤◌, ◌<◌, ◌≡◌, refl, sym, ◌∙◌, ◌⊎◌, inl, inr, Bool, true, false, Option,
  none, some, List, [], ◌∷◌, arith, ltb, leb, ltb→lt, ltb→le, lt→ltb, lt→leb, leb→le, leb→lt,
  if◌then◌else◌, if_true, if_false, Bool-cases, Option-cases, Run, ok, panic, ℤ, pos, negsuc,
}
use os_labs.Mm.Vmm.{
  Vma, MmStruct, covers, find_in, find_vma, check_vma_overlap, insert_in, insert_vma_struct,
}
use os_labs.Mm.Vmm.Areas.{
  Areas, Apart, Cached, Behind, check_prev-ok, find_vma-find_in, insert_vma_struct-Areas,
}
use os_labs.Mm.Vmm.UserMem.{user_access}
use os_labs.Mm.Vmm.UserMem.Loop.{true-false, find_in-covers, covers-bounds}
use os_labs.Mm.Vmm.Map.{round_down, round_up, map_created, vma_create, map_pages, mm_map}

-- an area that begins inside `v`
abbrev pub Overlapped : Vma → List Vma → Type 0
Overlapped v [] = ⊥
Overlapped v (x ∷ xs) = ((v.vm_start < x.vm_start) × (x.vm_start < v.vm_end)) ⊎ Overlapped v xs

Areas-above : (v : Vma) (lo : ℕ) (xs : List Vma) → Areas lo xs → v.vm_end ≤ lo → Apart v xs
Areas-above v lo [] w h = tt
Areas-above v lo (x ∷ xs) (wl, we, wr) h =
    (inl (omega arith), Areas-above v x.vm_end xs wr (omega arith))

check_vma_overlap-panic :
    (v x : Vma) → v.vm_start < v.vm_end → x.vm_start < v.vm_end → check_vma_overlap v x ≡ panic
unfolding check_vma_overlap
check_vma_overlap-panic v x h k = rw (lt→ltb _ _ h, lt→leb _ _ k) refl

uncovered : (x : Vma) (a : ℕ) → covers x a ≡ false → x.vm_start ≤ a → x.vm_end ≤ a
uncovered x a c h = ground arith

behind : (x : Vma) → x.vm_start < x.vm_end → Behind x.vm_end (some x)
behind x we = (we, omega arith)

-- When no area holds the first address, the walk fails an assertion just if some area begins inside.
insert_in-Apart :
    (lo : ℕ) (prev : Option Vma) (v : Vma) (vs : List Vma)
    → Behind lo prev
    → Areas lo vs
    → lo ≤ v.vm_start
    → v.vm_start < v.vm_end
    → find_in v.vm_start vs ≡ none
    → Apart v vs ⊎ ((insert_in prev v vs ≡ panic) × Overlapped v vs)
unfolding insert_in find_in
insert_in-Apart lo prev v [] b w l e n = inl tt
insert_in-Apart lo prev v (x ∷ xs) b (wl, we, wr) l e n = elim (Bool-cases (covers x v.vm_start)) [
  | inl c ↦ absurd (none-ne-some x (sym n ∙ if_true _ _ c))
  | inr c ↦
      let rest : find_in v.vm_start xs ≡ none = sym (if_false _ _ c) ∙ n in
      elim (Bool-cases (ltb v.vm_start x.vm_start)) [
        | inl s ↦ elim (Bool-cases (leb v.vm_end x.vm_start)) [
          | inl f ↦
              inl
                (inl (leb→le _ _ f), Areas-above v x.vm_end xs wr (omega (arith, we, leb→le _ _ f)))
          | inr f ↦ inr (
            rw (s, check_prev-ok lo prev v b l e, check_vma_overlap-panic v x e (leb→lt _ _ f))
                refl,
            inl (ltb→lt _ _ s, leb→lt _ _ f),
          )
        ]
        | inr s ↦
            let above : x.vm_end ≤ v.vm_start = uncovered x v.vm_start c (ltb→le _ _ s) in
            elim (insert_in-Apart x.vm_end (some x) v xs (behind x we) wr above e rest) [
              | inl a ↦ inl (inr above, a)
              | inr (r, o) ↦ inr (rw (s, r) refl, inr o)
            ]
      ]
]

-- the area that is asked for
abbrev pub asked : ℕ → ℕ → ℕ → Vma
asked start end vm_flags = record { vm_start = start; vm_end = end; vm_flags = vm_flags }

-- a range of user space that is not empty
abbrev pub IsUserRange : ℕ → ℕ → Type 0
IsUserRange start end = (0x200000 ≤ start) × (start < end) × (end ≤ 0x80000000)

-- the multiple of the page size at or below `a`, and at or above it, which may wrap around to 0
abbrev pub IsBelow : ℕ → ℕ → Type 0
IsBelow a start = (start % 4096 ≡ 0) × (start ≤ a) × (a < start + 4096)

abbrev pub IsBeyond : ℕ → ℕ → Type 0
IsBeyond a end =
    (end % 4096 ≡ 0) × (((a ≤ end) × (end < a + 4096)) ⊎ ((end ≡ 0) × (2 ^ 64 < a + 4096)))

-- How a call for the pages from `start` to `end` ends, when the new area would be `new`: -3 is -E_INVAL, and -4
-- is -E_NO_MEM.
pub data MapOutcome (memory : Bool) (new : Vma) (mm : MmStruct) (r : Run (ℤ × MmStruct))
    : Type 0 where
  not_user :
      (IsUserRange new.vm_start new.vm_end → ⊥) → r ≡ ok (negsuc 2, mm) → MapOutcome memory new mm r
  taken :
      (v : Vma) (mm' : MmStruct)
      → IsUserRange new.vm_start new.vm_end
      → find_in new.vm_start mm.mmap_list ≡ some v
      → r ≡ ok (negsuc 2, mm')
      → mm'.mmap_list ≡ mm.mmap_list
      → MapOutcome memory new mm r
  no_memory :
      (mm' : MmStruct)
      → IsUserRange new.vm_start new.vm_end
      → find_in new.vm_start mm.mmap_list ≡ none
      → memory ≡ false
      → r ≡ ok (negsuc 3, mm')
      → mm'.mmap_list ≡ mm.mmap_list
      → MapOutcome memory new mm r
  mapped :
      (mm' : MmStruct)
      → IsUserRange new.vm_start new.vm_end
      → Apart new mm.mmap_list
      → memory ≡ true
      → r ≡ ok (pos 0, mm')
      → Areas 0 mm'.mmap_list
      → ((a : ℕ)
          → find_in a mm'.mmap_list ≡ (if covers new a then some new else find_in a mm.mmap_list))
      → MapOutcome memory new mm r
  panics :
      IsUserRange new.vm_start new.vm_end
      → find_in new.vm_start mm.mmap_list ≡ none
      → Overlapped new mm.mmap_list
      → memory ≡ true
      → r ≡ panic
      → MapOutcome memory new mm r

insert_vma_struct-panic :
    (v : Vma) (mm : MmStruct)
    → v.vm_start < v.vm_end
    → insert_in none v mm.mmap_list ≡ panic
    → insert_vma_struct v mm ≡ panic
unfolding insert_vma_struct
insert_vma_struct-panic v mm h e = rw (lt→ltb _ _ h, e) refl

map_pages-MapOutcome :
    (memory : Bool) (start end vm_flags : ℕ) (mm : MmStruct)
    → Areas 0 mm.mmap_list
    → Cached mm.mmap_cache mm.mmap_list
    → IsUserRange start end
    → MapOutcome memory (asked start end vm_flags) mm (map_pages memory start end vm_flags mm)
unfolding map_pages vma_create map_created
map_pages-MapOutcome memory start end vm_flags mm w c user =
    let (same, kept, cached) = find_vma-find_in start mm w c in
    let mm' = (find_vma start mm).1 in
    let new = asked start end vm_flags in
    elim (Option-cases (find_in start mm.mmap_list)) [
      | inr (v, g) ↦
          let below : v.vm_start < end =
            omega
              (arith, user.1, (covers-bounds v start (find_in-covers start mm.mmap_list v g)).0) in
          taken v mm' user g (rw (same ∙ g, lt→ltb _ _ below) refl) kept
      | inl g ↦ elim (Bool-cases memory) [
        | inr m ↦ no_memory mm' user g m (rw (same ∙ g, m) refl) kept
        | inl m ↦
            let w' : Areas 0 mm'.mmap_list = rw kept w in
            elim (insert_in-Apart 0 none new mm'.mmap_list tt w' (omega arith) user.1 (rw kept g)) [
              | inl a ↦
                  let (mm2, run, areas, found) = insert_vma_struct-Areas new mm' w' user.1 a in
                  mapped mm2 user (subst (Apart new) kept a) m (rw (same ∙ g, m, run) refl) areas
                    (λ b. found b ∙ ap (λ vs. if covers new b then some new else find_in b vs) kept)
              | inr (r, o) ↦
                  panics user g (subst (Overlapped new) kept o) m
                    (rw (same ∙ g, m, insert_vma_struct-panic new mm' user.1 r) refl)
            ]
      ]
    ]

access-range : (start end : ℕ) → user_access start end ≡ true → IsUserRange start end
access-range start end e = ground arith

range-access : (start end : ℕ) → IsUserRange start end → user_access start end ≡ true
range-access start end (a, b, c) = ground arith

round_down-IsBelow : (a : ℕ) → IsBelow a (round_down a)
round_down-IsBelow a = (omega arith, omega arith, omega arith)

round_up-IsBeyond : (a : ℕ) → a < 2 ^ 64 → IsBeyond a (round_up a)
round_up-IsBeyond a h = (
  omega arith,
  elim (Bool-cases (ltb (2 ^ 64) (a + 4096))) [
    | inl e ↦ let wraps = ltb→lt _ _ e in inr (omega (arith, wraps, h), wraps)
    | inr e ↦ let fits = ltb→le _ _ e in inl (omega (arith, fits), omega (arith, fits))
  ],
)

-- For an address space whose areas are sorted and apart, with the cache of find_vma as it is kept, mm_map
-- acts on the pages that the range touches, just as the conditions say: with -E_INVAL and the same areas,
-- if these pages are not a range in user space, or if an area holds the first address; with -E_NO_MEM and
-- the same areas, if neither is so but there is no memory for an area; with 0 and the new area, sorted and
-- apart from the others, if it overlaps none; and with a failed assertion, if no area holds the first
-- address but one begins inside the range.
pub mm_map-MapOutcome :
    (memory : Bool) (addr len vm_flags : ℕ) (mm : MmStruct)
    → Areas 0 mm.mmap_list
    → Cached mm.mmap_cache mm.mmap_list
    → (start : ℕ) × (end : ℕ) × IsBelow addr start
      × IsBeyond ((addr + len) % 2 ^ 64) end
      × MapOutcome memory (asked start end vm_flags) mm (mm_map memory addr len vm_flags mm)
unfolding mm_map
mm_map-MapOutcome memory addr len vm_flags mm w c =
    let start = round_down addr in
    let end = round_up ((addr + len) % 2 ^ 64) in
    (
      start,
      end,
      round_down-IsBelow addr,
      round_up-IsBeyond ((addr + len) % 2 ^ 64) (omega arith),
      elim (Bool-cases (user_access start end)) [
        | inr e ↦ not_user (λ u. true-false (range-access start end u) e) (if_false _ _ e)
        | inl e ↦
            subst (MapOutcome memory (asked start end vm_flags) mm) (sym (if_true _ _ e))
              (map_pages-MapOutcome memory start end vm_flags mm w c (access-range start end e))
      ],
    )
