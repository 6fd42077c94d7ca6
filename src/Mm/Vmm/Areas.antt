-- ===== src/Mm/Vmm/Areas.antt =====
-- The areas of an address space are sorted and apart, and the search finds the one that holds an
-- address, whatever stands in the cache.
use mathlib.Core.Path.{subst}
use mathlib.Core.Option.{none-ne-some, some-injective}
use os_labs.Common.{
  ℕ, ◌+◌, ◌≤◌, ◌<◌, ◌≡◌, refl, sym, ap, ◌⊎◌, inl, inr, true, false, Option, none, some, List, [],
  ◌∷◌, arith, All, ltb, lt→ltb, le→leb, ltb→lt, ltb→le, if◌then◌else◌, Bool-cases, ok,
}
use os_labs.Mm.Vmm.{
  Vma, MmStruct, covers, find_in, find_cached, remember, find_vma, check_vma_overlap, check_prev,
  insert_in, insert_vma_struct,
}

-- sorted areas above `lo`, none empty and none overlapping
abbrev pub Areas : ℕ → List Vma → Type 0
Areas lo [] = Unit
Areas lo (v ∷ vs) = (lo ≤ v.vm_start) × (v.vm_start < v.vm_end) × Areas v.vm_end vs

-- The area overlaps none of these.
abbrev pub Apart : Vma → List Vma → Type 0
Apart v = All (λ x. (v.vm_end ≤ x.vm_start) ⊎ (x.vm_end ≤ v.vm_start))

-- The area in front of the rest ends at or below `lo`.
abbrev pub Behind : ℕ → Option Vma → Type 0
Behind lo none = Unit
Behind lo (some p) = (p.vm_start < p.vm_end) × (p.vm_end ≤ lo)

check_vma_overlap-ok :
    (p v : Vma)
    → p.vm_start < p.vm_end
    → p.vm_end ≤ v.vm_start
    → v.vm_start < v.vm_end
    → check_vma_overlap p v ≡ ok tt
unfolding check_vma_overlap
check_vma_overlap-ok p v h k l = rw (lt→ltb _ _ h, le→leb _ _ k, lt→ltb _ _ l) refl

pub check_prev-ok :
    (lo : ℕ) (p : Option Vma) (v : Vma)
    → Behind lo p
    → lo ≤ v.vm_start
    → v.vm_start < v.vm_end
    → check_prev p v ≡ ok tt
unfolding check_prev
check_prev-ok lo none v b k l = refl
check_prev-ok lo (some p) v b k l = check_vma_overlap-ok p v b.0 (omega arith) l

fits_below :
    (v x : Vma)
    → (v.vm_end ≤ x.vm_start) ⊎ (x.vm_end ≤ v.vm_start)
    → v.vm_start < x.vm_start
    → x.vm_start < x.vm_end
    → v.vm_end ≤ x.vm_start
fits_below v x (inl h) k l = h
fits_below v x (inr h) k l = absurd (omega arith)

fits_above :
    (v x : Vma)
    → (v.vm_end ≤ x.vm_start) ⊎ (x.vm_end ≤ v.vm_start)
    → x.vm_start ≤ v.vm_start
    → v.vm_start < v.vm_end
    → x.vm_end ≤ v.vm_start
fits_above v x (inl h) k l = absurd (omega arith)
fits_above v x (inr h) k l = h

covers_above : (v x : Vma) (a : ℕ) → x.vm_end ≤ v.vm_start → covers x a ≡ true → covers v a ≡ false
covers_above v x a h c = ground arith

covers_below : (v x : Vma) (a : ℕ) → x.vm_end ≤ v.vm_start → covers v a ≡ true → covers x a ≡ false
covers_below v x a h c = ground arith

-- what is found behind an area below `v`
found_behind :
    (v x : Vma) (a : ℕ)
    → x.vm_end ≤ v.vm_start
    → (f g : Option Vma) → f ≡ (if covers v a then some v else g)
    → (if covers x a then some x else f)
      ≡ (if covers v a then some v else if covers x a then some x else g)
found_behind v x a h f g e = elim (Bool-cases (covers x a)) [
  | inl c ↦ rw (c, covers_above v x a h c) refl
  | inr c ↦ rw c e
]

-- what inserting `v` into the areas `vs` above `lo` gives
record Inserted (lo : ℕ) (v : Vma) (vs ys : List Vma) : Type 0 where
  areas : Areas lo ys
  found : (a : ℕ) → find_in a ys ≡ (if covers v a then some v else find_in a vs)

insert_in-Inserted :
    (lo : ℕ) (prev : Option Vma) (v : Vma) (vs : List Vma)
    → Behind lo prev
    → Areas lo vs
    → lo ≤ v.vm_start
    → v.vm_start < v.vm_end
    → Apart v vs
    → (ys : List Vma) × (insert_in prev v vs ≡ ok ys) × Inserted lo v vs ys
unfolding insert_in find_in
insert_in-Inserted lo prev v [] b w l e d = (
  v ∷ [],
  rw (check_prev-ok lo prev v b l e) refl,
  record { areas = (l, e, tt); found = λ a. refl },
)
insert_in-Inserted lo prev v (x ∷ xs) b (wl, we, wr) l e d =
    elim (Bool-cases (ltb v.vm_start x.vm_start)) [
      | inl s ↦
          let before = ltb→lt v.vm_start x.vm_start s in
          let fits : v.vm_end ≤ x.vm_start = fits_below v x d.0 before we in
          (
            v ∷ x ∷ xs,
            rw (s, check_prev-ok lo prev v b l e, check_vma_overlap-ok v x e fits we) refl,
            record { areas = (l, e, (fits, we, wr)); found = λ a. refl },
          )
      | inr s ↦
          let after = ltb→le v.vm_start x.vm_start s in
          let above : x.vm_end ≤ v.vm_start = fits_above v x d.0 after e in
          let (ys, r, i) =
            insert_in-Inserted x.vm_end (some x) v xs (we, omega arith) wr above e d.1 in
          (
            x ∷ ys,
            rw (s, r) refl,
            record {
              areas = (wl, we, i.areas);
              found = λ a. found_behind v x a above _ _ (i.found a);
            },
          )
    ]

-- When the areas are sorted and apart and a new one that is not empty overlaps none of them,
-- `insert_vma_struct` passes its assertions; the areas are sorted and apart again, and the search
-- finds the new area for the addresses in it and for every other address what it found before.
pub insert_vma_struct-Areas :
    (v : Vma) (mm : MmStruct)
    → Areas 0 mm.mmap_list
    → v.vm_start < v.vm_end
    → Apart v mm.mmap_list
    → (mm' : MmStruct) × (insert_vma_struct v mm ≡ ok mm')
      × Areas 0 mm'.mmap_list
      × ((a : ℕ)
          → find_in a mm'.mmap_list ≡ (if covers v a then some v else find_in a mm.mmap_list))
unfolding insert_vma_struct
insert_vma_struct-Areas v mm w e d =
    let (ys, r, i) = insert_in-Inserted 0 none v mm.mmap_list tt w (omega arith) e d in
    (
      record mm { mmap_list = ys; map_count = mm.map_count + 1 },
      rw (lt→ltb _ _ e, r) refl,
      i.areas,
      i.found,
    )

-- The search finds the area in the cache for every address that it covers.
abbrev pub Cached : Option Vma → List Vma → Type 0
Cached none vs = Unit
Cached (some c) vs = (a : ℕ) → covers c a ≡ true → find_in a vs ≡ some c

-- An area that covers an address of the list lies above the areas in front of it.
found_above :
    (lo a : ℕ) (vs : List Vma) (v : Vma) → Areas lo vs → find_in a vs ≡ some v → lo ≤ v.vm_start
unfolding find_in
found_above lo a [] v w f = absurd (none-ne-some v f)
found_above lo a (x ∷ xs) v w f = elim (Bool-cases (covers x a)) [
  | inl c ↦ subst (λ y. lo ≤ y.vm_start) (some-injective x v (rw c at f)) w.0
  | inr c ↦
      let above : x.vm_end ≤ v.vm_start = found_above x.vm_end a xs v w.2 (rw c at f) in
      let wide = w.1 in omega (arith, w.0)
]

-- What the search finds for one address it finds for every address in the same area.
pub found-Cached :
    (lo a : ℕ) (vs : List Vma) (v : Vma) → Areas lo vs → find_in a vs ≡ some v → Cached (some v) vs
unfolding find_in
found-Cached lo a [] v w f b c = absurd (none-ne-some v f)
found-Cached lo a (x ∷ xs) v w f b c = elim (Bool-cases (covers x a)) [
  | inl h ↦
      let same = some-injective x v (rw h at f) in
      let here : covers x b ≡ true = subst (λ y. covers y b ≡ true) (sym same) c in
      rw here (ap some same)
  | inr h ↦
      let above = found_above x.vm_end a xs v w.2 (rw h at f) in
      let not_here : covers x b ≡ false = covers_below v x b above c in
      rw not_here (found-Cached x.vm_end a xs v w.2 (rw h at f) b c)
]

find_cached-find_in :
    (a : ℕ) (c : Option Vma) (vs : List Vma) → Cached c vs → find_cached a c vs ≡ find_in a vs
unfolding find_cached
find_cached-find_in a none vs h = refl
find_cached-find_in a (some c) vs h = elim (Bool-cases (covers c a)) [
  | inl e ↦ rw e (sym (h a e))
  | inr e ↦ rw e refl
]

remember-Cached :
    (a : ℕ) (out : Option Vma) (mm : MmStruct)
    → Areas 0 mm.mmap_list
    → Cached mm.mmap_cache mm.mmap_list
    → find_in a mm.mmap_list ≡ out
    → ((remember out mm).mmap_list ≡ mm.mmap_list)
      × Cached (remember out mm).mmap_cache mm.mmap_list
unfolding remember
remember-Cached a none mm w h e = (refl, h)
remember-Cached a (some v) mm w h e = (refl, found-Cached 0 a mm.mmap_list v w e)

-- When the areas are sorted and apart and the cache is empty or holds the area that the search of the
-- list finds for each address in it, `find_vma` gives what the search of the list finds for the
-- address, an area or NULL; the list stays as it was, and the cache is as assumed.
pub find_vma-find_in :
    (a : ℕ) (mm : MmStruct)
    → Areas 0 mm.mmap_list
    → Cached mm.mmap_cache mm.mmap_list
    → ((find_vma a mm).0 ≡ find_in a mm.mmap_list)
      × ((find_vma a mm).1.mmap_list ≡ mm.mmap_list)
      × Cached (find_vma a mm).1.mmap_cache mm.mmap_list
unfolding find_vma
find_vma-find_in a mm w h =
    let same = find_cached-find_in a mm.mmap_cache mm.mmap_list h in
    let (kept, cached) = remember-Cached a _ mm w h (sym same) in (same, kept, cached)
