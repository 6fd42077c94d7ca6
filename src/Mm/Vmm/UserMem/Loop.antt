-- ===== src/Mm/Vmm/UserMem/Loop.antt =====
-- What the loop of `user_mem_check` answers, in terms of the single addresses.
use mathlib.Core.Path.{subst}
use mathlib.Core.Option.{none-ne-some, some-injective}
use mathlib.Core.Bool.{◌&&◌}
use os_labs.Common.{
  ℕ, zero, suc, ◌+◌, ◌≤◌, ◌<◌, ◌≡◌, refl, sym, ap, ◌∙◌, ◌⊎◌, inl, inr, Bool, true, false, none,
  some, List, [], ◌∷◌, arith, ltb, ltb→lt, ltb→le, le→ltb, if_true, if_false, Bool-cases,
  Option-cases, Run, ok,
}
use os_labs.Mm.Vmm.{Vma, MmStruct, covers, find_in, find_vma}
use os_labs.Mm.Vmm.Areas.{Areas, Cached, found-Cached, find_vma-find_in}
use os_labs.Mm.Vmm.UserMem.{permits, stack_end, is_stack, pgsize, usable, check_loop}

-- An area holds the address and permits the access, not in the lowest page of a stack if it is to be written.
abbrev pub IsAccessible : Bool → List Vma → ℕ → Type 0
IsAccessible write vs a =
    (v : Vma) × (find_in a vs ≡ some v)
    × (permits write v ≡ true)
    × ((write && is_stack v) ≡ true → v.vm_start + pgsize ≤ a)

pub true-false : {b : Bool} → b ≡ true → b ≡ false → ⊥
true-false e g = cc

pub find_in-covers : (a : ℕ) (vs : List Vma) (v : Vma) → find_in a vs ≡ some v → covers v a ≡ true
unfolding find_in
find_in-covers a [] v f = absurd (none-ne-some v f)
find_in-covers a (x ∷ xs) v f = elim (Bool-cases (covers x a)) [
  | inl c ↦ rw (sym (some-injective x v (sym (if_true _ _ c) ∙ f))) c
  | inr c ↦ find_in-covers a xs v (sym (if_false _ _ c) ∙ f)
]

pub covers-bounds : (v : Vma) (a : ℕ) → covers v a ≡ true → (v.vm_start ≤ a) × (a < v.vm_end)
covers-bounds v a c = ground arith

bounds-covers : (v : Vma) (a : ℕ) → v.vm_start ≤ a → a < v.vm_end → covers v a ≡ true
bounds-covers v a h k = ground arith

none-usable : (write : Bool) (start : ℕ) → usable write start none ≡ none
unfolding usable
none-usable write start = refl

-- The checks on one area.
usable-some :
    (write : Bool) (start : ℕ) (v : Vma)
    → v.vm_start ≤ start
    → ((usable write start (some v) ≡ some v)
        × (permits write v ≡ true)
        × (stack_end write start v ≡ false))
      ⊎ ((usable write start (some v) ≡ none)
          × (permits write v ≡ true → stack_end write start v ≡ false → ⊥))
unfolding usable
usable-some write start v h = elim (Bool-cases (permits write v)) [
  | inr e ↦ inr (rw (le→ltb start v.vm_start h, e) refl, λ g k. true-false g e)
  | inl e ↦ elim (Bool-cases (stack_end write start v)) [
    | inl g ↦ inr (rw (le→ltb start v.vm_start h, e, g) refl, λ k z. true-false g z)
    | inr g ↦ inl (rw (le→ltb start v.vm_start h, e, g) refl, e, g)
  ]
]

above_stack_end :
    (write : Bool) (a : ℕ) (v : Vma)
    → stack_end write a v ≡ false
    → (write && is_stack v) ≡ true
    → v.vm_start + pgsize ≤ a
above_stack_end write a v e g = ground arith

below_stack_end :
    (write : Bool) (a : ℕ) (v : Vma)
    → ((write && is_stack v) ≡ true → v.vm_start + pgsize ≤ a)
    → stack_end write a v ≡ false
below_stack_end false a v h = refl
below_stack_end true a v h = elim (Bool-cases (is_stack v)) [
  | inl g ↦ rw (g, le→ltb a (v.vm_start + pgsize) (h g)) refl
  | inr g ↦ rw g refl
]

-- Above an address that is not in the lowest page of a stack none is.
stack_end-above :
    (write : Bool) (start a : ℕ) (v : Vma)
    → start ≤ a
    → stack_end write start v ≡ false
    → stack_end write a v ≡ false
stack_end-above false start a v h e = refl
stack_end-above true start a v h e = ground arith

-- What the loop answers from `start` on.
pub record Answers (write : Bool) (vs : List Vma) (start end : ℕ) (b : Bool) : Type 0 where
  pub yes : b ≡ true → (a : ℕ) → start ≤ a → a < end → IsAccessible write vs a
  pub refuses : b ≡ false → (a : ℕ) × (start ≤ a) × (a < end) × (IsAccessible write vs a → ⊥)

unfoldable pub Checks : Bool → ℕ → ℕ → MmStruct → Run (Bool × MmStruct) → Type 0
Checks write start end mm r =
    (b : Bool) × (mm' : MmStruct) × (r ≡ ok (b, mm'))
    × (mm'.mmap_list ≡ mm.mmap_list)
    × Cached mm'.mmap_cache mm.mmap_list
    × Answers write mm.mmap_list start end b

-- an area that can be used, and what comes behind it
Answers-area :
    (write : Bool) (vs : List Vma) (start end : ℕ) (v : Vma) (b : Bool)
    → Areas 0 vs
    → find_in start vs ≡ some v
    → start < v.vm_end
    → permits write v ≡ true
    → stack_end write start v ≡ false
    → Answers write vs v.vm_end end b
    → Answers write vs start end b
Answers-area write vs start end v b w f h p s n = record {
  yes = λ e a l k. elim (Bool-cases (ltb a v.vm_end)) [
    | inl g ↦ (
      v,
      found-Cached 0 start vs v w f a (
          bounds-covers v a (omega (arith, (covers-bounds v start (find_in-covers start vs v f)).0))
            (ltb→lt _ _ g)),
      p,
      above_stack_end write a v (stack_end-above write start a v l s),
    )
    | inr g ↦ n.yes e a (ltb→le _ _ g) k
  ];
  refuses = λ e. let (a, l, k, x) = n.refuses e in (a, omega (arith, h, l), k, x);
}

check_loop-zero :
    (fuel : ℕ) (write : Bool) (start end : ℕ) (mm : MmStruct)
    → ltb start end ≡ false
    → Cached mm.mmap_cache mm.mmap_list
    → Checks write start end mm (check_loop fuel write start end mm)
unfolding check_loop Checks
check_loop-zero zero write start end mm e c = (
  true,
  mm,
  rw e refl,
  refl,
  c,
  record {
    yes = λ z a l k. absurd (omega (arith, ltb→le _ _ e));
    refuses = λ z. absurd (true-false refl z);
  },
)
check_loop-zero (suc fuel) write start end mm e c = (
  true,
  mm,
  rw e refl,
  refl,
  c,
  record {
    yes = λ z a l k. absurd (omega (arith, ltb→le _ _ e));
    refuses = λ z. absurd (true-false refl z);
  },
)

pub check_loop-Checks :
    (fuel : ℕ) (write : Bool) (start end : ℕ) (mm : MmStruct)
    → end ≤ start + fuel
    → Areas 0 mm.mmap_list
    → Cached mm.mmap_cache mm.mmap_list
    → Checks write start end mm (check_loop fuel write start end mm)
unfolding check_loop Checks
check_loop-Checks zero write start end mm f w c =
    check_loop-zero zero write start end mm (le→ltb start end (omega arith)) c
check_loop-Checks (suc fuel) write start end mm f w c = elim (Bool-cases (ltb start end)) [
  | inr e ↦ check_loop-zero (suc fuel) write start end mm e c
  | inl e ↦
      let (same, kept, cached) = find_vma-find_in start mm w c in
      let mm' = (find_vma start mm).1 in
      let refuse : (IsAccessible write mm.mmap_list start → ⊥)
          → usable write start (find_vma start mm).0 ≡ none
          → Checks write start end mm (check_loop (suc fuel) write start end mm) =
        λ x u. (
          false,
          mm',
          rw (e, u) refl,
          kept,
          cached,
          record {
            yes = λ z. absurd (true-false z refl);
            refuses = λ z. (start, omega arith, ltb→lt _ _ e, x);
          },
        ) in
      elim (Option-cases (find_in start mm.mmap_list)) [
        | inl g ↦
            refuse (λ x. none-ne-some x.0 (sym g ∙ x.1))
              (ap (usable write start) (same ∙ g) ∙ none-usable write start)
        | inr (v, g) ↦
            let inside = covers-bounds v start (find_in-covers start mm.mmap_list v g) in
            elim (usable-some write start v inside.0) [
              | inr (u, no_use) ↦
                  refuse
                    (λ x.
                      let one : v ≡ x.0 = some-injective v x.0 (sym g ∙ x.1) in
                      no_use (ap (permits write) one ∙ x.2)
                        (ap (stack_end write start) one ∙ below_stack_end write start x.0 x.3))
                    (ap (usable write start) (same ∙ g) ∙ u)
              | inl (u, p, s) ↦
                  let now : usable write start (find_vma start mm).0 ≡ some v =
                    ap (usable write start) (same ∙ g) ∙ u in
                  let (b, mm2, run, kept2, cached2, answers) =
                    check_loop-Checks fuel write v.vm_end end mm' (omega (arith, inside.1))
                      (rw kept w) (rw kept cached) in
                  (
                    b,
                    mm2,
                    rw (e, now) run,
                    kept2 ∙ kept,
                    subst (Cached mm2.mmap_cache) kept cached2,
                    Answers-area write mm.mmap_list start end v b w g inside.1 p s
                        (subst (λ vs. Answers write vs v.vm_end end b) kept answers),
                  )
            ]
      ]
]
