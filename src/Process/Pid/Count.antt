-- ===== src/Process/Pid/Count.antt =====
-- How many different numbers a list can hold.
use mathlib.Core.List.{Memᴰ}
use mathlib.Core.List.Memᴰ
use os_labs.Common.{
  ℕ, zero, suc, ◌+◌, ◌≤◌, ◌<◌, ◌&&◌, ltb, if◌then◌else◌, List, [], ◌∷◌, length, arith, inl, inr,
}

-- All numbers from `a` up to but not including `b` are in the list.
abbrev pub Covered : ℕ → ℕ → List ℕ → Type 0
Covered a b xs = (q : ℕ) → a ≤ q → q < b → Memᴰ q xs

-- how many entries lie from 1 up to but not including `b`
abbrev within : ℕ → List ℕ → ℕ
within b [] = 0
within b (x ∷ xs) = (if ltb 0 x && ltb x b then 1 else 0) + within b xs

within-length : (b : ℕ) (xs : List ℕ) → within b xs ≤ length xs
within-length b [] = omega arith
within-length b (x ∷ xs) = ground (arith, within-length b xs)

within_mono : (b : ℕ) (xs : List ℕ) → within b xs ≤ within (suc b) xs
within_mono b [] = omega arith
within_mono b (x ∷ xs) = ground (arith, within_mono b xs)

within-mem : (b : ℕ) (xs : List ℕ) → 1 ≤ b → Memᴰ b xs → within b xs < within (suc b) xs
within-mem b [] h m = absurd (Memᴰ.not-nil m)
within-mem b (x ∷ xs) h m = elim (Memᴰ.cases_cons m) [
  | inl e ↦ ground (arith, within_mono b xs)
  | inr t ↦ ground (arith, within-mem b xs h t)
]

Covered-within : (b : ℕ) (xs : List ℕ) → Covered 1 (suc b) xs → b ≤ within (suc b) xs
Covered-within zero xs c = omega arith
Covered-within (suc b) xs c =
    let low : b ≤ within (suc b) xs = Covered-within b xs (λ q p r. c q p (omega arith)) in
    omega (arith, within-mem (suc b) xs (omega arith) (c (suc b) (omega arith) (omega arith)))

-- A list that holds the numbers from 1 to before `b` is that long.
pub Covered-length : (b : ℕ) (xs : List ℕ) → 1 ≤ b → Covered 1 b xs → b ≤ suc (length xs)
Covered-length zero xs h c = absurd (omega arith)
Covered-length (suc b) xs h c = omega (arith, Covered-within b xs c, within-length (suc b) xs)
