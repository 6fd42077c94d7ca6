-- ===== src/Libs/Str/Compare.antt =====
-- `strcmp` on strings that end in a zero byte.
use mathlib.Core.Path.{subst, ap₂}
use os_labs.Common.{
  ℕ, zero, suc, ◌+◌, ◌<◌, ◌≡◌, ◌↔◌, refl, inl, inr, arith, ◌==◌, if◌then◌else◌, Bool-cases, List,
  [], ◌∷◌, length, ok, ℤ, pos, sub_ℕ, All, ==_iff, ==_refl,
}
use os_labs.Libs.Str.{Memory, strcmp}
use os_labs.Libs.Str.Cstring.{IsString}

-- the result of comparing two strings: the difference at the first place where they differ
unfoldable pub difference : List ℕ → List ℕ → ℤ
difference [] [] = pos 0
difference [] (y ∷ ys) = sub_ℕ 0 y
difference (x ∷ xs) [] = sub_ℕ x 0
difference (x ∷ xs) (y ∷ ys) = if x == y then difference xs ys else sub_ℕ x y

-- `strcmp` of two strings, given fuel for the first.
pub strcmp-difference :
    (fuel s t : ℕ) (m : Memory) (xs ys : List ℕ)
    → IsString m s xs
    → IsString m t ys
    → length xs < fuel
    → strcmp fuel s t m ≡ ok (difference xs ys)
unfolding strcmp difference
strcmp-difference zero s t m xs ys h k f = absurd (omega arith)
strcmp-difference (suc fuel) s t m [] [] h k f = rw (h, k) refl
strcmp-difference (suc fuel) s t m [] (y ∷ ys) h k f = rw (h, k.0) refl
strcmp-difference (suc fuel) s t m (x ∷ xs) [] h k f = rw (h.0, k) (ground arith)
strcmp-difference (suc fuel) s t m (x ∷ xs) (y ∷ ys) h k f =
    ground (arith, strcmp-difference fuel (s + 1) (t + 1) m xs ys h.2 k.2)

IsString-positive : (m : Memory) (s : ℕ) (xs : List ℕ) → IsString m s xs → All (λ x. 0 < x) xs
IsString-positive m s [] h = tt
IsString-positive m s (x ∷ xs) h = (h.1, IsString-positive m (s + 1) xs h.2)

eq_of-difference :
    (xs ys : List ℕ)
    → All (λ x. 0 < x) xs
    → All (λ y. 0 < y) ys
    → difference xs ys ≡ pos 0
    → xs ≡ ys
unfolding difference
eq_of-difference [] [] p q h = refl
eq_of-difference [] (y ∷ ys) p q h = absurd (ground arith)
eq_of-difference (x ∷ xs) [] p q h = absurd (ground arith)
eq_of-difference (x ∷ xs) (y ∷ ys) p q h = elim (Bool-cases (x == y)) [
  | inl e ↦
      ap₂ (λ a zs. a ∷ zs) ((==_iff x y).0 e)
        (eq_of-difference xs ys p.1 q.1
          (subst (λ b. (if b then difference xs ys else sub_ℕ x y) ≡ pos 0) e h))
  | inr e ↦ absurd (ground arith)
]

difference_self : (xs : List ℕ) → difference xs xs ≡ pos 0
unfolding difference
difference_self [] = refl
difference_self (x ∷ xs) = rw (==_refl x) (difference_self xs)

pos_of-ok : (a b : ℤ) → ok a ≡ ok b → a ≡ b
pos_of-ok a b h = cc

-- `strcmp` of two strings ends, given fuel for more rounds than the first has bytes, and its result is
-- zero exactly when they are the same string.
pub strcmp-eq :
    (fuel s t : ℕ) (m : Memory) (xs ys : List ℕ)
    → IsString m s xs
    → IsString m t ys
    → length xs < fuel
    → (r : ℤ) × (strcmp fuel s t m ≡ ok r) × ((r ≡ pos 0) ↔ (xs ≡ ys))
strcmp-eq fuel s t m xs ys h k f = (
  difference xs ys,
  strcmp-difference fuel s t m xs ys h k f,
  (
    eq_of-difference xs ys (IsString-positive m s xs h) (IsString-positive m t ys k),
    λ e. subst (λ zs. difference xs zs ≡ pos 0) e (difference_self xs),
  ),
)
