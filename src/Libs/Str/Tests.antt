-- ===== src/Libs/Str/Tests.antt =====
-- The string routines on a small memory.
use os_labs.Common.{ℕ, ◌≡◌, ◌↔◌, refl, List, [], ◌∷◌, arith, ok, ◌==◌, if◌then◌else◌, ℤ, pos}
use os_labs.Libs.Str.{Memory, store, strcmp, memmove, copy_down}
use os_labs.Libs.Str.Move.{memmove-moved}
use os_labs.Libs.Str.Cstring.{IsString}
use os_labs.Libs.Str.Compare.{strcmp-eq}

-- "ab" at 10, "ab" at 20 and zeros elsewhere
abbrev sample : Memory
sample a =
    if a == 10
    then 97
    else if a == 11
    then 98
    else if a == 20
    then 97
    else if a == 21
    then 98
    else 0

abbrev ab : List ℕ
ab = 97 ∷ 98 ∷ []

first-IsString : IsString sample 10 ab
first-IsString = (refl, omega arith, (refl, omega arith, refl))

second-IsString : IsString sample 20 ab
second-IsString = (refl, omega arith, (refl, omega arith, refl))

strcmp-eq_example : (r : ℤ) × (strcmp 5 10 20 sample ≡ ok r) × ((r ≡ pos 0) ↔ (ab ≡ ab))
strcmp-eq_example = strcmp-eq 5 10 20 sample ab ab first-IsString second-IsString (omega arith)

memmove-moved_example : memmove 11 10 2 sample 12 ≡ 98
memmove-moved_example = memmove-moved 11 10 2 sample 12

memmove_overlap : memmove 11 10 2 sample 12 ≡ 98
unfolding memmove copy_down store
memmove_overlap = refl
