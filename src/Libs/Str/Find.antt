-- ===== src/Libs/Str/Find.antt =====
-- `strchr` and `strfind` on strings that end in a zero byte.
use os_labs.Common.{
  ℕ, zero, suc, ◌+◌, ◌<◌, ◌≡◌, refl, ap, arith, Option, none, some, ◌==◌, if◌then◌else◌, List, [],
  ◌∷◌, length, ok,
}
use os_labs.Libs.Str.{Memory, strchr, strfind}
use os_labs.Libs.Str.Cstring.{IsString}

-- where a byte stands first, counted from the address `s`
unfoldable pub first_at : ℕ → ℕ → List ℕ → Option ℕ
first_at s c [] = none
first_at s c (x ∷ xs) = if x == c then some s else first_at (s + 1) c xs

-- `strchr` gives the first place of the byte in the string, or NULL.
pub strchr-first_at :
    (fuel s c : ℕ) (m : Memory) (xs : List ℕ)
    → IsString m s xs
    → length xs < fuel
    → strchr fuel s c m ≡ ok (first_at s c xs)
unfolding strchr first_at
strchr-first_at zero s c m xs h f = absurd (omega arith)
strchr-first_at (suc fuel) s c m [] h f = rw h refl
strchr-first_at (suc fuel) s c m (x ∷ xs) h f =
    ground (arith, strchr-first_at fuel (s + 1) c m xs h.2)

abbrev pub or_else : Option ℕ → ℕ → ℕ
or_else none e = e
or_else (some a) e = a

strfind-first_at :
    (fuel s c : ℕ) (m : Memory) (xs : List ℕ)
    → IsString m s xs
    → length xs < fuel
    → strfind fuel s c m ≡ ok (or_else (first_at s c xs) (s + length xs))
unfolding strfind first_at
strfind-first_at zero s c m xs h f = absurd (omega arith)
strfind-first_at (suc fuel) s c m [] h f = rw h (ap ok (omega arith))
strfind-first_at (suc fuel) s c m (x ∷ xs) h f =
    let move : s + 1 + length xs ≡ s + suc (length xs) = omega arith in
    ground (arith, strfind-first_at fuel (s + 1) c m xs h.2, move)

-- On a string, given fuel for more rounds than it has bytes, `strfind` and `strchr` end, and `strfind`
-- gives what `strchr` gives, but the address of the zero byte where `strchr` gives NULL.
pub strfind-strchr :
    (fuel s c : ℕ) (m : Memory) (xs : List ℕ)
    → IsString m s xs
    → length xs < fuel
    → (found : Option ℕ) × (strchr fuel s c m ≡ ok found)
      × (strfind fuel s c m ≡ ok (or_else found (s + length xs)))
strfind-strchr fuel s c m xs h f =
    (first_at s c xs, strchr-first_at fuel s c m xs h f, strfind-first_at fuel s c m xs h f)
