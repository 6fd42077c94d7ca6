-- ===== src/Libs/Str/Copy.antt =====
-- `strcpy` on strings that end in a zero byte.
use os_labs.Common.{
  ℕ, zero, suc, ◌+◌, ◌≤◌, ◌<◌, ◌≡◌, refl, ap, ◌⊎◌, false, arith, ◌==◌, List, [], ◌∷◌, length, ok,
}
use os_labs.Libs.Str.{Memory, store, strcpy, strcpy_loop, copy_up, memcpy}
use os_labs.Libs.Str.Cstring.{IsString}

-- A byte written outside a string and its end leaves it a string.
IsString-store :
    (m : Memory) (p v s : ℕ) (xs : List ℕ)
    → (p < s) ⊎ (s + length xs < p)
    → IsString m s xs
    → IsString (store m p v) s xs
unfolding store
IsString-store m p v s [] o h = ground arith
IsString-store m p v s (x ∷ xs) o h =
    (ground arith, h.1, IsString-store m p v (s + 1) xs (omega arith) h.2)

strcpy_loop-copy_up :
    (fuel p src : ℕ) (m : Memory) (xs : List ℕ)
    → IsString m src xs
    → (p ≤ src) ⊎ (src + length xs < p)
    → length xs < fuel
    → strcpy_loop fuel p src m ≡ ok (copy_up p src (suc (length xs)) m)
unfolding strcpy_loop copy_up
strcpy_loop-copy_up zero p src m xs h o f = absurd (omega arith)
strcpy_loop-copy_up (suc fuel) p src m [] h o f = rw (ap (λ b. b == 0) h) refl
strcpy_loop-copy_up (suc fuel) p src m (x ∷ xs) h o f =
    let more : (m src == 0) ≡ false = ground arith in
    rw more (
      strcpy_loop-copy_up fuel (p + 1) (src + 1) (store m p (m src)) xs
        (IsString-store m p (m src) (src + 1) xs (omega arith) h.2) (omega arith) (omega arith))

-- `strcpy` of a string, given fuel for more rounds than the string has bytes, ends with the memory that
-- `memcpy` of its bytes and the zero byte leaves, where the destination does not begin inside the
-- source behind its first byte.
pub strcpy-memcpy :
    (fuel dst src : ℕ) (m : Memory) (xs : List ℕ)
    → IsString m src xs
    → (dst ≤ src) ⊎ (src + length xs < dst)
    → length xs < fuel
    → strcpy fuel dst src m ≡ ok (memcpy dst src (suc (length xs)) m)
unfolding strcpy memcpy
strcpy-memcpy fuel dst src m xs h o f = strcpy_loop-copy_up fuel dst src m xs h o f
