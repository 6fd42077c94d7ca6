-- ===== src/Libs/Str/Cstring.antt =====
-- The routines on strings that end in a zero byte.
use os_labs.Common.{ℕ, zero, suc, ◌+◌, ◌<◌, ◌≡◌, ap, ◌∙◌, arith, List, [], ◌∷◌, length, ok, min}
use os_labs.Libs.Str.{Memory, strlen, strlen_loop, strnlen, strnlen_loop}

-- The bytes `xs`, none of them zero, stand at `s`, and a zero byte behind them.
abbrev pub IsString : Memory → ℕ → List ℕ → Type 0
IsString m s [] = m s ≡ 0
IsString m s (x ∷ xs) = (m s ≡ x) × (0 < x) × IsString m (s + 1) xs

strlen_loop-length :
    (fuel s cnt : ℕ) (m : Memory) (xs : List ℕ)
    → IsString m s xs
    → length xs < fuel
    → strlen_loop fuel s cnt m ≡ ok (cnt + length xs)
unfolding strlen_loop
strlen_loop-length zero s cnt m xs h f = absurd (omega arith)
strlen_loop-length (suc fuel) s cnt m [] h f = rw h (ap ok (omega arith))
strlen_loop-length (suc fuel) s cnt m (x ∷ xs) h f =
    ground (arith, strlen_loop-length fuel (s + 1) (cnt + 1) m xs h.2)

-- `strlen` of a string, given fuel for more rounds than the string has bytes, ends with the number of
-- bytes before the zero byte.
pub strlen-length :
    (fuel s : ℕ) (m : Memory) (xs : List ℕ)
    → IsString m s xs
    → length xs < fuel
    → strlen fuel s m ≡ ok (length xs)
unfolding strlen
strlen-length fuel s m xs h f = strlen_loop-length fuel s 0 m xs h f ∙ ap ok (omega arith)

strnlen_loop-min :
    (len s cnt : ℕ) (m : Memory) (xs : List ℕ)
    → IsString m s xs
    → strnlen_loop len s cnt m ≡ cnt + min (length xs) len
unfolding strnlen_loop
strnlen_loop-min zero s cnt m xs h = omega arith
strnlen_loop-min (suc len) s cnt m [] h = rw h (omega arith)
strnlen_loop-min (suc len) s cnt m (x ∷ xs) h =
    ground (arith, strnlen_loop-min len (s + 1) (cnt + 1) m xs h.2)

-- `strnlen` of a string is the smaller of the string's length and the limit.
pub strnlen-min :
    (s len : ℕ) (m : Memory) (xs : List ℕ) → IsString m s xs → strnlen s len m ≡ min (length xs) len
unfolding strnlen
strnlen-min s len m xs h = strnlen_loop-min len s 0 m xs h ∙ omega arith
