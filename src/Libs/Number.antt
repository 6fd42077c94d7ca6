-- ===== src/Libs/Number.antt =====
-- Numbers as text: `printnum` of lab8/libs/printfmt.c and `strtol` of lab8/libs/string.c.
-- A text is the list of its character codes, without the 0 at its end.
pub mod RoundTrip
mod Tests
use os_labs.Common.{
  ℕ, zero, suc, ◌+◌, ◌-◌, ◌*◌, ◌/◌, ◌%◌, ◌^◌, Bool, true, false, ◌&&◌, ◌||◌, ◌==◌, ltb, leb,
  if◌then◌else◌, Option, none, some, List, [], ◌∷◌, ◌++◌, Run, ok, no_fuel, ◌>>=◌, ℤ, pos, negsuc,
}

-- a character of "0123456789abcdef"
unfoldable pub digit : ℕ → ℕ
digit d = if ltb d 10 then 48 + d else 87 + d

unfoldable pub pad : ℕ → ℕ → List ℕ
pad zero padc = []
pad (suc n) padc = padc ∷ pad n padc

-- What is given to `putch`, in order; the calls are nested at most as deep as the first number says. A
-- width that is not positive counts as 0.
unfoldable pub printnum : ℕ → ℕ → ℕ → ℕ → ℕ → Run (List ℕ)
unfolding digit pad
printnum zero num base width padc = no_fuel
printnum (suc fuel) num base width padc =
    let before = printnum fuel (num / base) base (width - 1) padc in
    let last = digit (num % base) ∷ [] in
    if leb base num
    then (before >>= (λ out. ok (out ++ last)))
    else ok (pad (width - 1) padc ++ last)

-- the first character, 0 at the end
unfoldable pub char_of : List ℕ → ℕ
char_of [] = 0
char_of (c ∷ s) = c

unfoldable pub drop_one : List ℕ → List ℕ
drop_one [] = []
drop_one (c ∷ s) = s

-- `' '` or `'\t'`
unfoldable pub skip_blanks : List ℕ → List ℕ
skip_blanks [] = []
skip_blanks (c ∷ s) = let rest = skip_blanks s in if (c == 32) || (c == 9) then rest else c ∷ s

-- the value of a digit or letter
unfoldable pub digit_value : ℕ → Option ℕ
digit_value c =
    if leb 48 c && leb c 57
    then some (c - 48)
    else (if leb 97 c && leb c 122
        then some (c - 97 + 10)
        else (if leb 65 c && leb c 90 then some (c - 65 + 10) else none))

unfoldable pub in_base : ℕ → Option ℕ → Option ℕ
in_base base none = none
in_base base (some dig) = if leb base dig then none else some dig

unfoldable pub or_zero : Option ℕ → ℕ
or_zero none = 0
or_zero (some d) = d

unfoldable pub is_some : Option ℕ → Bool
is_some none = false
is_some (some d) = true

-- The loop over the digits: the value, 64 bits that wrap around, and the rest.
unfoldable pub read_digits : ℕ → ℕ → List ℕ → ℕ × List ℕ
unfolding digit_value in_base or_zero is_some
read_digits base val [] = (val, [])
read_digits base val (c ∷ s) =
    let dig = in_base base (digit_value c) in
    let rest = read_digits base ((val * base + or_zero dig) % 2 ^ 64) s in
    if is_some dig then rest else (val, c ∷ s)

-- the base and what follows its prefix
unfoldable pub skip_prefix : ℕ → List ℕ → ℕ × List ℕ
unfolding char_of drop_one
skip_prefix base s =
    if ((base == 0) || (base == 16)) && ((char_of s == 48) && (char_of (drop_one s) == 120))
    then (16, drop_one (drop_one s))
    else (if (base == 0) && (char_of s == 48)
        then (8, drop_one s)
        else (if base == 0 then (10, s) else (base, s)))

-- past a '+' or a '-'
unfoldable pub skip_sign : List ℕ → List ℕ
unfolding char_of drop_one
skip_sign s = if (char_of s == 43) || (char_of s == 45) then drop_one s else s

-- 64 bits as a `long`
unfoldable pub to_long : ℕ → ℤ
to_long val = if ltb val (2 ^ 63) then pos val else negsuc (2 ^ 64 - 1 - val)

-- `neg ? -val : val`
unfoldable pub signed : Bool → ℕ → ℤ
unfolding to_long
signed neg val = to_long (if neg then (2 ^ 64 - val) % 2 ^ 64 else val)

-- the value and `*endptr`
unfoldable pub strtol : List ℕ → ℕ → ℤ × List ℕ
unfolding skip_blanks skip_sign skip_prefix read_digits signed char_of
strtol s base =
    let t = skip_blanks s in
    let p = skip_prefix base (skip_sign t) in
    let r = read_digits p.0 0 p.1 in (signed (char_of t == 45) r.0, r.1)
