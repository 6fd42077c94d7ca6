-- ===== src/Libs/Number/Tests.antt =====
-- Numbers printed and read.
use os_labs.Common.{ℕ, ◌≡◌, refl, arith, List, [], ◌∷◌, ok, pos, negsuc}
use os_labs.Libs.Number.{
  digit, pad, printnum, char_of, drop_one, skip_blanks, digit_value, in_base, or_zero, is_some,
  read_digits, skip_prefix, skip_sign, to_long, signed, strtol,
}
use os_labs.Libs.Number.RoundTrip.{strtol-printnum}

-- 255 in hexadecimal, in a field of four
run_printnum : printnum 9 255 16 4 32 ≡ ok (32 ∷ 32 ∷ 102 ∷ 102 ∷ [])
unfolding printnum digit pad
run_printnum = refl

-- " -0x1fz" in base 0
run_strtol : strtol (32 ∷ 45 ∷ 48 ∷ 120 ∷ 49 ∷ 102 ∷ 122 ∷ []) 0 ≡ (negsuc 30, 122 ∷ [])
unfolding strtol skip_blanks skip_sign skip_prefix read_digits digit_value in_base or_zero is_some
    char_of drop_one signed to_long
run_strtol = refl

strtol-printnum_example :
    (out : List ℕ) × (printnum 256 255 16 4 32 ≡ ok out) × (strtol out 16 ≡ (pos 255, []))
strtol-printnum_example =
    strtol-printnum 256 255 16 4 (omega arith) (omega arith) (omega arith) (omega arith)
