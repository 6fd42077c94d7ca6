-- ===== src/Libs/Number/RoundTrip.antt =====
-- What `printnum` prints, `strtol` reads back.
use mathlib.Core.Bool.{true≢false}
use mathlib.Core.List.{append_assoc}
use native.Mathlib.Nat.{div-lt_self, div-add-mod, mod-lt, mod-eq_of_lt, mul_comm}
use os_labs.Common.{
  ℕ, zero, suc, ◌+◌, ◌-◌, ◌*◌, ◌/◌, ◌%◌, ◌^◌, ◌≤◌, ◌<◌, ◌≡◌, refl, sym, ap, ◌∙◌, arith, Bool, true,
  false, ◌&&◌, ◌==◌, ltb, leb, some, List, [], ◌∷◌, ◌++◌, All, Bool-cases, inl, inr, ltb→lt, ltb→le,
  leb→le, leb→lt, lt→leb, le→leb, lt→ltb, ==_ne, ok, pos,
}
use os_labs.Libs.Number.{
  digit, pad, printnum, char_of, drop_one, skip_blanks, digit_value, in_base, or_zero, is_some,
  read_digits, skip_prefix, skip_sign, signed, to_long, strtol,
}

minus_48 : (d : ℕ) → 48 + d - 48 ≡ d
minus_48 d = omega arith

minus_87 : (d : ℕ) → 10 ≤ d → 87 + d - 97 + 10 ≡ d
minus_87 d h = omega arith

digit-value : (base d : ℕ) → d < base → base ≤ 16 → in_base base (digit_value (digit d)) ≡ some d
unfolding digit digit_value in_base
digit-value base d h k = elim (Bool-cases (ltb d 10)) [
  | inl e ↦
      rw (e, le→leb 48 (48 + d) (omega arith), le→leb (48 + d) 57 (omega (arith, ltb→lt d 10 e)))
        (rw (minus_48 d, lt→leb base d h) refl)
  | inr e ↦
      rw
        (
          e,
          lt→leb (87 + d) 57 (omega (arith, ltb→le d 10 e)),
          le→leb 48 (87 + d) (omega arith),
          le→leb 97 (87 + d) (omega (arith, ltb→le d 10 e)),
          le→leb (87 + d) 122 (omega arith),
        )
        (rw (minus_87 d (ltb→le d 10 e), lt→leb base d h) refl)
]

-- The loop of strtol goes on at `c`.
abbrev InBase : ℕ → ℕ → Type 0
InBase base c = is_some (in_base base (digit_value c)) ≡ true

read_digits-append :
    (base v : ℕ) (ds ys : List ℕ)
    → All (InBase base) ds
    → read_digits base v (ds ++ ys) ≡ read_digits base (read_digits base v ds).0 ys
unfolding read_digits
read_digits-append base v [] ys h = refl
read_digits-append base v (c ∷ ds) ys h = rw h.0 (
    read_digits-append base ((v * base + or_zero (in_base base (digit_value c))) % 2 ^ 64) ds ys
      h.1)

read_digits-digit :
    (base v d : ℕ)
    → d < base
    → base ≤ 16
    → read_digits base v (digit d ∷ []) ≡ ((v * base + d) % 2 ^ 64, [])
unfolding read_digits is_some or_zero
read_digits-digit base v d h k = rw (digit-value base d h k) refl

digit-InBase : (base d : ℕ) → d < base → base ≤ 16 → InBase base (digit d)
unfolding is_some
digit-InBase base d h k = rw (digit-value base d h k) refl

append-one-All :
    (base : ℕ) (ds : List ℕ) (c : ℕ)
    → All (InBase base) ds
    → InBase base c
    → All (InBase base) (ds ++ (c ∷ []))
append-one-All base [] c h k = (k, tt)
append-one-All base (d ∷ ds) c h k = (h.0, append-one-All base ds c h.1 k)

-- Blanks, and then the digits of `num`, one at least.
abbrev Printed : ℕ → ℕ → ℕ → ℕ → Type 0
Printed fuel num base width =
    (n : ℕ) × (c : ℕ) × (ds : List ℕ) × (printnum fuel num base width 32
      ≡ ok (pad n 32 ++ (c ∷ ds)))
    × (read_digits base 0 (c ∷ ds) ≡ (num, []))
    × All (InBase base) (c ∷ ds)

whole : (num base : ℕ) → num / base * base + num % base ≡ num
whole num base = omega (arith, div-add-mod num base, mul_comm base (num / base))

smaller : (num base : ℕ) → 2 ≤ base → base ≤ num → num / base < num
smaller num base h k = div-lt_self (omega arith) (omega arith)

printnum-Printed :
    (fuel num base width : ℕ)
    → num < fuel
    → num < 2 ^ 63
    → 2 ≤ base
    → base ≤ 16
    → Printed fuel num base width
unfolding printnum
printnum-Printed zero num base width h lim b c = absurd (omega arith)
printnum-Printed (suc fuel) num base width h lim b k = elim (Bool-cases (leb base num)) [
  | inl e ↦ more (leb→le base num e) e (
      printnum-Printed fuel (num / base) base (width - 1)
        (omega (arith, smaller num base b (leb→le base num e)))
        (omega (arith, lim, smaller num base b (leb→le base num e))) b k)
  | inr e ↦ last (leb→lt base num e) e
]
  where
    last : num < base → leb base num ≡ false → Printed (suc fuel) num base width
    last l e = (
      width - 1,
      digit num,
      [],
      rw (e, mod-eq_of_lt l) refl,
      read_digits-digit base 0 num l k ∙ ap (λ v. (v, [])) (omega (arith, lim)),
      (digit-InBase base num l k, tt),
    )

    more :
        base ≤ num
        → leb base num ≡ true
        → Printed fuel (num / base) base (width - 1)
        → Printed (suc fuel) num base width
    more l e (n, c, ds, q, r, a) = (
      n,
      c,
      ds ++ (digit (num % base) ∷ []),
      rw (e, q) (ap ok (append_assoc (pad n 32) (c ∷ ds) (digit (num % base) ∷ []))),
      read_digits-append base 0 (c ∷ ds) (digit (num % base) ∷ []) a
          ∙ ap (λ t. read_digits base t.0 (digit (num % base) ∷ [])) r
          ∙ read_digits-digit base (num / base) (num % base) (mod-lt num (omega arith)) k
          ∙ ap (λ v. (v, [])) (ap (λ v. v % 2 ^ 64) (whole num base) ∙ omega (arith, lim)),
      append-one-All base (c ∷ ds) (digit (num % base)) a
          (digit-InBase base (num % base) (mod-lt num (omega arith)) k),
    )

-- A character that the loop takes is no other one.
InBase-other :
    (base c z : ℕ)
    → is_some (in_base base (digit_value z)) ≡ false
    → InBase base c
    → (c == z) ≡ false
InBase-other base c z out h =
    ==_ne c z (λ e. true≢false (sym h ∙ ap (λ x. is_some (in_base base (digit_value x))) e ∙ out))

x-out : (base : ℕ) → base ≤ 16 → is_some (in_base base (digit_value 120)) ≡ false
unfolding in_base digit_value is_some
x-out base h = rw (le→leb base 33 (omega arith)) refl

module _ (base c : ℕ) (h : InBase base c) where
  skip_blanks-digit : (ds : List ℕ) → skip_blanks (c ∷ ds) ≡ c ∷ ds
  unfolding skip_blanks digit_value in_base is_some
  skip_blanks-digit ds = rw (InBase-other base c 32 refl h, InBase-other base c 9 refl h) refl

  skip_blanks-pad : (n : ℕ) (ds : List ℕ) → skip_blanks (pad n 32 ++ (c ∷ ds)) ≡ c ∷ ds
  unfolding skip_blanks pad
  skip_blanks-pad zero ds = skip_blanks-digit ds
  skip_blanks-pad (suc n) ds = skip_blanks-pad n ds

  skip_sign-digit : (ds : List ℕ) → skip_sign (c ∷ ds) ≡ c ∷ ds
  unfolding skip_sign char_of digit_value in_base is_some
  skip_sign-digit ds = rw (InBase-other base c 43 refl h, InBase-other base c 45 refl h) refl

  not_minus : (c == 45) ≡ false
  unfolding digit_value in_base is_some
  not_minus = InBase-other base c 45 refl h

second : (base : ℕ) (ds : List ℕ) → base ≤ 16 → All (InBase base) ds → (char_of ds == 120) ≡ false
unfolding char_of
second base [] k h = refl
second base (c ∷ ds) k h = InBase-other base c 120 (x-out base k) h.0

and_false : (x y : Bool) → (x && (y && false)) ≡ false
and_false true true = refl
and_false true false = refl
and_false false y = refl

skip_prefix-digits :
    (base c : ℕ) (ds : List ℕ)
    → 2 ≤ base
    → base ≤ 16
    → All (InBase base) ds
    → skip_prefix base (c ∷ ds) ≡ (base, c ∷ ds)
unfolding skip_prefix drop_one char_of
skip_prefix-digits base c ds b k h =
    rw (==_ne base 0 (omega arith), second base ds k h) (rw (and_false (base == 16) (c == 48)) refl)

-- For a base from 2 to 16, a number below 2 ^ 63, any width, blanks as padding, and nesting that may be
-- deeper than the number, printnum ends and strtol in that base reads the number back, to the end.
pub strtol-printnum :
    (fuel num base width : ℕ)
    → num < fuel
    → num < 2 ^ 63
    → 2 ≤ base
    → base ≤ 16
    → (out : List ℕ) × (printnum fuel num base width 32 ≡ ok out)
      × (strtol out base ≡ (pos num, []))
unfolding strtol signed to_long char_of
strtol-printnum fuel num base width h lim b k =
    let (n, c, ds, q, r, a) = printnum-Printed fuel num base width h lim b k in
    (
      pad n 32 ++ (c ∷ ds),
      q,
      rw
          (
            skip_blanks-pad base c a.0 n ds,
            skip_sign-digit base c a.0 ds,
            skip_prefix-digits base c ds b k a.1,
            r,
          )
          (rw (not_minus base c a.0, lt→ltb num (2 ^ 63) lim) refl),
    )
