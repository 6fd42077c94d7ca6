-- ===== src/Common/Bits.antt =====
-- Single bits of a number: reading one, and what `&`, `^` and `|` by a power of two do to it.
use Prim.Native.Nat.{
  ℕ, zero, suc, ◌+◌, ◌*◌, ◌/◌, ◌%◌, ◌^◌, ◌≤◌, ◌<◌, min, max, bit_and, bit_or, bit_xor, digits,
  bitwise, differ, bit_and-bitwise, bit_or-bitwise, bit_xor-bitwise,
}
use mathlib.Core.Path.{◌≡◌, refl, ap}
use mathlib.Core.Logic.{◌≢◌, ◌⊎◌, inl, inr}
use mathlib.Core.Bool.{Bool, false, not}
use native.Mathlib.Nat.{pow-suc, le_refl}
use native.Mathlib.Omega.{arith}
use os_labs.Common.Tests.{◌==◌}

-- `digits` runs on fuel: any two amounts that reach the first number give the same.
module _ (keep : ℕ → ℕ) (op : ℕ → ℕ → ℕ) where
  any_fuel : (k l b a : ℕ) → a ≤ k → a ≤ l → digits keep op k a b ≡ digits keep op l a b
  any_fuel zero zero b zero p q = refl
  any_fuel zero (suc l) b zero p q = refl
  any_fuel (suc k) zero b zero p q = refl
  any_fuel (suc k) (suc l) b zero p q = refl
  any_fuel zero l b (suc a) p q = absurd (omega arith)
  any_fuel (suc k) zero b (suc a) p q = absurd (omega arith)
  any_fuel (suc k) (suc l) b (suc a) p q =
      rw (any_fuel k l (b / 2) (suc a / 2) (omega arith) (omega arith)) refl

  low_digit :
      (a b : ℕ)
      → bitwise keep op (suc a) b ≡ bitwise keep op (suc a / 2) (b / 2) * 2 + op (suc a % 2) (b % 2)
  low_digit a b = rw (any_fuel a (suc a / 2) (b / 2) (suc a / 2) (omega arith) (le_refl _)) refl

and-low : (a b : ℕ) → bit_and a b ≡ bit_and (a / 2) (b / 2) * 2 + min (a % 2) (b % 2)
and-low zero b = simp bit_and-bitwise (omega arith)
and-low (suc a) b =
    rw (bit_and-bitwise (suc a) b, bit_and-bitwise (suc a / 2) (b / 2)) (low_digit _ min a b)

or-low : (a b : ℕ) → bit_or a b ≡ bit_or (a / 2) (b / 2) * 2 + max (a % 2) (b % 2)
or-low zero b = simp bit_or-bitwise (omega arith)
or-low (suc a) b =
    rw (bit_or-bitwise (suc a) b, bit_or-bitwise (suc a / 2) (b / 2)) (low_digit _ max a b)

xor-low : (a b : ℕ) → bit_xor a b ≡ bit_xor (a / 2) (b / 2) * 2 + differ (a % 2) (b % 2)
xor-low zero b = simp bit_xor-bitwise (omega arith)
xor-low (suc a) b =
    rw (bit_xor-bitwise (suc a) b, bit_xor-bitwise (suc a / 2) (b / 2)) (low_digit _ differ a b)

differ_zero : (y : ℕ) → differ y 0 ≡ y
differ_zero zero = refl
differ_zero (suc y) = refl

digits_and-zero : (k a : ℕ) → digits (λ b. 0) min k a 0 ≡ 0
digits_and-zero zero a = refl
digits_and-zero (suc k) zero = refl
digits_and-zero (suc k) (suc a) = rw (digits_and-zero k (suc a / 2)) (omega arith)

and_zero : (a : ℕ) → bit_and a 0 ≡ 0
and_zero a = rw (bit_and-bitwise a 0) (digits_and-zero a a)

digits_xor-zero : (k a : ℕ) → a ≤ k → digits (λ b. b) differ k a 0 ≡ a
digits_xor-zero zero zero h = refl
digits_xor-zero zero (suc a) h = absurd (omega arith)
digits_xor-zero (suc k) zero h = refl
digits_xor-zero (suc k) (suc a) h =
    rw (digits_xor-zero k (suc a / 2) (omega arith)) (rw (differ_zero (suc a % 2)) (omega arith))

pub xor_zero : (a : ℕ) → bit_xor a 0 ≡ a
xor_zero a = rw (bit_xor-bitwise a 0) (digits_xor-zero a a (le_refl a))

-- bit `k` of `w`
abbrev pub has_bit : ℕ → ℕ → Bool
has_bit zero w = w % 2 == 1
has_bit (suc k) w = has_bit k (w / 2)

half_pow : (k : ℕ) → 2 ^ suc k / 2 ≡ 2 ^ k
half_pow k = rw (pow-suc 2 k) (omega arith)

even_pow : (k : ℕ) → 2 ^ suc k % 2 ≡ 0
even_pow k = rw (pow-suc 2 k) (omega arith)

pub xor-shift : (k w : ℕ) → bit_xor w (2 ^ suc k) ≡ bit_xor (w / 2) (2 ^ k) * 2 + w % 2
xor-shift k w = rw (xor-low w (2 ^ suc k), half_pow k, even_pow k) (rw (differ_zero (w % 2)) refl)

and-shift : (k w : ℕ) → bit_and w (2 ^ suc k) ≡ bit_and (w / 2) (2 ^ k) * 2
and-shift k w = rw (and-low w (2 ^ suc k), half_pow k, even_pow k) (omega arith)

or-shift : (k w : ℕ) → bit_or w (2 ^ suc k) ≡ bit_or (w / 2) (2 ^ k) * 2 + w % 2
or-shift k w = rw (or-low w (2 ^ suc k), half_pow k, even_pow k) (omega arith)

parity : (w : ℕ) → (w % 2 ≡ 0) ⊎ (w % 2 ≡ 1)
parity w = ground arith

div_two : (q r : ℕ) → r < 2 → (q * 2 + r) / 2 ≡ q
div_two q r h = omega arith

mod_two : (q r : ℕ) → r < 2 → (q * 2 + r) % 2 ≡ r
mod_two q r h = omega arith

differ_bound : (w : ℕ) → differ (w % 2) 1 < 2
differ_bound w = elim (parity w) [ inl e ↦ rw e (omega arith) | inr e ↦ rw e (omega arith) ]

mod_bound : (w : ℕ) → w % 2 < 2
mod_bound w = omega arith

double_zero : (x : ℕ) → (x * 2 == 0) ≡ (x == 0)
double_zero x = ground arith

clear_low : (w : ℕ) → has_bit 0 w ≡ false → w % 2 ≡ 0
clear_low w h = ground arith

digits_or-zero : (k a : ℕ) → a ≤ k → digits (λ b. b) max k a 0 ≡ a
digits_or-zero zero zero h = refl
digits_or-zero zero (suc a) h = absurd (omega arith)
digits_or-zero (suc k) zero h = refl
digits_or-zero (suc k) (suc a) h = rw (digits_or-zero k (suc a / 2) (omega arith)) (omega arith)

or_zero : (a : ℕ) → bit_or a 0 ≡ a
or_zero a = rw (bit_or-bitwise a 0) (digits_or-zero a a (le_refl a))

-- `w & 1 << k` is nonzero exactly if the bit is set.
pub and-has_bit : (k w : ℕ) → (bit_and w (2 ^ k) == 0) ≡ not (has_bit k w)
and-has_bit zero w =
    rw (and-low w 1, and_zero (w / 2)) (elim (parity w) [ inl e ↦ rw e refl | inr e ↦ rw e refl ])
and-has_bit (suc k) w =
    rw (and-shift k w, double_zero (bit_and (w / 2) (2 ^ k))) (and-has_bit k (w / 2))

-- `w ^ 1 << k` flips the bit `k`,
pub xor-flips : (k w : ℕ) → has_bit k (bit_xor w (2 ^ k)) ≡ not (has_bit k w)
xor-flips zero w =
    rw (xor-low w 1, xor_zero (w / 2), mod_two (w / 2) (differ (w % 2) 1) (differ_bound w))
      (elim (parity w) [ inl e ↦ rw e refl | inr e ↦ rw e refl ])
xor-flips (suc k) w =
    rw (xor-shift k w, div_two (bit_xor (w / 2) (2 ^ k)) (w % 2) (mod_bound w))
      (xor-flips k (w / 2))

-- and no other.
pub xor-others : (k j w : ℕ) → j ≢ k → has_bit j (bit_xor w (2 ^ k)) ≡ has_bit j w
xor-others zero zero w h = absurd (h refl)
xor-others zero (suc j) w h =
    rw (xor-low w 1, xor_zero (w / 2), div_two (w / 2) (differ (w % 2) 1) (differ_bound w)) refl
xor-others (suc k) zero w h =
    rw (xor-shift k w, mod_two (bit_xor (w / 2) (2 ^ k)) (w % 2) (mod_bound w)) refl
xor-others (suc k) (suc j) w h =
    rw (xor-shift k w, div_two (bit_xor (w / 2) (2 ^ k)) (w % 2) (mod_bound w))
      (xor-others k j (w / 2) (λ e. h (ap suc e)))

-- A clear bit is set by `|` as by `^`.
pub or-clear : (k w : ℕ) → has_bit k w ≡ false → bit_or w (2 ^ k) ≡ bit_xor w (2 ^ k)
or-clear zero w h =
    rw (or-low w 1, xor-low w 1, or_zero (w / 2), xor_zero (w / 2)) (rw (clear_low w h) refl)
or-clear (suc k) w h = rw (or-shift k w, xor-shift k w, or-clear k (w / 2) h) refl

pub xor-bound : (n k w : ℕ) → k < n → w < 2 ^ n → bit_xor w (2 ^ k) < 2 ^ n
xor-bound zero k w p q = absurd (omega arith)
xor-bound (suc n) zero w p q =
    rw (xor-low w 1, xor_zero (w / 2)) (omega (arith, pow-suc 2 n, differ_bound w))
xor-bound (suc n) (suc k) w p q =
    let rest : bit_xor (w / 2) (2 ^ k) < 2 ^ n =
      xor-bound n k (w / 2) (omega arith) (omega (arith, pow-suc 2 n)) in
    rw (xor-shift k w) (omega (arith, pow-suc 2 n, rest))

-- A word with no bit below its width is 0.
pub no_bit→zero : (n w : ℕ) → w < 2 ^ n → ((k : ℕ) → k < n → has_bit k w ≡ false) → w ≡ 0
no_bit→zero zero w p h = omega arith
no_bit→zero (suc n) w p h =
    let half : w / 2 ≡ 0 =
      no_bit→zero n (w / 2) (omega (arith, pow-suc 2 n)) (λ k b. h (suc k) (omega arith)) in
    omega (arith, clear_low w (h 0 (omega arith)))

pub has_bit-zero : (k : ℕ) → has_bit k 0 ≡ false
has_bit-zero zero = refl
has_bit-zero (suc k) = has_bit-zero k

pub xor_twice : (k w : ℕ) → bit_xor (bit_xor w (2 ^ k)) (2 ^ k) ≡ w
xor_twice zero w =
    rw
      (
        xor-low (bit_xor w 1) 1,
        xor-low w 1,
        xor_zero (w / 2),
        div_two (w / 2) (differ (w % 2) 1) (differ_bound w),
        mod_two (w / 2) (differ (w % 2) 1) (differ_bound w),
        xor_zero (w / 2),
      )
      (elim (parity w) [ inl e ↦ rw e (omega arith) | inr e ↦ rw e (omega arith) ])
xor_twice (suc k) w =
    rw
      (
        xor-shift k (bit_xor w (2 ^ suc k)),
        xor-shift k w,
        div_two (bit_xor (w / 2) (2 ^ k)) (w % 2) (mod_bound w),
        mod_two (bit_xor (w / 2) (2 ^ k)) (w % 2) (mod_bound w),
        xor_twice k (w / 2),
      )
      (omega arith)
