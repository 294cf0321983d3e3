-- ===== src/Common/Bits.antt =====
-- `|` of a shifted field and a field that fits below it, as a sum.
use Prim.Native.Nat.{ℕ, zero, suc, ◌+◌, ◌*◌, ◌/◌, ◌^◌, ◌≤◌, ◌<◌, max}
use Prim.Native.Nat.{bit_or, digits, bit_or-bitwise}
use mathlib.Core.Path.{◌≡◌, refl, ap, ◌∙◌}
use native.Mathlib.Nat.{pow-suc, le_refl}
use native.Mathlib.Omega.{arith}

abbrev or_digits : ℕ → ℕ → ℕ → ℕ
or_digits n a b = digits (λ d. d) max n a b

or_digits-zero : (n a : ℕ) → a ≤ n → or_digits n a 0 ≡ a
or_digits-zero zero a h = omega arith
or_digits-zero (suc n) zero h = refl
or_digits-zero (suc n) (suc a) h = omega (arith, or_digits-zero n (suc a / 2) (omega arith))

double_shift : (q k : ℕ) → q * 2 ^ suc k ≡ q * 2 ^ k * 2
double_shift q k = omega (arith, ap (λ (t : ℕ). q * t) (pow-suc 2 k))

-- `a` is a field shifted left by `k` bits.
or_digits-disjoint : (k n a r q : ℕ) → a ≡ q * 2 ^ k → a ≤ n → r < 2 ^ k → or_digits n a r ≡ a + r
or_digits-disjoint zero n a zero q e h fits = or_digits-zero n a h ∙ omega arith
or_digits-disjoint zero n a (suc r) q e h fits = absurd (omega arith)
or_digits-disjoint (suc k) zero a r q e h fits = omega arith
or_digits-disjoint (suc k) (suc n) zero r q e h fits = omega arith
or_digits-disjoint (suc k) (suc n) (suc a) r q e h fits = omega (
  arith,
  double_shift q k,
  pow-suc 2 k,
  or_digits-disjoint k n (suc a / 2) (r / 2) q (omega (arith, double_shift q k)) (omega arith)
      (omega (arith, pow-suc 2 k)),
)

-- `hi << k | lo`, for a `lo` that fits `k` bits
pub bit_or_disjoint : (k q r : ℕ) → r < 2 ^ k → bit_or (q * 2 ^ k) r ≡ q * 2 ^ k + r
bit_or_disjoint k q r fits =
    bit_or-bitwise (q * 2 ^ k) r ∙ or_digits-disjoint k _ _ r q refl (le_refl _) fits
