-- ===== src/Prelude/Bits.antt =====
-- Bitwise "and" of the native numbers with a mask of ones above zeros, and small ranges by evaluation.
use Prim.Native.Nat.{
  ℕ, zero, suc, ◌+◌, ◌-◌, ◌*◌, ◌/◌, ◌%◌, ◌^◌, ◌≤◌, ◌<◌, min, bit_and, digits, bit_and-bitwise,
}
use mathlib.Core.Path.{◌≡◌, refl, sym, ap, ◌∙◌}
use mathlib.Core.Bool.{Bool, true, false}
use clew_proxy.Prelude.Tests.{if◌then◌else◌}
use native.Mathlib.Omega.{arith}
use native.Mathlib.Nat.{pow-suc, two-pow-succ, mul_assoc, mul_comm, div-div-eq-div-mul}

-- Whether a test passes on all numbers below a bound, found by evaluation.
unfoldable pub passes_below : ℕ → (ℕ → Bool) → Bool
passes_below zero test = true
passes_below (suc bound) test = if test bound then passes_below bound test else false

pub test-passes_below :
    (test : ℕ → Bool) (bound k : ℕ) → k < bound → passes_below bound test ≡ true → test k ≡ true
unfolding passes_below
test-passes_below test zero k small all = elim small [ ]
test-passes_below test (suc bound) k small all = ground (arith, test-passes_below test bound k)

-- Digits beyond the first number's own do not count: for any operation on digits.
module _ (tail : ℕ → ℕ) (op : ℕ → ℕ → ℕ) where
  one_more_digit : (n a b : ℕ) → a ≤ n → digits tail op (suc n) a b ≡ digits tail op n a b
  one_more_digit n zero b small = first n
    where
      first : (k : ℕ) → tail b ≡ digits tail op k zero b
      first zero = refl
      first (suc k) = refl
  one_more_digit zero (suc a) b small = elim small [ ]
  one_more_digit (suc n) (suc a) b small =
      ap (λ (upper : ℕ). upper * 2 + op (suc a % 2) (b % 2))
        (one_more_digit n (suc a / 2) (b / 2) (omega arith))

  none_added : (a : ℕ) → 0 + a ≡ a
  none_added a = omega arith

  one_added : (k a : ℕ) → suc k + a ≡ suc (k + a)
  one_added k a = omega arith

  more_digits : (k a b : ℕ) → digits tail op (k + a) a b ≡ digits tail op a a b
  more_digits zero a b = ap (λ (n : ℕ). digits tail op n a b) (none_added a)
  more_digits (suc k) a b =
      ap (λ (n : ℕ). digits tail op n a b) (one_added k a)
      ∙ (one_more_digit (k + a) a b (omega arith) ∙ more_digits k a b)

bit_and-left_zero : (b : ℕ) → bit_and 0 b ≡ 0
bit_and-left_zero b = bit_and-bitwise zero b

-- The lowest digit of an "and", and the digits above it.
pub bit_and_step : (a b : ℕ) → bit_and a b ≡ bit_and (a / 2) (b / 2) * 2 + min (a % 2) (b % 2)
bit_and_step zero b = omega (bit_and-left_zero (b / 2), bit_and-left_zero b, arith)
bit_and_step (suc a) b =
    let upper = suc a / 2 in
    let spare : (a - upper) + upper ≡ a = omega arith in
    let fewer = more_digits (λ _. zero) min (a - upper) upper (b / 2) in
    bit_and-bitwise (suc a) b
    ∙ ap (λ (high : ℕ). high * 2 + min (suc a % 2) (b % 2))
        (ap (λ (n : ℕ). digits (λ _. zero) min n upper (b / 2)) (sym spare)
          ∙ (fewer ∙ sym (bit_and-bitwise upper (b / 2))))

digits-right_zero : (n a : ℕ) → digits (λ _. zero) min n a 0 ≡ 0
digits-right_zero zero a = refl
digits-right_zero (suc n) zero = refl
digits-right_zero (suc n) (suc a) = omega (digits-right_zero n (suc a / 2), arith)

pub bit_and-zero : (a : ℕ) → bit_and a 0 ≡ 0
bit_and-zero a = bit_and-bitwise a 0 ∙ digits-right_zero a a

-- `ones p` is 2 ^ p - 1, and `shifted m k` is m * 2 ^ k, each a digit at a time.
unfoldable pub ones : ℕ → ℕ
ones zero = 0
ones (suc p) = ones p * 2 + 1

unfoldable pub shifted : ℕ → ℕ → ℕ
shifted m zero = m
shifted m (suc k) = shifted m k * 2

pub halves : ℕ → ℕ → ℕ
halves a zero = a
halves a (suc k) = halves (a / 2) k

pub ones-pow : (p : ℕ) → ones p + 1 ≡ 2 ^ p
unfolding ones
ones-pow zero = refl
ones-pow (suc p) = rw (pow-suc 2 p) (omega (arith, ones-pow p))

pub shifted-pow : (m k : ℕ) → shifted m k ≡ m * 2 ^ k
unfolding shifted
shifted-pow m zero = omega arith
shifted-pow m (suc k) =
    rw (pow-suc 2 k) (ap (λ (t : ℕ). t * 2) (shifted-pow m k) ∙ mul_assoc m (2 ^ k) 2)

pub halves-div : (a k : ℕ) → halves a k ≡ a / 2 ^ k
unfolding halves
halves-div a zero = omega arith
halves-div a (suc k) =
    halves-div (a / 2) k
    ∙ (div-div-eq-div-mul a 2 (2 ^ k)
        ∙ ap (λ (t : ℕ). a / t) (mul_comm 2 (2 ^ k) ∙ sym (pow-suc 2 k)))

bit_and-shifted : (a m k : ℕ) → bit_and a (shifted m k) ≡ shifted (bit_and (halves a k) m) k
unfolding shifted halves
bit_and-shifted a m zero = refl
bit_and-shifted a m (suc k) = omega (
  arith,
  bit_and_step a (shifted m k * 2),
  bit_and-shifted (a / 2) m k,
  ap (bit_and (a / 2)) (halve_twice (shifted m k)),
)
  where
    halve_twice : (t : ℕ) → t * 2 / 2 ≡ t
    halve_twice t = omega arith

bit_and-ones : (x p : ℕ) → x < 2 ^ p → bit_and x (ones p) ≡ x
unfolding ones
bit_and-ones x zero h = bit_and-zero x ∙ omega arith
bit_and-ones x (suc p) h = omega (
  arith,
  bit_and_step x (ones p * 2 + 1),
  ap (bit_and (x / 2)) (halve (ones p)),
  bit_and-ones (x / 2) p (omega (arith, two-pow-succ p)),
)
  where
    halve : (t : ℕ) → (t * 2 + 1) / 2 ≡ t
    halve t = omega arith

-- A mask of `p` ones above `k` zeros keeps the upper bits of a number that fits.
pub bit_and_mask :
    (a p k : ℕ) → a / 2 ^ k < 2 ^ p → bit_and a (shifted (ones p) k) ≡ shifted (a / 2 ^ k) k
bit_and_mask a p k h =
    bit_and-shifted a (ones p) k
    ∙ ap (λ (t : ℕ). shifted t k)
        (ap (λ (t : ℕ). bit_and t (ones p)) (halves-div a k) ∙ bit_and-ones (a / 2 ^ k) p h)

pub shifted_injective : (m n k : ℕ) → shifted m k ≡ shifted n k → m ≡ n
unfolding shifted
shifted_injective m n zero e = e
shifted_injective m n (suc k) e = shifted_injective m n k (omega arith)
