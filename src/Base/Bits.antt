-- ===== src/Base/Bits.antt =====
-- The binary digits of `bit_or` and `bit_and`, and `bit_or` on numbers whose digits do not overlap, at every width.
use Prim.Native.Nat.{
  ℕ, zero, suc, ◌+◌, ◌-◌, ◌*◌, ◌/◌, ◌%◌, ◌^◌, ◌≤◌, ◌<◌, min, max, bit_and, bit_or, digits,
  bit_and-bitwise, bit_or-bitwise,
}
use mathlib.Core.Path.{◌≡◌, refl, sym, ap, ◌∙◌}
use native.Mathlib.Nat.{pow-suc}
use native.Mathlib.Omega.{arith}

-- The fuel of the recursion on digits, as far as it is enough, does not matter.
module _ (rest : ℕ → ℕ) (digit : ℕ → ℕ → ℕ) where
  digits_fuel : (n k a b : ℕ) → a ≤ n → a ≤ k → digits rest digit n a b ≡ digits rest digit k a b
  digits_fuel zero zero a b p q = refl
  digits_fuel zero (suc k) zero b p q = refl
  digits_fuel (suc n) zero zero b p q = refl
  digits_fuel (suc n) (suc k) zero b p q = refl
  digits_fuel zero k (suc a) b p q = elim p [ ]
  digits_fuel (suc n) zero (suc a) b p q = elim q [ ]
  digits_fuel (suc n) (suc k) (suc a) b p q =
      ap (λ t. t * 2 + digit (suc a % 2) (b % 2))
        (digits_fuel n k (suc a / 2) (b / 2) (omega arith) (omega arith))

  -- The law for the lowest digit of an operation that these digits stand for.
  module _ (op : ℕ → ℕ → ℕ) (bitwise : (a b : ℕ) → op a b ≡ digits rest digit a a b) where
    lowest_digit : (a b : ℕ) → op (suc a) b ≡ op (suc a / 2) (b / 2) * 2 + digit (suc a % 2) (b % 2)
    lowest_digit a b =
        bitwise (suc a) b
        ∙ ap (λ t. t * 2 + digit (suc a % 2) (b % 2))
            (digits_fuel a (suc a / 2) (suc a / 2) (b / 2) (omega arith) (omega arith)
              ∙ sym (bitwise (suc a / 2) (b / 2)))

zero-bit_or : (b : ℕ) → bit_or 0 b ≡ b
zero-bit_or b = bit_or-bitwise 0 b

bit_or_step : (a b : ℕ) → bit_or a b ≡ bit_or (a / 2) (b / 2) * 2 + max (a % 2) (b % 2)
bit_or_step zero b = omega (arith, zero-bit_or b, zero-bit_or (b / 2))
bit_or_step (suc a) b = lowest_digit (λ b. b) max bit_or bit_or-bitwise a b

bit_and_step : (a b : ℕ) → bit_and a b ≡ bit_and (a / 2) (b / 2) * 2 + min (a % 2) (b % 2)
bit_and_step zero b = omega (arith, bit_and-bitwise 0 b, bit_and-bitwise 0 (b / 2))
bit_and_step (suc a) b = lowest_digit (λ b. zero) min bit_and bit_and-bitwise a b

-- The digit at a place, the lowest first.
abbrev pub bit : ℕ → ℕ → ℕ
bit zero x = x % 2
bit (suc i) x = bit i (x / 2)

pub bit-bit_or : (i a b : ℕ) → bit i (bit_or a b) ≡ max (bit i a) (bit i b)
bit-bit_or zero a b = omega (arith, bit_or_step a b)
bit-bit_or (suc i) a b = ap (bit i) (the_half_or a b) ∙ bit-bit_or i (a / 2) (b / 2)
  where
    the_half_or : (a b : ℕ) → bit_or a b / 2 ≡ bit_or (a / 2) (b / 2)
    the_half_or a b = omega (arith, bit_or_step a b)

pub bit-bit_and : (i a b : ℕ) → bit i (bit_and a b) ≡ min (bit i a) (bit i b)
bit-bit_and zero a b = omega (arith, bit_and_step a b)
bit-bit_and (suc i) a b = ap (bit i) (the_half_and a b) ∙ bit-bit_and i (a / 2) (b / 2)
  where
    the_half_and : (a b : ℕ) → bit_and a b / 2 ≡ bit_and (a / 2) (b / 2)
    the_half_and a b = omega (arith, bit_and_step a b)

pub bit_le_one : (i a : ℕ) → bit i a ≤ 1
bit_le_one zero a = omega arith
bit_le_one (suc i) a = bit_le_one i (a / 2)

-- The digits of a complement.
pub bit-complement : (i w x : ℕ) → i < w → x < 2 ^ w → bit i (2 ^ w - 1 - x) ≡ 1 - bit i x
bit-complement i zero x lt h = absurd (omega arith)
bit-complement zero (suc w) x lt h = omega (arith, pow-suc 2 w)
bit-complement (suc i) (suc w) x lt h =
    ap (bit i) (the_half w x h)
    ∙ bit-complement i w (x / 2) (omega arith) (omega (arith, pow-suc 2 w))
  where
    the_half : (w x : ℕ) → x < 2 ^ suc w → (2 ^ suc w - 1 - x) / 2 ≡ 2 ^ w - 1 - x / 2
    the_half w x h = omega (arith, pow-suc 2 w)

-- `a | b` fits as many bits as its operands.
pub bit_or_lt : (w a b : ℕ) → a < 2 ^ w → b < 2 ^ w → bit_or a b < 2 ^ w
bit_or_lt zero a b p q = omega (arith, bit_or_step a b, bit_or_lt_zero a b p q)
  where
    bit_or_lt_zero : (a b : ℕ) → a < 1 → b < 1 → bit_or a b ≡ 0
    bit_or_lt_zero zero zero p q = refl
    bit_or_lt_zero zero (suc b) p q = absurd (omega arith)
    bit_or_lt_zero (suc a) b p q = absurd (omega arith)
bit_or_lt (suc w) a b p q = omega (
  arith,
  pow-suc 2 w,
  bit_or_step a b,
  bit_or_lt w (a / 2) (b / 2) (omega (arith, pow-suc 2 w)) (omega (arith, pow-suc 2 w)),
)

doubled : (k s : ℕ) → s * 2 ^ suc k ≡ 2 * (s * 2 ^ k)
doubled k s = omega (arith, ap (λ (t : ℕ). s * t) (pow-suc 2 k))

half_shifted : (k s : ℕ) → s * 2 ^ suc k / 2 ≡ s * 2 ^ k
half_shifted k s = omega (arith, doubled k s)

-- `v | (s << k)` is a sum if v fits k bits.
pub bit_or_shifted : (k v s : ℕ) → v < 2 ^ k → bit_or v (s * 2 ^ k) ≡ v + s * 2 ^ k
bit_or_shifted k zero s h = omega (arith, zero-bit_or (s * 2 ^ k))
bit_or_shifted zero (suc v) s h = absurd (omega arith)
bit_or_shifted (suc k) (suc v) s h = omega (
  arith,
  doubled k s,
  bit_or_step (suc v) (s * 2 ^ suc k),
  ap (bit_or (suc v / 2)) (half_shifted k s),
  bit_or_shifted k (suc v / 2) s (omega (arith, pow-suc 2 k)),
)
