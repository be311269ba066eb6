-- ===== src/Leb128/Groups.antt =====
-- The arithmetic of seven-bit groups that both decoders rest on.
use native.Mathlib.Numerals.{towards_suc}
use clientplugin.Base.{
  ℕ, zero, suc, ◌+◌, ◌*◌, ◌%◌, ◌^◌, ◌≤◌, ◌<◌, ◌≡◌, ap, List, [], ◌∷◌, arith, add32,
}
use clientplugin.Leb128.Value.{uleb_value}

pub shift_seven : (s : ℕ) → 2 ^ (s + 7) ≡ 128 * 2 ^ s
shift_seven s = simp towards_suc (omega arith)

-- A property of the ten shifts that a decoder gets to is checked shift by shift.
pub ten_shifts {ℓ} :
    (P : ℕ → Type ℓ)
    → P 0
    → P 7
    → P 14
    → P 21
    → P 28
    → P 35
    → P 42
    → P 49
    → P 56
    → P 63
    → (j : ℕ) → j ≤ 9
    → P (7 * j)
ten_shifts P a b c d e f g h i k zero _ = a
ten_shifts P a b c d e f g h i k (suc zero) _ = b
ten_shifts P a b c d e f g h i k (suc (suc zero)) _ = c
ten_shifts P a b c d e f g h i k (suc (suc (suc zero))) _ = d
ten_shifts P a b c d e f g h i k (suc (suc (suc (suc zero)))) _ = e
ten_shifts P a b c d e f g h i k (suc (suc (suc (suc (suc zero))))) _ = f
ten_shifts P a b c d e f g h i k (suc (suc (suc (suc (suc (suc zero)))))) _ = g
ten_shifts P a b c d e f g h i k (suc (suc (suc (suc (suc (suc (suc zero))))))) _ = h
ten_shifts P a b c d e f g h i k (suc (suc (suc (suc (suc (suc (suc (suc zero)))))))) _ = i
ten_shifts P a b c d e f g h i k (suc (suc (suc (suc (suc (suc (suc (suc (suc zero))))))))) _ = k
ten_shifts P a b c d e f g h i k (suc (suc (suc (suc (suc (suc (suc (suc (suc (suc j)))))))))) le =
    absurd (omega arith)

-- A group that fits leaves room for the bits below it.
headroom :
    (x a j : ℕ) → j ≤ 9 → a < 2 ^ (7 * j) → x * 2 ^ (7 * j) < 2 ^ 64 → a + x * 2 ^ (7 * j) < 2 ^ 64
headroom x a j le =
    ten_shifts (λ s. a < 2 ^ s → x * 2 ^ s < 2 ^ 64 → a + x * 2 ^ s < 2 ^ 64) (omega arith)
      (omega arith) (omega arith) (omega arith) (omega arith) (omega arith) (omega arith)
      (omega arith) (omega arith) (omega arith) j le

-- The number that has been read when the bytes bs follow, with `acc` read before the shift s.
abbrev pub total : ℕ → ℕ → List ℕ → ℕ
total acc s bs = acc + uleb_value bs * 2 ^ s

pub total-cons :
    (acc s b : ℕ) (bs : List ℕ) → total acc s (b ∷ bs) ≡ total (acc + b % 128 * 2 ^ s) (s + 7) bs
unfolding uleb_value
total-cons acc s b bs = omega (arith, ap (λ (t : ℕ). uleb_value bs * t) (shift_seven s))

pub total-one : (acc s b : ℕ) → total acc s (b ∷ []) ≡ acc + b % 128 * 2 ^ s
unfolding uleb_value
total-one acc s b = omega arith

pub add32-add32 : (p k : ℕ) → add32 (add32 p 1) k ≡ add32 p (suc k)
add32-add32 p k = omega arith

pub headroom_at :
    (s x a j : ℕ) → s ≡ 7 * j → j ≤ 9 → a < 2 ^ s → x * 2 ^ s < 2 ^ 64 → a + x * 2 ^ s < 2 ^ 64
headroom_at s x a j e = rw e (headroom x a j)

pub next_below : (acc s b : ℕ) → acc < 2 ^ s → acc + b % 128 * 2 ^ s < 2 ^ (s + 7)
next_below acc s b h = rw shift_seven (grind arith)
