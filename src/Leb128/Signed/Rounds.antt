-- ===== src/Leb128/Signed/Rounds.antt =====
-- Single rounds of the loop of `decode_sleb128`.
use native.Mathlib.Nat.{mod-eq_of_lt, pow-le-pow_right}
use clientplugin.Base.{
  ℕ, suc, ◌+◌, ◌-◌, ◌*◌, ◌%◌, ◌^◌, ◌≤◌, ◌<◌, ◌≡◌, ◌≢◌, bit_or, ap, ◌∙◌, ◌⊎◌, inl, inr, some, arith,
  Memory, load, too_big, leb, if◌then◌else◌, add32, shl64,
}
use clientplugin.Base.Bits.{bit_or_shifted}
use clientplugin.Leb128.{sleb_loop, sign_extend, failed, finished}
use clientplugin.Leb128.Groups.{ten_shifts, next_below}

-- A group of seven bits fits behind each of the first nine shifts.
group_fits : (x s j : ℕ) → s ≡ 7 * j → j ≤ 8 → x < 128 → x * 2 ^ s < 2 ^ 64
group_fits x s j e le h = rw e (
    ten_shifts (λ s. s ≤ 56 → x * 2 ^ s < 2 ^ 64) (λ _. omega arith) (λ _. omega arith)
      (λ _. omega arith) (λ _. omega arith) (λ _. omega arith) (λ _. omega arith) (λ _. omega arith)
      (λ _. omega arith) (λ _. omega arith) (λ f. absurd (omega arith)) j (omega arith)
      (omega arith))

or_group :
    (acc x s : ℕ) → acc < 2 ^ s → x * 2 ^ s < 2 ^ 64 → bit_or acc (shl64 x s) ≡ acc + x * 2 ^ s
or_group acc x s h fits = ap (bit_or acc) (mod-eq_of_lt fits) ∙ bit_or_shifted s acc x h

-- `Value |= (-1ULL) << Shift` below the sign.
or_ones :
    (v j : ℕ)
    → j ≤ 9
    → v < 2 ^ (7 * j)
    → bit_or v (shl64 (2 ^ 64 - 1) (7 * j)) + 2 ^ (7 * j) ≡ v + 2 ^ 64
or_ones v j le =
    ten_shifts (λ s. v < 2 ^ s → bit_or v (shl64 (2 ^ 64 - 1) s) + 2 ^ s ≡ v + 2 ^ 64)
      (λ h. omega (arith, bit_or_shifted 0 v (2 ^ 64 - 1) h))
      (λ h. omega (arith, bit_or_shifted 7 v (2 ^ 57 - 1) h))
      (λ h. omega (arith, bit_or_shifted 14 v (2 ^ 50 - 1) h))
      (λ h. omega (arith, bit_or_shifted 21 v (2 ^ 43 - 1) h))
      (λ h. omega (arith, bit_or_shifted 28 v (2 ^ 36 - 1) h))
      (λ h. omega (arith, bit_or_shifted 35 v (2 ^ 29 - 1) h))
      (λ h. omega (arith, bit_or_shifted 42 v (2 ^ 22 - 1) h))
      (λ h. omega (arith, bit_or_shifted 49 v (2 ^ 15 - 1) h))
      (λ h. omega (arith, bit_or_shifted 56 v (2 ^ 8 - 1) h))
      (λ h. omega (arith, bit_or_shifted 63 v 1 h)) j le

or_ones_at :
    (v s j : ℕ)
    → s ≡ 7 * j
    → j ≤ 9
    → v < 2 ^ s
    → (bit_or v (shl64 (2 ^ 64 - 1) s) + 2 ^ s ≡ v + 2 ^ 64) × (2 ^ s ≤ 2 ^ 63)
or_ones_at v s j e le h = (
  rw e (or_ones v j le (rw e at h)),
  pow-le-pow_right {n = 2} (omega arith) {i = s} {j = 63} (omega arith),
)

-- One round at a byte behind which the number goes on.
pub sround_continues :
    (fuel : ℕ) (m : Memory) (orig end p acc s j b : ℕ)
    → p ≢ end
    → m p ≡ some b
    → s ≡ 7 * j
    → j ≤ 8
    → 128 ≤ b
    → acc < 2 ^ s
    → sleb_loop (suc fuel) m orig end p acc s
      ≡ sleb_loop fuel m orig end (add32 p 1) (acc + b % 128 * 2 ^ s) (s + 7)
unfolding sleb_loop load
sround_continues fuel m orig end p acc s j b np hb hs hj top below =
    ground (arith, or_group acc (b % 128) s below (group_fits (b % 128) s j hs hj (omega arith)))

-- What a last byte b adds to `acc`, the sign included, as a bit pattern.
abbrev pub ending : ℕ → ℕ → ℕ → ℕ
ending acc b s =
    (acc + b % 128 * 2 ^ s + (if leb 64 (b % 128) then 2 ^ 70 - 2 ^ (s + 7) else 0)) % 2 ^ 64

-- A last byte before the tenth.
sign_extend_early :
    (acc b j s : ℕ)
    → s ≡ 7 * j
    → j ≤ 8
    → acc < 2 ^ s
    → sign_extend b (acc + b % 128 * 2 ^ s) (s + 7) ≡ ending acc b s
unfolding sign_extend
sign_extend_early acc b j s hs hj below =
    let fits = next_below acc s b below in
    let ones =
      or_ones_at (acc + b % 128 * 2 ^ s) (s + 7) (suc j) (omega arith) (omega arith) fits in
    ground (arith, ones, fits)

pub sround_finishes :
    (fuel : ℕ) (m : Memory) (orig end p acc s j b : ℕ)
    → p ≢ end
    → m p ≡ some b
    → s ≡ 7 * j
    → j ≤ 8
    → b < 128
    → acc < 2 ^ s
    → sleb_loop (suc fuel) m orig end p acc s ≡ finished orig (add32 p 1) (ending acc b s)
unfolding sleb_loop load
sround_finishes fuel m orig end p acc s j b np hb hs hj top below = ground (
  arith,
  or_group acc (b % 128) s below (group_fits (b % 128) s j hs hj (omega arith)),
  sign_extend_early acc b j s hs hj below,
)

-- The tenth byte holds bit 63, and must repeat it.
sround_last_positive :
    (fuel : ℕ) (m : Memory) (orig end p acc : ℕ)
    → p ≢ end
    → m p ≡ some 0
    → acc < 2 ^ 63
    → sleb_loop (suc fuel) m orig end p acc 63 ≡ finished orig (add32 p 1) acc
unfolding sleb_loop load sign_extend
sround_last_positive fuel m orig end p acc np hb below =
    ground (arith, bit_or_shifted 63 acc 0 below)

sround_last_negative :
    (fuel : ℕ) (m : Memory) (orig end p acc : ℕ)
    → p ≢ end
    → m p ≡ some 127
    → acc < 2 ^ 63
    → sleb_loop (suc fuel) m orig end p acc 63 ≡ finished orig (add32 p 1) (acc + 2 ^ 63)
unfolding sleb_loop load sign_extend
sround_last_negative fuel m orig end p acc np hb below =
    ground (arith, bit_or_shifted 63 acc 1 below)

pub sround_last :
    (fuel : ℕ) (m : Memory) (orig end p acc b : ℕ)
    → p ≢ end
    → m p ≡ some b
    → (b ≡ 0) ⊎ (b ≡ 127)
    → acc < 2 ^ 63
    → sleb_loop (suc fuel) m orig end p acc 63 ≡ finished orig (add32 p 1) (ending acc b 63)
sround_last fuel m orig end p acc b np hb (inl e) below =
    sround_last_positive fuel m orig end p acc np (rw e at hb) below
    ∙ ap (finished orig (add32 p 1)) (rw e (omega arith))
sround_last fuel m orig end p acc b np hb (inr e) below =
    sround_last_negative fuel m orig end p acc np (rw e at hb) below
    ∙ ap (finished orig (add32 p 1)) (rw e (omega arith))

pub sround_refuses :
    (fuel : ℕ) (m : Memory) (orig end p acc b : ℕ)
    → p ≢ end
    → m p ≡ some b
    → b % 128 ≢ 0
    → b % 128 ≢ 127
    → sleb_loop (suc fuel) m orig end p acc 63 ≡ failed orig p too_big
unfolding sleb_loop load
sround_refuses fuel m orig end p acc b np hb n0 n127 = ground arith
