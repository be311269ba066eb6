-- ===== src/Leb128/Signed/Tenth.antt =====
-- When a signed LEB128 number of at most ten bytes fits an int64_t: its tenth byte.
use native.Mathlib.Nat.{pow-suc, pow-le-pow_right}
use clientplugin.Base.{
  ℕ, zero, suc, ◌+◌, ◌*◌, ◌%◌, ◌^◌, ◌≤◌, ◌<◌, ◌≡◌, ◌≢◌, ◌↔◌, ap, refl, ◌⊎◌, inl, inr, List, [], ◌∷◌,
  arith, leb, if◌then◌else◌, length,
}
use clientplugin.Base.Int.{sub_ℕ}
use clientplugin.Leb128.Value.{IsLeb, uleb_value, sleb_value, last_byte, FitsInt64}
use clientplugin.Leb128.Groups.{shift_seven}

-- The number ends before its tenth byte, or that byte is 0 or 0x7f.
abbrev pub EndsWell : ℕ → List ℕ → Type 0
EndsWell j bs =
    (j + length bs ≤ 9) ⊎ ((j + length bs ≡ 10) × ((last_byte bs ≡ 0) ⊎ (last_byte bs ≡ 127)))

seven_suc : (n : ℕ) → 7 * suc n ≡ 7 * n + 7
seven_suc n = omega arith

pub pow128 : (n : ℕ) → 128 ^ n ≡ 2 ^ (7 * n)
pow128 zero = refl
pow128 (suc n) =
    omega (arith, pow-suc 128 n, pow128 n, shift_seven (7 * n), ap (λ (t : ℕ). 2 ^ t) (seven_suc n))

-- A number is its last group over the groups before it.
split_last :
    (b : ℕ) (bs : List ℕ)
    → IsLeb (b ∷ bs)
    → (low : ℕ) × (uleb_value (b ∷ bs) ≡ low + last_byte (b ∷ bs) * 128 ^ length bs)
      × (low < 128 ^ length bs)
      × (last_byte (b ∷ bs) < 128)
unfolding uleb_value
split_last b [] run = (0, omega arith, omega arith, run)
split_last b (c ∷ bs) (top, run) =
    let (low, e, below, last) = split_last c bs run in
    (
      b % 128 + 128 * low,
      omega (arith, ap (λ (t : ℕ). last_byte (c ∷ bs) * t) (pow-suc 128 (length bs))),
      omega (arith, pow-suc 128 (length bs)),
      last,
    )

pub uleb_value-lt : (bs : List ℕ) → uleb_value bs < 128 ^ length bs
unfolding uleb_value
uleb_value-lt [] = omega arith
uleb_value-lt (b ∷ bs) = omega (arith, uleb_value-lt bs, pow-suc 128 (length bs))

pub weight_bound : (n k : ℕ) → n ≤ k → 128 ^ n ≤ 128 ^ k
weight_bound n k h = pow-le-pow_right {n = 128} (omega arith) {i = n} {j = k} h

nine-or-less : (n : ℕ) → suc n ≤ 10 → (suc n ≤ 9) ⊎ (n ≡ 9)
nine-or-less n h = omega arith

-- A number of ten bytes fits an int64_t exactly when the last of them is 0 or 0x7f.
tenth_fits :
    (v low last : ℕ)
    → v ≡ low + last * 2 ^ 63
    → low < 2 ^ 63
    → last < 128
    → FitsInt64 (sub_ℕ v (if leb 64 (last % 128) then 2 ^ 70 else 0)) ↔ ((last ≡ 0) ⊎ (last ≡ 127))
tenth_fits v low last e below small = (ground arith, ground arith)

at_tenth :
    (b : ℕ) (bs : List ℕ)
    → IsLeb (b ∷ bs)
    → length bs ≡ 9
    → FitsInt64 (sleb_value (b ∷ bs)) ↔ ((last_byte (b ∷ bs) ≡ 0) ⊎ (last_byte (b ∷ bs) ≡ 127))
unfolding sleb_value
at_tenth b bs run e =
    let (low, v, below, last) = split_last b bs run in
    rw e
      (tenth_fits (uleb_value (b ∷ bs)) low (last_byte (b ∷ bs)) (rw e at v) (rw e at below) last)

pub fits-EndsWell :
    (bs : List ℕ) → IsLeb bs → length bs ≤ 10 → FitsInt64 (sleb_value bs) → EndsWell 0 bs
fits-EndsWell [] run short fits = absurd run
fits-EndsWell (b ∷ bs) run short fits = elim (nine-or-less (length bs) short) [
  | inl early ↦ inl (omega arith)
  | inr tenth ↦ inr (omega arith, (at_tenth b bs run tenth).0 fits)
]

-- A number of nine bytes or fewer always fits.
early_fits : (bs : List ℕ) → length bs ≤ 9 → FitsInt64 (sleb_value bs)
unfolding sleb_value
early_fits bs h = ground (arith, uleb_value-lt bs, weight_bound (length bs) 9 h)

pub tenth_of :
    (bs : List ℕ)
    → IsLeb bs
    → length bs ≤ 10
    → ¬ FitsInt64 (sleb_value bs)
    → (0 + length bs ≡ 10) × (last_byte bs ≢ 0) × (last_byte bs ≢ 127)
tenth_of [] run short wide = absurd run
tenth_of (b ∷ bs) run short wide = elim (nine-or-less (length bs) short) [
  | inl early ↦ absurd (wide (early_fits (b ∷ bs) early))
  | inr tenth ↦ (
    omega arith,
    λ e. wide ((at_tenth b bs run tenth).1 (inl e)),
    λ e. wide ((at_tenth b bs run tenth).1 (inr e)),
  )
]
