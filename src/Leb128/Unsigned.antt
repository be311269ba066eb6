-- ===== src/Leb128/Unsigned.antt =====
-- `decode_uleb128` on every run of bytes.
use clientplugin.Base.{
  ℕ, zero, suc, ◌+◌, ◌*◌, ◌%◌, ◌^◌, ◌≤◌, ◌<◌, ◌≡◌, ◌≢◌, ap, refl, sym, ◌∙◌, ◌⊎◌, inl, inr, List, [],
  ◌∷◌, none, some, arith, Memory, load, ok, stuck, too_big, Option-cases, add32, sub32, length,
  shl64, shr64, low_bits, word,
}
use clientplugin.Leb128.{Leb, uleb_loop, decode_uleb128, failed, finished, max_rounds}
use clientplugin.Leb128.Value.{IsLeb, uleb_value, HoldsBefore}
use clientplugin.Leb128.Groups.{total, total-cons, total-one, headroom_at, next_below, add32-add32}
use native.Mathlib.Nat.{one-le-pow}
use mathlib.Core.Path.{ap₂}

-- The loop ends within eleven rounds, whatever memory holds.
uleb_loop-ne-stuck :
    (fuel : ℕ) (m : Memory) (orig end p value shift : ℕ)
    → 77 ≤ shift + 7 * fuel
    → 0 < fuel
    → uleb_loop fuel m orig end p value shift ≢ stuck
unfolding uleb_loop load
uleb_loop-ne-stuck zero m orig end p value shift h h0 = elim h0 [ ]
uleb_loop-ne-stuck (suc zero) m orig end p value shift h h0 = ground arith
uleb_loop-ne-stuck (suc (suc fuel)) m orig end p value shift h h0 = ground (
  arith,
  uleb_loop-ne-stuck (suc fuel) m orig end (add32 p 1)
      ((value + shl64 (low_bits (elim (m p) [ some b ↦ b | none ↦ 0 ]) 7) shift) % 2 ^ 64)
      (shift + 7),
)

shift_fits : (x s : ℕ) → x * 2 ^ s < 2 ^ 64 → shr64 (shl64 x s) s ≡ x
shift_fits x s h = grind (arith, one-le-pow)

shift_loses : (x s : ℕ) → 2 ^ 64 ≤ x * 2 ^ s → shr64 (shl64 x s) s ≢ x
shift_loses x s h = grind (arith, one-le-pow)

-- One round at a byte whose group fits.
round_continues :
    (fuel : ℕ) (m : Memory) (orig end p acc s b : ℕ)
    → p ≢ end
    → m p ≡ some b
    → s < 64
    → 128 ≤ b
    → acc + b % 128 * 2 ^ s < 2 ^ 64
    → uleb_loop (suc fuel) m orig end p acc s
      ≡ uleb_loop fuel m orig end (add32 p 1) (acc + b % 128 * 2 ^ s) (s + 7)
unfolding uleb_loop load
round_continues fuel m orig end p acc s b np hb hs top fits = ground (arith, shift_fits (b % 128) s)

round_finishes :
    (fuel : ℕ) (m : Memory) (orig end p acc s b : ℕ)
    → p ≢ end
    → m p ≡ some b
    → s < 64
    → b < 128
    → acc + b % 128 * 2 ^ s < 2 ^ 64
    → uleb_loop (suc fuel) m orig end p acc s ≡ finished orig (add32 p 1) (acc + b % 128 * 2 ^ s)
unfolding uleb_loop load
round_finishes fuel m orig end p acc s b np hb hs top fits = ground (arith, shift_fits (b % 128) s)

round_overflows :
    (fuel : ℕ) (m : Memory) (orig end p acc s b : ℕ)
    → p ≢ end
    → m p ≡ some b
    → s < 64
    → 2 ^ 64 ≤ b % 128 * 2 ^ s
    → uleb_loop (suc fuel) m orig end p acc s ≡ failed orig p too_big
unfolding uleb_loop load
round_overflows fuel m orig end p acc s b np hb hs big = ground (arith, shift_loses (b % 128) s)

uleb_loop_value :
    (bs : List ℕ) (j fuel : ℕ) (m : Memory) (orig end p acc s : ℕ)
    → s ≡ 7 * j
    → j + length bs ≤ 10
    → length bs ≤ fuel
    → IsLeb bs
    → HoldsBefore m end p bs
    → total acc s bs < 2 ^ 64
    → uleb_loop fuel m orig end p acc s ≡ finished orig (add32 p (length bs)) (total acc s bs)
uleb_loop_value [] j fuel m orig end p acc s hs hj hf run held small = absurd run
uleb_loop_value (b ∷ []) j zero m orig end p acc s hs hj hf run held small = elim hf [ ]
uleb_loop_value (b ∷ []) j (suc fuel) m orig end p acc s hs hj hf run (np, hb, _) small =
    round_finishes fuel m orig end p acc s b np hb (omega arith) run (rw total-one at small)
    ∙ ap (finished orig (add32 p 1)) (sym (total-one acc s b))
uleb_loop_value (b ∷ c ∷ bs) j zero m orig end p acc s hs hj hf run held small = elim hf [ ]
uleb_loop_value (b ∷ c ∷ bs) j (suc fuel) m orig end p acc s hs hj hf (top, run) (np, hb, held)
      small =
    let acc' = acc + b % 128 * 2 ^ s in
    let small' = rw total-cons at small in
    round_continues fuel m orig end p acc s b np hb (omega arith) top (omega arith)
    ∙ uleb_loop_value (c ∷ bs) (suc j) fuel m orig end (add32 p 1) acc' (s + 7) (omega arith)
        (omega arith) (omega arith) run held small'
    ∙ ap₂ (finished orig) (add32-add32 p (length (c ∷ bs))) (sym (total-cons acc s b (c ∷ bs)))

fits-or-not : (x s : ℕ) → (x * 2 ^ s < 2 ^ 64) ⊎ (2 ^ 64 ≤ x * 2 ^ s)
fits-or-not x s = omega arith

-- The other outcome: some round refuses its group.
uleb_loop_too_big :
    (bs : List ℕ) (j fuel : ℕ) (m : Memory) (orig end p acc s : ℕ)
    → s ≡ 7 * j
    → j + length bs ≤ 10
    → length bs ≤ fuel
    → acc < 2 ^ s
    → IsLeb bs
    → HoldsBefore m end p bs
    → 2 ^ 64 ≤ total acc s bs
    → (q : ℕ) × (uleb_loop fuel m orig end p acc s ≡ failed orig q too_big)
uleb_loop_too_big [] j fuel m orig end p acc s hs hj hf below run held big = absurd run
uleb_loop_too_big (b ∷ bs) j zero m orig end p acc s hs hj hf below run held big = elim hf [ ]
uleb_loop_too_big (b ∷ []) j (suc fuel) m orig end p acc s hs hj hf below run (np, hb, _) big =
    elim (fits-or-not (b % 128) s) [
      | inr over ↦ (p, round_overflows fuel m orig end p acc s b np hb (omega arith) over)
      | inl fits ↦ absurd (
          omega
            (arith, total-one acc s b, headroom_at s (b % 128) acc j hs (omega arith) below fits))
    ]
uleb_loop_too_big (b ∷ c ∷ bs) j (suc fuel) m orig end p acc s hs hj hf below (top, run)
      (np, hb, held) big =
    elim (fits-or-not (b % 128) s) [
      | inr over ↦ (p, round_overflows fuel m orig end p acc s b np hb (omega arith) over)
      | inl fits ↦
          let room = headroom_at s (b % 128) acc j hs (omega arith) below fits in
          let big' = rw total-cons at big in
          let acc' = acc + b % 128 * 2 ^ s in
          let (q, e) =
            uleb_loop_too_big (c ∷ bs) (suc j) fuel m orig end (add32 p 1) acc' (s + 7)
              (omega arith) (omega arith) (omega arith) (next_below acc s b below) run held big' in
          (q, round_continues fuel m orig end p acc s b np hb (omega arith) top room ∙ e)
    ]

-- `decode_uleb128` ends on every memory, within the eleven rounds that its loop is given.
pub decode_uleb128-ne-stuck : (m : Memory) (p end : ℕ) → decode_uleb128 m p end ≢ stuck
unfolding decode_uleb128
decode_uleb128-ne-stuck m p end =
    uleb_loop-ne-stuck max_rounds m p end p 0 0 (omega arith) (omega arith)

-- Where a LEB128 number of at most ten bytes stands at p, none of them at `end`, and its value fits
-- 64 bits, `decode_uleb128` returns that value, the count of its bytes, and no error.
pub decode_uleb128_value :
    (bs : List ℕ) (m : Memory) (p end : ℕ)
    → p < word
    → IsLeb bs
    → length bs ≤ 10
    → HoldsBefore m end p bs
    → uleb_value bs < 2 ^ 64
    → decode_uleb128 m p end ≡ ok (record { value = uleb_value bs; n = length bs; error = none })
unfolding decode_uleb128 finished
decode_uleb128_value bs m p end hp run short held small =
    uleb_loop_value bs 0 max_rounds m p end p 0 0 (omega arith) (omega arith) (omega arith) run held
      (omega arith)
    ∙ ground arith

-- Where the value of such a number does not fit 64 bits, `decode_uleb128` returns 0 with the error
-- `too_big`.
pub decode_uleb128_too_big :
    (bs : List ℕ) (m : Memory) (p end : ℕ)
    → IsLeb bs
    → length bs ≤ 10
    → HoldsBefore m end p bs
    → 2 ^ 64 ≤ uleb_value bs
    → (r : Leb) × (decode_uleb128 m p end ≡ ok r) × (r.value ≡ 0) × (r.error ≡ some too_big)
unfolding decode_uleb128 failed
decode_uleb128_too_big bs m p end run short held big =
    let (q, e) =
      uleb_loop_too_big bs 0 max_rounds m p end p 0 0 (omega arith) (omega arith) (omega arith)
        (omega arith) run held (omega arith) in
    (record { value = 0; n = sub32 q p; error = some too_big }, e, refl, refl)

uleb_loop_bounds :
    (fuel : ℕ) (m : Memory) (orig end p value shift : ℕ) (r : Leb)
    → value < 2 ^ 64
    → uleb_loop fuel m orig end p value shift ≡ ok r
    → (r.value < 2 ^ 64) × ((r.error ≡ none) ⊎ (r.value ≡ 0))
unfolding uleb_loop load failed finished
uleb_loop_bounds zero m orig end p value shift r h e = cc
uleb_loop_bounds (suc fuel) m orig end p value shift r h e = elim (Option-cases (m p)) [
  | inl unmapped ↦ ground arith
  | inr (b, mapped) ↦ ground (
    arith,
    uleb_loop_bounds fuel m orig end (add32 p 1) ((value + shl64 (low_bits b 7) shift) % 2 ^ 64)
        (shift + 7) r,
  )
]

-- Whatever `decode_uleb128` returns fits a uint64_t, and is 0 if there is an error.
pub decode_uleb128_bounds :
    (m : Memory) (p end : ℕ) (r : Leb)
    → decode_uleb128 m p end ≡ ok r
    → (r.value < 2 ^ 64) × ((r.error ≡ none) ⊎ (r.value ≡ 0))
unfolding decode_uleb128
decode_uleb128_bounds m p end r = uleb_loop_bounds max_rounds m p end p 0 0 r (omega arith)
