-- ===== src/Leb128/Signed.antt =====
-- `decode_sleb128` on every run of bytes.
mod Rounds
mod Tenth
use mathlib.Core.Path.{ap₂}
use native.Mathlib.Nat.{pow-suc, pow-le-pow_right, zero-add}
use clientplugin.Base.{
  ℕ, zero, suc, ◌+◌, ◌-◌, ◌*◌, ◌/◌, ◌%◌, ◌^◌, ◌≤◌, ◌<◌, ◌≡◌, ◌≢◌, ◌↔◌, bit_or, ap, refl, sym, ◌∙◌,
  ◌⊎◌, inl, inr, List, [], ◌∷◌, none, some, arith, Memory, load, ok, stuck, too_big, leb,
  if◌then◌else◌, add32, sub32, length, shl64, word, ltb, Option-cases, low_bits,
}
use clientplugin.Base.Bits.{bit_or_shifted}
use clientplugin.Base.Int.{ℤ, pos, negsuc, sub_ℕ, mod_ℤ}
use clientplugin.Leb128.{Leb, sleb_loop, decode_sleb128, sign_extend, failed, finished, max_rounds}
use clientplugin.Leb128.Value.{
  IsLeb, uleb_value, sleb_value, HoldsBefore, last_byte, sign_weight, FitsInt64,
}
use Tenth.{EndsWell, pow128, uleb_value-lt, weight_bound, fits-EndsWell, tenth_of}
use Rounds.{ending, sround_continues, sround_finishes, sround_last, sround_refuses}
use clientplugin.Leb128.Groups.{
  ten_shifts, total, total-cons, total-one, headroom_at, next_below, add32-add32, shift_seven,
}

sleb_loop-ne-stuck :
    (fuel : ℕ) (m : Memory) (orig end p value shift : ℕ)
    → 77 ≤ shift + 7 * fuel
    → 0 < fuel
    → sleb_loop fuel m orig end p value shift ≢ stuck
unfolding sleb_loop load
sleb_loop-ne-stuck zero m orig end p value shift h h0 = elim h0 [ ]
sleb_loop-ne-stuck (suc zero) m orig end p value shift h h0 = ground arith
sleb_loop-ne-stuck (suc (suc fuel)) m orig end p value shift h h0 = elim (Option-cases (m p)) [
  | inl unmapped ↦ ground arith
  | inr (b, mapped) ↦ ground (
    arith,
    sleb_loop-ne-stuck (suc fuel) m orig end (add32 p 1) (bit_or value (shl64 (low_bits b 7) shift))
        (shift + 7),
  )
]

-- `decode_sleb128` ends on every memory, within the eleven rounds that its loop is given.
pub decode_sleb128-ne-stuck : (m : Memory) (p end : ℕ) → decode_sleb128 m p end ≢ stuck
unfolding decode_sleb128
decode_sleb128-ne-stuck m p end =
    sleb_loop-ne-stuck max_rounds m p end p 0 0 (omega arith) (omega arith)

-- The bit pattern of what has been read when the bytes bs follow.
abbrev pattern : ℕ → ℕ → List ℕ → ℕ
pattern acc s bs =
    (total acc s bs + (if leb 64 (last_byte bs % 128) then 2 ^ 70 - 2 ^ (s + 7 * length bs) else 0))
    % 2 ^ 64

pattern-cons :
    (acc s b c : ℕ) (bs : List ℕ)
    → pattern acc s (b ∷ c ∷ bs) ≡ pattern (acc + b % 128 * 2 ^ s) (s + 7) (c ∷ bs)
pattern-cons acc s b c bs =
    ap₂ (λ t e. (t + (if leb 64 (last_byte (c ∷ bs) % 128) then 2 ^ 70 - 2 ^ e else 0)) % 2 ^ 64)
      (total-cons acc s b (c ∷ bs)) (omega arith)

pattern-one : (acc s b : ℕ) → pattern acc s (b ∷ []) ≡ ending acc b s
pattern-one acc s b =
    ap (λ t. (t + (if leb 64 (b % 128) then 2 ^ 70 - 2 ^ (s + 7) else 0)) % 2 ^ 64)
      (total-one acc s b)

ends_later : (j b c : ℕ) (bs : List ℕ) → EndsWell j (b ∷ c ∷ bs) → EndsWell (suc j) (c ∷ bs)
ends_later j b c bs (inl h) = inl (omega arith)
ends_later j b c bs (inr (h, last)) = inr (omega arith, last)

sleb_loop_value :
    (bs : List ℕ) (j fuel : ℕ) (m : Memory) (orig end p acc s : ℕ)
    → s ≡ 7 * j
    → EndsWell j bs
    → length bs ≤ fuel
    → acc < 2 ^ s
    → IsLeb bs
    → HoldsBefore m end p bs
    → sleb_loop fuel m orig end p acc s ≡ finished orig (add32 p (length bs)) (pattern acc s bs)
sleb_loop_value [] j fuel m orig end p acc s hs hj hf below run held = absurd run
sleb_loop_value (b ∷ bs) j zero m orig end p acc s hs hj hf below run held = elim hf [ ]
sleb_loop_value (b ∷ []) j (suc fuel) m orig end p acc s hs (inl hj) hf below run (np, hb, _) =
    sround_finishes fuel m orig end p acc s j b np hb hs (omega arith) run below
    ∙ ap (finished orig (add32 p 1)) (sym (pattern-one acc s b))
sleb_loop_value (b ∷ []) j (suc fuel) m orig end p acc s hs (inr (hj, last)) hf below run
      (np, hb, _) =
    let at63 : s ≡ 63 = omega arith in
    rw at63 (
      sround_last fuel m orig end p acc b np hb last (rw at63 at below)
      ∙ ap (finished orig (add32 p 1)) (sym (pattern-one acc 63 b)))
sleb_loop_value (b ∷ c ∷ bs) j (suc fuel) m orig end p acc s hs hj hf below (top, run)
      (np, hb, held) =
    sround_continues fuel m orig end p acc s j b np hb hs (omega arith) top below
    ∙ sleb_loop_value (c ∷ bs) (suc j) fuel m orig end (add32 p 1) (acc + b % 128 * 2 ^ s) (s + 7)
        (omega arith) (ends_later j b c bs hj) (omega arith) (next_below acc s b below) run held
    ∙ ap₂ (finished orig) (add32-add32 p (length (c ∷ bs))) (sym (pattern-cons acc s b c bs))

sleb_loop_too_big :
    (bs : List ℕ) (j fuel : ℕ) (m : Memory) (orig end p acc s : ℕ)
    → s ≡ 7 * j
    → j + length bs ≡ 10
    → last_byte bs ≢ 0
    → last_byte bs ≢ 127
    → length bs ≤ fuel
    → acc < 2 ^ s
    → IsLeb bs
    → HoldsBefore m end p bs
    → (q : ℕ) × (sleb_loop fuel m orig end p acc s ≡ failed orig q too_big)
sleb_loop_too_big [] j fuel m orig end p acc s hs hj n0 n127 hf below run held = absurd run
sleb_loop_too_big (b ∷ bs) j zero m orig end p acc s hs hj n0 n127 hf below run held = elim hf [ ]
sleb_loop_too_big (b ∷ []) j (suc fuel) m orig end p acc s hs hj n0 n127 hf below run (np, hb, _) =
    let at63 : s ≡ 63 = omega arith in
    (p, rw at63 (sround_refuses fuel m orig end p acc b np hb (omega arith) (omega arith)))
sleb_loop_too_big (b ∷ c ∷ bs) j (suc fuel) m orig end p acc s hs hj n0 n127 hf below (top, run)
      (np, hb, held) =
    let (q, e) =
      sleb_loop_too_big (c ∷ bs) (suc j) fuel m orig end (add32 p 1) (acc + b % 128 * 2 ^ s) (s + 7)
        (omega arith) (omega arith) n0 n127 (omega arith) (next_below acc s b below) run held in
    (q, sround_continues fuel m orig end p acc s j b np hb hs (omega arith) top below ∙ e)

pattern-mod_ℤ : (bs : List ℕ) → length bs ≤ 10 → pattern 0 0 bs ≡ mod_ℤ (sleb_value bs) (2 ^ 64)
unfolding sleb_value
pattern-mod_ℤ bs short = ground (
  arith,
  uleb_value-lt bs,
  weight_bound (length bs) 10 short,
  pow128 (length bs),
  ap (λ (t : ℕ). 2 ^ t) (zero-add (7 * length bs)),
)

-- Where a signed LEB128 number of at most ten bytes stands at p, none of them at `end`, and its
-- value fits an int64_t, `decode_sleb128` returns the bit pattern of that value (two's complement),
-- the count of its bytes, and no error.
pub decode_sleb128_value :
    (bs : List ℕ) (m : Memory) (p end : ℕ)
    → p < word
    → IsLeb bs
    → length bs ≤ 10
    → HoldsBefore m end p bs
    → FitsInt64 (sleb_value bs)
    → decode_sleb128 m p end
      ≡ ok (record { value = mod_ℤ (sleb_value bs) (2 ^ 64); n = length bs; error = none })
unfolding decode_sleb128 finished
decode_sleb128_value bs m p end hp run short held fits =
    sleb_loop_value bs 0 max_rounds m p end p 0 0 (omega arith) (fits-EndsWell bs run short fits)
      (omega arith) (omega arith) run held
    ∙ ground (arith, pattern-mod_ℤ bs short)

-- Where the value of such a number does not fit, `decode_sleb128` returns 0 with the error `too_big`.
pub decode_sleb128_too_big :
    (bs : List ℕ) (m : Memory) (p end : ℕ)
    → IsLeb bs
    → length bs ≤ 10
    → HoldsBefore m end p bs
    → ¬ FitsInt64 (sleb_value bs)
    → (r : Leb) × (decode_sleb128 m p end ≡ ok r) × (r.value ≡ 0) × (r.error ≡ some too_big)
unfolding decode_sleb128 failed
decode_sleb128_too_big bs m p end run short held wide =
    let (q, e) =
      sleb_loop_too_big bs 0 max_rounds m p end p 0 0 (omega arith) (tenth_of bs run short wide).0
        (tenth_of bs run short wide).1 (tenth_of bs run short wide).2 (omega arith) (omega arith)
        run held in
    (record { value = 0; n = sub32 q p; error = some too_big }, e, refl, refl)
