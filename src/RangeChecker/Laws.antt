-- ===== src/RangeChecker/Laws.antt =====
-- What `add_range` and `is_position_in_range` do together.
use native.Mathlib.Nat.{mod-eq_of_lt}
use clientplugin.Base.{
  ℕ, zero, suc, ◌+◌, ◌-◌, ◌≤◌, ◌<◌, ◌≡◌, ◌≢◌, refl, ◌∙◌, Bool, true, ◌&&◌, arith, ok, ltb, leb,
  ◌==◌, if◌then◌else◌, add32, sub32, word, inl, inr, Bool-cases, ltb→lt, Ends, ok-Ends, err-Ends,
  if-Ends, >>=-Ends,
}
use clientplugin.RangeChecker.{
  DataRange, DataRangeChecker, range_bits, make_checker, set_bit, add_loop, add_range,
  is_position_in_range,
}

-- A position is in the set [i, end).
abbrev pub within : ℕ → ℕ → ℕ → Bool
within i end pos = leb i pos && ltb pos end

module _ (end : ℕ) where
  -- What the loop has made of c, if it goes on to `end`.
  record Extends (c : DataRangeChecker) (i : ℕ) (c' : DataRangeChecker) : Type 0 where
    base_kept : c'.base ≡ c.base
    bits :
        (pos : ℕ)
        → pos < word
        → is_position_in_range c' pos
          ≡ (if within i end pos then ok true else is_position_in_range c pos)

  set_one : (c : DataRangeChecker) → ℕ → DataRangeChecker
  set_one c i = record c { range = λ j. if j == sub32 i c.base then true else c.range j }

  add_step :
      (fuel : ℕ) (c : DataRangeChecker) (i : ℕ)
      → c.base ≤ i
      → i < end
      → end < word
      → end - c.base ≤ range_bits
      → add_loop (suc fuel) c i end ≡ add_loop fuel (set_one c i) (add32 i 1) end
  unfolding add_loop set_one
  add_step fuel c i low inside small fits = ground arith

  Extends-step :
      (c : DataRangeChecker) (i : ℕ) (c' : DataRangeChecker)
      → c.base ≤ i
      → i < end
      → end < word
      → end - c.base ≤ range_bits
      → Extends (set_one c i) (add32 i 1) c'
      → Extends c i c'
  unfolding set_one is_position_in_range
  Extends-step c i c' low inside small fits next = record {
    base_kept = next.base_kept;
    bits = λ pos hp. ground (arith, next.bits pos hp);
  }

  add_stop : (fuel : ℕ) (c : DataRangeChecker) (i : ℕ) → end ≤ i → add_loop fuel c i end ≡ ok c
  unfolding add_loop
  add_stop zero c i h = ground arith
  add_stop (suc fuel) c i h = ground arith

  Extends-none : (c : DataRangeChecker) (i : ℕ) → end ≤ i → Extends c i c
  Extends-none c i h = record { base_kept = refl; bits = λ pos hp. ground arith }

  add_loop-Extends :
      (n fuel : ℕ) (c : DataRangeChecker) (i : ℕ)
      → i + n ≡ end
      → n ≤ fuel
      → c.base ≤ i
      → end < word
      → end - c.base ≤ range_bits
      → (c' : DataRangeChecker) × (add_loop fuel c i end ≡ ok c') × Extends c i c'
  add_loop-Extends zero fuel c i e hf low small fits =
      (c, add_stop fuel c i (omega arith), Extends-none c i (omega arith))
  add_loop-Extends (suc n) zero c i e hf low small fits = elim hf [ ]
  add_loop-Extends (suc n) (suc fuel) c i e hf low small fits =
      let (c', run, ext) =
        add_loop-Extends n fuel (set_one c i) (add32 i 1) (omega arith) (omega arith)
          (unfold set_one in omega arith) small (unfold set_one in fits) in
      (
        c',
        add_step fuel c i low (omega arith) small fits ∙ run,
        Extends-step c i c' low (omega arith) small fits ext,
      )

-- What adding a range makes of each position.
add_range_all :
    (c : DataRangeChecker) (r : DataRange)
    → r.begin + r.length < word
    → c.base ≤ r.begin
    → r.begin + r.length - c.base ≤ range_bits
    → (c' : DataRangeChecker) × (add_range c r ≡ ok c')
      × (c'.base ≡ c.base)
      × ((pos : ℕ)
          → pos < word
          → is_position_in_range c' pos ≡ (
              if within r.begin (r.begin + r.length) pos
              then ok true
              else is_position_in_range c pos))
unfolding add_range
add_range_all c r small low fits =
    let end = r.begin + r.length in
    let (c', run, ext) =
      add_loop-Extends end r.length (end - r.begin) c r.begin refl (omega arith) low small fits in
    (c', rw (mod-eq_of_lt small) run, ext.base_kept, ext.bits)

-- A range that ends in the address space and within the bits of the checker is added without an
-- error; then a position is in range if it is the range's, or was in range, and `base` stays.
pub is_position_in_range-add_range :
    (c : DataRangeChecker) (r : DataRange) (pos : ℕ)
    → r.begin + r.length < word
    → c.base ≤ r.begin
    → r.begin + r.length - c.base ≤ range_bits
    → pos < word
    → (c' : DataRangeChecker) × (add_range c r ≡ ok c')
      × (c'.base ≡ c.base)
      × (is_position_in_range c' pos ≡ (
          if within r.begin (r.begin + r.length) pos then ok true else is_position_in_range c pos))
is_position_in_range-add_range c r pos small above inside hp =
    let (c', run, kept, bits) = add_range_all c r small above inside in (c', run, kept, bits pos hp)

-- A range whose end wraps in the address space is dropped without a word.
pub add_range_wraps :
    (c : DataRangeChecker) (r : DataRange)
    → r.begin < word
    → r.length < word
    → word ≤ r.begin + r.length
    → add_range c r ≡ ok c
unfolding add_range
add_range_wraps c r hb hl wraps = add_stop (add32 r.begin r.length) _ c r.begin (omega arith)

set_bit-Ends : (c : DataRangeChecker) (i : ℕ) → Ends (set_bit c i)
unfolding set_bit
set_bit-Ends c i = if-Ends _ _ _ (ok-Ends _) (err-Ends _)

add_loop-Ends :
    (fuel : ℕ) (c : DataRangeChecker) (i end : ℕ)
    → end < word
    → end - i ≤ fuel
    → Ends (add_loop fuel c i end)
unfolding add_loop
add_loop-Ends zero c i end he hf = ground arith
add_loop-Ends (suc fuel) c i end he hf = elim (Bool-cases (ltb i end)) [
  | inl inside ↦ rw inside (
      >>=-Ends _ _ (set_bit-Ends c (sub32 i c.base))
        λ c' _. add_loop-Ends fuel c' (add32 i 1) end he (omega (arith, ltb→lt i end inside)))
  | inr outside ↦ rw outside (ok-Ends c)
]

-- `add_range` ends on every range.
pub add_range-Ends : (c : DataRangeChecker) (r : DataRange) → Ends (add_range c r)
unfolding add_range
add_range-Ends c r = add_loop-Ends _ c r.begin _ (omega arith) (omega arith)

-- A new checker has no position in range: it answers false, or throws beyond its bits.
pub is_position_in_range-make_checker :
    (base pos : ℕ) → is_position_in_range (make_checker base) pos ≢ ok true
unfolding is_position_in_range make_checker
is_position_in_range-make_checker base pos = ground arith

pub is_position_in_range-Ends :
    (c : DataRangeChecker) (position : ℕ) → Ends (is_position_in_range c position)
unfolding is_position_in_range
is_position_in_range-Ends c position = ground arith
