-- ===== src/RangeChecker.antt =====
-- src/util/data_range_checker.hpp: `DataRange` and `DataRangeChecker`.
use clientplugin.Base.{
  ℕ, zero, suc, ◌+◌, ◌-◌, Bool, true, false, Result, ok, err, stuck, ◌>>=◌, Error, out_of_range,
  ltb, ◌==◌, if◌then◌else◌, add32, sub32,
}
pub mod Laws
mod Runs

-- `begin` and `length` are words.
pub record DataRange : Type 0 where
  pub begin : ℕ
  pub length : ℕ

-- The size of `range_bs_t`: 150 MiB, counted in bits.
abbrev pub range_bits : ℕ
range_bits = 157286400

-- A `std::bitset` is the bits that are set.
pub record DataRangeChecker : Type 0 where
  pub base : ℕ
  pub range : ℕ → Bool

unfoldable pub make_checker : ℕ → DataRangeChecker
make_checker base = record { base = base; range = λ _. false }

-- `std::bitset::set` and `test` throw beyond the last bit.
unfoldable pub set_bit : DataRangeChecker → ℕ → Result DataRangeChecker
set_bit c i =
    if ltb i range_bits
    then ok (record c { range = λ j. if j == i then true else c.range j })
    else err out_of_range

unfoldable pub test_bit : DataRangeChecker → ℕ → Result Bool
test_bit c i = if ltb i range_bits then ok (c.range i) else err out_of_range

-- `for (auto i = r.begin; i < r.begin + r.length; i++) range->set(i - base);`
-- The end is computed in a word, and wraps.
unfoldable pub add_loop : ℕ → DataRangeChecker → ℕ → ℕ → Result DataRangeChecker
unfolding set_bit
add_loop zero c i end = if ltb i end then stuck else ok c
add_loop (suc fuel) c i end =
    let rest = λ (c' : DataRangeChecker). add_loop fuel c' (add32 i 1) end in
    if ltb i end then (set_bit c (sub32 i c.base) >>= rest) else ok c

-- There is a round for each address of the range, and none if its end wraps.
unfoldable pub add_range : DataRangeChecker → DataRange → Result DataRangeChecker
unfolding add_loop
add_range c r = add_loop (add32 r.begin r.length - r.begin) c r.begin (add32 r.begin r.length)

unfoldable pub is_position_in_range : DataRangeChecker → ℕ → Result Bool
unfolding test_bit
is_position_in_range c position = test_bit c (sub32 position c.base)
