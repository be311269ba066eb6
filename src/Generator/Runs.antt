-- ===== src/Generator/Runs.antt =====
-- A run of a range-for over a coroutine that yields twice and then throws.
use clientplugin.Base.{ℕ, ◌+◌, ◌≡◌, Result, ok, null_base}
use clientplugin.Generator.{Gen, throws, yields, range_for, for_each, yielded}
use clientplugin.Generator.Protocol.{range_for-for_each}

abbrev two_then_throw : Gen ℕ
two_then_throw = yields 3 (yields 4 (throws null_base))

abbrev add_to : ℕ → ℕ → Result ℕ
add_to s a = ok (s + a)

range_for-for_each_example : range_for add_to 3 two_then_throw 0 ≡ for_each add_to two_then_throw 0
unfolding yielded
range_for-for_each_example = range_for-for_each add_to two_then_throw 0
