-- ===== src/Base/Words.antt =====
-- Machine words. The plugin is built for 32-bit x86 (x86-linux-mixed.cmake), so `uintptr_t`,
-- `size_t` and `unsigned` have 32 bits, and a pointer has four bytes.
use Prim.Native.Nat.{ℕ, ◌+◌, ◌-◌, ◌*◌, ◌/◌, ◌%◌, ◌^◌}

abbrev pub word : ℕ
word = 2 ^ 32

abbrev pub pointer_size : ℕ
pointer_size = 4

abbrev pub uint32_max : ℕ
uint32_max = 0xffff_ffff

abbrev pub add32 : ℕ → ℕ → ℕ
add32 a b = (a + b) % word

-- `-` on ℕ stops at 0, so the modulus is added first; the second operand is below it.
abbrev pub sub32 : ℕ → ℕ → ℕ
sub32 a b = (a + word - b) % word

-- `x & (2^k - 1)`, and the shifts of a `uint64_t` by less than 64.
abbrev pub low_bits : ℕ → ℕ → ℕ
low_bits x k = x % 2 ^ k

abbrev pub shl64 : ℕ → ℕ → ℕ
shl64 x k = x * 2 ^ k % 2 ^ 64

abbrev pub shr64 : ℕ → ℕ → ℕ
shr64 x k = x / 2 ^ k
