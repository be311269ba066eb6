-- ===== src/Base/Bytes.antt =====
-- The address space of the process. `none` is an address that is not mapped.
use Prim.Native.Nat.{ℕ, zero, suc, ◌+◌, ◌-◌, ◌*◌, ◌<◌}
use mathlib.Core.Path.{◌≡◌}
use mathlib.Core.List.{List, [], ◌∷◌}
use mathlib.Core.Option.{Option, none, some}
use clientplugin.Base.Words.{add32, word}
use clientplugin.Base.Outcome.{Result, ok, or_throw, ◌>>=◌, fault}

abbrev pub Memory : Type 0
Memory = ℕ → Option ℕ

abbrev pub IsByte : ℕ → Type 0
IsByte b = b < 256

-- Every mapped address holds a byte.
abbrev pub IsByteMemory : Memory → Type 0
IsByteMemory m = (a b : ℕ) → m a ≡ some b → IsByte b

-- A read of one byte; one of an address that is not mapped ends the process.
unfoldable pub load : Memory → ℕ → Result ℕ
load m a = or_throw (m a) fault

-- A little-endian read of n bytes. The address of each byte wraps as the pointer does.
unfoldable pub load_le : ℕ → Memory → ℕ → Result ℕ
load_le zero m a = ok 0
load_le (suc n) m a = do b ← load m a; rest ← load_le n m (add32 a 1); ok (b + 256 * rest)

-- The bytes bs stand in memory from address a on.
abbrev pub Holds : Memory → ℕ → List ℕ → Type 0
Holds m a [] = Unit {0}
Holds m a (b ∷ bs) = (m a ≡ some b) × Holds m (add32 a 1) bs

-- A process in user space: neither the null page nor the top of the address space is mapped.
pub record IsUserSpace (m : Memory) : Type 0 where
  pub null_page : m 0 ≡ none
  pub kernel_space : m (word - 1) ≡ none
