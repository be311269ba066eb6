-- ===== src/Generator/Bind.antt =====
-- Statements of a coroutine that may throw, in `do` blocks.
use clientplugin.Base.{Result, ok, err, stuck}
use clientplugin.Generator.{Gen, throws, hangs}

infixl 5 ◌>>=◌
abbrev pub ◌>>=◌ {κ ℓ} : {V : Type κ} {W : Type ℓ} (r : Result V) (rest : V → Gen W) → Gen W
stuck >>= rest = hangs
err x >>= rest = throws x
ok v >>= rest = rest v
