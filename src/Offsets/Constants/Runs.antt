-- ===== src/Offsets/Constants/Runs.antt =====
-- The constants, with a function that reads hexadecimal digits.
use clientplugin.Base.{
  ℕ, ◌+◌, ◌-◌, ◌*◌, ◌≡◌, refl, List, [], ◌∷◌, Text, arith, ltb, Result, ok, err, out_of_range,
  ◌>>=◌, if◌then◌else◌,
}
use clientplugin.Offsets.{Offset}
use clientplugin.Offsets.Constants.{all_names, construct}
use clientplugin.Offsets.Constants.Built.{IsUnhex, constants-construct}

-- The value of a digit.
abbrev nibble : ℕ → ℕ
nibble c = if ltb c 58 then c - 48 else if ltb c 71 then c - 55 else c - 87

abbrev unhex : Text → Result (List ℕ)
unhex [] = ok []
unhex (c ∷ []) = err out_of_range
unhex (c ∷ d ∷ s) = unhex s >>= λ rest. ok ((16 * nibble c + nibble d) ∷ rest)

unhex-IsUnhex : IsUnhex unhex
unhex-IsUnhex [] e = ([], refl, omega arith)
unhex-IsUnhex (c ∷ []) e = cc
unhex-IsUnhex (c ∷ d ∷ s) e =
    let (rest, r, l) = unhex-IsUnhex s (ground arith) in
    ((16 * nibble c + nibble d) ∷ rest, rw r refl, omega (arith, l))

constants-construct_example :
    (g_offset_list : List (Offset × ℕ)) × (construct unhex all_names [] ≡ ok g_offset_list)
constants-construct_example = constants-construct unhex unhex-IsUnhex
