-- ===== src/UnhideCvars/Runs.antt =====
-- Commands on which the model runs.
use clientplugin.Base.{◌≡◌, refl, List, [], ◌∷◌, map, codes, arith}
use clientplugin.Base.Bits.{bit}
use clientplugin.UnhideCvars.{Command, get_flags, set_flags, mask, unhide_cvars}
use clientplugin.UnhideCvars.Shown.{left_of, unhide_cvars-left_of}

-- The flags 2 and 16 of one, 2 and 128 of the other.
abbrev commands : List Command
commands =
    record { name = codes "cl_a"; flags = 18 } ∷ record { name = codes "cl_b"; flags = 130 } ∷ []

unhidden : map get_flags (unhide_cvars 2 16 commands) ≡ 0 ∷ 128 ∷ []
unfolding unhide_cvars get_flags set_flags mask
unhidden = refl

unhide_cvars-left_of_example :
    (map (λ (var : Command). bit 4 (get_flags var)) (unhide_cvars 2 16 commands)
      ≡ map (left_of 2 16 4) commands)
    × (map (λ (var : Command). var.name) (unhide_cvars 2 16 commands)
        ≡ map (λ (var : Command). var.name) commands)
unhide_cvars-left_of_example =
    unhide_cvars-left_of 2 16 4 (omega arith) (omega arith) (omega arith) commands
