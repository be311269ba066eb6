-- ===== src/UnhideCvars.antt =====
-- src/modules/unhidecvars.cpp, with src/sdk/ccvar.hpp. The flags are an int of 32 bits, as the number that its bits
-- write; the values of FCVAR_DEVELOPMENTONLY and FCVAR_HIDDEN, which the SDK defines, are given.
use clientplugin.Base.{ℕ, ◌-◌, ◌^◌, List, [], ◌∷◌, Text, bit_and, bit_or}
pub mod Shown
mod Runs

-- What is read and written of a command or a variable, in the order of `GetNext`.
pub record Command : Type 0 where
  pub name : Text
  pub flags : ℕ

-- CCvar::SetFlags and CCvar::GetFlags.
pub set_flags : ℕ → Command → Command
set_flags flags var = record var { flags = flags }

pub get_flags : Command → ℕ
get_flags var = var.flags

-- `MASK`, which is `~` of the two flags.
pub mask : ℕ → ℕ → ℕ
mask development_only hidden = 2 ^ 32 - 1 - bit_or development_only hidden

pub unhide_cvars : ℕ → ℕ → List Command → List Command
unfolding set_flags get_flags mask
unhide_cvars development_only hidden [] = []
unhide_cvars development_only hidden (var ∷ commands) =
    set_flags (bit_and (get_flags var) (mask development_only hidden)) var
    ∷ unhide_cvars development_only hidden commands
