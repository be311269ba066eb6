-- ===== src/MediGuns.antt =====
-- src/modules/mediguns.cpp: what is printed of a medigun around each call of FindAndHealTargets. A float is its
-- four bytes, as the memory holds them.
use clientplugin.Base.{
  ℕ, Bool, List, [], ◌∷◌, ◌++◌, Memory, load_le, Result, ok, err, ◌>>=◌, if◌then◌else◌, add32,
}
use clientplugin.Hooks.{Callbacks, both_funcs}
pub mod Charge

-- The module's member, with the memory and the pairs of charges that have been printed.
pub record HealState : Type 0 where
  pub charge_val : ℕ
  pub memory : Memory
  pub printed : List (ℕ × ℕ)

-- The two functions of the hook, with the offset of the property and the value of `fh_dump_mediguns`.
module _ (charge_val_offset : ℕ) (dump_medigun : Bool) where
  before_healing : ℕ → HealState → Result HealState
  before_healing self s = do
    charge ← load_le 4 s.memory (add32 self charge_val_offset)
    ok (record s { charge_val = charge })

  after_healing : ℕ → HealState → Result HealState
  after_healing self s = do
    current_charge ← load_le 4 s.memory (add32 self charge_val_offset)
    if dump_medigun
        then ok (record s { printed = s.printed ++ ((s.charge_val, current_charge) ∷ []) })
        else ok s

  -- What is thrown or ends the process in one function is not reached by the next.
  pub medi_callbacks : Callbacks ℕ (Result HealState)
  unfolding before_healing after_healing
  medi_callbacks =
      both_funcs (λ self s. s >>= before_healing self) (λ self s. s >>= after_healing self)
