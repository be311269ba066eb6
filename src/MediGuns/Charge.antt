-- ===== src/MediGuns/Charge.antt =====
-- What is printed around calls, one after the other or one inside another.
use clientplugin.Base.{ℕ, ◌≡◌, refl, true, [], ◌∷◌, ◌++◌, Memory, load_le, Result, ok, ◌>>=◌, add32}
use clientplugin.Hooks.{Callbacks, on_enter, on_leave}
use clientplugin.MediGuns.{HealState, before_healing, after_healing, medi_callbacks}

-- A call of the function that the hook is attached to, as frida-gum documents it: the hook's first function, the
-- function itself, the hook's second.
abbrev pub invoke :
    Callbacks ℕ (Result HealState)
    → ℕ
    → (Result HealState → Result HealState)
    → Result HealState
    → Result HealState
invoke hook self function s = on_leave hook self (function (on_enter hook self s))

-- A function that changes the memory only.
abbrev pub changes : (Memory → Memory) → Result HealState → Result HealState
changes write s = s >>= λ t. ok (record t { memory = write t.memory })

module _ (charge_val_offset : ℕ) where
  -- Around a call that changes the memory only, what is printed is the charge before it and the charge after it.
  pub invoke_lem :
      (self : ℕ) (write : Memory → Memory) (s : HealState) (old new : ℕ)
      → load_le 4 s.memory (add32 self charge_val_offset) ≡ ok old
      → load_le 4 (write s.memory) (add32 self charge_val_offset) ≡ ok new
      → invoke (medi_callbacks charge_val_offset true) self (changes write) (ok s)
        ≡ ok (record {
          charge_val = old;
          memory = write s.memory;
          printed = s.printed ++ ((old, new) ∷ []);
        })
  unfolding medi_callbacks before_healing after_healing on_enter on_leave
  invoke_lem self write s old new before after = rw (before, after) refl
