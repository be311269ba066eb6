-- ===== src/Patcher/Runs.antt =====
-- Runs of a patcher.
use clientplugin.Base.{ℕ, ◌≡◌, false, some, [], ◌∷◌, err, undefined, arith}
use clientplugin.Patcher.{
  Code, X86Patcher, poke, done, make_patcher, enables, disables, call_methods, destroy,
}
use clientplugin.Patcher.Restore.{destroy-call_methods}

abbrev code : Code
code a = 0x90

-- A patcher that is enabled by its method only.
destroy-call_methods_example :
    (p : X86Patcher) × (e : Code) × ((make_patcher 4096 4 (0xEB ∷ 0x10 ∷ []) false code).1 ≡ some p)
    × (call_methods
          (disables ∷ enables ∷ [])
          p
          (make_patcher 4096 4 (0xEB ∷ 0x10 ∷ []) false code).0
        ≡ (e, done))
    × ((x : ℕ) → (destroy p e).0 x ≡ poke 4096 (0xEB ∷ 0x10 ∷ []) code x)
    × ((destroy p e).1 ≡ err undefined)
destroy-call_methods_example =
    destroy-call_methods 4096 4 (0xEB ∷ 0x10 ∷ []) code (omega arith) false
      (disables ∷ enables ∷ [])
