-- ===== src/Hooks/Phases/Runs.antt =====
-- A hook that counts, with calls before its members are made and without.
use clientplugin.Base.{ℕ, ◌+◌, ◌≡◌, refl, List, [], ◌∷◌, ok, err, undefined}
use clientplugin.Hooks.{Callbacks, both_funcs, on_enter, on_leave}
use clientplugin.Hooks.Phases.{
  Hit, enters, leaves, hook_life, run, step, invoke, unmade, run-hook_life,
}

abbrev counting : Callbacks ℕ ℕ
counting = both_funcs (λ context s. s + context) (λ context s. s + 1)

abbrev calls : List (Hit ℕ)
calls = enters 5 ∷ leaves 5 ∷ []

run-hook_life_example :
    run (hook_life counting [] calls [] (enters 7 ∷ [])) (unmade 0) ≡ ok (unmade 6)
unfolding on_enter on_leave
run-hook_life_example = run-hook_life counting [] calls [] (enters 7 ∷ []) 0

too_early : run (hook_life counting (enters 7 ∷ []) calls [] []) (unmade 0) ≡ err undefined
unfolding run step hook_life invoke
too_early = refl
