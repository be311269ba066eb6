-- ===== src/Overlay/Runs.antt =====
-- Two swaps of a window, with two modules of which one draws.
use clientplugin.Base.{ℕ, ◌≡◌, ◌↔◌, refl, Bool, false, List, [], ◌∷◌, ok, err, undefined, ◌==◌}
use clientplugin.Overlay.{Calls, GfxOverlayMod, make_overlay, swap_windows}
use clientplugin.Overlay.Contexts.{
  current_after, IsSdl, swap_windows-current, whole_life, whole_life-undefined,
}
use clientplugin.Overlay.Windows.{IsEnded, swap_windows-IsEnded}

-- The game's context is 7, and a new one is 8.
abbrev create : Calls → ℕ
create calls = 8

abbrev get_current : Calls → ℕ
get_current [] = 7
get_current (call ∷ calls) = current_after create calls call (get_current calls)

abbrev should_draw : Calls → ℕ → Bool
should_draw calls drawn = drawn == 1

-- The window is collapsed.
abbrev begins : Calls → ℕ → Bool
begins calls drawn = false

swap_windows-IsEnded_example :
    (overlay : GfxOverlayMod) × (calls : Calls) × (swap_windows get_current create should_draw
        begins
        (3 ∷ 3 ∷ [])
        (0 ∷ 1 ∷ [])
        make_overlay
        []
      ≡ ok (overlay, calls))
    × IsEnded get_current create should_draw begins calls
swap_windows-IsEnded_example =
    swap_windows-IsEnded get_current create should_draw begins (3 ∷ 3 ∷ []) (0 ∷ 1 ∷ [])

sdl : IsSdl get_current create
sdl call calls = refl

swap_windows-current_example :
    (overlay : GfxOverlayMod) × (calls' : Calls) × (swap_windows get_current create should_draw
        begins
        (3 ∷ 3 ∷ [])
        (0 ∷ 1 ∷ [])
        make_overlay
        []
      ≡ ok (overlay, calls'))
    × (get_current calls' ≡ get_current [])
swap_windows-current_example =
    swap_windows-current get_current create should_draw begins sdl (3 ∷ 3 ∷ []) (0 ∷ 1 ∷ []) []

whole_life-undefined_example :
    (whole_life get_current create should_draw begins [] (0 ∷ 1 ∷ []) ≡ err undefined)
    ↔ (◌≡◌ {A = List ℕ} [] [])
whole_life-undefined_example =
    whole_life-undefined get_current create should_draw begins [] (0 ∷ 1 ∷ [])
