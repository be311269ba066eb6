-- ===== src/Overlay/Windows.antt =====
-- The windows of ImGui that the overlay begins, and those that it ends.
use clientplugin.Base.{
  ℕ, suc, ◌+◌, ◌≡◌, refl, Bool, Bool-cases, inl, inr, List, [], ◌∷◌, ok, arith, if◌then◌else◌,
}
use clientplugin.Overlay.{
  begin_window, end_window, set_next_window_bg_alpha, should_draw_overlay, Calls, GfxOverlayMod,
  init_imgui, draw_window, draw_modules, draw_frame, swap_windows, make_overlay,
}
use clientplugin.Overlay.Swaps.{swaps-keep}

abbrev pub begun : Calls → ℕ
begun [] = 0
begun (begin_window d ∷ calls) = suc (begun calls)
begun (_ ∷ calls) = begun calls

abbrev pub ended : Calls → ℕ
ended [] = 0
ended (end_window ∷ calls) = suc (ended calls)
ended (_ ∷ calls) = ended calls

module _ (get_current create : Calls → ℕ) (should_draw begins : Calls → ℕ → Bool) where
  -- The windows that ImGui begins without showing them.
  abbrev pub hidden : Calls → ℕ
  hidden [] = 0
  hidden (begin_window d ∷ calls) =
      let before = hidden calls in if begins calls d then before else suc before
  hidden (_ ∷ calls) = hidden calls

  -- What is begun is ended or hidden.
  abbrev pub IsEnded : Calls → Type 0
  IsEnded calls = begun calls ≡ ended calls + hidden calls

  draw_window-IsEnded :
      (d : ℕ) (calls : Calls)
      → IsEnded calls
      → IsEnded (draw_window get_current create should_draw begins d calls)
  unfolding draw_window
  draw_window-IsEnded d calls h = ground arith

  draw_modules-IsEnded :
      (modules : List ℕ) (calls : Calls)
      → IsEnded calls
      → IsEnded (draw_modules get_current create should_draw begins modules calls)
  unfolding draw_modules
  draw_modules-IsEnded [] calls h = h
  draw_modules-IsEnded (d ∷ rest) calls h = elim (Bool-cases (should_draw calls d)) [
    | inl e ↦
        rw (e, draw_modules)
          (draw_modules-IsEnded rest _
            (draw_window-IsEnded d (set_next_window_bg_alpha ∷ should_draw_overlay d ∷ calls) h))
    | inr e ↦ rw (e, draw_modules) (draw_modules-IsEnded rest (should_draw_overlay d ∷ calls) h)
  ]

  draw_frame-IsEnded :
      (modules : List ℕ) (calls : Calls)
      → IsEnded calls
      → IsEnded (draw_frame get_current create should_draw begins modules calls)
  unfolding draw_frame
  draw_frame-IsEnded modules calls h = draw_modules-IsEnded modules _ h

  -- The overlay ends each window that it begins, but for those that ImGui::Begin does not show: after any
  -- swaps, the windows that have been begun are as many as those that have been ended and those
  -- for which ImGui::Begin has returned false.
  pub swap_windows-IsEnded :
      (windows modules : List ℕ)
      → (overlay : GfxOverlayMod) × (calls : Calls) × (swap_windows get_current create should_draw
            begins windows modules make_overlay []
          ≡ ok (overlay, calls))
        × IsEnded calls
  unfolding make_overlay init_imgui
  swap_windows-IsEnded windows modules =
      swaps-keep get_current create should_draw begins IsEnded modules
        (λ window calls h. draw_frame-IsEnded modules _ h)
        (λ ours window calls h. draw_frame-IsEnded modules _ h) windows [] refl
