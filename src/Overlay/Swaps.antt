-- ===== src/Overlay/Swaps.antt =====
-- The states of the overlay between the swaps of a window.
use clientplugin.Base.{ℕ, ◌≡◌, refl, Bool, true, some, List, [], ◌∷◌, ok}
use clientplugin.Overlay.{
  create_context, get_current_context, make_current, Calls, GfxOverlayMod, make_overlay, init_imgui,
  draw_frame, enter_context, swap_window, swap_windows,
}

-- The overlay behind its first swap.
abbrev pub ready : ℕ → GfxOverlayMod
ready ours = record { have_we_inited_ui = true; our_context = some ours }

module _ (get_current create : Calls → ℕ) (should_draw begins : Calls → ℕ → Bool) where
  -- The calls after the first swap, and after another.
  abbrev pub first_swap : List ℕ → ℕ → Calls → Calls
  first_swap modules window calls =
      let asked = get_current_context ∷ calls in
      let ours = create asked in
      make_current window (get_current calls)
      ∷ draw_frame get_current create should_draw begins modules
          (init_imgui window ours (make_current window ours ∷ create_context window ∷ asked))

  abbrev pub next_swap : ℕ → List ℕ → ℕ → Calls → Calls
  next_swap ours modules window calls =
      make_current window (get_current calls)
      ∷ draw_frame get_current create should_draw begins modules
          (make_current window ours ∷ get_current_context ∷ calls)

  module _ {κ} (P : Calls → Type κ) (modules : List ℕ) where
    -- What each further swap keeps holds after all of them.
    pub further_swaps :
        (ours : ℕ)
        → ((window : ℕ) (calls : Calls) → P calls → P (next_swap ours modules window calls))
        → (windows : List ℕ) (calls : Calls) → P calls
        → (calls' : Calls) × (swap_windows get_current create should_draw begins windows modules
              (ready ours)
              calls
            ≡ ok (ready ours, calls'))
          × P calls'
    unfolding swap_windows swap_window enter_context
    further_swaps ours keeps [] calls h = (calls, refl, h)
    further_swaps ours keeps (window ∷ windows) calls h =
        further_swaps ours keeps windows (next_swap ours modules window calls)
          (keeps window calls h)

    -- And what the first swap keeps too holds after all swaps of a new overlay.
    pub swaps-keep :
        ((window : ℕ) (calls : Calls) → P calls → P (first_swap modules window calls))
        → ((ours window : ℕ) (calls : Calls) → P calls → P (next_swap ours modules window calls))
        → (windows : List ℕ) (calls : Calls) → P calls
        → (overlay : GfxOverlayMod) × (calls' : Calls) × (swap_windows get_current create
              should_draw begins windows modules make_overlay calls
            ≡ ok (overlay, calls'))
          × P calls'
    unfolding swap_windows swap_window enter_context make_overlay
    swaps-keep at_first keeps [] calls h = (make_overlay, calls, refl, h)
    swaps-keep at_first keeps (window ∷ windows) calls h =
        let ours = create (get_current_context ∷ calls) in
        let (calls', e, h') =
          further_swaps ours (keeps ours) windows (first_swap modules window calls)
            (at_first window calls h) in
        (ready ours, calls', e, h')
