-- ===== src/Overlay/Contexts.antt =====
-- The contexts of OpenGL that the overlay makes, uses and deletes.
use clientplugin.Base.{
  ℕ, suc, ◌≡◌, ◌↔◌, refl, ◌∙◌, Bool, Bool-cases, inl, inr, List, [], ◌∷◌, Result, ok, err, arith,
  undefined, ◌>>=◌,
}
use clientplugin.Overlay.{
  Call, create_context, make_current, get_current_context, Calls, GfxOverlayMod, make_overlay,
  init_imgui, draw_window, draw_modules, draw_frame, enter_context, swap_window, swap_windows,
  set_next_window_bg_alpha, should_draw_overlay, destroy_overlay,
}
use clientplugin.Overlay.Swaps.{ready, first_swap, further_swaps, swaps-keep}

abbrev pub created : Calls → ℕ
created [] = 0
created (create_context window ∷ calls) = suc (created calls)
created (_ ∷ calls) = created calls

-- The current context after a call, as SDL documents it.
abbrev pub current_after : (Calls → ℕ) → Calls → Call → ℕ → ℕ
current_after create calls (make_current window context) current = context
current_after create calls (create_context window) current = create calls
current_after create calls _ current = current

abbrev pub IsSdl : (Calls → ℕ) → (Calls → ℕ) → Type 0
IsSdl get_current create =
    (call : Call) (calls : Calls)
    → get_current (call ∷ calls) ≡ current_after create calls call (get_current calls)

module _ (get_current create : Calls → ℕ) (should_draw begins : Calls → ℕ → Bool) where
  draw_window-created :
      (d : ℕ) (calls : Calls)
      → created (draw_window get_current create should_draw begins d calls) ≡ created calls
  unfolding draw_window
  draw_window-created d calls = elim (Bool-cases (begins calls d)) [
    | inl e ↦ rw (e, draw_window) refl
    | inr e ↦ rw (e, draw_window) refl
  ]

  draw_modules-created :
      (modules : List ℕ) (calls : Calls)
      → created (draw_modules get_current create should_draw begins modules calls) ≡ created calls
  unfolding draw_modules
  draw_modules-created [] calls = refl
  draw_modules-created (d ∷ rest) calls = elim (Bool-cases (should_draw calls d)) [
    | inl e ↦
        rw (e, draw_modules)
          (draw_modules-created rest _
            ∙ draw_window-created d (set_next_window_bg_alpha ∷ should_draw_overlay d ∷ calls))
    | inr e ↦ rw (e, draw_modules) (draw_modules-created rest (should_draw_overlay d ∷ calls))
  ]

  -- A new overlay creates one context if the window is swapped at all, and none in later swaps.
  pub swap_windows-created :
      (window : ℕ) (windows modules : List ℕ)
      → (overlay : GfxOverlayMod) × (calls : Calls) × (swap_windows get_current create should_draw
            begins
            (window ∷ windows)
            modules
            make_overlay
            []
          ≡ ok (overlay, calls))
        × (created calls ≡ 1)
  unfolding swap_windows swap_window enter_context make_overlay draw_frame init_imgui
  swap_windows-created window windows modules =
      let first = first_swap get_current create should_draw begins modules window [] in
      let ours = create (get_current_context ∷ []) in
      let (calls, e, h) =
        further_swaps get_current create should_draw begins (λ calls. created calls ≡ 1) modules
          ours (λ w calls h. draw_modules-created modules _ ∙ h) windows first
          (draw_modules-created modules _) in
      (ready ours, calls, e, h)

  -- What SDL gives as current after any swaps is what was current before them: the game does not
  -- notice the overlay's context.
  pub swap_windows-current :
      IsSdl get_current create
      → (windows modules : List ℕ) (calls : Calls)
      → (overlay : GfxOverlayMod) × (calls' : Calls) × (swap_windows get_current create should_draw
            begins windows modules make_overlay calls
          ≡ ok (overlay, calls'))
        × (get_current calls' ≡ get_current calls)
  swap_windows-current sdl windows modules calls =
      swaps-keep get_current create should_draw begins
        (λ calls'. get_current calls' ≡ get_current calls) modules
        (λ window calls' h. sdl (make_current window (get_current calls')) _ ∙ h)
        (λ ours window calls' h. sdl (make_current window (get_current calls')) _ ∙ h) windows calls
        refl

  -- The overlay from its constructor to its destructor.
  abbrev pub whole_life : List ℕ → List ℕ → Result Calls
  whole_life windows modules =
      swap_windows get_current create should_draw begins windows modules make_overlay [] >>= λ s.
      destroy_overlay s.0 s.1

  deletes :
      (ours : ℕ) (calls : Calls) {s : Result (GfxOverlayMod × Calls)}
      → s ≡ ok (ready ours, calls)
      → (s >>= λ s. destroy_overlay s.0 s.1) ≡ err undefined
      → ⊥
  unfolding destroy_overlay
  deletes ours calls e u = ground arith

  -- The destructor deletes a context that has not been initialised if and only if the window has not been
  -- swapped before.
  pub whole_life-undefined :
      (windows modules : List ℕ) → (whole_life windows modules ≡ err undefined) ↔ (windows ≡ [])
  unfolding swap_windows swap_window enter_context make_overlay destroy_overlay
  whole_life-undefined [] modules = (λ e. refl, λ e. refl)
  whole_life-undefined (window ∷ windows) modules =
      let (calls, e, _) =
        further_swaps get_current create should_draw begins (λ calls. Unit {0}) modules
          (create (get_current_context ∷ [])) (λ w calls h. h) windows
          (first_swap get_current create should_draw begins modules window []) tt in
      (λ u. absurd (deletes _ calls e u), λ n. cc)
