-- ===== src/Overlay.antt =====
-- src/modules/gfxoverlay.cpp and .hpp: the overlay that is drawn when the game swaps its window.
-- SDL, ImGui and OpenGL are given by what their calls return, and so are the modules' virtual functions.
-- Positions on the screen, which are floats, are left out.
use clientplugin.Base.{
  ℕ, Bool, true, false, Option, none, some, List, [], ◌∷◌, Result, ok, err, undefined, or_throw,
  ◌>>=◌, if◌then◌else◌,
}
pub mod Swaps
pub mod Contexts
pub mod Windows
mod Runs

-- The calls that are made. A window, a context and a module are numbers.
pub data Call : Type 0 where
  get_current_context create_imgui_context style_colors_dark init_opengl3 : Call
  create_context : (window : ℕ) → Call
  make_current init_sdl2 : (window context : ℕ) → Call
  add_font : (size : ℕ) → Call
  opengl3_new_frame sdl2_new_frame new_frame set_next_window_pos set_next_window_bg_alpha : Call
  should_draw_overlay begin_window text draw_overlay : (drawn : ℕ) → Call
  push_font pop_font end_window render viewport render_draw_data reset_hook : Call
  delete_context : (context : ℕ) → Call

-- The calls so far, the last first.
abbrev pub Calls : Type 0
Calls = List Call

-- The object; `our_context` is not initialised before the first swap.
pub record GfxOverlayMod : Type 0 where
  pub have_we_inited_ui : Bool
  pub our_context : Option ℕ

-- The constructor.
pub make_overlay : GfxOverlayMod
make_overlay = record { have_we_inited_ui = false; our_context = none }

pub init_imgui : ℕ → ℕ → Calls → Calls
init_imgui window context calls =
    add_font 24
    ∷ add_font 16
    ∷ init_opengl3
    ∷ init_sdl2 window context
    ∷ style_colors_dark
    ∷ create_imgui_context
    ∷ calls

-- What SDL_GL_GetCurrentContext, SDL_GL_CreateContext, a module's `should_draw_overlay` and
-- ImGui::Begin return, after the calls before.
module _ (get_current create : Calls → ℕ) (should_draw begins : Calls → ℕ → Bool) where
  -- `if (ImGui::Begin(...)) { ... }`
  draw_window : ℕ → Calls → Calls
  draw_window drawn calls =
      if begins calls drawn
      then set_next_window_pos
        ∷ end_window
        ∷ draw_overlay drawn
        ∷ pop_font
        ∷ text drawn
        ∷ push_font
        ∷ begin_window drawn
        ∷ calls
      else begin_window drawn ∷ calls

  -- The loop over the modules.
  draw_modules : List ℕ → Calls → Calls
  unfolding draw_window
  draw_modules [] calls = calls
  draw_modules (drawn ∷ rest) calls =
      let asked = should_draw_overlay drawn ∷ calls in
      draw_modules rest (
        if should_draw calls drawn
        then draw_window drawn (set_next_window_bg_alpha ∷ asked)
        else asked)

  pub draw_frame : List ℕ → Calls → Calls
  unfolding draw_modules
  draw_frame modules calls =
      render_draw_data
      ∷ viewport
      ∷ render
      ∷ draw_modules modules
          (set_next_window_pos ∷ new_frame ∷ sdl2_new_frame ∷ opengl3_new_frame ∷ calls)

  -- The context is made at the first swap.
  enter_context : ℕ → GfxOverlayMod → Calls → Result (GfxOverlayMod × Calls)
  unfolding init_imgui
  enter_context window overlay calls = elim overlay.have_we_inited_ui [
    | false ↦
        let ours = create calls in
        ok (
          record { have_we_inited_ui = true; our_context = some ours },
          init_imgui window ours (make_current window ours ∷ create_context window ∷ calls),
        )
    | true ↦ or_throw overlay.our_context undefined >>= λ ours.
        ok (overlay, make_current window ours ∷ calls)
  ]

  -- SDL_GL_SwapWindow_handler
  pub swap_window : ℕ → List ℕ → GfxOverlayMod → Calls → Result (GfxOverlayMod × Calls)
  unfolding draw_frame enter_context
  swap_window window modules overlay calls = do
    let their_context = get_current calls
    (entered, calls') ← enter_context window overlay (get_current_context ∷ calls)
    ok (entered, make_current window their_context ∷ draw_frame modules calls')

  -- One swap after the other, each with its window.
  pub swap_windows : List ℕ → List ℕ → GfxOverlayMod → Calls → Result (GfxOverlayMod × Calls)
  unfolding swap_window
  swap_windows [] modules overlay calls = ok (overlay, calls)
  swap_windows (window ∷ windows) modules overlay calls = do
    (overlay', calls') ← swap_window window modules overlay calls
    swap_windows windows modules overlay' calls'

-- The destructor. A context that has not been initialised is undefined.
pub destroy_overlay : GfxOverlayMod → Calls → Result Calls
destroy_overlay overlay calls = elim overlay.our_context [
  | none ↦ err undefined
  | some ours ↦ ok (delete_context ours ∷ reset_hook ∷ calls)
]
