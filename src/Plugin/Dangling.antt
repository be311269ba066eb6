-- ===== src/Plugin/Dangling.antt =====
-- The listeners that the interceptor detaches when it is destroyed.
use clientplugin.Base.{ℕ, ◌≡◌, ◌≢◌, refl, sym, subst, inl, inr, Bool, List, [], Text, arith}
use clientplugin.ClientClasses.{RecvTable}
use clientplugin.Hooks.{Attempt-cases}
use clientplugin.Interceptor.{GumCall}
use clientplugin.Interfaces.{InterfaceVersion}
use clientplugin.Modules.{make_manager}
use clientplugin.Modules.Kept.{kept, make_manager-kept, destroy_manager-kept}
use clientplugin.Modules.Registered.{Replacing, registered, gfx_overlay_mod}
use clientplugin.Offsets.Constants.{OffsetName, sdl_gl_swap_window}
use clientplugin.Plugin.Ways.{with_classes, load-ways}
use clientplugin.Plugin.{
  InitOutcome, Plugin, loaded, open_it, close_it, make_modules, load, reset_modules,
}

module _ (attaches replaces : List GumCall → ℕ → ℕ → Bool) (function : Replacing → ℕ) where
  make_modules-kept :
      (address : OffsetName → ℕ) (p : Plugin)
      → (make_modules attaches replaces function address p).1 ≡ loaded
      → kept (reset_modules (make_modules attaches replaces function address p).0).world ≢ []
  unfolding make_modules open_it reset_modules close_it gfx_overlay_mod
  make_modules-kept address p e =
      let overlay = gfx_overlay_mod address function in
      let manager =
        make_manager attaches replaces (registered address function p.classes) overlay p.world in
      elim (Attempt-cases manager.1) [
        | inl (m, y) ↦
            rw (y, make_modules)
              (subst (λ l. l ≢ []) (sym (destroy_manager-kept m manager.0))
                (make_manager-kept attaches replaces (registered address function p.classes) overlay
                  (address sdl_gl_swap_window) (refl, refl) p.world y))
        | inr (why, n) ↦ absurd (ground arith)
      ]

  module _ (factory : InterfaceVersion → ℕ)
      (get_client_factory get_server_factory : ℕ → InterfaceVersion → ℕ)
      (get_all_classes : ℕ → List (Text × RecvTable)) where
    -- If `Load` returns, the interceptor still keeps a probe listener when `module_manager` has been reset, with
    -- which all hooks have been destroyed.
    pub load-kept :
        (init_offsets : InitOutcome)
        → (load attaches replaces function factory get_client_factory get_server_factory
            get_all_classes init_offsets).1
          ≡ loaded
        → kept
            (reset_modules
              (load attaches replaces function factory get_client_factory get_server_factory
                get_all_classes init_offsets).0).world
          ≢ []
    load-kept init_offsets done =
        elim (load-ways attaches replaces function factory get_client_factory get_server_factory
          get_all_classes init_offsets) [
            | inl (outcome, e, not_loaded) ↦ absurd (not_loaded (rw e at done))
            | inr (address, classes, e) ↦
                rw e (make_modules-kept address (with_classes classes) (rw e at done))
          ]
