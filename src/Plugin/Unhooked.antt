-- ===== src/Plugin/Unhooked.antt =====
-- What the plugin has hooked once its modules are gone.
use clientplugin.Base.{ℕ, ◌≡◌, refl, sym, ap, ◌∙◌, inl, inr, Bool, List, [], none, Text}
use clientplugin.ClientClasses.{RecvTable}
use clientplugin.Hooks.{Hook, Attempt-cases}
use clientplugin.Hooks.Active.{active}
use clientplugin.Interceptor.{GumCall, make_interceptor}
use clientplugin.Interfaces.{InterfaceVersion}
use clientplugin.Modules.{make_manager}
use clientplugin.Modules.Registered.{
  Replacing, registered, gfx_overlay_mod, registered-IsComplete, gfx_overlay-IsComplete,
}
use clientplugin.Modules.Unhooked.{afterwards, manager-unhooked}
use clientplugin.Offsets.Constants.{OffsetName}
use clientplugin.Plugin.Ways.{connected, with_classes, load-ways}
use clientplugin.Plugin.{
  InitOutcome, Plugin, Loaded, open_it, close_it, connect, start_gum, make_modules, load,
  reset_modules,
}

module _ (attaches replaces : List GumCall → ℕ → ℕ → Bool) (function : Replacing → ℕ) where
  -- What is hooked when the modules are gone.
  abbrev pub left : Plugin × Loaded → List Hook
  left (p, outcome) = active attaches replaces (reset_modules p).world.interceptor.calls

  reset_without :
      (p : Plugin)
      → p.module_manager ≡ none
      → (reset_modules p).world.interceptor.calls ≡ p.world.interceptor.calls
  unfolding reset_modules
  reset_without p unmade = rw (unmade, reset_modules) refl

  make_modules-left :
      (address : OffsetName → ℕ) (p : Plugin)
      → p.module_manager ≡ none
      → active attaches replaces p.world.interceptor.calls ≡ []
      → left (make_modules attaches replaces function address p) ≡ []
  unfolding make_modules open_it reset_modules close_it
  make_modules-left address p unmade before =
      let manager =
        make_manager attaches replaces (registered address function p.classes)
          (gfx_overlay_mod address function) p.world in
      let gone =
        manager-unhooked attaches replaces (registered address function p.classes)
          (gfx_overlay_mod address function) p.world
          (registered-IsComplete address function p.classes)
          (gfx_overlay-IsComplete address function) before in
      elim (Attempt-cases manager.1) [
        | inl (m, e) ↦
            rw (e, make_modules)
              (ap
                  (λ r.
                    active attaches replaces
                      (afterwards attaches replaces (manager.0, r)).interceptor.calls)
                  (sym e)
                ∙ gone)
        | inr (why, e) ↦
            rw (e, make_modules)
              (ap (active attaches replaces) (reset_without (record p { world = manager.0 }) unmade)
                ∙ ap
                    (λ r.
                      active attaches replaces
                        (afterwards attaches replaces (manager.0, r)).interceptor.calls)
                    (sym e)
                ∙ gone)
      ]

  module _ (factory : InterfaceVersion → ℕ)
      (get_client_factory get_server_factory : ℕ → InterfaceVersion → ℕ)
      (get_all_classes : ℕ → List (Text × RecvTable)) where
    -- However `Load` ends, and whatever frida-gum and the engine answer, no attachment and no replacement
    -- is in effect once `module_manager` has been reset, which `Unload` does before anything else.
    pub load-left :
        (init_offsets : InitOutcome)
        → left (
            load attaches replaces function factory get_client_factory get_server_factory
              get_all_classes init_offsets)
          ≡ []
    unfolding with_classes connected open_it connect start_gum reset_modules make_interceptor
    load-left init_offsets =
        elim (load-ways attaches replaces function factory get_client_factory get_server_factory
          get_all_classes init_offsets) [
            | inl (outcome, e, not_loaded) ↦ rw e refl
            | inr (address, classes, e) ↦
                rw e (make_modules-left address (with_classes classes) refl refl)
          ]
