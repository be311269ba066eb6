-- ===== src/Plugin/Callbacks/Sessions.antt =====
-- A whole session of the plugin: it is loaded, called by the engine, and unloaded.
use clientplugin.Base.{
  ℕ, ◌≡◌, ◌≢◌, refl, ◌∙◌, inl, inr, Bool, List, [], ◌∷◌, ◌++◌, none, some, Option-cases, Text, err,
  undefined,
}
use clientplugin.ClientClasses.{RecvTable}
use clientplugin.Hooks.Active.{active}
use clientplugin.Interceptor.{GumCall}
use clientplugin.Interceptor.Destroyed.{destroy-undefined}
use clientplugin.Interfaces.{InterfaceVersion}
use clientplugin.Modules.Kept.{kept}
use clientplugin.Modules.Registered.{Replacing}
use clientplugin.Plugin.Callbacks.{Callback, receive, receive_all, get_plugin_description}
use clientplugin.Plugin.Dangling.{load-kept}
use clientplugin.Plugin.Lifecycle.{replay, load-shut_down}
use clientplugin.Plugin.Unhooked.{load-left}
use clientplugin.Plugin.{
  gum, interceptor_object, InitOutcome, Plugin, loaded, load, reset_modules, shut_down, exists_with,
  unload, disconnect, reset_interceptor, close_it,
}

-- No callback changes the plugin.
receive-same : (c : Callback) (p : Plugin) → (receive c p).0 ≡ p
unfolding receive
receive-same get_plugin_description p = refl
receive-same _ p = refl

receive_all-same : (cs : List Callback) (p : Plugin) → receive_all cs p ≡ p
unfolding receive_all
receive_all-same [] p = refl
receive_all-same (c ∷ cs) p = receive_all-same cs (receive c p).0 ∙ receive-same c p

append-nil_right : (xs ys : List ℕ) → xs ++ ys ≡ [] → ys ≡ []
append-nil_right [] ys e = e
append-nil_right (x ∷ xs) ys e = cc

module _ (attaches replaces : List GumCall → ℕ → ℕ → Bool) where
  -- The modules' hooks have gone, so no listener exists.
  reset-none : (p : Plugin) → (reset_modules p).module_manager ≡ none
  unfolding reset_modules close_it
  reset-none p = elim (Option-cases p.module_manager) [
    | inl e ↦ rw (e, reset_modules) e
    | inr (manager, e) ↦ rw (e, reset_modules) refl
  ]

  unload-undefined : (p : Plugin) → kept (reset_modules p).world ≢ [] → unload p ≡ err undefined
  unfolding unload shut_down reset_interceptor disconnect close_it exists_with
  unload-undefined p left =
      let i = (reset_modules p).world.interceptor in
      let dead =
        (destroy-undefined (exists_with (reset_modules p).module_manager) i
            (λ l. rw (reset-none p) refl)).1
          (λ e. left (append-nil_right i.call_listeners i.probe_listeners e)) in
      rw (dead, unload, reset_interceptor) refl

  module _ (function : Replacing → ℕ) (factory : InterfaceVersion → ℕ)
      (get_client_factory get_server_factory : ℕ → InterfaceVersion → ℕ)
      (get_all_classes : ℕ → List (Text × RecvTable)) where
    -- The plugin when it has been loaded and called.
    abbrev pub session : InitOutcome → List Callback → Plugin
    session init_offsets callbacks =
        receive_all callbacks
          (load attaches replaces function factory get_client_factory get_server_factory
            get_all_classes init_offsets).0

    -- If `Load` returns, then whatever callbacks the engine makes before `Unload`: when `Unload` comes to
    -- `g_Interceptor.reset()`, it has closed everything that was opened but the interceptor and frida-gum, each
    -- before what was opened before it, and no attachment and no replacement is in effect; and from there on
    -- its behaviour is undefined, since the destructor of the interceptor reads a listener that is gone.
    pub session-undefined :
        (init_offsets : InitOutcome) (callbacks : List Callback)
        → (load attaches replaces function factory get_client_factory get_server_factory
            get_all_classes init_offsets).1
          ≡ loaded
        → (replay (shut_down (session init_offsets callbacks)).events []
            ≡ some (interceptor_object ∷ gum ∷ []))
          × (active attaches replaces
                (shut_down (session init_offsets callbacks)).world.interceptor.calls
              ≡ [])
          × (unload (session init_offsets callbacks) ≡ err undefined)
    unfolding shut_down disconnect close_it
    session-undefined init_offsets callbacks done =
        let start =
          (load attaches replaces function factory get_client_factory get_server_factory
            get_all_classes init_offsets).0 in
        rw (receive_all-same callbacks start) (
          load-shut_down attaches replaces function factory get_client_factory get_server_factory
              get_all_classes init_offsets done,
          load-left attaches replaces function factory get_client_factory get_server_factory
              get_all_classes init_offsets,
          unload-undefined start (
              load-kept attaches replaces function factory get_client_factory get_server_factory
                get_all_classes init_offsets done),
        )
