-- ===== src/Plugin/Ways.antt =====
-- The ways on which `Load` ends.
use clientplugin.Base.{ℕ, ◌≡◌, ◌≢◌, refl, inl, inr, ◌⊎◌, Result-cases, List, Text, Bool}
use clientplugin.ClientClasses.{RecvTable, ClientClasses}
use clientplugin.Hooks.{other_error}
use clientplugin.Interceptor.{GumCall}
use clientplugin.Interfaces.{InterfaceVersion, load_interfaces}
use clientplugin.Modules.Registered.{Replacing}
use clientplugin.Offsets.Constants.{OffsetName}
use clientplugin.Plugin.{
  InitOutcome, addresses_found, client_classes, Plugin, Loaded, loaded, hangs, load_threw, open_it,
  connect, start_gum, make_modules, make_classes, load,
}

-- The plugin with its libraries, and then with the classes.
unfoldable pub connected : Plugin
unfolding connect start_gum
connected = connect start_gum

unfoldable pub with_classes : ClientClasses → Plugin
unfolding connected open_it
with_classes classes = open_it client_classes (record connected { classes = classes })

module _ (attaches replaces : List GumCall → ℕ → ℕ → Bool) (function : Replacing → ℕ)
    (factory : InterfaceVersion → ℕ)
    (get_client_factory get_server_factory : ℕ → InterfaceVersion → ℕ)
    (get_all_classes : ℕ → List (Text × RecvTable)) where
  -- It ends before the modules, and is not loaded, or it ends with them.
  pub load-ways :
      (init_offsets : InitOutcome)
      → ((outcome : Loaded) × (load attaches replaces function factory get_client_factory
              get_server_factory get_all_classes init_offsets
            ≡ (connected, outcome))
          × (outcome ≢ loaded))
        ⊎ ((address : OffsetName → ℕ) × (classes : ClientClasses) × (load attaches replaces function
                factory get_client_factory get_server_factory get_all_classes init_offsets
              ≡ make_modules attaches replaces function address (with_classes classes)))
  unfolding load connected with_classes
  load-ways init_offsets =
      elim (Result-cases (load_interfaces factory get_client_factory get_server_factory)) [
        | inr (inl (x, e)) ↦ inl (load_threw (other_error x), rw (e, load) refl, λ f. cc)
        | inr (inr e) ↦ inl (hangs, rw (e, load) refl, λ f. cc)
        | inl (table, e) ↦ elim (Result-cases (addresses_found init_offsets)) [
          | inr (inl (x, o)) ↦ inl (load_threw (other_error x), rw (e, o, load) refl, λ f. cc)
          | inr (inr o) ↦ inl (hangs, rw (e, o, load) refl, λ f. cc)
          | inl (address, o) ↦
              elim (Result-cases (
                make_classes attaches replaces function factory get_client_factory
                  get_server_factory get_all_classes table)) [
                    | inr (inl (x, c)) ↦
                        inl (load_threw (other_error x), rw (e, o, c, load) refl, λ f. cc)
                    | inr (inr c) ↦ inl (hangs, rw (e, o, c, load) refl, λ f. cc)
                    | inl (classes, c) ↦ inr (address, classes, rw (e, o, c, load) refl)
                  ]
        ]
      ]
