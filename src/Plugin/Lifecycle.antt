-- ===== src/Plugin/Lifecycle.antt =====
-- The order in which the plugin takes down what it has set up.
use clientplugin.Base.{
  ℕ, ◌≡◌, refl, inl, inr, Bool, List, [], ◌∷◌, Option, none, some, Text, ◌==◌, if◌then◌else◌, arith,
}
use clientplugin.ClientClasses.{RecvTable}
use clientplugin.Hooks.{Attempt-cases}
use clientplugin.Interceptor.{GumCall}
use clientplugin.Interfaces.{InterfaceVersion}
use clientplugin.Modules.{make_manager}
use clientplugin.Modules.Registered.{Replacing, registered, gfx_overlay_mod}
use clientplugin.Offsets.Constants.{OffsetName}
use clientplugin.Plugin.Ways.{connected, with_classes, load-ways}
use clientplugin.Plugin.{
  InitOutcome, Resource, gum, interceptor_object, tier1, con_vars, tier2, tier3, client_classes,
  modules, Event, opened, closed, Plugin, loaded, open_it, close_it, connect, disconnect, start_gum,
  make_modules, load, reset_modules, shut_down,
}

abbrev number : Resource → ℕ
number gum = 0
number interceptor_object = 1
number tier1 = 2
number con_vars = 3
number tier2 = 4
number tier3 = 5
number client_classes = 6
number modules = 7

-- Replays events on the stack of what is open; only what was opened last may be closed.
abbrev pub replay : List Event → List Resource → Option (List Resource)
replay [] stack = some stack
replay (opened r ∷ events) stack = replay events (r ∷ stack)
replay (closed r ∷ events) [] = none
replay (closed r ∷ events) (top ∷ stack) =
    let rest = replay events stack in if number r == number top then rest else none

-- What is open before the modules.
abbrev seven : List Event
seven =
    opened gum
    ∷ opened interceptor_object
    ∷ opened tier1
    ∷ opened con_vars
    ∷ opened tier2
    ∷ opened tier3
    ∷ opened client_classes
    ∷ []

module _ (attaches replaces : List GumCall → ℕ → ℕ → Bool) (function : Replacing → ℕ) where
  make_modules-shut_down :
      (address : OffsetName → ℕ) (p : Plugin)
      → p.events ≡ seven
      → (make_modules attaches replaces function address p).1 ≡ loaded
      → replay (shut_down (make_modules attaches replaces function address p).0).events []
        ≡ some (interceptor_object ∷ gum ∷ [])
  unfolding make_modules open_it reset_modules shut_down disconnect close_it
  make_modules-shut_down address p before done =
      elim (Attempt-cases
        (make_manager attaches replaces (registered address function p.classes)
          (gfx_overlay_mod address function) p.world).1) [
            | inl (m, e) ↦ rw (e, before, make_modules) refl
            | inr (why, e) ↦ absurd (ground arith)
          ]

  module _ (factory : InterfaceVersion → ℕ)
      (get_client_factory get_server_factory : ℕ → InterfaceVersion → ℕ)
      (get_all_classes : ℕ → List (Text × RecvTable)) where
    -- If `Load` returns, then what `Unload` does before it resets the interceptor closes everything else that was
    -- opened but frida-gum, and each before what was opened before it.
    pub load-shut_down :
        (init_offsets : InitOutcome)
        → (load attaches replaces function factory get_client_factory get_server_factory
            get_all_classes init_offsets).1
          ≡ loaded
        → replay
            (shut_down
              (load attaches replaces function factory get_client_factory get_server_factory
                get_all_classes init_offsets).0).events
            []
          ≡ some (interceptor_object ∷ gum ∷ [])
    unfolding with_classes connected open_it connect start_gum
    load-shut_down init_offsets done =
        elim (load-ways attaches replaces function factory get_client_factory get_server_factory
          get_all_classes init_offsets) [
            | inl (outcome, e, not_loaded) ↦ absurd (not_loaded (rw e at done))
            | inr (address, classes, e) ↦
                rw e (make_modules-shut_down address (with_classes classes) refl (rw e at done))
          ]
