-- ===== src/Plugin.antt =====
-- src/plugin.cpp: how the plugin is loaded and unloaded, with the libraries of src/interfaces.cpp.
-- What `init_offsets` of Offsets.Init ends in is handed on here. Printing and timing are left out.
use clientplugin.Base.{
  ℕ, ◌≡◌, Bool, true, false, ◌||◌, List, [], ◌∷◌, ◌++◌, Option, none, some, Text, Result, ok, err,
  stuck, fault, ◌>>=◌, ◌>>◌, ◌==◌, if◌then◌else◌,
}
use clientplugin.ClientClasses.{RecvTable, ClientClasses, add_classes}
use clientplugin.Hooks.{
  Hook, attachment, replacement, Attempt, made, threw, Thrown, other_error, World,
}
use clientplugin.Interceptor.{GumCall, Interceptor, make_interceptor, destroy}
use clientplugin.Offsets.{Offset}
use clientplugin.Offsets.Constants.{OffsetName, address_of}
use clientplugin.Interfaces.{InterfaceVersion, Interfaces, load_interfaces}
use clientplugin.Modules.{Manager, make_manager, destroy_manager}
use clientplugin.Modules.Registered.{Replacing, registered, gfx_overlay_mod}
pub mod Lifecycle
pub mod Unhooked
pub mod Dangling
pub mod Ways
pub mod Callbacks
pub mod Addresses
mod Runs
mod AddressRuns

-- What is set up, and taken down again.
pub data Resource : Type 0 where
  gum interceptor_object tier1 con_vars tier2 tier3 client_classes modules : Resource

pub data Event : Type 0 where
  opened closed : Resource → Event

-- The globals, and what has been opened and closed.
pub record Plugin : Type 0 where
  pub world : World
  pub classes : ClientClasses
  pub module_manager : Option Manager
  pub events : List Event

-- How `Load` ends. `hangs` is no C++ outcome.
pub data Loaded : Type 0 where
  loaded hangs : Loaded
  load_threw : Thrown → Loaded

open_it : Resource → Plugin → Plugin
open_it r p = record p { events = p.events ++ (opened r ∷ []) }

close_it : Resource → Plugin → Plugin
close_it r p = record p { events = p.events ++ (closed r ∷ []) }

-- `gum_init_embedded` and the interceptor.
start_gum : Plugin
unfolding open_it
start_gum = open_it interceptor_object (
    open_it gum (record {
      world = record { interceptor = make_interceptor; next = 0 };
      classes = [];
      module_manager = none;
      events = [];
    }))

-- The libraries that `Interfaces::Load` connects.
connect : Plugin → Plugin
unfolding open_it
connect p = open_it tier3 (open_it tier2 (open_it con_vars (open_it tier1 p)))

-- `Interfaces::Unload`
disconnect : Plugin → Plugin
unfolding close_it
disconnect p = close_it tier1 (close_it con_vars (close_it tier2 (close_it tier3 p)))

-- The offsets after `init_offsets`, and how their caching has ended.
abbrev pub InitOutcome : Type 0
InitOutcome = Result (List (Offset × ℕ) × Result (Unit {0}))

-- The addresses of the constants, if all that has ended well.
pub addresses_found : InitOutcome → Result (OffsetName → ℕ)
addresses_found init_offsets = init_offsets >>= λ done. done.1 >> ok (address_of done.0)

module _ (attaches replaces : List GumCall → ℕ → ℕ → Bool) (function : Replacing → ℕ) where
  pub make_modules : (OffsetName → ℕ) → Plugin → Plugin × Loaded
  unfolding open_it
  make_modules address p =
      let tried =
        make_manager attaches replaces (registered address function p.classes)
          (gfx_overlay_mod address function) p.world in
      elim tried.1 [
        | made manager ↦
            (open_it modules (record p { world = tried.0; module_manager = some manager }), loaded)
        | threw why ↦ (record p { world = tried.0 }, load_threw why)
      ]

  -- `get_all_classes` of the client's library gives its classes with their tables.
  module _ (factory : InterfaceVersion → ℕ)
      (get_client_factory get_server_factory : ℕ → InterfaceVersion → ℕ)
      (get_all_classes : ℕ → List (Text × RecvTable)) where
    -- The constructor of ClientClassManager asks the client's library.
    make_classes : Interfaces → Result ClientClasses
    make_classes interfaces =
        if interfaces.client_dll_ptr == 0
        then err fault
        else add_classes (get_all_classes interfaces.client_dll_ptr) []

    -- `init_offsets` comes between the interfaces and the classes.
    pub load : InitOutcome → Plugin × Loaded
    unfolding start_gum connect make_classes make_modules open_it addresses_found
    load init_offsets =
        let p = connect start_gum in
        elim (load_interfaces factory get_client_factory get_server_factory) [
          | stuck ↦ (p, hangs)
          | err e ↦ (p, load_threw (other_error e))
          | ok table ↦ elim (addresses_found init_offsets) [
            | stuck ↦ (p, hangs)
            | err e ↦ (p, load_threw (other_error e))
            | ok address ↦ elim (make_classes table) [
              | stuck ↦ (p, hangs)
              | err e ↦ (p, load_threw (other_error e))
              | ok classes ↦
                  make_modules address (open_it client_classes (record p { classes = classes }))
            ]
          ]
        ]

-- `module_manager.reset()`
pub reset_modules : Plugin → Plugin
unfolding close_it
reset_modules p = elim p.module_manager [
  | none ↦ p
  | some manager ↦
      close_it modules (record p { world = destroy_manager manager p.world; module_manager = none })
]

-- Whether one of these hooks has the listener for its base.
is_base_in : ℕ → List Hook → Bool
is_base_in l [] = false
is_base_in l (attachment k ∷ hooks) = (k == l) || is_base_in l hooks
is_base_in l (replacement a ∷ hooks) = is_base_in l hooks

is_base_among : ℕ → List (List Hook) → Bool
unfolding is_base_in
is_base_among l [] = false
is_base_among l (m ∷ ms) = is_base_in l m || is_base_among l ms

-- Which listeners exist: the bases of the hooks that the modules own, and none without the module manager.
pub exists_with : Option Manager → ℕ → Bool
unfolding is_base_in is_base_among
exists_with none l = false
exists_with (some manager) l = is_base_in l manager.gfx_overlay || is_base_among l manager.modules

-- `g_Interceptor.reset()`
pub reset_interceptor : Plugin → Result Plugin
unfolding close_it exists_with
reset_interceptor p = do
  i ← destroy (exists_with p.module_manager) p.world.interceptor
  ok (close_it interceptor_object (record p { world = record p.world { interceptor = i } }))

-- `Unload`, as far as the interceptor.
pub shut_down : Plugin → Plugin
unfolding reset_modules disconnect close_it
shut_down p = disconnect (close_it client_classes (record (reset_modules p) { classes = [] }))

pub unload : Plugin → Result Plugin
unfolding shut_down reset_interceptor close_it
unload p = do q ← reset_interceptor (shut_down p); ok (close_it gum q)
