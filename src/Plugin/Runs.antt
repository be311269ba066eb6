-- ===== src/Plugin/Runs.antt =====
-- A plugin that is loaded, and unloaded.
use clientplugin.Base.{
  ◌≢◌, not, ℕ, zero, suc, ok, err, undefined, ◌+◌, ◌*◌, ◌≡◌, refl, Bool, true, List, [], ◌∷◌, some,
  Text, codes, text_eq, lookup, assign, ◌==◌,
}
use clientplugin.ClientClasses.{
  RecvTable, table, no_props, data_table, plain, parse_tbl, add_classes, get_prop_offset, nested,
  set_prop, parse_props,
}
use clientplugin.Generator.{for_each}
use clientplugin.Hooks.{make_hook, make_call_hook, make_probe_hook, make_replacement_hook, hook_of}
use clientplugin.Modules.{register, make_manager, make_rest, make_module, make_members}
use clientplugin.Interceptor.{GumCall, attach_call_listener, attach_probe_listener, replace}
use clientplugin.Interfaces.{InterfaceVersion, load_interfaces}
use clientplugin.Modules.Registered.{
  Replacing, registered, register_all, allow_login, jar_bug, medi_guns, prop_found, party_chat,
  nav_workshop, profiler, unhide_cvars, notification, gfx_overlay_mod, finish_cert_check,
  get_player_name_for_steam_id_replace, get_nav_data_from_file_replace, telemetry_tick_replacement,
}
use clientplugin.Offsets.{Offset, manual_offset}
use clientplugin.Offsets.Constants.{address_of}
use clientplugin.Plugin.{
  gum, interceptor_object, shut_down, unload, reset_modules, InitOutcome, addresses_found, loaded,
  load, make_classes, make_modules, start_gum, connect, open_it,
}
use clientplugin.Modules.Kept.{kept}
use clientplugin.Plugin.Dangling.{load-kept}
use clientplugin.Hooks.Active.{active}
use clientplugin.Plugin.Callbacks.{
  Callback, get_plugin_description, level_init, client_connect, game_frame, fire_game_event,
  level_shutdown,
}
use clientplugin.Plugin.Callbacks.Sessions.{session, session-undefined}
use clientplugin.Plugin.Lifecycle.{replay}
use clientplugin.Plugin.Unhooked.{left, load-left}

-- frida-gum takes everything.
abbrev accepts : List GumCall → ℕ → ℕ → Bool
accepts calls address what = true

-- It refuses to attach to the swap of the overlay, after the modules have been made.
abbrev refuses : List GumCall → ℕ → ℕ → Bool
refuses calls address what = not (address == 4096)

-- The constants are found at 4096, 4112, ..., and the last constructed is the first of the list.
abbrev entries : ℕ → List (Offset × ℕ)
entries zero = []
entries (suc k) = (manual_offset (4096 + 16 * k), 4096 + 16 * k) ∷ entries k

abbrev init_outcome : InitOutcome
init_outcome = ok (entries 15, ok tt)

abbrev function : Replacing → ℕ
function finish_cert_check = 8192
function get_player_name_for_steam_id_replace = 8208
function get_nav_data_from_file_replace = 8224
function telemetry_tick_replacement = 8240

abbrev factory : InterfaceVersion → ℕ
factory name = 12288

abbrev of_tool : ℕ → InterfaceVersion → ℕ
of_tool tool name = tool + 16

-- The medigun, with its charge in a subtable.
abbrev engine_classes : ℕ → List (Text × RecvTable)
engine_classes client_dll =
    (
      codes "CWeaponMedigun",
      table (codes "DT_WeaponMedigun") (
          data_table 64
            (table (codes "DT_LocalTFWeaponMedigunData")
              (plain (codes "m_flChargeLevel") 8 1 no_props))
            no_props),
    )
    ∷ []

load-left_example :
    left refuses accepts function
      (load refuses accepts function factory of_tool of_tool engine_classes init_outcome)
    ≡ []
load-left_example =
    load-left refuses accepts function factory of_tool of_tool engine_classes init_outcome

loads :
    (load accepts accepts function factory of_tool of_tool engine_classes init_outcome).1 ≡ loaded
unfolding addresses_found address_of load start_gum connect open_it make_classes make_modules
    load_interfaces make_manager make_rest make_module make_members make_hook make_call_hook
    make_probe_hook make_replacement_hook hook_of attach_call_listener attach_probe_listener replace
    registered register_all register allow_login jar_bug medi_guns prop_found party_chat
    nav_workshop profiler unhide_cvars notification gfx_overlay_mod add_classes parse_tbl
    parse_props nested set_prop for_each get_prop_offset lookup assign text_eq
loads = refl

-- What the engine calls in a short game.
abbrev callbacks : List Callback
callbacks =
    get_plugin_description
    ∷ level_init (codes "cp_dustbowl")
    ∷ client_connect true 1 (codes "a") (codes "10.0.0.1") []
    ∷ game_frame true
    ∷ fire_game_event 7
    ∷ level_shutdown
    ∷ []

session-undefined_example :
    (replay
        (shut_down (
          session accepts accepts function factory of_tool of_tool engine_classes init_outcome
            callbacks)).events
        []
      ≡ some (interceptor_object ∷ gum ∷ []))
    × (active accepts accepts
          (shut_down (
            session accepts accepts function factory of_tool of_tool engine_classes init_outcome
              callbacks)).world.interceptor.calls
        ≡ [])
    × (unload (
          session accepts accepts function factory of_tool of_tool engine_classes init_outcome
            callbacks)
        ≡ err undefined)
session-undefined_example =
    session-undefined accepts accepts function factory of_tool of_tool engine_classes init_outcome
      callbacks loads

load-kept_example :
    kept
      (reset_modules
        (load accepts accepts function factory of_tool of_tool engine_classes init_outcome).0).world
    ≢ []
load-kept_example =
    load-kept accepts accepts function factory of_tool of_tool engine_classes init_outcome loads
