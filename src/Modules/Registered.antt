-- ===== src/Modules/Registered.antt =====
-- The modules that src/modules registers, and the overlay, which the manager makes itself.
-- The addresses that the offsets have cached and those of the plugin's own functions are given.
use clientplugin.Base.{
  ℕ, ◌≡◌, true, none, some, List, arith, [], ◌∷◌, All, codes, Result, ok, err, stuck, undefined,
}
use clientplugin.ClientClasses.{ClientClasses, get_prop_offset}
use clientplugin.Hooks.{
  enter_hook, both_hook, replace_hook, Hook, Attempt, made, threw, other_error,
}
use clientplugin.Offsets.Constants.{
  OffsetName, sdl_gl_swap_window, find_and_heal_targets, nav_mesh_get_nav_data_from_file,
  get_player_name_for_steam_id, telemetry_tick, thread_set_debug_name, engine_frame,
  cleaver_create_jar_projectile, game_server_finish_certificate_check,
}
use clientplugin.Modules.{Module, register}
use clientplugin.Hooks.Cover.{covers}
use clientplugin.Modules.Unhooked.{IsComplete}

-- The functions that replace one of the game's.
pub data Replacing : Type 0 where
  finish_cert_check get_player_name_for_steam_id_replace get_nav_data_from_file_replace
        telemetry_tick_replacement :
      Replacing

-- The order of modules whose members are destroyed as they were made; no module but the profiler has two.
abbrev as_made : List Hook → List Hook
as_made hooks = hooks

-- What `get_prop_offset` throws leaves the constructor. It always returns or throws.
unfoldable pub prop_found : Result ℕ → Attempt (Unit {0})
prop_found (ok offset) = made tt
prop_found (err e) = threw (other_error e)
prop_found stuck = threw (other_error undefined)

-- The hooks of the profiler, made in the order TelemetryTick, CEngine_Frame, ThreadSetDebugName. As
-- members they stand in the order frame_hook, thread_name_hook, telemetry_tick_hook.
unfoldable pub profiler_members : List Hook → List Hook
profiler_members (tick ∷ frame ∷ thread_name ∷ rest) = tick ∷ thread_name ∷ frame ∷ rest
profiler_members hooks = hooks

unfoldable pub register_all : List Module → List Module → List Module
unfolding register
register_all [] g_module_list = g_module_list
register_all (m ∷ ms) g_module_list = register_all ms (register m g_module_list)

module _ (address : OffsetName → ℕ) (function : Replacing → ℕ) where
  unfoldable pub allow_login : Module
  allow_login = record {
    name = some (codes "AllowLoginNoSteamMod");
    prepare = made tt;
    specs =
        replace_hook (address game_server_finish_certificate_check) (function finish_cert_check)
        ∷ [];
    members = as_made;
  }

  unfoldable pub jar_bug : Module
  jar_bug = record {
    name = some (codes "JarBugMod");
    prepare = made tt;
    specs = enter_hook (address cleaver_create_jar_projectile) ∷ [];
    members = as_made;
  }

  -- Its constructor looks the property up before it hooks.
  unfoldable pub medi_guns : ClientClasses → Module
  unfolding prop_found
  medi_guns classes = record {
    name = some (codes "MediGunsMod");
    prepare = prop_found (
        get_prop_offset classes (codes "CWeaponMedigun")
          (codes "DT_LocalTFWeaponMedigunData::m_flChargeLevel"));
    specs = both_hook (address find_and_heal_targets) ∷ [];
    members = as_made;
  }

  unfoldable pub party_chat : Module
  party_chat = record {
    name = some (codes "PartyChatMod");
    prepare = made tt;
    specs =
        replace_hook (address get_player_name_for_steam_id)
          (function get_player_name_for_steam_id_replace)
        ∷ [];
    members = as_made;
  }

  unfoldable pub nav_workshop : Module
  nav_workshop = record {
    name = some (codes "NavWorkshopMod");
    prepare = made tt;
    specs =
        replace_hook (address nav_mesh_get_nav_data_from_file)
          (function get_nav_data_from_file_replace)
        ∷ [];
    members = as_made;
  }

  -- With IS_TELEMETRY.
  unfoldable pub profiler : Module
  unfolding profiler_members
  profiler = record {
    name = some (codes "ProfilerMod");
    prepare = made tt;
    specs =
        replace_hook (address telemetry_tick) (function telemetry_tick_replacement)
        ∷ enter_hook (address engine_frame)
        ∷ enter_hook (address thread_set_debug_name)
        ∷ [];
    members = profiler_members;
  }

  -- Two modules register a command and hook nothing.
  unfoldable pub unhide_cvars : Module
  unhide_cvars = record {
    name = some (codes "UnhideCVarsMod");
    prepare = made tt;
    specs = [];
    members = as_made;
  }

  unfoldable pub notification : Module
  notification = record {
    name = some (codes "NotificationMod");
    prepare = made tt;
    specs = [];
    members = as_made;
  }

  unfoldable pub gfx_overlay_mod : Module
  gfx_overlay_mod = record {
    name = none;
    prepare = made tt;
    specs = enter_hook (address sdl_gl_swap_window) ∷ [];
    members = as_made;
  }

  -- The static objects of REGISTER_MODULE, in the order in which src/CMakeLists.txt links their files.
  unfoldable pub registered : ClientClasses → List Module
  unfolding register_all
  registered classes =
      register_all
        (unhide_cvars
          ∷ medi_guns classes
          ∷ nav_workshop
          ∷ profiler
          ∷ jar_bug
          ∷ allow_login
          ∷ party_chat
          ∷ notification
          ∷ [])
        []

  profiler-IsComplete : IsComplete profiler
  unfolding profiler profiler_members
  profiler-IsComplete (a ∷ b ∷ c ∷ rest) h e = ground arith
  profiler-IsComplete (a ∷ b ∷ []) h e = e
  profiler-IsComplete (a ∷ []) h e = e
  profiler-IsComplete [] h e = e

  pub registered-IsComplete : (classes : ClientClasses) → All IsComplete (registered classes)
  unfolding registered register_all register unhide_cvars medi_guns nav_workshop jar_bug allow_login
      party_chat notification
  registered-IsComplete classes =
      let one = λ (hooks : List Hook) (h : Hook) (e : covers hooks h ≡ true). e in
      (one, (one, (one, (one, (profiler-IsComplete, (one, (one, (one, tt))))))))

  pub gfx_overlay-IsComplete : IsComplete gfx_overlay_mod
  unfolding gfx_overlay_mod
  gfx_overlay-IsComplete hooks h e = e
