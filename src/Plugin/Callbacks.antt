-- ===== src/Plugin/Callbacks.antt =====
-- The callbacks of the server plugin in src/plugin.cpp, which the engine makes between `Load` and `Unload`. Entities,
-- cookies and events are numbers here.
use clientplugin.Base.{ℕ, ◌≡◌, refl, ◌∙◌, Bool, true, false, List, [], ◌∷◌, Text, codes}
use clientplugin.Plugin.{Plugin}
pub mod Sessions

pub data Callback : Type 0 where
  pause un_pause get_plugin_description level_shutdown : Callback
  level_init : (map_name : Text) → Callback
  server_activate : (edict_list edict_count client_max : ℕ) → Callback
  game_frame : (simulating : Bool) → Callback
  client_active client_disconnect client_settings_changed : (entity : ℕ) → Callback
  client_put_in_server : (entity : ℕ) (player_name : Text) → Callback
  set_command_client : (index : ℕ) → Callback
  client_connect : (allow_connect : Bool) (entity : ℕ) (name address reject : Text) → Callback
  client_command : (entity : ℕ) (args : List Text) → Callback
  network_id_validated : (user_name network_id : Text) → Callback
  on_query_cvar_value_finished :
      (cookie player_entity status : ℕ) (cvar_name cvar_value : Text) → Callback
  on_edict_allocated on_edict_freed : (edict : ℕ) → Callback
  fire_game_event : (event : ℕ) → Callback

-- What the engine is answered.
pub data Answer : Type 0 where
  nothing plugin_continue : Answer
  description : Text → Answer

-- The methods in the class.
pub receive : Callback → Plugin → Plugin × Answer
receive get_plugin_description p =
    (p, description (codes "fiendhook: best hacks for team defense fort simulator 2 2022 WORKING"))
receive (client_connect allow_connect entity name address reject) p = (p, plugin_continue)
receive (client_command entity args) p = (p, plugin_continue)
receive (network_id_validated user_name network_id) p = (p, plugin_continue)
receive _ p = (p, nothing)

pub receive_all : List Callback → Plugin → Plugin
receive_all [] p = p
receive_all (c ∷ callbacks) p = receive_all callbacks (receive c p).0
