-- ===== src/Interfaces.antt =====
-- src/interfaces.cpp: the interfaces of the engine that the plugin uses.
-- What the engine's factories return is given; a null pointer is 0. The libraries that are connected,
-- and what is opened besides, are noted in Plugin.
use clientplugin.Base.{ℕ, Result, ok, err, fault, ◌==◌, if◌then◌else◌}

-- The names that are asked for, which the SDK defines.
pub data InterfaceVersion : Type 0 where
  vengine_client vengine_server game_events_manager engine_replay_client vengine_tool
        material_system vdebug_overlay client_dll player_info_manager :
      InterfaceVersion

pub record Interfaces : Type 0 where
  pub engine_client : ℕ
  pub engine_server : ℕ
  pub game_event_manager : ℕ
  pub engine_client_replay : ℕ
  pub client_dll_ptr : ℕ
  pub engine_tool : ℕ
  pub material_system_ptr : ℕ
  pub player_info_manager_ptr : ℕ
  pub debug_overlay : ℕ

-- The factory that the engine hands to the plugin, and what `GetClientFactory` and `GetServerFactory`
-- of an engine tool give.
module _ (factory : InterfaceVersion → ℕ)
    (get_client_factory get_server_factory : ℕ → InterfaceVersion → ℕ) where
  -- `Interfaces::Load`, behind the libraries. A call on a null pointer ends the process.
  unfoldable pub load_interfaces : Result Interfaces
  load_interfaces =
      let engine_tool = factory vengine_tool in
      if engine_tool == 0
      then err fault
      else ok (record {
        engine_client = factory vengine_client;
        engine_server = factory vengine_server;
        game_event_manager = factory game_events_manager;
        engine_client_replay = factory engine_replay_client;
        client_dll_ptr = get_client_factory engine_tool client_dll;
        engine_tool = engine_tool;
        material_system_ptr = factory material_system;
        player_info_manager_ptr = get_server_factory engine_tool player_info_manager;
        debug_overlay = factory vdebug_overlay;
      })
