-- ===== src/Offsets/Constants.antt =====
-- The constants of namespace offsets in src/offsets/offsets.cpp, and the list that they enter when they are
-- constructed.
use clientplugin.Base.{
  ℕ, zero, suc, ◌-◌, Option, none, some, List, [], ◌∷◌, Text, codes, get_elem?, Result, ok, ◌>>=◌,
}
use clientplugin.Offsets.{
  Offset, shared_lib_symbol, shared_lib_offset, make_vtable_offset, make_signature, make_offset,
}
pub mod Nonzero
pub mod Built
mod Runs

-- The constants, in the order of their definitions.
pub data OffsetName : Type 0 where
  sdl_gl_swap_window find_and_heal_targets nav_mesh_get_nav_data_from_file
        get_player_name_for_steam_id :
      OffsetName
  g_telemetry telemetry_tick thread_set_debug_name vprof_node_enter_scope : OffsetName
  vprof_node_exit_scope engine_frame cleaver_create_jar_projectile
        game_server_finish_certificate_check :
      OffsetName
  notification_queue_add econ_notification_constructor econ_notification_set_key_values : OffsetName

abbrev pub number : OffsetName → ℕ
number sdl_gl_swap_window = 0
number find_and_heal_targets = 1
number nav_mesh_get_nav_data_from_file = 2
number get_player_name_for_steam_id = 3
number g_telemetry = 4
number telemetry_tick = 5
number thread_set_debug_name = 6
number vprof_node_enter_scope = 7
number vprof_node_exit_scope = 8
number engine_frame = 9
number cleaver_create_jar_projectile = 10
number game_server_finish_certificate_check = 11
number notification_queue_add = 12
number econ_notification_constructor = 13
number econ_notification_set_key_values = 14

abbrev pub all_names : List OffsetName
all_names =
    sdl_gl_swap_window ∷ find_and_heal_targets ∷ nav_mesh_get_nav_data_from_file
    ∷ get_player_name_for_steam_id ∷ g_telemetry ∷ telemetry_tick ∷ thread_set_debug_name
    ∷ vprof_node_enter_scope ∷ vprof_node_exit_scope ∷ engine_frame ∷ cleaver_create_jar_projectile
    ∷ game_server_finish_certificate_check ∷ notification_queue_add ∷ econ_notification_constructor
    ∷ econ_notification_set_key_values ∷ []

module _ (unhex : Text → Result (List ℕ)) where
  -- A constant as it is constructed.
  unfoldable pub constant : OffsetName → Result Offset
  unfolding make_vtable_offset make_signature
  constant sdl_gl_swap_window =
      ok (shared_lib_symbol (codes "libSDL2-2.0.so.0") (codes "SDL_GL_SwapWindow"))
  constant find_and_heal_targets =
      make_signature unhex (codes "client.so")
        (codes
          "5589e557565381ec5c01000065a1140000008945e431c08b5d088b0da423fa018b83f404000085c0742283f8ff0fb7d0bfff1f00000f44d7c1e20401ca89d183c1047408c1e810394104742431ff8b5de465331d1400000089f80f8564040000")
        (codes
          "ffffffffffffffff00000000ffff00000000fff800fffffff800ffff00000000fff800000000ffffff00ffff00ffffffff00000000ffffffffff00ffffffffffff00ff00ffff00fff800ff00fffffff800ffffff00000000ffffffff00000000")
  constant nav_mesh_get_nav_data_from_file =
      make_signature unhex (codes "server.so")
        (codes
          "5589e557568dbde0feffff5381ec3c02000065a1140000008945e431c0a1306989018b5d0c8b75108b503cb89aeb410185d20f45c28d95e0fdffff8904248954")
        (codes
          "f8ffc0f8f8ffc000000000f8fff800000000ffff00000000ffc000ffc0ff00000000ffc000ffc000ffc000f800000000ffc0ffffc0ffc000000000ffc738ffc7")
  constant get_player_name_for_steam_id =
      make_signature unhex (codes "client.so")
        (codes
          "5589e55383ec14a1c823fa018b48088b45108b198b50048b00890c248954240889442404ff531c8b550cc744240c04000000890424895424088b550889542404e80bac100083c4145b5dc3")
        (codes
          "ffffffffffff00ff00000000fff800fff800fff8fff800fff8ffff38ffff3800ffff3800fff800fff800ffff380000000000ffff38ffff3800fff800ffff3800ff00000000ffff00ffffff")
  constant g_telemetry = ok (shared_lib_symbol (codes "libtier0.so") (codes "g_Telemetry"))
  constant telemetry_tick = ok (shared_lib_symbol (codes "libtier0.so") (codes "TelemetryTick"))
  constant thread_set_debug_name =
      ok (shared_lib_symbol (codes "libtier0.so") (codes "ThreadSetDebugName"))
  constant vprof_node_enter_scope =
      ok (shared_lib_symbol (codes "libtier0.so") (codes "_ZN10CVProfNode10EnterScopeEv"))
  constant vprof_node_exit_scope =
      ok (shared_lib_symbol (codes "libtier0.so") (codes "_ZN10CVProfNode9ExitScopeEv"))
  constant engine_frame = ok (make_vtable_offset (codes "engine.so") (codes "CEngine") 6 0)
  constant cleaver_create_jar_projectile =
      ok (make_vtable_offset (codes "server.so") (codes "CTFCleaver") 504 0)
  constant game_server_finish_certificate_check =
      ok (make_vtable_offset (codes "engine.so") (codes "CGameServer") 55 0)
  constant notification_queue_add = ok (shared_lib_offset (codes "client.so") (0xf8f890 - 0x10000))
  constant econ_notification_constructor =
      ok (shared_lib_offset (codes "client.so") (0xf8ec70 - 0x10000))
  constant econ_notification_set_key_values =
      ok (shared_lib_offset (codes "client.so") (0xf8ed80 - 0x10000))

  -- The constructions, one after the other. What they throw is thrown before the plugin is loaded.
  unfoldable pub construct : List OffsetName → List (Offset × ℕ) → Result (List (Offset × ℕ))
  unfolding constant make_offset
  construct [] g_offset_list = ok g_offset_list
  construct (name ∷ names) g_offset_list = do
    offset ← constant name
    construct names (make_offset offset g_offset_list)

-- `static_cast<uintptr_t>` of a constant: its member. The constant that was constructed last is the first of the
-- list.
unfoldable pub address_of : List (Offset × ℕ) → OffsetName → ℕ
address_of offsets name = elim (get_elem? offsets (14 - number name)) [ none ↦ 0 | some o ↦ o.1 ]
