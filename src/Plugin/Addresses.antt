-- ===== src/Plugin/Addresses.antt =====
-- The addresses at which the modules hook.
use clientplugin.Base.{
  ok_value, ℕ, ◌≡◌, ◌≢◌, subst, ◌∙◌, Option, List, [], ◌∷◌, All, Text, Memory, Result, ok,
  >>=-eq-ok,
}
use clientplugin.ClientClasses.{ClientClasses}
use clientplugin.Hooks.{HookSpec, enter_hook, leave_hook, both_hook, replace_hook}
use clientplugin.LoadedModule.{Elf}
use clientplugin.Modules.{Module, register}
use clientplugin.Modules.Registered.{
  Replacing, register_all, registered, gfx_overlay_mod, allow_login, jar_bug, medi_guns, party_chat,
  nav_workshop, profiler, unhide_cvars, notification,
}
use clientplugin.Offsets.{Offset, ModuleRangeMap}
use clientplugin.Offsets.Constants.{
  OffsetName, sdl_gl_swap_window, find_and_heal_targets, nav_mesh_get_nav_data_from_file,
  get_player_name_for_steam_id, telemetry_tick, thread_set_debug_name, engine_frame,
  cleaver_create_jar_projectile, game_server_finish_certificate_check, all_names, construct,
}
use clientplugin.Offsets.Constants.Nonzero.{construct-length, address_of-nonzero}
use clientplugin.Offsets.Init.Nonzero.{init_offsets-AreNonzero}
use clientplugin.Offsets.Init.{PhdrInfo, init_offsets}
use clientplugin.Plugin.{addresses_found}

-- The address of a hook.
abbrev pub hooked_address : HookSpec → ℕ
hooked_address (enter_hook address) = address
hooked_address (leave_hook address) = address
hooked_address (both_hook address) = address
hooked_address (replace_hook address func) = address

abbrev pub HooksNoNull : Module → Type 0
HooksNoNull m = All (λ spec. hooked_address spec ≢ 0) m.specs

registered-HooksNoNull :
    (address : OffsetName → ℕ) (function : Replacing → ℕ) (classes : ClientClasses)
    → ((name : OffsetName) → address name ≢ 0)
    → All HooksNoNull (gfx_overlay_mod address function ∷ registered address function classes)
unfolding registered register_all register gfx_overlay_mod allow_login jar_bug medi_guns party_chat
    nav_workshop profiler unhide_cvars notification
registered-HooksNoNull address function classes h = (
  (h sdl_gl_swap_window, tt),
  (
    tt,
    (
      (h get_player_name_for_steam_id, tt),
      (
        (h game_server_finish_certificate_check, tt),
        (
          (h cleaver_create_jar_projectile, tt),
          (
            (h telemetry_tick, (h engine_frame, (h thread_set_debug_name, tt))),
            ((h nav_mesh_get_nav_data_from_file, tt), ((h find_and_heal_targets, tt), (tt, tt))),
          ),
        ),
      ),
    ),
  ),
)

module _ (unhex : Text → Result (List ℕ)) (sort : List ℕ → List ℕ) (open_elf : Text → Elf)
    (m : Memory) (basename : Option Text → Result Text) (dlopen : Text → ℕ) (dlsym : ℕ → Text → ℕ)
    (order : ModuleRangeMap → ModuleRangeMap) (infos : List PhdrInfo) where
  -- If the constants have been constructed, and `init_offsets` and its caching end well, then no module and
  -- not the overlay hooks a null address, whichever functions they hook with.
  pub registered-no_null :
      (g_offset_list : List (Offset × ℕ)) (address : OffsetName → ℕ)
      → construct unhex all_names [] ≡ ok g_offset_list
      → addresses_found
          (init_offsets sort open_elf m basename dlopen dlsym order infos g_offset_list)
        ≡ ok address
      → (function : Replacing → ℕ) (classes : ClientClasses)
      → All HooksNoNull (gfx_overlay_mod address function ∷ registered address function classes)
  unfolding addresses_found
  registered-no_null g_offset_list address built e function classes =
      let (done, ended, r) =
        >>=-eq-ok (init_offsets sort open_elf m basename dlopen dlsym order infos g_offset_list) _
          e in
      let (u, cached, last) = >>=-eq-ok done.1 _ r in
      let (nonzero, l) =
        init_offsets-AreNonzero sort open_elf m basename dlopen dlsym order infos g_offset_list done
          ended cached in
      let found =
        address_of-nonzero done.0 nonzero (l ∙ construct-length unhex all_names [] built) in
      registered-HooksNoNull address function classes
        (subst (λ (f : OffsetName → ℕ). (name : OffsetName) → f name ≢ 0) (ok_value last) found)
