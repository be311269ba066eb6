-- ===== src/Offsets/Constants/Built.antt =====
-- The construction of the constants, before the plugin is loaded.
use clientplugin.Base.{
  ℕ, ◌*◌, ◌≡◌, ◌≢◌, refl, Bool, true, false, not, ◌&&◌, ◌||◌, List, [], ◌∷◌, length, Text, arith,
  leb, ◌==◌, Result, ok, ◌>>=◌, require, mask_size, empty_signature,
}
use clientplugin.Offsets.{Offset, make_signature, make_offset, shared_lib_signature}
use clientplugin.Offsets.Constants.{
  OffsetName, sdl_gl_swap_window, find_and_heal_targets, nav_mesh_get_nav_data_from_file,
  get_player_name_for_steam_id, g_telemetry, telemetry_tick, thread_set_debug_name,
  vprof_node_enter_scope, vprof_node_exit_scope, engine_frame, cleaver_create_jar_projectile,
  game_server_finish_certificate_check, notification_queue_add, econ_notification_constructor,
  econ_notification_set_key_values, all_names, constant, construct,
}

-- A text of pairs of hexadecimal digits.
abbrev is_digit : ℕ → Bool
is_digit c = (leb 48 c && leb c 57) || ((leb 65 c && leb c 70) || (leb 97 c && leb c 102))

abbrev pub is_hex : Text → Bool
is_hex [] = true
is_hex (c ∷ []) = false
is_hex (c ∷ d ∷ s) = is_digit c && (is_digit d && is_hex s)

-- What boost documents of `unhex`: a byte for each two digits.
abbrev pub IsUnhex : (Text → Result (List ℕ)) → Type 0
IsUnhex unhex =
    (s : Text)
    → is_hex s ≡ true
    → (bytes : List ℕ) × (unhex s ≡ ok bytes) × (2 * length bytes ≡ length s)

module _ (unhex : Text → Result (List ℕ)) (documented : IsUnhex unhex) where
  -- A signature is taken if it is a pair of digits and more, and as long as its mask.
  signature-taken :
      (lib signature mask : Text)
      → is_hex signature ≡ true
      → is_hex mask ≡ true
      → length signature ≡ length mask
      → length signature ≢ 0
      → (offset : Offset) × (make_signature unhex lib signature mask ≡ ok offset)
  unfolding make_signature
  signature-taken lib signature mask hs hm same some_ =
      let (s, es, ls) = documented signature hs in
      let (k, em, lm) = documented mask hm in
      (
        shared_lib_signature lib s k,
        rw (es, em, make_signature) (taken s k (omega arith) (omega arith)),
      )
    where
      taken :
          (s k : List ℕ)
          → length s ≡ length k
          → length s ≢ 0
          → (require (length s == length k) mask_size >>= λ u.
              require (not (length s == 0)) empty_signature >>= λ v.
              ok (shared_lib_signature lib s k))
            ≡ ok (shared_lib_signature lib s k)
      taken s k e n = ground arith

  each-taken : (name : OffsetName) → (offset : Offset) × (constant unhex name ≡ ok offset)
  unfolding constant
  each-taken find_and_heal_targets = signature-taken _ _ _ refl refl refl (λ e. omega arith)
  each-taken nav_mesh_get_nav_data_from_file =
      signature-taken _ _ _ refl refl refl (λ e. omega arith)
  each-taken get_player_name_for_steam_id = signature-taken _ _ _ refl refl refl (λ e. omega arith)
  each-taken sdl_gl_swap_window = (_, refl)
  each-taken g_telemetry = (_, refl)
  each-taken telemetry_tick = (_, refl)
  each-taken thread_set_debug_name = (_, refl)
  each-taken vprof_node_enter_scope = (_, refl)
  each-taken vprof_node_exit_scope = (_, refl)
  each-taken engine_frame = (_, refl)
  each-taken cleaver_create_jar_projectile = (_, refl)
  each-taken game_server_finish_certificate_check = (_, refl)
  each-taken notification_queue_add = (_, refl)
  each-taken econ_notification_constructor = (_, refl)
  each-taken econ_notification_set_key_values = (_, refl)

  all-taken :
      (names : List OffsetName) (before : List (Offset × ℕ))
      → (after : List (Offset × ℕ)) × (construct unhex names before ≡ ok after)
  unfolding construct
  all-taken [] before = (before, refl)
  all-taken (name ∷ names) before =
      let (offset, e) = each-taken name in
      let (after, rest) = all-taken names (make_offset offset before) in
      (after, rw (e, construct) rest)

  -- Where `unhex` gives a byte for each two digits, no constructor of a constant throws: each signature and its
  -- mask are digits, equally many and at least two.
  pub constants-construct :
      (g_offset_list : List (Offset × ℕ)) × (construct unhex all_names [] ≡ ok g_offset_list)
  constants-construct = all-taken all_names []
