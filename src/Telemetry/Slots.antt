-- ===== src/Telemetry/Slots.antt =====
-- The slots of the table that stands in for the Telemetry SDK.
use clientplugin.Base.{ℕ, suc, ◌≡◌, refl, List, [], ◌∷◌, ◌==◌, if◌then◌else◌}
use clientplugin.Telemetry.{
  TmFunction, slots, tm_core_open, tm_core_get_connection_status, tm_core_shutdown_context,
  tm_core_get_last_error, tm_core_get_session_name, tm_core_check_version, tm_core_close,
  tm_core_set_debug_zone_level, tm_core_check_debug_zone_level, tm_core_unwind_to_debug_zone_level,
  tm_core_dynamic_string, tm_core_clear_static_string, tm_core_set_variable,
  tm_core_set_timeline_section_name, tm_core_thread_name, tm_core_get_format_code, tm_core_enable,
  tm_core_is_enabled, tm_core_set_parameter, tm_core_set_server_configuration, tm_core_tick,
  tm_core_flush, tm_core_pause, tm_core_is_paused, tm_core_enter, tm_core_leave,
  tm_core_emit_accumulation_zone, tm_core_get_last_context_switch_time, tm_core_lock_name,
  tm_core_set_lock_state, tm_core_set_lock_state_min_time, tm_core_begin_time_span,
  tm_core_end_time_span, tm_core_signal_lock_count, tm_core_try_lock, tm_core_end_try_lock,
  tm_core_get_stati, tm_core_message, tm_core_alloc, tm_core_free, tm_core_plot, tm_core_plot_i32,
  tm_core_plot_u32, tm_core_plot_i64, tm_core_plot_u64, tm_core_plot_f64, tm_core_blob,
  tm_core_disjoint_blob, tm_core_update_symbol_data, tm_core_send_call_stack,
  tm_core_get_call_stack, tm_core_send_call_stack_r, tm_core_get_call_stack_r,
}

-- The functions, numbered as they are declared.
abbrev pub number_of : TmFunction → ℕ
number_of tm_core_open = 0
number_of tm_core_get_connection_status = 1
number_of tm_core_shutdown_context = 2
number_of tm_core_get_last_error = 3
number_of tm_core_get_session_name = 4
number_of tm_core_check_version = 5
number_of tm_core_close = 6
number_of tm_core_set_debug_zone_level = 7
number_of tm_core_check_debug_zone_level = 8
number_of tm_core_unwind_to_debug_zone_level = 9
number_of tm_core_dynamic_string = 10
number_of tm_core_clear_static_string = 11
number_of tm_core_set_variable = 12
number_of tm_core_set_timeline_section_name = 13
number_of tm_core_thread_name = 14
number_of tm_core_get_format_code = 15
number_of tm_core_enable = 16
number_of tm_core_is_enabled = 17
number_of tm_core_set_parameter = 18
number_of tm_core_set_server_configuration = 19
number_of tm_core_tick = 20
number_of tm_core_flush = 21
number_of tm_core_pause = 22
number_of tm_core_is_paused = 23
number_of tm_core_enter = 24
number_of tm_core_leave = 25
number_of tm_core_emit_accumulation_zone = 26
number_of tm_core_get_last_context_switch_time = 27
number_of tm_core_lock_name = 28
number_of tm_core_set_lock_state = 29
number_of tm_core_set_lock_state_min_time = 30
number_of tm_core_begin_time_span = 31
number_of tm_core_end_time_span = 32
number_of tm_core_signal_lock_count = 33
number_of tm_core_try_lock = 34
number_of tm_core_end_try_lock = 35
number_of tm_core_get_stati = 36
number_of tm_core_message = 37
number_of tm_core_alloc = 38
number_of tm_core_free = 39
number_of tm_core_plot = 40
number_of tm_core_plot_i32 = 41
number_of tm_core_plot_u32 = 42
number_of tm_core_plot_i64 = 43
number_of tm_core_plot_u64 = 44
number_of tm_core_plot_f64 = 45
number_of tm_core_blob = 46
number_of tm_core_disjoint_blob = 47
number_of tm_core_update_symbol_data = 48
number_of tm_core_send_call_stack = 49
number_of tm_core_get_call_stack = 50
number_of tm_core_send_call_stack_r = 51
number_of tm_core_get_call_stack_r = 52

-- How often a function has a slot.
abbrev pub count : TmFunction → List TmFunction → ℕ
count f [] = 0
count f (g ∷ gs) = if number_of g == number_of f then suc (count f gs) else count f gs

-- Each function that is declared has one slot in the table.
pub slots-once : (f : TmFunction) → count f slots ≡ 1
unfolding slots
slots-once tm_core_open = refl
slots-once tm_core_get_connection_status = refl
slots-once tm_core_shutdown_context = refl
slots-once tm_core_get_last_error = refl
slots-once tm_core_get_session_name = refl
slots-once tm_core_check_version = refl
slots-once tm_core_close = refl
slots-once tm_core_set_debug_zone_level = refl
slots-once tm_core_check_debug_zone_level = refl
slots-once tm_core_unwind_to_debug_zone_level = refl
slots-once tm_core_dynamic_string = refl
slots-once tm_core_clear_static_string = refl
slots-once tm_core_set_variable = refl
slots-once tm_core_set_timeline_section_name = refl
slots-once tm_core_thread_name = refl
slots-once tm_core_get_format_code = refl
slots-once tm_core_enable = refl
slots-once tm_core_is_enabled = refl
slots-once tm_core_set_parameter = refl
slots-once tm_core_set_server_configuration = refl
slots-once tm_core_tick = refl
slots-once tm_core_flush = refl
slots-once tm_core_pause = refl
slots-once tm_core_is_paused = refl
slots-once tm_core_enter = refl
slots-once tm_core_leave = refl
slots-once tm_core_emit_accumulation_zone = refl
slots-once tm_core_get_last_context_switch_time = refl
slots-once tm_core_lock_name = refl
slots-once tm_core_set_lock_state = refl
slots-once tm_core_set_lock_state_min_time = refl
slots-once tm_core_begin_time_span = refl
slots-once tm_core_end_time_span = refl
slots-once tm_core_signal_lock_count = refl
slots-once tm_core_try_lock = refl
slots-once tm_core_end_try_lock = refl
slots-once tm_core_get_stati = refl
slots-once tm_core_message = refl
slots-once tm_core_alloc = refl
slots-once tm_core_free = refl
slots-once tm_core_plot = refl
slots-once tm_core_plot_i32 = refl
slots-once tm_core_plot_u32 = refl
slots-once tm_core_plot_i64 = refl
slots-once tm_core_plot_u64 = refl
slots-once tm_core_plot_f64 = refl
slots-once tm_core_blob = refl
slots-once tm_core_disjoint_blob = refl
slots-once tm_core_update_symbol_data = refl
slots-once tm_core_send_call_stack = refl
slots-once tm_core_get_call_stack = refl
slots-once tm_core_send_call_stack_r = refl
slots-once tm_core_get_call_stack_r = refl
