-- ===== src/Telemetry.antt =====
-- src/modules/telemetrystubs.hpp: the table of functions that stands in for the Telemetry SDK. Each slot
-- holds a stub, which does nothing and returns a constant of its type; `TelemetryReplacement` of
-- src/modules/profiler.cpp puts two functions of its own into the table.
use clientplugin.Base.{
  ℕ, zero, suc, ◌≡◌, Bool, true, false, List, [], ◌∷◌, Text, ◌==◌, if◌then◌else◌,
}
use clientplugin.Telemetry.Enumerations.{error_code, tm_ok, connection_status, tmcs_disconnected}
pub mod Slots
pub mod Enumerations

-- The functions, in the order of their declarations.
pub data TmFunction : Type 0 where
  tm_core_open tm_core_get_connection_status tm_core_shutdown_context tm_core_get_last_error :
      TmFunction
  tm_core_get_session_name tm_core_check_version tm_core_close tm_core_set_debug_zone_level :
      TmFunction
  tm_core_check_debug_zone_level tm_core_unwind_to_debug_zone_level tm_core_dynamic_string :
      TmFunction
  tm_core_clear_static_string tm_core_set_variable tm_core_set_timeline_section_name : TmFunction
  tm_core_thread_name tm_core_get_format_code tm_core_enable tm_core_is_enabled : TmFunction
  tm_core_set_parameter tm_core_set_server_configuration tm_core_tick tm_core_flush : TmFunction
  tm_core_pause tm_core_is_paused tm_core_enter tm_core_leave tm_core_emit_accumulation_zone :
      TmFunction
  tm_core_get_last_context_switch_time tm_core_lock_name tm_core_set_lock_state : TmFunction
  tm_core_set_lock_state_min_time tm_core_begin_time_span tm_core_end_time_span : TmFunction
  tm_core_signal_lock_count tm_core_try_lock tm_core_end_try_lock tm_core_get_stati : TmFunction
  tm_core_message tm_core_alloc tm_core_free tm_core_plot tm_core_plot_i32 tm_core_plot_u32 :
      TmFunction
  tm_core_plot_i64 tm_core_plot_u64 tm_core_plot_f64 tm_core_blob tm_core_disjoint_blob : TmFunction
  tm_core_update_symbol_data tm_core_send_call_stack tm_core_get_call_stack : TmFunction
  tm_core_send_call_stack_r tm_core_get_call_stack_r : TmFunction

-- The types that they return.
pub data TmReturn : Type 0 where
  tm_error_code tm_u32 void tm_connection_status tm_u64 int char tm_i32 tm_stub_cstr : TmReturn

pub return_type : TmFunction → TmReturn
return_type tm_core_open = tm_error_code
return_type tm_core_get_connection_status = tm_connection_status
return_type tm_core_shutdown_context = void
return_type tm_core_get_last_error = tm_error_code
return_type tm_core_get_session_name = tm_error_code
return_type tm_core_check_version = tm_error_code
return_type tm_core_close = void
return_type tm_core_set_debug_zone_level = void
return_type tm_core_check_debug_zone_level = void
return_type tm_core_unwind_to_debug_zone_level = void
return_type tm_core_dynamic_string = tm_stub_cstr
return_type tm_core_clear_static_string = void
return_type tm_core_set_variable = void
return_type tm_core_set_timeline_section_name = void
return_type tm_core_thread_name = void
return_type tm_core_get_format_code = void
return_type tm_core_enable = void
return_type tm_core_is_enabled = int
return_type tm_core_set_parameter = void
return_type tm_core_set_server_configuration = void
return_type tm_core_tick = void
return_type tm_core_flush = void
return_type tm_core_pause = void
return_type tm_core_is_paused = int
return_type tm_core_enter = void
return_type tm_core_leave = void
return_type tm_core_emit_accumulation_zone = void
return_type tm_core_get_last_context_switch_time = tm_u64
return_type tm_core_lock_name = void
return_type tm_core_set_lock_state = void
return_type tm_core_set_lock_state_min_time = int
return_type tm_core_begin_time_span = void
return_type tm_core_end_time_span = void
return_type tm_core_signal_lock_count = void
return_type tm_core_try_lock = void
return_type tm_core_end_try_lock = void
return_type tm_core_get_stati = tm_i32
return_type tm_core_message = void
return_type tm_core_alloc = void
return_type tm_core_free = void
return_type tm_core_plot = void
return_type tm_core_plot_i32 = void
return_type tm_core_plot_u32 = void
return_type tm_core_plot_i64 = void
return_type tm_core_plot_u64 = void
return_type tm_core_plot_f64 = void
return_type tm_core_blob = void
return_type tm_core_disjoint_blob = void
return_type tm_core_update_symbol_data = void
return_type tm_core_send_call_stack = int
return_type tm_core_get_call_stack = int
return_type tm_core_send_call_stack_r = int
return_type tm_core_get_call_stack_r = int

-- What a stub returns: nothing, a number, or a text.
pub data TmValue : Type 0 where
  nothing : TmValue
  number : ℕ → TmValue
  text : Text → TmValue

-- The macros `tmStubRETURN_...`.
pub stub_return : TmReturn → TmValue
stub_return void = nothing
stub_return tm_stub_cstr = text []
stub_return tm_error_code = number (error_code tm_ok)
stub_return tm_connection_status = number (connection_status tmcs_disconnected)
stub_return _ = number 0

-- What stands in a slot.
pub data Implementation : Type 0 where
  stub : TmFunction → Implementation
  tm_core_enter_replace tm_core_leave_replace : Implementation

-- `TM_API_STRUCT_STUB`: the slots in their order, which the game relies on.
pub slots : List TmFunction
slots =
    tm_core_check_version ∷ tm_core_update_symbol_data ∷ tm_core_get_last_context_switch_time
    ∷ tm_core_tick ∷ tm_core_flush ∷ tm_core_dynamic_string ∷ tm_core_clear_static_string
    ∷ tm_core_set_variable ∷ tm_core_get_format_code ∷ tm_core_get_session_name
    ∷ tm_core_get_last_error ∷ tm_core_shutdown_context ∷ tm_core_get_connection_status
    ∷ tm_core_set_timeline_section_name ∷ tm_core_enable ∷ tm_core_is_enabled ∷ tm_core_open
    ∷ tm_core_close ∷ tm_core_pause ∷ tm_core_is_paused ∷ tm_core_enter ∷ tm_core_leave
    ∷ tm_core_thread_name ∷ tm_core_lock_name ∷ tm_core_try_lock ∷ tm_core_end_try_lock
    ∷ tm_core_signal_lock_count ∷ tm_core_set_lock_state ∷ tm_core_alloc ∷ tm_core_free
    ∷ tm_core_get_stati ∷ tm_core_begin_time_span ∷ tm_core_end_time_span ∷ tm_core_plot
    ∷ tm_core_plot_i32 ∷ tm_core_plot_u32 ∷ tm_core_plot_i64 ∷ tm_core_plot_u64 ∷ tm_core_plot_f64
    ∷ tm_core_blob ∷ tm_core_disjoint_blob ∷ tm_core_message ∷ tm_core_send_call_stack
    ∷ tm_core_get_call_stack ∷ tm_core_set_debug_zone_level ∷ tm_core_check_debug_zone_level
    ∷ tm_core_unwind_to_debug_zone_level ∷ tm_core_emit_accumulation_zone
    ∷ tm_core_set_lock_state_min_time ∷ tm_core_set_parameter ∷ tm_core_send_call_stack_r
    ∷ tm_core_get_call_stack_r ∷ tm_core_set_server_configuration ∷ []

-- A table gives each function what stands in its slot.
abbrev pub Table : Type 0
Table = TmFunction → Implementation

pub stub_table : Table
stub_table f = stub f

-- The constructor of `TelemetryReplacement`.
pub replacement_table : Table
unfolding stub_table
replacement_table tm_core_enter = tm_core_enter_replace
replacement_table tm_core_leave = tm_core_leave_replace
replacement_table f = stub_table f
