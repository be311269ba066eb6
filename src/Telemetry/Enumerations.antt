-- ===== src/Telemetry/Enumerations.antt =====
-- The enumerations of src/modules/telemetrystubs.hpp, which the functions of the Telemetry SDK take and return.
use clientplugin.Base.{ℕ}
pub mod Codes

pub data TmOption : Type 0 where
  tmo_output_debug_info tmo_record_telemetry_stalls tmo_record_callstacks tmo_boost_priority :
      TmOption
  tmo_support_zones tmo_support_messages tmo_support_lock_states tmo_support_memory : TmOption
  tmo_support_plot tmo_support_blob tmo_ppu_synchronize_spus tmo_support_context_switches : TmOption
  tmo_null_network tmo_support_timespans : TmOption

pub option : TmOption → ℕ
option tmo_output_debug_info = 0x0001
option tmo_record_telemetry_stalls = 0x0002
option tmo_record_callstacks = 0x0004
option tmo_boost_priority = 0x0008
option tmo_support_zones = 0x0100
option tmo_support_messages = 0x0200
option tmo_support_lock_states = 0x0400
option tmo_support_memory = 0x0800
option tmo_support_plot = 0x1000
option tmo_support_blob = 0x2000
option tmo_ppu_synchronize_spus = 0x4000
option tmo_support_context_switches = 0x8000
option tmo_null_network = 0x10000
option tmo_support_timespans = 0x20000

pub data TmParameter : Type 0 where
  tmp_none tmp_lock_min_time tmp_debug_printer tmp_telemetry_preferred_cpu : TmParameter
  tmp_usercb_open tmp_usercb_close tmp_usercb_write tmp_usercb_data : TmParameter
  tmp_emulated_server_version tmp_socket_buffer_size : TmParameter

pub parameter : TmParameter → ℕ
parameter tmp_none = 0x0000
parameter tmp_lock_min_time = 1
parameter tmp_debug_printer = 2
parameter tmp_telemetry_preferred_cpu = 3
parameter tmp_usercb_open = 4
parameter tmp_usercb_close = 5
parameter tmp_usercb_write = 6
parameter tmp_usercb_data = 7
parameter tmp_emulated_server_version = 8
parameter tmp_socket_buffer_size = 9

pub data TmServerConfiguration : Type 0 where
  tmsc_mem_plot_threshold : TmServerConfiguration

pub server_configuration : TmServerConfiguration → ℕ
server_configuration tmsc_mem_plot_threshold = 0

pub data TmLockState : Type 0 where
  tmls_released tmls_locked tmls_destroyed tmls_internal_mask : TmLockState
  tmls_internal_timespan tmls_internal_lod_lock tmls_internal_fake tmls_internal_count : TmLockState

pub lock_state : TmLockState → ℕ
lock_state tmls_released = 0x00000001
lock_state tmls_locked = 0x00000002
lock_state tmls_destroyed = 0x00000004
lock_state tmls_internal_mask = 0xF0000000
lock_state tmls_internal_timespan = 0x10000000
lock_state tmls_internal_lod_lock = 0x20000000
lock_state tmls_internal_fake = 0x40000000
lock_state tmls_internal_count = 0x80000000

pub data TmLockResult : Type 0 where
  tmlr_success tmlr_failed tmlr_timeout : TmLockResult

pub lock_result : TmLockResult → ℕ
lock_result tmlr_success = 0
lock_result tmlr_failed = 1
lock_result tmlr_timeout = 2

pub data TmStat : Type 0 where
  tmstat_num_allocs_deprecated tmstat_num_frees_deprecated tmstat_num_ticks_deprecated : TmStat

pub stat : TmStat → ℕ
stat tmstat_num_allocs_deprecated = 0
stat tmstat_num_frees_deprecated = 1
stat tmstat_num_ticks_deprecated = 2

pub data TmPlotType : Type 0 where
  tmpt_none tmpt_memory tmpt_hex tmpt_integer : TmPlotType
  tmpt_untyped tmpt_percentage_computed tmpt_percentage_direct tmpt_time : TmPlotType
  tmpt_time_ms tmpt_time_us tmpt_time_clocks tmpt_time_interval : TmPlotType
  tmpt_user tmpt_max : TmPlotType

pub plot_type : TmPlotType → ℕ
plot_type tmpt_none = 0
plot_type tmpt_memory = 1
plot_type tmpt_hex = 2
plot_type tmpt_integer = 3
plot_type tmpt_untyped = 3
plot_type tmpt_percentage_computed = 4
plot_type tmpt_percentage_direct = 5
plot_type tmpt_time = 6
plot_type tmpt_time_ms = 7
plot_type tmpt_time_us = 8
plot_type tmpt_time_clocks = 9
plot_type tmpt_time_interval = 10
plot_type tmpt_user = 128
plot_type tmpt_max = 255

pub data TmErrorCode : Type 0 where
  tm_ok tmerr_disabled tmerr_invalid_context tmerr_invalid_param : TmErrorCode
  tmerr_out_of_resources tmerr_uninitialized tmerr_bad_hostname tmerr_could_not_connect :
      TmErrorCode
  tmerr_unknown_network tmerr_already_shutdown tmerr_arena_too_small tmerr_bad_handshake :
      TmErrorCode
  tmerr_unaligned tmerr_network_not_initialized tmerr_bad_version tmerr_bad_timer : TmErrorCode
  tmerr_unknown : TmErrorCode

pub error_code : TmErrorCode → ℕ
error_code tm_ok = 0x0000
error_code tmerr_disabled = 0x0001
error_code tmerr_invalid_context = 0x0002
error_code tmerr_invalid_param = 0x0003
error_code tmerr_out_of_resources = 0x0004
error_code tmerr_uninitialized = 0x0006
error_code tmerr_bad_hostname = 0x0007
error_code tmerr_could_not_connect = 0x0008
error_code tmerr_unknown_network = 0x0009
error_code tmerr_already_shutdown = 0x000A
error_code tmerr_arena_too_small = 0x000B
error_code tmerr_bad_handshake = 0x000C
error_code tmerr_unaligned = 0x000D
error_code tmerr_network_not_initialized = 0x000E
error_code tmerr_bad_version = 0x000F
error_code tmerr_bad_timer = 0x00A0
error_code tmerr_unknown = 0xFFFF

pub data TmConnectionStatus : Type 0 where
  tmcs_disconnected tmcs_connecting tmcs_connected : TmConnectionStatus

pub connection_status : TmConnectionStatus → ℕ
connection_status tmcs_disconnected = 0
connection_status tmcs_connecting = 1
connection_status tmcs_connected = 2

pub data TmConnectionType : Type 0 where
  tmct_tcp tmct_ipc tmct_file tmct_user_provided : TmConnectionType

pub connection_type : TmConnectionType → ℕ
connection_type tmct_tcp = 0
connection_type tmct_ipc = 1
connection_type tmct_file = 2
connection_type tmct_user_provided = 3
