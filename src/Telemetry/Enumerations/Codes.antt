-- ===== src/Telemetry/Enumerations/Codes.antt =====
-- The codes: each of these enumerations can be read back from its values.
use clientplugin.Base.{ℕ, ◌≡◌, refl, sym, ap, ◌∙◌, Option, none, some, ◌==◌, if◌then◌else◌}
use clientplugin.Telemetry.Enumerations.{
  TmParameter, parameter, tmp_none, tmp_lock_min_time, tmp_debug_printer,
  tmp_telemetry_preferred_cpu, tmp_usercb_open, tmp_usercb_close, tmp_usercb_write, tmp_usercb_data,
  tmp_emulated_server_version, tmp_socket_buffer_size, TmServerConfiguration, server_configuration,
  tmsc_mem_plot_threshold, TmLockResult, lock_result, tmlr_success, tmlr_failed, tmlr_timeout,
  TmStat, stat, tmstat_num_allocs_deprecated, tmstat_num_frees_deprecated,
  tmstat_num_ticks_deprecated, TmErrorCode, error_code, tm_ok, tmerr_disabled,
  tmerr_invalid_context, tmerr_invalid_param, tmerr_out_of_resources, tmerr_uninitialized,
  tmerr_bad_hostname, tmerr_could_not_connect, tmerr_unknown_network, tmerr_already_shutdown,
  tmerr_arena_too_small, tmerr_bad_handshake, tmerr_unaligned, tmerr_network_not_initialized,
  tmerr_bad_version, tmerr_bad_timer, tmerr_unknown, TmConnectionStatus, connection_status,
  tmcs_disconnected, tmcs_connecting, tmcs_connected, TmConnectionType, connection_type, tmct_tcp,
  tmct_ipc, tmct_file, tmct_user_provided,
}

parameter_at : ℕ → Option TmParameter
parameter_at n =
    if n == 0x0000
    then some tmp_none
    else if n == 1
    then some tmp_lock_min_time
    else if n == 2
    then some tmp_debug_printer
    else if n == 3
    then some tmp_telemetry_preferred_cpu
    else if n == 4
    then some tmp_usercb_open
    else if n == 5
    then some tmp_usercb_close
    else if n == 6
    then some tmp_usercb_write
    else if n == 7
    then some tmp_usercb_data
    else if n == 8
    then some tmp_emulated_server_version
    else if n == 9
    then some tmp_socket_buffer_size
    else none

parameter_at_lem : (e : TmParameter) → parameter_at (parameter e) ≡ some e
unfolding parameter_at parameter
parameter_at_lem tmp_none = refl
parameter_at_lem tmp_lock_min_time = refl
parameter_at_lem tmp_debug_printer = refl
parameter_at_lem tmp_telemetry_preferred_cpu = refl
parameter_at_lem tmp_usercb_open = refl
parameter_at_lem tmp_usercb_close = refl
parameter_at_lem tmp_usercb_write = refl
parameter_at_lem tmp_usercb_data = refl
parameter_at_lem tmp_emulated_server_version = refl
parameter_at_lem tmp_socket_buffer_size = refl

server_configuration_at : ℕ → Option TmServerConfiguration
server_configuration_at n = if n == 0 then some tmsc_mem_plot_threshold else none

server_configuration_at_lem :
    (e : TmServerConfiguration) → server_configuration_at (server_configuration e) ≡ some e
unfolding server_configuration_at server_configuration
server_configuration_at_lem tmsc_mem_plot_threshold = refl

lock_result_at : ℕ → Option TmLockResult
lock_result_at n =
    if n == 0
    then some tmlr_success
    else if n == 1
    then some tmlr_failed
    else if n == 2
    then some tmlr_timeout
    else none

lock_result_at_lem : (e : TmLockResult) → lock_result_at (lock_result e) ≡ some e
unfolding lock_result_at lock_result
lock_result_at_lem tmlr_success = refl
lock_result_at_lem tmlr_failed = refl
lock_result_at_lem tmlr_timeout = refl

stat_at : ℕ → Option TmStat
stat_at n =
    if n == 0
    then some tmstat_num_allocs_deprecated
    else if n == 1
    then some tmstat_num_frees_deprecated
    else if n == 2
    then some tmstat_num_ticks_deprecated
    else none

stat_at_lem : (e : TmStat) → stat_at (stat e) ≡ some e
unfolding stat_at stat
stat_at_lem tmstat_num_allocs_deprecated = refl
stat_at_lem tmstat_num_frees_deprecated = refl
stat_at_lem tmstat_num_ticks_deprecated = refl

error_code_at : ℕ → Option TmErrorCode
error_code_at n =
    if n == 0x0000
    then some tm_ok
    else if n == 0x0001
    then some tmerr_disabled
    else if n == 0x0002
    then some tmerr_invalid_context
    else if n == 0x0003
    then some tmerr_invalid_param
    else if n == 0x0004
    then some tmerr_out_of_resources
    else if n == 0x0006
    then some tmerr_uninitialized
    else if n == 0x0007
    then some tmerr_bad_hostname
    else if n == 0x0008
    then some tmerr_could_not_connect
    else if n == 0x0009
    then some tmerr_unknown_network
    else if n == 0x000A
    then some tmerr_already_shutdown
    else if n == 0x000B
    then some tmerr_arena_too_small
    else if n == 0x000C
    then some tmerr_bad_handshake
    else if n == 0x000D
    then some tmerr_unaligned
    else if n == 0x000E
    then some tmerr_network_not_initialized
    else if n == 0x000F
    then some tmerr_bad_version
    else if n == 0x00A0
    then some tmerr_bad_timer
    else if n == 0xFFFF
    then some tmerr_unknown
    else none

error_code_at_lem : (e : TmErrorCode) → error_code_at (error_code e) ≡ some e
unfolding error_code_at error_code
error_code_at_lem tm_ok = refl
error_code_at_lem tmerr_disabled = refl
error_code_at_lem tmerr_invalid_context = refl
error_code_at_lem tmerr_invalid_param = refl
error_code_at_lem tmerr_out_of_resources = refl
error_code_at_lem tmerr_uninitialized = refl
error_code_at_lem tmerr_bad_hostname = refl
error_code_at_lem tmerr_could_not_connect = refl
error_code_at_lem tmerr_unknown_network = refl
error_code_at_lem tmerr_already_shutdown = refl
error_code_at_lem tmerr_arena_too_small = refl
error_code_at_lem tmerr_bad_handshake = refl
error_code_at_lem tmerr_unaligned = refl
error_code_at_lem tmerr_network_not_initialized = refl
error_code_at_lem tmerr_bad_version = refl
error_code_at_lem tmerr_bad_timer = refl
error_code_at_lem tmerr_unknown = refl

connection_status_at : ℕ → Option TmConnectionStatus
connection_status_at n =
    if n == 0
    then some tmcs_disconnected
    else if n == 1
    then some tmcs_connecting
    else if n == 2
    then some tmcs_connected
    else none

connection_status_at_lem :
    (e : TmConnectionStatus) → connection_status_at (connection_status e) ≡ some e
unfolding connection_status_at connection_status
connection_status_at_lem tmcs_disconnected = refl
connection_status_at_lem tmcs_connecting = refl
connection_status_at_lem tmcs_connected = refl

connection_type_at : ℕ → Option TmConnectionType
connection_type_at n =
    if n == 0
    then some tmct_tcp
    else if n == 1
    then some tmct_ipc
    else if n == 2
    then some tmct_file
    else if n == 3
    then some tmct_user_provided
    else none

connection_type_at_lem : (e : TmConnectionType) → connection_type_at (connection_type e) ≡ some e
unfolding connection_type_at connection_type
connection_type_at_lem tmct_tcp = refl
connection_type_at_lem tmct_ipc = refl
connection_type_at_lem tmct_file = refl
connection_type_at_lem tmct_user_provided = refl

some_eq {ℓ} : {A : Type ℓ} {a b : A} → some a ≡ some b → a ≡ b
some_eq e = cc

-- What can be read back is determined by its value.
read_back {ℓ} :
    {A : Type ℓ} (value : A → ℕ) (at : ℕ → Option A)
    → ((e : A) → at (value e) ≡ some e)
    → (a b : A) → value a ≡ value b
    → a ≡ b
read_back value at back a b e = some_eq (sym (back a) ∙ ap at e ∙ back b)

-- Two codes of one enumeration that have the same value are the same: parameters, configurations of the server,
-- results of a lock, statistics, errors, and the states and types of a connection.
pub codes_eq :
    ((a b : TmParameter) → parameter a ≡ parameter b → a ≡ b)
    × ((a b : TmServerConfiguration) → server_configuration a ≡ server_configuration b → a ≡ b)
    × ((a b : TmLockResult) → lock_result a ≡ lock_result b → a ≡ b)
    × ((a b : TmStat) → stat a ≡ stat b → a ≡ b)
    × ((a b : TmErrorCode) → error_code a ≡ error_code b → a ≡ b)
    × ((a b : TmConnectionStatus) → connection_status a ≡ connection_status b → a ≡ b)
    × ((a b : TmConnectionType) → connection_type a ≡ connection_type b → a ≡ b)
codes_eq = (
  read_back parameter parameter_at parameter_at_lem,
  read_back server_configuration server_configuration_at server_configuration_at_lem,
  read_back lock_result lock_result_at lock_result_at_lem,
  read_back stat stat_at stat_at_lem,
  read_back error_code error_code_at error_code_at_lem,
  read_back connection_status connection_status_at connection_status_at_lem,
  read_back connection_type connection_type_at connection_type_at_lem,
)
