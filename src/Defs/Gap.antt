-- ===== src/Defs/Gap.antt =====
-- pybtp/defs.py: the constants of the GAP service: opcodes, events, settings and flags.
use btptester_core.Prelude.{ℕ}

abbrev pub gap_read_supported_commands : ℕ
gap_read_supported_commands = 0x01

abbrev pub gap_read_controller_index_list : ℕ
gap_read_controller_index_list = 0x02

abbrev pub gap_settings_powered : ℕ
gap_settings_powered = 0

abbrev pub gap_settings_connectable : ℕ
gap_settings_connectable = 1

abbrev pub gap_settings_fast_connectable : ℕ
gap_settings_fast_connectable = 2

abbrev pub gap_settings_discoverable : ℕ
gap_settings_discoverable = 3

abbrev pub gap_settings_bondable : ℕ
gap_settings_bondable = 4

abbrev pub gap_settings_link_sec_3 : ℕ
gap_settings_link_sec_3 = 5

abbrev pub gap_settings_ssp : ℕ
gap_settings_ssp = 6

abbrev pub gap_settings_bredr : ℕ
gap_settings_bredr = 7

abbrev pub gap_settings_hs : ℕ
gap_settings_hs = 8

abbrev pub gap_settings_le : ℕ
gap_settings_le = 9

abbrev pub gap_settings_advertising : ℕ
gap_settings_advertising = 10

abbrev pub gap_settings_sc : ℕ
gap_settings_sc = 11

abbrev pub gap_settings_debug_keys : ℕ
gap_settings_debug_keys = 12

abbrev pub gap_settings_privacy : ℕ
gap_settings_privacy = 13

abbrev pub gap_settings_controller_config : ℕ
gap_settings_controller_config = 14

abbrev pub gap_settings_static_address : ℕ
gap_settings_static_address = 15

abbrev pub gap_read_controller_info : ℕ
gap_read_controller_info = 0x03

abbrev pub gap_reset : ℕ
gap_reset = 0x04

abbrev pub gap_set_powered : ℕ
gap_set_powered = 0x05

abbrev pub gap_set_connectable : ℕ
gap_set_connectable = 0x06

abbrev pub gap_set_fast_connectable : ℕ
gap_set_fast_connectable = 0x07

abbrev pub gap_non_discoverable : ℕ
gap_non_discoverable = 0x00

abbrev pub gap_general_discoverable : ℕ
gap_general_discoverable = 0x01

abbrev pub gap_limited_discoverable : ℕ
gap_limited_discoverable = 0x02

abbrev pub gap_set_discoverable : ℕ
gap_set_discoverable = 0x08

abbrev pub gap_set_bondable : ℕ
gap_set_bondable = 0x09

abbrev pub gap_start_advertising : ℕ
gap_start_advertising = 0x0a

abbrev pub gap_stop_advertising : ℕ
gap_stop_advertising = 0x0b

abbrev pub gap_discovery_flag_le : ℕ
gap_discovery_flag_le = 0x01

abbrev pub gap_discovery_flag_bredr : ℕ
gap_discovery_flag_bredr = 0x02

abbrev pub gap_discovery_flag_limited : ℕ
gap_discovery_flag_limited = 0x04

abbrev pub gap_discovery_flag_le_active_scan : ℕ
gap_discovery_flag_le_active_scan = 0x08

abbrev pub gap_discovery_flag_le_observe : ℕ
gap_discovery_flag_le_observe = 0x10

abbrev pub gap_start_discovery : ℕ
gap_start_discovery = 0x0c

abbrev pub gap_stop_discovery : ℕ
gap_stop_discovery = 0x0d

abbrev pub gap_connect : ℕ
gap_connect = 0x0e

abbrev pub gap_disconnect : ℕ
gap_disconnect = 0x0f

abbrev pub gap_io_cap_display_only : ℕ
gap_io_cap_display_only = 0

abbrev pub gap_io_cap_display_yesno : ℕ
gap_io_cap_display_yesno = 1

abbrev pub gap_io_cap_keyboard_only : ℕ
gap_io_cap_keyboard_only = 2

abbrev pub gap_io_cap_no_input_output : ℕ
gap_io_cap_no_input_output = 3

abbrev pub gap_io_cap_keyboard_display : ℕ
gap_io_cap_keyboard_display = 4

abbrev pub gap_set_io_cap : ℕ
gap_set_io_cap = 0x10

abbrev pub gap_pair : ℕ
gap_pair = 0x11

abbrev pub gap_unpair : ℕ
gap_unpair = 0x12

abbrev pub gap_passkey_entry : ℕ
gap_passkey_entry = 0x13

abbrev pub gap_passkey_confirm : ℕ
gap_passkey_confirm = 0x14

abbrev pub gap_start_direct_adv_hd : ℕ
gap_start_direct_adv_hd = 0x0001

abbrev pub gap_start_direct_adv_own_id : ℕ
gap_start_direct_adv_own_id = 0x0002

abbrev pub gap_start_direct_adv_peer_rpa : ℕ
gap_start_direct_adv_peer_rpa = 0x0004

abbrev pub gap_start_direct_adv : ℕ
gap_start_direct_adv = 0x15

abbrev pub gap_conn_param_update : ℕ
gap_conn_param_update = 0x16

abbrev pub gap_pairing_consent_rsp : ℕ
gap_pairing_consent_rsp = 0x17

abbrev pub gap_ev_new_settings : ℕ
gap_ev_new_settings = 0x80

abbrev pub gap_device_found_flag_rssi : ℕ
gap_device_found_flag_rssi = 0x01

abbrev pub gap_device_found_flag_ad : ℕ
gap_device_found_flag_ad = 0x02

abbrev pub gap_device_found_flag_sd : ℕ
gap_device_found_flag_sd = 0x04

abbrev pub gap_ev_device_found : ℕ
gap_ev_device_found = 0x81

abbrev pub gap_ev_device_connected : ℕ
gap_ev_device_connected = 0x82

abbrev pub gap_ev_device_disconnected : ℕ
gap_ev_device_disconnected = 0x83

abbrev pub gap_ev_passkey_display : ℕ
gap_ev_passkey_display = 0x84

abbrev pub gap_ev_passkey_entry_req : ℕ
gap_ev_passkey_entry_req = 0x85

abbrev pub gap_ev_passkey_confirm_req : ℕ
gap_ev_passkey_confirm_req = 0x86

abbrev pub gap_ev_identity_resolved : ℕ
gap_ev_identity_resolved = 0x87

abbrev pub gap_ev_conn_param_update : ℕ
gap_ev_conn_param_update = 0x88

abbrev pub gap_ev_sec_level_changed : ℕ
gap_ev_sec_level_changed = 0x89

abbrev pub gap_ev_pairing_consent_req : ℕ
gap_ev_pairing_consent_req = 0x8a
