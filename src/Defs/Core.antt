-- ===== src/Defs/Core.antt =====
-- pybtp/defs.py: the constants of the BTP frame, the services and the core service.
use btptester_core.Prelude.{ℕ}

abbrev pub btp_mtu : ℕ
btp_mtu = 1024

abbrev pub btp_index_none : ℕ
btp_index_none = 0xff

abbrev pub btp_service_id_core : ℕ
btp_service_id_core = 0

abbrev pub btp_service_id_gap : ℕ
btp_service_id_gap = 1

abbrev pub btp_service_id_gatt : ℕ
btp_service_id_gatt = 2

abbrev pub btp_service_id_l2cap : ℕ
btp_service_id_l2cap = 3

abbrev pub btp_service_id_mesh : ℕ
btp_service_id_mesh = 4

abbrev pub btp_service_id_gattc : ℕ
btp_service_id_gattc = 0x06

abbrev pub btp_status_success : ℕ
btp_status_success = 0x00

abbrev pub btp_status_failed : ℕ
btp_status_failed = 0x01

abbrev pub btp_status_unknown_cmd : ℕ
btp_status_unknown_cmd = 0x02

abbrev pub btp_status_not_ready : ℕ
btp_status_not_ready = 0x03

abbrev pub btp_status : ℕ
btp_status = 0x00

abbrev pub core_read_supported_commands : ℕ
core_read_supported_commands = 0x01

abbrev pub core_read_supported_services : ℕ
core_read_supported_services = 0x02

abbrev pub core_register_service : ℕ
core_register_service = 0x03

abbrev pub core_unregister_service : ℕ
core_unregister_service = 0x04

abbrev pub core_ev_iut_ready : ℕ
core_ev_iut_ready = 0x80
