-- ===== src/Defs/Gatt.antt =====
-- pybtp/defs.py: the constants of the GATT service.
use btptester_core.Prelude.{ℕ}

abbrev pub gatt_read_supported_commands : ℕ
gatt_read_supported_commands = 0x01

abbrev pub gatt_service_primary : ℕ
gatt_service_primary = 0x00

abbrev pub gatt_service_secondary : ℕ
gatt_service_secondary = 0x01

abbrev pub gatt_add_service : ℕ
gatt_add_service = 0x02

abbrev pub gatt_add_characteristic : ℕ
gatt_add_characteristic = 0x03

abbrev pub gatt_add_descriptor : ℕ
gatt_add_descriptor = 0x04

abbrev pub gatt_add_included_service : ℕ
gatt_add_included_service = 0x05

abbrev pub gatt_set_value : ℕ
gatt_set_value = 0x06

abbrev pub gatt_start_server : ℕ
gatt_start_server = 0x07

abbrev pub gatt_set_enc_key_size : ℕ
gatt_set_enc_key_size = 0x09

abbrev pub gatt_exchange_mtu : ℕ
gatt_exchange_mtu = 0x0a

abbrev pub gatt_disc_prim_svcs : ℕ
gatt_disc_prim_svcs = 0x0b

abbrev pub gatt_disc_prim_uuid : ℕ
gatt_disc_prim_uuid = 0x0c

abbrev pub gatt_find_included : ℕ
gatt_find_included = 0x0d

abbrev pub gatt_disc_all_chrc : ℕ
gatt_disc_all_chrc = 0x0e

abbrev pub gatt_disc_chrc_uuid : ℕ
gatt_disc_chrc_uuid = 0x0f

abbrev pub gatt_disc_all_desc : ℕ
gatt_disc_all_desc = 0x10

abbrev pub gatt_read : ℕ
gatt_read = 0x11

abbrev pub gatt_read_long : ℕ
gatt_read_long = 0x13

abbrev pub gatt_read_multiple : ℕ
gatt_read_multiple = 0x14

abbrev pub gatt_write_without_rsp : ℕ
gatt_write_without_rsp = 0x15

abbrev pub gatt_signed_write_without_rsp : ℕ
gatt_signed_write_without_rsp = 0x16

abbrev pub gatt_write : ℕ
gatt_write = 0x17

abbrev pub gatt_write_long : ℕ
gatt_write_long = 0x18

abbrev pub gatt_cfg_notify : ℕ
gatt_cfg_notify = 0x1a

abbrev pub gatt_cfg_indicate : ℕ
gatt_cfg_indicate = 0x1b

abbrev pub gatt_get_attributes : ℕ
gatt_get_attributes = 0x1c

abbrev pub gatt_get_attribute_value : ℕ
gatt_get_attribute_value = 0x1d

abbrev pub gatt_ev_notification : ℕ
gatt_ev_notification = 0x80

abbrev pub gatt_ev_attr_value_changed : ℕ
gatt_ev_attr_value_changed = 0x81
