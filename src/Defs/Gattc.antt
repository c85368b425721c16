-- ===== src/Defs/Gattc.antt =====
-- pybtp/defs.py: the constants of the GATT client service.
use btptester_core.Prelude.{ℕ}

abbrev pub gattc_disc_all_prim : ℕ
gattc_disc_all_prim = 0x03

abbrev pub gattc_disc_prim_uuid : ℕ
gattc_disc_prim_uuid = 0x04

abbrev pub gattc_find_included : ℕ
gattc_find_included = 0x05

abbrev pub gattc_disc_all_chrc : ℕ
gattc_disc_all_chrc = 0x06

abbrev pub gattc_disc_chrc_uuid : ℕ
gattc_disc_chrc_uuid = 0x07

abbrev pub gattc_disc_all_desc : ℕ
gattc_disc_all_desc = 0x08

abbrev pub gattc_read : ℕ
gattc_read = 0x09

abbrev pub gattc_read_long : ℕ
gattc_read_long = 0x0b

abbrev pub gattc_write : ℕ
gattc_write = 0x0f

abbrev pub gattc_write_long : ℕ
gattc_write_long = 0x10

abbrev pub gattc_cfg_notify : ℕ
gattc_cfg_notify = 0x12

abbrev pub gattc_cfg_indicate : ℕ
gattc_cfg_indicate = 0x13

abbrev pub gattc_disc_all_prim_rp : ℕ
gattc_disc_all_prim_rp = 0x81

abbrev pub gattc_disc_prim_uuid_rp : ℕ
gattc_disc_prim_uuid_rp = 0x82

abbrev pub gattc_find_included_rp : ℕ
gattc_find_included_rp = 0x83

abbrev pub gattc_disc_all_chrc_rp : ℕ
gattc_disc_all_chrc_rp = 0x84

abbrev pub gattc_disc_chrc_uuid_rp : ℕ
gattc_disc_chrc_uuid_rp = 0x85

abbrev pub gattc_disc_all_desc_rp : ℕ
gattc_disc_all_desc_rp = 0x86

abbrev pub gattc_read_rp : ℕ
gattc_read_rp = 0x87

abbrev pub gattc_read_long_rp : ℕ
gattc_read_long_rp = 0x89

abbrev pub gattc_write_rp : ℕ
gattc_write_rp = 0x8b

abbrev pub gattc_write_long_rp : ℕ
gattc_write_long_rp = 0x8c

abbrev pub gattc_cfg_notify_rp : ℕ
gattc_cfg_notify_rp = 0x8e

abbrev pub gattc_cfg_indicate_rp : ℕ
gattc_cfg_indicate_rp = 0x8f

abbrev pub gattc_ev_notification_rxed : ℕ
gattc_ev_notification_rxed = 0x90
