-- ===== src/Commands/Table/Gattc.antt =====
-- The table `GATTC` of pybtp/btp.py.
use btptester_core.Prelude.{none, [], ◌∷◌, String}
use btptester_core.Dict.{Dict}
use btptester_core.Defs.Core.{btp_service_id_gatt}
use btptester_core.Defs.Gatt.{
  gatt_cfg_indicate, gatt_cfg_notify, gatt_disc_all_chrc, gatt_disc_all_desc, gatt_disc_chrc_uuid,
  gatt_disc_prim_svcs, gatt_disc_prim_uuid, gatt_exchange_mtu, gatt_find_included, gatt_read,
  gatt_read_long, gatt_read_multiple, gatt_signed_write_without_rsp, gatt_write, gatt_write_long,
  gatt_write_without_rsp,
}
use btptester_core.Commands.Table.{Cmd, controller_index}

abbrev pub gattc : Dict String Cmd
gattc =
    ("exchange_mtu", (btp_service_id_gatt, gatt_exchange_mtu, controller_index, none))
    ∷ ("disc_prim_svcs", (btp_service_id_gatt, gatt_disc_prim_svcs, controller_index, none))
    ∷ ("disc_prim_uuid", (btp_service_id_gatt, gatt_disc_prim_uuid, controller_index, none))
    ∷ ("find_included", (btp_service_id_gatt, gatt_find_included, controller_index, none))
    ∷ ("disc_all_chrc", (btp_service_id_gatt, gatt_disc_all_chrc, controller_index, none))
    ∷ ("disc_chrc_uuid", (btp_service_id_gatt, gatt_disc_chrc_uuid, controller_index, none))
    ∷ ("disc_all_desc", (btp_service_id_gatt, gatt_disc_all_desc, controller_index, none))
    ∷ ("read", (btp_service_id_gatt, gatt_read, controller_index, none))
    ∷ ("read_long", (btp_service_id_gatt, gatt_read_long, controller_index, none))
    ∷ ("read_multiple", (btp_service_id_gatt, gatt_read_multiple, controller_index, none))
    ∷ ("write_without_rsp", (btp_service_id_gatt, gatt_write_without_rsp, controller_index, none))
    ∷ ("signed_write", (btp_service_id_gatt, gatt_signed_write_without_rsp, controller_index, none))
    ∷ ("write", (btp_service_id_gatt, gatt_write, controller_index, none))
    ∷ ("write_long", (btp_service_id_gatt, gatt_write_long, controller_index, none))
    ∷ ("cfg_notify", (btp_service_id_gatt, gatt_cfg_notify, controller_index, none))
    ∷ ("cfg_indicate", (btp_service_id_gatt, gatt_cfg_indicate, controller_index, none))
    ∷ []
