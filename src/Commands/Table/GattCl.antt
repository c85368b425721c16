-- ===== src/Commands/Table/GattCl.antt =====
-- The table `GATT_CL` of pybtp/btp.py.
use btptester_core.Prelude.{none, [], ◌∷◌, String}
use btptester_core.Dict.{Dict}
use btptester_core.Defs.Core.{btp_service_id_gattc}
use btptester_core.Defs.Gattc.{
  gattc_cfg_indicate, gattc_cfg_notify, gattc_disc_all_chrc, gattc_disc_all_desc,
  gattc_disc_all_prim, gattc_disc_chrc_uuid, gattc_disc_prim_uuid, gattc_find_included, gattc_read,
  gattc_read_long, gattc_write, gattc_write_long,
}
use btptester_core.Commands.Table.{Cmd, controller_index}

abbrev pub gatt_cl : Dict String Cmd
gatt_cl =
    ("disc_prim_svcs", (btp_service_id_gattc, gattc_disc_all_prim, controller_index, none))
    ∷ ("disc_prim_uuid", (btp_service_id_gattc, gattc_disc_prim_uuid, controller_index, none))
    ∷ ("find_included", (btp_service_id_gattc, gattc_find_included, controller_index, none))
    ∷ ("disc_all_chrc", (btp_service_id_gattc, gattc_disc_all_chrc, controller_index, none))
    ∷ ("disc_chrc_uuid", (btp_service_id_gattc, gattc_disc_chrc_uuid, controller_index, none))
    ∷ ("disc_all_desc", (btp_service_id_gattc, gattc_disc_all_desc, controller_index, none))
    ∷ ("read", (btp_service_id_gattc, gattc_read, controller_index, none))
    ∷ ("read_long", (btp_service_id_gattc, gattc_read_long, controller_index, none))
    ∷ ("write", (btp_service_id_gattc, gattc_write, controller_index, none))
    ∷ ("write_long", (btp_service_id_gattc, gattc_write_long, controller_index, none))
    ∷ ("cfg_notify", (btp_service_id_gattc, gattc_cfg_notify, controller_index, none))
    ∷ ("cfg_indicate", (btp_service_id_gattc, gattc_cfg_indicate, controller_index, none))
    ∷ []
