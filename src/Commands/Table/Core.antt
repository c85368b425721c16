-- ===== src/Commands/Table/Core.antt =====
-- The table `CORE` of pybtp/btp.py.
use btptester_core.Prelude.{some, [], ◌∷◌, String}
use btptester_core.Dict.{Dict}
use btptester_core.Defs.Core.{
  btp_index_none, btp_service_id_core, btp_service_id_gap, btp_service_id_gatt,
  btp_service_id_gattc, btp_service_id_l2cap, btp_service_id_mesh, core_read_supported_commands,
  core_read_supported_services, core_register_service, core_unregister_service,
}
use btptester_core.Commands.Table.{Cmd, int, text}

abbrev pub core : Dict String Cmd
core =
    (
      "gap_reg",
      (btp_service_id_core, core_register_service, btp_index_none, some (int btp_service_id_gap)),
    )
    ∷ (
      "gap_unreg",
      (btp_service_id_core, core_unregister_service, btp_index_none, some (int btp_service_id_gap)),
    )
    ∷ (
      "gatt_reg",
      (btp_service_id_core, core_register_service, btp_index_none, some (int btp_service_id_gatt)),
    )
    ∷ (
      "gatt_unreg",
      (
        btp_service_id_core,
        core_unregister_service,
        btp_index_none,
        some (int btp_service_id_gatt),
      ),
    )
    ∷ (
      "l2cap_reg",
      (btp_service_id_core, core_register_service, btp_index_none, some (int btp_service_id_l2cap)),
    )
    ∷ (
      "l2cap_unreg",
      (
        btp_service_id_core,
        core_unregister_service,
        btp_index_none,
        some (int btp_service_id_l2cap),
      ),
    )
    ∷ (
      "mesh_reg",
      (btp_service_id_core, core_register_service, btp_index_none, some (int btp_service_id_mesh)),
    )
    ∷ (
      "mesh_unreg",
      (
        btp_service_id_core,
        core_unregister_service,
        btp_index_none,
        some (int btp_service_id_mesh),
      ),
    )
    ∷ (
      "gatt_cl_reg",
      (btp_service_id_core, core_register_service, btp_index_none, some (int btp_service_id_gattc)),
    )
    ∷ (
      "gatt_cl_unreg",
      (
        btp_service_id_core,
        core_unregister_service,
        btp_index_none,
        some (int btp_service_id_gattc),
      ),
    )
    ∷ (
      "read_supp_cmds",
      (btp_service_id_core, core_read_supported_commands, btp_index_none, some (text [])),
    )
    ∷ (
      "read_supp_svcs",
      (btp_service_id_core, core_read_supported_services, btp_index_none, some (text [])),
    )
    ∷ []
