-- ===== src/Commands/Table/Mesh.antt =====
-- The table `MESH` of pybtp/btp.py.
use btptester_core.Prelude.{none, some, [], ◌∷◌, String}
use btptester_core.Dict.{Dict}
use btptester_core.Defs.Core.{btp_index_none, btp_service_id_mesh}
use btptester_core.Defs.Mesh.{
  mesh_config_provisioning, mesh_health_add_faults, mesh_health_clear_faults, mesh_init,
  mesh_input_number, mesh_input_string, mesh_iv_update_test_mode, mesh_iv_update_toggle,
  mesh_lpn_poll, mesh_lpn_set, mesh_lpn_subscribe, mesh_lpn_unsubscribe, mesh_model_send,
  mesh_net_send, mesh_provision_node, mesh_proxy_identity, mesh_read_supported_commands, mesh_reset,
  mesh_rpl_clear,
}
use btptester_core.Commands.Table.{Cmd, controller_index, text}

abbrev pub mesh : Dict String Cmd
mesh =
    (
      "read_supp_cmds",
      (btp_service_id_mesh, mesh_read_supported_commands, btp_index_none, some (text [])),
    )
    ∷ ("config_prov", (btp_service_id_mesh, mesh_config_provisioning, controller_index, none))
    ∷ ("prov_node", (btp_service_id_mesh, mesh_provision_node, controller_index, none))
    ∷ ("init", (btp_service_id_mesh, mesh_init, controller_index, some (text [])))
    ∷ ("reset", (btp_service_id_mesh, mesh_reset, controller_index, some (text [])))
    ∷ ("input_num", (btp_service_id_mesh, mesh_input_number, controller_index, none))
    ∷ ("input_str", (btp_service_id_mesh, mesh_input_string, controller_index, none))
    ∷ (
      "iv_update_test_mode",
      (btp_service_id_mesh, mesh_iv_update_test_mode, controller_index, none),
    )
    ∷ (
      "iv_update_toggle",
      (btp_service_id_mesh, mesh_iv_update_toggle, controller_index, some (text [])),
    )
    ∷ ("net_send", (btp_service_id_mesh, mesh_net_send, controller_index, none))
    ∷ (
      "health_generate_faults",
      (btp_service_id_mesh, mesh_health_add_faults, controller_index, some (text [])),
    )
    ∷ (
      "mesh_clear_faults",
      (btp_service_id_mesh, mesh_health_clear_faults, controller_index, some (text [])),
    )
    ∷ ("lpn", (btp_service_id_mesh, mesh_lpn_set, controller_index, none))
    ∷ ("lpn_poll", (btp_service_id_mesh, mesh_lpn_poll, controller_index, some (text [])))
    ∷ ("model_send", (btp_service_id_mesh, mesh_model_send, controller_index, none))
    ∷ ("lpn_subscribe", (btp_service_id_mesh, mesh_lpn_subscribe, controller_index, none))
    ∷ ("lpn_unsubscribe", (btp_service_id_mesh, mesh_lpn_unsubscribe, controller_index, none))
    ∷ ("rpl_clear", (btp_service_id_mesh, mesh_rpl_clear, controller_index, some (text [])))
    ∷ (
      "proxy_identity",
      (btp_service_id_mesh, mesh_proxy_identity, controller_index, some (text [])),
    )
    ∷ []
