-- ===== src/Events/Handler.antt =====
-- `BTPEventListener` and `BTPEventHandler` of pybtp/btp.py.
pub mod Listeners
pub mod Dispatch
use btptester_core.Prelude.{
  ℕ, Bool, true, false, ◌&&◌, Option, none, some, List, [], ◌∷◌, ◌++◌, Bytes, ◌==◌, ◌≡◌, ◌↔◌, arith,
  ==_iff, if◌then◌else◌,
}
use btptester_core.Result.{Exc, Result, ok, err}
use btptester_core.Parser.{Header}
use btptester_core.Dict
use btptester_core.Dict.{Dict, Eq, nat_eq}
use btptester_core.Defs.Core.{
  btp_service_id_gap, btp_service_id_gatt, btp_service_id_mesh, btp_service_id_gattc,
}
use btptester_core.Defs.Gap
use btptester_core.Defs.Gatt
use btptester_core.Defs.Gattc
use btptester_core.Defs.Mesh
use btptester_core.Stack.{Stack}
use btptester_core.Exec.{Exec}
use btptester_core.Events.Args.{EvArgs, Handler}
use btptester_core.Events.Gap.{
  gap_new_settings_ev_, gap_device_found_ev_, gap_connected_ev_, gap_disconnected_ev_,
  gap_passkey_entry_req_ev_, gap_passkey_disp_ev_, gap_passkey_confirm_req_ev_,
  gap_identity_resolved_ev_, gap_conn_param_update_ev_, gap_sec_level_changed_ev_,
  gap_pairing_consent_ev_,
}
use btptester_core.Events.Gatt.{gattc_notification_ev_, gatts_attr_value_changed_ev_}
use btptester_core.Events.GattCl.{
  gatt_cl_disc_all_prim_rsp_ev_, gatt_cl_disc_prim_uuid_rsp_ev_, gatt_cl_find_incld_rsp_ev_,
  gatt_cl_disc_all_chrc_rsp_ev_, gatt_cl_disc_chrc_uuid_rsp_ev_, gatt_cl_disc_all_desc_rsp_ev_,
}
use btptester_core.Events.GattCl.Values.{
  gatt_cl_read_rsp_ev_, gatt_cl_read_long_rsp_ev_, gatt_cl_write_rsp_ev_,
  gatt_cl_notification_rxed_ev_,
}
use btptester_core.Events.Mesh.{
  mesh_out_number_action_ev, mesh_out_string_action_ev, mesh_in_action_ev, mesh_provisioned_ev,
  mesh_prov_link_open_ev, mesh_prov_link_closed_ev, mesh_net_rcv_ev, mesh_invalid_bearer_ev,
  mesh_incomp_timer_exp_ev,
}

-- The four tables from opcodes to handlers.
abbrev pub gap_ev : Dict ℕ (Bytes → Handler)
gap_ev =
    (Gap.gap_ev_new_settings, gap_new_settings_ev_)
    ∷ (Gap.gap_ev_device_found, gap_device_found_ev_)
    ∷ (Gap.gap_ev_device_connected, gap_connected_ev_)
    ∷ (Gap.gap_ev_device_disconnected, gap_disconnected_ev_)
    ∷ (Gap.gap_ev_passkey_entry_req, gap_passkey_entry_req_ev_)
    ∷ (Gap.gap_ev_passkey_display, gap_passkey_disp_ev_)
    ∷ (Gap.gap_ev_passkey_confirm_req, gap_passkey_confirm_req_ev_)
    ∷ (Gap.gap_ev_identity_resolved, gap_identity_resolved_ev_)
    ∷ (Gap.gap_ev_conn_param_update, gap_conn_param_update_ev_)
    ∷ (Gap.gap_ev_sec_level_changed, gap_sec_level_changed_ev_)
    ∷ (Gap.gap_ev_pairing_consent_req, gap_pairing_consent_ev_)
    ∷ []

abbrev pub gatt_ev : Dict ℕ (Bytes → Handler)
gatt_ev =
    (Gatt.gatt_ev_notification, gattc_notification_ev_)
    ∷ (Gatt.gatt_ev_attr_value_changed, gatts_attr_value_changed_ev_)
    ∷ []

abbrev pub gatt_cl_ev : Dict ℕ (Bytes → Handler)
gatt_cl_ev =
    (Gattc.gattc_disc_all_prim_rp, gatt_cl_disc_all_prim_rsp_ev_)
    ∷ (Gattc.gattc_disc_prim_uuid_rp, gatt_cl_disc_prim_uuid_rsp_ev_)
    ∷ (Gattc.gattc_find_included_rp, gatt_cl_find_incld_rsp_ev_)
    ∷ (Gattc.gattc_disc_all_chrc_rp, gatt_cl_disc_all_chrc_rsp_ev_)
    ∷ (Gattc.gattc_disc_chrc_uuid_rp, gatt_cl_disc_chrc_uuid_rsp_ev_)
    ∷ (Gattc.gattc_disc_all_desc_rp, gatt_cl_disc_all_desc_rsp_ev_)
    ∷ (Gattc.gattc_read_rp, gatt_cl_read_rsp_ev_)
    ∷ (Gattc.gattc_read_long_rp, gatt_cl_read_long_rsp_ev_)
    ∷ (Gattc.gattc_write_rp, gatt_cl_write_rsp_ev_)
    ∷ (Gattc.gattc_write_long_rp, gatt_cl_write_rsp_ev_)
    ∷ (Gattc.gattc_cfg_notify_rp, gatt_cl_write_rsp_ev_)
    ∷ (Gattc.gattc_cfg_indicate_rp, gatt_cl_write_rsp_ev_)
    ∷ (Gattc.gattc_ev_notification_rxed, gatt_cl_notification_rxed_ev_)
    ∷ []

abbrev pub mesh_ev : Dict ℕ (Bytes → Handler)
mesh_ev =
    (Mesh.mesh_ev_out_number_action, mesh_out_number_action_ev)
    ∷ (Mesh.mesh_ev_out_string_action, mesh_out_string_action_ev)
    ∷ (Mesh.mesh_ev_in_action, mesh_in_action_ev)
    ∷ (Mesh.mesh_ev_provisioned, mesh_provisioned_ev)
    ∷ (Mesh.mesh_ev_prov_link_open, mesh_prov_link_open_ev)
    ∷ (Mesh.mesh_ev_prov_link_closed, mesh_prov_link_closed_ev)
    ∷ (Mesh.mesh_ev_net_recv, mesh_net_rcv_ev)
    ∷ (Mesh.mesh_ev_invalid_bearer, mesh_invalid_bearer_ev)
    ∷ (Mesh.mesh_ev_incomp_timer_exp, mesh_incomp_timer_exp_ev)
    ∷ []

abbrev pub callbacks : Dict ℕ (Dict ℕ (Bytes → Handler))
callbacks =
    (btp_service_id_gap, gap_ev)
    ∷ (btp_service_id_gatt, gatt_ev)
    ∷ (btp_service_id_mesh, mesh_ev)
    ∷ (btp_service_id_gattc, gatt_cl_ev)
    ∷ []

-- self.callbacks[svc_id][op], if both keys are there
unfoldable pub callback : ℕ → ℕ → Option (Bytes → Handler)
callback svc_id op = elim (Dict.get callbacks svc_id) [
  | none ↦ none
  | some table ↦ Dict.get table op
]
