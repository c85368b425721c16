-- ===== src/Commands/Table/Gap.antt =====
-- The table `GAP` of pybtp/btp.py.
use btptester_core.Prelude.{none, some, [], ◌∷◌, String}
use btptester_core.Dict.{Dict}
use btptester_core.Defs.Core.{btp_service_id_gap}
use btptester_core.Defs.Gap.{
  gap_conn_param_update, gap_connect, gap_disconnect, gap_general_discoverable,
  gap_limited_discoverable, gap_non_discoverable, gap_pair, gap_pairing_consent_rsp,
  gap_passkey_confirm, gap_passkey_entry, gap_read_controller_info, gap_reset, gap_set_connectable,
  gap_set_discoverable, gap_set_io_cap, gap_set_powered, gap_start_advertising,
  gap_start_direct_adv, gap_start_discovery, gap_stop_advertising, gap_stop_discovery, gap_unpair,
}
use btptester_core.Commands.Table.{Cmd, controller_index, int, text}

abbrev pub gap : Dict String Cmd
gap =
    ("start_adv", (btp_service_id_gap, gap_start_advertising, controller_index, none))
    ∷ ("stop_adv", (btp_service_id_gap, gap_stop_advertising, controller_index, some (text [])))
    ∷ ("conn", (btp_service_id_gap, gap_connect, controller_index, none))
    ∷ ("pair", (btp_service_id_gap, gap_pair, controller_index, none))
    ∷ ("unpair", (btp_service_id_gap, gap_unpair, controller_index, none))
    ∷ ("disconn", (btp_service_id_gap, gap_disconnect, controller_index, none))
    ∷ ("set_io_cap", (btp_service_id_gap, gap_set_io_cap, controller_index, none))
    ∷ ("set_conn", (btp_service_id_gap, gap_set_connectable, controller_index, some (int 1)))
    ∷ ("set_nonconn", (btp_service_id_gap, gap_set_connectable, controller_index, some (int 0)))
    ∷ (
      "set_nondiscov",
      (btp_service_id_gap, gap_set_discoverable, controller_index, some (int gap_non_discoverable)),
    )
    ∷ (
      "set_gendiscov",
      (
        btp_service_id_gap,
        gap_set_discoverable,
        controller_index,
        some (int gap_general_discoverable),
      ),
    )
    ∷ (
      "set_limdiscov",
      (
        btp_service_id_gap,
        gap_set_discoverable,
        controller_index,
        some (int gap_limited_discoverable),
      ),
    )
    ∷ ("set_powered_on", (btp_service_id_gap, gap_set_powered, controller_index, some (int 1)))
    ∷ ("set_powered_off", (btp_service_id_gap, gap_set_powered, controller_index, some (int 0)))
    ∷ ("start_discov", (btp_service_id_gap, gap_start_discovery, controller_index, none))
    ∷ ("stop_discov", (btp_service_id_gap, gap_stop_discovery, controller_index, some (text [])))
    ∷ (
      "read_ctrl_info",
      (btp_service_id_gap, gap_read_controller_info, controller_index, some (text [])),
    )
    ∷ ("passkey_entry_rsp", (btp_service_id_gap, gap_passkey_entry, controller_index, none))
    ∷ ("passkey_confirm", (btp_service_id_gap, gap_passkey_confirm, controller_index, none))
    ∷ ("start_direct_adv", (btp_service_id_gap, gap_start_direct_adv, controller_index, none))
    ∷ ("conn_param_update", (btp_service_id_gap, gap_conn_param_update, controller_index, none))
    ∷ ("pairing_consent_rsp", (btp_service_id_gap, gap_pairing_consent_rsp, controller_index, none))
    ∷ ("reset", (btp_service_id_gap, gap_reset, controller_index, some (text [])))
    ∷ []
