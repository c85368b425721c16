-- ===== src/Commands/Table/L2cap.antt =====
-- The table `L2CAP` of pybtp/btp.py.
use btptester_core.Prelude.{none, some, [], ◌∷◌, String}
use btptester_core.Dict.{Dict}
use btptester_core.Defs.Core.{btp_index_none, btp_service_id_l2cap}
use btptester_core.Defs.L2cap.{
  l2cap_connect, l2cap_disconnect, l2cap_listen, l2cap_read_supported_commands, l2cap_send_data,
}
use btptester_core.Commands.Table.{Cmd, controller_index, text}

abbrev pub l2cap : Dict String Cmd
l2cap =
    (
      "read_supp_cmds",
      (btp_service_id_l2cap, l2cap_read_supported_commands, btp_index_none, some (text [])),
    )
    ∷ ("connect", (btp_service_id_l2cap, l2cap_connect, controller_index, none))
    ∷ ("disconnect", (btp_service_id_l2cap, l2cap_disconnect, controller_index, none))
    ∷ ("send_data", (btp_service_id_l2cap, l2cap_send_data, controller_index, none))
    ∷ ("listen", (btp_service_id_l2cap, l2cap_listen, controller_index, none))
    ∷ []
