-- ===== src/Examples/Connection.antt =====
-- Two devices that are connected and disconnected, at concrete inputs.
use btptester_core.Prelude.{◌≡◌, refl, true, some, [], ◌∷◌, Bytes, ℕ, text_eq, false, ◌++◌}
use btptester_core.Result.{ok}
use btptester_core.Parser.{Header}
use btptester_core.Dict
use btptester_core.Address.{ble_from_wire}
use btptester_core.Gap
use btptester_core.Gap.{LeAdv}
use btptester_core.Stack
use btptester_core.Defs.Gap as Ops
use btptester_core.Events.Gap.Found.{six}
use btptester_core.Testcases.Bench.{Bench, Iut, iut1, iut2, iut, handler_of}
use btptester_core.Testcases.Utils.{verify_uuid}
use btptester_core.Testcases.Procedures.{
  discovery, connection_procedure, disconnection_procedure, assert_connected,
}
use btptester_core.Testcases.Links.{HasLink}
use btptester_core.Testcases.Linked.{Heard, connection_procedure-connected}
use btptester_core.Testcases.Parted.{HeardOff, disconnection_procedure-disconnected}
use btptester_core.Examples.Discovery.{device, bench, response}
use btptester_core.Address.{BleAddress, ble_bytes, addr2btp_ba, ble_eq}
use btptester_core.Hex.{join, split, lower, hexlify}
use btptester_core.Struct.Formats.{b_6s_h_h_h, b_6s}
use btptester_core.Testcases.Utils.{verify_address, first_of}
use btptester_core.Gap.{address}
use btptester_core.Testcases.Bench.{iut_addr_get, assert_true}
use btptester_core.Commands.Gap.Connect.{gap_conn, gap_disconn}
use btptester_core.Events.Gap.{gap_connected_ev_, gap_disconnected_ev_}
use btptester_core.Events.Waits.{gap_connected_ev, gap_disconnected_ev}
use btptester_core.Testcases.Bench.{
  on, pause, receive, listen, wait_futures, result, assert_is_not_none,
}
use btptester_core.Commands.Gap.{gap_set_conn, settings_command, gap_set_gendiscov, update_from_rsp}
use btptester_core.Commands.Gap.Discover.{gap_start_discov, gap_stop_discov, discovery_flags}
use btptester_core.Commands.Gap.Advertise.{gap_adv_ind_on, adv_payload}
use btptester_core.Commands.Response.{btp_hdr_check, gap_command_rsp_succ}
use btptester_core.Worker.{data_bytes, read, send_from, send}
use btptester_core.Worker.Rx.{rx_task, rx_frame}
use btptester_core.Parser.{enc_frame}
use btptester_core.Events.Gap.{settings_update, gap_device_found_ev_}
use btptester_core.Types.{test_bit}
use btptester_core.Events.Waits.{gap_device_found_ev}
use btptester_core.Events.Handler.{callback}
use btptester_core.Events.Handler.Listeners.{
  handle_event, run_callback, finish, notify, listeners_of, wait_for_event, passed, kept, verify,
  key_eq,
}
use btptester_core.Testcases.Utils.{find_adv_by_uuid}
use btptester_core.Ad.{parse_ad, ad_find_uuid16, parse_ad_from}
use btptester_core.Uuid.{btp2uuid}
use btptester_core.Struct.Formats.{b_6s_b_b_h}
use btptester_core.Hex.{zfill, upper, format_x, hex_digit}

abbrev connected_to : ℕ → Bytes → Header × Bytes
connected_to t addr = (
  record { svc_id = 1; op = Ops.gap_ev_device_connected; ctrl_index = 0; data_len = 13 },
  t ∷ addr ++ 40 ∷ 0 ∷ 0 ∷ 0 ∷ 42 ∷ 0 ∷ [],
)

abbrev disconnected_from : ℕ → Bytes → Header × Bytes
disconnected_from t addr = (
  record { svc_id = 1; op = Ops.gap_ev_device_disconnected; ctrl_index = 0; data_len = 7 },
  t ∷ addr,
)

-- The frames of `bench`, then those of a connection.
abbrev meeting : Bench
meeting = record bench {
  arrivals =
      bench.arrivals
      ++ ([], [])
        ∷ ([], [])
        ∷ (response Ops.gap_connect [] ∷ [], [])
        ∷ (connected_to 1 (six 1 2 3 4 5 6) ∷ [], connected_to 0 (six 9 8 7 6 5 4) ∷ [])
        ∷ [];
}

it_connects : (connection_procedure (0x12 ∷ 0x18 ∷ []) iut1 iut2 meeting).0 ≡ ok tt
unfolding connection_procedure discovery verify_uuid Gap.current_settings_get
    Gap.current_settings_clear Gap.current_settings_set Dict.get Dict.put on pause receive listen
    wait_futures result assert_is_not_none gap_set_conn settings_command gap_set_gendiscov
    update_from_rsp gap_start_discov gap_stop_discov discovery_flags gap_adv_ind_on adv_payload
    btp_hdr_check gap_command_rsp_succ data_bytes read send_from send rx_task rx_frame enc_frame
    settings_update gap_device_found_ev_ test_bit gap_device_found_ev callback handle_event
    run_callback finish notify listeners_of wait_for_event passed kept verify key_eq
    find_adv_by_uuid parse_ad ad_find_uuid16 parse_ad_from btp2uuid b_6s_b_b_h text_eq zfill upper
    format_x hex_digit iut_addr_get assert_connected gap_connected_ev gap_conn ble_bytes addr2btp_ba
    join split ble_from_wire lower hexlify gap_connected_ev_ b_6s_h_h_h verify_address ble_eq
    assert_true Gap.is_connected Gap.connected first_of
it_connects = refl

connection_procedure-connected_example :
    let b' = (connection_procedure (0x12 ∷ 0x18 ∷ []) iut1 iut2 meeting).1 in
    Heard (0x12 ∷ 0x18 ∷ []) iut1 iut2 meeting b' × HasLink true iut1 b' × HasLink true iut2 b'
unfolding iut handler_of
connection_procedure-connected_example =
    connection_procedure-connected (0x12 ∷ 0x18 ∷ []) iut1 iut2 meeting tt (tt, tt) (λ P ls h. h)
      it_connects

-- A device with a link, which was found under an address.
abbrev linked : ℕ → BleAddress → BleAddress → Iut
linked k own peer = record (device k) {
  world = record {
    stack = record Stack.init {
      gap = some (record Gap.init {
        connections = (peer, record { addr = peer }) ∷ [];
        iut_bd_addr = address own;
      });
    };
    sent = [];
    rx_queue = [];
  };
}

abbrev of_first : BleAddress
of_first = ble_from_wire 0 (six 9 8 7 6 5 4)

abbrev of_second : BleAddress
of_second = ble_from_wire 1 (six 1 2 3 4 5 6)

abbrev parting : Bench
parting = record bench {
  first = linked 0 of_first of_second;
  second = linked 1 of_second of_first;
  arrivals =
      ([], [])
      ∷ ([], [])
      ∷ (response Ops.gap_disconnect [] ∷ [], [])
      ∷ (disconnected_from 1 (six 1 2 3 4 5 6) ∷ [], disconnected_from 0 (six 9 8 7 6 5 4) ∷ [])
      ∷ [];
}

it_disconnects : (disconnection_procedure iut1 iut2 parting).0 ≡ ok tt
unfolding disconnection_procedure Dict.get Dict.put on pause receive listen wait_futures result
    btp_hdr_check gap_command_rsp_succ data_bytes read send_from send rx_task rx_frame enc_frame
    callback handle_event run_callback finish notify listeners_of wait_for_event passed kept verify
    key_eq text_eq upper hex_digit iut_addr_get assert_connected gap_disconnected_ev gap_disconn
    ble_bytes addr2btp_ba join split ble_from_wire lower hexlify gap_disconnected_ev_ b_6s
    verify_address ble_eq assert_true Gap.is_connected Gap.disconnected Dict.remove
it_disconnects = refl

disconnection_procedure-disconnected_example :
    let b' = (disconnection_procedure iut1 iut2 parting).1 in
    HeardOff iut1 iut2 parting b' × HasLink false iut2 b' × HasLink false iut1 b'
unfolding iut handler_of
disconnection_procedure-disconnected_example =
    disconnection_procedure-disconnected iut1 iut2 parting tt (tt, tt) (λ P ls h. h) it_disconnects
