-- ===== src/Examples/Discovery.antt =====
-- Two devices, one of which finds the other, at concrete inputs.
use btptester_core.Prelude.{◌≡◌, refl, arith, true, some, List, [], ◌∷◌, Bytes, length, ℕ, text_eq}
use btptester_core.Result.{ok}
use btptester_core.Parser.{Header}
use btptester_core.Dict
use btptester_core.Address.{ble_from_wire}
use btptester_core.Gap
use btptester_core.Gap.{LeAdv}
use btptester_core.Stack
use btptester_core.Defs.Gap as Ops
use btptester_core.Events.Args.{found}
use btptester_core.Events.Gap.Found.{six, found_payload}
use btptester_core.Events.Handler.Listeners.{BtpEventListener, listener}
use btptester_core.Ad.RoundTrip.{enc_ad}
use btptester_core.Testcases.Bench.{Bench, Iut, mynewt, iut1, iut2, iut, handler_of}
use btptester_core.Testcases.Utils.{verify_uuid}
use btptester_core.Testcases.Procedures.{discovery}
use btptester_core.Testcases.Bench.{
  on, pause, receive, listen, wait_futures, result, assert_is_not_none,
}
use btptester_core.Commands.Gap.{gap_set_conn, settings_command, gap_set_gendiscov, update_from_rsp}
use btptester_core.Commands.Gap.Discover.{gap_start_discov, gap_stop_discov, discovery_flags}
use btptester_core.Commands.Gap.Advertise.{gap_adv_ind_on, adv_payload}
use btptester_core.Commands.Response.{btp_hdr_check, gap_command_rsp_succ}
use btptester_core.Worker.{data_bytes, read, send_from, send}
use btptester_core.Worker.Rx.{rx_task, rx_frame}
use btptester_core.Parser.{enc_frame}
use btptester_core.Events.Gap.{settings_update, gap_device_found_ev_}
use btptester_core.Types.{test_bit}
use btptester_core.Events.Waits.{gap_device_found_ev}
use btptester_core.Events.Handler.{callback}
use btptester_core.Events.Handler.Listeners.{
  handle_event, run_callback, finish, notify, listeners_of, wait_for_event, passed, kept, verify,
  key_eq,
}
use btptester_core.Testcases.Utils.{find_adv_by_uuid, is_in}
use btptester_core.Ad.{Record, pieces, parse_ad, ad_find_uuid16, parse_ad_from}
use btptester_core.Uuid.{btp2uuid}
use btptester_core.Struct.Formats.{b_6s_b_b_h}
use btptester_core.Hex.{zfill, upper, format_x, hex_digit}
use btptester_core.Testcases.Unheard.{found_header, ended, receive-half}
use btptester_core.Testcases.Advertised.{offered, verify_uuid-offered}
use btptester_core.Testcases.Verdicts.{discovery-verified}

abbrev pub device : ℕ → Iut
device k = record {
  id = k;
  type = mynewt;
  world = record { stack = record Stack.init { gap = some Gap.init }; sent = []; rx_queue = [] };
  listeners = [];
  released = [];
  submitted = 0;
  alive = true;
}

abbrev pub response : ℕ → Bytes → Header × Bytes
response op dat = (record { svc_id = 1; op = op; ctrl_index = 0; data_len = length dat }, dat)

abbrev pub settings : Bytes
settings = 0x0b ∷ 0 ∷ 0 ∷ 0 ∷ []

-- flags, then the UUID 0x1812
abbrev pub eir : Bytes
eir = enc_ad ((1, 6 ∷ []) ∷ (2, 0x12 ∷ 0x18 ∷ []) ∷ [])

abbrev pub seen : Header × Bytes
seen = (found_header 18, found_payload 1 (six 1 2 3 4 5 6) 200 0 eir)

abbrev advertisement : LeAdv
advertisement = record {
  addr = ble_from_wire 1 (six 1 2 3 4 5 6);
  rssi = 200;
  flags = 0;
  eir = eir;
}

abbrev pub bench : Bench
bench = record {
  first = device 0;
  second = device 1;
  arrivals =
      ([], response Ops.gap_set_connectable settings ∷ [])
      ∷ ([], response Ops.gap_set_discoverable settings ∷ [])
      ∷ ([], response Ops.gap_start_advertising settings ∷ [])
      ∷ (response Ops.gap_start_discovery [] ∷ [], [])
      ∷ ([], [])
      ∷ (seen ∷ [], [])
      ∷ (response Ops.gap_stop_discovery [] ∷ [], [])
      ∷ [];
  reorder = λ ls. ls;
}

it_finds : (discovery (0x12 ∷ 0x18 ∷ []) iut1 iut2 bench).0 ≡ ok (found advertisement)
unfolding discovery verify_uuid Gap.current_settings_get Gap.current_settings_clear
    Gap.current_settings_set Dict.get Dict.put on pause receive listen wait_futures result
    assert_is_not_none gap_set_conn settings_command gap_set_gendiscov update_from_rsp
    gap_start_discov gap_stop_discov discovery_flags gap_adv_ind_on adv_payload btp_hdr_check
    gap_command_rsp_succ data_bytes read send_from send rx_task rx_frame enc_frame settings_update
    gap_device_found_ev_ test_bit gap_device_found_ev callback handle_event run_callback finish
    notify listeners_of wait_for_event passed kept verify key_eq find_adv_by_uuid parse_ad
    ad_find_uuid16 parse_ad_from btp2uuid b_6s_b_b_h text_eq zfill upper format_x hex_digit
it_finds = refl

discovery-verified_example : verify_uuid (0x12 ∷ 0x18 ∷ []) (found advertisement) ≡ ok true
unfolding iut handler_of
discovery-verified_example =
    discovery-verified (0x12 ∷ 0x18 ∷ []) iut1 iut2 bench (found advertisement) (tt, tt)
      (λ P ls h. h) it_finds

verify_uuid-offered_example :
    verify_uuid (0x12 ∷ 0x18 ∷ []) (found advertisement)
    ≡ ok (is_in (0x12 ∷ 0x18 ∷ []) (offered ((1, 6 ∷ []) ∷ (2, 0x12 ∷ 0x18 ∷ []) ∷ [])))
unfolding pieces
verify_uuid-offered_example =
    verify_uuid-offered (0x12 ∷ 0x18 ∷ []) ((1, 6 ∷ []) ∷ (2, 0x12 ∷ 0x18 ∷ []) ∷ []) advertisement
      (refl, (omega arith, (omega arith, tt))) refl ((refl, (omega arith, (omega arith, tt))), tt)

-- a device that looks for the UUID
abbrev looking : Iut
looking = record (device 0) {
  listeners = ((1, 0x81), listener 0 (some (verify_uuid (0x12 ∷ 0x18 ∷ []))) ∷ []) ∷ [];
  submitted = 1;
}

abbrev same_order : List BtpEventListener → List BtpEventListener
same_order ls = ls

receive-half_example :
    let half : List Record = (1, 6 ∷ []) ∷ (3, 0x12 ∷ []) ∷ [] in
    let adv : LeAdv = record {
      addr = ble_from_wire 1 (six 1 2 3 4 5 6);
      rssi = 200;
      flags = 0;
      eir = enc_ad half;
    } in
    let i' =
      receive same_order
        ((found_header 17, found_payload 1 (six 1 2 3 4 5 6) 200 0 (enc_ad half)) ∷ seen ∷ [])
        looking in
    (i' ≡ ended Gap.init adv looking) × (receive same_order (seen ∷ []) i' ≡ i')
unfolding listeners_of Dict.get key_eq handler_of pieces
receive-half_example =
    receive-half same_order looking Gap.init 0 17 1 1 2 3 4 5 6 200 0 3 (0x12 ∷ 0x18 ∷ [])
      (0x12 ∷ []) ((1, 6 ∷ []) ∷ []) [] (seen ∷ []) (seen ∷ []) refl refl refl
      (refl, (omega arith, (omega arith, tt))) tt refl (omega arith) (omega arith)
