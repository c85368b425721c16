-- ===== src/Examples/Links.antt =====
-- L2CAP channels and passkeys at concrete inputs.
use btptester_core.Prelude.{
  ◌≡◌, ◌≤◌, ◌<◌, ◌↔◌, refl, true, none, some, List, [], ◌∷◌, Bytes, reverse, Text, arith,
}
use btptester_core.Result.{ok}
use btptester_core.Gap
use btptester_core.Gap.{Gap, get_passkey, address}
use btptester_core.Stack
use btptester_core.Stack.{L2cap}
use btptester_core.Hex.{lower, hexlify}
use btptester_core.Address.{ble_address}
use btptester_core.Events.Gap.{gap_current_settings_update}
use btptester_core.Events.Gap.Found.{six}
use btptester_core.Worker.{World, encode, utf8}
use btptester_core.Worker.Rx.{RxWorker, rx_task}
use btptester_core.Events.Handler.Listeners.{BtpEventListener}
use btptester_core.Commands.Args.{digits}
use btptester_core.Commands.Gap.Info.{
  passkey_int, var_store_get_passkey, rstrip_zeros, own_addr_type, gap_read_ctrl_info,
}
use btptester_core.Commands.Gap.Named.{info_payload, asked, told, gap_read_ctrl_info-info_payload}
use btptester_core.Commands.Gap.Passkey.{entered, passkey_int-var_store_get_passkey}
use btptester_core.Commands.L2cap.{has_channel}
use btptester_core.Commands.L2cap.Channels.{
  Peer, Event, connected, disconnected, all_frames, handle_events, with_l2cap, open_after, open_of,
  IsDistinct, KeepsDistinct,
}
use btptester_core.Commands.L2cap.Refine.{l2cap_events_refine}

abbrev keep : List BtpEventListener → List BtpEventListener
keep l = l

abbrev world : World
world = record { stack = Stack.init; sent = []; rx_queue = [] }

abbrev rx_worker : RxWorker
rx_worker = record { rx_queue = []; handler = none; alive = true }

abbrev phone : Peer
phone = record { psm = (0x80, 0); addr_type = 1; addr = (1, 2, 3, 4, 5, 6) }

abbrev events : List Event
events = connected 1 phone ∷ connected 2 phone ∷ disconnected 1 (0, 0) phone ∷ []

abbrev channels : L2cap
channels = record { channels = []; verify_values = [] }

none-IsDistinct : IsDistinct []
unfolding IsDistinct
none-IsDistinct = tt

l2cap_events_refine_example :
    let frames = (rx_task keep (all_frames events []) rx_worker).rx_queue in
    let run = handle_events events (with_l2cap channels frames world) in
    (open_of run ≡ open_after (has_channel channels.channels) events) × KeepsDistinct run.1
l2cap_events_refine_example =
    l2cap_events_refine keep events rx_worker channels world refl refl none-IsDistinct

abbrev displayed : Gap
displayed = record Gap.init { passkey = some 123456 }

displayed_passkey : get_passkey displayed [] ≡ some 123456
unfolding get_passkey
displayed_passkey = refl

passkey_int-var_store_get_passkey_example :
    let read = passkey_int (digits (var_store_get_passkey displayed [])) in
    ((read ≡ ok 123456) ↔ (123456 < 10)) × (read ≡ ok (entered 123456)) × (123456 ≤ entered 123456)
passkey_int-var_store_get_passkey_example =
    passkey_int-var_store_get_passkey displayed [] 123456 displayed_passkey

-- the name é
abbrev device_name : Text
device_name = 0xe9 ∷ []

abbrev device_name_bytes : Bytes
device_name_bytes = 0xc3 ∷ 0xa9 ∷ []

device_name-encoded : encode device_name ≡ ok device_name_bytes
unfolding encode utf8
device_name-encoded = refl

device_name-stripped : rstrip_zeros device_name ≡ device_name
unfolding rstrip_zeros
device_name-stripped = refl

gap_read_ctrl_info-info_payload_example :
    let found = record Gap.init {
      name = some device_name;
      name_short = some device_name;
      iut_bd_addr =
          address
            (ble_address (lower (hexlify (reverse (six 1 2 3 4 5 6)))) (own_addr_type 0x2000));
    } in
    gap_read_ctrl_info (
      asked
        (info_payload
          (six 1 2 3 4 5 6)
          0xffff
          0x2000
          (0 ∷ 0 ∷ 0 ∷ [])
          device_name_bytes
          device_name_bytes
          [])
        []
        Gap.init
        world)
    ≡ (ok tt, told [] (gap_current_settings_update found 0x2000) world)
gap_read_ctrl_info-info_payload_example =
    gap_read_ctrl_info-info_payload world Gap.init [] (six 1 2 3 4 5 6) 0xffff 0x2000
      (0 ∷ 0 ∷ 0 ∷ []) [] device_name device_name device_name_bytes device_name_bytes refl refl
      (omega arith, tt) (omega arith, tt) device_name-encoded device_name-encoded (omega arith)
      (omega arith) device_name-stripped device_name-stripped
