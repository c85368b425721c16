-- ===== src/Examples/Device.antt =====
-- The GAP state and its events at concrete inputs.
use btptester_core.Prelude.{◌≡◌, refl, some, [], ◌∷◌, Bytes, text_eq, true, false, All, arith}
use btptester_core.Result.{ok}
use btptester_core.Address.{BleAddress, ble_from_wire, ble_eq}
use btptester_core.Dict
use btptester_core.Gap
use btptester_core.Gap.{
  Gap, LeAdv, ConnParams, connected, disconnected, is_connected, wait_for_connection,
  wait_for_disconnection,
}
use btptester_core.Stack
use btptester_core.Stack.{Stack, cleanup}
use btptester_core.Types.{gap_settings_btp2txt}
use btptester_core.Events.Args.{found, addr_params, addr_tuple}
use btptester_core.Events.Gap.{gap_device_found_ev_, gap_connected_ev_, gap_disconnected_ev_}
use btptester_core.Events.Gap.Settings.{IsSettled, HasSettings, settings_update-IsSettled}
use btptester_core.Events.Gap.Found.{six, found_payload, gap_device_found_ev-found_payload}
use btptester_core.Events.Gap.Links.{connected_payload, with_gap, up, gap_disconnected_ev-connected}

abbrev peer : BleAddress
peer = record { addr = b'1' ∷ []; addr_type = 0 }

abbrev other_peer : BleAddress
other_peer = record { addr = b'2' ∷ []; addr_type = 1 }

abbrev linked : Gap
linked = record Gap.init { connections = (peer, record { addr = peer }) ∷ [] }

linked-disconnected : disconnected linked peer ≡ ok Gap.init
unfolding disconnected Dict.get ble_eq text_eq Dict.remove
linked-disconnected = refl

init-HasSettings : HasSettings Gap.init
unfolding Dict.get
init-HasSettings = (
  refl,
  (
    refl,
    (
      refl,
      (
        refl,
        (
          refl,
          (
            refl,
            (refl, (refl, (refl, (refl, (refl, (refl, (refl, (refl, (refl, (refl, tt)))))))))),
          ),
        ),
      ),
    ),
  ),
)

settings_update-IsSettled_example : All (IsSettled Gap.init 0x0a53) gap_settings_btp2txt
settings_update-IsSettled_example = settings_update-IsSettled Gap.init 0x0a53 init-HasSettings

abbrev stack : Stack
stack = with_gap Stack.init Gap.init

abbrev octets : Bytes
octets = six 1 2 3 4 5 6

abbrev adv : LeAdv
adv = record { addr = ble_from_wire 1 octets; rssi = 200; flags = 2; eir = 2 ∷ 1 ∷ 6 ∷ [] }

gap_device_found_ev-found_payload_example :
    gap_device_found_ev_ (found_payload 1 octets 200 2 (2 ∷ 1 ∷ 6 ∷ [])) stack
    ≡ (ok (found adv), with_gap Stack.init (record Gap.init { found_devices = adv ∷ [] }))
gap_device_found_ev-found_payload_example =
    gap_device_found_ev-found_payload stack Gap.init 1 1 2 3 4 5 6 200 2 (2 ∷ 1 ∷ 6 ∷ []) refl
      (omega arith)

abbrev params : ConnParams
params = record { conn_itvl = 24; conn_latency = 0; supervision_timeout = 400 }

abbrev far : BleAddress
far = ble_from_wire 1 octets

not_linked : is_connected Gap.init (some far) ≡ false
unfolding is_connected Dict.get
not_linked = refl

gap_disconnected_ev-connected_example :
    (gap_connected_ev_ (connected_payload 1 octets params) stack
      ≡ (ok (addr_params far params), with_gap Stack.init (up Gap.init far params)))
    × (is_connected (up Gap.init far params) (some far) ≡ true)
    × (gap_disconnected_ev_ (1 ∷ octets) (with_gap Stack.init (up Gap.init far params)) ≡ (
      ok (addr_tuple far),
      with_gap Stack.init (record Gap.init { conn_params = some params }),
    ))
gap_disconnected_ev-connected_example =
    gap_disconnected_ev-connected Stack.init Gap.init 1 1 2 3 4 5 6 24 0 400 not_linked
