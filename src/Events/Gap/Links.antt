-- ===== src/Events/Gap/Links.antt =====
-- Theorems on the connection events of the device under test.
use btptester_core.Prelude.{ℕ, ◌≡◌, Bytes, ◌∷◌, ◌++◌, arith, ◌∙◌, ap, some, true, false}
use btptester_core.Result.{ok, err}
use btptester_core.Struct.{le16, raw}
use btptester_core.Struct.Formats.{b_6s_h_h_h, b_6s}
use btptester_core.Dict
use btptester_core.Dict.{ble_address_eq}
use btptester_core.Stack.{Stack}
use btptester_core.Gap.{Gap, ConnParams, is_connected, connected, disconnected}
use btptester_core.Address.{BleAddress, ble_from_wire}
use btptester_core.Events.Args.{addr_tuple, addr_params}
use btptester_core.Events.Gap.{gap_connected_ev_, gap_disconnected_ev_}
use btptester_core.Events.Gap.Found.{six}

abbrev pub connected_payload : ℕ → Bytes → ConnParams → Bytes
connected_payload t addr p =
    t ∷ addr ++ le16 p.conn_itvl ++ le16 p.conn_latency ++ le16 p.supervision_timeout

-- The stack in which `g` is the GAP state.
abbrev pub with_gap : Stack → Gap → Stack
with_gap s g = record s { gap = some g }

connected-payload :
    (s : Stack) (g : Gap) (t a b c d e f itvl latency timeout : ℕ)
    → let p : ConnParams = record {
      conn_itvl = itvl;
      conn_latency = latency;
      supervision_timeout = timeout;
    } in
      let addr = ble_from_wire t (six a b c d e f) in
      gap_connected_ev_ (connected_payload t (six a b c d e f) p) (with_gap s g)
      ≡ (ok (addr_params addr p), with_gap s (record (connected g addr) { conn_params = some p }))
unfolding gap_connected_ev_ b_6s_h_h_h raw
connected-payload s g t a b c d e f itvl latency timeout = ground arith

disconnected-payload :
    (s : Stack) (g : Gap) (t a b c d e f : ℕ)
    → gap_disconnected_ev_ (t ∷ six a b c d e f) (with_gap s g)
      ≡ elim (disconnected g (ble_from_wire t (six a b c d e f))) [
        | ok g' ↦ (ok (addr_tuple (ble_from_wire t (six a b c d e f))), with_gap s g')
        | err e ↦ (err e, with_gap s g)
      ]
unfolding gap_disconnected_ev_ b_6s raw
disconnected-payload s g t a b c d e f = ground arith

abbrev pub up : Gap → BleAddress → ConnParams → Gap
up g addr p = record (connected g addr) { conn_params = some p }

is_connected-up :
    (g : Gap) (addr : BleAddress) (p : ConnParams) → is_connected (up g addr p) (some addr) ≡ true
unfolding is_connected connected
is_connected-up g addr p =
    ground
      (arith, Dict.get-put g.connections addr addr (record { addr = addr }), Dict.beq_refl addr)

disconnected-up :
    (g : Gap) (addr : BleAddress) (p : ConnParams)
    → is_connected g (some addr) ≡ false
    → disconnected (up g addr p) addr ≡ ok (record g { conn_params = some p })
unfolding is_connected connected disconnected
disconnected-up g addr p h = ground (
  arith,
  Dict.get-put g.connections addr addr (record { addr = addr }),
  Dict.remove-put_new g.connections addr (record { addr = addr }),
  Dict.beq_refl addr,
)

-- A device that was not connected connects and disconnects: both events are accepted, in between
-- it is connected, and afterwards the stack is as it was but for the connection parameters, which
-- keep those of the last connection.
pub gap_disconnected_ev-connected :
    (s : Stack) (g : Gap) (t a b c d e f itvl latency timeout : ℕ)
    → is_connected g (some (ble_from_wire t (six a b c d e f))) ≡ false
    → let p : ConnParams = record {
      conn_itvl = itvl;
      conn_latency = latency;
      supervision_timeout = timeout;
    } in
      let addr = ble_from_wire t (six a b c d e f) in
      (gap_connected_ev_ (connected_payload t (six a b c d e f) p) (with_gap s g)
        ≡ (ok (addr_params addr p), with_gap s (up g addr p)))
      × (is_connected (up g addr p) (some addr) ≡ true)
      × (gap_disconnected_ev_ (t ∷ six a b c d e f) (with_gap s (up g addr p))
          ≡ (ok (addr_tuple addr), with_gap s (record g { conn_params = some p })))
gap_disconnected_ev-connected s g t a b c d e f itvl latency timeout h =
    let p : ConnParams = record {
      conn_itvl = itvl;
      conn_latency = latency;
      supervision_timeout = timeout;
    } in
    let addr = ble_from_wire t (six a b c d e f) in
    (
      connected-payload s g t a b c d e f itvl latency timeout,
      is_connected-up g addr p,
      disconnected-payload s (up g addr p) t a b c d e f
          ∙ ap
              (λ r. elim r [
                | ok g' ↦ (ok (addr_tuple addr), with_gap s g')
                | err x ↦ (err x, with_gap s (up g addr p))
              ])
              (disconnected-up g addr p h),
    )
