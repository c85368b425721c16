-- ===== src/Commands/L2cap.antt =====
-- The L2CAP commands of pybtp/btp.py, and the events that the test cases read by themselves.
pub mod Channels
pub mod Refine
use btptester_core.Prelude.{
  ℕ, not, ◌||◌, ◌&&◌, Bool, true, false, Option, none, some, List, [], ◌∷◌, ◌++◌, Bytes, String,
  length, ◌==◌, if◌then◌else◌,
}
use btptester_core.Result.{Result, ok, err, btp_error, value_error, key_error}
use btptester_core.Struct
use btptester_core.Struct.{
  Reader, u8, u16, raw, pack_u8, pack_u16, to_byte, unpack_from, unpack_from_at,
}
use btptester_core.Hex.{hexlify}
use btptester_core.Parser.{Header}
use btptester_core.Dict
use btptester_core.Dict.{Dict, nat_eq}
use btptester_core.Defs.Core.{btp_service_id_l2cap}
use btptester_core.Defs.L2cap as Ops
use btptester_core.Address.{BleAddress, ble_bytes}
use btptester_core.GattCl.{Verify}
use btptester_core.GattDb.Handles.{Handle}
use btptester_core.Stack.{L2cap, add_verify_values, clear_verify_values, append_channel}
use btptester_core.Exec.{pure, lift, of_option, modify, ◌>>=◌, ◌>>◌}
use btptester_core.Worker.{Btp, send_from, read}
use btptester_core.Commands.Table.{bytes}
use btptester_core.Commands.Table.L2cap.{l2cap}
use btptester_core.Commands.Response.{btp_hdr_check}
use btptester_core.Commands.Args.{Val, hdl_int, hdl_ba, multiply, val_ba}
use btptester_core.Commands.Gap.{gap_wait_for_connection}

-- `iutctl.stack.l2cap`, where an attribute of it is used next
abbrev pub the_l2cap : Btp L2cap
the_l2cap w = of_option w.stack.l2cap w

abbrev pub put_l2cap : L2cap → Btp (Unit {0})
put_l2cap l = modify (λ w. record w { stack = record w.stack { l2cap = some l } })

-- the payload of a frame of the L2CAP service
unfoldable pub l2cap_frame : Option ℕ → Btp Bytes
l2cap_frame op = do
  (tuple_hdr, tuple_data) ← read
  lift (btp_hdr_check tuple_hdr btp_service_id_l2cap op)
  pure tuple_data

unfoldable pub l2cap_command_rsp_succ : Option ℕ → Btp (Unit {0})
unfolding l2cap_frame
l2cap_command_rsp_succ op = do _ ← l2cap_frame op; pure tt

unfoldable pub l2cap_conn_rsp : Btp (Unit {0})
unfolding l2cap_frame
l2cap_conn_rsp = do
  tuple_data ← l2cap_frame (some Ops.l2cap_connect)
  chan_id ← lift (unpack_from u8 tuple_data)
  l ← the_l2cap
  put_l2cap (append_channel l chan_id)

unfoldable pub l2cap_conn : BleAddress → Handle → Btp (Unit {0})
unfolding gap_wait_for_connection hdl_int l2cap_conn_rsp
l2cap_conn bd_addr psm = do
  gap_wait_for_connection
  p ← lift (hdl_int psm)
  data_ba ← lift (ble_bytes bd_addr)
  psm_ba ← lift (pack_u16 p)
  send_from l2cap "connect" (some (bytes (data_ba ++ psm_ba)))
  l2cap_conn_rsp

-- chan_id in channels
unfoldable pub has_channel : List ℕ → ℕ → Bool
has_channel [] chan_id = false
has_channel (c ∷ channels) chan_id = (c == chan_id) || has_channel channels chan_id

-- channels.index: ValueError, which is turned into BTPError, if the channel is not there
unfoldable pub known_channel : L2cap → ℕ → Result (Unit {0})
unfolding has_channel
known_channel l chan_id = if has_channel l.channels chan_id then ok tt else err btp_error

unfoldable pub l2cap_disconn : ℕ → Btp (Unit {0})
unfolding known_channel l2cap_command_rsp_succ
l2cap_disconn chan_id = do
  l ← the_l2cap
  lift (known_channel l chan_id)
  data_ba ← lift (to_byte chan_id)
  send_from l2cap "disconnect" (some (bytes data_ba))
  l2cap_command_rsp_succ (some Ops.l2cap_disconnect)

unfoldable pub l2cap_send_data : ℕ → Val → Option ℕ → Btp (Unit {0})
unfolding multiply val_ba l2cap_command_rsp_succ
l2cap_send_data chan_id val val_mtp = do
  v ← lift (val_ba (multiply val_mtp val))
  val_len_ba ← lift (pack_u16 (length v))
  data_ba ← lift (to_byte chan_id)
  send_from l2cap "send_data" (some (bytes (data_ba ++ val_len_ba ++ v)))
  l2cap_command_rsp_succ (some Ops.l2cap_send_data)

unfoldable pub l2cap_listen : Handle → ℕ → Btp (Unit {0})
unfolding hdl_ba l2cap_command_rsp_succ
l2cap_listen psm transport = do
  psm_ba ← lift (hdl_ba psm)
  t ← lift (pack_u8 transport)
  send_from l2cap "listen" (some (bytes (psm_ba ++ t)))
  l2cap_command_rsp_succ (some Ops.l2cap_listen)

unfoldable pub l2cap_le_listen : Handle → Btp (Unit {0})
unfolding l2cap_listen
l2cap_le_listen psm = l2cap_listen psm Ops.l2cap_transport_le

-- '<BHB6s', '<HBHB6s' and '<BH'
unfoldable pub b_h_b_6s : Reader (ℕ × ℕ × ℕ × Bytes)
unfolding raw
b_h_b_6s = Struct.◌>>=◌ u8 λ c.
    Struct.◌>>=◌ u16 λ p. Struct.◌>>=◌ u8 λ t. Struct.◌>>=◌ (raw 6) λ a. Struct.pure (c, p, t, a)

unfoldable pub h_b_h_b_6s : Reader (ℕ × (ℕ × ℕ × ℕ × Bytes))
unfolding b_h_b_6s
h_b_h_b_6s = Struct.◌>>=◌ u16 λ r. Struct.◌>>=◌ b_h_b_6s λ x. Struct.pure (r, x)

abbrev b_h : Reader (ℕ × ℕ)
b_h = Struct.◌>>=◌ u8 λ c. Struct.◌>>=◌ u16 λ n. Struct.pure (c, n)

-- `if chan_id not in channels: channels.append(chan_id)`
unfoldable pub channel_connected : L2cap → ℕ → L2cap
unfolding has_channel
channel_connected l chan_id = if has_channel l.channels chan_id then l else append_channel l chan_id

unfoldable pub l2cap_connected_ev : Btp (Unit {0})
unfolding l2cap_frame b_h_b_6s channel_connected
l2cap_connected_ev = do
  tuple_data ← l2cap_frame (some Ops.l2cap_ev_connected)
  (chan_id, psm, bd_addr_type, bd_addr) ← lift (unpack_from b_h_b_6s tuple_data)
  l ← the_l2cap
  put_l2cap (channel_connected l chan_id)

-- channels.remove: the first that is equal, or ValueError
unfoldable pub remove_first : List ℕ → ℕ → List ℕ
remove_first [] chan_id = []
remove_first (c ∷ channels) chan_id =
    let rest = remove_first channels chan_id in if c == chan_id then channels else c ∷ rest

unfoldable pub channel_removed : L2cap → ℕ → Result L2cap
unfolding has_channel remove_first
channel_removed l chan_id =
    if has_channel l.channels chan_id
    then ok (record l { channels = remove_first l.channels chan_id })
    else err value_error

abbrev pub l2cap_result_str : Dict ℕ String
l2cap_result_str =
    (0, "Connection successful")
    ∷ (2, "LE_PSM not supported")
    ∷ (4, "Insufficient Resources")
    ∷ (5, "insufficient authentication")
    ∷ (6, "insufficient authorization")
    ∷ (7, "insufficient encryption key size")
    ∷ (8, "insufficient encryption")
    ∷ (9, "Invalid Source CID")
    ∷ (10, "Source CID already allocated")
    ∷ []

unfoldable pub result_str : ℕ → Result String
unfolding Dict.get
result_str res = elim (Dict.get l2cap_result_str res) [ none ↦ err key_error | some s ↦ ok s ]

abbrev str_of : Result String → Result Verify
str_of (ok s) = ok (Verify.str s)
str_of (err e) = err e

abbrev pub raise_if : Bool → Result (Unit {0})
raise_if true = err btp_error
raise_if false = ok tt

-- `if store:` the verify values are cleared, then the item is added
unfoldable pub store_value : Bool → Result Verify → Btp (Unit {0})
store_value false item = pure tt
store_value true item = do
  l ← the_l2cap
  put_l2cap (clear_verify_values l)
  val ← lift item
  put_l2cap (add_verify_values (clear_verify_values l) val)

unfoldable pub l2cap_disconnected_ev : ℕ → Bool → Btp (Unit {0})
unfolding l2cap_frame h_b_h_b_6s channel_removed result_str store_value
l2cap_disconnected_ev exp_chan_id store = do
  tuple_data ← l2cap_frame (some Ops.l2cap_ev_disconnected)
  (res, (chan_id, psm, bd_addr_type, bd_addr)) ← lift (unpack_from h_b_h_b_6s tuple_data)
  l ← the_l2cap
  l ← lift (channel_removed l chan_id)
  put_l2cap l
  lift (raise_if (not (chan_id == exp_chan_id)))
  store_value store (str_of (result_str res))

-- None and 0 are not compared
abbrev wrong_chan : Option ℕ → ℕ → Bool
wrong_chan none rcv = false
wrong_chan (some chan_id) rcv = not (chan_id == 0) && not (chan_id == rcv)

unfoldable pub l2cap_data_rcv_ev : Option ℕ → Bool → Btp (Unit {0})
unfolding l2cap_frame raw store_value
l2cap_data_rcv_ev chan_id store = do
  tuple_data ← l2cap_frame (some Ops.l2cap_ev_data_received)
  (rcv_chan_id, data_len) ← lift (unpack_from b_h tuple_data)
  dat ← lift (unpack_from_at (raw data_len) tuple_data 3)
  lift (raise_if (wrong_chan chan_id rcv_chan_id))
  store_value store (ok (Verify.digits (hexlify dat)))
