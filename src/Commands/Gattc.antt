-- ===== src/Commands/Gattc.antt =====
-- The GATT client commands of pybtp/btp.py that discover services, and the configuration of
-- notifications.
pub mod Values
pub mod Responses
pub mod Full
pub mod Selected
pub mod Exchange
use btptester_core.Prelude.{
  ℕ, zero, suc, not, Bool, true, false, ◌&&◌, Option, none, some, List, [], ◌∷◌, ◌++◌, Bytes, Text,
  String, text_eq, length, ◌==◌, if◌then◌else◌,
}
use btptester_core.Result
use btptester_core.Result.{Result, ok, err, struct_error}
use btptester_core.Struct.{pack_u16, to_byte}
use btptester_core.Hex.{unhexlify, remove_char}
use btptester_core.Uuid.{uuid2btp}
use btptester_core.Defs.Gatt as Ops
use btptester_core.Address.{BleAddress, ble_bytes}
use btptester_core.Gatt.{Gatt}
use btptester_core.GattDb.Handles.{Handle, num, hex, handle_eq}
use btptester_core.Exec.{pure, lift, of_option, ◌>>=◌, ◌>>◌}
use btptester_core.Worker.{Btp, send_from}
use btptester_core.Commands.Table.{bytes}
use btptester_core.Commands.Table.Gattc.{gattc}
use btptester_core.Commands.Args.{hdl_int, hdl_ba, strip_0x}
use btptester_core.Commands.Gap.{gap_wait_for_connection}
use btptester_core.Commands.Gatts.{gatt_rsp}

-- `iutctl.stack.gatt`, where an attribute of it is used next
abbrev pub the_gatt : Btp Gatt
the_gatt w = of_option w.stack.gatt w

abbrev pub send_gattc : String → Bytes → Btp (Unit {0})
send_gattc key data_ba = send_from gattc key (some (bytes data_ba))

unfoldable pub gattc_exchange_mtu : BleAddress → Btp (Unit {0})
unfolding gap_wait_for_connection
gattc_exchange_mtu bd_addr = do
  gap_wait_for_connection
  data_ba ← lift (ble_bytes bd_addr)
  send_gattc "exchange_mtu" data_ba

unfoldable pub gattc_disc_prim_svcs : BleAddress → Btp (Unit {0})
unfolding gap_wait_for_connection
gattc_disc_prim_svcs bd_addr = do
  gap_wait_for_connection
  data_ba ← lift (ble_bytes bd_addr)
  send_gattc "disc_prim_svcs" data_ba

unfoldable pub gattc_disc_prim_uuid : BleAddress → Text → Btp (Unit {0})
unfolding gap_wait_for_connection
gattc_disc_prim_uuid bd_addr uuid = do
  gap_wait_for_connection
  data_ba ← lift (ble_bytes bd_addr)
  uuid_ba ← lift (uuid2btp uuid)
  n ← lift (to_byte (length uuid_ba))
  send_gattc "disc_prim_uuid" (data_ba ++ n ++ uuid_ba)

-- A handle that may be None is left alone by `int`, and refused by `struct.pack`.
unfoldable pub opt_int : Option Handle → Result (Option ℕ)
unfolding hdl_int
opt_int none = ok none
opt_int (some hdl) = Result.◌>>=◌ (hdl_int hdl) λ n. ok (some n)

unfoldable pub pack_opt : Option ℕ → Result Bytes
pack_opt none = err struct_error
pack_opt (some n) = pack_u16 n

unfoldable pub gattc_find_included : BleAddress → Handle → Option Handle → Btp (Unit {0})
unfolding gap_wait_for_connection opt_int pack_opt
gattc_find_included bd_addr start_hdl stop_hdl = do
  gap_wait_for_connection
  stop ← lift (opt_int stop_hdl)
  start ← lift (hdl_int start_hdl)
  data_ba ← lift (ble_bytes bd_addr)
  start_hdl_ba ← lift (pack_u16 start)
  stop_hdl_ba ← lift (pack_opt stop)
  send_gattc "find_included" (data_ba ++ start_hdl_ba ++ stop_hdl_ba)

-- `exp and exp != got`, where None, 0 and the empty text count as no expectation
unfoldable pub hdl_differs : Option Handle → Handle → Bool
unfolding handle_eq
hdl_differs none hdl = false
hdl_differs (some (num n)) hdl = not (n == 0) && not (handle_eq (num n) hdl)
hdl_differs (some (hex s)) hdl = not (text_eq s []) && not (handle_eq (hex s) hdl)

unfoldable pub text_differs : Option Text → Text → Bool
text_differs none s = false
text_differs (some t) s = not (text_eq t []) && not (text_eq t s)

-- start handle, end handle and UUID, each given or not
abbrev pub ExpSvc : Type 0
ExpSvc = Option Handle × Option Handle × Option Text

-- A service is passed over only if all three differ.
unfoldable pub passes : ExpSvc → Handle × Handle × Text → Bool
unfolding hdl_differs text_differs
passes (start, end, uuid) (s, e, u) =
    not (hdl_differs start s && (hdl_differs end e && text_differs uuid u))

-- The n-th service that passes, counted from 1.
unfoldable pub nth_svc :
    ExpSvc → ℕ → List (Handle × Handle × Text) → Option (Handle × Handle × Text)
unfolding passes
nth_svc exp svc_nb [] = none
nth_svc exp zero (s ∷ svcs) = none
nth_svc exp (suc n) (s ∷ svcs) =
    let next = nth_svc exp n svcs in
    let same = nth_svc exp (suc n) svcs in
    if passes exp s then (if n == 0 then some s else next) else same

abbrev pub range_of : Handle → Handle → Option (Handle × Handle × Text) → Handle × Handle
range_of start_hdl stop_hdl none = (start_hdl, stop_hdl)
range_of start_hdl stop_hdl (some (s, e, u)) = (s, e)

-- the handles to search: those that are given, or those of a service that is stored
unfoldable pub search_range : Handle → Handle → Option (ExpSvc × ℕ) → Btp (Handle × Handle)
unfolding nth_svc
search_range start_hdl stop_hdl none = pure (start_hdl, stop_hdl)
search_range start_hdl stop_hdl (some (exp, svc_nb)) = do
  gatt ← the_gatt
  pure (range_of start_hdl stop_hdl (nth_svc exp svc_nb gatt.svcs))

-- both handles as numbers, the start handle first; then the address; then both packed
unfoldable pub range_ba : BleAddress → Handle → Handle → Result Bytes
unfolding hdl_int
range_ba bd_addr start_hdl stop_hdl = Result.◌>>=◌ (hdl_int start_hdl) λ start.
    Result.◌>>=◌ (hdl_int stop_hdl) λ stop. Result.◌>>=◌ (ble_bytes bd_addr) λ data_ba.
      Result.◌>>=◌ (pack_u16 start) λ start_hdl_ba.
        Result.◌>>=◌ (pack_u16 stop) λ stop_hdl_ba. ok (data_ba ++ start_hdl_ba ++ stop_hdl_ba)

unfoldable pub gattc_disc_all_chrc :
    BleAddress → Handle → Handle → Option (ExpSvc × ℕ) → Btp (Unit {0})
unfolding gap_wait_for_connection search_range range_ba
gattc_disc_all_chrc bd_addr start_hdl stop_hdl svc = do
  gap_wait_for_connection
  (start, stop) ← search_range start_hdl stop_hdl svc
  data_ba ← lift (range_ba bd_addr start stop)
  send_gattc "disc_all_chrc" data_ba

unfoldable pub gattc_disc_chrc_uuid : BleAddress → Handle → Handle → Text → Btp (Unit {0})
unfolding gap_wait_for_connection strip_0x
gattc_disc_chrc_uuid bd_addr start_hdl stop_hdl uuid = do
  gap_wait_for_connection
  stop ← lift (hdl_int stop_hdl)
  start ← lift (hdl_int start_hdl)
  data_ba ← lift (ble_bytes bd_addr)
  start_hdl_ba ← lift (pack_u16 start)
  stop_hdl_ba ← lift (pack_u16 stop)
  uuid_ba ← lift (uuid2btp (strip_0x (remove_char b'-' uuid)))
  n ← lift (to_byte (length uuid_ba))
  send_gattc "disc_chrc_uuid" (data_ba ++ start_hdl_ba ++ stop_hdl_ba ++ n ++ uuid_ba)

unfoldable pub gattc_disc_all_desc : BleAddress → Handle → Handle → Btp (Unit {0})
unfolding gap_wait_for_connection range_ba
gattc_disc_all_desc bd_addr start_hdl stop_hdl = do
  gap_wait_for_connection
  data_ba ← lift (range_ba bd_addr start_hdl stop_hdl)
  send_gattc "disc_all_desc" data_ba

-- the payload of the two commands that write a configuration descriptor
unfoldable pub cfg_ba : BleAddress → ℕ → Handle → Result Bytes
unfolding hdl_ba
cfg_ba bd_addr enable ccc_hdl = Result.◌>>=◌ (hdl_ba ccc_hdl) λ ccc_hdl_ba.
    Result.◌>>=◌ (ble_bytes bd_addr)
      λ data_ba. Result.◌>>=◌ (to_byte enable) λ e. ok (data_ba ++ e ++ ccc_hdl_ba)

unfoldable pub gattc_cfg_notify : BleAddress → ℕ → Handle → Btp (Unit {0})
unfolding gap_wait_for_connection cfg_ba gatt_rsp
gattc_cfg_notify bd_addr enable ccc_hdl = do
  gap_wait_for_connection
  data_ba ← lift (cfg_ba bd_addr enable ccc_hdl)
  send_gattc "cfg_notify" data_ba
  _ ← gatt_rsp (some Ops.gatt_cfg_notify)
  pure tt

unfoldable pub gattc_cfg_indicate : BleAddress → ℕ → Handle → Btp (Unit {0})
unfolding cfg_ba gatt_rsp
gattc_cfg_indicate bd_addr enable ccc_hdl = do
  data_ba ← lift (cfg_ba bd_addr enable ccc_hdl)
  send_gattc "cfg_indicate" data_ba
  _ ← gatt_rsp (some Ops.gatt_cfg_indicate)
  pure tt
