-- ===== src/Commands/Gattc/Values.antt =====
-- The GATT client commands of pybtp/btp.py that read and write values.
use btptester_core.Prelude.{
  ℕ, zero, suc, ◌+◌, Bool, not, ◌&&◌, Option, none, some, List, [], ◌∷◌, ◌++◌, Bytes, Text, text_eq,
  length, ◌==◌, if◌then◌else◌,
}
use btptester_core.Result
use btptester_core.Result.{Result, ok, type_error, index_error}
use btptester_core.Struct.{pack_u16, to_byte}
use btptester_core.Hex.{join}
use btptester_core.Address.{BleAddress, ble_bytes}
use btptester_core.GattDb.Handles.{Handle}
use btptester_core.Exec.{pure, lift, ◌>>=◌, ◌>>◌}
use btptester_core.Worker.{Btp}
use btptester_core.Commands.Args.{Val, str_val, hdl_int, hdl_ba, multiply, val_ba, encoded_val_ba}
use btptester_core.Commands.Gap.{gap_wait_for_connection}
use btptester_core.Commands.Gatts.{gatt_command_rsp_succ}
use btptester_core.Commands.Gattc.{the_gatt, send_gattc, hdl_differs}

unfoldable pub gattc_read : BleAddress → Handle → Btp (Unit {0})
unfolding gap_wait_for_connection
gattc_read bd_addr hdl = do
  gap_wait_for_connection
  data_ba ← lift (ble_bytes bd_addr)
  h ← lift (hdl_ba hdl)
  send_gattc "read" (data_ba ++ h)

-- `if modif_off: off += modif_off`
abbrev pub plus : ℕ → Option ℕ → ℕ
plus off none = off
plus off (some m) = off + m

unfoldable pub gattc_read_long : BleAddress → Handle → Handle → Option ℕ → Btp (Unit {0})
unfolding gap_wait_for_connection
gattc_read_long bd_addr hdl off modif_off = do
  gap_wait_for_connection
  data_ba ← lift (ble_bytes bd_addr)
  o ← lift (hdl_int off)
  h ← lift (hdl_int hdl)
  hdl_ba ← lift (pack_u16 h)
  off_ba ← lift (pack_u16 (plus o modif_off))
  send_gattc "read_long" (data_ba ++ hdl_ba ++ off_ba)

-- The two halves of each group of four digits swapped; a last half alone is dropped.
unfoldable pub swap_halves : Text → Text
swap_halves (a ∷ b ∷ c ∷ d ∷ s) = c ∷ d ∷ a ∷ b ∷ swap_halves s
swap_halves (a ∷ b ∷ c ∷ []) = c ∷ a ∷ b ∷ []
swap_halves _ = []

unfoldable pub gattc_read_multiple : BleAddress → List Text → Btp (Unit {0})
unfolding gap_wait_for_connection swap_halves val_ba
gattc_read_multiple bd_addr hdls = do
  gap_wait_for_connection
  data_ba ← lift (ble_bytes bd_addr)
  hdls_ba ← lift (val_ba (str_val (swap_halves (join hdls))))
  n ← lift (to_byte (length hdls))
  send_gattc "read_multiple" (data_ba ++ n ++ hdls_ba)

-- The payload of a write; `to_ba` makes bytes of the value.
unfoldable pub write_ba : (Val → Result Bytes) → BleAddress → Handle → Val → Option ℕ → Result Bytes
unfolding hdl_int multiply
write_ba to_ba bd_addr hdl val val_mtp = Result.◌>>=◌ (hdl_int hdl) λ h.
    Result.◌>>=◌ (ble_bytes bd_addr) λ data_ba. Result.◌>>=◌ (pack_u16 h) λ hdl_ba.
      Result.◌>>=◌ (to_ba (multiply val_mtp val)) λ v.
        Result.◌>>=◌ (pack_u16 (length v)) λ val_len_ba. ok (data_ba ++ hdl_ba ++ val_len_ba ++ v)

unfoldable pub gattc_write_without_rsp : BleAddress → Handle → Val → Option ℕ → Btp (Unit {0})
unfolding gap_wait_for_connection write_ba gatt_command_rsp_succ
gattc_write_without_rsp bd_addr hdl val val_mtp = do
  gap_wait_for_connection
  data_ba ← lift (write_ba val_ba bd_addr hdl val val_mtp)
  send_gattc "write_without_rsp" data_ba
  gatt_command_rsp_succ

unfoldable pub gattc_signed_write : BleAddress → Handle → Val → Option ℕ → Btp (Unit {0})
unfolding gap_wait_for_connection write_ba gatt_command_rsp_succ
gattc_signed_write bd_addr hdl val val_mtp = do
  gap_wait_for_connection
  data_ba ← lift (write_ba val_ba bd_addr hdl val val_mtp)
  send_gattc "signed_write" data_ba
  gatt_command_rsp_succ

unfoldable pub gattc_write : BleAddress → Handle → Val → Option ℕ → Btp (Unit {0})
unfolding gap_wait_for_connection write_ba
gattc_write bd_addr hdl val val_mtp = do
  gap_wait_for_connection
  data_ba ← lift (write_ba encoded_val_ba bd_addr hdl val val_mtp)
  send_gattc "write" data_ba

-- `off` is a number or a text of digits, like a handle
unfoldable pub gattc_write_long : BleAddress → Handle → Handle → Val → Option ℕ → Btp (Unit {0})
unfolding gap_wait_for_connection hdl_int multiply encoded_val_ba
gattc_write_long bd_addr hdl off val len = do
  gap_wait_for_connection
  h ← lift (hdl_int hdl)
  o ← lift (hdl_int off)
  hdl_ba ← lift (pack_u16 h)
  off_ba ← lift (pack_u16 o)
  v ← lift (encoded_val_ba (multiply len val))
  val_len_ba ← lift (pack_u16 (length v))
  data_ba ← lift (ble_bytes bd_addr)
  send_gattc "write_long" (data_ba ++ hdl_ba ++ off_ba ++ val_len_ba ++ v)

-- handles, properties and UUID, each given or not
abbrev pub ExpChrc : Type 0
ExpChrc = Option Handle × Option Handle × Option ℕ × Option Text

abbrev is_given : Option Text → Bool
is_given none = Bool.false
is_given (some s) = not (text_eq s [])

-- The test of the loop has `(…)(…)` where an `and` is missing: behind two handles that differ it
-- calls a value, or first looks for a fourth field that a service does not have.
unfoldable pub chrc_passes : ExpChrc → Handle × Handle × Text → Result (Unit {0})
unfolding hdl_differs
chrc_passes (hdl, val_hdl, prop, uuid) (s, e, u) =
    if hdl_differs hdl s && hdl_differs val_hdl e
    then (if is_given uuid then Result.err index_error else Result.err type_error)
    else ok tt

abbrev val_hdl_of : Handle × Handle × Text → Handle
val_hdl_of (s, e, u) = e

unfoldable pub read_nth : BleAddress → ExpChrc → ℕ → List (Handle × Handle × Text) → Btp (Unit {0})
unfolding chrc_passes gattc_read
read_nth bd_addr exp char_nb [] = pure tt
read_nth bd_addr exp zero (c ∷ svcs) = do lift (chrc_passes exp c); read_nth bd_addr exp zero svcs
read_nth bd_addr exp (suc n) (c ∷ svcs) = do
  lift (chrc_passes exp c)
  if n == 0 then gattc_read bd_addr (val_hdl_of c) else read_nth bd_addr exp n svcs

unfoldable pub gattc_read_char_val : BleAddress → ExpChrc × ℕ → Btp (Unit {0})
unfolding read_nth
gattc_read_char_val bd_addr (exp, char_nb) = do
  gatt ← the_gatt
  read_nth bd_addr exp char_nb gatt.svcs
