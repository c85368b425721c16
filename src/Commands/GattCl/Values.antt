-- ===== src/Commands/GattCl/Values.antt =====
-- The commands of the GATT client service that read and write values.
use btptester_core.Prelude.{ℕ, Option, some, ◌++◌, Bytes, length}
use btptester_core.Result.{Result, type_error}
use btptester_core.Struct.{pack_u16}
use btptester_core.Hex.{fromhex}
use btptester_core.Address.{BleAddress, ble_bytes}
use btptester_core.GattCl.{Awaited, read_complete, write_completed}
use btptester_core.GattDb.Handles.{Handle}
use btptester_core.Exec.{lift, ◌>>=◌, ◌>>◌}
use btptester_core.Worker.{Btp, send_from}
use btptester_core.Commands.Table.{bytes}
use btptester_core.Commands.Table.GattCl.{gatt_cl}
use btptester_core.Commands.Args.{Val, str_val, bytes_val, hdl_int, hdl_ba, multiply, any_val_ba}
use btptester_core.Commands.Gap.{gap_wait_for_connection}
use btptester_core.Commands.GattCl.{update_gatt_cl, gatt_cl_command_rsp_succ}
use btptester_core.Commands.Gattc.Values.{plus}

unfoldable pub set_event_to_await : Awaited → Btp (Unit {0})
set_event_to_await event = update_gatt_cl (λ c. record c { event_to_await = some event })

unfoldable pub gatt_cl_read : BleAddress → Handle → Btp (Unit {0})
unfolding gap_wait_for_connection set_event_to_await gatt_cl_command_rsp_succ
gatt_cl_read bd_addr hdl = do
  gap_wait_for_connection
  data_ba ← lift (ble_bytes bd_addr)
  h ← lift (hdl_ba hdl)
  send_from gatt_cl "read" (some (bytes (data_ba ++ h)))
  set_event_to_await read_complete
  gatt_cl_command_rsp_succ

unfoldable pub gatt_cl_read_long : BleAddress → Handle → Handle → Option ℕ → Btp (Unit {0})
unfolding gap_wait_for_connection set_event_to_await gatt_cl_command_rsp_succ
gatt_cl_read_long bd_addr hdl off modif_off = do
  gap_wait_for_connection
  data_ba ← lift (ble_bytes bd_addr)
  o ← lift (hdl_int off)
  h ← lift (hdl_int hdl)
  hdl_ba ← lift (pack_u16 h)
  off_ba ← lift (pack_u16 (plus o modif_off))
  send_from gatt_cl "read_long" (some (bytes (data_ba ++ hdl_ba ++ off_ba)))
  set_event_to_await read_complete
  gatt_cl_command_rsp_succ

unfoldable pub gatt_cl_write : BleAddress → Handle → Val → Option ℕ → Btp (Unit {0})
unfolding gap_wait_for_connection hdl_int any_val_ba multiply set_event_to_await
    gatt_cl_command_rsp_succ
gatt_cl_write bd_addr hdl val val_mtp = do
  gap_wait_for_connection
  data_ba ← lift (ble_bytes bd_addr)
  h ← lift (hdl_int hdl)
  hdl_ba ← lift (pack_u16 h)
  v ← lift (any_val_ba (multiply val_mtp val))
  val_len_ba ← lift (pack_u16 (length v))
  send_from gatt_cl "write" (some (bytes (data_ba ++ hdl_ba ++ val_len_ba ++ v)))
  set_event_to_await write_completed
  gatt_cl_command_rsp_succ

-- bytes.fromhex takes a text
unfoldable pub from_val : Val → Result Bytes
unfolding fromhex
from_val (str_val s) = fromhex s
from_val (bytes_val s) = Result.err type_error

unfoldable pub gatt_cl_write_long : BleAddress → Handle → Handle → Val → Option ℕ → Btp (Unit {0})
unfolding gap_wait_for_connection hdl_int from_val multiply set_event_to_await
    gatt_cl_command_rsp_succ
gatt_cl_write_long bd_addr hdl off val len = do
  gap_wait_for_connection
  h ← lift (hdl_int hdl)
  o ← lift (hdl_int off)
  hdl_ba ← lift (pack_u16 h)
  off_ba ← lift (pack_u16 o)
  v ← lift (from_val (multiply len val))
  val_len_ba ← lift (pack_u16 (length v))
  data_ba ← lift (ble_bytes bd_addr)
  send_from gatt_cl "write_long" (some (bytes (data_ba ++ hdl_ba ++ off_ba ++ val_len_ba ++ v)))
  set_event_to_await write_completed
  gatt_cl_command_rsp_succ
