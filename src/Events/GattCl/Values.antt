-- ===== src/Events/GattCl/Values.antt =====
-- The GATT client events that carry values: reads, writes and notifications.
use btptester_core.Prelude.{
  ℕ, none, some, [], ◌∷◌, ◌++◌, String, Bytes, take, drop, ◌==◌, if◌then◌else◌,
}
use btptester_core.Result.{Result, ok, err, key_error}
use btptester_core.Struct.{raw, unpack_from}
use btptester_core.Struct.Formats.{b_6s_b, b_6s_b_h, b_6s_b_h_h}
use btptester_core.Hex.{hexlify, upper}
use btptester_core.Address.{ble_from_wire}
use btptester_core.Dict
use btptester_core.Dict.{Dict, nat_eq}
use btptester_core.GattCl.{Verify, str, digits}
use btptester_core.Stack.{Stack}
use btptester_core.Exec.{Exec, pure, lift, ◌>>=◌, ◌>>◌}
use btptester_core.Events.Args.{Handler, nothing}
use btptester_core.Events.GattCl.{the_gatt_cl, put_gatt_cl}

-- att_rsp_str
abbrev pub att_rsp_str : Dict ℕ String
att_rsp_str =
    (0, "No error")
    ∷ (1, "Invalid handle error")
    ∷ (2, "read is not permitted error")
    ∷ (3, "write is not permitted error")
    ∷ (5, "authentication error")
    ∷ (6, "request not supported")
    ∷ (7, "Invalid offset error")
    ∷ (8, "authorization error")
    ∷ (12, "encryption key size error")
    ∷ (13, "Invalid attribute value length error")
    ∷ (17, "Insufficient resources")
    ∷ (128, "Application error")
    ∷ []

-- att_rsp_str[status]
unfoldable pub att_rsp : ℕ → Result String
att_rsp status = elim (Dict.get att_rsp_str status) [ none ↦ err key_error | some s ↦ ok s ]

-- `clear_verify_values(stack)` and `add_to_verify_values(stack, item)`
abbrev pub clear_verify_values : Exec Stack (Unit {0})
clear_verify_values = do c ← the_gatt_cl; put_gatt_cl (record c { verify_values = [] })

abbrev pub add_to_verify_values : Verify → Exec Stack (Unit {0})
add_to_verify_values item = do
  c ← the_gatt_cl
  put_gatt_cl (record c { verify_values = c.verify_values ++ item ∷ [] })

unfoldable pub gatt_cl_read_rsp_ev_ : Bytes → Handler
gatt_cl_read_rsp_ev_ dat = do
  (addr_type, addr, status, data_length) ← lift (unpack_from b_6s_b_h (take 10 dat))
  clear_verify_values
  if data_length == 0 then pure nothing else do
    value ← lift (unpack_from (raw data_length) (drop 10 dat))
    rsp ← lift (att_rsp status)
    add_to_verify_values (str rsp)
    add_to_verify_values (digits (upper (hexlify value)))
    pure nothing

unfoldable pub gatt_cl_read_long_rsp_ev_ : Bytes → Handler
gatt_cl_read_long_rsp_ev_ dat = do
  (addr_type, addr, status, data_length) ← lift (unpack_from b_6s_b_h (take 10 dat))
  value ← lift (unpack_from (raw data_length) (drop 10 dat))
  clear_verify_values
  rsp ← lift (att_rsp status)
  add_to_verify_values (str rsp)
  add_to_verify_values (digits (upper (hexlify value)))
  pure nothing

unfoldable pub gatt_cl_write_rsp_ev_ : Bytes → Handler
gatt_cl_write_rsp_ev_ dat = do
  (addr_type, addr, status) ← lift (unpack_from b_6s_b (take 8 dat))
  c ← the_gatt_cl
  put_gatt_cl (record c { write_status = some status })
  clear_verify_values
  rsp ← lift (att_rsp status)
  add_to_verify_values (str rsp)
  pure nothing

-- the digits are those of all that follows the header
unfoldable pub gatt_cl_notification_rxed_ev_ : Bytes → Handler
gatt_cl_notification_rxed_ev_ dat = do
  (addr_type, addr, type, handle, data_length) ← lift (unpack_from b_6s_b_h_h (take 12 dat))
  if data_length == 0 then pure nothing else do
    let notification_data = upper (hexlify (drop 12 dat))
    let ble_addr = ble_from_wire addr_type addr
    c ← the_gatt_cl
    put_gatt_cl (record c {
      notifications = c.notifications ++ (ble_addr, type, handle, notification_data) ∷ [];
    })
    pure nothing
