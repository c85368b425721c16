-- ===== src/Events/Gatt.antt =====
-- The GATT event handlers of pybtp/btp.py and the payloads that they read.
use btptester_core.Prelude.{ℕ, Bytes}
use btptester_core.Result.{Result, ok, ◌>>=◌}
use btptester_core.Struct
use btptester_core.Struct.{Reader, u16, raw, pure, unpack_from, unpack_from_at}
use btptester_core.Struct.Formats.{b_6s_b_h_h}
use btptester_core.Hex.{hexlify, upper}
use btptester_core.Address.{ble_from_wire}
use btptester_core.Exec.{lift}
use btptester_core.Events.Args.{EvArgs, Handler, notification, value_changed}

-- '<HH'
abbrev h_h : Reader (ℕ × ℕ)
h_h = Struct.◌>>=◌ u16 λ a. Struct.◌>>=◌ u16 λ b. pure (a, b)

unfoldable pub gatts_dec_attr_value_changed_ev_data : Bytes → Result (ℕ × Bytes)
gatts_dec_attr_value_changed_ev_data frame = do
  (handle, data_len) ← unpack_from h_h frame
  dat ← unpack_from_at (raw data_len) frame 4
  ok (handle, dat)

unfoldable pub gattc_dec_notification_ev_data : Bytes → Result EvArgs
gattc_dec_notification_ev_data frame = do
  (addr_type, addr, type, handle, data_len) ← unpack_from b_6s_b_h_h frame
  dat ← unpack_from_at (raw data_len) frame 12
  ok (notification (ble_from_wire addr_type addr) type handle (upper (hexlify dat)))

unfoldable pub gattc_notification_ev_ : Bytes → Handler
unfolding gattc_dec_notification_ev_data
gattc_notification_ev_ dat = lift (gattc_dec_notification_ev_data dat)

unfoldable pub gatts_attr_value_changed_ev_ : Bytes → Handler
unfolding gatts_dec_attr_value_changed_ev_data
gatts_attr_value_changed_ev_ dat = lift (do
  (handle, value) ← gatts_dec_attr_value_changed_ev_data dat
  ok (value_changed handle (upper (hexlify value))))
