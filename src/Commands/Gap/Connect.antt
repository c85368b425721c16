-- ===== src/Commands/Gap/Connect.antt =====
-- The GAP commands that carry an address.
use btptester_core.Prelude.{ℕ, Bool, none, some, [], ◌∷◌, ◌++◌, Bytes, String, if◌then◌else◌}
use Prim.Native.Nat.{bit_or}
use btptester_core.Struct.{pack_u16, to_byte}
use btptester_core.Defs.Gap
use btptester_core.Address.{BleAddress, ble_bytes}
use btptester_core.Gap.{is_connected}
use btptester_core.Stack.{passkey_confirm_cb}
use btptester_core.Exec.{pure, lift, modify, ◌>>=◌, ◌>>◌}
use btptester_core.Worker.{Btp, send_from}
use btptester_core.Commands.Table.{bytes, text}
use btptester_core.Commands.Table.Gap.{gap}
use btptester_core.Commands.Response.{gap_command_rsp_succ}
use btptester_core.Commands.Gap.{the_gap, update_from_rsp}

-- Sends a payload with a command of the table and checks the opcode of the response.
unfoldable pub address_command : String → ℕ → Bytes → Btp (Unit {0})
address_command key op data_ba = do
  send_from gap key (some (bytes data_ba))
  _ ← gap_command_rsp_succ (some op)
  pure tt

unfoldable pub gap_conn : BleAddress → ℕ → Btp (Unit {0})
unfolding address_command
gap_conn bd_addr own_addr_type = do
  data_ba ← lift (ble_bytes bd_addr)
  own ← lift (to_byte own_addr_type)
  address_command "conn" Gap.gap_connect (data_ba ++ own)

unfoldable pub gap_disconn : BleAddress → Btp (Unit {0})
unfolding address_command
gap_disconn bd_addr = do
  g ← the_gap
  if is_connected g none
      then (do
        data_ba ← lift (ble_bytes bd_addr)
        address_command "disconn" Gap.gap_disconnect data_ba)
      else pure tt

-- The number goes out as the UTF-8 of one character.
unfoldable pub gap_set_io_cap : ℕ → Btp (Unit {0})
gap_set_io_cap io_cap = do
  send_from gap "set_io_cap" (some (text (io_cap ∷ [])))
  _ ← gap_command_rsp_succ (some Gap.gap_set_io_cap)
  pure tt

unfoldable pub gap_pair : BleAddress → Btp (Unit {0})
unfolding address_command
gap_pair bd_addr = do
  data_ba ← lift (ble_bytes bd_addr)
  address_command "pair" Gap.gap_pair data_ba

unfoldable pub gap_unpair : BleAddress → Btp (Unit {0})
unfolding address_command
gap_unpair bd_addr = do
  data_ba ← lift (ble_bytes bd_addr)
  address_command "unpair" Gap.gap_unpair data_ba

unfoldable pub gap_passkey_confirm : BleAddress → ℕ → Btp (Unit {0})
unfolding address_command passkey_confirm_cb
gap_passkey_confirm bd_addr match = do
  data_ba ← lift (ble_bytes bd_addr)
  m ← lift (to_byte match)
  address_command "passkey_confirm" Gap.gap_passkey_confirm (data_ba ++ m)
  modify (λ w. record w { stack = passkey_confirm_cb w.stack bd_addr match })

unfoldable pub gap_conn_param_update : BleAddress → ℕ → ℕ → ℕ → ℕ → Btp (Unit {0})
unfolding address_command
gap_conn_param_update addr conn_itvl_min conn_itvl_max conn_latency supervision_timeout = do
  data_ba ← lift (ble_bytes addr)
  itvl_min ← lift (pack_u16 conn_itvl_min)
  itvl_max ← lift (pack_u16 conn_itvl_max)
  latency ← lift (pack_u16 conn_latency)
  timeout ← lift (pack_u16 supervision_timeout)
  address_command "conn_param_update" Gap.gap_conn_param_update
      (data_ba ++ itvl_min ++ itvl_max ++ latency ++ timeout)

-- opts, by `|=`
unfoldable pub gap_start_direct_adv : BleAddress → Bool → Bool → Btp (Unit {0})
gap_start_direct_adv addr high_duty peer_rpa = do
  data_ba ← lift (ble_bytes addr)
  let hd : ℕ = if high_duty then Gap.gap_start_direct_adv_hd else 0
  let rpa : ℕ = if peer_rpa then Gap.gap_start_direct_adv_peer_rpa else 0
  opts ← lift (pack_u16 (bit_or hd rpa))
  send_from gap "start_direct_adv" (some (bytes (data_ba ++ opts)))
  tuple_data ← gap_command_rsp_succ (some Gap.gap_start_direct_adv)
  update_from_rsp tuple_data
