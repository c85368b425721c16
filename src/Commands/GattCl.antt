-- ===== src/Commands/GattCl.antt =====
-- The commands of the GATT client service (`gatt_cl_…` of pybtp/btp.py).
pub mod Values
use btptester_core.Prelude.{
  ℕ, Bool, Option, none, some, List, [], ◌∷◌, ◌++◌, Bytes, Text, String, length, leb, if◌then◌else◌,
}
use btptester_core.Result
use btptester_core.Result.{Result, ok, value_error, attribute_error}
use btptester_core.Struct.{pack_u16, to_byte}
use btptester_core.Hex.{remove_char}
use btptester_core.Uuid.{uuid2btp}
use btptester_core.Defs.Core.{btp_service_id_gattc}
use btptester_core.Address.{BleAddress, ble_bytes}
use btptester_core.GattCl.{GattCl}
use btptester_core.GattDb.Handles.{Handle}
use btptester_core.Exec.{pure, raise, lift, of_option, modify, ◌>>=◌, ◌>>◌}
use btptester_core.Worker.{Btp, send_from, read, utf8}
use btptester_core.Commands.Table.{bytes}
use btptester_core.Commands.Table.GattCl.{gatt_cl}
use btptester_core.Commands.Response.{btp_hdr_check}
use btptester_core.Commands.Args.{hdl_int, hdl_ba, strip_0x}
use btptester_core.Commands.Gap.{gap_wait_for_connection}
use btptester_core.Commands.Gattc.{ExpSvc, range_ba}

unfoldable pub gatt_cl_command_rsp_succ : Btp (Unit {0})
gatt_cl_command_rsp_succ = do
  (tuple_hdr, tuple_data) ← read
  lift (btp_hdr_check tuple_hdr btp_service_id_gattc none)
  pure tt

-- a command of the table, and its response
unfoldable pub gatt_cl_command : String → Bytes → Btp (Unit {0})
unfolding gatt_cl_command_rsp_succ
gatt_cl_command key data_ba = do
  send_from gatt_cl key (some (bytes data_ba))
  gatt_cl_command_rsp_succ

-- a change of `stack.gatt_cl`: AttributeError while it is None
abbrev pub update_gatt_cl : (GattCl → GattCl) → Btp (Unit {0})
update_gatt_cl f = do
  c ← λ w. of_option w.stack.gatt_cl w
  modify (λ w. record w { stack = record w.stack { gatt_cl = some (f c) } })

unfoldable pub gatt_cl_disc_prim_svcs : BleAddress → Btp (Unit {0})
unfolding gap_wait_for_connection gatt_cl_command
gatt_cl_disc_prim_svcs bd_addr = do
  gap_wait_for_connection
  data_ba ← lift (ble_bytes bd_addr)
  gatt_cl_command "disc_prim_svcs" data_ba

unfoldable pub gatt_cl_disc_prim_uuid : BleAddress → Text → Btp (Unit {0})
unfolding gap_wait_for_connection gatt_cl_command
gatt_cl_disc_prim_uuid bd_addr uuid = do
  gap_wait_for_connection
  data_ba ← lift (ble_bytes bd_addr)
  uuid_ba ← lift (uuid2btp uuid)
  n ← lift (to_byte (length uuid_ba))
  gatt_cl_command "disc_prim_uuid" (data_ba ++ n ++ uuid_ba)

-- both handles as numbers, the end handle first; then the address; then both packed
unfoldable pub end_first_ba : BleAddress → Handle → Handle → Result Bytes
unfolding hdl_int
end_first_ba bd_addr start_hdl end_hdl = Result.◌>>=◌ (hdl_int end_hdl) λ end.
    Result.◌>>=◌ (hdl_int start_hdl) λ start. Result.◌>>=◌ (ble_bytes bd_addr) λ data_ba.
      Result.◌>>=◌ (pack_u16 start) λ start_hdl_ba.
        Result.◌>>=◌ (pack_u16 end) λ end_hdl_ba. ok (data_ba ++ start_hdl_ba ++ end_hdl_ba)

unfoldable pub gatt_cl_find_included : BleAddress → Handle → Handle → Btp (Unit {0})
unfolding gap_wait_for_connection end_first_ba gatt_cl_command
gatt_cl_find_included bd_addr start_hdl end_hdl = do
  gap_wait_for_connection
  data_ba ← lift (end_first_ba bd_addr start_hdl end_hdl)
  gatt_cl_command "find_included" data_ba

-- `stack.prim_svcs` is no attribute of a stack
unfoldable pub svc_given : Option (ExpSvc × ℕ) → Btp (Unit {0})
svc_given none = pure tt
svc_given (some svc) = raise attribute_error

unfoldable pub gatt_cl_disc_all_chrc :
    BleAddress → Handle → Handle → Option (ExpSvc × ℕ) → Btp (Unit {0})
unfolding gap_wait_for_connection svc_given range_ba gatt_cl_command
gatt_cl_disc_all_chrc bd_addr start_hdl stop_hdl svc = do
  update_gatt_cl (λ c. record c { chrcs_cnt = none; chrcs = [] })
  gap_wait_for_connection
  svc_given svc
  data_ba ← lift (range_ba bd_addr start_hdl stop_hdl)
  gatt_cl_command "disc_all_chrc" data_ba

-- chr(n).encode('utf-8')
unfoldable pub chr_ba : ℕ → Result Bytes
unfolding utf8
chr_ba n = if leb n 0x10ffff then utf8 n else Result.err value_error

unfoldable pub gatt_cl_disc_chrc_uuid : BleAddress → Handle → Handle → Text → Btp (Unit {0})
unfolding gap_wait_for_connection end_first_ba strip_0x chr_ba gatt_cl_command
gatt_cl_disc_chrc_uuid bd_addr start_hdl stop_hdl uuid = do
  update_gatt_cl (λ c. record c { chrcs_cnt = none; chrcs = [] })
  gap_wait_for_connection
  data_ba ← lift (end_first_ba bd_addr start_hdl stop_hdl)
  uuid_ba ← lift (uuid2btp (strip_0x (remove_char b'-' uuid)))
  n ← lift (chr_ba (length uuid_ba))
  gatt_cl_command "disc_chrc_uuid" (data_ba ++ n ++ uuid_ba)

unfoldable pub gatt_cl_disc_all_desc : BleAddress → Handle → Handle → Btp (Unit {0})
unfolding gap_wait_for_connection range_ba gatt_cl_command
gatt_cl_disc_all_desc bd_addr start_hdl stop_hdl = do
  update_gatt_cl (λ c. record c { dscs_cnt = none; dscs = [] })
  gap_wait_for_connection
  data_ba ← lift (range_ba bd_addr start_hdl stop_hdl)
  gatt_cl_command "disc_all_desc" data_ba

-- the payload of the two commands that write a configuration descriptor
unfoldable pub ccc_ba : BleAddress → ℕ → Handle → Result Bytes
unfolding hdl_int chr_ba
ccc_ba bd_addr enable ccc_hdl = Result.◌>>=◌ (hdl_int ccc_hdl) λ hdl.
    Result.◌>>=◌ (ble_bytes bd_addr) λ data_ba.
      Result.◌>>=◌ (pack_u16 hdl)
        λ ccc_hdl_ba. Result.◌>>=◌ (chr_ba enable) λ e. ok (data_ba ++ e ++ ccc_hdl_ba)

unfoldable pub gatt_cl_cfg_notify : BleAddress → ℕ → Handle → Btp (Unit {0})
unfolding gap_wait_for_connection ccc_ba gatt_cl_command
gatt_cl_cfg_notify bd_addr enable ccc_hdl = do
  gap_wait_for_connection
  data_ba ← lift (ccc_ba bd_addr enable ccc_hdl)
  gatt_cl_command "cfg_notify" data_ba

unfoldable pub gatt_cl_cfg_indicate : BleAddress → ℕ → Handle → Btp (Unit {0})
unfolding gap_wait_for_connection ccc_ba gatt_cl_command
gatt_cl_cfg_indicate bd_addr enable ccc_hdl = do
  gap_wait_for_connection
  data_ba ← lift (ccc_ba bd_addr enable ccc_hdl)
  gatt_cl_command "cfg_indicate" data_ba
