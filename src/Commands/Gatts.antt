-- ===== src/Commands/Gatts.antt =====
-- The GATT server commands of pybtp/btp.py.
pub mod Decode
pub mod Attributes
pub mod Wire
use btptester_core.Prelude.{
  ℕ, ◌+◌, Bool, Option, none, some, List, [], ◌∷◌, ◌++◌, Bytes, Text, String, length,
}
use btptester_core.Result.{Result, ok, err}
use btptester_core.Struct.{pack_u16, to_byte, u16, unpack}
use btptester_core.Uuid.{uuid2btp}
use btptester_core.Parser.{Header}
use btptester_core.Defs.Gatt
use btptester_core.Defs.Core.{btp_service_id_gatt}
use btptester_core.GattDb.Handles.{Handle}
use btptester_core.Exec.{pure, lift, ◌>>=◌, ◌>>◌}
use btptester_core.Worker.{Btp, send_from, read}
use btptester_core.Commands.Table.{bytes}
use btptester_core.Commands.Table.Gatts.{gatts}
use btptester_core.Commands.Response.{btp_hdr_check}
use btptester_core.Commands.Args.{Val, hdl_ba, any_val_ba}

-- A frame that `btp_hdr_check` accepts for the GATT service.
unfoldable pub gatt_rsp : Option ℕ → Btp (Header × Bytes)
gatt_rsp op = do
  (tuple_hdr, tuple_data) ← read
  lift (btp_hdr_check tuple_hdr btp_service_id_gatt op)
  pure (tuple_hdr, tuple_data)

unfoldable pub gatt_command_rsp_succ : Btp (Unit {0})
unfolding gatt_rsp
gatt_command_rsp_succ = do _ ← gatt_rsp none; pure tt

-- the handle in the response to a command that adds an attribute
unfoldable pub added : ℕ → Btp ℕ
unfolding gatt_rsp
added op = do (tuple_hdr, tuple_data) ← gatt_rsp (some op); lift (unpack u16 tuple_data)

unfoldable pub gatts_add_svc : ℕ → Text → Btp ℕ
unfolding added
gatts_add_svc svc_type uuid = do
  uuid_ba ← lift (uuid2btp uuid)
  t ← lift (to_byte svc_type)
  n ← lift (to_byte (length uuid_ba))
  send_from gatts "add_svc" (some (bytes (t ++ n ++ uuid_ba)))
  added Gatt.gatt_add_service

unfoldable pub gatts_add_inc_svc : Handle → Btp ℕ
unfolding added
gatts_add_inc_svc hdl = do
  h ← lift (hdl_ba hdl)
  send_from gatts "add_inc_svc" (some (bytes h))
  added Gatt.gatt_add_included_service

unfoldable pub gatts_add_char : Handle → ℕ → ℕ → Text → Btp ℕ
unfolding added
gatts_add_char hdl prop perm uuid = do
  h ← lift (hdl_ba hdl)
  uuid_ba ← lift (uuid2btp uuid)
  pr ← lift (to_byte prop)
  pe ← lift (to_byte perm)
  n ← lift (to_byte (length uuid_ba))
  send_from gatts "add_char" (some (bytes (h ++ pr ++ pe ++ n ++ uuid_ba)))
  added Gatt.gatt_add_characteristic

unfoldable pub gatts_set_val : Handle → Val → Btp (Unit {0})
unfolding gatt_command_rsp_succ
gatts_set_val hdl val = do
  h ← lift (hdl_ba hdl)
  v ← lift (any_val_ba val)
  n ← lift (pack_u16 (length v))
  send_from gatts "set_val" (some (bytes (h ++ n ++ v)))
  gatt_command_rsp_succ

unfoldable pub gatts_add_desc : Handle → ℕ → Text → Btp ℕ
unfolding added
gatts_add_desc hdl perm uuid = do
  h ← lift (hdl_ba hdl)
  uuid_ba ← lift (uuid2btp uuid)
  pe ← lift (to_byte perm)
  n ← lift (to_byte (length uuid_ba))
  send_from gatts "add_desc" (some (bytes (h ++ pe ++ n ++ uuid_ba)))
  added Gatt.gatt_add_descriptor

unfoldable pub gatts_start_server : Btp (Unit {0})
unfolding gatt_command_rsp_succ
gatts_start_server = do send_from gatts "start_server" none; gatt_command_rsp_succ

unfoldable pub gatts_set_enc_key_size : Handle → ℕ → Btp (Unit {0})
unfolding gatt_command_rsp_succ
gatts_set_enc_key_size hdl enc_key_size = do
  h ← lift (hdl_ba hdl)
  k ← lift (to_byte enc_key_size)
  send_from gatts "set_enc_key_size" (some (bytes (h ++ k)))
  gatt_command_rsp_succ
