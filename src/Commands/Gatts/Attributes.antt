-- ===== src/Commands/Gatts/Attributes.antt =====
-- How the tester reads the GATT server of the device: `gatts_get_attrs`, `gatts_get_attr_val`, and
-- what `gatt_server_fetch_db` and `gatts_get_attribute_values` make of the answers.
use btptester_core.Prelude.{
  ℕ, Bool, true, false, ◌||◌, Option, none, some, List, [], ◌∷◌, ◌++◌, Bytes, Text, text_eq, length,
  ◌==◌, if◌then◌else◌,
}
use btptester_core.Result.{Result, ok, err, struct_error, type_error}
use btptester_core.Result
use btptester_core.Struct.{to_byte, unpack}
use btptester_core.Hex.{upper, remove_char}
use btptester_core.Uuid.{btp2uuid, uuid2btp}
use btptester_core.Dict
use btptester_core.Dict.{Dict, nat_eq}
use btptester_core.Defs.Gatt
use btptester_core.Address.{BleAddress, ble_bytes}
use btptester_core.GattDb.{primary, secondary, included, characteristic, descriptor}
use btptester_core.GattDb.Handles.{Handle, num}
use btptester_core.Exec.{pure, raise, lift, ◌>>=◌, ◌>>◌}
use btptester_core.Worker.{Btp, send_from}
use btptester_core.Commands.Table.{bytes}
use btptester_core.Commands.Table.Gatts.{gatts}
use btptester_core.Commands.Args.{hdl_ba, remove_0x}
use btptester_core.Commands.Db.{DbBtp, on_world, add_to_db}
use btptester_core.Commands.Gap.{gap_wait_for_connection}
use btptester_core.Commands.Gatts.{gatt_rsp}
use btptester_core.Commands.Gatts.Decode.{
  AttrInfo, Parsed, minus, b_h_s, h_h_s, incl_uuid, primary_svc, secondary_svc, include_svc, chrc,
  dec_gatts_get_attrs_rp, gatts_parse_attribute,
}

-- `if type_uuid:` its length and its bytes, else a 0
unfoldable pub type_ba : Option Text → Result Bytes
unfolding uuid2btp
type_ba none = ok (0 ∷ [])
type_ba (some []) = ok (0 ∷ [])
type_ba (some (c ∷ s)) =
    Result.◌>>=◌ (uuid2btp (c ∷ s))
      λ uuid_ba. Result.◌>>=◌ (to_byte (length uuid_ba)) λ n. ok (n ++ uuid_ba)

unfoldable pub gatts_get_attrs : Handle → Handle → Option Text → Btp (List AttrInfo)
unfolding type_ba
gatts_get_attrs start_handle end_handle type_uuid = do
  start_hdl_ba ← lift (hdl_ba start_handle)
  end_hdl_ba ← lift (hdl_ba end_handle)
  uuid_ba ← lift (type_ba type_uuid)
  send_from gatts "get_attrs" (some (bytes (start_hdl_ba ++ end_hdl_ba ++ uuid_ba)))
  (tuple_hdr, tuple_data) ← gatt_rsp (some Gatt.gatt_get_attributes)
  lift (dec_gatts_get_attrs_rp tuple_data tuple_hdr.data_len)

-- ATT response, length and value
abbrev pub AttrVal : Type 0
AttrVal = ℕ × ℕ × Bytes

unfoldable pub dec_attr_val : ℕ → Bytes → Result AttrVal
unfolding minus
dec_attr_val data_len dat = Result.◌>>=◌ (minus data_len 3) λ n. unpack (b_h_s n) dat

unfoldable pub gatts_get_attr_val : BleAddress → Handle → Btp AttrVal
unfolding dec_attr_val
gatts_get_attr_val bd_addr handle = do
  gap_wait_for_connection
  addr_ba ← lift (ble_bytes bd_addr)
  h ← lift (hdl_ba handle)
  send_from gatts "get_attr_val" (some (bytes (addr_ba ++ h)))
  (tuple_hdr, tuple_data) ← gatt_rsp (some Gatt.gatt_get_attribute_value)
  lift (dec_attr_val tuple_hdr.data_len tuple_data)

-- handle in char_val_set
unfoldable pub in_set : List ℕ → ℕ → Bool
in_set [] h = false
in_set (a ∷ l) h = (a == h) || in_set l h

-- char_val_set.remove(handle)
unfoldable pub set_remove : List ℕ → ℕ → List ℕ
set_remove [] h = []
set_remove (a ∷ l) h = let rest = set_remove l h in if a == h then rest else a ∷ rest

-- The branches of the loop of `gatt_server_fetch_db`; each returns the value handles to skip.
unfoldable pub fetch_service : Bool → AttrInfo → AttrVal → List ℕ → DbBtp (List ℕ)
fetch_service is_primary (handle, perm, type_uuid) (att_rsp, val_len, val) skip = do
  uuid ← lift (btp2uuid val_len val)
  add_to_db (num handle) (record {
    handle = num handle;
    perm = perm;
    uuid = some uuid;
    att_read_rsp = att_rsp;
    kind = if is_primary then primary none else secondary none;
  })
  pure skip

unfoldable pub fetch_chrc : AttrInfo → AttrVal → List ℕ → DbBtp (List ℕ)
fetch_chrc (handle, perm, type_uuid) (att_rsp, val_len, val) skip = do
  uuid_len ← lift (minus val_len 3)
  (prop, value_handle, u) ← lift (unpack (b_h_s uuid_len) val)
  uuid ← lift (btp2uuid uuid_len u)
  add_to_db (num handle) (record {
    handle = num handle;
    perm = perm;
    uuid = some uuid;
    att_read_rsp = att_rsp;
    kind = characteristic prop value_handle;
  })
  pure (value_handle ∷ skip)

unfoldable pub fetch_included : AttrInfo → AttrVal → List ℕ → DbBtp (List ℕ)
fetch_included (handle, perm, type_uuid) (att_rsp, val_len, val) skip = do
  uuid_len ← lift (minus val_len 4)
  (incl_svc_hdl, end_grp_hdl, u) ← lift (unpack (h_h_s uuid_len) val)
  uuid ← lift (incl_uuid uuid_len u)
  add_to_db (num handle) (record {
    handle = num handle;
    perm = perm;
    uuid = uuid;
    att_read_rsp = att_rsp;
    kind = included (num incl_svc_hdl) (num end_grp_hdl);
  })
  pure skip

unfoldable pub fetch_descriptor : AttrInfo → AttrVal → List ℕ → DbBtp (List ℕ)
fetch_descriptor (handle, perm, type_uuid) (att_rsp, val_len, val) skip = do
  add_to_db (num handle) (record {
    handle = num handle;
    perm = perm;
    uuid = some (upper (remove_char b'-' (remove_0x type_uuid)));
    att_read_rsp = att_rsp;
    kind = descriptor (some val);
  })
  pure skip

unfoldable pub fetch_attr : AttrInfo → AttrVal → List ℕ → DbBtp (List ℕ)
unfolding fetch_service fetch_chrc fetch_included fetch_descriptor
fetch_attr (handle, perm, type_uuid) attr_val skip =
    if in_set skip handle
    then pure (set_remove skip handle)
    else if text_eq type_uuid primary_svc
    then fetch_service true (handle, perm, type_uuid) attr_val skip
    else if text_eq type_uuid secondary_svc
    then fetch_service false (handle, perm, type_uuid) attr_val skip
    else if text_eq type_uuid chrc
    then fetch_chrc (handle, perm, type_uuid) attr_val skip
    else if text_eq type_uuid include_svc
    then fetch_included (handle, perm, type_uuid) attr_val skip
    else fetch_descriptor (handle, perm, type_uuid) attr_val skip

-- `store_chr_def`: the UUID of a characteristic
abbrev chr_def : Parsed → Option Text
chr_def (Parsed.characteristic _ _ _ chr_uuid) = some chr_uuid
chr_def _ = none

abbrev is_value : Option Text → Text → Bool
is_value none type_uuid = false
is_value (some chr_uuid) type_uuid = text_eq type_uuid chr_uuid

-- `get_val` is what the loops call to read an attribute.
module _ (get_val : ℕ → Btp AttrVal) where
  unfoldable pub fetch_attrs : List ℕ → List AttrInfo → DbBtp (Unit {0})
  unfolding fetch_attr
  fetch_attrs skip [] = pure tt
  fetch_attrs skip (attr ∷ attrs) = do
    attr_val ← on_world (get_val attr.0)
    skip ← fetch_attr attr attr_val skip
    fetch_attrs skip attrs

  -- `chr_uuid` is the UUID of the characteristic that was parsed just before
  unfoldable pub attribute_values :
      Option Text → Dict ℕ Parsed → List AttrInfo → Btp (Dict ℕ Parsed)
  attribute_values chr_uuid database [] = pure database
  attribute_values chr_uuid database ((hdl, perm, type_uuid) ∷ attrs) = do
    rsp ← get_val hdl
    if is_value chr_uuid type_uuid then attribute_values none database attrs else (do
      attribute ← lift (gatts_parse_attribute hdl perm type_uuid rsp)
      attribute_values (chr_def attribute) (Dict.put database hdl attribute) attrs)

-- The arguments of a call behind the device.
pub data Arg : Type 0 where
  addr : BleAddress → Arg
  hdl : Handle → Arg

-- A call of `gatts_get_attr_val`, which wants an address and a handle.
unfoldable pub call_get_attr_val : List Arg → Btp AttrVal
unfolding gatts_get_attr_val
call_get_attr_val (addr bd_addr ∷ hdl handle ∷ []) = gatts_get_attr_val bd_addr handle
call_get_attr_val args = raise type_error

-- `gatts_get_attr_val(iutctl, handle)`, the call in the loops
unfoldable pub get_val : ℕ → Btp AttrVal
unfolding call_get_attr_val
get_val handle = call_get_attr_val (hdl (num handle) ∷ [])

unfoldable pub gatt_server_fetch_db : Handle → Handle → Option Text → DbBtp (Unit {0})
unfolding fetch_attrs get_val
gatt_server_fetch_db start_handle end_handle type_uuid = do
  attrs ← on_world (gatts_get_attrs start_handle end_handle type_uuid)
  fetch_attrs get_val [] attrs

unfoldable pub gatts_get_attribute_values : List AttrInfo → Btp (Dict ℕ Parsed)
unfolding attribute_values get_val
gatts_get_attribute_values attributes = attribute_values get_val none [] attributes
