-- ===== src/Commands/Gattc/Responses.antt =====
-- What the `gattc_…_rsp` functions of pybtp/btp.py do with the responses.
pub mod Stored
use btptester_core.Prelude.{
  ℕ, Bool, true, false, ◌||◌, Option, none, some, List, [], ◌∷◌, Bytes, Text, String, length,
  if◌then◌else◌,
}
use btptester_core.Result.{Result}
use btptester_core.Hex.{hexlify, upper}
use btptester_core.Uuid.{btp2uuid}
use btptester_core.Defs.Gatt as Ops
use btptester_core.Decode.{
  AttrType, SvcAttr, InclAttr, ChrcAttr, DescAttr, gatt_dec_disc_rsp, gatt_dec_read_rsp,
  gatt_dec_write_rsp,
}
use btptester_core.Gatt.{GattValue, Gatt, add_verify_values, clear_verify_values}
use btptester_core.GattCl.{Verify}
use btptester_core.GattDb.{GattDb, Kind, primary, included, characteristic, descriptor}
use btptester_core.GattDb.Handles.{Handle, num}
use btptester_core.Exec.{pure, lift, modify, ◌>>=◌, ◌>>◌}
use btptester_core.Worker.{Btp}
use btptester_core.Events.GattCl.Values.{att_rsp}
use btptester_core.Commands.Gatts.{gatt_rsp}
use btptester_core.Commands.Gattc.{the_gatt, ExpSvc, ok, err}
use btptester_core.Commands.Gattc.Values.{ExpChrc}
use btptester_core.Commands.Db.{DbBtp, on_world, add_to_db, for_each}

-- The attribute of a discovered handle: permission 1, no ATT response.
unfoldable pub add_found : ℕ → Bytes → Kind → DbBtp (Unit {0})
unfolding btp2uuid
add_found handle uuid kind = do
  u ← lift (btp2uuid (length uuid) uuid)
  add_to_db (num handle)
      (record { handle = num handle; perm = 1; uuid = some u; att_read_rsp = 0; kind = kind })

unfoldable pub add_primary : SvcAttr Bytes → DbBtp (Unit {0})
unfolding add_found
add_primary (start_handle, end_handle, uuid) =
    add_found start_handle uuid (primary (some (num end_handle)))

unfoldable pub add_included : InclAttr Bytes → DbBtp (Unit {0})
unfolding add_found
add_included (att_handle, (inc_svc_handle, end_grp_handle, uuid)) =
    add_found att_handle uuid (included (num inc_svc_handle) (num end_grp_handle))

unfoldable pub add_chrc : ChrcAttr Bytes → DbBtp (Unit {0})
unfolding add_found
add_chrc (handle, value_handle, props, uuid) =
    add_found handle uuid (characteristic props value_handle)

unfoldable pub add_desc : DescAttr Bytes → DbBtp (Unit {0})
unfolding add_found
add_desc (handle, uuid) = add_found handle uuid (descriptor none)

-- a response that is accepted, decoded and stored
unfoldable pub store_services : ℕ → DbBtp (Unit {0})
unfolding gatt_rsp add_primary for_each
store_services op = do
  (tuple_hdr, tuple_data) ← on_world (gatt_rsp (some op))
  svcs_tuple ← lift (gatt_dec_disc_rsp AttrType.service tuple_data)
  for_each add_primary svcs_tuple

unfoldable pub store_chrcs : ℕ → DbBtp (Unit {0})
unfolding gatt_rsp add_chrc for_each
store_chrcs op = do
  (tuple_hdr, tuple_data) ← on_world (gatt_rsp (some op))
  chrcs_tuple ← lift (gatt_dec_disc_rsp AttrType.characteristic tuple_data)
  for_each add_chrc chrcs_tuple

unfoldable pub gattc_disc_prim_svcs_rsp : DbBtp (Unit {0})
gattc_disc_prim_svcs_rsp = store_services Ops.gatt_disc_prim_svcs

unfoldable pub gattc_disc_prim_uuid_rsp : DbBtp (Unit {0})
gattc_disc_prim_uuid_rsp = store_services Ops.gatt_disc_prim_uuid

unfoldable pub gattc_find_included_rsp : DbBtp (Unit {0})
unfolding gatt_rsp add_included for_each
gattc_find_included_rsp = do
  (tuple_hdr, tuple_data) ← on_world (gatt_rsp (some Ops.gatt_find_included))
  incls_tuple ← lift (gatt_dec_disc_rsp AttrType.include tuple_data)
  for_each add_included incls_tuple

unfoldable pub gattc_disc_all_chrc_rsp : DbBtp (Unit {0})
gattc_disc_all_chrc_rsp = store_chrcs Ops.gatt_disc_all_chrc

unfoldable pub gattc_disc_chrc_uuid_rsp : DbBtp (Unit {0})
gattc_disc_chrc_uuid_rsp = store_chrcs Ops.gatt_disc_chrc_uuid

unfoldable pub gattc_disc_all_desc_rsp : DbBtp (Unit {0})
unfolding gatt_rsp add_desc for_each
gattc_disc_all_desc_rsp = do
  (tuple_hdr, tuple_data) ← on_world (gatt_rsp (some Ops.gatt_disc_all_desc))
  descs_tuple ← lift (gatt_dec_disc_rsp AttrType.descriptor tuple_data)
  for_each add_desc descs_tuple

-- The two `…_find_attrs_rsp` compare what they decode with what is expected, and only log it.
unfoldable pub gattc_disc_prim_uuid_find_attrs_rsp : List ExpSvc → Btp (Unit {0})
unfolding gatt_rsp
gattc_disc_prim_uuid_find_attrs_rsp exp_svcs = do
  (tuple_hdr, tuple_data) ← gatt_rsp (some Ops.gatt_disc_prim_uuid)
  _ ← lift (gatt_dec_disc_rsp AttrType.service tuple_data)
  pure tt

unfoldable pub gattc_disc_all_chrc_find_attrs_rsp : List ExpChrc → Btp (Unit {0})
unfolding gatt_rsp
gattc_disc_all_chrc_find_attrs_rsp exp_chars = do
  (tuple_hdr, tuple_data) ← gatt_rsp (some Ops.gatt_disc_all_chrc)
  _ ← lift (gatt_dec_disc_rsp AttrType.characteristic tuple_data)
  pure tt

-- binascii.hexlify(value).decode().upper()
abbrev pub upper_digits : Bytes → Text
upper_digits value = upper (hexlify value)

-- `if not gatt_value: return`, else its two fields; the object that results is returned
unfoldable pub set_both : Option GattValue → ℕ → Bytes → Result (Option GattValue)
set_both none rsp value = Result.ok none
set_both (some v) rsp value = elim (att_rsp rsp) [
  | ok s ↦ Result.ok (some (record { att_rsp = some s; value = some (upper_digits value) }))
  | err e ↦ Result.err e
]

unfoldable pub set_status : Option GattValue → ℕ → Result (Option GattValue)
set_status none rsp = Result.ok none
set_status (some v) rsp = elim (att_rsp rsp) [
  | ok s ↦ Result.ok (some (record v { att_rsp = some s }))
  | err e ↦ Result.err e
]

unfoldable pub read_response : ℕ → Option GattValue → Btp (Option GattValue)
unfolding gatt_rsp set_both
read_response op gatt_value = do
  (tuple_hdr, tuple_data) ← gatt_rsp (some op)
  (rsp, value) ← lift (gatt_dec_read_rsp tuple_data)
  lift (set_both gatt_value rsp value)

unfoldable pub write_response : ℕ → Option GattValue → Btp (Option GattValue)
unfolding gatt_rsp set_status
write_response op gatt_value = do
  (tuple_hdr, tuple_data) ← gatt_rsp (some op)
  rsp ← lift (gatt_dec_write_rsp tuple_data)
  lift (set_status gatt_value rsp)

unfoldable pub gattc_read_rsp : Option GattValue → Btp (Option GattValue)
gattc_read_rsp = read_response Ops.gatt_read

unfoldable pub gattc_read_long_rsp : Option GattValue → Btp (Option GattValue)
gattc_read_long_rsp = read_response Ops.gatt_read_long

unfoldable pub gattc_write_rsp : Option GattValue → Btp (Option GattValue)
gattc_write_rsp = write_response Ops.gatt_write

unfoldable pub gattc_write_long_rsp : Option GattValue → Btp (Option GattValue)
gattc_write_long_rsp = write_response Ops.gatt_write_long

abbrev update_gatt : (Gatt → Gatt) → Btp (Unit {0})
update_gatt f = do
  g ← the_gatt
  modify (λ w. record w { stack = record w.stack { gatt = some (f g) } })

abbrev verify_rsp : Bool → ℕ → Btp (Unit {0})
verify_rsp false rsp = pure tt
verify_rsp true rsp = do
  s ← lift (att_rsp rsp)
  update_gatt (λ g. add_verify_values g (Verify.str s))

abbrev verify_val : Bool → Bytes → Btp (Unit {0})
verify_val false values = pure tt
verify_val true values =
    update_gatt (λ g. add_verify_values g (Verify.digits (upper_digits values)))

unfoldable pub gattc_read_multiple_rsp : Bool → Bool → Btp (Unit {0})
unfolding gatt_rsp
gattc_read_multiple_rsp store_val store_rsp = do
  (tuple_hdr, tuple_data) ← gatt_rsp (some Ops.gatt_read_multiple)
  (rsp, values) ← lift (gatt_dec_read_rsp tuple_data)
  if store_rsp || store_val
      then (do
        update_gatt clear_verify_values
        verify_rsp store_rsp rsp
        verify_val store_val values)
      else pure tt
