-- ===== src/Events/GattCl.antt =====
-- The GATT client event handlers of pybtp/btp.py. All of them return None; what a test case sees
-- is what they leave in `stack.gatt_cl`.
pub mod Values
pub mod Loops
pub mod Procedure
pub mod Complete
pub mod Discovered
use btptester_core.Prelude.{
  ℕ, Bool, true, false, Option, none, some, List, [], ◌∷◌, ◌++◌, String, Bytes, Text, map, take,
  drop, length, ◌==◌, if◌then◌else◌,
}
use btptester_core.Result.{Result, ok, err, key_error}
use btptester_core.Struct.{raw, unpack_from}
use btptester_core.Struct.Formats.{b_6s_b, b_6s_b_b, b_6s_b_h, b_6s_b_h_h}
use btptester_core.Hex.{hexlify, upper, int_hex}
use btptester_core.Address.{ble_from_wire}
use btptester_core.Dict
use btptester_core.Dict.{Dict, nat_eq}
use btptester_core.GattDb.{
  GattAttribute, Kind, primary, included, characteristic, descriptor, attr_add,
}
use btptester_core.GattDb.Handles.{Handle, num, hex, hdl_hex, handle_eq_inst}
use btptester_core.Decode.{AttrType, SvcAttr, InclAttr, ChrcAttr, DescAttr, gatt_cl_dec_disc_rsp}
use btptester_core.GattCl.{GattCl, Verify, str, digits}
use btptester_core.Stack.{Stack}
use btptester_core.Exec.{Exec, pure, lift, of_option, modify, ◌>>=◌, ◌>>◌}
use btptester_core.Events.Args.{EvArgs, Handler, nothing}

-- `stack.gatt_cl`, where an attribute of it is used next
abbrev pub the_gatt_cl : Exec Stack GattCl
the_gatt_cl s = of_option s.gatt_cl s

abbrev pub put_gatt_cl : GattCl → Exec Stack (Unit {0})
put_gatt_cl c = modify (λ s. record s { gatt_cl = some c })

-- `uuid in prim_svcs`: the list holds triples, and a text is equal to none of them
abbrev pub uuid_in : Text → List (Handle × Handle × Text) → Bool
uuid_in uuid [] = false
uuid_in uuid (svc ∷ svcs) = uuid_in uuid svcs

abbrev attribute : Handle → Text → Kind → GattAttribute
attribute handle uuid kind = record {
  handle = handle;
  perm = 1;
  uuid = some uuid;
  att_read_rsp = 0;
  kind = kind;
}

-- the loops of the handlers, one for each
unfoldable pub add_all_prim : List (SvcAttr Text) → GattCl → GattCl
add_all_prim [] c = c
add_all_prim ((s, e, u) ∷ svcs) c =
    let start_handle = hex (hdl_hex s) in
    let end_handle = hex (hdl_hex e) in
    let uuid = upper u in
    add_all_prim svcs (
      if uuid_in uuid c.prim_svcs then c else record c {
        prim_svcs = c.prim_svcs ++ (start_handle, end_handle, uuid) ∷ [];
        db = attr_add c.db start_handle (attribute start_handle uuid (primary (some end_handle)));
      })

unfoldable pub add_prim_uuid : List (SvcAttr Text) → GattCl → GattCl
unfolding int_hex
add_prim_uuid [] c = c
add_prim_uuid ((s, e, uuid) ∷ svcs) c =
    let start_handle = num (int_hex (hdl_hex s)) in
    let end_handle = hex (hdl_hex e) in
    add_prim_uuid svcs (record c {
      prim_svcs = c.prim_svcs ++ (start_handle, end_handle, uuid) ∷ [];
      db = attr_add c.db start_handle (attribute start_handle uuid (primary (some end_handle)));
    })

unfoldable pub add_incl : List (InclAttr Text) → GattCl → GattCl
add_incl [] c = c
add_incl ((h, (s, e, uuid)) ∷ incls) c =
    let att_handle = hex (hdl_hex h) in
    let inc_svc_handle = hex (hdl_hex s) in
    let end_grp_handle = hex (hdl_hex e) in
    add_incl incls (record c {
      incl_svcs = c.incl_svcs ++ (att_handle, inc_svc_handle, end_grp_handle, uuid) ∷ [];
      db =
          attr_add c.db att_handle
            (attribute att_handle uuid (included inc_svc_handle end_grp_handle));
    })

unfoldable pub add_chrcs : List (ChrcAttr Text) → GattCl → GattCl
add_chrcs [] c = c
add_chrcs ((handle, value_handle, prop, uuid) ∷ rest) c =
    add_chrcs rest (record c { chrcs = c.chrcs ++ (value_handle, uuid) ∷ [] })

unfoldable pub store_chrcs : List (ChrcAttr Text) → GattCl → GattCl
store_chrcs [] c = c
store_chrcs ((handle, value_handle, prop, uuid) ∷ rest) c = store_chrcs rest (record c {
  db = attr_add c.db (num handle) (attribute (num handle) uuid (characteristic prop value_handle));
})

unfoldable pub add_dscs : List (DescAttr Text) → GattCl → GattCl
unfolding int_hex
add_dscs [] c = c
add_dscs ((h, uuid) ∷ descs) c =
    let handle = int_hex (hdl_hex h) in
    add_dscs descs (record c {
      dscs = c.dscs ++ (handle, uuid) ∷ [];
      db = attr_add c.db (num handle) (attribute (num handle) uuid (descriptor none));
    })

unfoldable pub gatt_cl_disc_all_prim_rsp_ev_ : Bytes → Handler
gatt_cl_disc_all_prim_rsp_ev_ dat = do
  c ← the_gatt_cl
  (addr_type, addr, status, svc_cnt) ← lift (unpack_from b_6s_b_b (take 9 dat))
  put_gatt_cl (record c { prim_svcs = []; prim_svcs_cnt = some svc_cnt })
  if svc_cnt == 0 then pure nothing else do
    svcs ← lift (gatt_cl_dec_disc_rsp AttrType.service (drop 8 dat))
    put_gatt_cl (add_all_prim svcs (record c { prim_svcs = []; prim_svcs_cnt = some svc_cnt }))
    pure nothing

unfoldable pub gatt_cl_disc_prim_uuid_rsp_ev_ : Bytes → Handler
gatt_cl_disc_prim_uuid_rsp_ev_ dat = do
  c ← the_gatt_cl
  (addr_type, addr, status, svc_cnt) ← lift (unpack_from b_6s_b_b (take 9 dat))
  put_gatt_cl (record c { prim_svcs = []; prim_svcs_cnt = some svc_cnt })
  if svc_cnt == 0 then pure nothing else do
    svcs ← lift (gatt_cl_dec_disc_rsp AttrType.service (drop 8 dat))
    put_gatt_cl (add_prim_uuid svcs (record c { prim_svcs = []; prim_svcs_cnt = some svc_cnt }))
    pure nothing

unfoldable pub gatt_cl_find_incld_rsp_ev_ : Bytes → Handler
gatt_cl_find_incld_rsp_ev_ dat = do
  c ← the_gatt_cl
  (addr_type, addr, status, svc_cnt) ← lift (unpack_from b_6s_b_b (take 9 dat))
  put_gatt_cl (record c { incl_svcs = []; incl_svcs_cnt = some svc_cnt })
  if svc_cnt == 0 then pure nothing else do
    incl_tuples ← lift (gatt_cl_dec_disc_rsp AttrType.include (drop 8 dat))
    put_gatt_cl (add_incl incl_tuples (record c { incl_svcs = []; incl_svcs_cnt = some svc_cnt }))
    pure nothing

unfoldable pub gatt_cl_disc_all_chrc_rsp_ev_ : Bytes → Handler
gatt_cl_disc_all_chrc_rsp_ev_ dat = do
  c ← the_gatt_cl
  (addr_type, addr, status, char_cnt) ← lift (unpack_from b_6s_b_b (take 9 dat))
  put_gatt_cl (record c { chrcs = []; chrcs_cnt = some char_cnt })
  if char_cnt == 0 then pure nothing else do
    chrcs ← lift (gatt_cl_dec_disc_rsp AttrType.characteristic (drop 8 dat))
    put_gatt_cl
        (store_chrcs chrcs (add_chrcs chrcs (record c { chrcs = []; chrcs_cnt = some char_cnt })))
    pure nothing

unfoldable pub gatt_cl_disc_chrc_uuid_rsp_ev_ : Bytes → Handler
gatt_cl_disc_chrc_uuid_rsp_ev_ dat = do
  c ← the_gatt_cl
  (addr_type, addr, status, char_cnt) ← lift (unpack_from b_6s_b_b (take 9 dat))
  put_gatt_cl (record c { chrcs = []; chrcs_cnt = some char_cnt })
  if char_cnt == 0 then pure nothing else do
    chrcs ← lift (gatt_cl_dec_disc_rsp AttrType.characteristic (drop 8 dat))
    put_gatt_cl
        (store_chrcs chrcs (add_chrcs chrcs (record c { chrcs = []; chrcs_cnt = some char_cnt })))
    pure nothing

unfoldable pub gatt_cl_disc_all_desc_rsp_ev_ : Bytes → Handler
gatt_cl_disc_all_desc_rsp_ev_ dat = do
  c ← the_gatt_cl
  (addr_type, addr, status, char_cnt) ← lift (unpack_from b_6s_b_b (take 9 dat))
  put_gatt_cl (record c { dscs = []; dscs_cnt = some char_cnt })
  if char_cnt == 0 then pure nothing else do
    descs ← lift (gatt_cl_dec_disc_rsp AttrType.descriptor (drop 8 dat))
    put_gatt_cl (add_dscs descs (record c { dscs = []; dscs_cnt = some char_cnt }))
    pure nothing
