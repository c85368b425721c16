-- ===== src/Examples/Client.antt =====
-- The GATT commands and their responses at concrete inputs.
use btptester_core.Prelude.{
  ◌≡◌, refl, true, none, some, List, [], ◌∷◌, ◌++◌, Bytes, arith, inl, length, map, ℕ, ◌+◌,
}
use btptester_core.Result.{ok}
use btptester_core.Struct.{le16}
use btptester_core.Defs.Gatt as Ops
use btptester_core.Stack
use btptester_core.Dict
use btptester_core.Gatt as GattState
use btptester_core.Address.{BleAddress}
use btptester_core.Decode.{AttrType, SvcAttr, InclAttr, ChrcAttr, DescAttr}
use btptester_core.Decode.RoundTrip.{IsUuid, uuid_text}
use btptester_core.GattDb.{GattAttribute, characteristic, is_characteristic}
use btptester_core.GattDb.Handles.{num, hex, hdl_hex, handle_eq, handle_eq_inst}
use btptester_core.GattDb.Search.{Numbered, by_number}
use btptester_core.Worker.{World}
use btptester_core.Commands.Args.{str_val}
use btptester_core.Commands.Handles.{handle_commands, handle_commands-hdl_hex}
use btptester_core.Commands.Gatts.{gatts_add_svc, gatts_add_char, gatts_add_desc, gatts_add_inc_svc}
use btptester_core.Commands.Gatts.Wire.{exchanged, uuid_field, gatts_add-uuid_text}
use btptester_core.Commands.Gatts.Decode.{dec_gatts_get_attrs_rp}
use btptester_core.Commands.Gatts.Decode.RoundTrip.{
  Entry, enc_get_attrs, info_of, dec_gatts_get_attrs_rp-enc,
}
use btptester_core.Commands.Gattc.{gattc_disc_all_chrc, range_of}
use btptester_core.Commands.Gattc.Selected.{passing, nth, gattc_disc_all_chrc-nth}
use btptester_core.Commands.Gattc.Responses.{
  gattc_disc_prim_svcs_rsp, gattc_disc_prim_uuid_rsp, gattc_find_included_rsp,
  gattc_disc_all_chrc_rsp, gattc_disc_chrc_uuid_rsp, gattc_disc_all_desc_rsp,
}
use btptester_core.Commands.Gattc.Responses.Stored.{answered, IsStored, disc_rsps-IsStored}
use btptester_core.GattDb.{find_characteristic_end}
use btptester_core.GattDb.Ends.{end_at, has_handle, next_attr, find_characteristic_end-end_at}

abbrev world : World
world = record { stack = Stack.init; sent = []; rx_queue = [] }

abbrev peer : BleAddress
peer = record { addr = b'1' ∷ b'2' ∷ []; addr_type = 0 }

-- the bytes of the UUID 0x180d
abbrev heart_rate : Bytes
heart_rate = 0x0d ∷ 0x18 ∷ []

heart_rate-IsUuid : IsUuid heart_rate
heart_rate-IsUuid = (inl refl, (omega arith, (omega arith, tt)))

abbrev svcs : List (SvcAttr Bytes)
svcs = (1, 5, heart_rate) ∷ []

abbrev incls : List (InclAttr Bytes)
incls = (2, (6, 9, heart_rate)) ∷ []

abbrev chrcs : List (ChrcAttr Bytes)
chrcs = (3, 4, 2, heart_rate) ∷ []

abbrev descs : List (DescAttr Bytes)
descs = (5, heart_rate) ∷ []

disc_rsps-IsStored_example :
    IsStored AttrType.service Ops.gatt_disc_prim_svcs gattc_disc_prim_svcs_rsp svcs [] [] world []
    × IsStored AttrType.service Ops.gatt_disc_prim_uuid gattc_disc_prim_uuid_rsp svcs [] [] world []
    × IsStored AttrType.include Ops.gatt_find_included gattc_find_included_rsp incls [] [] world []
    × IsStored AttrType.characteristic Ops.gatt_disc_all_chrc gattc_disc_all_chrc_rsp chrcs [] []
        world []
    × IsStored AttrType.characteristic Ops.gatt_disc_chrc_uuid gattc_disc_chrc_uuid_rsp chrcs [] []
        world []
    × IsStored AttrType.descriptor Ops.gatt_disc_all_desc gattc_disc_all_desc_rsp descs [] [] world
        []
disc_rsps-IsStored_example =
    disc_rsps-IsStored svcs incls chrcs descs [] [] world [] (heart_rate-IsUuid, tt)
      (heart_rate-IsUuid, tt) (heart_rate-IsUuid, tt) (heart_rate-IsUuid, tt)

gatts_add-uuid_text_example :
    (gatts_add_svc 0 (uuid_text heart_rate) (answered Ops.gatt_add_service (le16 7) [] world)
      ≡ (ok 7, exchanged Ops.gatt_add_service (0 ∷ uuid_field heart_rate) [] world))
    × (gatts_add_inc_svc
          (hex (hdl_hex 1))
          (answered Ops.gatt_add_included_service (le16 7) [] world)
        ≡ (ok 7, exchanged Ops.gatt_add_included_service (le16 1) [] world))
    × (gatts_add_char
          (hex (hdl_hex 1))
          2
          3
          (uuid_text heart_rate)
          (answered Ops.gatt_add_characteristic (le16 7) [] world)
        ≡ (
          ok 7,
          exchanged Ops.gatt_add_characteristic (le16 1 ++ 2 ∷ 3 ∷ uuid_field heart_rate) [] world,
        ))
    × (gatts_add_desc
          (hex (hdl_hex 1))
          3
          (uuid_text heart_rate)
          (answered Ops.gatt_add_descriptor (le16 7) [] world)
        ≡ (ok 7, exchanged Ops.gatt_add_descriptor (le16 1 ++ 3 ∷ uuid_field heart_rate) [] world))
gatts_add-uuid_text_example =
    gatts_add-uuid_text world [] 1 7 0 2 3 heart_rate heart_rate-IsUuid (omega arith) (omega arith)
      (omega arith) (omega arith)

handle_commands-hdl_hex_example :
    handle_commands peer (hex (hdl_hex 0x1a)) (hex (hdl_hex 0xffff)) 1 (str_val []) none heart_rate
    ≡ handle_commands peer (num 0x1a) (num 0xffff) 1 (str_val []) none heart_rate
handle_commands-hdl_hex_example =
    handle_commands-hdl_hex peer 0x1a 0xffff 1 (str_val []) none heart_rate (omega arith)
      (omega arith)

abbrev entries : List Entry
entries = (1, 1, heart_rate) ∷ (2, 3, heart_rate) ∷ []

dec_gatts_get_attrs_rp-enc_example :
    dec_gatts_get_attrs_rp
      (enc_get_attrs entries ++ 9 ∷ [])
      (length (enc_get_attrs entries ++ 9 ∷ []))
    ≡ ok (map info_of entries)
dec_gatts_get_attrs_rp-enc_example =
    dec_gatts_get_attrs_rp-enc entries (9 ∷ []) (heart_rate-IsUuid, (heart_rate-IsUuid, tt))

abbrev stored_gatt : GattState.Gatt
stored_gatt = record GattState.init {
  svcs = (num 1, num 5, heart_rate) ∷ (num 6, num 9, heart_rate) ∷ [];
}

abbrev served : World
served = record world { stack = record Stack.init { gatt = some stored_gatt } }

gattc_disc_all_chrc-nth_example :
    let (s, e) =
      range_of (num 1) (num 2) (nth 1 (passing (none, none, some heart_rate) stored_gatt.svcs)) in
    gattc_disc_all_chrc peer (num 1) (num 2) (some ((none, none, some heart_rate), 2)) served
    ≡ gattc_disc_all_chrc peer s e none served
gattc_disc_all_chrc-nth_example =
    gattc_disc_all_chrc-nth peer (num 1) (num 2) (none, none, some heart_rate) 1 stored_gatt served
      refl

abbrev chrc_at : ℕ → GattAttribute
chrc_at h = record {
  handle = num h;
  perm = 1;
  uuid = some heart_rate;
  att_read_rsp = 0;
  kind = characteristic 2 (h + 1);
}

abbrev two_chrcs : Numbered
two_chrcs = (5, chrc_at 5) ∷ (3, chrc_at 3) ∷ []

chrc_at-found : Dict.get (by_number two_chrcs) (num 3) ≡ some (chrc_at 3)
unfolding Dict.get handle_eq
chrc_at-found = refl

chrc_at-characteristic : is_characteristic (chrc_at 3) ≡ true
unfolding is_characteristic
chrc_at-characteristic = refl

find_characteristic_end-end_at_example :
    find_characteristic_end (by_number two_chrcs) (num 3)
    ≡ ok (end_at 3 (has_handle two_chrcs 5) (next_attr 3 two_chrcs))
find_characteristic_end-end_at_example =
    find_characteristic_end-end_at two_chrcs 3 (chrc_at 3) chrc_at-found chrc_at-characteristic
