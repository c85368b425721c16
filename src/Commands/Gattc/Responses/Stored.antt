-- ===== src/Commands/Gattc/Responses/Stored.antt =====
-- What the responses to the discovery commands put into the database.
use btptester_core.Prelude.{ℕ, ◌≡◌, refl, none, some, List, [], ◌∷◌, ◌++◌, Bytes, All, length}
use btptester_core.Result.{ok}
use btptester_core.Parser.{Header}
use btptester_core.Defs.Core.{btp_service_id_gatt}
use btptester_core.Defs.Gatt as Ops
use btptester_core.Uuid.RoundTrip.{btp2uuid-hexlify}
use btptester_core.Decode.{AttrType, DiscAttr, SvcAttr, InclAttr, ChrcAttr, DescAttr}
use btptester_core.Decode.RoundTrip.{
  IsUuid, uuid_text, uuid_bytes, enc_disc_rsp, gatt_dec_disc_rsp-enc,
}
use btptester_core.GattDb.{
  GattDb, GattAttribute, Kind, attr_add, primary, included, characteristic, descriptor,
}
use btptester_core.GattDb.Handles.{num}
use btptester_core.Worker.{World, read}
use btptester_core.Commands.Response.{btp_hdr_check}
use btptester_core.Commands.Gatts.{gatt_rsp}
use btptester_core.Commands.Db.{DbBtp, for_each}
use btptester_core.Commands.Gattc.Responses.{
  add_found, add_primary, add_included, add_chrc, add_desc, store_services, store_chrcs,
  gattc_disc_prim_svcs_rsp, gattc_disc_prim_uuid_rsp, gattc_find_included_rsp,
  gattc_disc_all_chrc_rsp, gattc_disc_chrc_uuid_rsp, gattc_disc_all_desc_rsp,
}

-- what the database has of a discovered handle
abbrev pub found_attr : ℕ → Bytes → Kind → GattAttribute
found_attr handle uuid kind = record {
  handle = num handle;
  perm = 1;
  uuid = some (uuid_text uuid);
  att_read_rsp = 0;
  kind = kind;
}

abbrev pub handle_of : (t : AttrType) → DiscAttr Bytes t → ℕ
handle_of AttrType.service (s, e, u) = s
handle_of AttrType.include (h, (s, e, u)) = h
handle_of AttrType.characteristic (h, v, p, u) = h
handle_of AttrType.descriptor (h, u) = h

abbrev pub kind_of : (t : AttrType) → DiscAttr Bytes t → Kind
kind_of AttrType.service (s, e, u) = primary (some (num e))
kind_of AttrType.include (h, (s, e, u)) = included (num s) (num e)
kind_of AttrType.characteristic (h, v, p, u) = characteristic p v
kind_of AttrType.descriptor (h, u) = descriptor none

-- the database with the discovered attributes, one after another
abbrev pub stored : (t : AttrType) → GattDb → List (DiscAttr Bytes t) → GattDb
stored t db [] = db
stored t db (a ∷ l) =
    stored t
      (attr_add db (num (handle_of t a))
        (found_attr (handle_of t a) (uuid_bytes t a) (kind_of t a)))
      l

-- the step of the loops
abbrev add_attr : (t : AttrType) → DiscAttr Bytes t → DbBtp (Unit {0})
add_attr AttrType.service a = add_primary a
add_attr AttrType.include a = add_included a
add_attr AttrType.characteristic a = add_chrc a
add_attr AttrType.descriptor a = add_desc a

add_attr_lem :
    (t : AttrType) (a : DiscAttr Bytes t) (w : World) (db : GattDb)
    → IsUuid (uuid_bytes t a)
    → add_attr t a (w, db) ≡ (ok tt, (w, stored t db (a ∷ [])))
unfolding add_primary add_included add_chrc add_desc add_found
add_attr_lem AttrType.service (s, e, u) w db (h, k) = rw (btp2uuid-hexlify u h k) refl
add_attr_lem AttrType.include (i, (s, e, u)) w db (h, k) = rw (btp2uuid-hexlify u h k) refl
add_attr_lem AttrType.characteristic (c, v, p, u) w db (h, k) = rw (btp2uuid-hexlify u h k) refl
add_attr_lem AttrType.descriptor (d, u) w db (h, k) = rw (btp2uuid-hexlify u h k) refl

for_each-stored :
    (t : AttrType) (l : List (DiscAttr Bytes t)) (w : World) (db : GattDb)
    → All (λ a. IsUuid (uuid_bytes t a)) l
    → for_each (add_attr t) l (w, db) ≡ (ok tt, (w, stored t db l))
unfolding for_each
for_each-stored t [] w db h = refl
for_each-stored t (a ∷ l) w db (h, k) =
    rw (add_attr_lem t a w db h) (for_each-stored t l w (stored t db (a ∷ [])) k)

-- A response of the GATT service that waits in front of other frames.
abbrev pub answered : ℕ → Bytes → List (Header × Bytes) → World → World
answered op dat later w = record w {
  rx_queue =
      (record { svc_id = btp_service_id_gatt; op = op; ctrl_index = 0; data_len = length dat }, dat)
      ∷ later;
}

abbrev pub taken : List (Header × Bytes) → World → World
taken later w = record w { rx_queue = later }

-- the response to one discovery command is stored whole
abbrev pub IsStored :
    (t : AttrType)
    → ℕ
    → DbBtp (Unit {0})
    → List (DiscAttr Bytes t)
    → Bytes
    → List (Header × Bytes)
    → World
    → GattDb
    → Type 0
IsStored t op m l rest later w db =
    m (answered op (enc_disc_rsp t l ++ rest) later w, db) ≡ (ok tt, (taken later w, stored t db l))

-- Each of the six responses to a discovery command whose attributes have UUIDs of 2 or 16 bytes,
-- laid out as the docstrings say, is accepted, whatever bytes follow the last attribute; all its
-- attributes are added to the database in order, under their handles as numbers and with their UUIDs as text in big-endian upper-case
-- digits; the response is taken from the queue and nothing else changes.
pub disc_rsps-IsStored :
    (svcs : List (SvcAttr Bytes)) (incls : List (InclAttr Bytes)) (chrcs : List (ChrcAttr Bytes))
    (descs : List (DescAttr Bytes)) (rest : Bytes) (later : List (Header × Bytes)) (w : World)
    (db : GattDb)
    → All (λ a. IsUuid (uuid_bytes AttrType.service a)) svcs
    → All (λ a. IsUuid (uuid_bytes AttrType.include a)) incls
    → All (λ a. IsUuid (uuid_bytes AttrType.characteristic a)) chrcs
    → All (λ a. IsUuid (uuid_bytes AttrType.descriptor a)) descs
    → IsStored AttrType.service Ops.gatt_disc_prim_svcs gattc_disc_prim_svcs_rsp svcs rest later w
        db
      × IsStored AttrType.service Ops.gatt_disc_prim_uuid gattc_disc_prim_uuid_rsp svcs rest later w
          db
      × IsStored AttrType.include Ops.gatt_find_included gattc_find_included_rsp incls rest later w
          db
      × IsStored AttrType.characteristic Ops.gatt_disc_all_chrc gattc_disc_all_chrc_rsp chrcs rest
          later w db
      × IsStored AttrType.characteristic Ops.gatt_disc_chrc_uuid gattc_disc_chrc_uuid_rsp chrcs rest
          later w db
      × IsStored AttrType.descriptor Ops.gatt_disc_all_desc gattc_disc_all_desc_rsp descs rest later
          w db
unfolding gattc_disc_prim_svcs_rsp gattc_disc_prim_uuid_rsp gattc_find_included_rsp
    gattc_disc_all_chrc_rsp gattc_disc_chrc_uuid_rsp gattc_disc_all_desc_rsp store_services
    store_chrcs gatt_rsp read btp_hdr_check
disc_rsps-IsStored svcs incls chrcs descs rest later w db hs hi hc hd =
    let s = for_each-stored AttrType.service svcs (taken later w) db hs in
    let i = for_each-stored AttrType.include incls (taken later w) db hi in
    let c = for_each-stored AttrType.characteristic chrcs (taken later w) db hc in
    let d = for_each-stored AttrType.descriptor descs (taken later w) db hd in
    (
      rw (gatt_dec_disc_rsp-enc AttrType.service svcs rest) s,
      rw (gatt_dec_disc_rsp-enc AttrType.service svcs rest) s,
      rw (gatt_dec_disc_rsp-enc AttrType.include incls rest) i,
      rw (gatt_dec_disc_rsp-enc AttrType.characteristic chrcs rest) c,
      rw (gatt_dec_disc_rsp-enc AttrType.characteristic chrcs rest) c,
      rw (gatt_dec_disc_rsp-enc AttrType.descriptor descs rest) d,
    )
