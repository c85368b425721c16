-- ===== src/Commands/Gatts/Wire.antt =====
-- The frames of the commands that add attributes to the device's server, and the handles in the
-- responses.
use btptester_core.Prelude.{
  ℕ, ◌≡◌, ◌<◌, ◌∙◌, ap, sym, List, [], ◌∷◌, ◌++◌, Bytes, arith, length, inl, inr,
}
use btptester_core.Result
use btptester_core.Result.{ok}
use btptester_core.Struct.{le16}
use btptester_core.Parser.{Header, enc_frame}
use btptester_core.Defs.Core.{btp_service_id_gatt}
use btptester_core.Defs.Gatt as Ops
use btptester_core.Uuid.{uuid2btp}
use btptester_core.Uuid.RoundTrip.{btp2uuid-hexlify, uuid2btp-btp2uuid}
use btptester_core.Decode.RoundTrip.{IsUuid, uuid_text}
use btptester_core.GattDb.Handles.{hex, hdl_hex}
use btptester_core.Worker.{World, read, send_from, send, data_bytes}
use btptester_core.Commands.Response.{btp_hdr_check}
use btptester_core.Commands.Args.{hdl_ba}
use btptester_core.Commands.Handles.{hdl_int-hdl_hex}
use btptester_core.Commands.Gattc.Responses.Stored.{answered}
use btptester_core.Commands.Gatts.{
  gatt_rsp, added, gatts_add_svc, gatts_add_char, gatts_add_desc, gatts_add_inc_svc,
}

uuid2btp-uuid_text : (u : Bytes) → IsUuid u → uuid2btp (uuid_text u) ≡ ok u
uuid2btp-uuid_text u (n, h) =
    ap (λ r. Result.◌>>=◌ r uuid2btp) (sym (btp2uuid-hexlify u n h)) ∙ uuid2btp-btp2uuid u n h

-- the world behind a command that has sent this payload and taken the response
abbrev pub exchanged : ℕ → Bytes → List (Header × Bytes) → World → World
exchanged op payload later w = record w {
  sent = w.sent ++ (btp_service_id_gatt ∷ op ∷ 0 ∷ le16 (length payload) ++ payload) ∷ [];
  rx_queue = later;
}

-- the UUID with its length
abbrev pub uuid_field : Bytes → Bytes
uuid_field u = length u ∷ u

short : (u : Bytes) → IsUuid u → length u < 17
short u (inl e, h) = omega (arith, e)
short u (inr e, h) = omega (arith, e)

-- The commands that add a service, an included service, a characteristic and a descriptor, with a
-- handle given as a text of four upper-case digits and a UUID of 2 or 16 bytes as the text that
-- `btp2uuid` makes, send exactly the handle, the numbers and the bytes of the UUID, and return the
-- handle in the response, which is taken from the queue; nothing else changes.
pub gatts_add-uuid_text :
    (w : World) (later : List (Header × Bytes)) (hdl new t prop perm : ℕ) (u : Bytes)
    → IsUuid u
    → hdl < 65536
    → t < 256
    → prop < 256
    → perm < 256
    → (gatts_add_svc t (uuid_text u) (answered Ops.gatt_add_service (le16 new) later w)
        ≡ (ok new, exchanged Ops.gatt_add_service (t ∷ uuid_field u) later w))
      × (gatts_add_inc_svc
            (hex (hdl_hex hdl))
            (answered Ops.gatt_add_included_service (le16 new) later w)
          ≡ (ok new, exchanged Ops.gatt_add_included_service (le16 hdl) later w))
      × (gatts_add_char
            (hex (hdl_hex hdl))
            prop
            perm
            (uuid_text u)
            (answered Ops.gatt_add_characteristic (le16 new) later w)
          ≡ (
            ok new,
            exchanged Ops.gatt_add_characteristic (le16 hdl ++ prop ∷ perm ∷ uuid_field u) later w,
          ))
      × (gatts_add_desc
            (hex (hdl_hex hdl))
            perm
            (uuid_text u)
            (answered Ops.gatt_add_descriptor (le16 new) later w)
          ≡ (ok new, exchanged Ops.gatt_add_descriptor (le16 hdl ++ perm ∷ uuid_field u) later w))
unfolding gatts_add_svc gatts_add_inc_svc gatts_add_char gatts_add_desc added gatt_rsp send_from
    send data_bytes enc_frame btp_hdr_check read hdl_ba
gatts_add-uuid_text w later hdl new t prop perm u hu hh ht hp he =
    let s = short u hu in
    rw (uuid2btp-uuid_text u hu, hdl_int-hdl_hex hdl hh)
      (ground arith, ground arith, ground arith, ground arith)
