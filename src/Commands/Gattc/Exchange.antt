-- ===== src/Commands/Gattc/Exchange.antt =====
-- Reading and writing a value of the device's server: the frames, and what the responses become.
use btptester_core.Prelude.{
  ℕ, true, ltb, refl, ◌≡◌, ◌<◌, none, some, List, [], ◌∷◌, ◌++◌, Bytes, IsBytes, arith, length,
  String,
}
use btptester_core.Result.{ok}
use btptester_core.Struct.{le16}
use btptester_core.Struct.Laws.{raw-length-append}
use btptester_core.Hex.{hexlify, upper}
use btptester_core.Hex.Laws.{unhexlify-upper-hexlify}
use btptester_core.Parser.{Header, enc_frame}
use btptester_core.Defs.Gatt as Ops
use btptester_core.Address.{ble_from_wire}
use btptester_core.Address.Wire.{ble_bytes-from_wire}
use btptester_core.Decode.{gatt_dec_read_rsp, gatt_dec_write_rsp}
use btptester_core.Events.Gap.Found.{six}
use btptester_core.Events.GattCl.Values.{att_rsp}
use btptester_core.Gap.{Gap}
use btptester_core.Gatt.{GattValue}
use btptester_core.GattDb.Handles.{hex, hdl_hex}
use btptester_core.Exec.{◌>>◌}
use btptester_core.Worker.{World, read, send_from, send, data_bytes}
use btptester_core.Commands.Response.{btp_hdr_check}
use btptester_core.Commands.Args.{str_val, hdl_ba, multiply, encoded_val_ba}
use btptester_core.Commands.Handles.{hdl_int-hdl_hex}
use btptester_core.Commands.Gap.{gap_wait_for_connection}
use btptester_core.Commands.Gatts.{gatt_rsp}
use btptester_core.Commands.Gatts.Wire.{exchanged}
use btptester_core.Commands.Gattc.Values.{gattc_read, gattc_write, write_ba}
use btptester_core.Commands.Gattc.Responses.{
  gattc_read_rsp, gattc_write_rsp, read_response, write_response, set_both, set_status,
}
use btptester_core.Commands.Gattc.Responses.Stored.{answered}

-- the answer to a read: ATT response, length and value
abbrev pub read_answer : ℕ → Bytes → Bytes → Bytes
read_answer rsp val rest = rsp ∷ le16 (length val) ++ (val ++ rest)

gatt_dec_read_rsp-answer :
    (rsp : ℕ) (val rest : Bytes)
    → length val < 65536
    → gatt_dec_read_rsp (read_answer rsp val rest) ≡ ok (rsp, val)
unfolding gatt_dec_read_rsp
gatt_dec_read_rsp-answer rsp val rest h = ground (arith, raw-length-append val rest)

gattc_read-read_rsp :
    (w : World) (g : Gap) (later : List (Header × Bytes)) (t a b c d e f h rsp : ℕ)
    (val rest : Bytes) (v : GattValue) (s : String)
    → w.stack.gap ≡ some g
    → t < 256
    → IsBytes (six a b c d e f)
    → h < 65536
    → length val < 65536
    → att_rsp rsp ≡ ok s
    → (gattc_read (ble_from_wire t (six a b c d e f)) (hex (hdl_hex h)) >> gattc_read_rsp (some v))
        (answered Ops.gatt_read (read_answer rsp val rest) later w)
      ≡ (
        ok (some (record { att_rsp = some s; value = some (upper (hexlify val)) })),
        exchanged Ops.gatt_read (t ∷ six a b c d e f ++ le16 h) later w,
      )
unfolding gattc_read gattc_read_rsp read_response set_both gatt_rsp read btp_hdr_check send_from
    send data_bytes enc_frame hdl_ba gap_wait_for_connection
gattc_read-read_rsp w g later t a b c d e f h rsp val rest v s hg ht hb hh hv hr = ground (
  arith,
  ble_bytes-from_wire t (six a b c d e f) ht hb,
  hdl_int-hdl_hex h hh,
  gatt_dec_read_rsp-answer rsp val rest hv,
  hg,
  hr,
)

below_u16 : (n : ℕ) → n < 65536 → ltb n 65536 ≡ true
below_u16 n h = ground arith

write_ba-digits :
    (t a b c d e f h : ℕ) (val : Bytes)
    → t < 256
    → IsBytes (six a b c d e f)
    → h < 65536
    → IsBytes val
    → length val < 32000
    → write_ba encoded_val_ba
        (ble_from_wire t (six a b c d e f))
        (hex (hdl_hex h))
        (str_val (upper (hexlify val)))
        none
      ≡ ok (t ∷ six a b c d e f ++ le16 h ++ le16 (length val) ++ val)
unfolding write_ba multiply encoded_val_ba
write_ba-digits t a b c d e f h val ht hb hh kv hv =
    rw
      (
        ble_bytes-from_wire t (six a b c d e f) ht hb,
        hdl_int-hdl_hex h hh,
        unhexlify-upper-hexlify val kv,
        below_u16 h hh,
        below_u16 (length val) (omega arith),
      )
      refl

gattc_write-write_rsp :
    (w : World) (g : Gap) (later : List (Header × Bytes)) (t a b c d e f h rsp : ℕ) (val : Bytes)
    (v : GattValue) (s : String)
    → w.stack.gap ≡ some g
    → t < 256
    → IsBytes (six a b c d e f)
    → h < 65536
    → IsBytes val
    → length val < 32000
    → att_rsp rsp ≡ ok s
    → (gattc_write
            (ble_from_wire t (six a b c d e f))
            (hex (hdl_hex h))
            (str_val (upper (hexlify val)))
            none
          >> gattc_write_rsp (some v))
        (answered Ops.gatt_write (rsp ∷ []) later w)
      ≡ (
        ok (some (record v { att_rsp = some s })),
        exchanged Ops.gatt_write
            (t ∷ six a b c d e f ++ le16 h ++ le16 (length val) ++ val)
            later
            w,
      )
unfolding gattc_write gattc_write_rsp write_response set_status gatt_rsp gatt_dec_write_rsp read
    btp_hdr_check send_from send data_bytes enc_frame gap_wait_for_connection
gattc_write-write_rsp w g later t a b c d e f h rsp val v s hg ht hb hh kv hv hr =
    ground (arith, write_ba-digits t a b c d e f h val ht hb hh kv hv, hg, hr)

-- With a connection's address from an event and a handle given as a text of four upper-case
-- digits, `gattc_read` and `gattc_read_rsp` send exactly the address and the handle and return the
-- text of the ATT response and the value in upper-case digits, whatever bytes follow the value;
-- and `gattc_write` with that text and `gattc_write_rsp` send the same bytes again, with the
-- address, the handle and their number, and return the text of the ATT response. Each takes its
-- response from the queue, and nothing else changes.
pub gattc_write-gattc_read :
    (w : World) (g : Gap) (later : List (Header × Bytes)) (t a b c d e f h rsp : ℕ)
    (val rest : Bytes) (v : GattValue) (s : String)
    → w.stack.gap ≡ some g
    → t < 256
    → IsBytes (six a b c d e f)
    → h < 65536
    → IsBytes val
    → length val < 32000
    → att_rsp rsp ≡ ok s
    → ((gattc_read (ble_from_wire t (six a b c d e f)) (hex (hdl_hex h)) >> gattc_read_rsp (some v))
          (answered Ops.gatt_read (read_answer rsp val rest) later w)
        ≡ (
          ok (some (record { att_rsp = some s; value = some (upper (hexlify val)) })),
          exchanged Ops.gatt_read (t ∷ six a b c d e f ++ le16 h) later w,
        ))
      × ((gattc_write
                (ble_from_wire t (six a b c d e f))
                (hex (hdl_hex h))
                (str_val (upper (hexlify val)))
                none
              >> gattc_write_rsp (some v))
            (answered Ops.gatt_write (rsp ∷ []) later w)
          ≡ (
            ok (some (record v { att_rsp = some s })),
            exchanged Ops.gatt_write
                (t ∷ six a b c d e f ++ le16 h ++ le16 (length val) ++ val)
                later
                w,
          ))
gattc_write-gattc_read w g later t a b c d e f h rsp val rest v s hg ht hb hh kv hv hr = (
  gattc_read-read_rsp w g later t a b c d e f h rsp val rest v s hg ht hb hh (omega arith) hr,
  gattc_write-write_rsp w g later t a b c d e f h rsp val v s hg ht hb hh kv hv hr,
)
