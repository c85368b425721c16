-- ===== src/Examples/Values.antt =====
-- Reading and writing a value at concrete inputs.
use btptester_core.Prelude.{Bytes, ◌≡◌, refl, none, some, [], ◌∷◌, ◌++◌, arith, length}
use btptester_core.Result.{ok}
use btptester_core.Struct.{le16}
use btptester_core.Hex.{hexlify, upper}
use btptester_core.Defs.Gatt as Ops
use btptester_core.Dict
use btptester_core.Gap
use btptester_core.Gatt.{new_value}
use btptester_core.Stack
use btptester_core.Address.{ble_from_wire}
use btptester_core.GattDb.Handles.{hex, hdl_hex}
use btptester_core.Events.Gap.Found.{six}
use btptester_core.Events.GattCl.Values.{att_rsp}
use btptester_core.Exec.{◌>>◌}
use btptester_core.Worker.{World}
use btptester_core.Commands.Args.{str_val}
use btptester_core.Commands.Gatts.Wire.{exchanged}
use btptester_core.Commands.Gattc.Values.{gattc_read, gattc_write}
use btptester_core.Commands.Gattc.Responses.{gattc_read_rsp, gattc_write_rsp}
use btptester_core.Commands.Gattc.Responses.Stored.{answered}
use btptester_core.Commands.Gattc.Exchange.{read_answer, gattc_write-gattc_read}

abbrev linked : World
linked = record { stack = record Stack.init { gap = some Gap.init }; sent = []; rx_queue = [] }

abbrev written : Bytes
written = 0xab ∷ 0xcd ∷ []

no_error : att_rsp 0 ≡ ok "No error"
unfolding att_rsp Dict.get
no_error = refl

gattc_write-gattc_read_example :
    ((gattc_read (ble_from_wire 1 (six 1 2 3 4 5 6)) (hex (hdl_hex 0x2a))
          >> gattc_read_rsp (some new_value))
        (answered Ops.gatt_read (read_answer 0 written []) [] linked)
      ≡ (
        ok (some (record { att_rsp = some "No error"; value = some (upper (hexlify written)) })),
        exchanged Ops.gatt_read (1 ∷ six 1 2 3 4 5 6 ++ le16 0x2a) [] linked,
      ))
    × ((gattc_write
              (ble_from_wire 1 (six 1 2 3 4 5 6))
              (hex (hdl_hex 0x2a))
              (str_val (upper (hexlify written)))
              none
            >> gattc_write_rsp (some new_value))
          (answered Ops.gatt_write (0 ∷ []) [] linked)
        ≡ (
          ok (some (record new_value { att_rsp = some "No error" })),
          exchanged Ops.gatt_write
              (1 ∷ six 1 2 3 4 5 6 ++ le16 0x2a ++ le16 (length written) ++ written)
              []
              linked,
        ))
gattc_write-gattc_read_example =
    gattc_write-gattc_read linked Gap.init [] 1 1 2 3 4 5 6 0x2a 0 written [] new_value "No error"
      refl (omega arith)
      (omega arith, (omega arith, (omega arith, (omega arith, (omega arith, (omega arith, tt))))))
      (omega arith) (omega arith, (omega arith, tt)) (omega arith) no_error
