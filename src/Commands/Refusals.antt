-- ===== src/Commands/Refusals.antt =====
-- Commands that cannot succeed, because a call in them is refused by Python.
use btptester_core.Prelude.{true, false, ℕ, ◌≡◌, Bool, Option, List, [], ◌∷◌, All, arith, Text}
use btptester_core.Result.{Result, ok, err, type_error}
use btptester_core.GattDb.Handles.{Handle}
use btptester_core.Address.{BleAddress}
use btptester_core.Worker.{World, Btp, send_wait_rsp, send_wait_rsp_cb, socket_send}
use btptester_core.Dict
use btptester_core.Commands.Args.{Val, str_val, Number, val_ba, multiply}
use btptester_core.Dict.{Dict}
use btptester_core.GattDb.{GattDb}
use btptester_core.Commands.Gap.{gap_wait_for_connection}
use btptester_core.Commands.Gatts.Decode.{AttrInfo, Parsed}
use btptester_core.Commands.Gatts.Attributes.{
  gatts_get_attrs, gatt_server_fetch_db, gatts_get_attribute_values, fetch_attrs, attribute_values,
  get_val, call_get_attr_val,
}
use btptester_core.Commands.Gattc.Values.{
  gattc_read_multiple, gattc_write_without_rsp, gattc_signed_write, write_ba,
}
use btptester_core.Commands.L2cap.{l2cap_send_data}
use btptester_core.Commands.Mesh.{
  mesh_config_prov, mesh_prov_node, mesh_init, mesh_reset, mesh_input_number, mesh_input_string,
  mesh_iv_update_test_mode, mesh_net_send, mesh_health_generate_faults, mesh_health_clear_faults,
  mesh_lpn, mesh_lpn_poll, mesh_model_send, mesh_lpn_subscribe, mesh_lpn_unsubscribe,
  mesh_rpl_clear, mesh_proxy_identity,
}

abbrev is_err : {A : Type 0} → Result A → Bool
is_err (ok a) = false
is_err (err e) = true

-- Raises, and leaves the stack, what was sent and the queue as they were.
abbrev IsRefused : {A : Type 0} → World → Btp A → Type 0
IsRefused w m = (is_err (m w).0 ≡ true) × ((m w).1 ≡ w)

mesh_config_prov-IsRefused : (w : World) → IsRefused w mesh_config_prov
unfolding mesh_config_prov send_wait_rsp send_wait_rsp_cb socket_send Dict.get
mesh_config_prov-IsRefused w = ground arith

mesh_prov_node-IsRefused : (w : World) → IsRefused w mesh_prov_node
unfolding mesh_prov_node send_wait_rsp send_wait_rsp_cb socket_send Dict.get
mesh_prov_node-IsRefused w = ground arith

mesh_net_send-IsRefused :
    (w : World) (ttl : Option Handle) (src dst : Handle) (payload : Text)
    → IsRefused w (mesh_net_send ttl src dst payload)
unfolding mesh_net_send send_wait_rsp send_wait_rsp_cb socket_send Dict.get
mesh_net_send-IsRefused w ttl src dst payload = ground arith

mesh_model_send-IsRefused :
    (w : World) (src dst : Handle) (payload : Text) → IsRefused w (mesh_model_send src dst payload)
unfolding mesh_model_send send_wait_rsp send_wait_rsp_cb socket_send Dict.get
mesh_model_send-IsRefused w src dst payload = ground arith

-- Each Mesh command but `mesh_iv_update_toggle`, with any arguments.
abbrev mesh_commands :
    Handle → Handle → Option Handle → Text → Number → Val → Bool → List (Btp (Unit {0}))
mesh_commands src dst ttl payload number string enable =
    mesh_config_prov
    ∷ mesh_prov_node
    ∷ mesh_init
    ∷ mesh_reset
    ∷ mesh_input_number number
    ∷ mesh_input_string string
    ∷ mesh_iv_update_test_mode enable
    ∷ mesh_net_send ttl src dst payload
    ∷ mesh_health_clear_faults
    ∷ mesh_lpn enable
    ∷ mesh_lpn_poll
    ∷ mesh_model_send src dst payload
    ∷ mesh_lpn_subscribe dst
    ∷ mesh_lpn_unsubscribe dst
    ∷ mesh_rpl_clear
    ∷ mesh_proxy_identity
    ∷ []

-- Every Mesh command but `mesh_iv_update_toggle` raises, whatever its arguments and the stack, and
-- nothing is sent, read or changed.
mesh_commands-IsRefused :
    (w : World) (src dst : Handle) (ttl : Option Handle) (payload : Text) (number : Number)
    (string : Val) (enable : Bool)
    → All (IsRefused w) (mesh_commands src dst ttl payload number string enable)
      × IsRefused w mesh_health_generate_faults
unfolding mesh_init mesh_reset mesh_input_number mesh_input_string mesh_iv_update_test_mode
    mesh_health_clear_faults mesh_lpn mesh_lpn_poll mesh_lpn_subscribe mesh_lpn_unsubscribe
    mesh_rpl_clear mesh_proxy_identity mesh_health_generate_faults send_wait_rsp send_wait_rsp_cb
    socket_send Dict.get
mesh_commands-IsRefused w src dst ttl payload number string enable = ground (
  arith,
  mesh_config_prov-IsRefused w,
  mesh_prov_node-IsRefused w,
  mesh_net_send-IsRefused w ttl src dst payload,
  mesh_model_send-IsRefused w src dst payload,
)

-- The commands that make a bytearray of a text, each with any arguments.
abbrev text_commands : BleAddress → Handle → ℕ → Text → Option ℕ → List Text → List (Btp (Unit {0}))
text_commands bd_addr hdl chan_id val val_mtp hdls =
    gattc_read_multiple bd_addr hdls
    ∷ gattc_write_without_rsp bd_addr hdl (str_val val) val_mtp
    ∷ gattc_signed_write bd_addr hdl (str_val val) val_mtp
    ∷ l2cap_send_data chan_id (str_val val) val_mtp
    ∷ []

-- `gattc_read_multiple` with any handles, and `gattc_write_without_rsp`, `gattc_signed_write` and
-- `l2cap_send_data` with a value that is a text, raise, whatever the other arguments and the stack,
-- and nothing is sent, read or changed.
text_commands-IsRefused :
    (w : World) (bd_addr : BleAddress) (hdl : Handle) (chan_id : ℕ) (val : Text)
    (val_mtp : Option ℕ) (hdls : List Text)
    → All (IsRefused w) (text_commands bd_addr hdl chan_id val val_mtp hdls)
unfolding gattc_read_multiple gattc_write_without_rsp gattc_signed_write l2cap_send_data write_ba
    val_ba multiply gap_wait_for_connection
text_commands-IsRefused w bd_addr hdl chan_id val val_mtp hdls = ground arith

-- what comes of the attributes that the device has listed
abbrev fetched : Result (List AttrInfo) × World → GattDb → Result (Unit {0}) × (World × GattDb)
fetched (ok [], w) db = (ok tt, (w, db))
fetched (ok (attr ∷ attrs), w) db = (err type_error, (w, db))
fetched (err e, w) db = (err e, (w, db))

abbrev values_of : List AttrInfo → Result (Dict ℕ Parsed)
values_of [] = ok []
values_of (attr ∷ attrs) = err type_error

-- `gatt_server_fetch_db` and `gatts_get_attribute_values` raise a TypeError at the first attribute,
-- which they ask for without an address: no value is read, and nothing is added to the database.
server_reads_refused :
    (start end : Handle) (uuid : Option Text) (attrs : List AttrInfo) (w : World) (db : GattDb)
    → (gatt_server_fetch_db start end uuid (w, db) ≡ fetched (gatts_get_attrs start end uuid w) db)
      × (gatts_get_attribute_values attrs w ≡ (values_of attrs, w))
unfolding gatt_server_fetch_db gatts_get_attribute_values fetch_attrs attribute_values get_val
    call_get_attr_val
server_reads_refused start end uuid attrs w db = ground arith
