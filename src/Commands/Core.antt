-- ===== src/Commands/Core.antt =====
-- The core service commands of pybtp/btp.py: supported services, registration.
use btptester_core.Prelude.{
  ℕ, Bool, true, false, ◌&&◌, none, some, [], ◌∷◌, Bytes, text_eq, ◌/◌, ◌%◌, ◌^◌, drop, ◌==◌,
}
use btptester_core.Result.{Result, ok, err, btp_error, index_error}
use btptester_core.Defs.Core.{
  btp_service_id_core, core_read_supported_services, core_register_service, btp_index_none,
}
use btptester_core.Parser.{Header}
use btptester_core.Exec.{lift, modify, ◌>>=◌, ◌>>◌}
use btptester_core.Worker.{Btp, send_from, read, send_wait_rsp}
use btptester_core.Commands.Table.Core.{core}
use btptester_core.Commands.Response.{btp_hdr_check}

unfoldable pub read_supp_svcs : Btp (Unit {0})
read_supp_svcs = do
  send_from core "read_supp_svcs" none
  (tuple_hdr, tuple_data) ← read
  lift (btp_hdr_check tuple_hdr btp_service_id_core (some core_read_supported_services))
  modify (λ w. record w { stack = record w.stack { supported_svcs = some tuple_data } })

-- `(data[bit // 8] & (1 << bit % 8)) != 0`; IndexError behind the end
abbrev bit_of : Bytes → ℕ → Result Bool
bit_of [] bit = err index_error
bit_of (b ∷ rest) bit = ok (b / 2 ^ (bit % 8) % 2 == 1)

unfoldable pub check_bit : Bytes → ℕ → Result Bool
check_bit dat bit = bit_of (drop (bit / 8) dat) bit

-- (tuple_hdr, tuple_data) == expected_frame for an expected payload of no bytes
abbrev is_plain : ℕ → Header → Bytes → Bool
is_plain op hdr dat =
    (hdr.svc_id == btp_service_id_core)
    && ((hdr.op == op)
        && ((hdr.ctrl_index == btp_index_none) && ((hdr.data_len == 0) && text_eq dat [])))

abbrev raise_unless : Bool → Result (Unit {0})
raise_unless true = ok tt
raise_unless false = err btp_error

unfoldable pub core_reg_svc_rsp_succ : Btp (Unit {0})
core_reg_svc_rsp_succ = do
  (tuple_hdr, tuple_data) ← read
  lift (raise_unless (is_plain core_register_service tuple_hdr tuple_data))

-- The payload is compared with the text '', and in Python no byte string is equal to a text.
unfoldable pub core_unreg_svc_rsp_succ : Btp (Unit {0})
core_unreg_svc_rsp_succ = do (tuple_hdr, tuple_data) ← read; lift (raise_unless false)

unfoldable pub core_reg_svc_gap : Btp (Unit {0})
unfolding core_reg_svc_rsp_succ
core_reg_svc_gap = do send_from core "gap_reg" none; core_reg_svc_rsp_succ

unfoldable pub core_unreg_svc_gap : Btp (Unit {0})
unfolding core_unreg_svc_rsp_succ
core_unreg_svc_gap = do send_from core "gap_unreg" none; core_unreg_svc_rsp_succ

unfoldable pub core_reg_svc_gatt : Btp (Unit {0})
unfolding core_reg_svc_rsp_succ
core_reg_svc_gatt = do send_from core "gatt_reg" none; core_reg_svc_rsp_succ

unfoldable pub core_unreg_svc_gatt : Btp Bytes
core_unreg_svc_gatt = send_wait_rsp core "gatt_unreg" none

unfoldable pub core_reg_svc_l2cap : Btp (Unit {0})
unfolding core_reg_svc_rsp_succ
core_reg_svc_l2cap = do send_from core "l2cap_reg" none; core_reg_svc_rsp_succ

unfoldable pub core_unreg_svc_l2cap : Btp Bytes
core_unreg_svc_l2cap = send_wait_rsp core "l2cap_unreg" none

unfoldable pub core_reg_svc_mesh : Btp (Unit {0})
unfolding core_reg_svc_rsp_succ
core_reg_svc_mesh = do send_from core "mesh_reg" none; core_reg_svc_rsp_succ

unfoldable pub core_unreg_svc_mesh : Btp Bytes
core_unreg_svc_mesh = send_wait_rsp core "mesh_unreg" none

unfoldable pub core_reg_svc_gatt_cl : Btp (Unit {0})
unfolding core_reg_svc_rsp_succ
core_reg_svc_gatt_cl = do send_from core "gatt_cl_reg" none; core_reg_svc_rsp_succ

unfoldable pub core_unreg_svc_gatt_cl : Btp Bytes
core_unreg_svc_gatt_cl = send_wait_rsp core "gatt_cl_unreg" none
