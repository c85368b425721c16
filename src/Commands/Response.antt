-- ===== src/Commands/Response.antt =====
-- Checking the header of a response (`btp_hdr_check` of pybtp/btp.py) and reading one.
use btptester_core.Prelude.{
  ℕ, Bool, not, ◌&&◌, ◌≡◌, ◌≢◌, ◌↔◌, Option, none, some, Bytes, ◌==◌, arith, if◌then◌else◌,
}
use btptester_core.Result.{
  Result, ok, err, btp_error_invalid_service_id, btp_error_invalid_status, btp_error_invalid_opcode,
}
use btptester_core.Defs.Core.{btp_status, btp_service_id_gap}
use btptester_core.Parser.{Header}
use btptester_core.Exec.{lift, pure, ◌>>=◌, ◌>>◌}
use btptester_core.Worker.{Btp, read}

-- `exp_op and exp_op != op`: no opcode, and the opcode 0, are not compared
abbrev wrong_op : Option ℕ → ℕ → Bool
wrong_op none op = Bool.false
wrong_op (some exp_op) op = not (exp_op == 0) && not (exp_op == op)

unfoldable pub btp_hdr_check : Header → ℕ → Option ℕ → Result (Unit {0})
btp_hdr_check rcv_hdr exp_svc_id exp_op =
    if not (rcv_hdr.svc_id == exp_svc_id)
    then err btp_error_invalid_service_id
    else if rcv_hdr.op == btp_status
    then err btp_error_invalid_status
    else if wrong_op exp_op rcv_hdr.op
    then err btp_error_invalid_opcode
    else ok tt

-- read(), then the check; the payload is returned
unfoldable pub gap_command_rsp_succ : Option ℕ → Btp Bytes
gap_command_rsp_succ op = do
  (tuple_hdr, tuple_data) ← read
  lift (btp_hdr_check tuple_hdr btp_service_id_gap op)
  pure tuple_data

-- A header is accepted exactly if it has the expected service, is no status message and, where an
-- opcode other than 0 is expected, has that opcode.
pub btp_hdr_check_iff :
    (h : Header) (svc_id op : ℕ)
    → op ≢ 0
    → (btp_hdr_check h svc_id (some op) ≡ ok tt) ↔ ((h.svc_id ≡ svc_id) × (h.op ≡ op))
unfolding btp_hdr_check
btp_hdr_check_iff h svc_id op n = ground arith
